-- ===== src/Asm/Dump.antt =====
-- The dumps of rocketasm/program.c: the bytes that they print for a program.
pub mod Words
pub mod Numbers
pub mod Operands
pub mod Lines
pub mod Reread
use rocketvm.Base.{ℕ, suc, List, [], ◌∷◌, ◌++◌, length}
use rocketvm.Base.Print.{bytes, decimal, hexadecimal, padded}
use rocketvm.Isa.Names.{opcode_to_string, reg_to_string}
use rocketvm.Asm.Program.{
  Bytes, MemOperand, mem_none, mem_imm, mem_reg, mem_label, Operand, absent, imm, reg, label, mem,
  invalid, AsmInstr, Label, Program,
}

-- The switch on the type of a memory operand.
unfoldable pub dump_mem : MemOperand → Bytes
dump_mem (mem_imm n) = decimal n
dump_mem (mem_reg r) = reg_to_string r
dump_mem (mem_label name) = name
dump_mem mem_none = bytes "?"

-- `rsm_dump_operand`.
unfoldable pub dump_operand : Operand → Bytes
dump_operand absent = bytes "none"
dump_operand (imm n) = decimal n
dump_operand (reg r) = reg_to_string r
dump_operand (label name) = name
dump_operand (mem m) = b'[' ∷ dump_mem m ++ b']' ∷ []
dump_operand invalid = bytes "invalid"

-- The second operand with the comma before it.
unfoldable pub dump_second : Operand → Bytes
dump_second absent = []
dump_second b = b',' ∷ b' ' ∷ dump_operand b

unfoldable pub dump_first : Operand → Bytes
dump_first absent = []
dump_first a = dump_operand a

-- An instruction behind its number, with the line feed.
unfoldable pub dump_instr : AsmInstr → Bytes
dump_instr instr =
    opcode_to_string instr.opcode
    ++ (b' ' ∷ (dump_first instr.opr1 ++ (dump_second instr.opr2 ++ b'\n' ∷ [])))

-- `[%04zu] `.
abbrev pub number_field : ℕ → Bytes
number_field i = b'[' ∷ padded 4 b'0' (decimal i) ++ b']' ∷ b' ' ∷ []

unfoldable pub dump_instrs_from : ℕ → List AsmInstr → Bytes
dump_instrs_from i [] = []
dump_instrs_from i (instr ∷ instrs) =
    number_field i ++ (dump_instr instr ++ dump_instrs_from (suc i) instrs)

-- `rsm_program_dump_instrs`.
unfoldable pub dump_instrs : Program → Bytes
dump_instrs prog =
    bytes "=== PROGRAM INSTRUCTIONS ("
    ++ decimal (length prog.instrs)
    ++ bytes ") ==="
    ++ b'\n' ∷ dump_instrs_from 0 prog.instrs

unfoldable pub dump_labels_from : ℕ → List Label → Bytes
dump_labels_from i [] = []
dump_labels_from i (l ∷ ls) =
    number_field i
    ++ l.name
    ++ bytes " -> 0x"
    ++ padded 4 b'0' (hexadecimal l.address)
    ++ bytes " ("
    ++ decimal l.address
    ++ b')' ∷ b'\n' ∷ dump_labels_from (suc i) ls

-- `rsm_program_dump_labels`.
unfoldable pub dump_labels : Program → Bytes
dump_labels prog =
    bytes "=== PROGRAM LABELS ("
    ++ decimal (length prog.labels)
    ++ bytes ") ==="
    ++ b'\n' ∷ dump_labels_from 0 prog.labels
