-- ===== src/Cpu/Dump.antt =====
-- rocketvm/cpu/cpu_debug.c: the messages that `rvm_cpu_dump` and `rvm_instr_dump` log at the level
-- DEBUG.
use rocketvm.Base.{
  ℕ, zero, suc, ◌+◌, ◌-◌, Bool, ltb, if◌then◌else◌, List, [], ◌∷◌, ◌++◌, map, Option, none, some,
}
use rocketvm.Base.Print.{bytes, decimal, hexadecimal, padded}
use rocketvm.Isa.Names.{opcode_to_string, instr_mode_to_string}
use rocketvm.Isa.Opcode.{Opcode, opcode_of}
use rocketvm.Isa.Instr.{Instr}
use rocketvm.Cpu.State.{Cpu}
use rocketvm.Cpu.Flags.{flag_rz, flag_rn, flag_rc, flag_ro, check}

-- `%X` prints the letters of `%x` in upper case.
unfoldable pub upper : ℕ → ℕ
upper c = if ltb c b'a' then c else c - 32

abbrev upper_hex : ℕ → List ℕ
upper_hex n = map upper (hexadecimal n)

-- `0x%04X`.
abbrev hex4 : ℕ → List ℕ
hex4 n = bytes "0x" ++ padded 4 b'0' (upper_hex n)

abbrev bit : Bool → List ℕ
bit b = if b then bytes "1" else bytes "0"

-- The messages on the general registers from number `i` on.
unfoldable dump_registers : ℕ → ℕ → Cpu → List (List ℕ)
dump_registers zero i cpu = []
dump_registers (suc n) i cpu =
    (bytes "RV"
      ++ (decimal i
          ++ (bytes ": "
              ++ (hex4 (cpu.regs.rv i)
                  ++ (bytes " (" ++ (padded 5 b' ' (decimal (cpu.regs.rv i)) ++ bytes ")"))))))
    ∷ dump_registers n (i + 1) cpu

-- `rvm_cpu_dump`.
unfoldable cpu_dump : Cpu → List (List ℕ)
cpu_dump cpu =
    let flag = λ (f : ℕ). bit (check f cpu.regs.flags) in
    bytes "==== CPU STATE ===="
    ∷ (bytes "RIP: " ++ hex4 cpu.regs.rip)
    ∷ (bytes "RSP: " ++ hex4 cpu.regs.rsp)
    ∷ (bytes "RSB: " ++ hex4 cpu.regs.rsb)
    ∷ (dump_registers 8 0 cpu
        ++ ((bytes "FLAGS: 0x" ++ upper_hex cpu.regs.flags)
            ∷ (bytes "  RZ="
                ++ (flag flag_rz
                    ++ (bytes " RN="
                        ++ (flag flag_rn
                            ++ (bytes " RC="
                                ++ (flag flag_rc ++ (bytes " RO=" ++ flag flag_ro)))))))
            ∷ bytes "==================="
            ∷ []))

-- `rvm_opcode_to_string` on the opcode of an instruction.
unfoldable pub opcode_name : Option Opcode → List ℕ
opcode_name none = bytes "INVALID_OPCODE"
opcode_name (some op) = opcode_to_string op

-- `rvm_instr_dump`.
unfoldable pub instr_dump : Instr → List ℕ
instr_dump instr =
    bytes "INSTR: opcode="
    ++ (opcode_name (opcode_of instr.opcode)
        ++ (bytes " reg=RV"
            ++ (decimal instr.reg
                ++ (bytes " mode="
                    ++ (instr_mode_to_string instr.mode
                        ++ (bytes " operand=0x" ++ padded 2 b'0' (upper_hex instr.operand)))))))
