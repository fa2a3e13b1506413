-- ===== src/Asm/Program.antt =====
-- rocketasm/program.h and program.c: operands, instructions, labels, and the growing arrays of a
-- program. A name is the bytes that `name` and `name_len` delimit. Whether `realloc` finds room for
-- a capacity is the parameter `room`.
pub mod Laws
use rocketvm.Base.{
  ℕ, ◌*◌, Bool, true, false, ◌&&◌, ◌==◌, leb, if◌then◌else◌, List, [], ◌∷◌, ◌++◌, length, Option,
  none, some,
}
use rocketvm.Isa.Opcode.{Opcode}

abbrev pub Bytes : Type 0
Bytes = List ℕ

-- `rsm_mem_type_t`, each with its member of the union.
pub data MemOperand : Type 0 where
  mem_none : MemOperand
  mem_imm : ℕ → MemOperand
  mem_reg : ℕ → MemOperand
  mem_label : Bytes → MemOperand

-- `rsm_operand_t`: the type with its member of the union. Immediates come from the lexer, which
-- reads no sign, so they are natural numbers.
pub data Operand : Type 0 where
  absent : Operand
  imm : ℕ → Operand
  reg : ℕ → Operand
  label : Bytes → Operand
  mem : MemOperand → Operand
  invalid : Operand

-- `rsm_instr_t`.
pub record AsmInstr : Type 0 where
  pub opcode : Opcode
  pub opr1 : Operand
  pub opr2 : Operand

-- `rsm_label_t`; the address is the number of the instruction that follows.
pub record Label : Type 0 where
  pub name : Bytes
  pub address : ℕ

-- `rsm_program_t`; the counts are the lengths of the lists.
pub record Program : Type 0 where
  pub instrs : List AsmInstr
  pub instr_capacity : ℕ
  pub labels : List Label
  pub label_capacity : ℕ

-- `rsm_program_create`, where the allocations succeed.
abbrev pub create : Program
create = record { instrs = []; instr_capacity = 1024; labels = []; label_capacity = 1024 }

-- `rsm_program_push_instr`; `none` is the -1 of a failed `realloc`.
unfoldable pub push_instr : (ℕ → Bool) → Program → AsmInstr → Option Program
push_instr room prog instr =
    let pushed = prog.instrs ++ instr ∷ [] in
    let new_cap = prog.instr_capacity * 2 in
    if leb prog.instr_capacity (length prog.instrs)
    then (if room new_cap
        then some (record prog { instrs = pushed; instr_capacity = new_cap })
        else none)
    else some (record prog { instrs = pushed })

-- `rsm_program_push_label`.
unfoldable pub push_label : (ℕ → Bool) → Program → Label → Option Program
push_label room prog new_label =
    let pushed = prog.labels ++ new_label ∷ [] in
    let new_cap = prog.label_capacity * 2 in
    if leb prog.label_capacity (length prog.labels)
    then (if room new_cap
        then some (record prog { labels = pushed; label_capacity = new_cap })
        else none)
    else some (record prog { labels = pushed })

-- Equal lengths and `strncmp` of 0: the names have no NUL, since the lexer takes them from letters,
-- digits and underscores.
unfoldable pub same_name : Bytes → Bytes → Bool
same_name [] [] = true
same_name (x ∷ xs) (y ∷ ys) = x == y && same_name xs ys
same_name _ _ = false

-- The loop of `rsm_program_find_label_address`: the first label of that name; `none` is -1.
unfoldable pub find_label : List Label → Bytes → Option ℕ
find_label [] name = none
find_label (l ∷ ls) name = if same_name l.name name then some l.address else find_label ls name

-- `rsm_program_find_label_address`.
abbrev pub find_label_address : Program → Bytes → Option ℕ
find_label_address prog name = find_label prog.labels name
