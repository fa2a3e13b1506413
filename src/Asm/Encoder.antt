-- ===== src/Asm/Encoder.antt =====
-- rocketasm/encoder.c. `none` is the -1 of an encoding that fails; a crash is a failed assertion of
-- the offset functions.
pub mod Jumps
pub mod Words
pub mod Accepted
use rocketvm.Base.{
  ℕ, suc, ◌+◌, ◌%◌, ◌^◌, Bool, true, false, ◌&&◌, if◌then◌else◌, List, [], ◌∷◌, Option, none, some,
}
use rocketvm.Base.Int.{ℤ, pos, negsuc, signed16, unsigned16, ◌-ℤ◌, ◌+ℤ◌, ◌==ℤ◌}
use rocketvm.Exec.{Exec, ok, crash, assertion}
use rocketvm.Isa.Opcode.{
  Opcode, mov, load, store, add, sub, mul, div, modulo, shl, shr, cmp, jmp, jz, jnz, call, ret,
}
use rocketvm.Isa.Encoder.{
  mov_imm, mov_reg, load_addr, load_reg, store_addr, store_reg, add_imm, add_reg, sub_imm, sub_reg,
  mul_imm, mul_reg, div_imm, div_reg, mod_imm, mod_reg, shl_imm, shl_reg, shr_imm, shr_reg, cmp_imm,
  cmp_reg, jmp_imm, jmp_reg, jz_imm, jz_reg, jnz_imm, jnz_reg, call_imm, call_reg, ret_word,
}
use rocketvm.Asm.Program.{
  Bytes, MemOperand, mem_none, mem_imm, mem_reg, mem_label, Operand, absent, imm, reg, label, mem,
  invalid, AsmInstr, Program, find_label_address,
}

-- A label operand has an address; any other operand has nothing to resolve.
unfoldable pub resolves : Program → Operand → Bool
resolves program (label name) = elim (find_label_address program name) [
  | none ↦ false
  | some _ ↦ true
]
resolves program _ = true

-- The loop of `rsm_resolve_labels` over the instructions.
unfoldable pub resolve_labels : Program → List AsmInstr → Bool
resolve_labels program [] = true
resolve_labels program (i ∷ is) =
    (resolves program i.opr1 && resolves program i.opr2) && resolve_labels program is

-- The distance in bytes from the instruction after `instr_idx`, or -1.
unfoldable pub offset_from : ℕ → Option ℕ → ℤ
offset_from instr_idx none = negsuc 0
offset_from instr_idx (some addr) = let d = pos addr -ℤ pos instr_idx -ℤ pos 1 in d +ℤ d

-- `rsm_resolve_label`.
unfoldable pub resolve_label : Program → Bytes → ℕ → ℤ
unfolding offset_from
resolve_label program name instr_idx = offset_from instr_idx (find_label_address program name)

-- `(uint8_t)imm`.
abbrev pub u8 : ℕ → ℕ
u8 n = n % 2 ^ 8

-- The switch over the arithmetic opcodes, at an immediate and at a register.
unfoldable pub alu_imm : Opcode → ℕ → ℕ → Option ℕ
alu_imm add rvd n = some (add_imm rvd n)
alu_imm sub rvd n = some (sub_imm rvd n)
alu_imm mul rvd n = some (mul_imm rvd n)
alu_imm div rvd n = some (div_imm rvd n)
alu_imm modulo rvd n = some (mod_imm rvd n)
alu_imm shl rvd n = some (shl_imm rvd n)
alu_imm shr rvd n = some (shr_imm rvd n)
alu_imm cmp rvd n = some (cmp_imm rvd n)
alu_imm _ rvd n = none

unfoldable pub alu_reg : Opcode → ℕ → ℕ → Option ℕ
alu_reg add rvd rvs = some (add_reg rvd rvs)
alu_reg sub rvd rvs = some (sub_reg rvd rvs)
alu_reg mul rvd rvs = some (mul_reg rvd rvs)
alu_reg div rvd rvs = some (div_reg rvd rvs)
alu_reg modulo rvd rvs = some (mod_reg rvd rvs)
alu_reg shl rvd rvs = some (shl_reg rvd rvs)
alu_reg shr rvd rvs = some (shr_reg rvd rvs)
alu_reg cmp rvd rvs = some (cmp_reg rvd rvs)
alu_reg _ rvd rvs = none

-- The word that an offset function returns, or its failed assertion.
abbrev pub asserted : Option ℕ → Exec (Option ℕ)
asserted none = crash assertion
asserted (some w) = ok (some w)

-- The switches over the control-flow opcodes, at an offset and at a register.
unfoldable pub control_imm : Opcode → ℤ → Exec (Option ℕ)
control_imm jmp simm = asserted (jmp_imm simm)
control_imm jz simm = asserted (jz_imm simm)
control_imm jnz simm = asserted (jnz_imm simm)
control_imm call simm = asserted (call_imm simm)
control_imm _ simm = ok none

unfoldable pub control_reg : Opcode → ℕ → Option ℕ
control_reg jmp rvd = some (jmp_reg rvd)
control_reg jz rvd = some (jz_reg rvd)
control_reg jnz rvd = some (jnz_reg rvd)
control_reg call rvd = some (call_reg rvd)
control_reg _ rvd = none

-- The case of MOV.
unfoldable pub encode_mov : Operand → Operand → Option ℕ
encode_mov (reg rvd) (imm n) = some (mov_imm rvd (u8 n))
encode_mov (reg rvd) (reg rvs) = some (mov_reg rvd rvs)
encode_mov _ _ = none

-- LOAD and STORE at the number that a label resolves to.
unfoldable pub load_label : ℕ → Option ℕ → Option ℕ
load_label rvd none = none
load_label rvd (some addr) = some (load_addr rvd (u8 addr))

unfoldable pub store_label : ℕ → Option ℕ → Option ℕ
store_label rvs none = none
store_label rvs (some addr) = some (store_addr rvs (u8 addr))

-- The case of LOAD.
unfoldable pub encode_load : Program → Operand → Operand → Option ℕ
encode_load program (reg rvd) (mem (mem_imm n)) = some (load_addr rvd (u8 n))
encode_load program (reg rvd) (mem (mem_reg rvs)) = some (load_reg rvd rvs)
encode_load program (reg rvd) (mem (mem_label name)) =
    load_label rvd (find_label_address program name)
encode_load program _ _ = none

-- The case of STORE.
unfoldable pub encode_store : Program → Operand → Operand → Option ℕ
encode_store program (mem (mem_imm n)) (reg rvs) = some (store_addr rvs (u8 n))
encode_store program (mem (mem_reg raddr)) (reg rvs) = some (store_reg rvs raddr)
encode_store program (mem (mem_label name)) (reg rvs) =
    store_label rvs (find_label_address program name)
encode_store program _ _ = none

-- The case of the arithmetic opcodes and CMP.
unfoldable pub encode_alu : Opcode → Operand → Operand → Option ℕ
encode_alu op (reg rvd) (imm n) = alu_imm op rvd (u8 n)
encode_alu op (reg rvd) (reg rvs) = alu_reg op rvd rvs
encode_alu op _ _ = none

-- The case of jumps and calls: a label becomes a relative offset, a register an absolute target.
unfoldable pub encode_control : Program → Opcode → Operand → ℕ → Exec (Option ℕ)
encode_control program op (label name) instr_idx =
    let simm = resolve_label program name instr_idx in
    if simm ==ℤ negsuc 0 then ok none else control_imm op (signed16 (unsigned16 simm))
encode_control program op (reg rvd) instr_idx = ok (control_reg op rvd)
encode_control program op _ instr_idx = ok none

-- `rsm_encode_instr`, by opcode.
unfoldable pub encode_op : Program → Opcode → Operand → Operand → ℕ → Exec (Option ℕ)
encode_op program mov a b idx = ok (encode_mov a b)
encode_op program load a b idx = ok (encode_load program a b)
encode_op program store a b idx = ok (encode_store program a b)
encode_op program add a b idx = ok (encode_alu add a b)
encode_op program sub a b idx = ok (encode_alu sub a b)
encode_op program mul a b idx = ok (encode_alu mul a b)
encode_op program div a b idx = ok (encode_alu div a b)
encode_op program modulo a b idx = ok (encode_alu modulo a b)
encode_op program shl a b idx = ok (encode_alu shl a b)
encode_op program shr a b idx = ok (encode_alu shr a b)
encode_op program cmp a b idx = ok (encode_alu cmp a b)
encode_op program jmp a b idx = encode_control program jmp a idx
encode_op program jz a b idx = encode_control program jz a idx
encode_op program jnz a b idx = encode_control program jnz a idx
encode_op program call a b idx = encode_control program call a idx
encode_op program ret a b idx = ok (some ret_word)

-- `rsm_encode_instr`.
abbrev pub encode_instr : Program → AsmInstr → ℕ → Exec (Option ℕ)
encode_instr program instr instr_idx =
    encode_op program instr.opcode instr.opr1 instr.opr2 instr_idx
