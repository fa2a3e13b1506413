-- ===== src/Isa/Encoder.antt =====
-- rocketvm/common/isa/encoder.h: `rvm_encode` and the functions that build one instruction word.
-- Each is written with the shifts, masks and casts of the source. Those that take a signed offset
-- begin with an `assert`: `none` stands for the failed assertion of a build without NDEBUG.
pub mod Layout
use rocketvm.Base.{
  ℕ, ◌^◌, ◌%◌, ◌<<<◌, bit_and, bit_or, Bool, ◌&&◌, Option, none, some, if◌then◌else◌,
}
use rocketvm.Base.Int.{ℤ, pos, negsuc, leb_ℤ, unsigned16}
use rocketvm.Isa.Opcode.{
  opcode_value, mov, load, store, add, sub, mul, div, modulo, shl, shr, cmp, jmp, jz, jnz, call,
  ret,
}
use rocketvm.Isa.Instr.{mode_imm_or_addr, mode_reg}

-- `rvm_encode`.
unfoldable pub encode : ℕ → ℕ → ℕ → ℕ → ℕ
encode opcode reg mode operand =
    bit_or
      (bit_or (bit_or (bit_and opcode 0xF % 2 ^ 16 <<< 12) (bit_and reg 0x7 % 2 ^ 16 <<< 9))
        (bit_and mode 0x1 % 2 ^ 16 <<< 8))
      (bit_and operand 0xFF % 2 ^ 16)
    % 2 ^ 16

-- `rvm_mov_imm`.
abbrev pub mov_imm : ℕ → ℕ → ℕ
mov_imm rvd imm = encode (opcode_value mov) rvd mode_imm_or_addr imm

-- `rvm_mov_reg`.
abbrev pub mov_reg : ℕ → ℕ → ℕ
mov_reg rvd rvs = encode (opcode_value mov) rvd mode_reg (rvs % 2 ^ 8)

-- `rvm_load_addr`.
abbrev pub load_addr : ℕ → ℕ → ℕ
load_addr rvd addr = encode (opcode_value load) rvd mode_imm_or_addr addr

-- `rvm_load_reg`.
abbrev pub load_reg : ℕ → ℕ → ℕ
load_reg rvd rvs = encode (opcode_value load) rvd mode_reg (rvs % 2 ^ 8)

-- `rvm_store_addr`.
abbrev pub store_addr : ℕ → ℕ → ℕ
store_addr rvs addr = encode (opcode_value store) rvs mode_imm_or_addr addr

-- `rvm_store_reg`.
abbrev pub store_reg : ℕ → ℕ → ℕ
store_reg rvs raddr = encode (opcode_value store) rvs mode_reg (raddr % 2 ^ 8)

-- `rvm_add_imm`.
abbrev pub add_imm : ℕ → ℕ → ℕ
add_imm rvd imm = encode (opcode_value add) rvd mode_imm_or_addr imm

-- `rvm_add_reg`.
abbrev pub add_reg : ℕ → ℕ → ℕ
add_reg rvd rvs = encode (opcode_value add) rvd mode_reg (rvs % 2 ^ 8)

-- `rvm_sub_imm`.
abbrev pub sub_imm : ℕ → ℕ → ℕ
sub_imm rvd imm = encode (opcode_value sub) rvd mode_imm_or_addr imm

-- `rvm_sub_reg`.
abbrev pub sub_reg : ℕ → ℕ → ℕ
sub_reg rvd rvs = encode (opcode_value sub) rvd mode_reg (rvs % 2 ^ 8)

-- `rvm_mul_imm`.
abbrev pub mul_imm : ℕ → ℕ → ℕ
mul_imm rvd imm = encode (opcode_value mul) rvd mode_imm_or_addr imm

-- `rvm_mul_reg`.
abbrev pub mul_reg : ℕ → ℕ → ℕ
mul_reg rvd rvs = encode (opcode_value mul) rvd mode_reg (rvs % 2 ^ 8)

-- `rvm_div_imm`.
abbrev pub div_imm : ℕ → ℕ → ℕ
div_imm rvd imm = encode (opcode_value div) rvd mode_imm_or_addr imm

-- `rvm_div_reg`.
abbrev pub div_reg : ℕ → ℕ → ℕ
div_reg rvd rvs = encode (opcode_value div) rvd mode_reg (rvs % 2 ^ 8)

-- `rvm_mod_imm`.
abbrev pub mod_imm : ℕ → ℕ → ℕ
mod_imm rvd imm = encode (opcode_value modulo) rvd mode_imm_or_addr imm

-- `rvm_mod_reg`.
abbrev pub mod_reg : ℕ → ℕ → ℕ
mod_reg rvd rvs = encode (opcode_value modulo) rvd mode_reg (rvs % 2 ^ 8)

-- `rvm_shl_imm`.
abbrev pub shl_imm : ℕ → ℕ → ℕ
shl_imm rvd imm = encode (opcode_value shl) rvd mode_imm_or_addr imm

-- `rvm_shl_reg`.
abbrev pub shl_reg : ℕ → ℕ → ℕ
shl_reg rvd rvs = encode (opcode_value shl) rvd mode_reg (rvs % 2 ^ 8)

-- `rvm_shr_imm`.
abbrev pub shr_imm : ℕ → ℕ → ℕ
shr_imm rvd imm = encode (opcode_value shr) rvd mode_imm_or_addr imm

-- `rvm_shr_reg`.
abbrev pub shr_reg : ℕ → ℕ → ℕ
shr_reg rvd rvs = encode (opcode_value shr) rvd mode_reg (rvs % 2 ^ 8)

-- `rvm_cmp_imm`.
abbrev pub cmp_imm : ℕ → ℕ → ℕ
cmp_imm rvd imm = encode (opcode_value cmp) rvd mode_imm_or_addr imm

-- `rvm_cmp_reg`.
abbrev pub cmp_reg : ℕ → ℕ → ℕ
cmp_reg rvd rvs = encode (opcode_value cmp) rvd mode_reg (rvs % 2 ^ 8)

-- The assertion on `simm` in the four functions below.
abbrev pub fits_simm11 : ℤ → Bool
fits_simm11 simm = leb_ℤ (negsuc 1023) simm && leb_ℤ simm (pos 1023)

-- The word that a control-flow function returns for an offset, at the opcode it names.
unfoldable pub offset_word : ℕ → ℤ → ℕ
offset_word opcode simm =
    bit_or (bit_or (bit_and opcode 0xF % 2 ^ 16 <<< 12) (mode_imm_or_addr % 2 ^ 16 <<< 11))
      (bit_and (unsigned16 simm) 0x7FF % 2 ^ 16)
    % 2 ^ 16

-- The word that a control-flow function returns for a register, at the opcode it names.
unfoldable pub register_word : ℕ → ℕ → ℕ
register_word opcode rvd =
    bit_or (bit_or (bit_and opcode 0xF % 2 ^ 16 <<< 12) (mode_reg % 2 ^ 16 <<< 11))
      (bit_and rvd 0x7)
    % 2 ^ 16

-- `rvm_jmp_imm`.
abbrev pub jmp_imm : ℤ → Option ℕ
jmp_imm simm = if fits_simm11 simm then some (offset_word (opcode_value jmp) simm) else none

-- `rvm_jmp_reg`.
abbrev pub jmp_reg : ℕ → ℕ
jmp_reg rvd = register_word (opcode_value jmp) rvd

-- `rvm_jz_imm`.
abbrev pub jz_imm : ℤ → Option ℕ
jz_imm simm = if fits_simm11 simm then some (offset_word (opcode_value jz) simm) else none

-- `rvm_jz_reg`.
abbrev pub jz_reg : ℕ → ℕ
jz_reg rvd = register_word (opcode_value jz) rvd

-- `rvm_jnz_imm`.
abbrev pub jnz_imm : ℤ → Option ℕ
jnz_imm simm = if fits_simm11 simm then some (offset_word (opcode_value jnz) simm) else none

-- `rvm_jnz_reg`.
abbrev pub jnz_reg : ℕ → ℕ
jnz_reg rvd = register_word (opcode_value jnz) rvd

-- `rvm_call_imm`.
abbrev pub call_imm : ℤ → Option ℕ
call_imm simm = if fits_simm11 simm then some (offset_word (opcode_value call) simm) else none

-- `rvm_call_reg`.
abbrev pub call_reg : ℕ → ℕ
call_reg rvd = register_word (opcode_value call) rvd

-- `rvm_ret`.
abbrev pub ret_word : ℕ
ret_word = bit_and (opcode_value ret) 0xF % 2 ^ 16 <<< 12 % 2 ^ 16
