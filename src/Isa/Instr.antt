-- ===== src/Isa/Instr.antt =====
-- rocketvm/common/isa/instruction.h: modes and decoded instructions.
use rocketvm.Base.{ℕ}

-- The enumerators of `rvm_instr_mode_t`.
abbrev pub mode_imm_or_addr : ℕ
mode_imm_or_addr = 0x0

abbrev pub mode_reg : ℕ
mode_reg = 0x1

-- `rvm_instr_t`. The enumerations are kept as the integers that C stores.
pub record Instr : Type 0 where
  pub raw : ℕ
  pub opcode : ℕ
  pub reg : ℕ
  pub mode : ℕ
  pub operand : ℕ
