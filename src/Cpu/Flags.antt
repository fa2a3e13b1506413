-- ===== src/Cpu/Flags.antt =====
-- The flag register of rocketvm/cpu/cpu.h: the masks, and the macros that set, clear and check.
pub mod Laws
use rocketvm.Base.{
  ℕ, ◌+◌, ◌-◌, ◌*◌, ◌%◌, ◌^◌, bit_and, bit_or, not, ◌==◌, Bool, true, false, if◌then◌else◌,
}

abbrev pub flag_rz : ℕ
flag_rz = 1

abbrev pub flag_rn : ℕ
flag_rn = 2

abbrev pub flag_rc : ℕ
flag_rc = 4

abbrev pub flag_ro : ℕ
flag_ro = 8

-- `RVM_CPU_FLAG_CLEAR`: `flags &= (uint16_t)(~(uint16_t)(flag))`.
unfoldable pub clear : ℕ → ℕ → ℕ
clear flag flags = bit_and flags (2 ^ 16 - 1 - flag % 2 ^ 16)

-- `RVM_CPU_FLAG_CHECK`.
unfoldable pub check : ℕ → ℕ → Bool
check flag flags = not (bit_and flags flag == 0)

-- `if (condition) RVM_CPU_FLAG_SET(cpu, flag)`.
unfoldable pub set_if : Bool → ℕ → ℕ → ℕ
set_if condition flag flags = if condition then bit_or flags flag else flags

-- The register with exactly the given flags set.
abbrev pub flag_word : Bool → Bool → Bool → Bool → ℕ
flag_word rz rn rc ro =
    (if rz then 1 else 0) + (if rn then 2 else 0) + (if rc then 4 else 0) + (if ro then 8 else 0)
