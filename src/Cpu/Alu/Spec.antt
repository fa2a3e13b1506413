-- ===== src/Cpu/Alu/Spec.antt =====
-- What the arithmetic handlers are to compute: the 16-bit result, and each flag from its meaning.
use rocketvm.Base.{ℕ, ◌%◌, ◌^◌, ◌<◌, ◌==◌, Bool, ltb, leb, ◌≡◌, refl, arith, Below, bit_and}
use rocketvm.Isa.Instr.{Instr}
use rocketvm.Cpu.State.{Cpu, set_rv, set_flags, source_value}
use rocketvm.Cpu.Flags.{flag_rz, flag_rn, flag_rc, flag_ro, clear, set_if, flag_word}
use rocketvm.Cpu.Flags.Laws.{zero_test, sign_test, clear_all, set_if_all}
use rocketvm.Cpu.Alu.{set_zn, flags_znco}

-- Registers hold 16-bit words, no flag but the four is set, and the operand of the instruction is
-- one byte.
pub record IsReady (cpu : Cpu) (instr : Instr) : Type 0 where
  pub words : Below (2 ^ 16) cpu.regs.rv
  pub four_flags : cpu.regs.flags < 16
  pub byte_operand : instr.operand < 2 ^ 8

-- The processor after a result is stored, RZ and RN by the result, RC and RO as given.
abbrev pub with_result : Cpu → Instr → ℕ → Bool → Bool → Cpu
with_result cpu instr result rc ro =
    set_rv instr.reg result (set_flags (flag_word (result == 0) (leb 0x8000 result) rc ro) cpu)

pub source_value-lt :
    {cpu : Cpu} {instr : Instr} → IsReady cpu instr → source_value cpu instr < 2 ^ 16
unfolding source_value
source_value-lt {cpu} {instr} h = ground (arith, h.words (bit_and instr.operand 0x7))

-- RZ and RN describe the low 16 bits of the result.
pub set_zn_lem :
    (result flags : ℕ)
    → set_zn result flags
      ≡ set_if (leb 0x8000 (result % 2 ^ 16)) flag_rn (set_if (result % 2 ^ 16 == 0) flag_rz flags)
unfolding set_zn
set_zn_lem result flags = rw (zero_test result, sign_test (result % 2 ^ 16) (omega arith)) refl

-- A value above 0xFFFF has a bit beyond the low 16.
pub carry_test : (n : ℕ) → ltb 0xFFFF n ≡ leb (2 ^ 16) n
carry_test n = ground arith

-- The four flags, cleared and set anew.
pub all_flags :
    (result flags : ℕ) (rc ro : Bool)
    → flags < 16
    → set_if ro flag_ro (set_if rc flag_rc (set_zn result (clear flags_znco flags)))
      ≡ flag_word (result % 2 ^ 16 == 0) (leb 0x8000 (result % 2 ^ 16)) rc ro
all_flags result flags rc ro h =
    rw (set_zn_lem result (clear flags_znco flags), clear_all flags h)
      (set_if_all (result % 2 ^ 16 == 0) (leb 0x8000 (result % 2 ^ 16)) rc ro)
