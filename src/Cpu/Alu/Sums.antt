-- ===== src/Cpu/Alu/Sums.antt =====
-- ADD, SUB and CMP: the stored word, and the four flags as carry, borrow and signed overflow.
use rocketvm.Base.{ℕ, ◌+◌, ◌-◌, ◌%◌, ◌^◌, ◌<◌, ◌==◌, not, ltb, leb, ◌≡◌, refl, arith, ◌&&◌}
use mathlib.Core.Bool.{xor}
use rocketvm.Base.Int.{signed16, ◌+ℤ◌, ◌-ℤ◌, ◌==ℤ◌}
use rocketvm.Isa.Instr.{Instr}
use rocketvm.Cpu.State.{Cpu, source_value}
use rocketvm.Cpu.Flags.{flag_word}
use rocketvm.Cpu.Flags.Laws.{overflow_test}
use rocketvm.Cpu.Alu.{exec_add, exec_sub, difference, sub_flags}
use rocketvm.Cpu.Alu.Spec.{IsReady, with_result, source_value-lt, carry_test, all_flags}

-- Operands of one sign with a sum of the other sign are a signed overflow, and nothing else is.
add_overflow :
    (d s : ℕ)
    → d < 2 ^ 16
    → s < 2 ^ 16
    → (let r = (d + s) % 2 ^ 16 in
        xor (leb 0x8000 d) (leb 0x8000 r) && xor (leb 0x8000 s) (leb 0x8000 r))
      ≡ (let r = (d + s) % 2 ^ 16 in not (signed16 r ==ℤ signed16 d +ℤ signed16 s))
unfolding ◌+ℤ◌ xor
add_overflow d s hd hs = ground arith

-- For 16-bit registers, four flags and a byte operand: ADD stores the sum modulo 2 ^ 16, RZ and RN
-- by the result; RC is the carry out of the 16-bit sum, and RO says that the signed sum does not
-- fit the result.
pub exec_add_lem :
    (cpu : Cpu) (instr : Instr)
    → IsReady cpu instr
    → exec_add cpu instr ≡ (
        let dst = cpu.regs.rv instr.reg in
        let src = source_value cpu instr in
        let r = (dst + src) % 2 ^ 16 in
        with_result cpu instr r
          (leb (2 ^ 16) (dst + src))
          (not (signed16 r ==ℤ signed16 dst +ℤ signed16 src)))
unfolding exec_add
exec_add_lem cpu instr h =
    let dst = cpu.regs.rv instr.reg in
    let src = source_value cpu instr in
    let r = (dst + src) % 2 ^ 16 in
    rw
      (
        overflow_test dst r src r (h.words instr.reg) (omega arith) (source_value-lt h)
            (omega arith),
        add_overflow dst src (h.words instr.reg) (source_value-lt h),
        all_flags (dst + src) cpu.regs.flags (ltb 0xFFFF (dst + src))
            (not (signed16 r ==ℤ signed16 dst +ℤ signed16 src)) h.four_flags,
        carry_test (dst + src),
      )
      refl

-- Operands of different signs with a difference of the subtrahend's sign are a signed overflow,
-- and nothing else is.
sub_overflow :
    (d s : ℕ)
    → d < 2 ^ 16
    → s < 2 ^ 16
    → (let r = difference d s % 2 ^ 16 in
        xor (leb 0x8000 d) (leb 0x8000 s) && xor (leb 0x8000 d) (leb 0x8000 r))
      ≡ (let r = (d + 2 ^ 16 - s) % 2 ^ 16 in not (signed16 r ==ℤ signed16 d -ℤ signed16 s))
unfolding ◌-ℤ◌ xor
sub_overflow d s hd hs = ground arith

difference_word : (d s : ℕ) → s < 2 ^ 16 → difference d s % 2 ^ 16 ≡ (d + 2 ^ 16 - s) % 2 ^ 16
difference_word d s h = omega arith

-- The flags of SUB and CMP.
pub sub_flags_lem :
    (dst src flags : ℕ)
    → dst < 2 ^ 16
    → src < 2 ^ 16
    → flags < 16
    → sub_flags dst src flags ≡ (
        let r = (dst + 2 ^ 16 - src) % 2 ^ 16 in
        flag_word
          (r == 0)
          (leb 0x8000 r)
          (ltb dst src)
          (not (signed16 r ==ℤ signed16 dst -ℤ signed16 src)))
unfolding sub_flags
sub_flags_lem dst src flags hd hs hf =
    let r = difference dst src % 2 ^ 16 in
    rw
      (
        overflow_test dst src dst r hd hs hd (omega arith),
        sub_overflow dst src hd hs,
        all_flags (difference dst src) flags (ltb dst src)
            (not (signed16 ((dst + 2 ^ 16 - src) % 2 ^ 16) ==ℤ signed16 dst -ℤ signed16 src)) hf,
        difference_word dst src hs,
      )
      refl

-- For 16-bit registers, four flags and a byte operand: SUB stores the difference modulo 2 ^ 16, RZ
-- and RN by the result; RC is the borrow, and RO says that the signed difference does not fit the
-- result.
pub exec_sub_lem :
    (cpu : Cpu) (instr : Instr)
    → IsReady cpu instr
    → exec_sub cpu instr ≡ (
        let dst = cpu.regs.rv instr.reg in
        let src = source_value cpu instr in
        let r = (dst + 2 ^ 16 - src) % 2 ^ 16 in
        with_result cpu instr r (ltb dst src) (not (signed16 r ==ℤ signed16 dst -ℤ signed16 src)))
unfolding exec_sub
exec_sub_lem cpu instr h =
    let dst = cpu.regs.rv instr.reg in
    let src = source_value cpu instr in
    rw
      (
        sub_flags_lem dst src cpu.regs.flags (h.words instr.reg) (source_value-lt h) h.four_flags,
        difference_word dst src (source_value-lt h),
      )
      refl
