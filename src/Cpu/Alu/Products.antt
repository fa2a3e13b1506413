-- ===== src/Cpu/Alu/Products.antt =====
-- MUL, DIV and MOD.
use rocketvm.Base.{
  ℕ, ◌*◌, ◌/◌, ◌%◌, ◌^◌, ◌<◌, ◌==◌, ltb, leb, if◌then◌else◌, ◌≡◌, refl, ◌∙◌, ap, arith, Bool-cases,
  inl, inr,
}
use rocketvm.Exec.{ok, crash, signed_overflow}
use rocketvm.Isa.Instr.{Instr}
use rocketvm.Cpu.State.{Cpu, set_halt, source_value}
use rocketvm.Cpu.Flags.{flag_rc, flag_ro, check}
use rocketvm.Cpu.Flags.Laws.{keep_rc_ro}
use rocketvm.Cpu.Alu.{
  exec_mul, exec_div, exec_mod, int_product, mul_result, mul_finish, division_finish,
}
use rocketvm.Cpu.Alu.Spec.{IsReady, with_result, set_zn_lem, carry_test, all_flags}

-- The mode bit of an instruction is one of the two modes.
abbrev pub HasMode : Instr → Type 0
HasMode instr = instr.mode < 2

mul_result_lem :
    (cpu : Cpu) (instr : Instr)
    → HasMode instr
    → mul_result cpu instr ≡ int_product (cpu.regs.rv instr.reg) (source_value cpu instr)
unfolding mul_result source_value
mul_result_lem cpu instr h = ground arith

mul_finish_lem :
    (cpu : Cpu) (instr : Instr) (result : ℕ)
    → cpu.regs.flags < 16
    → mul_finish cpu instr result
      ≡ (let large = leb (2 ^ 16) result in with_result cpu instr (result % 2 ^ 16) large large)
unfolding mul_finish
mul_finish_lem cpu instr result h =
    rw
      (all_flags result cpu.regs.flags (ltb 0xFFFF result) (ltb 0xFFFF result) h, carry_test result)
      refl

-- For 16-bit registers, four flags, a byte operand and one of the two modes: MUL stores the product
-- modulo 2 ^ 16, RZ and RN by the result, and RC and RO say that the product needs more than 16
-- bits; a product of 2 ^ 31 or more overflows the `int` in which C computes it.
pub exec_mul_lem :
    (cpu : Cpu) (instr : Instr)
    → IsReady cpu instr
    → HasMode instr
    → exec_mul cpu instr ≡ (
        let product = cpu.regs.rv instr.reg * source_value cpu instr in
        let large = leb (2 ^ 16) product in
        if ltb product (2 ^ 31)
        then ok (with_result cpu instr (product % 2 ^ 16) large large)
        else crash signed_overflow)
unfolding exec_mul int_product
exec_mul_lem cpu instr h m =
    let product = cpu.regs.rv instr.reg * source_value cpu instr in
    rw (mul_result_lem cpu instr m) (elim (Bool-cases (ltb product (2 ^ 31))) [
      | inl small ↦ rw small (ap ok (mul_finish_lem cpu instr product h.four_flags))
      | inr big ↦ rw big refl
    ])

div-lt : (n m k : ℕ) → n < k → n / m < k
div-lt n m k h = omega arith

mod-lt_of_lt : (n m k : ℕ) → n < k → n % m < k
mod-lt_of_lt n m k h = omega arith

division_finish_lem :
    (cpu : Cpu) (instr : Instr) (result : ℕ)
    → cpu.regs.flags < 16
    → result < 2 ^ 16
    → division_finish cpu instr result
      ≡ with_result cpu instr result (check flag_rc cpu.regs.flags) (check flag_ro cpu.regs.flags)
unfolding division_finish
division_finish_lem cpu instr result h fits =
    let e : result % 2 ^ 16 ≡ result = omega arith in
    rw (set_zn_lem result, e, keep_rc_ro (result == 0) (leb 0x8000 result) cpu.regs.flags h) refl

-- For 16-bit registers, four flags, a byte operand and one of the two modes: DIV by zero halts the
-- processor and changes nothing else; by any other value it stores the quotient, RZ and RN by the
-- result, with RC and RO kept.
pub exec_div_lem :
    (cpu : Cpu) (instr : Instr)
    → IsReady cpu instr
    → HasMode instr
    → exec_div cpu instr ≡ (
        let src = source_value cpu instr in
        if src == 0
        then set_halt cpu
        else with_result cpu instr
            (cpu.regs.rv instr.reg / src)
            (check flag_rc cpu.regs.flags)
            (check flag_ro cpu.regs.flags))
exec_div_lem cpu instr h m =
    let dst = cpu.regs.rv instr.reg in
    let src = source_value cpu instr in
    let quotient =
      division_finish_lem cpu instr (dst / src) h.four_flags
        (div-lt dst src (2 ^ 16) (h.words instr.reg)) in
    by_source ∙ rw quotient refl
  where
    by_source : exec_div cpu instr ≡ (
        if source_value cpu instr == 0
        then set_halt cpu
        else division_finish cpu instr (cpu.regs.rv instr.reg / source_value cpu instr))
    by_source = unfold exec_div source_value in ground arith

-- For 16-bit registers, four flags, a byte operand and one of the two modes: MOD by zero halts the
-- processor and changes nothing else; by any other value it stores the remainder, RZ and RN by the
-- result, with RC and RO kept.
pub exec_mod_lem :
    (cpu : Cpu) (instr : Instr)
    → IsReady cpu instr
    → HasMode instr
    → exec_mod cpu instr ≡ (
        let src = source_value cpu instr in
        if src == 0
        then set_halt cpu
        else with_result cpu instr
            (cpu.regs.rv instr.reg % src)
            (check flag_rc cpu.regs.flags)
            (check flag_ro cpu.regs.flags))
exec_mod_lem cpu instr h m =
    let dst = cpu.regs.rv instr.reg in
    let src = source_value cpu instr in
    let remainder =
      division_finish_lem cpu instr (dst % src) h.four_flags
        (mod-lt_of_lt dst src (2 ^ 16) (h.words instr.reg)) in
    by_source ∙ rw remainder refl
  where
    by_source : exec_mod cpu instr ≡ (
        if source_value cpu instr == 0
        then set_halt cpu
        else division_finish cpu instr (cpu.regs.rv instr.reg % source_value cpu instr))
    by_source = unfold exec_mod source_value in ground arith
