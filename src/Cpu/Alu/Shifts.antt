-- ===== src/Cpu/Alu/Shifts.antt =====
-- SHL and SHR.
use rocketvm.Base.{
  ℕ, zero, suc, ◌+◌, ◌-◌, ◌*◌, ◌/◌, ◌%◌, ◌^◌, ◌<◌, ◌==◌, Bool, not, ◌&&◌, leb, if◌then◌else◌, ◌≡◌,
  refl, ◌∙◌, ap, arith, bit_and, bit_xor, ◌≢◌, Bool-cases, inl, inr, sym, ==_iff,
}
use Prim.Native.Nat.add
use native.Mathlib.Nat.{zero-add, pow-suc, pow-succ', one-le-pow, mul-div-mul_right}
use mathlib.Core.Bool.{xor}
use rocketvm.Base.Bits.{bit_and_mask}
use rocketvm.Isa.Instr.{Instr}
use rocketvm.Cpu.State.{Cpu, source_value}
use rocketvm.Cpu.Flags.{flag_ro, check}
use rocketvm.Cpu.Flags.Laws.{keep_ro, flip_test}
use rocketvm.Cpu.Alu.{exec_shl, exec_shr, shl_by, shr_amount, shr_result}
use rocketvm.Cpu.Alu.Products.{HasMode}
use rocketvm.Cpu.Alu.Spec.{IsReady, with_result, set_zn_lem, all_flags}

-- The last bit that a left shift by `shift` pushes out of a 16-bit word, and whether a shift by one
-- changes its sign.
abbrev pub bit_out_left : ℕ → ℕ → Bool
bit_out_left word shift = word * 2 ^ shift / 2 ^ 16 % 2 == 1

abbrev pub sign_flips : ℕ → ℕ → Bool
sign_flips word shift = shift == 1 && xor (leb 0x8000 word) (leb 0x8000 (word * 2 % 2 ^ 16))

-- The last bit that a right shift by `shift` pushes out.
abbrev pub bit_out_right : ℕ → ℕ → Bool
bit_out_right word shift = word * 2 / 2 ^ shift % 2 == 1

pow_add : (j k : ℕ) → 2 ^ (j + k) ≡ 2 ^ j * 2 ^ k
pow_add zero k = rw zero-add (omega arith)
pow_add (suc j) k = rw (add.suc j k, pow-succ' 2 (j + k), pow-succ' 2 j, pow_add j k) (omega arith)

out_left : (w k : ℕ) → k < 16 → k ≢ 0 → w / 2 ^ (16 - k) % 2 ≡ w * 2 ^ k / 2 ^ 16 % 2
out_left w k h ne =
    let e : 16 ≡ (16 - k) + k = omega arith in
    let split : 2 ^ 16 ≡ 2 ^ (16 - k) * 2 ^ k = ap (λ (n : ℕ). 2 ^ n) e ∙ pow_add (16 - k) k in
    let cancel : w * 2 ^ k / 2 ^ 16 ≡ w / 2 ^ (16 - k) =
      ap (λ (n : ℕ). w * 2 ^ k / n) split
      ∙ mul-div-mul_right w (2 ^ (16 - k)) (one-le-pow k 2 (omega arith)) in
    ap (λ (n : ℕ). n % 2) (sym cancel)

out_left_test :
    (w k : ℕ) → k < 16 → k ≢ 0 → not (bit_and (w / 2 ^ (16 - k)) 1 == 0) ≡ bit_out_left w k
out_left_test w k h ne = rw (bit_and_mask 1 (w / 2 ^ (16 - k)), out_left w k h ne) (ground arith)

out_right : (w k : ℕ) → k ≢ 0 → w / 2 ^ (k - 1) % 2 ≡ w * 2 / 2 ^ k % 2
out_right w zero ne = absurd (ne refl)
out_right w (suc k) ne =
    let e : suc k - 1 ≡ k = omega arith in
    rw (e, pow-suc 2 k) (ap (λ (n : ℕ). n % 2) (sym (mul-div-mul_right w (2 ^ k) (omega arith))))

out_right_test : (w k : ℕ) → k ≢ 0 → not (bit_and (w / 2 ^ (k - 1)) 1 == 0) ≡ bit_out_right w k
out_right_test w k ne = rw (bit_and_mask 1 (w / 2 ^ (k - 1)), out_right w k ne) (ground arith)

carried_left :
    (d k : ℕ)
    → k < 16
    → k ≢ 0
    → (not (k == 0) && not (bit_and (d / 2 ^ (16 - k)) 1 == 0)) ≡ bit_out_left d k
carried_left d k h ne = rw (out_left_test d k h ne) (ground arith)

flipped :
    (d k : ℕ)
    → d < 2 ^ 16
    → (k == 1 && not (bit_and (bit_xor d (d * 2 ^ k % 2 ^ 16)) 0x8000 == 0)) ≡ sign_flips d k
flipped d k h = rw (flip_test d (d * 2 ^ k % 2 ^ 16) h (omega arith)) (elim (Bool-cases (k == 1)) [
  | inl one ↦ rw ((==_iff k 1).0 one) refl
  | inr other ↦ rw other refl
])

shl_by_lem :
    (cpu : Cpu) (instr : Instr) (k : ℕ)
    → IsReady cpu instr
    → k < 16
    → k ≢ 0
    → shl_by cpu instr k ≡ (
        let dst = cpu.regs.rv instr.reg in
        with_result cpu instr (dst * 2 ^ k % 2 ^ 16) (bit_out_left dst k) (sign_flips dst k))
unfolding shl_by
shl_by_lem cpu instr k h small ne =
    let dst = cpu.regs.rv instr.reg in
    let word = dst * 2 ^ k % 2 ^ 16 in
    let e : word % 2 ^ 16 ≡ word = omega arith in
    rw
      (
        bit_and_mask 16 (dst * 2 ^ k),
        e,
        carried_left dst k small ne,
        flipped dst k (h.words instr.reg),
        all_flags word cpu.regs.flags (bit_out_left dst k) (sign_flips dst k) h.four_flags,
        e,
      )
      refl

-- For 16-bit registers, four flags and a byte operand: SHL shifts by the low four bits of the
-- operand. A shift by 0 changes nothing, not even RZ and RN. Any other shift stores the shifted
-- word modulo 2 ^ 16, RZ and RN by the result; RC is the last bit shifted out, and RO is set
-- exactly when a shift by one changes the sign.
pub exec_shl_lem :
    (cpu : Cpu) (instr : Instr)
    → IsReady cpu instr
    → exec_shl cpu instr ≡ (
        let dst = cpu.regs.rv instr.reg in
        let shift = source_value cpu instr % 16 in
        if shift == 0
        then cpu
        else with_result cpu instr
            (dst * 2 ^ shift % 2 ^ 16)
            (bit_out_left dst shift)
            (sign_flips dst shift))
unfolding exec_shl
exec_shl_lem cpu instr h =
    let shift = source_value cpu instr % 16 in
    rw (bit_and_mask 4 (source_value cpu instr)) (elim (Bool-cases (shift == 0)) [
      | inl none_shifted ↦ rw none_shifted refl
      | inr some_shifted ↦
          rw some_shifted (shl_by_lem cpu instr shift h (omega arith) (ground arith))
    ])

shr_amount_lem :
    (cpu : Cpu) (instr : Instr) → HasMode instr → shr_amount cpu instr ≡ source_value cpu instr % 16
unfolding shr_amount source_value
shr_amount_lem cpu instr m =
    ground (
      arith,
      bit_and_mask 4 instr.operand,
      bit_and_mask 4 (cpu.regs.rv (bit_and instr.operand 0x7)),
    )

shr_result_lem :
    (cpu : Cpu) (instr : Instr)
    → HasMode instr
    → shr_result cpu instr ≡ cpu.regs.rv instr.reg / 2 ^ shr_amount cpu instr
unfolding shr_result
shr_result_lem cpu instr m = ground arith

carried_right :
    (d k : ℕ)
    → (not (k == 0) && not (bit_and (d / 2 ^ (k - 1)) 1 == 0)) ≡ (not (k == 0) && bit_out_right d k)
carried_right d k = elim (Bool-cases (k == 0)) [
  | inl none_shifted ↦ rw none_shifted refl
  | inr some_shifted ↦ rw (out_right_test d k (ground arith)) refl
]

-- For 16-bit registers, four flags, a byte operand and one of the two modes: SHR by the low four
-- bits of the operand stores the shifted word, RZ and RN by the result; RC is the last bit shifted
-- out, clear when nothing is shifted, and RO is kept.
pub exec_shr_lem :
    (cpu : Cpu) (instr : Instr)
    → IsReady cpu instr
    → HasMode instr
    → exec_shr cpu instr ≡ (
        let dst = cpu.regs.rv instr.reg in
        let shift = source_value cpu instr % 16 in
        with_result cpu instr
          (dst / 2 ^ shift)
          (not (shift == 0) && bit_out_right dst shift)
          (check flag_ro cpu.regs.flags))
unfolding exec_shr
exec_shr_lem cpu instr h m =
    let dst = cpu.regs.rv instr.reg in
    let shift = source_value cpu instr % 16 in
    let fits = h.words instr.reg in
    let e : dst / 2 ^ shift % 2 ^ 16 ≡ dst / 2 ^ shift = omega arith in
    rw
      (
        shr_result_lem cpu instr m,
        shr_amount_lem cpu instr m,
        set_zn_lem (dst / 2 ^ shift),
        e,
        carried_right dst shift,
        keep_ro (dst / 2 ^ shift == 0) (leb 0x8000 (dst / 2 ^ shift))
            (not (shift == 0) && bit_out_right dst shift) cpu.regs.flags h.four_flags,
      )
      refl
