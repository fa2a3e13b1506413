-- ===== src/Cpu/Flags/Laws.antt =====
-- What the flag macros do to a register that holds the four flags alone, and what the tests on a
-- result in cpu_alu.c mean.
use rocketvm.Base.{
  ℕ, zero, suc, ◌+◌, ◌*◌, ◌%◌, ◌^◌, ◌<◌, bit_and, bit_xor, Bool, true, false, not, ◌&&◌, ◌==◌, leb,
  if◌then◌else◌, ◌≡◌, refl, arith, ==_iff, Bool-cases, inl, inr, subst,
}
use Prim.Native.Nat.{min}
use mathlib.Core.Bool.{xor}
use rocketvm.Base.Bits.{digit, bit_and_mask, bit_and_sign, sign-bit_xor, bit_and_xor_sign}
use rocketvm.Cpu.Flags.{flag_rz, flag_rn, flag_rc, flag_ro, clear, check, set_if, flag_word}

-- Two functions agree on the numbers below `n`: a table that evaluation checks.
agree : (f g : ℕ → ℕ) → ℕ → Bool
agree f g zero = true
agree f g (suc n) = f n == g n && agree f g n

equal_below : (n : ℕ) (f g : ℕ → ℕ) (k : ℕ) → agree f g n ≡ true → k < n → f k ≡ g k
unfolding agree
equal_below zero f g k table small = absurd (omega arith)
equal_below (suc n) f g k table small = elim (Bool-cases (k == n)) [
  | inl last ↦
      let e : n ≡ k = ground arith in
      subst (λ m. f m ≡ g m) e ((==_iff (f n) (g n)).0 (ground arith))
  | inr earlier ↦ equal_below n f g k (ground arith) (ground arith)
]

clear_all_table : agree (λ f. clear 15 f) (λ f. 0) 16 ≡ true
unfolding agree clear
clear_all_table = refl

-- Clearing all four flags leaves none.
pub clear_all : (flags : ℕ) → flags < 16 → clear 15 flags ≡ 0
clear_all flags h = equal_below 16 (λ f. clear 15 f) (λ f. 0) flags clear_all_table h

-- Setting each flag on its condition, from none.
pub set_if_all :
    (z n c o : Bool)
    → set_if o flag_ro (set_if c flag_rc (set_if n flag_rn (set_if z flag_rz 0)))
      ≡ flag_word z n c o
unfolding set_if
set_if_all true true true true = refl
set_if_all true true true false = refl
set_if_all true true false true = refl
set_if_all true true false false = refl
set_if_all true false true true = refl
set_if_all true false true false = refl
set_if_all true false false true = refl
set_if_all true false false false = refl
set_if_all false true true true = refl
set_if_all false true true false = refl
set_if_all false true false true = refl
set_if_all false true false false = refl
set_if_all false false true true = refl
set_if_all false false true false = refl
set_if_all false false false true = refl
set_if_all false false false false = refl

keep_rc_ro_table :
    (z n : Bool)
    → agree
        (λ f. set_if n flag_rn (set_if z flag_rz (clear 3 f)))
        (λ f. flag_word z n (check flag_rc f) (check flag_ro f))
        16
      ≡ true
unfolding agree clear check set_if
keep_rc_ro_table true true = refl
keep_rc_ro_table true false = refl
keep_rc_ro_table false true = refl
keep_rc_ro_table false false = refl

-- Clearing RZ and RN and setting them anew keeps the other two flags.
pub keep_rc_ro :
    (z n : Bool) (flags : ℕ)
    → flags < 16
    → set_if n flag_rn (set_if z flag_rz (clear 3 flags))
      ≡ flag_word z n (check flag_rc flags) (check flag_ro flags)
keep_rc_ro z n flags h =
    equal_below 16 (λ f. set_if n flag_rn (set_if z flag_rz (clear 3 f)))
      (λ f. flag_word z n (check flag_rc f) (check flag_ro f)) flags (keep_rc_ro_table z n) h

keep_ro_table :
    (z n c : Bool)
    → agree
        (λ f. set_if c flag_rc (set_if n flag_rn (set_if z flag_rz (clear 7 f))))
        (λ f. flag_word z n c (check flag_ro f))
        16
      ≡ true
unfolding agree clear check set_if
keep_ro_table true true true = refl
keep_ro_table true true false = refl
keep_ro_table true false true = refl
keep_ro_table true false false = refl
keep_ro_table false true true = refl
keep_ro_table false true false = refl
keep_ro_table false false true = refl
keep_ro_table false false false = refl

-- Clearing RZ, RN and RC and setting them anew keeps RO.
pub keep_ro :
    (z n c : Bool) (flags : ℕ)
    → flags < 16
    → set_if c flag_rc (set_if n flag_rn (set_if z flag_rz (clear 7 flags)))
      ≡ flag_word z n c (check flag_ro flags)
keep_ro z n c flags h =
    equal_below 16 (λ f. set_if c flag_rc (set_if n flag_rn (set_if z flag_rz (clear 7 f))))
      (λ f. flag_word z n c (check flag_ro f)) flags (keep_ro_table z n c) h

pub flag_word-lt : (z n c o : Bool) → flag_word z n c o < 16
flag_word-lt z n c o = ground arith

-- The zero test of a result looks at its low 16 bits.
pub zero_test : (r : ℕ) → (bit_and r 0xFFFF == 0) ≡ (r % 2 ^ 16 == 0)
zero_test r = rw (bit_and_mask 16 r) refl

-- The sign test of a word.
pub sign_test : (w : ℕ) → w < 2 ^ 16 → not (bit_and w 0x8000 == 0) ≡ leb 0x8000 w
sign_test w h = rw (bit_and_sign w) (ground arith)

-- The sign bit as a digit.
digit_sign : (w : ℕ) → w < 2 ^ 16 → digit 15 w ≡ (if leb 0x8000 w then 1 else 0)
digit_sign w h = ground arith

xor_digits :
    (a b : Bool) → ((if a then 1 else 0) + (if b then 1 else 0)) % 2 ≡ (if xor a b then 1 else 0)
unfolding xor
xor_digits true true = refl
xor_digits true false = refl
xor_digits false true = refl
xor_digits false false = refl

and_digits :
    (a b : Bool) → not (min (if a then 1 else 0) (if b then 1 else 0) * 0x8000 == 0) ≡ (a && b)
and_digits true true = refl
and_digits true false = refl
and_digits false true = refl
and_digits false false = refl

-- The overflow tests: two pairs of words, each of different signs.
pub overflow_test :
    (a b c d : ℕ)
    → a < 2 ^ 16
    → b < 2 ^ 16
    → c < 2 ^ 16
    → d < 2 ^ 16
    → not (bit_and (bit_and (bit_xor a b) (bit_xor c d)) 0x8000 == 0)
      ≡ (xor (leb 0x8000 a) (leb 0x8000 b) && xor (leb 0x8000 c) (leb 0x8000 d))
overflow_test a b c d ha hb hc hd =
    rw
      (
        bit_and_xor_sign a b c d,
        digit_sign a ha,
        digit_sign b hb,
        digit_sign c hc,
        digit_sign d hd,
        xor_digits (leb 0x8000 a) (leb 0x8000 b),
        xor_digits (leb 0x8000 c) (leb 0x8000 d),
      )
      (and_digits (xor (leb 0x8000 a) (leb 0x8000 b)) (xor (leb 0x8000 c) (leb 0x8000 d)))

digit_test : (a : Bool) → not ((if a then 1 else 0) * 0x8000 == 0) ≡ a
digit_test true = refl
digit_test false = refl

-- The test whether two words have different signs.
pub flip_test :
    (a b : ℕ)
    → a < 2 ^ 16
    → b < 2 ^ 16
    → not (bit_and (bit_xor a b) 0x8000 == 0) ≡ xor (leb 0x8000 a) (leb 0x8000 b)
flip_test a b ha hb =
    rw
      (
        bit_and_sign (bit_xor a b),
        sign-bit_xor a b,
        digit_sign a ha,
        digit_sign b hb,
        xor_digits (leb 0x8000 a) (leb 0x8000 b),
      )
      (digit_test (xor (leb 0x8000 a) (leb 0x8000 b)))
