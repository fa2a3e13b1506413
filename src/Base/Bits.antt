-- ===== src/Base/Bits.antt =====
-- `&`, `|` and `^` of C at variables: the law of the lowest digit, then the law of every digit,
-- masks, and disjoint fields joined by `|`.
use Prim.Native.Nat.{
  ℕ, zero, suc, ◌+◌, ◌-◌, ◌*◌, ◌/◌, ◌%◌, ◌^◌, ◌≤◌, ◌<◌, min, max, bit_and, bit_or, bit_xor, digits,
  bitwise, differ, bit_and-bitwise, bit_or-bitwise, bit_xor-bitwise,
}
use Prim.Native.Nat.add
use mathlib.Core.Path.{◌≡◌, refl, sym, ap, ◌∙◌}
use native.Mathlib.Nat.{pow-succ', one-le-pow, div-div-eq-div-mul, zero-add}
use native.Mathlib.Omega.{arith}

-- The binary digit of weight 2 ^ k.
abbrev pub digit : ℕ → ℕ → ℕ
digit k a = a / 2 ^ k % 2

digit-suc : (k a : ℕ) → digit (suc k) a ≡ digit k (a / 2)
digit-suc k a = rw (pow-succ', ← div-div-eq-div-mul) refl

-- The operation acts on the lowest digits by `f`, and on the rest by itself.
abbrev pub LowDigit : (ℕ → ℕ → ℕ) → (ℕ → ℕ → ℕ) → ℕ → ℕ → Type 0
LowDigit op f x y = op x y ≡ op (x / 2) (y / 2) * 2 + f (x % 2) (y % 2)

-- A native operation stands for `bitwise z f`, where `z` takes over once the first number has run
-- out. Its fuel is the first number, and more fuel changes nothing.
module _ (z : ℕ → ℕ) (f op : ℕ → ℕ → ℕ) (stands : (x y : ℕ) → op x y ≡ bitwise z f x y)
    (runs_out : (y : ℕ) → z y ≡ z (y / 2) * 2 + f 0 (y % 2)) where
  one_more : (fuel x y : ℕ) → x ≤ fuel → digits z f (suc fuel) x y ≡ digits z f fuel x y
  one_more zero x y h = let e : x ≡ 0 = omega arith in rw e refl
  one_more (suc fuel) zero y h = refl
  one_more (suc fuel) (suc x) y h =
      ap (λ (high : ℕ). high * 2 + f (suc x % 2) (y % 2))
        (one_more fuel (suc x / 2) (y / 2) (omega arith))

  any_more : (extra x y : ℕ) → digits z f (extra + x) x y ≡ digits z f x x y
  any_more zero x y = rw zero-add
  any_more (suc extra) x y =
      rw (add.suc extra x) (one_more (extra + x) x y (omega arith) ∙ any_more extra x y)

  low_digit : (x y : ℕ) → LowDigit op f x y
  low_digit zero y = omega (arith, stands 0 y, stands 0 (y / 2), runs_out y)
  low_digit (suc x) y =
      let h = suc x / 2 in
      let spare : x ≡ (x - h) + h = omega arith in
      let enough : digits z f x h (y / 2) ≡ digits z f h h (y / 2) =
        ap (λ (n : ℕ). digits z f n h (y / 2)) spare ∙ any_more (x - h) h (y / 2) in
      stands (suc x) y
      ∙ ap (λ (high : ℕ). high * 2 + f (suc x % 2) (y % 2)) (enough ∙ sym (stands h (y / 2)))

differ-zero : (b : ℕ) → differ 0 b ≡ b
differ-zero b = refl

pub bit_and_step : (x y : ℕ) → LowDigit bit_and min x y
bit_and_step = low_digit (λ y. 0) min bit_and bit_and-bitwise λ y. omega arith

pub bit_or_step : (x y : ℕ) → LowDigit bit_or max x y
bit_or_step = low_digit (λ y. y) max bit_or bit_or-bitwise λ y. omega arith

pub bit_xor_step : (x y : ℕ) → LowDigit bit_xor differ x y
bit_xor_step =
    low_digit (λ y. y) differ bit_xor bit_xor-bitwise λ y. omega (arith, differ-zero (y % 2))

-- The difference of two digits is their sum modulo 2.
differ_lem : (a b : ℕ) → a < 2 → b < 2 → differ a b ≡ (a + b) % 2
differ_lem zero b p q = omega arith
differ_lem (suc zero) zero p q = refl
differ_lem (suc zero) (suc zero) p q = refl
differ_lem (suc zero) (suc (suc b)) p q = absurd (omega arith)
differ_lem (suc (suc a)) b p q = absurd (omega arith)

-- Each operation acts digit by digit.
pub digit-bit_and : (k a b : ℕ) → digit k (bit_and a b) ≡ min (digit k a) (digit k b)
digit-bit_and zero a b = omega (arith, bit_and_step a b)
digit-bit_and (suc k) a b =
    let half : bit_and a b / 2 ≡ bit_and (a / 2) (b / 2) = omega (arith, bit_and_step a b) in
    rw (digit-suc k (bit_and a b), half, digit-suc k a, digit-suc k b)
      (digit-bit_and k (a / 2) (b / 2))

pub digit-bit_xor : (k a b : ℕ) → digit k (bit_xor a b) ≡ (digit k a + digit k b) % 2
digit-bit_xor zero a b = omega (arith, bit_xor_step a b, differ_lem (a % 2) (b % 2))
digit-bit_xor (suc k) a b =
    let half : bit_xor a b / 2 ≡ bit_xor (a / 2) (b / 2) =
      omega (arith, bit_xor_step a b, differ_lem (a % 2) (b % 2)) in
    rw (digit-suc k (bit_xor a b), half, digit-suc k a, digit-suc k b)
      (digit-bit_xor k (a / 2) (b / 2))

bit_and-zero : (k x : ℕ) → x ≤ k → bit_and x 0 ≡ 0
bit_and-zero zero x h = let e : x ≡ 0 = omega arith in rw e refl
bit_and-zero (suc k) x h =
    let ih = bit_and-zero k (x / 2) (omega arith) in omega (arith, bit_and_step x 0)

bit_or-zero : (k a : ℕ) → a ≤ k → bit_or a 0 ≡ a
bit_or-zero zero zero h = refl
bit_or-zero zero (suc a) h = absurd (omega arith)
bit_or-zero (suc k) a h = omega (arith, bit_or_step a 0, bit_or-zero k (a / 2) (omega arith))

mod_double : (p a : ℕ) → 0 < p → a % (2 * p) ≡ a / 2 % p * 2 + a % 2
mod_double p a h = grind arith

-- A mask of `k` ones keeps the remainder by 2 ^ k.
pub bit_and_mask : (k a : ℕ) → bit_and a (2 ^ k - 1) ≡ a % 2 ^ k
bit_and_mask zero a = omega (arith, bit_and-zero a a (omega arith))
bit_and_mask (suc k) a =
    let pos = one-le-pow k 2 (omega arith) in
    let half : (2 * 2 ^ k - 1) / 2 ≡ 2 ^ k - 1 = omega arith in
    let odd : (2 * 2 ^ k - 1) % 2 ≡ 1 = omega arith in
    let high : bit_and (a / 2) ((2 * 2 ^ k - 1) / 2) ≡ a / 2 % 2 ^ k =
      rw half (bit_and_mask k (a / 2)) in
    let split = mod_double (2 ^ k) a pos in
    rw (pow-succ' 2 k) (omega (arith, bit_and_step a (2 * 2 ^ k - 1)))

-- A mask of one digit keeps that digit.
pub bit_and-digit : (k a : ℕ) → bit_and a (2 ^ k) ≡ digit k a * 2 ^ k
bit_and-digit zero a = omega (arith, bit_and_step a 1, bit_and-zero (a / 2) (a / 2) (omega arith))
bit_and-digit (suc k) a =
    let half : 2 * 2 ^ k / 2 ≡ 2 ^ k = omega arith in
    let high : bit_and (a / 2) (2 * 2 ^ k / 2) ≡ digit k (a / 2) * 2 ^ k =
      rw half (bit_and-digit k (a / 2)) in
    rw (digit-suc, pow-succ' 2 k) (omega (arith, bit_and_step a (2 * 2 ^ k)))

-- `|` of a multiple of 2 ^ k and a number below it is their sum.
pub bit_or_low : (k a r : ℕ) → a % 2 ^ k ≡ 0 → r < 2 ^ k → bit_or a r ≡ a + r
bit_or_low zero a zero h p = omega (arith, bit_or-zero a a (omega arith))
bit_or_low zero a (suc r) h p = absurd (omega arith)
bit_or_low (suc k) a r h p =
    let pos = one-le-pow k 2 (omega arith) in
    let low : a % (2 * 2 ^ k) ≡ 0 = rw (pow-succ' 2 k) at h in
    let fits : r < 2 * 2 ^ k = rw (pow-succ' 2 k) at p in
    let split = mod_double (2 ^ k) a pos in
    let high = bit_or_low k (a / 2) (r / 2) (omega arith) (omega arith) in
    omega (arith, bit_or_step a r)

-- The sign bit of a 16-bit word.
pub bit_and_sign : (w : ℕ) → bit_and w 0x8000 ≡ digit 15 w * 0x8000
bit_and_sign w = bit_and-digit 15 w

-- `^` of two 16-bit words has the sign bit exactly when their sign bits differ.
pub sign-bit_xor : (a b : ℕ) → digit 15 (bit_xor a b) ≡ (digit 15 a + digit 15 b) % 2
sign-bit_xor a b = digit-bit_xor 15 a b

-- The test `((a ^ b) & (c ^ d) & 0x8000) != 0`, as digits.
pub bit_and_xor_sign :
    (a b c d : ℕ)
    → bit_and (bit_and (bit_xor a b) (bit_xor c d)) 0x8000
      ≡ min ((digit 15 a + digit 15 b) % 2) ((digit 15 c + digit 15 d) % 2) * 0x8000
bit_and_xor_sign a b c d =
    rw
      (
        bit_and_sign,
        digit-bit_and 15 (bit_xor a b) (bit_xor c d),
        sign-bit_xor a b,
        sign-bit_xor c d,
      )
      refl

bit_or_comm_below : (n a b : ℕ) → a ≤ n → b ≤ n → bit_or a b ≡ bit_or b a
bit_or_comm_below zero zero zero h k = refl
bit_or_comm_below zero (suc a) b h k = absurd (omega arith)
bit_or_comm_below zero zero (suc b) h k = absurd (omega arith)
bit_or_comm_below (suc n) a b h k = omega (
  arith,
  bit_or_step a b,
  bit_or_step b a,
  bit_or_comm_below n (a / 2) (b / 2) (omega arith) (omega arith),
)

pub bit_or_comm : (a b : ℕ) → bit_or a b ≡ bit_or b a
bit_or_comm a b = bit_or_comm_below (a + b) a b (omega arith) (omega arith)
