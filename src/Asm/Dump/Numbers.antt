-- ===== src/Asm/Dump/Numbers.antt =====
-- The lexer on printed numbers.
use rocketvm.Base.{
  ℕ, zero, suc, ◌+◌, ◌*◌, ◌/◌, ◌%◌, ◌^◌, ◌<◌, ◌≤◌, true, false, ltb, [], ◌∷◌, ◌++◌, Option, none,
  some, ◌≡◌, refl, sym, ap, ◌∙◌, arith, Bool-cases, inl, inr, ltb→lt, not-lt→ltb,
}
use native.Mathlib.Nat.{pow-succ'}
use rocketvm.Base.Print.{digit, digits, decimal}
use rocketvm.Asm.Program.{Bytes}
use rocketvm.Asm.Lexer.{
  number, int32_max, number_token, is_digit, is_alpha, is_alnum, digit_value, read_digits,
  is_hex_prefix, strtol, token_at, tokenize,
}
use rocketvm.Asm.Dump.Words.{Delimits, tokenize-stays, skip_byte-digit}

digits-append :
    (base most n : ℕ) (s t : Bytes) → digits base most n s ++ t ≡ digits base most n (s ++ t)
unfolding digits
digits-append base zero n s t = refl
digits-append base (suc most) n s t =
    let ih = digits-append base most (n / base) (digit (n % base) ∷ s) t in
    elim (Bool-cases (ltb n base)) [ inl short ↦ rw short refl | inr long ↦ rw long ih ]

decimal_digit : (n : ℕ) → n < 10 → digit_value 10 (digit n) ≡ some n
unfolding digit_value digit
decimal_digit n h = ground arith

pub read_digits-step :
    (base acc c : ℕ) (cs : Bytes) (v : ℕ)
    → digit_value base c ≡ some v
    → read_digits base acc (c ∷ cs) ≡ read_digits base (acc * base + v) cs
unfolding read_digits
read_digits-step base acc c cs v e =
    ap
      (λ (o : Option ℕ). elim o [
        | none ↦ (acc, c ∷ cs)
        | some v ↦ read_digits base (acc * base + v) cs
      ])
      e

read_digits-stop :
    (base acc : ℕ) (rest : Bytes)
    → base ≤ 10
    → Delimits rest
    → read_digits base acc rest ≡ (acc, rest)
unfolding read_digits digit_value
read_digits-stop base acc [] small d = refl
read_digits-stop base acc (c ∷ cs) small d =
    let stops : digit_value base c ≡ none = unfold is_alnum is_alpha is_digit in ground arith in
    ap
      (λ (o : Option ℕ). elim o [
        | none ↦ (acc, c ∷ cs)
        | some v ↦ read_digits base (acc * base + v) cs
      ])
      stops

zero_times : (n : ℕ) → 0 * 10 + n ≡ n
zero_times n = omega arith

tenth : (most n : ℕ) → n < 10 ^ suc most → n / 10 < 10 ^ most
tenth most n h = let e = pow-succ' 10 most in omega arith

-- The digits of a number are read back.
read_digits-digits :
    (most n : ℕ) (rest : Bytes)
    → n < 10 ^ most
    → read_digits 10 0 (digits 10 most n rest) ≡ read_digits 10 n rest
unfolding digits
read_digits-digits zero n rest h = let z : n ≡ 0 = omega arith in rw z refl
read_digits-digits (suc most) n rest h = elim (Bool-cases (ltb n 10)) [
  | inl short ↦ rw short (
      read_digits-step 10 0 (digit n) rest n (decimal_digit n (ltb→lt n 10 short))
      ∙ ap (λ k. read_digits 10 k rest) (zero_times n))
  | inr long ↦
      let last : n % 10 < 10 = omega arith in
      let sum : n / 10 * 10 + n % 10 ≡ n = omega arith in
      rw long (
        read_digits-digits most (n / 10) (digit (n % 10) ∷ rest) (tenth most n h)
        ∙ read_digits-step 10 (n / 10) (digit (n % 10)) rest (n % 10) (decimal_digit (n % 10) last)
        ∙ ap (λ k. read_digits 10 k rest) sum)
]

-- A positive number is printed with a digit in front that is not 0.
digits_lead :
    (most n : ℕ) (rest : Bytes)
    → n < 10 ^ most
    → 0 < n
    → (c : ℕ) × (cs : Bytes) × (digits 10 most n rest ≡ c ∷ cs) × (b'1' ≤ c) × (c ≤ b'9')
unfolding digits digit
digits_lead zero n rest h pos = absurd (omega arith)
digits_lead (suc most) n rest h pos = elim (Bool-cases (ltb n 10)) [
  | inl short ↦ (digit n, rest, rw short refl, ground arith, ground arith)
  | inr long ↦
      let big : 10 ≤ n = ground arith in
      let (c, cs, e, lo, hi) =
        digits_lead most (n / 10) (digit (n % 10) ∷ rest) (tenth most n h) (omega arith) in
      (c, cs, rw long e, lo, hi)
]

-- `strtol` reads a decimal number up to the byte behind it.
strtol-positive :
    (c : ℕ) (cs : Bytes) → b'1' ≤ c → c ≤ b'9' → strtol (c ∷ cs) ≡ read_digits 10 0 (c ∷ cs)
unfolding strtol is_hex_prefix
strtol-positive c [] lo hi = ground arith
strtol-positive c (b ∷ []) lo hi = ground arith
strtol-positive c (b ∷ d ∷ cs) lo hi = ground arith

strtol-zero : (rest : Bytes) → Delimits rest → strtol (b'0' ∷ rest) ≡ (0, rest)
unfolding strtol
strtol-zero rest d =
    let plain : is_hex_prefix (b'0' ∷ rest) ≡ false = not_hex rest d in
    rw plain (
      read_digits-step 8 0 b'0' rest 0 (unfold digit_value in refl)
      ∙ read_digits-stop 8 0 rest (omega arith) d)
  where
    not_hex : (rest : Bytes) → Delimits rest → is_hex_prefix (b'0' ∷ rest) ≡ false
    not_hex [] d = unfold is_hex_prefix in refl
    not_hex (b ∷ []) d = unfold is_hex_prefix in refl
    not_hex (b ∷ e ∷ cs) d = unfold is_hex_prefix is_alnum is_alpha in ground arith

pub token_at-digit :
    (c : ℕ) (cs : Bytes)
    → is_digit c ≡ true
    → token_at c cs ≡ (number_token ((strtol (c ∷ cs)).0), (strtol (c ∷ cs)).1)
unfolding token_at is_digit is_alpha
token_at-digit c cs h = ground arith

-- A number that `strtol` reads to its end.
tokenize-digit :
    (c n : ℕ) (cs rest : Bytes)
    → is_digit c ≡ true
    → n ≤ int32_max
    → strtol (c ∷ cs) ≡ (n, rest)
    → tokenize (c ∷ cs) ≡ (number n, rest)
tokenize-digit c n cs rest h fits e =
    tokenize-stays c cs (skip_byte-digit c h)
    ∙ token_at-digit c cs h
    ∙ ap (λ (r : ℕ × Bytes). (number_token (r.0), r.1)) e
    ∙ rw (not-lt→ltb int32_max n fits) refl

pub tokenize-decimal :
    (n : ℕ) (rest : Bytes)
    → n ≤ int32_max
    → Delimits rest
    → tokenize (decimal n ++ rest) ≡ (number n, rest)
unfolding decimal
tokenize-decimal zero rest fits d =
    tokenize-digit b'0' 0 rest rest (unfold is_digit in refl) fits (strtol-zero rest d)
tokenize-decimal (suc n) rest fits d =
    let small : suc n < 10 ^ 20 = omega arith in
    let (c, cs, e, lo, hi) = digits_lead 20 (suc n) rest small (omega arith) in
    let printed : decimal (suc n) ++ rest ≡ c ∷ cs = digits-append 10 20 (suc n) [] rest ∙ e in
    let read =
      read_digits-digits 20 (suc n) rest small ∙ read_digits-stop 10 (suc n) rest (omega arith) d in
    let value = strtol-positive c cs lo hi ∙ ap (read_digits 10 0) (sym e) ∙ read in
    ap tokenize printed ∙ tokenize-digit c (suc n) cs rest (lead_digit c lo hi) fits value
  where
    lead_digit : (c : ℕ) → b'1' ≤ c → c ≤ b'9' → is_digit c ≡ true
    lead_digit c lo hi = unfold is_digit in ground arith
