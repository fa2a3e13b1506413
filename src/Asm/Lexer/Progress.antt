-- ===== src/Asm/Lexer/Progress.antt =====
-- How much of the text a token takes.
use rocketvm.Base.{
  ℕ, suc, ◌+◌, ◌*◌, ◌≤◌, ◌<◌, Bool, true, false, ◌-◌, ◌⊎◌, ◌||◌, ◌==◌, if◌then◌else◌, [], ◌∷◌,
  length, Option, none, some, ◌≡◌, refl, sym, arith, Bool-cases, inl, inr, subst,
}
use rocketvm.Asm.Program.{Bytes}
use rocketvm.Asm.Lexer.{
  Token, eof, is_word_byte, is_digit, is_alpha, drop_while, skip_byte, skip, digit_value,
  read_digits, is_hex_prefix, drop_two, strtol, token_at, token_of, tokenize,
}

drop_while-length : (p : ℕ → Bool) (cs : Bytes) → length (drop_while p cs) ≤ length cs
unfolding drop_while
drop_while-length p [] = omega arith
drop_while-length p (c ∷ cs) =
    let ih = drop_while-length p cs in
    elim (Bool-cases (p c)) [
      | inl passes ↦ rw passes (omega arith)
      | inr fails ↦ rw fails (omega arith)
    ]

-- A first byte that passes is dropped.
drop_while-first :
    (p : ℕ → Bool) (c : ℕ) (cs : Bytes) → p c ≡ true → length (drop_while p (c ∷ cs)) ≤ length cs
unfolding drop_while
drop_while-first p c cs passes = rw passes (drop_while-length p cs)

skip-length : (m : Bool) (cs : Bytes) → length (skip m cs) ≤ length cs
unfolding skip
skip-length m [] = omega arith
skip-length m (c ∷ cs) =
    elim (skip_byte m c)
      as (λ o. length (elim o [ none ↦ c ∷ cs | some m' ↦ skip m' cs ]) ≤ suc (length cs)) [
        | none ↦ omega arith
        | some m' ↦ let ih = skip-length m' cs in omega arith
      ]

read_digits-length : (base acc : ℕ) (cs : Bytes) → length ((read_digits base acc cs).1) ≤ length cs
unfolding read_digits
read_digits-length base acc [] = omega arith
read_digits-length base acc (c ∷ cs) =
    let go : Option ℕ → ℕ × Bytes =
      λ o. elim o [ none ↦ (acc, c ∷ cs) | some v ↦ read_digits base (acc * base + v) cs ] in
    elim (digit_value base c) as (λ o. length ((go o).1) ≤ suc (length cs)) [
      | none ↦ omega arith
      | some v ↦ let ih = read_digits-length base (acc * base + v) cs in omega arith
    ]

-- A first byte that is a digit of the base is read.
read_digits-first :
    (base acc c : ℕ) (cs : Bytes) (v : ℕ)
    → digit_value base c ≡ some v
    → length ((read_digits base acc (c ∷ cs)).1) ≤ length cs
unfolding read_digits
read_digits-first base acc c cs v reads =
    let go : Option ℕ → ℕ × Bytes =
      λ o. elim o [ none ↦ (acc, c ∷ cs) | some v ↦ read_digits base (acc * base + v) cs ] in
    subst (λ o. length ((go o).1) ≤ length cs) (sym reads)
      (read_digits-length base (acc * base + v) cs)

drop_two-length :
    (c : ℕ) (cs : Bytes) → is_hex_prefix (c ∷ cs) ≡ true → length (drop_two (c ∷ cs)) ≤ length cs
unfolding is_hex_prefix
drop_two-length c [] hex = ground arith
drop_two-length c (b ∷ cs) hex = omega arith

-- A decimal digit has a value in base 10, and 0 in base 8.
digit_value-ten : (c : ℕ) → is_digit c ≡ true → (v : ℕ) × (digit_value 10 c ≡ some v)
unfolding is_digit digit_value
digit_value-ten c d = (c - b'0', ground arith)

digit_value-zero : (c : ℕ) → (c == b'0') ≡ true → digit_value 8 c ≡ some 0
unfolding digit_value
digit_value-zero c d = ground arith

strtol-length : (c : ℕ) (cs : Bytes) → is_digit c ≡ true → length ((strtol (c ∷ cs)).1) ≤ length cs
unfolding strtol
strtol-length c cs d = elim (Bool-cases (is_hex_prefix (c ∷ cs))) [
  | inl hex ↦ rw hex (
      let a = read_digits-length 16 0 (drop_two (c ∷ cs)) in
      let b = drop_two-length c cs hex in omega arith)
  | inr plain ↦ rw plain (elim (Bool-cases (c == b'0')) [
    | inl octal ↦ rw octal (read_digits-first 8 0 c cs 0 (digit_value-zero c octal))
    | inr decimal ↦
        rw decimal (let (v, reads) = digit_value-ten c d in read_digits-first 10 0 c cs v reads)
  ])
]

if-cases {ℓ κ} :
    {A : Type ℓ} (P : A → Type κ) (b : Bool) (x y : A)
    → (b ≡ true → P x)
    → (b ≡ false → P y)
    → P (if b then x else y)
if-cases P true x y f g = f refl
if-cases P false x y f g = g refl

token_at-length : (c : ℕ) (cs : Bytes) → length ((token_at c cs).1) ≤ length cs
unfolding token_at
token_at-length c cs =
    let P : Token × Bytes → Type 0 = λ r. length (r.1) ≤ length cs in
    let short : length cs ≤ length cs = omega arith in
    if-cases P (c == b',') _ _ (λ _. short)
      λ _.
        if-cases P (c == b':') _ _ (λ _. short)
          λ _.
            if-cases P (c == b'[') _ _ (λ _. short)
              λ _.
                if-cases P (c == b']') _ _ (λ _. short)
                  λ _.
                    if-cases P (c == b'\n') _ _ (λ _. short)
                      λ _.
                        if-cases P (is_alpha c || c == b'_') _ _
                          (λ w. drop_while-first is_word_byte c cs (ground arith))
                          λ _. if-cases P (is_digit c) _ _ (strtol-length c cs) λ _. short

-- `rsm_lexer_tokenize` returns the end of the text with no text left, or leaves a shorter text.
pub tokenize-length :
    (text : Bytes) → (tokenize text ≡ (eof, [])) ⊎ (length ((tokenize text).1) < length text)
unfolding tokenize token_of
tokenize-length text =
    let skipped = skip-length false text in
    elim (skip false text)
        as (λ t.
          length t ≤ length text
          → (token_of t ≡ (eof, [])) ⊎ (length ((token_of t).1) < length text)) [
            | [] ↦ λ _. inl refl
            | c ∷ cs ↦ λ h. let shorter = token_at-length c cs in inr (omega arith)
          ]
      skipped
