-- ===== src/Asm/Lexer/Comments.antt =====
-- The lexer on a text with comments, and on the text without them.
use rocketvm.Base.{
  ℕ, ◌+◌, ◌*◌, Bool, true, false, not, ◌&&◌, ◌==◌, if◌then◌else◌, [], ◌∷◌, Option, none, some,
  Option-cases, ◌≤◌, ◌≡◌, refl, sym, ap, ◌∙◌, arith, Bool-cases, inl, inr,
}
use rocketvm.Asm.Program.{Bytes}
use rocketvm.Asm.Lexer.{is_space, take_while, drop_while, skip_byte, skip, digit_value, read_digits}
use rocketvm.Asm.Dump.Numbers.{read_digits-step}

-- The text without its comments: each goes from a semicolon up to the line feed behind it, which
-- stays, or to the end. The flag says whether the text begins inside a comment.
unfoldable pub strip : Bool → Bytes → Bytes
strip in_comment [] = []
strip true (c ∷ cs) =
    let inside = strip true cs in
    let outside = strip false cs in if c == b'\n' then c ∷ outside else inside
strip false (c ∷ cs) =
    let inside = strip true cs in
    let outside = strip false cs in if c == b';' then inside else c ∷ outside

pub strip-keeps :
    (c : ℕ) (cs : Bytes) → (c == b';') ≡ false → strip false (c ∷ cs) ≡ c ∷ strip false cs
unfolding strip
strip-keeps c cs h = rw h refl

pub strip-opens : (c : ℕ) (cs : Bytes) → (c == b';') ≡ true → strip false (c ∷ cs) ≡ strip true cs
unfolding strip
strip-opens c cs h = rw h refl

-- The text ends, or goes on with a line feed.
abbrev pub AtLineEnd : Bytes → Type 0
AtLineEnd [] = Unit {0}
AtLineEnd (c ∷ cs) = c ≡ b'\n'

pub strip_inside : (cs : Bytes) → AtLineEnd (strip true cs)
unfolding strip
strip_inside [] = tt
strip_inside (c ∷ cs) = elim (Bool-cases (c == b'\n')) [
  | inl ends ↦ rw ends (ground arith)
  | inr on ↦ rw on (strip_inside cs)
]

pub skip-passes :
    (m m' : Bool) (c : ℕ) (cs : Bytes) → skip_byte m c ≡ some m' → skip m (c ∷ cs) ≡ skip m' cs
unfolding skip
skip-passes m m' c cs h = ap (λ o. elim o [ none ↦ c ∷ cs | some n ↦ skip n cs ]) h

pub skip-stops : (m : Bool) (c : ℕ) (cs : Bytes) → skip_byte m c ≡ none → skip m (c ∷ cs) ≡ c ∷ cs
unfolding skip
skip-stops m c cs h = ap (λ o. elim o [ none ↦ c ∷ cs | some n ↦ skip n cs ]) h

-- A byte outside comments that is no semicolon is passed in both texts or in none.
skip-strip_plain :
    (c : ℕ) (cs : Bytes)
    → (c == b';') ≡ false
    → skip false (strip false cs) ≡ strip false (skip false cs)
    → skip false (strip false (c ∷ cs)) ≡ strip false (skip false (c ∷ cs))
skip-strip_plain c cs plain ih =
    let kept = strip-keeps c cs plain in
    elim (Bool-cases (is_space c && not (c == b'\n'))) [
      | inl blank ↦
          let p : skip_byte false c ≡ some false = unfold skip_byte in ground arith in
          ap (skip false) kept
          ∙ skip-passes false false c (strip false cs) p
          ∙ ih
          ∙ ap (strip false) (sym (skip-passes false false c cs p))
      | inr other ↦
          let p : skip_byte false c ≡ none = unfold skip_byte in ground arith in
          ap (skip false) kept
          ∙ skip-stops false c (strip false cs) p
          ∙ sym kept
          ∙ ap (strip false) (sym (skip-stops false c cs p))
    ]

-- What stands before a token is passed in both texts.
pub skip-strip : (m : Bool) (cs : Bytes) → skip false (strip m cs) ≡ strip false (skip m cs)
unfolding skip strip skip_byte is_space
skip-strip true [] = refl
skip-strip false [] = refl
skip-strip true (c ∷ cs) = elim (Bool-cases (c == b'\n')) [
  | inl ends ↦ let e : c ≡ b'\n' = ground arith in rw e refl
  | inr on ↦
      let p : skip_byte true c ≡ some true = unfold skip_byte in ground arith in
      rw on (skip-strip true cs ∙ ap (strip false) (sym (skip-passes true true c cs p)))
]
skip-strip false (c ∷ cs) = elim (Bool-cases (c == b';')) [
  | inl opens ↦ let e : c ≡ b';' = ground arith in rw e (skip-strip true cs)
  | inr plain ↦ skip-strip_plain c cs plain (skip-strip false cs)
]

-- A test that fails at a semicolon gives the same first bytes in both texts, and then stops at texts
-- that differ in comments only.
pub take_while-strip :
    (p : ℕ → Bool) (cs : Bytes)
    → p b';' ≡ false
    → p b'\n' ≡ false
    → (take_while p (strip false cs) ≡ take_while p cs)
      × (drop_while p (strip false cs) ≡ strip false (drop_while p cs))
unfolding take_while drop_while
take_while-strip p [] semicolon line_feed = unfold strip in (refl, refl)
take_while-strip p (c ∷ cs) semicolon line_feed = elim (Bool-cases (c == b';')) [
  | inl opens ↦
      let e : c ≡ b';' = ground arith in
      let (t, d) = stops (strip true cs) (strip_inside cs) in
      let fails : p c ≡ false = ap p e ∙ semicolon in
      (
        ap (take_while p) (strip-opens c cs opens) ∙ t ∙ rw fails refl,
        ap (drop_while p) (strip-opens c cs opens)
            ∙ d
            ∙ sym (strip-opens c cs opens)
            ∙ rw fails refl,
      )
  | inr plain ↦
      let (t, d) = take_while-strip p cs semicolon line_feed in
      let kept = strip-keeps c cs plain in
      elim (Bool-cases (p c)) [
        | inl passes ↦ (
          ap (take_while p) kept ∙ rw (passes, t) refl,
          ap (drop_while p) kept ∙ rw (passes, d) refl,
        )
        | inr fails ↦
            (ap (take_while p) kept ∙ rw fails refl, ap (drop_while p) kept ∙ rw fails (sym kept))
      ]
]
  where
    stops : (rest : Bytes) → AtLineEnd rest → (take_while p rest ≡ []) × (drop_while p rest ≡ rest)
    stops [] end = (refl, refl)
    stops (b ∷ bs) end = let fails : p b ≡ false = ap p end ∙ line_feed in rw fails (refl, refl)

-- The rest of a result without its comments.
abbrev pub strip_rest {ℓ} : {A : Type ℓ} → A × Bytes → A × Bytes
strip_rest (a, rest) = (a, strip false rest)

read_digits-end :
    (base acc c : ℕ) (cs : Bytes)
    → digit_value base c ≡ none
    → read_digits base acc (c ∷ cs) ≡ (acc, c ∷ cs)
unfolding read_digits
read_digits-end base acc c cs e =
    ap
      (λ (o : Option ℕ). elim o [
        | none ↦ (acc, c ∷ cs)
        | some v ↦ read_digits base (acc * base + v) cs
      ])
      e

digit_value-semicolon : (base : ℕ) → base ≤ 16 → digit_value base b';' ≡ none
unfolding digit_value
digit_value-semicolon base h = ground arith

digit_value-line_feed : (base : ℕ) → base ≤ 16 → digit_value base b'\n' ≡ none
unfolding digit_value
digit_value-line_feed base h = ground arith

read_digits-line_end :
    (base acc : ℕ) (rest : Bytes)
    → base ≤ 16
    → AtLineEnd rest
    → read_digits base acc rest ≡ (acc, rest)
read_digits-line_end base acc [] small end = unfold read_digits in refl
read_digits-line_end base acc (c ∷ cs) small end =
    read_digits-end base acc c cs (ap (digit_value base) end ∙ digit_value-line_feed base small)

pub read_digits-strip :
    (base acc : ℕ) (cs : Bytes)
    → base ≤ 16
    → read_digits base acc (strip false cs) ≡ strip_rest (read_digits base acc cs)
read_digits-strip base acc [] small = unfold read_digits strip in refl
read_digits-strip base acc (c ∷ cs) small = elim (Bool-cases (c == b';')) [
  | inl opens ↦
      let e : c ≡ b';' = ground arith in
      let no_digit = ap (digit_value base) e ∙ digit_value-semicolon base small in
      let opened = strip-opens c cs opens in
      ap (read_digits base acc) opened
      ∙ read_digits-line_end base acc (strip true cs) small (strip_inside cs)
      ∙ ap (λ r. (acc, r)) (sym opened)
      ∙ ap strip_rest (sym (read_digits-end base acc c cs no_digit))
  | inr plain ↦
      let kept = strip-keeps c cs plain in
      elim (Option-cases (digit_value base c)) [
        | inl no_digit ↦
            ap (read_digits base acc) kept
            ∙ read_digits-end base acc c (strip false cs) no_digit
            ∙ ap (λ r. (acc, r)) (sym kept)
            ∙ ap strip_rest (sym (read_digits-end base acc c cs no_digit))
        | inr (v, digit) ↦
            ap (read_digits base acc) kept
            ∙ read_digits-step base acc c (strip false cs) v digit
            ∙ read_digits-strip base (acc * base + v) cs small
            ∙ ap strip_rest (sym (read_digits-step base acc c cs v digit))
      ]
]
