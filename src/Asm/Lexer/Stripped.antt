-- ===== src/Asm/Lexer/Stripped.antt =====
-- Every token of a text with comments is the token of the text without them.
use rocketvm.Base.{
  ℕ, Bool, true, false, ◌==◌, [], ◌∷◌, none, Option-cases, ◌≡◌, refl, sym, ap, ◌∙◌, arith,
  Bool-cases, inl, inr, subst,
}
use rocketvm.Asm.Program.{Bytes}
use rocketvm.Asm.Lexer.{
  number_token, is_word_byte, is_digit, is_alpha, is_alnum, take_while, drop_while, skip_byte, skip,
  digit_value, read_digits, is_hex_prefix, drop_two, strtol, word_token, token_at, token_of,
  tokenize,
}
use rocketvm.Asm.Lexer.Comments.{
  strip, strip-keeps, strip-opens, strip_inside, AtLineEnd, strip_rest, skip-stops, skip-passes,
  skip-strip, take_while-strip, read_digits-strip,
}
use rocketvm.Asm.Dump.Words.{starts_word, token_at-word}
use rocketvm.Asm.Dump.Numbers.{token_at-digit}

-- No hexadecimal prefix goes over the end of a line, or into a comment.
hex_first : (c : ℕ) (rest : Bytes) → AtLineEnd rest → is_hex_prefix (c ∷ rest) ≡ false
unfolding is_hex_prefix
hex_first c [] end = refl
hex_first c (b ∷ []) end = refl
hex_first c (b ∷ d ∷ rest) end = ground arith

hex_second : (c b : ℕ) (rest : Bytes) → AtLineEnd rest → is_hex_prefix (c ∷ b ∷ rest) ≡ false
unfolding is_hex_prefix digit_value
hex_second c b [] end = refl
hex_second c b (d ∷ rest) end = ground arith

hex_comment : (c b : ℕ) (cs : Bytes) → (b == b';') ≡ true → is_hex_prefix (c ∷ b ∷ cs) ≡ false
unfolding is_hex_prefix
hex_comment c b [] h = refl
hex_comment c b (d ∷ cs) h = ground arith

hex_comment_second :
    (c b d : ℕ) (cs : Bytes) → (d == b';') ≡ true → is_hex_prefix (c ∷ b ∷ d ∷ cs) ≡ false
unfolding is_hex_prefix digit_value
hex_comment_second c b d cs h = ground arith

hex_third :
    (c b d : ℕ) (cs cs' : Bytes) → is_hex_prefix (c ∷ b ∷ d ∷ cs) ≡ is_hex_prefix (c ∷ b ∷ d ∷ cs')
unfolding is_hex_prefix
hex_third c b d cs cs' = refl

is_hex_prefix-strip :
    (c : ℕ) (cs : Bytes) → is_hex_prefix (c ∷ strip false cs) ≡ is_hex_prefix (c ∷ cs)
is_hex_prefix-strip c [] = unfold strip in refl
is_hex_prefix-strip c (b ∷ cs) = elim (Bool-cases (b == b';')) [
  | inl opens ↦
      ap (λ t. is_hex_prefix (c ∷ t)) (strip-opens b cs opens)
      ∙ hex_first c (strip true cs) (strip_inside cs)
      ∙ sym (hex_comment c b cs opens)
  | inr plain ↦ ap (λ t. is_hex_prefix (c ∷ t)) (strip-keeps b cs plain) ∙ second cs
]
  where
    second : (cs : Bytes) → is_hex_prefix (c ∷ b ∷ strip false cs) ≡ is_hex_prefix (c ∷ b ∷ cs)
    second [] = unfold strip in refl
    second (d ∷ cs) = elim (Bool-cases (d == b';')) [
      | inl opens ↦
          ap (λ t. is_hex_prefix (c ∷ b ∷ t)) (strip-opens d cs opens)
          ∙ hex_second c b (strip true cs) (strip_inside cs)
          ∙ sym (hex_comment_second c b d cs opens)
      | inr plain ↦
          ap (λ t. is_hex_prefix (c ∷ b ∷ t)) (strip-keeps d cs plain)
          ∙ hex_third c b d (strip false cs) cs
    ]

drop_two-strip :
    (c : ℕ) (cs : Bytes)
    → is_hex_prefix (c ∷ cs) ≡ true
    → drop_two (c ∷ strip false cs) ≡ strip false (drop_two (c ∷ cs))
drop_two-strip c [] hex = absurd (unfold is_hex_prefix in ground arith)
drop_two-strip c (b ∷ cs) hex = elim (Bool-cases (b == b';')) [
  | inl opens ↦ absurd (let e = hex_comment c b cs opens in ground arith)
  | inr plain ↦ ap (λ t. drop_two (c ∷ t)) (strip-keeps b cs plain)
]

strtol-strip :
    (c : ℕ) (cs : Bytes)
    → is_digit c ≡ true
    → strtol (c ∷ strip false cs) ≡ strip_rest (strtol (c ∷ cs))
unfolding strtol
strtol-strip c cs digit =
    let same = is_hex_prefix-strip c cs in
    let plain : (c == b';') ≡ false = unfold is_digit in ground arith in
    let kept = strip-keeps c cs plain in
    elim (Bool-cases (is_hex_prefix (c ∷ cs))) [
      | inl hex ↦
          rw (same, hex)
            (ap (read_digits 16 0) (drop_two-strip c cs hex)
              ∙ read_digits-strip 16 0 (drop_two (c ∷ cs)) (omega arith))
      | inr no_hex ↦ elim (Bool-cases (c == b'0')) [
        | inl octal ↦
            rw (same, no_hex, octal)
              (ap (read_digits 8 0) (sym kept) ∙ read_digits-strip 8 0 (c ∷ cs) (omega arith))
        | inr decimal ↦
            rw (same, no_hex, decimal)
              (ap (read_digits 10 0) (sym kept) ∙ read_digits-strip 10 0 (c ∷ cs) (omega arith))
      ]
    ]

-- A byte that begins no word and no number is a token by itself.
token_at-single :
    (c : ℕ) (cs : Bytes)
    → starts_word c ≡ false
    → is_digit c ≡ false
    → token_at c cs ≡ ((token_at c []).0, cs)
unfolding token_at is_alpha is_digit
token_at-single c cs no_word no_digit = ground arith

token_at-strip :
    (c : ℕ) (cs : Bytes)
    → (c == b';') ≡ false
    → token_at c (strip false cs) ≡ strip_rest (token_at c cs)
token_at-strip c cs plain = elim (Bool-cases (starts_word c)) [
  | inl word ↦
      let kept = strip-keeps c cs plain in
      let (taken, dropped) =
        take_while-strip is_word_byte (c ∷ cs) (unfold is_alnum is_alpha is_digit in refl)
          (unfold is_alnum is_alpha is_digit in refl) in
      token_at-word c (strip false cs) word
      ∙ ap (λ t. (word_token (take_while is_word_byte t), drop_while is_word_byte t)) (sym kept)
      ∙ ap (λ t. (word_token t, drop_while is_word_byte (strip false (c ∷ cs)))) taken
      ∙ ap (λ t. (word_token (take_while is_word_byte (c ∷ cs)), t)) dropped
      ∙ ap strip_rest (sym (token_at-word c cs word))
  | inr no_word ↦ elim (Bool-cases (is_digit c)) [
    | inl digit ↦
        token_at-digit c (strip false cs) digit
        ∙ ap (λ (r : ℕ × Bytes). (number_token (r.0), r.1)) (strtol-strip c cs digit)
        ∙ ap strip_rest (sym (token_at-digit c cs digit))
    | inr no_digit ↦
        token_at-single c (strip false cs) no_word no_digit
        ∙ ap strip_rest (sym (token_at-single c cs no_word no_digit))
  ]
]

-- What is left when blanks and comments are passed does not begin with a semicolon.
skip-plain : (m : Bool) (cs rest : Bytes) (c : ℕ) → skip m cs ≡ c ∷ rest → (c == b';') ≡ false
skip-plain m [] rest c h = absurd (unfold skip in ground arith)
skip-plain m (b ∷ cs) rest c h = elim (Option-cases (skip_byte m b)) [
  | inl stays ↦
      let e = sym (skip-stops m b cs stays) ∙ h in
      let first : b ≡ c = ground arith in
      subst (λ x. (x == b';') ≡ false) first (not_opening m b stays)
  | inr (m', passes) ↦ skip-plain m' cs rest c (sym (skip-passes m m' b cs passes) ∙ h)
]
  where
    not_opening : (m : Bool) (b : ℕ) → skip_byte m b ≡ none → (b == b';') ≡ false
    not_opening true b stays = unfold skip_byte in ground arith
    not_opening false b stays = unfold skip_byte in ground arith

-- On every text, `rsm_lexer_tokenize` gives the same token as on the text without its comments (from
-- each semicolon up to its line feed, which stays, or to the end), and leaves the same text behind
-- it, again without its comments.
pub tokenize-strip :
    (text : Bytes)
    → tokenize (strip false text) ≡ ((tokenize text).0, strip false (tokenize text).1)
unfolding tokenize
tokenize-strip text = ap token_of (skip-strip false text) ∙ from_skipped (skip false text) refl
  where
    from_skipped :
        (rest : Bytes)
        → skip false text ≡ rest
        → token_of (strip false rest) ≡ strip_rest (token_of rest)
    from_skipped [] e = unfold strip token_of in refl
    from_skipped (c ∷ cs) e =
        let plain = skip-plain false text cs c e in
        ap token_of (strip-keeps c cs plain) ∙ unfold token_of in token_at-strip c cs plain
