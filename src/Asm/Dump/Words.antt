-- ===== src/Asm/Dump/Words.antt =====
-- The lexer on printed words.
use rocketvm.Base.{
  ℕ, Bool, true, false, ◌&&◌, ◌||◌, ◌==◌, [], ◌∷◌, ◌++◌, Option, none, some, ◌≡◌, refl, ap, arith,
}
use rocketvm.Asm.Program.{Bytes}
use rocketvm.Asm.Lexer.{
  is_space, is_word_byte, is_digit, is_alpha, is_alnum, take_while, drop_while, skip_byte, skip,
  word_token, token_at, token_of, tokenize,
}

-- The text ends, or goes on with a byte that no word has.
abbrev pub Delimits : Bytes → Type 0
Delimits [] = Unit {0}
Delimits (c ∷ cs) = is_word_byte c ≡ false

-- Every byte may stand in a word.
unfoldable pub is_word : Bytes → Bool
unfolding is_alnum is_alpha is_digit
is_word [] = true
is_word (c ∷ cs) = is_word_byte c && is_word cs

take_while-append :
    (word rest : Bytes)
    → is_word word ≡ true
    → Delimits rest
    → (take_while is_word_byte (word ++ rest) ≡ word)
      × (drop_while is_word_byte (word ++ rest) ≡ rest)
unfolding take_while drop_while is_word
take_while-append [] [] h d = (refl, refl)
take_while-append [] (c ∷ cs) h d = rw d (refl, refl)
take_while-append (c ∷ cs) rest h d =
    let first : is_word_byte c ≡ true = ground arith in
    let (a, b) = take_while-append cs rest (ground arith) d in
    (rw (first, a) refl, rw (first, b) refl)

-- The first byte of a word.
abbrev pub starts_word : ℕ → Bool
starts_word c = is_alpha c || c == b'_'

pub token_at-word :
    (c : ℕ) (cs : Bytes)
    → starts_word c ≡ true
    → token_at c cs
      ≡ (word_token (take_while is_word_byte (c ∷ cs)), drop_while is_word_byte (c ∷ cs))
unfolding token_at is_alpha
token_at-word c cs h = ground arith

-- A byte that the head of `rsm_lexer_tokenize` does not pass begins a token.
pub tokenize-stays :
    (c : ℕ) (cs : Bytes) → skip_byte false c ≡ none → tokenize (c ∷ cs) ≡ token_at c cs
unfolding tokenize token_of skip
tokenize-stays c cs stays =
    ap (λ (o : Option Bool). token_of (elim o [ none ↦ c ∷ cs | some m ↦ skip m cs ])) stays

skip_byte-start : (c : ℕ) → starts_word c ≡ true → skip_byte false c ≡ none
unfolding skip_byte is_alpha is_space
skip_byte-start c h = ground arith

pub skip_byte-digit : (c : ℕ) → is_digit c ≡ true → skip_byte false c ≡ none
unfolding skip_byte is_digit is_space
skip_byte-digit c h = ground arith

pub tokenize-word :
    (c : ℕ) (cs rest : Bytes)
    → starts_word c ≡ true
    → is_word (c ∷ cs) ≡ true
    → Delimits rest
    → tokenize (c ∷ cs ++ rest) ≡ (word_token (c ∷ cs), rest)
tokenize-word c cs rest start h d =
    let (taken, dropped) = take_while-append (c ∷ cs) rest h d in
    rw
      (
        tokenize-stays c (cs ++ rest) (skip_byte-start c start),
        token_at-word c (cs ++ rest) start,
        taken,
        dropped,
      )
      refl
