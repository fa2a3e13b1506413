-- ===== src/Asm/Lexer.antt =====
-- rocketasm/lexer.h and lexer.c. The lexer's state is the text from `pos` on, in bytes; the NUL that
-- `rvm_io_read_file` puts behind it stops `strtol` there. The character classes are those of the C
-- locale, and `long` has 64 bits.
pub mod Mnemonics
pub mod Progress
pub mod Comments
pub mod Stripped
pub mod Dump
use rocketvm.Base.{
  ℕ, ◌+◌, ◌-◌, ◌*◌, ◌^◌, bit_or, Bool, true, false, not, ◌&&◌, ◌||◌, ◌==◌, ltb, leb, if◌then◌else◌,
  List, [], ◌∷◌, length, Option, none, some,
}
use rocketvm.Isa.Opcode.{
  Opcode, mov, load, store, add, sub, mul, div, modulo, shl, shr, cmp, jmp, jz, jnz, call, ret,
}
use rocketvm.Asm.Program.{Bytes}

-- `rsm_token_t`: the type with its value, and for an identifier its text.
pub data Token : Type 0 where
  invalid : Token
  opcode : Opcode → Token
  reg : ℕ → Token
  ident : Bytes → Token
  number : ℕ → Token
  comma colon lbracket rbracket newline eof : Token

abbrev pub within : ℕ → ℕ → ℕ → Bool
within lo hi c = leb lo c && leb c hi

-- `isspace`, `isdigit`, `isalpha` and `isalnum`.
unfoldable pub is_space : ℕ → Bool
is_space c = within 9 13 c || c == b' '

unfoldable pub is_digit : ℕ → Bool
is_digit c = within b'0' b'9' c

unfoldable pub is_alpha : ℕ → Bool
is_alpha c = within b'a' b'z' c || within b'A' b'Z' c

unfoldable pub is_alnum : ℕ → Bool
unfolding is_digit is_alpha
is_alnum c = is_alpha c || is_digit c

-- `rsm_tolower`.
unfoldable pub to_lower : ℕ → ℕ
to_lower ch = bit_or ch 0x20

-- `str[i]` in lower case is the given letter.
abbrev pub letter : ℕ → ℕ → Bool
letter ch l = to_lower ch == l

-- The case of a text of three bytes in `rsm_lexer_tokenize_opcode`: a switch on the first letter.
unfoldable pub tokenize_opcode3 : ℕ → ℕ → ℕ → Option Opcode
unfolding to_lower
tokenize_opcode3 a b c =
    if letter a b'm'
    then (if letter b b'o' && letter c b'v'
        then some mov
        else if letter b b'u' && letter c b'l'
        then some mul
        else if letter b b'o' && letter c b'd'
        then some modulo
        else none)
    else if letter a b'a'
    then (if letter b b'd' && letter c b'd' then some add else none)
    else if letter a b's'
    then (if letter b b'u' && letter c b'b'
        then some sub
        else if letter b b'h' && letter c b'l'
        then some shl
        else if letter b b'h' && letter c b'r'
        then some shr
        else none)
    else if letter a b'd'
    then (if letter b b'i' && letter c b'v' then some div else none)
    else if letter a b'c'
    then (if letter b b'm' && letter c b'p' then some cmp else none)
    else if letter a b'j'
    then (if letter b b'm' && letter c b'p'
        then some jmp
        else if letter b b'n' && letter c b'z'
        then some jnz
        else none)
    else if letter a b'r'
    then (if letter b b'e' && letter c b't' then some ret else none)
    else none

-- `rsm_lexer_tokenize_opcode`; `none` is RSM_INVALID_OPCODE.
unfoldable pub tokenize_opcode : Bytes → Option Opcode
unfolding to_lower tokenize_opcode3
tokenize_opcode (a ∷ b ∷ []) = if letter a b'j' && letter b b'z' then some jz else none
tokenize_opcode (a ∷ b ∷ c ∷ []) = tokenize_opcode3 a b c
tokenize_opcode (a ∷ b ∷ c ∷ d ∷ []) =
    if letter a b'l' && letter b b'o' && letter c b'a' && letter d b'd'
    then some load
    else if letter a b'c' && letter b b'a' && letter c b'l' && letter d b'l'
    then some call
    else none
tokenize_opcode (a ∷ b ∷ c ∷ d ∷ e ∷ []) =
    if letter a b's' && letter b b't' && letter c b'o' && letter d b'r' && letter e b'e'
    then some store
    else none
tokenize_opcode _ = none

-- `rsm_lexer_tokenize_reg`; `none` is RSM_INVALID_REG.
unfoldable pub tokenize_reg : Bytes → Option ℕ
unfolding to_lower
tokenize_reg (a ∷ b ∷ c ∷ []) =
    if letter a b'r' && letter b b'v'
    then (if within b'0' b'7' c then some (c - b'0') else none)
    else none
tokenize_reg _ = none

-- The longest prefix of bytes that pass a test, and what follows it.
unfoldable pub take_while : (ℕ → Bool) → Bytes → Bytes
take_while p [] = []
take_while p (c ∷ cs) = let rest = take_while p cs in if p c then c ∷ rest else []

unfoldable pub drop_while : (ℕ → Bool) → Bytes → Bytes
drop_while p [] = []
drop_while p (c ∷ cs) = let rest = drop_while p cs in if p c then rest else c ∷ cs

-- What the loop at the head of `rsm_lexer_tokenize` does at a byte: `none` leaves the loop, and
-- `some m` passes the byte, inside a comment or not.
unfoldable pub skip_byte : Bool → ℕ → Option Bool
unfolding is_space
skip_byte true c = if c == b'\n' then none else some true
skip_byte false c =
    if is_space c && not (c == b'\n') then some false else if c == b';' then some true else none

-- That loop: blanks, then a comment up to the end of its line, and again. It ends at a line feed,
-- which also ends a comment.
unfoldable pub skip : Bool → Bytes → Bytes
unfolding skip_byte
skip in_comment [] = []
skip in_comment (c ∷ cs) = elim (skip_byte in_comment c) [ none ↦ c ∷ cs | some m ↦ skip m cs ]

-- The value of a digit in a base, for `strtol`.
unfoldable pub digit_value : ℕ → ℕ → Option ℕ
digit_value base c =
    let v =
      if within b'0' b'9' c
      then c - b'0'
      else if within b'a' b'z' c
      then c - b'a' + 10
      else if within b'A' b'Z' c
      then c - b'A' + 10
      else 36 in
    if ltb v base then some v else none

-- The digits that `strtol` reads after a value so far, and the text after them.
unfoldable pub read_digits : ℕ → ℕ → Bytes → ℕ × Bytes
unfolding digit_value
read_digits base acc [] = (acc, [])
read_digits base acc (c ∷ cs) = elim (digit_value base c) [
  | none ↦ (acc, c ∷ cs)
  | some v ↦ read_digits base (acc * base + v) cs
]

-- `0x` or `0X` with a hexadecimal digit behind it.
unfoldable pub is_hex_prefix : Bytes → Bool
unfolding digit_value
is_hex_prefix (a ∷ b ∷ c ∷ cs) =
    (a == b'0' && (b == b'x' || b == b'X'))
    && elim (digit_value 16 c) [ none ↦ false | some _ ↦ true ]
is_hex_prefix _ = false

abbrev drop_two : Bytes → Bytes
drop_two (a ∷ b ∷ cs) = cs
drop_two cs = cs

-- `strtol` with base 0 on a text that begins with a digit. A value beyond `long` is cut to its
-- bounds in C, which the check behind it refuses just as well.
unfoldable pub strtol : Bytes → ℕ × Bytes
unfolding read_digits is_hex_prefix
strtol [] = (0, [])
strtol (c ∷ cs) =
    if is_hex_prefix (c ∷ cs)
    then read_digits 16 0 (drop_two (c ∷ cs))
    else if c == b'0'
    then read_digits 8 0 (c ∷ cs)
    else read_digits 10 0 (c ∷ cs)

abbrev pub int32_max : ℕ
int32_max = 2 ^ 31 - 1

-- A word: an opcode, else a register, else an identifier.
unfoldable pub word_token : Bytes → Token
unfolding tokenize_opcode tokenize_reg
word_token text = elim (tokenize_opcode text) [
  | some op ↦ opcode op
  | none ↦ elim (tokenize_reg text) [ some r ↦ reg r | none ↦ ident text ]
]

abbrev pub number_token : ℕ → Token
number_token value = if ltb int32_max value then invalid else number value

abbrev pub is_word_byte : ℕ → Bool
is_word_byte c = is_alnum c || c == b'_'

-- The token at the first byte that is not skipped, and the text after it.
unfoldable pub token_at : ℕ → Bytes → Token × Bytes
unfolding word_token strtol is_alnum is_alpha is_digit take_while drop_while
token_at ch cs =
    let (value, after) = strtol (ch ∷ cs) in
    if ch == b','
    then (comma, cs)
    else if ch == b':'
    then (colon, cs)
    else if ch == b'['
    then (lbracket, cs)
    else if ch == b']'
    then (rbracket, cs)
    else if ch == b'\n'
    then (newline, cs)
    else if is_alpha ch || ch == b'_'
    then (word_token (take_while is_word_byte (ch ∷ cs)), drop_while is_word_byte (ch ∷ cs))
    else if is_digit ch
    then (number_token value, after)
    else (invalid, cs)

unfoldable pub token_of : Bytes → Token × Bytes
unfolding token_at
token_of [] = (eof, [])
token_of (c ∷ cs) = token_at c cs

-- `rsm_lexer_tokenize`.
unfoldable pub tokenize : Bytes → Token × Bytes
unfolding token_of skip
tokenize text = token_of (skip false text)
