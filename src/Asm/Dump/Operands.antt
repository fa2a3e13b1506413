-- ===== src/Asm/Dump/Operands.antt =====
-- Printed names and operands, read again.
use rocketvm.Base.{
  ℕ, zero, suc, ◌<◌, ◌≤◌, true, [], ◌∷◌, ◌++◌, Option, none, some, ◌≡◌, refl, ap, ◌∙◌, arith,
}
use mathlib.Core.List.{append_assoc}
use rocketvm.Isa.Opcode.{Opcode, mov}
use rocketvm.Isa.Names.{opcode_to_string, reg_to_string}
use rocketvm.Asm.Program.{
  Bytes, MemOperand, mem_none, mem_imm, mem_reg, mem_label, Operand, absent, imm, reg, label, mem,
  invalid,
}
use rocketvm.Asm.Lexer.{
  Token, opcode, ident, number, lbracket, rbracket, int32_max, to_lower, is_space, is_alpha,
  is_alnum, is_digit, tokenize_opcode, tokenize_opcode3, tokenize_reg, word_token, skip, skip_byte,
  token_at, token_of, tokenize,
}
use rocketvm.Asm.Parser.{
  State, advance, parse_operand, parse_operand_at, parse_mem, mem_operand, close_mem,
}
use rocketvm.Asm.Dump.{dump_mem, dump_operand}
use rocketvm.Asm.Dump.Words.{Delimits, is_word, starts_word, tokenize-word}
use rocketvm.Asm.Dump.Numbers.{tokenize-decimal}

-- A name that the lexer takes for an identifier.
abbrev pub IsName : Bytes → Type 0
IsName [] = ⊥
IsName (c ∷ cs) =
    (starts_word c ≡ true)
    × (is_word (c ∷ cs) ≡ true)
    × (tokenize_opcode (c ∷ cs) ≡ none)
    × (tokenize_reg (c ∷ cs) ≡ none)

word_token-ident :
    (word : Bytes)
    → tokenize_opcode word ≡ none
    → tokenize_reg word ≡ none
    → word_token word ≡ ident word
unfolding word_token
word_token-ident word no_opcode no_reg =
    ap
      (λ (o : Option Opcode).
        let other : Token = elim (tokenize_reg word) [ some r ↦ Token.reg r | none ↦ ident word ] in
        elim o [ some op ↦ opcode op | none ↦ other ])
      no_opcode
    ∙ ap (λ (o : Option ℕ). elim o [ some r ↦ Token.reg r | none ↦ ident word ]) no_reg

pub tokenize-name :
    (name rest : Bytes) → IsName name → Delimits rest → tokenize (name ++ rest) ≡ (ident name, rest)
tokenize-name [] rest h d = absurd h
tokenize-name (c ∷ cs) rest (start, word, no_opcode, no_reg) d =
    tokenize-word c cs rest start word d
    ∙ ap (λ t. (t, rest)) (word_token-ident (c ∷ cs) no_opcode no_reg)

-- A word that the lexer takes for the token.
abbrev Spells : Bytes → Token → Type 0
Spells word token =
    (c : ℕ) × (cs : Bytes) × (word ≡ c ∷ cs)
    × (starts_word c ≡ true)
    × (is_word (c ∷ cs) ≡ true)
    × (word_token (c ∷ cs) ≡ token)

spelled :
    (word rest : Bytes) (token : Token)
    → Spells word token
    → Delimits rest
    → tokenize (word ++ rest) ≡ (token, rest)
spelled word rest token (c, cs, e, start, letters, reads) d =
    ap (λ w. tokenize (w ++ rest)) e
    ∙ tokenize-word c cs rest start letters d
    ∙ ap (λ t. (t, rest)) reads

opcode_spelled : (op : Opcode) → Spells (opcode_to_string op) (opcode op)
unfolding opcode_to_string is_word is_alpha word_token tokenize_opcode tokenize_opcode3 to_lower
opcode_spelled mov = (_, _, refl, refl, refl, refl)
opcode_spelled _ = (_, _, refl, refl, refl, refl)

pub tokenize-opcode_to_string :
    (op : Opcode) (rest : Bytes)
    → Delimits rest
    → tokenize (opcode_to_string op ++ rest) ≡ (opcode op, rest)
tokenize-opcode_to_string op rest =
    spelled (opcode_to_string op) rest (opcode op) (opcode_spelled op)

reg_spelled : (r : ℕ) → r < 8 → Spells (reg_to_string r) (Token.reg r)
unfolding reg_to_string is_word is_alpha word_token tokenize_opcode tokenize_opcode3 tokenize_reg
    to_lower
reg_spelled zero h = (_, _, refl, refl, refl, refl)
reg_spelled (suc zero) h = (_, _, refl, refl, refl, refl)
reg_spelled (suc (suc zero)) h = (_, _, refl, refl, refl, refl)
reg_spelled (suc (suc (suc zero))) h = (_, _, refl, refl, refl, refl)
reg_spelled (suc (suc (suc (suc zero)))) h = (_, _, refl, refl, refl, refl)
reg_spelled (suc (suc (suc (suc (suc zero))))) h = (_, _, refl, refl, refl, refl)
reg_spelled (suc (suc (suc (suc (suc (suc zero)))))) h = (_, _, refl, refl, refl, refl)
reg_spelled (suc (suc (suc (suc (suc (suc (suc zero))))))) h = (_, _, refl, refl, refl, refl)
reg_spelled (suc (suc (suc (suc (suc (suc (suc (suc r)))))))) h = absurd (omega arith)

pub tokenize-reg_to_string :
    (r : ℕ) (rest : Bytes)
    → r < 8
    → Delimits rest
    → tokenize (reg_to_string r ++ rest) ≡ (Token.reg r, rest)
tokenize-reg_to_string r rest h = spelled (reg_to_string r) rest (Token.reg r) (reg_spelled r h)

-- What the lexer finds in the text is the parser's next token.
pub advance-tokenize :
    (s : State) (token : Token) (rest : Bytes)
    → tokenize s.text ≡ (token, rest)
    → advance s ≡ record { token = token; text = rest }
unfolding advance
advance-tokenize s token rest e =
    let state : Token × Bytes → State = λ r. record { token = r.0; text = r.1 } in ap state e

pub tokenize-blank : (cs : Bytes) → tokenize (b' ' ∷ cs) ≡ tokenize cs
unfolding tokenize skip skip_byte is_space
tokenize-blank cs = refl

bracket_opens : (cs : Bytes) → tokenize (b'[' ∷ cs) ≡ (lbracket, cs)
unfolding tokenize token_of token_at skip skip_byte is_space
bracket_opens cs = refl

bracket_closes : (cs : Bytes) → tokenize (b']' ∷ cs) ≡ (rbracket, cs)
unfolding tokenize token_of token_at skip skip_byte is_space
bracket_closes cs = refl

-- Operands that their print determines: a number that the lexer takes, a register below 8, a name.
abbrev pub IsReadableMem : MemOperand → Type 0
IsReadableMem (mem_imm n) = n ≤ int32_max
IsReadableMem (mem_reg r) = r < 8
IsReadableMem (mem_label name) = IsName name
IsReadableMem mem_none = ⊥

abbrev pub IsReadable : Operand → Type 0
IsReadable (imm n) = n ≤ int32_max
IsReadable (reg r) = r < 8
IsReadable (label name) = IsName name
IsReadable (mem m) = IsReadableMem m
IsReadable _ = ⊥

-- The token at which the parser leaves an operand.
abbrev pub last_token : Operand → Token
last_token (imm n) = number n
last_token (reg r) = Token.reg r
last_token (label name) = ident name
last_token (mem m) = rbracket
last_token _ = Token.invalid

mem_token : MemOperand → Token
mem_token (mem_imm n) = number n
mem_token (mem_reg r) = Token.reg r
mem_token (mem_label name) = ident name
mem_token mem_none = Token.invalid

mem_operand-mem_token :
    (m : MemOperand) → IsReadableMem m → mem_operand (mem_token m) ≡ some (mem m)
unfolding mem_operand mem_token
mem_operand-mem_token (mem_imm n) h = refl
mem_operand-mem_token (mem_reg r) h = refl
mem_operand-mem_token (mem_label name) h = refl
mem_operand-mem_token mem_none h = absurd h

tokenize-dump_mem :
    (m : MemOperand) (rest : Bytes)
    → IsReadableMem m
    → Delimits rest
    → tokenize (dump_mem m ++ rest) ≡ (mem_token m, rest)
unfolding dump_mem mem_token
tokenize-dump_mem (mem_imm n) rest h d = tokenize-decimal n rest h d
tokenize-dump_mem (mem_reg r) rest h d = tokenize-reg_to_string r rest h d
tokenize-dump_mem (mem_label name) rest h d = tokenize-name name rest h d
tokenize-dump_mem mem_none rest h d = absurd h

parse_mem-dump_mem :
    (m : MemOperand) (s : State) (rest : Bytes)
    → IsReadableMem m
    → s.text ≡ dump_mem m ++ b']' ∷ rest
    → parse_mem s ≡ some (mem m, record { token = rbracket; text = rest })
unfolding parse_mem close_mem
parse_mem-dump_mem m s rest h e =
    let inside = advance-tokenize s (mem_token m) (b']' ∷ rest) (
      ap tokenize e
      ∙ tokenize-dump_mem m (b']' ∷ rest) h (unfold is_alnum is_alpha is_digit in refl)) in
    let closed =
      advance-tokenize (record { token = mem_token m; text = b']' ∷ rest }) rbracket rest
        (bracket_closes rest) in
    rw (inside, mem_operand-mem_token m h, closed) refl

pub parse_operand-dump_operand :
    (a : Operand) (s : State) (rest : Bytes)
    → IsReadable a
    → Delimits rest
    → s.text ≡ dump_operand a ++ rest
    → parse_operand (advance s) ≡ some (a, record { token = last_token a; text = rest })
unfolding dump_operand parse_operand_at
parse_operand-dump_operand (imm n) s rest h d e =
    rw (advance-tokenize s (number n) rest (ap tokenize e ∙ tokenize-decimal n rest h d)) refl
parse_operand-dump_operand (reg r) s rest h d e =
    rw (advance-tokenize s (Token.reg r) rest (ap tokenize e ∙ tokenize-reg_to_string r rest h d))
      refl
parse_operand-dump_operand (label name) s rest h d e =
    rw (advance-tokenize s (ident name) rest (ap tokenize e ∙ tokenize-name name rest h d)) refl
parse_operand-dump_operand (mem m) s rest h d e =
    let text : s.text ≡ b'[' ∷ (dump_mem m ++ b']' ∷ rest) =
      e ∙ ap (λ t. b'[' ∷ t) (append_assoc (dump_mem m) (b']' ∷ []) rest) in
    let opened =
      advance-tokenize s lbracket (dump_mem m ++ b']' ∷ rest)
        (ap tokenize text ∙ bracket_opens (dump_mem m ++ b']' ∷ rest)) in
    rw opened (
      parse_mem-dump_mem m (record { token = lbracket; text = dump_mem m ++ b']' ∷ rest }) rest h
        refl)
parse_operand-dump_operand absent s rest h d e = absurd h
parse_operand-dump_operand invalid s rest h d e = absurd h
