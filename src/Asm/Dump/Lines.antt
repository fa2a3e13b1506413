-- ===== src/Asm/Dump/Lines.antt =====
-- Printed instructions, parsed again.
use rocketvm.Base.{false, ◌∷◌, ◌++◌, some, ◌≡◌, refl, ap, ◌∙◌, arith}
use rocketvm.Asm.Program.{Bytes, Operand, absent, imm, reg, label, mem, invalid}
use rocketvm.Asm.Lexer.{
  Token, comma, newline, eof, skip, skip_byte, is_space, is_alnum, is_alpha, is_digit, token_at,
  token_of, tokenize,
}
use rocketvm.Asm.Parser.{
  State, advance, parse_operand, parse_operand_at, parse_second, parse_rest, parse_operands,
  ends_line,
}
use rocketvm.Asm.Dump.{dump_operand, dump_first, dump_second}
use rocketvm.Asm.Dump.Words.{Delimits}
use rocketvm.Asm.Dump.Operands.{
  IsReadable, last_token, advance-tokenize, tokenize-blank, parse_operand-dump_operand,
}

-- The state at the line feed, with the text behind it.
abbrev pub at_newline : Bytes → State
at_newline rest = record { token = newline; text = rest }

line_feed : (cs : Bytes) → tokenize (b'\n' ∷ cs) ≡ (newline, cs)
unfolding tokenize token_of token_at skip skip_byte is_space
line_feed cs = refl

comma_byte : (cs : Bytes) → tokenize (b',' ∷ cs) ≡ (comma, cs)
unfolding tokenize token_of token_at skip skip_byte is_space
comma_byte cs = refl

pub advance-newline :
    (s : State) (rest : Bytes) → s.text ≡ b'\n' ∷ rest → advance s ≡ at_newline rest
advance-newline s rest e = advance-tokenize s newline rest (ap tokenize e ∙ line_feed rest)

pub advance-blank :
    (s : State) (t : Bytes)
    → s.text ≡ b' ' ∷ t
    → advance s ≡ advance (record { token = s.token; text = t })
unfolding advance
advance-blank s t e =
    let state : Token × Bytes → State = λ r. record { token = r.0; text = r.1 } in
    ap state (ap tokenize e ∙ tokenize-blank t)

-- An operand does not begin with the end of a line.
operand_starts :
    (s : State) (r : Operand × State) → parse_operand s ≡ some r → ends_line s.token ≡ false
operand_starts s r h = by_token s.token h
  where
    by_token : (t : Token) → parse_operand_at t s ≡ some r → ends_line t ≡ false
    by_token newline h = unfold parse_operand_at in absurd (ground arith)
    by_token eof h = unfold parse_operand_at in absurd (ground arith)
    by_token _ h = refl

-- The second operand may be left out.
abbrev pub IsReadableOrAbsent : Operand → Type 0
IsReadableOrAbsent absent = Unit {0}
IsReadableOrAbsent b = IsReadable b

-- The second operand and the end of the line.
parse_second-dump_operand :
    (a b : Operand) (s : State) (rest : Bytes)
    → IsReadable b
    → s.text ≡ b' ' ∷ (dump_operand b ++ b'\n' ∷ rest)
    → parse_second a s ≡ some (a, b, at_newline rest)
unfolding parse_second
parse_second-dump_operand a b s rest h e =
    let text = b'\n' ∷ rest in
    let read =
      parse_operand-dump_operand b (record { token = s.token; text = dump_operand b ++ text }) text
        h (unfold is_alnum is_alpha is_digit in refl) refl in
    let skipped = advance-blank s (dump_operand b ++ text) e in
    let ended = advance-newline (record { token = last_token b; text = text }) rest refl in
    rw (skipped, read, ended) refl

parse_rest-present :
    (a b : Operand) (s : State) (rest : Bytes)
    → IsReadable b
    → s.text ≡ b',' ∷ (b' ' ∷ (dump_operand b ++ b'\n' ∷ rest))
    → parse_rest a (advance s) ≡ some (a, b, at_newline rest)
unfolding parse_rest
parse_rest-present a b s rest h e =
    let text = b' ' ∷ (dump_operand b ++ b'\n' ∷ rest) in
    rw (advance-tokenize s comma text (ap tokenize e ∙ comma_byte text))
      (parse_second-dump_operand a b (record { token = comma; text = text }) rest h refl)

parse_rest-dump_second :
    (a b : Operand) (s : State) (rest : Bytes)
    → IsReadableOrAbsent b
    → s.text ≡ dump_second b ++ b'\n' ∷ rest
    → parse_rest a (advance s) ≡ some (a, b, at_newline rest)
unfolding dump_second
parse_rest-dump_second a absent s rest h e = unfold parse_rest in rw (advance-newline s rest e) refl
parse_rest-dump_second a (imm n) s rest h e = parse_rest-present a (imm n) s rest h e
parse_rest-dump_second a (reg r) s rest h e = parse_rest-present a (reg r) s rest h e
parse_rest-dump_second a (label name) s rest h e = parse_rest-present a (label name) s rest h e
parse_rest-dump_second a (mem m) s rest h e = parse_rest-present a (mem m) s rest h e
parse_rest-dump_second a invalid s rest h e = absurd h

dump_second-Delimits : (b : Operand) (rest : Bytes) → Delimits (dump_second b ++ b'\n' ∷ rest)
unfolding dump_second is_alnum is_alpha is_digit
dump_second-Delimits absent rest = refl
dump_second-Delimits _ rest = refl

first_printed : (a : Operand) → IsReadable a → dump_first a ≡ dump_operand a
unfolding dump_first
first_printed absent h = absurd h
first_printed _ h = refl

pub parse_operands-dump :
    (a b : Operand) (s : State) (rest : Bytes)
    → IsReadable a
    → IsReadableOrAbsent b
    → s.text ≡ b' ' ∷ (dump_first a ++ (dump_second b ++ b'\n' ∷ rest))
    → parse_operands (advance s) ≡ some (a, b, at_newline rest)
unfolding parse_operands
parse_operands-dump a b s rest h k e =
    let behind = dump_second b ++ b'\n' ∷ rest in
    let text = dump_operand a ++ behind in
    let skipped = advance-blank s text (e ∙ ap (λ p. b' ' ∷ (p ++ behind)) (first_printed a h)) in
    let start : State = record { token = s.token; text = text } in
    let read = parse_operand-dump_operand a start behind h (dump_second-Delimits b rest) refl in
    let begins =
      operand_starts (advance start) (a, record { token = last_token a; text = behind }) read in
    rw (skipped, begins, read)
      (parse_rest-dump_second a b (record { token = last_token a; text = behind }) rest k refl)
