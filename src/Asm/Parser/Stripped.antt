-- ===== src/Asm/Parser/Stripped.antt =====
-- The parser on a text with comments, and on the text without them.
use rocketvm.Base.{
  ℕ, zero, suc, ◌^◌, ◌+◌, ◌-◌, ◌≤◌, Bool, true, false, not, ◌&&◌, ltb, if◌then◌else◌, [], ◌∷◌,
  length, Option, none, some, ◌≡◌, refl, sym, ap, ◌∙◌, arith,
}
use rocketvm.Isa.Opcode.{Opcode}
use rocketvm.Asm.Program.{Bytes, Operand, absent, Program, push_instr, push_label}
use rocketvm.Asm.Lexer.{Token, lbracket, newline, ident, number, opcode, invalid}
use rocketvm.Asm.Lexer.Comments.{strip}
use rocketvm.Asm.Lexer.Stripped.{tokenize-strip}
use rocketvm.Asm.Parser.{
  ◌>>=◌, State, advance, mem_operand, is_rbracket, close_mem, parse_mem, parse_operand_at,
  parse_operand, ends_line, is_comma, parse_second, parse_rest, parse_operands, accepts, is_ret,
  finish_instr, parse_opcode, is_colon, parse_label, parse_round, Parsed, done, is_eof, after_round,
  parse_loop, parse,
}
use rocketvm.Asm.Parser.Total.{parse-total}
use rocketvm.Asm.Parser.Fuel.{parse_loop-more}

-- The state without the comments that are still to be read.
abbrev bare : State → State
bare s = record s { text = strip false s.text }

abbrev bare_behind {ℓ} : {A : Type ℓ} → A × State → A × State
bare_behind (a, s) = (a, bare s)

abbrev bare_operands : Operand × Operand × State → Operand × Operand × State
bare_operands (a, b, s) = (a, b, bare s)

abbrev bare_round : State × Program → State × Program
bare_round (s, program) = (bare s, program)

-- `Alike h x y`: `x` is `y` with `h` done to its value.
abbrev Alike {ℓ} : {A : Type ℓ} → (A → A) → Option A → Option A → Type ℓ
Alike h x y = x ≡ (y >>= λ a. some (h a))

bind-Alike {ℓ κ} :
    {A : Type ℓ} {B : Type κ} (k : A → A) (h : B → B) (f g : A → Option B) (x y : Option A)
    → Alike k x y
    → ((a : A) → Alike h (f (k a)) (g a))
    → Alike h (x >>= f) (y >>= g)
bind-Alike k h f g x none e same = ap (λ o. o >>= f) e
bind-Alike k h f g x (some a) e same = ap (λ o. o >>= f) e ∙ same a

id-Alike {ℓ} : {A : Type ℓ} (x : Option A) → Alike (λ a. a) x x
id-Alike none = refl
id-Alike (some a) = refl

if-Alike {ℓ} :
    {A : Type ℓ} (h : A → A) (b : Bool) (x x' y y' : Option A)
    → Alike h x x'
    → Alike h y y'
    → Alike h (if b then x else y) (if b then x' else y')
if-Alike h true x x' y y' e e' = e
if-Alike h false x x' y y' e e' = e'

advance-bare : (s : State) → advance (bare s) ≡ bare (advance s)
unfolding advance
advance-bare s =
    let build : Token × Bytes → State = λ r. record { token = r.0; text = r.1 } in
    ap build (tokenize-strip s.text)

close_mem-bare :
    (operand : Operand) (s : State)
    → Alike bare_behind (close_mem operand (bare s)) (close_mem operand s)
unfolding close_mem
close_mem-bare operand s = if-Alike bare_behind (is_rbracket s.token) _ _ _ _ refl refl

parse_mem-bare : (s : State) → Alike bare_behind (parse_mem (bare s)) (parse_mem s)
unfolding parse_mem
parse_mem-bare s =
    ap (λ t. mem_operand t.token >>= λ operand. close_mem operand (advance t)) (advance-bare s)
    ∙ bind-Alike (λ a. a) bare_behind _ _ (mem_operand (advance s).token) _ (id-Alike _)
        λ operand.
          ap (close_mem operand) (advance-bare (advance s))
          ∙ close_mem-bare operand (advance (advance s))

parse_operand_at-bare :
    (t : Token) (s : State) → Alike bare_behind (parse_operand_at t (bare s)) (parse_operand_at t s)
unfolding parse_operand_at
parse_operand_at-bare lbracket s = parse_mem-bare s
parse_operand_at-bare (number n) s = refl
parse_operand_at-bare (Token.reg r) s = refl
parse_operand_at-bare (ident name) s = refl
parse_operand_at-bare _ s = refl

parse_second-bare :
    (first : Operand) (s : State)
    → Alike bare_operands (parse_second first (bare s)) (parse_second first s)
unfolding parse_second
parse_second-bare first s =
    ap (λ t. parse_operand t >>= λ (second, s'). some (first, second, advance s')) (advance-bare s)
    ∙ bind-Alike bare_behind bare_operands _ _ _ (parse_operand (advance s))
        (parse_operand_at-bare (advance s).token (advance s))
        λ (second, s'). ap (λ t. some (first, second, t)) (advance-bare s')

parse_rest-bare :
    (first : Operand) (s : State)
    → Alike bare_operands (parse_rest first (bare s)) (parse_rest first s)
unfolding parse_rest
parse_rest-bare first s =
    if-Alike bare_operands (is_comma s.token) _ _ _ _ (parse_second-bare first s) refl

parse_operands-bare : (s : State) → Alike bare_operands (parse_operands (bare s)) (parse_operands s)
unfolding parse_operands
parse_operands-bare s = if-Alike bare_operands (ends_line s.token) _ _ _ _ refl (
    bind-Alike bare_behind bare_operands _ _ _ (parse_operand s) (parse_operand_at-bare s.token s)
      λ (first, s'). ap (parse_rest first) (advance-bare s') ∙ parse_rest-bare first (advance s'))

finish_instr-bare :
    (room : ℕ → Bool) (op : Opcode) (program : Program) (a b : Operand) (s : State)
    → Alike bare_round
        (finish_instr room op program (a, b, bare s))
        (finish_instr room op program (a, b, s))
unfolding finish_instr
finish_instr-bare room op program a b s =
    if-Alike bare_round (ends_line s.token && accepts op a b) _ _ _ _
      (bind-Alike (λ p. p) bare_round _ _ _ (push_instr room program _) (id-Alike _)
        λ program'. refl)
      refl

parse_opcode-bare :
    (room : ℕ → Bool) (op : Opcode) (s : State) (program : Program)
    → Alike bare_round (parse_opcode room op (bare s) program) (parse_opcode room op s program)
unfolding parse_opcode
parse_opcode-bare room op s program =
    ap
      (λ t.
        (if is_ret op then some (absent, absent, t) else parse_operands t)
        >>= finish_instr room op program)
      (advance-bare s)
    ∙ bind-Alike bare_operands bare_round _ _ _
        (if is_ret op then some (absent, absent, advance s) else parse_operands (advance s))
        (if-Alike bare_operands (is_ret op) _ _ _ _ refl (parse_operands-bare (advance s)))
        λ (a, b, after). finish_instr-bare room op program a b after

parse_label-bare :
    (room : ℕ → Bool) (name : Bytes) (s : State) (program : Program)
    → Alike bare_round (parse_label room name (bare s) program) (parse_label room name s program)
unfolding parse_label
parse_label-bare room name s program =
    ap
      (λ t.
        if is_colon t.token && not (ltb (2 ^ 16 - 1) (length program.instrs))
        then (push_label room program (record { name = name; address = length program.instrs })
            >>= λ program'. some (advance t, program'))
        else none)
      (advance-bare s)
    ∙ if-Alike bare_round
        (is_colon (advance s).token && not (ltb (2 ^ 16 - 1) (length program.instrs))) _ _ _ _
        (bind-Alike (λ p. p) bare_round _ _ _ (push_label room program _) (id-Alike _)
          λ program'. ap (λ t. some (t, program')) (advance-bare (advance s)))
        refl

parse_round-bare :
    (room : ℕ → Bool) (t : Token) (s : State) (program : Program)
    → Alike bare_round (parse_round room t (bare s) program) (parse_round room t s program)
unfolding parse_round
parse_round-bare room (ident name) s program = parse_label-bare room name s program
parse_round-bare room (opcode op) s program = parse_opcode-bare room op s program
parse_round-bare room newline s program = ap (λ t. some (t, program)) (advance-bare s)
parse_round-bare room _ s program = refl

after_round-bare :
    (rest : State → Program → Parsed)
    → ((s : State) (program : Program) → rest (bare s) program ≡ rest s program)
    → (x y : Option (State × Program)) → Alike bare_round x y
    → after_round rest x ≡ after_round rest y
unfolding after_round
after_round-bare rest same x none e = ap (after_round rest) e
after_round-bare rest same x (some (s, program)) e = ap (after_round rest) e ∙ same s program

-- With the same fuel, the loop ends alike from both states.
parse_loop-bare :
    (room : ℕ → Bool) (fuel : ℕ) (s : State) (program : Program)
    → parse_loop room fuel (bare s) program ≡ parse_loop room fuel s program
unfolding parse_loop
parse_loop-bare room zero s program = refl
parse_loop-bare room (suc fuel) s program =
    ap (λ r. if is_eof s.token then done program else r)
      (after_round-bare (parse_loop room fuel) (parse_loop-bare room fuel) _ _
        (parse_round-bare room s.token s program))

strip-length : (m : Bool) (text : Bytes) → length (strip m text) ≤ length text
unfolding strip
strip-length m [] = omega arith
strip-length true (c ∷ cs) =
    let inside = strip-length true cs in let outside = strip-length false cs in ground arith
strip-length false (c ∷ cs) =
    let inside = strip-length true cs in let outside = strip-length false cs in ground arith

-- Comments do not change what a text is parsed to: whatever the text, the room in memory and the
-- program to extend, `rsm_parser_parse` ends in the same way, with the same program, on the text
-- and on the text without its comments (from each semicolon up to its line feed, which stays, or to
-- the end of the text).
pub parse-strip :
    (room : ℕ → Bool) (text : Bytes) (program : Program)
    → parse room (strip false text) program ≡ parse room text program
unfolding parse
parse-strip room text program =
    let start : State = record { token = invalid; text = text } in
    let short = length (strip false text) + 2 in
    let saved = length text - length (strip false text) in
    let shorter = strip-length false text in
    let sum : length text + 2 ≡ short + saved = omega arith in
    let ends = parse-total room (strip false text) program in
    sym (parse_loop-more room short saved (advance (bare start)) program ends)
    ∙ ap (λ fuel. parse_loop room fuel (advance (bare start)) program) (sym sum)
    ∙ ap (λ s. parse_loop room (length text + 2) s program) (advance-bare start)
    ∙ parse_loop-bare room (length text + 2) (advance start) program
