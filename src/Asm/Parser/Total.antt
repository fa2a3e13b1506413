-- ===== src/Asm/Parser/Total.antt =====
-- The rounds of the parser's loop, and the work that each leaves.
use rocketvm.Base.{
  ℕ, zero, suc, ◌+◌, ◌^◌, ◌-◌, ◌≤◌, ◌<◌, Bool, not, ◌&&◌, ltb, if◌then◌else◌, [], length, Option,
  none, some, ◌≡◌, ◌≢◌, refl, sym, arith, Bool-cases, inl, inr, subst, ◌⊎◌,
}
use rocketvm.Isa.Opcode.{Opcode}
use rocketvm.Asm.Program.{Bytes, Operand, absent, Program, push_instr, push_label}
use rocketvm.Asm.Lexer.{Token, lbracket, newline, eof, ident, number, opcode, tokenize}
use rocketvm.Asm.Lexer.Progress.{tokenize-length}
use rocketvm.Asm.Parser.Partial.{AllSome, AllSome->>=, AllSome-bind, AllSome-if}
use rocketvm.Asm.Parser.{
  State, advance, is_rbracket, close_mem, mem_operand, parse_mem, parse_operand_at, parse_operand,
  ends_line, is_comma, parse_second, parse_rest, parse_operands, accepts, is_ret, finish_instr,
  parse_opcode, is_colon, parse_label, parse_round, Parsed, done, failed, out_of_fuel, is_eof,
  after_round, parse_loop, parse,
}

-- The work that a state has left.
abbrev work : State → ℕ
work s = if is_eof s.token then 0 else suc (length s.text)

-- A state that the parser reaches from `s` by taking at least one token.
abbrev Behind : State → State → Type 0
Behind s s' = (work s' ≤ length s.text) × (length s'.text ≤ length s.text)

shorter :
    (r : Token × Bytes) (text : Bytes)
    → (r ≡ (eof, [])) ⊎ (length (r.1) < length text)
    → Behind (record { token = Token.invalid; text = text }) (record { token = r.0; text = r.1 })
shorter r text (inl e) =
    subst
      (λ (r : Token × Bytes).
        Behind (record { token = Token.invalid; text = text }) (record { token = r.0; text = r.1 }))
      (sym e) (omega arith)
shorter (token, after) text (inr h) = elim (Bool-cases (is_eof token)) [
  | inl last ↦ rw last (omega arith)
  | inr more ↦ rw more (omega arith)
]

advance-Behind : (s : State) → Behind s (advance s)
unfolding advance
advance-Behind s = shorter (tokenize s.text) s.text (tokenize-length s.text)

advance-from : (z s : State) → length s.text ≤ length z.text → Behind z (advance s)
advance-from z s h = let a = advance-Behind s in omega arith

-- An operand is read within the text.
abbrev Within : State → Operand × State → Type 0
Within s r = length (r.1).text ≤ length s.text

parse_mem-Within : (s : State) → AllSome (Within s) (parse_mem s)
unfolding parse_mem close_mem
parse_mem-Within s =
    let two = advance-from s (advance s) ((advance-Behind s).1) in
    AllSome-bind (Within s) (mem_operand (advance s).token) _
      λ operand. AllSome-if (Within s) (is_rbracket (advance (advance s)).token) _ _ (two.1) tt

parse_operand_at-Within : (t : Token) (s : State) → AllSome (Within s) (parse_operand_at t s)
unfolding parse_operand_at
parse_operand_at-Within lbracket s = parse_mem-Within s
parse_operand_at-Within (number n) s = omega arith
parse_operand_at-Within (Token.reg r) s = omega arith
parse_operand_at-Within (ident name) s = omega arith
parse_operand_at-Within _ s = tt

-- The operands of an instruction end behind a state.
abbrev Ends : State → Operand × Operand × State → Type 0
Ends z r = Behind z (r.2)

parse_second-Ends :
    (z : State) (first : Operand) (s : State)
    → length s.text ≤ length z.text
    → AllSome (Ends z) (parse_second first s)
unfolding parse_second
parse_second-Ends z first s h =
    let near = advance-from z s h in
    AllSome->>= (Within (advance s)) (Ends z) (parse_operand (advance s)) _
      (parse_operand_at-Within (advance s).token (advance s))
      λ r inside. advance-from z (r.1) (omega arith)

parse_operands-Ends : (z s : State) → Behind z s → AllSome (Ends z) (parse_operands s)
unfolding parse_operands parse_rest
parse_operands-Ends z s behind = AllSome-if (Ends z) (ends_line s.token) _ _ behind (
    AllSome->>= (Within s) (Ends z) (parse_operand s) _ (parse_operand_at-Within s.token s)
      λ r inside.
        let next = advance-from z (r.1) (omega arith) in
        AllSome-if (Ends z) (is_comma (advance (r.1)).token) _ _
          (parse_second-Ends z (r.0) (advance (r.1)) (next.1)) next)

-- A round of the loop ends behind the state it began with.
abbrev Round : State → State × Program → Type 0
Round s r = Behind s (r.0)

parse_opcode-Round :
    (room : ℕ → Bool) (op : Opcode) (s : State) (program : Program)
    → AllSome (Round s) (parse_opcode room op s program)
unfolding parse_opcode finish_instr
parse_opcode-Round room op s program =
    AllSome->>= (Ends s) (Round s)
      (if is_ret op then some (absent, absent, advance s) else parse_operands (advance s)) _
      (AllSome-if (Ends s) (is_ret op) _ _ (advance-Behind s)
        (parse_operands-Ends s (advance s) (advance-Behind s)))
      λ (a, b, after) behind.
        AllSome-if (Round s) (ends_line after.token && accepts op a b) _ _
          (AllSome-bind (Round s) (push_instr room program _) _ λ program'. behind) tt

parse_label-Round :
    (room : ℕ → Bool) (name : Bytes) (s : State) (program : Program)
    → AllSome (Round s) (parse_label room name s program)
unfolding parse_label
parse_label-Round room name s program =
    AllSome-if (Round s)
      (is_colon (advance s).token && not (ltb (2 ^ 16 - 1) (length program.instrs))) _ _
      (AllSome-bind (Round s) (push_label room program _) _
        λ program'. advance-from s (advance s) ((advance-Behind s).1))
      tt

parse_round-Round :
    (room : ℕ → Bool) (t : Token) (s : State) (program : Program)
    → AllSome (Round s) (parse_round room t s program)
unfolding parse_round
parse_round-Round room (ident name) s program = parse_label-Round room name s program
parse_round-Round room (opcode op) s program = parse_opcode-Round room op s program
parse_round-Round room newline s program = advance-Behind s
parse_round-Round room _ s program = tt

done≢out_of_fuel : (p : Program) → done p ≢ out_of_fuel
done≢out_of_fuel p = ground arith

failed≢out_of_fuel : failed ≢ out_of_fuel
failed≢out_of_fuel = ground arith

after_round-total :
    (rest : State → Program → Parsed) (s : State) (r : Option (State × Program))
    → AllSome (Round s) r
    → ((s' : State) (p : Program) → Behind s s' → rest s' p ≢ out_of_fuel)
    → after_round rest r ≢ out_of_fuel
unfolding after_round
after_round-total rest s none all go = failed≢out_of_fuel
after_round-total rest s (some (s', p)) all go = go s' p all

-- The loop ends within fuel for the work that is left.
parse_loop-total :
    (room : ℕ → Bool) (fuel : ℕ) (s : State) (program : Program)
    → work s < fuel
    → parse_loop room fuel s program ≢ out_of_fuel
unfolding parse_loop
parse_loop-total room zero s program h = λ _. omega arith
parse_loop-total room (suc fuel) s program h = elim (Bool-cases (is_eof s.token)) [
  | inl last ↦ rw last (done≢out_of_fuel program)
  | inr more ↦ rw more (
      after_round-total (parse_loop room fuel) s (parse_round room s.token s program)
        (parse_round-Round room s.token s program)
        λ s' p behind.
          let left : work s ≡ suc (length s.text) = rw more refl in
          parse_loop-total room fuel s' p (omega arith))
]

-- Whatever the text, the program to extend and the room in memory, `rsm_parser_parse` ends, with a
-- program or with -1, within the fuel that `parse` gives its loop: the length of the text and two.
pub parse-total :
    (room : ℕ → Bool) (text : Bytes) (program : Program) → parse room text program ≢ out_of_fuel
unfolding parse
parse-total room text program =
    let start = advance-Behind (record { token = Token.invalid; text = text }) in
    parse_loop-total room (length text + 2)
      (advance (record { token = Token.invalid; text = text })) program (omega arith)
