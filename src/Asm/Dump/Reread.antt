-- ===== src/Asm/Dump/Reread.antt =====
-- Printed instructions and programs, parsed again.
use mathlib.Core.List.{append_assoc, append-nil}
use rocketvm.Base.{
  ℕ, zero, suc, ◌+◌, ◌*◌, ◌≤◌, ◌<◌, Bool, true, false, leb, if◌then◌else◌, List, [], ◌∷◌, ◌++◌,
  length, length-append, some, ◌≡◌, refl, sym, ap, ◌∙◌, arith, Bool-cases, inl, inr,
}
use rocketvm.Isa.Names.{opcode_to_string}
use rocketvm.Asm.Program.{Bytes, Operand, absent, AsmInstr, Program, create, push_instr}
use rocketvm.Asm.Lexer.{Token, opcode, eof, skip, is_alnum, is_alpha, is_digit, token_of, tokenize}
use rocketvm.Asm.Parser.{
  ◌>>=◌, State, advance, accepts, is_ret, finish_instr, parse_operands, parse_opcode, parse_round,
  done, after_round, is_eof, parse_loop, parse,
}
use rocketvm.Asm.Dump.{dump_first, dump_second, dump_instr}
use rocketvm.Asm.Dump.Operands.{IsReadable, advance-tokenize, tokenize-opcode_to_string}
use rocketvm.Asm.Dump.Lines.{
  at_newline, IsReadableOrAbsent, advance-newline, advance-blank, parse_operands-dump,
}

-- RET has no operands; any other opcode has a first operand that its print determines, and a second
-- one or none.
abbrev pub HasReadable : Bool → Operand → Operand → Type 0
HasReadable true a b = (a ≡ absent) × (b ≡ absent)
HasReadable false a b = IsReadable a × IsReadableOrAbsent b

-- Operands of the types that the parser accepts for the opcode, each determined by its print.
abbrev pub IsReadableInstr : AsmInstr → Type 0
IsReadableInstr i =
    (accepts i.opcode i.opr1 i.opr2 ≡ true) × HasReadable (is_ret i.opcode) i.opr1 i.opr2

operands-dump :
    (r : Bool) (a b : Operand) (s : State) (rest : Bytes)
    → HasReadable r a b
    → s.text ≡ b' ' ∷ (dump_first a ++ (dump_second b ++ b'\n' ∷ rest))
    → (if r then some (absent, absent, advance s) else parse_operands (advance s))
      ≡ some (a, b, at_newline rest)
operands-dump false a b s rest (h, k) e = parse_operands-dump a b s rest h k e
operands-dump true a b s rest (no_first, no_second) e =
    let bare : b' ' ∷ (dump_first a ++ (dump_second b ++ b'\n' ∷ rest)) ≡ b' ' ∷ b'\n' ∷ rest =
      rw (no_first, no_second) (unfold dump_first dump_second in refl) in
    let skipped = advance-blank s (b'\n' ∷ rest) (e ∙ bare) in
    let ended = advance-newline (record { token = s.token; text = b'\n' ∷ rest }) rest refl in
    rw (no_first, no_second, skipped, ended) refl

-- The rest of the line behind the opcode.
parse_opcode-dump :
    (room : ℕ → Bool) (instr : AsmInstr) (s : State) (rest : Bytes) (program : Program)
    → IsReadableInstr instr
    → s.text ≡ b' ' ∷ (dump_first instr.opr1 ++ (dump_second instr.opr2 ++ b'\n' ∷ rest))
    → parse_opcode room instr.opcode s program
      ≡ (push_instr room program instr >>= λ program'. some (at_newline rest, program'))
unfolding parse_opcode
parse_opcode-dump room instr s rest program (fits, readable) e =
    ap (λ o. o >>= finish_instr room instr.opcode program)
      (operands-dump (is_ret instr.opcode) instr.opr1 instr.opr2 s rest readable e)
    ∙ unfold finish_instr in rw fits refl

-- A whole line.
pub parse_round-dump_instr :
    (room : ℕ → Bool) (instr : AsmInstr) (s : State) (rest : Bytes) (program : Program)
    → IsReadableInstr instr
    → s.text ≡ dump_instr instr ++ rest
    → parse_round room (advance s).token (advance s) program
      ≡ (push_instr room program instr >>= λ program'. some (at_newline rest, program'))
unfolding dump_instr parse_round
parse_round-dump_instr room instr s rest program readable e =
    let tail = b' ' ∷ (dump_first instr.opr1 ++ (dump_second instr.opr2 ++ b'\n' ∷ rest)) in
    let text : s.text ≡ opcode_to_string instr.opcode ++ tail = e ∙ simp append_assoc refl in
    let first = advance-tokenize s (opcode instr.opcode) tail (
      ap tokenize text
      ∙ tokenize-opcode_to_string instr.opcode tail (unfold is_alnum is_alpha is_digit in refl)) in
    rw first (
      parse_opcode-dump room instr (record { token = opcode instr.opcode; text = tail }) rest
        program readable refl)

-- The lines of instructions, without their numbers.
unfoldable pub instr_lines : List AsmInstr → Bytes
instr_lines [] = []
instr_lines (i ∷ is) = dump_instr i ++ instr_lines is

abbrev pub AllReadable : List AsmInstr → Type 0
AllReadable [] = Unit {0}
AllReadable (i ∷ is) = IsReadableInstr i × AllReadable is

-- Where the memory does not run out, an instruction is pushed.
push_instr_lem :
    (program : Program) (instr : AsmInstr)
    → (program' : Program) × (push_instr (λ n. true) program instr ≡ some program')
      × (program'.instrs ≡ program.instrs ++ instr ∷ [])
      × (program'.labels ≡ program.labels)
unfolding push_instr
push_instr_lem program instr =
    let grown = record program { instrs = program.instrs ++ instr ∷ [] } in
    elim (Bool-cases (leb program.instr_capacity (length program.instrs))) [
      | inl full ↦
          (record grown { instr_capacity = program.instr_capacity * 2 }, rw full refl, refl, refl)
      | inr free ↦ (grown, rw free refl, refl, refl)
    ]

round_starts :
    (room : ℕ → Bool) (t : Token) (s : State) (program : Program) (r : State × Program)
    → parse_round room t s program ≡ some r
    → is_eof t ≡ false
unfolding parse_round
round_starts room eof s program r h = absurd (ground arith)
round_starts room _ s program r h = refl

-- A round that succeeds is one step of the loop.
pub loop_step :
    (room : ℕ → Bool) (fuel : ℕ) (s s' : State) (program program' : Program)
    → parse_round room s.token s program ≡ some (s', program')
    → parse_loop room (suc fuel) s program ≡ parse_loop room fuel s' program'
unfolding parse_loop after_round
loop_step room fuel s s' program program' h =
    rw (round_starts room s.token s program (s', program') h, h) refl

parse_loop-instr_lines :
    (is : List AsmInstr) (fuel : ℕ) (s : State) (program : Program)
    → AllReadable is
    → s.text ≡ instr_lines is
    → 2 * length is < fuel
    → (program' : Program) × (parse_loop (λ n. true) fuel (advance s) program ≡ done program')
      × (program'.instrs ≡ program.instrs ++ is)
      × (program'.labels ≡ program.labels)
unfolding instr_lines
parse_loop-instr_lines is zero s program h e enough = absurd (omega arith)
parse_loop-instr_lines [] (suc fuel) s program h e enough =
    let ends = advance-tokenize s eof [] (ap tokenize e ∙ no_text) in
    (program, rw ends (unfold parse_loop in refl), sym (append-nil program.instrs), refl)
  where
    no_text : tokenize [] ≡ (eof, [])
    no_text = unfold tokenize token_of skip in refl
parse_loop-instr_lines (i ∷ is) (suc zero) s program h e enough = absurd (omega arith)
parse_loop-instr_lines (i ∷ is) (suc (suc fuel)) s program h e enough =
    let rest = instr_lines is in
    let (pushed, room, instrs, labels) = push_instr_lem program i in
    let round = parse_round-dump_instr (λ n. true) i s rest program h.0 e in
    let (program', ends, all, kept) =
      parse_loop-instr_lines is fuel (at_newline rest) pushed h.1 refl (omega arith) in
    let round_again = round ∙ ap (λ o. o >>= λ p. some (at_newline rest, p)) room in
    let line =
      loop_step (λ n. true) (suc fuel) (advance s) (at_newline rest) program pushed round_again in
    let blank =
      loop_step (λ n. true) fuel (at_newline rest) (advance (at_newline rest)) pushed pushed
        (unfold parse_round in refl) in
    (
      program',
      line ∙ blank ∙ ends,
      all ∙ ap (λ l. l ++ is) instrs ∙ append_assoc program.instrs (i ∷ []) is,
      kept ∙ labels,
    )

length-dump_instr : (i : AsmInstr) → 2 ≤ length (dump_instr i)
unfolding dump_instr
length-dump_instr i =
    let a =
      length-append (opcode_to_string i.opcode)
        (b' ' ∷ (dump_first i.opr1 ++ (dump_second i.opr2 ++ b'\n' ∷ []))) in
    let b = length-append (dump_first i.opr1) (dump_second i.opr2 ++ b'\n' ∷ []) in
    let c = length-append (dump_second i.opr2) (b'\n' ∷ []) in omega arith

length-instr_lines : (is : List AsmInstr) → 2 * length is ≤ length (instr_lines is)
unfolding instr_lines
length-instr_lines [] = omega arith
length-instr_lines (i ∷ is) =
    let a = length-append (dump_instr i) (instr_lines is) in
    let b = length-dump_instr i in let ih = length-instr_lines is in omega arith

-- Where memory does not run out: the lines that `rsm_program_dump_instrs` prints for instructions,
-- without their numbers, are parsed to a program of the same instructions with no labels. It holds
-- where each instruction has operands of the types that the parser accepts, with numbers below 2 ^
-- 31, registers below 8, and names that the lexer takes for identifiers.
pub parse-instr_lines :
    (is : List AsmInstr)
    → AllReadable is
    → (program : Program) × (parse (λ n. true) (instr_lines is) create ≡ done program)
      × (program.instrs ≡ is)
      × (program.labels ≡ [])
unfolding parse
parse-instr_lines is h =
    let long = length-instr_lines is in
    parse_loop-instr_lines is (length (instr_lines is) + 2)
      (record { token = Token.invalid; text = instr_lines is }) create h refl (omega arith)
