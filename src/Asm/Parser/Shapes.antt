-- ===== src/Asm/Parser/Shapes.antt =====
-- The invariant of the programs that the parser builds.
use rocketvm.Base.{
  ℕ, zero, suc, ◌+◌, ◌*◌, ◌-◌, ◌^◌, ◌≤◌, ◌<◌, Bool, true, false, not, ◌&&◌, ltb, leb, if◌then◌else◌,
  List, [], ◌∷◌, ◌++◌, length, length-append, Option, none, some, ◌≡◌, arith, Bool-cases, inl, inr,
  subst,
}
use rocketvm.Isa.Opcode.{Opcode}
use rocketvm.Asm.Program.{Bytes, absent, AsmInstr, Label, Program, create, push_instr, push_label}
use rocketvm.Asm.Lexer.{Token, newline, ident, opcode}
use rocketvm.Asm.Parser.Partial.{AllSome, AllSome->>=, AllSome-bind, AllSome-if, AllSome-guard}
use rocketvm.Asm.Parser.{
  State, advance, ends_line, parse_operands, accepts, is_ret, finish_instr, parse_opcode, is_colon,
  parse_label, parse_round, Parsed, done, failed, out_of_fuel, is_eof, after_round, parse_loop,
  parse,
}

-- Every instruction has operands that fit its opcode.
abbrev pub AllAccepted : List AsmInstr → Type 0
AllAccepted [] = Unit
AllAccepted (i ∷ is) = (accepts i.opcode i.opr1 i.opr2 ≡ true) × AllAccepted is

-- Every label stands at most behind the last of `n` instructions, at a 16-bit number.
abbrev pub AllPlaced : ℕ → List Label → Type 0
AllPlaced n [] = Unit
AllPlaced n (l ∷ ls) = (l.address ≤ n) × (l.address < 2 ^ 16) × AllPlaced n ls

-- A program as the parser leaves it: instructions with operands that fit, labels inside the program,
-- and counts within the capacities of the arrays.
pub record IsParsed (program : Program) : Type 0 where
  pub accepted : AllAccepted program.instrs
  pub placed : AllPlaced (length program.instrs) program.labels
  pub instr_room : length program.instrs ≤ program.instr_capacity
  pub label_room : length program.labels ≤ program.label_capacity
  pub instr_positive : 0 < program.instr_capacity
  pub label_positive : 0 < program.label_capacity

AllAccepted-append :
    (is : List AsmInstr) (i : AsmInstr)
    → AllAccepted is
    → accepts i.opcode i.opr1 i.opr2 ≡ true
    → AllAccepted (is ++ i ∷ [])
AllAccepted-append [] i h k = (k, tt)
AllAccepted-append (j ∷ is) i h k = (h.0, AllAccepted-append is i h.1 k)

AllPlaced-suc : (n : ℕ) (ls : List Label) → AllPlaced n ls → AllPlaced (n + 1) ls
AllPlaced-suc n [] h = tt
AllPlaced-suc n (l ∷ ls) h = (omega arith, omega arith, AllPlaced-suc n ls h.2)

AllPlaced-append :
    (n : ℕ) (ls : List Label) (l : Label)
    → AllPlaced n ls
    → l.address ≤ n
    → l.address < 2 ^ 16
    → AllPlaced n (ls ++ l ∷ [])
AllPlaced-append n [] l h inside small = (inside, small, tt)
AllPlaced-append n (m ∷ ls) l h inside small = (h.0, h.1, AllPlaced-append n ls l h.2 inside small)

pushed_instr :
    (program : Program) (instr : AsmInstr) (cap : ℕ)
    → IsParsed program
    → accepts instr.opcode instr.opr1 instr.opr2 ≡ true
    → length program.instrs < cap
    → IsParsed (record program { instrs = program.instrs ++ instr ∷ []; instr_capacity = cap })
pushed_instr program instr cap f fits space =
    let count = length-append program.instrs (instr ∷ []) in
    record {
      accepted = AllAccepted-append program.instrs instr f.accepted fits;
      placed = rw count (AllPlaced-suc (length program.instrs) program.labels f.placed);
      instr_room = omega arith;
      label_room = f.label_room;
      instr_positive = omega arith;
      label_positive = f.label_positive;
    }

push_instr-IsParsed :
    (room : ℕ → Bool) (program : Program) (instr : AsmInstr)
    → IsParsed program
    → accepts instr.opcode instr.opr1 instr.opr2 ≡ true
    → AllSome IsParsed (push_instr room program instr)
unfolding push_instr
push_instr-IsParsed room program instr f fits =
    let cap = program.instr_capacity in
    let some_room = f.instr_positive in
    let full_room = f.instr_room in
    elim (Bool-cases (leb cap (length program.instrs))) [
      | inl full ↦ rw full (
          AllSome-if IsParsed (room (cap * 2)) _ _
            (pushed_instr program instr (cap * 2) f fits (omega arith)) tt)
      | inr space ↦ rw space (pushed_instr program instr cap f fits (ground arith))
    ]

pushed_label :
    (program : Program) (l : Label) (cap : ℕ)
    → IsParsed program
    → l.address ≤ length program.instrs
    → l.address < 2 ^ 16
    → length program.labels < cap
    → IsParsed (record program { labels = program.labels ++ l ∷ []; label_capacity = cap })
pushed_label program l cap f inside small space =
    let count = length-append program.labels (l ∷ []) in
    record {
      accepted = f.accepted;
      placed = AllPlaced-append (length program.instrs) program.labels l f.placed inside small;
      instr_room = f.instr_room;
      label_room = omega arith;
      instr_positive = f.instr_positive;
      label_positive = omega arith;
    }

push_label-IsParsed :
    (room : ℕ → Bool) (program : Program) (l : Label)
    → IsParsed program
    → l.address ≤ length program.instrs
    → l.address < 2 ^ 16
    → AllSome IsParsed (push_label room program l)
unfolding push_label
push_label-IsParsed room program l f inside small =
    let cap = program.label_capacity in
    let some_room = f.label_positive in
    let full_room = f.label_room in
    elim (Bool-cases (leb cap (length program.labels))) [
      | inl full ↦ rw full (
          AllSome-if IsParsed (room (cap * 2)) _ _
            (pushed_label program l (cap * 2) f inside small (omega arith)) tt)
      | inr space ↦ rw space (pushed_label program l cap f inside small (ground arith))
    ]

-- The program of a round.
abbrev Good : State × Program → Type 0
Good r = IsParsed (r.1)

both-right : (a b : Bool) → a && b ≡ true → b ≡ true
both-right true b h = h
both-right false b h = ground arith

parse_opcode-Good :
    (room : ℕ → Bool) (op : Opcode) (s : State) (program : Program)
    → IsParsed program
    → AllSome Good (parse_opcode room op s program)
unfolding parse_opcode finish_instr
parse_opcode-Good room op s program f =
    AllSome-bind Good
      (if is_ret op then some (absent, absent, advance s) else parse_operands (advance s)) _
      λ (a, b, after). AllSome-guard Good (ends_line after.token && accepts op a b) _ λ fits.
        AllSome->>= IsParsed Good
          (push_instr room program (record { opcode = op; opr1 = a; opr2 = b })) _
          (push_instr-IsParsed room program (record { opcode = op; opr1 = a; opr2 = b }) f
            (both-right (ends_line after.token) (accepts op a b) fits))
          λ program' good. good

parse_label-Good :
    (room : ℕ → Bool) (name : Bytes) (s : State) (program : Program)
    → IsParsed program
    → AllSome Good (parse_label room name s program)
unfolding parse_label
parse_label-Good room name s program f =
    let n = length program.instrs in
    let l : Label = record { name = name; address = n } in
    AllSome-guard Good (is_colon (advance s).token && not (ltb (2 ^ 16 - 1) n)) _ λ fits.
      let small = both-right (is_colon (advance s).token) (not (ltb (2 ^ 16 - 1) n)) fits in
      AllSome->>= IsParsed Good (push_label room program l) _
        (push_label-IsParsed room program l f (omega arith) (ground arith)) λ program' good. good

parse_round-Good :
    (room : ℕ → Bool) (t : Token) (s : State) (program : Program)
    → IsParsed program
    → AllSome Good (parse_round room t s program)
unfolding parse_round
parse_round-Good room (ident name) s program f = parse_label-Good room name s program f
parse_round-Good room (opcode op) s program f = parse_opcode-Good room op s program f
parse_round-Good room newline s program f = f
parse_round-Good room _ s program f = tt

-- A parse that ends with a program ends with one that is well-formed.
abbrev EndsGood : Parsed → Type 0
EndsGood (done p) = IsParsed p
EndsGood failed = Unit
EndsGood out_of_fuel = Unit

after_round-EndsGood :
    (rest : State → Program → Parsed) (r : Option (State × Program))
    → AllSome Good r
    → ((s : State) (p : Program) → IsParsed p → EndsGood (rest s p))
    → EndsGood (after_round rest r)
unfolding after_round
after_round-EndsGood rest none h go = tt
after_round-EndsGood rest (some (s, p)) h go = go s p h

parse_loop-EndsGood :
    (room : ℕ → Bool) (fuel : ℕ) (s : State) (program : Program)
    → IsParsed program
    → EndsGood (parse_loop room fuel s program)
unfolding parse_loop
parse_loop-EndsGood room zero s program f = tt
parse_loop-EndsGood room (suc fuel) s program f = elim (Bool-cases (is_eof s.token)) [
  | inl last ↦ rw last f
  | inr more ↦ rw more (
      after_round-EndsGood (parse_loop room fuel) (parse_round room s.token s program)
        (parse_round-Good room s.token s program f) λ s' p g. parse_loop-EndsGood room fuel s' p g)
]

-- A program that `rsm_parser_parse` returns, begun with the new program, is well-formed: each
-- instruction has operands that fit its opcode, each label stands at a 16-bit number of at most the
-- number of instructions, and the counts are within the capacities.
pub parse-IsParsed :
    (room : ℕ → Bool) (text : Bytes) (program : Program)
    → parse room text create ≡ done program
    → IsParsed program
unfolding parse
parse-IsParsed room text program e = subst EndsGood e (
    parse_loop-EndsGood room (length text + 2)
      (advance (record { token = Token.invalid; text = text })) create new)
  where
    new : IsParsed create
    new = record {
      accepted = tt;
      placed = tt;
      instr_room = omega arith;
      label_room = omega arith;
      instr_positive = omega arith;
      label_positive = omega arith;
    }
