-- ===== src/Tests/Programs.antt =====
-- Programs from their text to a cycle of the machine.
use rocketvm.Base.{ℕ, ◌+◌, ◌⊎◌, if◌then◌else◌, none, ◌≡◌, refl, arith, [], ◌∷◌, some, true}
use rocketvm.Exec.{Exec, ok, Crash, ◌>>=◌}
use rocketvm.Isa.Opcode.{mov, ret}
use rocketvm.Isa.Encoder.{encode}
use rocketvm.Memory.Laws.{with_word, with_word-IsByteMemory}
use rocketvm.Cpu.State.{Vm, set_halt}
use rocketvm.Cpu.Cycle.{Status, success, advance, cycle}
use rocketvm.Cpu.Cycle.Invariant.{IsWellFormed}
use rocketvm.Vm.{create, load, load_image, read_file, returned, crashed, run}
use rocketvm.Vm.Load.{create-IsWellFormed}
use rocketvm.Asm.Program
use rocketvm.Asm.Program.{Bytes, same_name, absent, imm, reg, AsmInstr, Program, push_instr}
use rocketvm.Asm.Lexer.{
  to_lower, tokenize_opcode3, tokenize_opcode, word_token, take_while, drop_while, is_space,
  is_digit, is_alpha, is_alnum, skip_byte, skip, token_at, token_of, tokenize,
}
use rocketvm.Asm.Parser.{
  accepts, done, parse, parse_loop, after_round, parse_round, parse_opcode, finish_instr,
}
use rocketvm.Asm.Parser
use rocketvm.Asm.Encoder.{resolves, resolve_labels, encode_op, encode_mov, encode_instr}
use rocketvm.Asm.Emitter.{emit_word, emit_from, emit_binary}
use rocketvm.Asm.Main.{after_parse, assemble_text, assemble}
use rocketvm.Asm.Main.Execution.{run-Executes}
use rocketvm.Runner
use rocketvm.Runner.{exits, crashes}
use rocketvm.Runner.Assembled.{main-assemble}
use rocketvm.Base.Print.{bytes}
use rocketvm.Asm.Meaning.{means, return_from}
use rocketvm.Asm.Meaning.Execution.{IsAt, Executes, Strays, stops, steps}
use rocketvm.Asm.Meaning.Correct.{cycle-means}
use rocketvm.Asm.Dump.Reread.{instr_lines, parse-instr_lines}

abbrev returns : AsmInstr
returns = record { opcode = ret; opr1 = absent; opr2 = absent }

abbrev moves : AsmInstr
moves = record { opcode = mov; opr1 = reg 0; opr2 = imm 5 }

abbrev empty : Program
empty = Program.create

-- A new machine with the word of `MOV rv0, 5` at address 0.
abbrev moving : Vm
moving = record { cpu = create.cpu; mem = with_word create.mem 0 5 }

moving-IsWellFormed : IsWellFormed moving
moving-IsWellFormed = record {
  valid = create-IsWellFormed.valid;
  bytes = with_word-IsByteMemory create.mem 0 5 create-IsWellFormed.bytes;
}

encodes : encode_instr empty moves 0 ≡ ok (some 5)
unfolding encode_op encode_mov encode
encodes = refl

cycle-means_example :
    (m : Exec Vm) × (means empty mov (reg 0) (imm 5) (advance moving) ≡ some m)
    × (cycle moving ≡ (m >>= λ after. ok (after, success)))
cycle-means_example =
    cycle-means empty moves 0 5 moving moving-IsWellFormed refl refl (omega arith) refl encodes

-- The text `ret`, and its image.
abbrev returning_text : Bytes
returning_text = b'r' ∷ b'e' ∷ b't' ∷ []

abbrev returning_image : Bytes
returning_image = 0x00 ∷ 0xF0 ∷ []

abbrev returning_program : Program
returning_program = record Program.create { instrs = returns ∷ [] }

text_read : read_file (some returning_text) ≡ some returning_text
unfolding read_file
text_read = refl

text_parsed : parse (λ n. true) returning_text Program.create ≡ done returning_program
unfolding parse parse_loop after_round parse_round parse_opcode finish_instr accepts push_instr
    Parser.advance tokenize token_of token_at skip skip_byte is_space is_alpha is_digit is_alnum
    take_while drop_while word_token tokenize_opcode tokenize_opcode3 to_lower
text_parsed = refl

text_assembled : assemble (λ n. true) true (some returning_text) ≡ ok (returning_image, success)
unfolding assemble assemble_text after_parse emit_binary emit_from emit_word encode_op
    resolve_labels resolves read_file
text_assembled = rw text_parsed refl

-- The machine that has loaded the image.
abbrev returning : Vm
returning = record { cpu = create.cpu; mem = (load create (some returning_image)).0.mem }

-- The machine on which it has returned.
abbrev has_returned : Vm
has_returned = record returning { cpu = set_halt (advance returning).cpu }

returning_executes :
    Executes returning_program
      (load create (some returning_image)).0.mem
      (load create (some returning_image)).0
      (returned has_returned success)
unfolding load load_image read_file means return_from
returning_executes =
    let at : IsAt returning_program (load create (some returning_image)).0.mem
        (load create (some returning_image)).0 0 returns =
      record { running = refl; rip = refl; inside = omega arith; listed = refl; kept = refl } in
    steps at refl (stops refl)

run-Executes_example :
    let vm = (load create (some returning_image)).0 in
    let o = returned has_returned success in
    (Executes returning_program vm.mem vm o
      → (fuel : ℕ) × ((extra : ℕ) → run (fuel + extra) vm ≡ o))
    × ((fuel : ℕ) × (run fuel vm ≡ o)
        → Executes returning_program vm.mem vm o ⊎ Strays returning_program vm.mem vm)
    × (Executes returning_program vm.mem vm o → Strays returning_program vm.mem vm → ⊥)
run-Executes_example =
    run-Executes (λ n. true) (some returning_text) returning_text returning_image returning_program
      (returned has_returned success) text_read text_parsed text_assembled (omega arith)
      (ground arith)

returning_runs :
    (fuel : ℕ) × ((extra : ℕ)
      → run (fuel + extra) (load create (some returning_image)).0 ≡ returned has_returned success)
returning_runs =
    (run-Executes (λ n. true) (some returning_text) returning_text returning_image returning_program
        (returned has_returned success) text_read text_parsed text_assembled (omega arith)
        (ground arith)).0
      returning_executes

-- A system with the image under the name `a.rvm`.
abbrev host : Runner.Host
host = record {
  readable = λ path. true;
  allocates = true;
  file = λ path. if same_name path (bytes "a.rvm") then some returning_image else none;
}

main-assemble_example :
    let vm = (load create (some returning_image)).0 in
    let run_main =
      λ (fuel : ℕ). Runner.main fuel host (bytes "rocketrun" ∷ bytes "a.rvm" ∷ bytes "b" ∷ []) in
    ((after : Vm) (status : Status)
      → Executes returning_program vm.mem vm (returned after status)
      → (fuel : ℕ) × ((extra : ℕ) → run_main (fuel + extra) ≡ exits status))
    × ((c : Crash)
        → Executes returning_program vm.mem vm (crashed c)
        → (fuel : ℕ) × ((extra : ℕ) → run_main (fuel + extra) ≡ crashes c))
    × ((fuel : ℕ)
        → run_main fuel ≡ exits success
        → ((after : Vm) × Executes returning_program vm.mem vm (returned after success))
          ⊎ Strays returning_program vm.mem vm)
unfolding same_name
main-assemble_example =
    main-assemble (λ n. true) (some returning_text) returning_text returning_image returning_program
      host (bytes "rocketrun") (bytes "a.rvm") (bytes "b" ∷ []) text_read text_parsed text_assembled
      (omega arith) (omega arith) refl refl refl

parse-instr_lines_example :
    (program : Program) × (parse (λ n. true) (instr_lines (moves ∷ returns ∷ [])) Program.create
      ≡ done program)
    × (program.instrs ≡ moves ∷ returns ∷ [])
    × (program.labels ≡ [])
parse-instr_lines_example = parse-instr_lines (moves ∷ returns ∷ []) (
  (unfold accepts in refl, (omega arith, omega arith)),
  ((unfold accepts in refl, (refl, refl)), tt),
)
