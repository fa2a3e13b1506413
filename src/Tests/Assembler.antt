-- ===== src/Tests/Assembler.antt =====
-- The assembler at a concrete program.
use rocketvm.Base.{
  List, ℕ, ◌≡◌, ◌≢◌, ◌↔◌, ◌⊎◌, refl, ◌<◌, arith, true, false, [], ◌∷◌, length, map, some, none,
}
use rocketvm.Exec.{ok}
use rocketvm.Isa.Opcode.{jmp, mov, ret}
use rocketvm.Isa.Decode.{decode}
use rocketvm.Memory.Laws.{word_at}
use rocketvm.Cpu.State.{Cpu, set_rip}
use rocketvm.Cpu.Cycle.{success}
use rocketvm.Cpu.Ctrlf.{jump_target}
use rocketvm.Vm.{create, load, read_file}
use rocketvm.Asm.Main.{after_parse, assemble_text, assemble}
use rocketvm.Asm.Main.Sound.{assemble-written}
use rocketvm.Asm.Program.{
  Bytes, Operand, absent, imm, reg, label, AsmInstr, Label, Program, same_name, find_label,
  find_label_address, push_instr, push_label,
}
use rocketvm.Asm.Program
use rocketvm.Asm.Program.Laws.{First, find_label_iff}
use rocketvm.Isa.Encoder.{encode}
use rocketvm.Asm.Encoder.{resolves, resolve_labels, encode_op, encode_mov, encode_instr}
use rocketvm.Asm.Encoder.Jumps.{is_jmp, jump_target-encode_instr}
use rocketvm.Asm.Encoder.Accepted.{Encodes, encode_instr-accepted}
use rocketvm.Asm.Emitter.{emit_word, emit_from, emit_binary}
use rocketvm.Asm.Emitter.Image.{image_of, Words, no_words, word, load-emit_binary}
use rocketvm.Asm.Lexer.{
  eof, to_lower, tokenize_opcode3, tokenize_opcode, word_token, take_while, drop_while, is_space,
  is_digit, is_alpha, is_alnum, skip_byte, skip, token_at, token_of, tokenize,
}
use rocketvm.Asm.Lexer.Mnemonics.{mnemonic, tokenize_opcode_iff}
use rocketvm.Asm.Lexer.Progress.{tokenize-length}
use rocketvm.Asm.Parser.{
  accepts, done, out_of_fuel, advance, parse, parse_loop, after_round, parse_round, parse_opcode,
  finish_instr,
}
use rocketvm.Asm.Lexer.Comments.{strip}
use rocketvm.Asm.Parser.Stripped.{parse-strip}
use rocketvm.Asm.Parser.Total.{parse-total}
use rocketvm.Asm.Parser.Shapes.{IsParsed, parse-IsParsed}

-- `a: MOV rv0, 5` and `JMP a`.
abbrev move : AsmInstr
move = record { opcode = mov; opr1 = reg 0; opr2 = imm 5 }

abbrev jump : AsmInstr
jump = record { opcode = jmp; opr1 = label (b'a' ∷ []); opr2 = absent }

abbrev program : Program
program = record {
  instrs = move ∷ jump ∷ [];
  instr_capacity = 1024;
  labels = record { name = b'a' ∷ []; address = 0 } ∷ [];
  label_capacity = 1024;
}

resolved : find_label_address program (b'a' ∷ []) ≡ some 0
unfolding find_label same_name
resolved = refl

unresolved : find_label_address program (b'b' ∷ []) ≡ none
unfolding find_label same_name
unresolved = refl

-- A processor that has fetched the jump.
abbrev cpu : Cpu
cpu = set_rip 4 create.cpu

jump_target-encode_instr_example :
    (w : ℕ) × (encode_instr program jump 1 ≡ ok (some w)) × (jump_target cpu (decode w) ≡ 0)
jump_target-encode_instr_example =
    jump_target-encode_instr program jmp (b'a' ∷ []) absent 1 0 cpu is_jmp resolved (omega arith)
      (omega arith) refl

encode_instr-accepted_example : Encodes (encode_instr program jump 1)
encode_instr-accepted_example =
    encode_instr-accepted program jmp (label (b'a' ∷ [])) absent 1 (unfold accepts in refl)
      (0, resolved) tt refl

moves : encode_instr program move 0 ≡ ok (some 0x0005)
unfolding encode_op encode_mov encode
moves = refl

-- The two words of the program.
words : (w : ℕ) × Words program 0 program.instrs (0x0005 ∷ w ∷ [])
words =
    let (w, e, lands) =
      jump_target-encode_instr program jmp (b'a' ∷ []) absent 1 0 cpu is_jmp resolved (omega arith)
        (omega arith) refl in
    (w, word moves (word e no_words))

load-emit_binary_example :
    (image : Bytes) × (emit_binary true program ≡ ok (image, success))
    × (word_at (load create (some image)).0.mem 0 ≡ 0x0005)
load-emit_binary_example =
    load-emit_binary program (0x0005 ∷ words.0 ∷ []) create 0 0x0005 words.1 (omega arith)
      (omega arith) refl

find_label_iff_example :
    (find_label program.labels (b'a' ∷ []) ≡ some 0) ↔ First (b'a' ∷ []) program.labels 0
find_label_iff_example = find_label_iff program.labels (b'a' ∷ []) 0

-- `Mov`.
tokenize_opcode_iff_example :
    (tokenize_opcode (b'M' ∷ b'o' ∷ b'v' ∷ []) ≡ some mov)
    ↔ (map to_lower (b'M' ∷ b'o' ∷ b'v' ∷ []) ≡ mnemonic mov)
tokenize_opcode_iff_example = tokenize_opcode_iff (b'M' ∷ b'o' ∷ b'v' ∷ []) mov

tokenize-length_example :
    (tokenize (b' ' ∷ b'a' ∷ []) ≡ (eof, [])) ⊎ (length ((tokenize (b' ' ∷ b'a' ∷ [])).1) < 2)
tokenize-length_example = tokenize-length (b' ' ∷ b'a' ∷ [])

-- `ret`.
abbrev text : Bytes
text = b'r' ∷ b'e' ∷ b't' ∷ []

parse-total_example : parse (λ n. true) text Program.create ≢ out_of_fuel
parse-total_example = parse-total (λ n. true) text Program.create

-- The program of that text.
abbrev returning : Program
returning = record Program.create {
  instrs = record { opcode = ret; opr1 = absent; opr2 = absent } ∷ [];
}

parses : parse (λ n. true) text Program.create ≡ done returning
unfolding parse parse_loop after_round parse_round parse_opcode finish_instr accepts push_instr
    advance tokenize token_of token_at skip skip_byte is_space is_alpha is_digit is_alnum take_while
    drop_while word_token tokenize_opcode tokenize_opcode3 to_lower
parses = refl

parse-IsParsed_example : IsParsed returning
parse-IsParsed_example = parse-IsParsed (λ n. true) text returning parses

-- The image of that text, from the file on.
assembles : assemble (λ n. true) true (some text) ≡ ok (0x00 ∷ 0xF0 ∷ [], success)
unfolding assemble assemble_text after_parse emit_binary emit_from emit_word encode_op
    resolve_labels resolves read_file
assembles = rw parses refl

assemble-written_example :
    (source : Bytes) × (p : Program) × (ws : List ℕ) × (read_file (some text) ≡ some source)
    × (parse (λ n. true) source Program.create ≡ done p)
    × IsParsed p
    × (resolve_labels p p.instrs ≡ true)
    × Words p 0 p.instrs ws
    × (0x00 ∷ 0xF0 ∷ [] ≡ image_of ws)
assemble-written_example = assemble-written (λ n. true) (some text) (0x00 ∷ 0xF0 ∷ []) assembles

-- `ret;x`, with a comment, and without it.
abbrev commented : Bytes
commented = b'r' ∷ b'e' ∷ b't' ∷ b';' ∷ b'x' ∷ []

bare_text : strip false commented ≡ b'r' ∷ b'e' ∷ b't' ∷ []
unfolding strip
bare_text = refl

parse-strip_example :
    parse (λ n. true) (strip false commented) Program.create
    ≡ parse (λ n. true) commented Program.create
parse-strip_example = parse-strip (λ n. true) commented Program.create
