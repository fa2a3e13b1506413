-- ===== src/Asm/Main/Sound.antt =====
-- The image that a successful run of the assembler writes.
use rocketvm.Base.{
  ℕ, suc, Bool, true, List, [], ◌∷◌, ◌++◌, Option, none, some, ◌≡◌, refl, ap, ◌∙◌, arith,
  Bool-cases, inl, inr,
}
use rocketvm.Exec.{Exec, ok, crash, ◌>>=◌}
use rocketvm.Cpu.Cycle.{Status, success, failure}
use rocketvm.Vm.{read_file}
use rocketvm.Asm.Program.{Bytes, AsmInstr, Program, create}
use rocketvm.Asm.Encoder.{resolve_labels, encode_instr}
use rocketvm.Asm.Parser.{Parsed, done, failed, out_of_fuel, parse}
use rocketvm.Asm.Parser.Shapes.{IsParsed, parse-IsParsed}
use rocketvm.Asm.Emitter.{word_bytes, emit_word, emit_from, emit_binary}
use rocketvm.Asm.Emitter.Image.{Words, no_words, word, image_of, word_bytes_lem}
use rocketvm.Asm.Main.{after_parse, assemble_text, assemble}

-- What a round of the emitter has done where the whole succeeds.
abbrev Wrote : Exec (Bytes × Status) → Exec (Option ℕ) → Bytes → Type 0
Wrote rest r bytes =
    (w : ℕ) × (bs : Bytes) × (r ≡ ok (some w))
    × (rest ≡ ok (bs, success))
    × (bytes ≡ word_bytes w ++ bs)

emit_word-Wrote :
    (rest : Exec (Bytes × Status)) (r : Exec (Option ℕ)) (bytes : Bytes)
    → (r >>= λ encoded. emit_word rest encoded) ≡ ok (bytes, success)
    → Wrote rest r bytes
unfolding emit_word
emit_word-Wrote rest (crash c) bytes h = ground arith
emit_word-Wrote rest (ok none) bytes h = ground arith
emit_word-Wrote (crash c) (ok (some w)) bytes h = ground arith
emit_word-Wrote (ok (bs, success)) (ok (some w)) bytes h = (w, bs, refl, refl, cc)
emit_word-Wrote (ok (bs, failure)) (ok (some w)) bytes h = ground arith

emit_from-written :
    (program : Program) (i : ℕ) (instrs : List AsmInstr) (bytes : Bytes)
    → emit_from program i instrs ≡ ok (bytes, success)
    → (ws : List ℕ) × Words program i instrs ws × (bytes ≡ image_of ws)
unfolding emit_from
emit_from-written program i [] bytes h = ([], no_words, cc)
emit_from-written program i (instr ∷ instrs) bytes h =
    let (w, bs, e, rest, joined) =
      emit_word-Wrote (emit_from program (suc i) instrs) (encode_instr program instr i) bytes h in
    let (ws, words, same) = emit_from-written program (suc i) instrs bs rest in
    (
      w ∷ ws,
      word e words,
      joined ∙ ap (λ b. word_bytes w ++ b) same ∙ ap (λ b. b ++ image_of ws) (word_bytes_lem w),
    )

after_parse-written :
    (p : Parsed) (bytes : Bytes)
    → after_parse true p ≡ ok (bytes, success)
    → (program : Program) × (ws : List ℕ) × (p ≡ done program)
      × (resolve_labels program program.instrs ≡ true)
      × Words program 0 program.instrs ws
      × (bytes ≡ image_of ws)
unfolding after_parse emit_binary
after_parse-written (done program) bytes h =
    elim (Bool-cases (resolve_labels program program.instrs)) [
      | inl known ↦
          let (ws, words, same) =
            emit_from-written program 0 program.instrs bytes (rw known at h) in
          (program, ws, refl, known, words, same)
      | inr missing ↦ absurd (impossible (ok ([], failure)) refl (rw missing at h))
    ]
  where
    impossible :
        (refused : Exec (Bytes × Status))
        → refused ≡ ok ([], failure)
        → refused ≡ ok (bytes, success)
        → ⊥
    impossible refused e e' = ground arith
after_parse-written failed bytes h = ground arith
after_parse-written out_of_fuel bytes h = ground arith

-- Where the assembler, with the output file opened, returns 0: the input could be read, its text
-- was parsed to a well-formed program, `rsm_resolve_labels` accepted that program, every
-- instruction has a word, and the bytes written are those of the words in order, low byte first.
pub assemble-written :
    (room : ℕ → Bool) (file : Option Bytes) (bytes : Bytes)
    → assemble room true file ≡ ok (bytes, success)
    → (text : Bytes) × (program : Program) × (ws : List ℕ) × (read_file file ≡ some text)
      × (parse room text create ≡ done program)
      × IsParsed program
      × (resolve_labels program program.instrs ≡ true)
      × Words program 0 program.instrs ws
      × (bytes ≡ image_of ws)
unfolding assemble
assemble-written room file bytes h = from_text (read_file file) h
  where
    from_text :
        (o : Option Bytes)
        → assemble_text room true o ≡ ok (bytes, success)
        → (text : Bytes) × (program : Program) × (ws : List ℕ) × (o ≡ some text)
          × (parse room text create ≡ done program)
          × IsParsed program
          × (resolve_labels program program.instrs ≡ true)
          × Words program 0 program.instrs ws
          × (bytes ≡ image_of ws)
    from_text none e = unfold assemble_text in ground arith
    from_text (some text) e =
        let (program, ws, parsed, known, words, same) =
          after_parse-written (parse room text create) bytes (unfold assemble_text in e) in
        (
          text,
          program,
          ws,
          refl,
          parsed,
          parse-IsParsed room text program parsed,
          known,
          words,
          same,
        )
