-- ===== src/Asm/Main/Loaded.antt =====
-- From a source text to the machine that runs its image: one cycle, by the meaning of the
-- instruction.
use rocketvm.Base.{
  ℕ, zero, suc, ◌+◌, ◌*◌, ◌%◌, ◌^◌, ◌≤◌, Bool, true, false, List, length, get_elem?, Option, some,
  ◌≡◌, refl, sym, ap, ◌∙◌, arith, subst,
}
use rocketvm.Exec.{Exec, ok, ◌>>=◌}
use rocketvm.Memory.Laws.{word_at}
use rocketvm.Cpu.State.{Vm}
use rocketvm.Cpu.Cycle.{success, advance, cycle}
use rocketvm.Cpu.Cycle.Invariant.{IsWellFormed}
use rocketvm.Vm.{read_file, load}
use rocketvm.Vm
use rocketvm.Asm.Program.{Bytes, AsmInstr, Program, create}
use rocketvm.Asm.Encoder.{encode_instr}
use rocketvm.Asm.Parser.{done, parse}
use rocketvm.Asm.Emitter.Image.{
  Words, no_words, word, get_elem?-length, emit_binary-Words, load-emit_binary,
}
use rocketvm.Asm.Meaning.{means}
use rocketvm.Asm.Meaning.Correct.{cycle-means}
use rocketvm.Asm.Main.{assemble}
use rocketvm.Asm.Main.Sound.{assemble-written}

pub length-Words :
    (program : Program) {i : ℕ} {instrs : List AsmInstr} {ws : List ℕ}
    → Words program i instrs ws
    → length ws ≡ length instrs
length-Words program no_words = refl
length-Words program (word e rest) = ap suc (length-Words program rest)

-- The word of instruction `k` of a list that starts at number `i`.
word_of :
    (program : Program) (instr : AsmInstr) (k : ℕ) {i : ℕ} {instrs : List AsmInstr} {ws : List ℕ}
    → Words program i instrs ws
    → get_elem? instrs k ≡ some instr
    → (w : ℕ) × (get_elem? ws k ≡ some w) × (encode_instr program instr (i + k) ≡ ok (some w))
word_of program instr k no_words h = absurd (ground arith)
word_of program instr zero {i} (word {instr = first} {w = w} e rest) h =
    let same : first ≡ instr = cc in
    let here : i ≡ i + 0 = omega arith in
    (
      w,
      refl,
      ap (encode_instr program instr) (sym here)
          ∙ ap (λ x. encode_instr program x i) (sym same)
          ∙ e,
    )
word_of program instr (suc k) {i} (word {w = w} e rest) h =
    let (v, at, encoded) = word_of program instr k rest h in
    let next : suc i + k ≡ i + suc k = omega arith in
    (v, at, ap (encode_instr program instr) (sym next) ∙ encoded)

-- The word of instruction `k` in the memory of a new machine that has loaded the image.
word_in_image :
    (room : ℕ → Bool) (file : Option Bytes) (text bytes : Bytes) (program : Program)
    (instr : AsmInstr) (k : ℕ)
    → read_file file ≡ some text
    → parse room text create ≡ done program
    → assemble room true file ≡ ok (bytes, success)
    → length program.instrs ≤ 0x8000
    → get_elem? program.instrs k ≡ some instr
    → (w : ℕ) × (encode_instr program instr k ≡ ok (some w))
      × (word_at (load Vm.create (some bytes)).0.mem (2 * k) ≡ w % 2 ^ 16)
word_in_image room file text bytes program instr k read parsed made fits at =
    let (text', program', ws, read', parsed', valid, known, words, same) =
      assemble-written room file bytes made in
    let one_text : text' ≡ text = cc in
    let parsed_too : parse room text create ≡ done program' =
      ap (λ t. parse room t create) (sym one_text) ∙ parsed' in
    let one_program : program' ≡ program = cc in
    let words' = subst (λ p. Words p 0 p.instrs ws) one_program words in
    let (w, found, encoded) = word_of program instr k words' at in
    let long = length-Words program words' in
    let present = get_elem?-length ws k w found in
    let (image, emitted, loaded) =
      load-emit_binary program ws Vm.create k w words' (omega arith) (omega arith) found in
    let written = emit_binary-Words program ws words' in
    let one_image : image ≡ bytes = cc in
    let number : k ≡ 0 + k = omega arith in
    (
      w,
      ap (encode_instr program instr) number ∙ encoded,
      ap (λ b. word_at (load Vm.create (some b)).0.mem (2 * k)) (sym one_image) ∙ loaded,
    )

-- Where a text is read and parsed to a program of at most 32768 instructions, and the assembler,
-- with its output file opened, returns 0: on a well-formed machine that runs, with RIP at
-- instruction `k` and at most 0x7FFD, and with the same word there as a new machine that has loaded
-- the written image, one cycle does what instruction `k` of the program means. It then returns 0,
-- unless the meaning is a signed overflow.
pub loaded-means :
    (room : ℕ → Bool) (file : Option Bytes) (text bytes : Bytes) (program : Program)
    (instr : AsmInstr) (k : ℕ) (vm : Vm)
    → read_file file ≡ some text
    → parse room text create ≡ done program
    → assemble room true file ≡ ok (bytes, success)
    → length program.instrs ≤ 0x8000
    → get_elem? program.instrs k ≡ some instr
    → IsWellFormed vm
    → vm.cpu.halt ≡ false
    → vm.cpu.regs.rip ≡ 2 * k
    → vm.cpu.regs.rip ≤ 0x7FFD
    → word_at vm.mem (2 * k) ≡ word_at (load Vm.create (some bytes)).0.mem (2 * k)
    → (m : Exec Vm) × (means program instr.opcode instr.opr1 instr.opr2 (advance vm) ≡ some m)
      × (cycle vm ≡ (m >>= λ after. ok (after, success)))
loaded-means room file text bytes program instr k vm read parsed made fits at f running rip inside
      kept =
    let (w, encoded, loaded) =
      word_in_image room file text bytes program instr k read parsed made fits at in
    cycle-means program instr k w vm f running rip inside (ap (word_at vm.mem) rip ∙ kept ∙ loaded)
      encoded
