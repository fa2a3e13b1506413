-- ===== src/Asm/Emitter/Image.antt =====
-- The bytes that the emitter writes, and the memory of a machine that loads them.
use rocketvm.Base.{
  ℕ, zero, suc, ◌+◌, ◌*◌, ◌/◌, ◌%◌, ◌^◌, ◌<◌, ◌≤◌, true, List, [], ◌∷◌, ◌++◌, length, get_elem?,
  get_or, AllBelow, some, ◌≡◌, refl, ap, arith, lt→ltb,
}
use rocketvm.Base.Bits.{bit_and_mask}
use rocketvm.Exec.{ok}
use rocketvm.Memory.{read_uint8}
use rocketvm.Memory.Laws.{word_at}
use rocketvm.Cpu.State.{Vm}
use rocketvm.Cpu.Cycle.{success}
use rocketvm.Vm.{load}
use rocketvm.Vm.Load.{load-accepts}
use rocketvm.Asm.Program.{Bytes, AsmInstr, Program}
use rocketvm.Asm.Encoder.{encode_instr}
use rocketvm.Asm.Emitter.{word_bytes, emit_word, emit_from, emit_binary}

-- The words of the instructions from number `i` on.
pub data Words (program : Program) : ℕ → List AsmInstr → List ℕ → Type 0 where
  no_words : {i : ℕ} → Words program i [] []
  word :
      {i : ℕ} {instr : AsmInstr} {instrs : List AsmInstr} {w : ℕ} {ws : List ℕ}
      → encode_instr program instr i ≡ ok (some w)
      → Words program (suc i) instrs ws
      → Words program i (instr ∷ instrs) (w ∷ ws)

-- The bytes of words, low byte first.
abbrev pub image_of : List ℕ → Bytes
image_of [] = []
image_of (w ∷ ws) = w % 256 ∷ w / 256 % 256 ∷ image_of ws

pub word_bytes_lem : (w : ℕ) → word_bytes w ≡ w % 256 ∷ w / 256 % 256 ∷ []
word_bytes_lem w =
    let a : w % 2 ^ 16 % 2 ^ 8 % 2 ^ 8 ≡ w % 256 = omega arith in
    let b : w % 2 ^ 16 / 2 ^ 8 % 2 ^ 8 % 2 ^ 8 ≡ w / 256 % 256 = omega arith in
    rw (bit_and_mask 8 (w % 2 ^ 16), bit_and_mask 8 (w % 2 ^ 16 / 2 ^ 8), a, b) refl

emit_from-Words :
    (program : Program) {i : ℕ} {instrs : List AsmInstr} {ws : List ℕ}
    → Words program i instrs ws
    → emit_from program i instrs ≡ ok (image_of ws, success)
unfolding emit_from emit_word
emit_from-Words program no_words = refl
emit_from-Words program (word {w = w} {ws = ws} e rest) =
    rw (e, emit_from-Words program rest)
      (ap (λ bs. ok (bs ++ image_of ws, success)) (word_bytes_lem w))

pub length-image_of : (ws : List ℕ) → length (image_of ws) ≡ 2 * length ws
length-image_of [] = refl
length-image_of (w ∷ ws) = let ih = length-image_of ws in omega arith

pub image_of-AllBelow : (ws : List ℕ) → AllBelow 256 (image_of ws)
image_of-AllBelow [] = tt
image_of-AllBelow (w ∷ ws) = (omega arith, (omega arith, image_of-AllBelow ws))

get_or-image_of :
    (ws : List ℕ) (k w : ℕ)
    → get_elem? ws k ≡ some w
    → (get_or (image_of ws) (2 * k) 0 ≡ w % 256)
      × (get_or (image_of ws) (2 * k + 1) 0 ≡ w / 256 % 256)
get_or-image_of [] k w h = ground arith
get_or-image_of (v ∷ ws) zero w h = ground arith
get_or-image_of (v ∷ ws) (suc k) w h =
    let d : 2 * suc k ≡ suc (suc (2 * k)) = omega arith in
    let e : 2 * suc k + 1 ≡ suc (suc (2 * k + 1)) = omega arith in
    rw (e, d) (get_or-image_of ws k w h)

pub get_elem?-length : (ws : List ℕ) (k w : ℕ) → get_elem? ws k ≡ some w → k < length ws
get_elem?-length [] k w h = ground arith
get_elem?-length (v ∷ ws) zero w h = omega arith
get_elem?-length (v ∷ ws) (suc k) w h = let ih = get_elem?-length ws k w h in omega arith

-- Where every instruction has a word, the emitter writes the two bytes of each word, low byte
-- first, and returns 0.
pub emit_binary-Words :
    (program : Program) (ws : List ℕ)
    → Words program 0 program.instrs ws
    → emit_binary true program ≡ ok (image_of ws, success)
unfolding emit_binary
emit_binary-Words program ws words = emit_from-Words program words

-- For a program of 1 to 32768 instructions that all have words, and with the output file opened,
-- `rsm_emit_binary` returns 0 and its image, loaded into any machine, puts word `k` (its low 16
-- bits) at the address twice `k`.
pub load-emit_binary :
    (program : Program) (ws : List ℕ) (vm : Vm) (k w : ℕ)
    → Words program 0 program.instrs ws
    → 0 < length ws
    → length ws ≤ 0x8000
    → get_elem? ws k ≡ some w
    → (image : Bytes) × (emit_binary true program ≡ ok (image, success))
      × (word_at (load vm (some image)).0.mem (2 * k) ≡ w % 2 ^ 16)
unfolding read_uint8
load-emit_binary program ws vm k w words pos fits h =
    let long = length-image_of ws in
    let inside = get_elem?-length ws k w h in
    let (status, cpu, bytes) = load-accepts vm (image_of ws) (omega arith) (omega arith) in
    let (low, high) = get_or-image_of ws k w h in
    (
      image_of ws,
      emit_binary-Words program ws words,
      rw
          (
            bytes (2 * k),
            bytes (2 * k + 1),
            lt→ltb (2 * k) (length (image_of ws)) (omega arith),
            lt→ltb (2 * k + 1) (length (image_of ws)) (omega arith),
            low,
            high,
          )
          (omega arith),
    )
