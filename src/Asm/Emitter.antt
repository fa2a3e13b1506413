-- ===== src/Asm/Emitter.antt =====
-- rocketasm/emitter.c. `opened` says whether `fopen` succeeds; the bytes are what `fwrite` is given.
pub mod Image
use rocketvm.Base.{
  ℕ, suc, ◌%◌, ◌^◌, bit_and, ◌>>>◌, Bool, if◌then◌else◌, List, [], ◌∷◌, ◌++◌, Option, none, some,
}
use rocketvm.Exec.{Exec, ok, crash, ◌>>=◌}
use rocketvm.Cpu.Cycle.{Status, success, failure}
use rocketvm.Asm.Program.{Bytes, AsmInstr, Program}
use rocketvm.Asm.Encoder.{encode_instr}

-- The two bytes of a word, low byte first.
abbrev pub word_bytes : ℕ → Bytes
word_bytes encoded =
    let word = encoded % 2 ^ 16 in
    bit_and word 0xFF % 2 ^ 8 ∷ bit_and (word >>> 8) 0xFF % 2 ^ 8 ∷ []

-- What the loop does with the encoding of one instruction; `rest` writes the instructions after it.
unfoldable pub emit_word : Exec (Bytes × Status) → Option ℕ → Exec (Bytes × Status)
emit_word rest none = ok ([], failure)
emit_word rest (some encoded) = do (bytes, status) ← rest; ok (word_bytes encoded ++ bytes, status)

-- The loop of `rsm_emit_binary` from instruction `i`: the bytes that it writes from there, and what
-- the function returns.
unfoldable pub emit_from : Program → ℕ → List AsmInstr → Exec (Bytes × Status)
emit_from program i [] = ok ([], success)
emit_from program i (instr ∷ instrs) =
    let rest = emit_from program (suc i) instrs in
    encode_instr program instr i >>= λ encoded. emit_word rest encoded

-- `rsm_emit_binary`.
unfoldable pub emit_binary : Bool → Program → Exec (Bytes × Status)
emit_binary opened program = if opened then emit_from program 0 program.instrs else ok ([], failure)
