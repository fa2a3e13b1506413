-- ===== src/Asm/Meaning/Correct.antt =====
-- What a cycle does at an assembled word.
use rocketvm.Base.{◌%◌, ◌^◌, ℕ, ◌+◌, ◌*◌, ◌≤◌, false, leb, ◌≡◌, refl, ◌∙◌, ap, arith, some}
use rocketvm.Exec.{Exec, ok, ◌>>=◌}
use rocketvm.Isa.Opcode.{
  Opcode, opcode_value, opcode_value-lt, opcode_of, opcode_of-opcode_value, mov, load, store, add,
  sub, mul, div, modulo, shl, shr, cmp, jmp, jz, jnz, call, ret,
}
use rocketvm.Isa.Instr.{Instr}
use rocketvm.Isa.Decode.{decode}
use rocketvm.Memory.Laws.{word_at}
use rocketvm.Cpu.State.{Vm}
use rocketvm.Cpu.Cycle.{success, handler, dispatch, execute, advance, cycle}
use rocketvm.Cpu.Cycle.Invariant.{IsWellFormed}
use rocketvm.Cpu.Cycle.Safety.{cycle-running, advance-IsWellFormed}
use rocketvm.Cpu.State.{op_count}
use rocketvm.Asm.Program.{Operand, AsmInstr, Program}
use rocketvm.Asm.Encoder.{encode_op, encode_instr}
use rocketvm.Asm.Encoder.Jumps.{is_jmp, is_jz, is_jnz, is_call}
use rocketvm.Asm.Encoder.Words.{
  is_mov, is_add, is_sub, is_mul, is_div, is_modulo, is_shl, is_shr, is_cmp,
}
use rocketvm.Asm.Meaning.{means}
use rocketvm.Asm.Meaning.Does.{Does}
use rocketvm.Asm.Meaning.Data.{Does-compute, Does-load, Does-store}
use rocketvm.Asm.Meaning.Defined.{encode_op-HasMeaning}
use rocketvm.Asm.Meaning.Control.{Does-control, Does-ret}

-- The handler of every opcode, at every pair of operands.
all-Does :
    (program : Program) (vm : Vm) (k : ℕ) (op : Opcode) (a b : Operand) (w : ℕ) (m : Exec Vm)
    → IsWellFormed vm
    → vm.cpu.regs.rip ≡ 2 * k + 2
    → encode_op program op a b k ≡ ok (some w)
    → means program op a b vm ≡ some m
    → Does vm op w m
unfolding means
all-Does program vm k load a b w m f behind e s = Does-load program vm f k a b w m e s
all-Does program vm k store a b w m f behind e s = Does-store program vm f k a b w m e s
all-Does program vm k jmp a b w m f behind e s =
    Does-control program vm f k jmp a b w m is_jmp behind e s
all-Does program vm k jz a b w m f behind e s =
    Does-control program vm f k jz a b w m is_jz behind e s
all-Does program vm k jnz a b w m f behind e s =
    Does-control program vm f k jnz a b w m is_jnz behind e s
all-Does program vm k call a b w m f behind e s =
    Does-control program vm f k call a b w m is_call behind e s
all-Does program vm k ret a b w m f behind e s = Does-ret program vm f k a b w m e s
all-Does program vm k mov a b w m f behind e s = Does-compute program vm f k mov a b w m is_mov e s
all-Does program vm k add a b w m f behind e s = Does-compute program vm f k add a b w m is_add e s
all-Does program vm k sub a b w m f behind e s = Does-compute program vm f k sub a b w m is_sub e s
all-Does program vm k mul a b w m f behind e s = Does-compute program vm f k mul a b w m is_mul e s
all-Does program vm k div a b w m f behind e s = Does-compute program vm f k div a b w m is_div e s
all-Does program vm k modulo a b w m f behind e s =
    Does-compute program vm f k modulo a b w m is_modulo e s
all-Does program vm k shl a b w m f behind e s = Does-compute program vm f k shl a b w m is_shl e s
all-Does program vm k shr a b w m f behind e s = Does-compute program vm f k shr a b w m is_shr e s
all-Does program vm k cmp a b w m f behind e s = Does-compute program vm f k cmp a b w m is_cmp e s

-- A decoded opcode reaches its handler.
execute-handler :
    (vm : Vm) (instr : Instr) (op : Opcode) (m : Exec Vm)
    → instr.opcode ≡ opcode_value op
    → handler op vm instr ≡ m
    → execute vm instr ≡ (m >>= λ after. ok (after, success))
unfolding execute dispatch
execute-handler vm instr op m e h =
    let small = opcode_value-lt op in
    let found : opcode_of instr.opcode ≡ some op = ap opcode_of e ∙ opcode_of-opcode_value op in
    let in_table : leb op_count instr.opcode ≡ false = ground arith in rw (in_table, found, h) refl

-- An instruction of a program that has a word as its instruction `k` has a meaning. On a
-- well-formed machine that runs, with RIP at twice `k` and at most 0x7FFD, and with the low 16 bits
-- of that word in memory there, one cycle is this meaning, on the machine with RIP advanced, and
-- returns 0, unless the meaning is a signed overflow.
pub cycle-means :
    (program : Program) (instr : AsmInstr) (k w : ℕ) (vm : Vm)
    → IsWellFormed vm
    → vm.cpu.halt ≡ false
    → vm.cpu.regs.rip ≡ 2 * k
    → vm.cpu.regs.rip ≤ 0x7FFD
    → word_at vm.mem vm.cpu.regs.rip ≡ w % 2 ^ 16
    → encode_instr program instr k ≡ ok (some w)
    → (m : Exec Vm) × (means program instr.opcode instr.opr1 instr.opr2 (advance vm) ≡ some m)
      × (cycle vm ≡ (m >>= λ after. ok (after, success)))
cycle-means program instr k w vm f running at_k inside word e =
    let (op, a, b) : Opcode × Operand × Operand = (instr.opcode, instr.opr1, instr.opr2) in
    let (m, s) = encode_op-HasMeaning program (advance vm) op a b k w e in
    let (small, opcode, handled) =
      all-Does program (advance vm) k op a b w m (advance-IsWellFormed f inside) (omega arith) e
        s in
    let same : w % 2 ^ 16 ≡ w = omega arith in
    (
      m,
      s,
      cycle-running f running inside
          ∙ ap (λ x. execute (advance vm) (decode x)) (word ∙ same)
          ∙ execute-handler (advance vm) (decode w) op m opcode handled,
    )
