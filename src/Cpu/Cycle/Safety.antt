-- ===== src/Cpu/Cycle/Safety.antt =====
-- One cycle of a well-formed machine: the invariant, and exactly when C leaves it undefined.
use rocketvm.Base.{
  ℕ, ◌+◌, ◌*◌, ◌/◌, ◌%◌, ◌^◌, ◌≤◌, Bool, true, false, not, ◌&&◌, ◌==◌, ltb, leb, if◌then◌else◌, ◌≡◌,
  refl, sym, ◌∙◌, arith, Bool-cases, inl, inr, not-lt→ltb, le→leb,
}
use rocketvm.Exec.{Exec, ok, crash, signed_overflow, Returns, ◌>>=◌}
use rocketvm.Isa.Opcode.{
  Opcode, opcode_value, opcode_of-some, mov, load, store, add, sub, mul, div, modulo, shl, shr, cmp,
  jmp, jz, jnz, call, ret,
}
use rocketvm.Isa.Instr.{Instr}
use rocketvm.Isa.Decode.{decode}
use rocketvm.Isa.Encoder.Layout.{decode-fields}
use rocketvm.Memory.Laws.{word_at, read_uint16_lem}
use rocketvm.Cpu.State.{Cpu, Vm, source_value}
use rocketvm.Cpu.Alu.{exec_mul}
use rocketvm.Cpu.Alu.Products.{exec_mul_lem}
use rocketvm.Cpu.Cycle.{
  Status, success, failure, on_cpu, handler, dispatch, execute, advance, cycle,
}
use rocketvm.Cpu.Cycle.Invariant.{IsValid, IsWellFormed, decode-IsDecoded, ready, set_rip-IsValid}
use rocketvm.Cpu.Cycle.Registers.{
  exec_mov-IsValid, exec_add-IsValid, exec_sub-IsValid, exec_mul-IsValid, exec_div-IsValid,
  exec_mod-IsValid, exec_shl-IsValid, exec_shr-IsValid, exec_cmp-IsValid, exec_jmp-IsValid,
  exec_jz-IsValid, exec_jnz-IsValid,
}
use rocketvm.Cpu.Cycle.Machine.{
  with_cpu, exec_load-IsWellFormed, exec_store-IsWellFormed, exec_call-IsWellFormed,
  exec_ret-IsWellFormed,
}

-- MUL would form a product that does not fit an `int`.
abbrev pub product_overflows : Opcode → Cpu → Instr → Bool
product_overflows mul cpu instr = leb (2 ^ 31) (cpu.regs.rv instr.reg * source_value cpu instr)
product_overflows _ cpu instr = false

mul-Returns :
    {vm : Vm} (f : IsWellFormed vm) (m : Exec Cpu)
    → Returns IsValid m
    → Returns IsWellFormed (m >>= λ cpu. on_cpu vm cpu)
mul-Returns f (ok cpu) h = with_cpu f 0 h
mul-Returns f (crash e) h = h

-- On a well-formed machine, at a decoded word, each of the sixteen handlers returns and leaves a
-- well-formed machine, unless it is MUL with a product of 2 ^ 31 or more.
pub handler-IsWellFormed :
    (op : Opcode) {vm : Vm} (w : ℕ)
    → IsWellFormed vm
    → product_overflows op vm.cpu (decode w) ≡ false
    → Returns IsWellFormed (handler op vm (decode w))
unfolding handler
handler-IsWellFormed mov w f h = with_cpu f w (exec_mov-IsValid f.valid (decode-IsDecoded w))
handler-IsWellFormed load w f h = exec_load-IsWellFormed f w
handler-IsWellFormed store w f h = exec_store-IsWellFormed f w
handler-IsWellFormed add w f h = with_cpu f w (exec_add-IsValid f.valid (decode-IsDecoded w))
handler-IsWellFormed sub w f h = with_cpu f w (exec_sub-IsValid f.valid (decode-IsDecoded w))
handler-IsWellFormed mul {vm} w f h =
    mul-Returns f (exec_mul vm.cpu (decode w))
      (exec_mul-IsValid f.valid (decode-IsDecoded w) (ground arith))
handler-IsWellFormed div w f h = with_cpu f w (exec_div-IsValid f.valid (decode-IsDecoded w))
handler-IsWellFormed modulo w f h = with_cpu f w (exec_mod-IsValid f.valid (decode-IsDecoded w))
handler-IsWellFormed shl w f h = with_cpu f w (exec_shl-IsValid f.valid (decode-IsDecoded w))
handler-IsWellFormed shr w f h = with_cpu f w (exec_shr-IsValid f.valid (decode-IsDecoded w))
handler-IsWellFormed cmp w f h = with_cpu f w (exec_cmp-IsValid f.valid (decode-IsDecoded w))
handler-IsWellFormed jmp w f h = with_cpu f w (exec_jmp-IsValid f.valid w)
handler-IsWellFormed jz w f h = with_cpu f w (exec_jz-IsValid f.valid w)
handler-IsWellFormed jnz w f h = with_cpu f w (exec_jnz-IsValid f.valid w)
handler-IsWellFormed call w f h = exec_call-IsWellFormed f w
handler-IsWellFormed ret w f h = exec_ret-IsWellFormed f w

-- `rvm_cpu_execute` calls the handler of the decoded opcode and returns 0: neither of its two
-- faults is taken for a decoded word.
pub execute-decode :
    (vm : Vm) (w : ℕ)
    → (op : Opcode) × ((decode w).opcode ≡ opcode_value op)
      × (execute vm (decode w) ≡ (handler op vm (decode w) >>= λ after. ok (after, success)))
unfolding execute dispatch
execute-decode vm w =
    let (op, e, value) = opcode_of-some (w / 4096 % 16) (omega arith) in
    let low : leb 16 (w / 4096 % 16) ≡ false = ground arith in
    (op, rw (decode-fields w) (sym value), rw (decode-fields w, low, e) refl)

-- The word that RIP points at.
abbrev pub fetched : Vm → ℕ
fetched vm = word_at vm.mem vm.cpu.regs.rip

-- A running machine in range executes the fetched word with RIP advanced.
pub cycle-running :
    {vm : Vm}
    → IsWellFormed vm
    → vm.cpu.halt ≡ false
    → vm.cpu.regs.rip ≤ 0x7FFD
    → cycle vm ≡ execute (advance vm) (decode (fetched vm))
unfolding cycle
cycle-running {vm} f run in_range =
    rw
      (
        run,
        not-lt→ltb 0x7FFD vm.cpu.regs.rip in_range,
        read_uint16_lem vm.mem vm.cpu.regs.rip f.bytes (omega arith),
      )
      refl

pub advance-IsWellFormed :
    {vm : Vm} → IsWellFormed vm → vm.cpu.regs.rip ≤ 0x7FFD → IsWellFormed (advance vm)
advance-IsWellFormed {vm} f h =
    let v = f.valid in
    record {
      valid = set_rip-IsValid v ((vm.cpu.regs.rip + 2) % 2 ^ 16) (omega arith) (omega arith);
      bytes = f.bytes;
    }

-- The next cycle is to multiply beyond the range of `int`.
abbrev pub overflows : Vm → Bool
overflows vm =
    not vm.cpu.halt
    && leb vm.cpu.regs.rip 0x7FFD
    && (decode (fetched vm)).opcode == 0x5
    && leb (2 ^ 31)
        (vm.cpu.regs.rv (decode (fetched vm)).reg * source_value vm.cpu (decode (fetched vm)))

-- What a cycle returns: a well-formed machine, with -1 exactly when the machine ran and RIP was
-- beyond the last instruction that `rvm_cpu_cycle` fetches.
abbrev pub GoodCycle : Vm → Vm × Status → Type 0
GoodCycle vm r =
    IsWellFormed r.0
    × (r.1 ≡ (if not vm.cpu.halt && ltb 0x7FFD vm.cpu.regs.rip then failure else success))

overflow_case :
    (op : Opcode) (vm : Vm)
    → (decode (fetched vm)).opcode ≡ opcode_value op
    → vm.cpu.halt ≡ false
    → vm.cpu.regs.rip ≤ 0x7FFD
    → overflows vm ≡ product_overflows op vm.cpu (decode (fetched vm))
overflow_case mov vm e run h = rw (run, le→leb _ _ h, e) refl
overflow_case _ vm e run h = rw (run, le→leb _ _ h, e) refl

advance_overflow :
    (op : Opcode) (vm : Vm) (w : ℕ)
    → product_overflows op (advance vm).cpu (decode w) ≡ product_overflows op vm.cpu (decode w)
unfolding source_value
advance_overflow mov vm w = refl
advance_overflow _ vm w = refl

-- A halted machine stays as it is.
pub cycle-halted : (vm : Vm) → vm.cpu.halt ≡ true → cycle vm ≡ ok (vm, success)
unfolding cycle
cycle-halted vm h = ground arith

-- Beyond the last instruction the cycle fails and changes nothing.
pub cycle-beyond :
    (vm : Vm) → vm.cpu.halt ≡ false → 0x7FFE ≤ vm.cpu.regs.rip → cycle vm ≡ ok (vm, failure)
unfolding cycle
cycle-beyond vm run h = ground arith

succeeds :
    (vm : Vm) (m : Exec Vm)
    → (not vm.cpu.halt && ltb 0x7FFD vm.cpu.regs.rip) ≡ false
    → Returns IsWellFormed m
    → Returns (GoodCycle vm) (m >>= λ after. ok (after, success))
succeeds vm (ok after) e h = (h, rw e refl)
succeeds vm (crash c) e h = h

-- For a well-formed machine whose next instruction is no product of 2 ^ 31 or more, `rvm_cpu_cycle`
-- returns, and leaves a well-formed machine. It returns -1 exactly when the machine runs and RIP is
-- past 0x7FFD, else 0.
pub cycle-IsWellFormed :
    (vm : Vm) → IsWellFormed vm → overflows vm ≡ false → Returns (GoodCycle vm) (cycle vm)
cycle-IsWellFormed vm f h = elim (Bool-cases vm.cpu.halt) [
  | inl halted ↦ rw (cycle-halted vm halted) (f, ground arith)
  | inr run ↦ elim (Bool-cases (ltb 0x7FFD vm.cpu.regs.rip)) [
    | inl beyond ↦ rw (cycle-beyond vm run (ground arith)) (f, ground arith)
    | inr within ↦
        let in_range : vm.cpu.regs.rip ≤ 0x7FFD = ground arith in
        let (op, value, e) = execute-decode (advance vm) (fetched vm) in
        let safe = sym (overflow_case op vm value run in_range) ∙ h in
        let after =
          handler-IsWellFormed op (fetched vm) (advance-IsWellFormed f in_range)
            (advance_overflow op vm (fetched vm) ∙ safe) in
        rw (cycle-running f run in_range, e)
          (succeeds vm (handler op (advance vm) (decode (fetched vm))) (ground arith) after)
  ]
]

mul_crashes :
    (op : Opcode) (vm : Vm) (w : ℕ)
    → IsWellFormed vm
    → product_overflows op vm.cpu (decode w) ≡ true
    → handler op vm (decode w) ≡ crash signed_overflow
unfolding handler
mul_crashes mul vm w f h =
    let d = decode-IsDecoded w in
    let big : ltb (vm.cpu.regs.rv (decode w).reg * source_value vm.cpu (decode w)) (2 ^ 31)
        ≡ false =
      ground arith in
    rw (exec_mul_lem vm.cpu (decode w) (ready f.valid d) d.has_mode, big) refl
mul_crashes _ vm w f h = cc

-- A cycle of a well-formed machine that runs, with RIP of at most 0x7FFD at a MUL with a product of
-- 2 ^ 31 or more, ends in a signed overflow.
pub cycle-overflow :
    (vm : Vm) → IsWellFormed vm → overflows vm ≡ true → cycle vm ≡ crash signed_overflow
cycle-overflow vm f h =
    let run : vm.cpu.halt ≡ false = ground arith in
    let in_range : vm.cpu.regs.rip ≤ 0x7FFD = ground arith in
    let (op, value, e) = execute-decode (advance vm) (fetched vm) in
    let big =
      advance_overflow op vm (fetched vm) ∙ sym (overflow_case op vm value run in_range) ∙ h in
    let stops = mul_crashes op (advance vm) (fetched vm) (advance-IsWellFormed f in_range) big in
    cycle-running f run in_range ∙ e ∙ rw stops refl
