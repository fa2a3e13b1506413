-- ===== src/Vm/Straight.antt =====
-- Programs with no stores, jumps or calls.
use rocketvm.Base.{
  ℕ, zero, suc, ◌+◌, ◌-◌, ◌*◌, ◌%◌, ◌≤◌, Bool, true, false, ltb, ltb→lt, if◌then◌else◌, ◌≡◌, ◌≢◌,
  refl, sym, ap, ◌∙◌, subst, arith, Bool-cases, inl, inr,
}
use rocketvm.Exec.{Exec, ok, crash, signed_overflow, Returns, ◌>>=◌}
use rocketvm.Isa.Opcode.{Opcode, opcode_value, load, ret}
use rocketvm.Isa.Decode.{decode}
use rocketvm.Memory.{Memory, stack_end}
use rocketvm.Memory.Laws.{word_at}
use rocketvm.Cpu.State.{Cpu, Vm}
use rocketvm.Cpu.Alu.Spec.{source_value-lt}
use rocketvm.Cpu.Ctrlf.Stack.{exec_ret_lem}
use rocketvm.Cpu.Transfer.Laws.{exec_load_lem}
use rocketvm.Cpu.Cycle.{Status, success, failure, handler, on_cpu, advance, cycle}
use rocketvm.Cpu.Cycle.Invariant.{IsWellFormed, decode-IsDecoded, ready}
use rocketvm.Cpu.Cycle.Safety.{
  fetched, overflows, GoodCycle, cycle-running, cycle-beyond, cycle-overflow, cycle-IsWellFormed,
  execute-decode, advance-IsWellFormed,
}
use rocketvm.Vm.{Outcome, returned, out_of_fuel, after_cycle, run}
use rocketvm.Asm.Encoder.Words.{
  IsCompute, is_mov, is_add, is_sub, is_mul, is_div, is_modulo, is_shl, is_shr, is_cmp,
}
use rocketvm.Asm.Meaning.{compute}
use rocketvm.Asm.Meaning.Compute.{handler-compute}

-- Opcodes that neither store nor jump: those that compute, LOAD and RET.
pub data IsStraightOp : Opcode → Type 0 where
  computes : {op : Opcode} → IsCompute op → IsStraightOp op
  loads : IsStraightOp load
  returns : IsStraightOp ret

-- Every word at an even address of the program region has such an opcode.
abbrev pub IsStraight : Memory → Type 0
IsStraight mem =
    (op : Opcode) (a : ℕ)
    → a % 2 ≡ 0
    → a ≤ 0x7FFD
    → (decode (word_at mem a)).opcode ≡ opcode_value op
    → IsStraightOp op

-- Where it returns, the processor's RIP and RSP are kept.
abbrev Kept : Cpu → Exec Cpu → Type 0
Kept cpu (ok after) = (after.regs.rip ≡ cpu.regs.rip) × (after.regs.rsp ≡ cpu.regs.rsp)
Kept cpu (crash c) = Unit {0}

compute-Kept : (op : Opcode) (d v : ℕ) (cpu : Cpu) → IsCompute op → Kept cpu (compute op d v cpu)
unfolding compute
compute-Kept op d v cpu is_mov = (refl, refl)
compute-Kept op d v cpu is_add = (refl, refl)
compute-Kept op d v cpu is_sub = (refl, refl)
compute-Kept op d v cpu is_mul = ground arith
compute-Kept op d v cpu is_div = ground arith
compute-Kept op d v cpu is_modulo = ground arith
compute-Kept op d v cpu is_shl = ground arith
compute-Kept op d v cpu is_shr = (refl, refl)
compute-Kept op d v cpu is_cmp = (refl, refl)

-- The memory too.
abbrev KeptVm : Vm → Exec Vm → Type 0
KeptVm vm (ok after) =
    (after.mem ≡ vm.mem)
    × (after.cpu.regs.rip ≡ vm.cpu.regs.rip)
    × (after.cpu.regs.rsp ≡ vm.cpu.regs.rsp)
KeptVm vm (crash c) = Unit {0}

KeptVm-on_cpu : (vm : Vm) (m : Exec Cpu) → Kept vm.cpu m → KeptVm vm (m >>= on_cpu vm)
KeptVm-on_cpu vm (ok cpu) h = (refl, h.0, h.1)
KeptVm-on_cpu vm (crash c) h = tt

handler-KeptVm :
    (op : Opcode) (vm : Vm) (w : ℕ)
    → IsStraightOp op
    → IsWellFormed vm
    → vm.cpu.regs.rsp ≡ stack_end
    → KeptVm vm (handler op vm (decode w))
handler-KeptVm op vm w (computes c) f top =
    let d = decode-IsDecoded w in
    subst (KeptVm vm) (sym (handler-compute vm (decode w) (ready f.valid d) d.has_mode op c))
      (KeptVm-on_cpu vm _ (compute-Kept op _ _ vm.cpu c))
handler-KeptVm op vm w loads f top =
    let d = decode-IsDecoded w in
    unfold handler in
    subst (KeptVm vm)
      (sym (exec_load_lem vm (decode w) d.has_mode f.bytes (source_value-lt (ready f.valid d))))
      (ground arith)
handler-KeptVm op vm w returns f top =
    let last : ltb (stack_end - 1) vm.cpu.regs.rsp ≡ true = ground arith in
    unfold handler in
    subst (KeptVm vm) (sym (exec_ret_lem vm (decode w) f.bytes (omega arith)))
      (rw last (refl, refl, refl))

abbrev Ends : ℕ → Vm → Type 0
Ends fuel vm = run fuel vm ≢ out_of_fuel

run_step :
    (fuel : ℕ) (vm : Vm) (r : Exec (Vm × Status))
    → vm.cpu.halt ≡ false
    → cycle vm ≡ r
    → after_cycle (run fuel) r ≢ out_of_fuel
    → Ends (suc fuel) vm
unfolding run
run_step fuel vm r on e ends =
    let rest : Bool → Outcome =
      λ b. if b then returned vm success else after_cycle (run fuel) (cycle vm) in
    subst (λ o. o ≢ out_of_fuel) (sym (ap rest on ∙ ap (after_cycle (run fuel)) e)) ends

run_stop : (fuel : ℕ) (vm : Vm) → vm.cpu.halt ≡ true → Ends (suc fuel) vm
unfolding run
run_stop fuel vm stop = ground arith

-- A round that executes an instruction, where the rest of the loop ends.
straight_round :
    (fuel : ℕ) (vm : Vm) (m : Exec Vm)
    → vm.cpu.halt ≡ false
    → vm.cpu.regs.rip ≤ 0x7FFD
    → cycle vm ≡ (m >>= λ after. ok (after, success))
    → Returns (GoodCycle vm) (cycle vm)
    → KeptVm (advance vm) m
    → ((after : Vm)
        → IsWellFormed after
        → after.cpu.regs.rsp ≡ vm.cpu.regs.rsp
        → after.mem ≡ vm.mem
        → after.cpu.regs.rip ≡ vm.cpu.regs.rip + 2
        → Ends fuel after)
    → Ends (suc fuel) vm
unfolding after_cycle
straight_round fuel vm (crash c) on inside e good kept rest =
    run_step fuel vm (crash c) on e (ground arith)
straight_round fuel vm (ok after) on inside e good kept rest =
    let formed = subst (Returns (GoodCycle vm)) e good in
    let next = kept.1 in
    run_step fuel vm (ok (after, success)) on e (rest after formed.0 kept.2 kept.0 (omega arith))

-- One round, where the loop ends from every machine that it may lead to.
straight_from :
    (fuel : ℕ) (vm : Vm)
    → IsWellFormed vm
    → vm.cpu.regs.rsp ≡ stack_end
    → IsStraight vm.mem
    → ((after : Vm)
        → IsWellFormed after
        → after.cpu.regs.rsp ≡ stack_end
        → IsStraight after.mem
        → after.cpu.regs.rip ≡ vm.cpu.regs.rip + 2
        → vm.cpu.regs.rip ≤ 0x7FFD
        → Ends fuel after)
    → Ends (suc fuel) vm
straight_from fuel vm f top straight rest = elim (Bool-cases vm.cpu.halt) [
  | inl stop ↦ run_stop fuel vm stop
  | inr on ↦ elim (Bool-cases (ltb 0x7FFD vm.cpu.regs.rip)) [
    | inl beyond ↦
        run_step fuel vm (ok (vm, failure)) on
          (cycle-beyond vm on (ltb→lt 0x7FFD vm.cpu.regs.rip beyond))
          (unfold after_cycle in ground arith)
    | inr inside ↦ elim (Bool-cases (overflows vm)) [
      | inl large ↦
          run_step fuel vm (crash signed_overflow) on (cycle-overflow vm f large)
            (unfold after_cycle in ground arith)
      | inr fits ↦ executes on (ground arith) fits
    ]
  ]
]
  where
    executes :
        vm.cpu.halt ≡ false → vm.cpu.regs.rip ≤ 0x7FFD → overflows vm ≡ false → Ends (suc fuel) vm
    executes on inside fits =
        let (op, value, e) = execute-decode (advance vm) (fetched vm) in
        let code = straight op vm.cpu.regs.rip f.valid.rip_even inside value in
        straight_round fuel vm (handler op (advance vm) (decode (fetched vm))) on inside
          (cycle-running f on inside ∙ e) (cycle-IsWellFormed vm f fits)
          (handler-KeptVm op (advance vm) (fetched vm) code (advance-IsWellFormed f inside) top)
          λ after g kept same next.
            rest after g (kept ∙ top) (subst IsStraight (sym same) straight) next inside

straight_run :
    (fuel : ℕ) (vm : Vm)
    → IsWellFormed vm
    → vm.cpu.regs.rsp ≡ stack_end
    → IsStraight vm.mem
    → 0x7FFE ≤ vm.cpu.regs.rip + 2 * fuel
    → Ends (suc fuel) vm
straight_run zero vm f top straight near =
    straight_from zero vm f top straight λ after g t c next inside. absurd (omega arith)
straight_run (suc fuel) vm f top straight near =
    straight_from (suc fuel) vm f top straight
      λ after g t c next inside. straight_run fuel after g t c (omega arith)

-- From a well-formed machine with an empty stack, which has at its even addresses up to 0x7FFD only
-- words of MOV, LOAD, RET, the arithmetic opcodes and CMP, the loop of `rvm_vm_run` ends within
-- 16384 cycles.
pub straight_ends :
    (vm : Vm)
    → IsWellFormed vm
    → vm.cpu.regs.rsp ≡ stack_end
    → IsStraight vm.mem
    → run 0x4000 vm ≢ out_of_fuel
straight_ends vm f top straight = straight_run 0x3FFF vm f top straight (omega arith)
