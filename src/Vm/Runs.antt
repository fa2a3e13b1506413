-- ===== src/Vm/Runs.antt =====
-- The loop of `rvm_vm_run` against a relation with no fuel, and what holds when the loop ends.
use rocketvm.Base.{
  ℕ, zero, suc, ◌+◌, ◌≤◌, true, false, not, ◌&&◌, ltb, if◌then◌else◌, ◌≡◌, ◌≢◌, refl, sym, subst,
  ◌∙◌, arith, Bool-cases, inl, inr, ◌⊎◌,
}
use native.Mathlib.Nat.{add_comm}
use Prim.Native.Nat.add
use rocketvm.Exec.{Exec, ok, crash, Crash, signed_overflow, Returns}
use rocketvm.Cpu.State.{Vm}
use rocketvm.Cpu.Cycle.{Status, success, failure, cycle}
use rocketvm.Cpu.Cycle.Invariant.{IsWellFormed}
use rocketvm.Cpu.Cycle.Safety.{
  GoodCycle, overflows, cycle-IsWellFormed, cycle-overflow, cycle-beyond,
}
use rocketvm.Vm.{Outcome, returned, crashed, out_of_fuel, after_cycle, run}

-- `Runs vm o`: the loop, started in `vm`, ends as `o` says. An endless run has no derivation.
pub data Runs : Vm → Outcome → Type 0 where
  halted : {vm : Vm} → vm.cpu.halt ≡ true → Runs vm (returned vm success)
  fails :
      {vm vm' : Vm}
      → vm.cpu.halt ≡ false
      → cycle vm ≡ ok (vm', failure)
      → Runs vm (returned vm' failure)
  crashes : {vm : Vm} {c : Crash} → vm.cpu.halt ≡ false → cycle vm ≡ crash c → Runs vm (crashed c)
  again :
      {vm vm' : Vm} {o : Outcome}
      → vm.cpu.halt ≡ false
      → cycle vm ≡ ok (vm', success)
      → Runs vm' o
      → Runs vm o

after_cycle-Runs :
    {vm : Vm} {o : Outcome} (rest : Vm → Outcome)
    → ((vm' : Vm) → rest vm' ≡ o → Runs vm' o)
    → (m : Exec (Vm × Status)) → vm.cpu.halt ≡ false
    → cycle vm ≡ m
    → after_cycle rest m ≡ o
    → Runs vm o
unfolding after_cycle
after_cycle-Runs rest ih (crash c) run_on e h = subst (Runs _) h (crashes run_on e)
after_cycle-Runs rest ih (ok (vm', failure)) run_on e h = subst (Runs _) h (fails run_on e)
after_cycle-Runs rest ih (ok (vm', success)) run_on e h = again run_on e (ih vm' h)

-- What the loop returns within its fuel, the relation derives.
pub run-Runs : (fuel : ℕ) (vm : Vm) (o : Outcome) → o ≢ out_of_fuel → run fuel vm ≡ o → Runs vm o
unfolding run
run-Runs zero vm o ne h = elim (Bool-cases vm.cpu.halt) [
  | inl stop ↦ subst (Runs vm) (ground arith) (halted stop)
  | inr go ↦ absurd (ne (ground arith))
]
run-Runs (suc fuel) vm o ne h = elim (Bool-cases vm.cpu.halt) [
  | inl stop ↦ subst (Runs vm) (ground arith) (halted stop)
  | inr go ↦
      after_cycle-Runs (run fuel) (λ vm' e. run-Runs fuel vm' o ne e) (cycle vm) go refl
        (ground arith)
]

run-halted : (fuel : ℕ) (vm : Vm) → vm.cpu.halt ≡ true → run fuel vm ≡ returned vm success
unfolding run
run-halted zero vm h = ground arith
run-halted (suc fuel) vm h = ground arith

run-suc :
    (fuel extra : ℕ) (vm : Vm)
    → vm.cpu.halt ≡ false
    → run (suc fuel + extra) vm ≡ after_cycle (run (fuel + extra)) (cycle vm)
unfolding run
run-suc fuel extra vm h = rw (add.suc fuel extra) (ground arith)

-- A derivation bounds the cycles: with that fuel or more the loop ends the same way.
pub Runs-run :
    {vm : Vm} {o : Outcome} → Runs vm o → (fuel : ℕ) × ((extra : ℕ) → run (fuel + extra) vm ≡ o)
unfolding after_cycle
Runs-run {vm} (halted stop) = (0, λ extra. run-halted (0 + extra) vm stop)
Runs-run {vm} (fails go e) = (1, λ extra. run-suc 0 extra vm go ∙ rw e refl)
Runs-run {vm} (crashes go e) = (1, λ extra. run-suc 0 extra vm go ∙ rw e refl)
Runs-run {vm} (again go e r) =
    let (fuel, h) = Runs-run r in (suc fuel, λ extra. run-suc fuel extra vm go ∙ rw e (h extra))

-- No machine ends in two ways: two outcomes that `Runs` derives for a machine are equal.
pub Runs-unique : {vm : Vm} {o o' : Outcome} → Runs vm o → Runs vm o' → o ≡ o'
Runs-unique {vm} r r' =
    let (fuel, h) = Runs-run r in
    let (fuel', h') = Runs-run r' in sym (h fuel') ∙ rw (add_comm fuel fuel') (h' fuel)

-- What holds when the loop has ended. A return of 0 means that the processor has halted, a return of
-- -1 that RIP has passed the last instruction, and the only crash is the overflow of a product.
abbrev pub GoodOutcome : Outcome → Type 0
GoodOutcome (returned vm success) = IsWellFormed vm × (vm.cpu.halt ≡ true)
GoodOutcome (returned vm failure) =
    IsWellFormed vm × (vm.cpu.halt ≡ false) × (0x7FFE ≤ vm.cpu.regs.rip)
GoodOutcome (crashed c) = c ≡ signed_overflow
GoodOutcome out_of_fuel = ⊥

good_cycle : {vm : Vm} → IsWellFormed vm → (overflows vm ≡ true) ⊎ Returns (GoodCycle vm) (cycle vm)
good_cycle {vm} f = elim (Bool-cases (overflows vm)) [
  | inl big ↦ inl big
  | inr small ↦ inr (cycle-IsWellFormed vm f small)
]

-- A cycle that returns leaves a well-formed machine.
pub cycled-IsWellFormed :
    {vm vm' : Vm} {status : Status}
    → IsWellFormed vm
    → cycle vm ≡ ok (vm', status)
    → IsWellFormed vm'
cycled-IsWellFormed {vm} f e = elim (good_cycle f) [
  | inl big ↦ cc (cycle-overflow vm f big)
  | inr good ↦ (rw e at good).0
]

beyond_of_failure :
    (vm : Vm)
    → vm.cpu.halt ≡ false
    → failure ≡ (if not vm.cpu.halt && ltb 0x7FFD vm.cpu.regs.rip then failure else success)
    → 0x7FFE ≤ vm.cpu.regs.rip
beyond_of_failure vm go h = ground arith

failed :
    (vm : Vm) {vm' : Vm}
    → IsWellFormed vm
    → vm.cpu.halt ≡ false
    → cycle vm ≡ ok (vm', failure)
    → 0x7FFE ≤ vm.cpu.regs.rip
    → GoodOutcome (returned vm' failure)
failed vm {vm'} f go e beyond =
    let same : vm ≡ vm' = cc (cycle-beyond vm go beyond) in
    subst (λ m. GoodOutcome (returned m failure)) same (f, go, beyond)

-- From a well-formed machine, each outcome of the loop is a return of 0 with the processor halted,
-- a return of -1 with the processor running and RIP at 0x7FFE or beyond, both with a well-formed
-- machine, or a signed overflow.
pub Runs-GoodOutcome : {vm : Vm} {o : Outcome} → Runs vm o → IsWellFormed vm → GoodOutcome o
Runs-GoodOutcome (halted stop) f = (f, stop)
Runs-GoodOutcome {vm} (fails go e) f = elim (good_cycle f) [
  | inl big ↦ cc (cycle-overflow vm f big)
  | inr good ↦ failed vm f go e (beyond_of_failure vm go ((rw e at good).1))
]
Runs-GoodOutcome {vm} (crashes go e) f = elim (good_cycle f) [
  | inl big ↦ cc (cycle-overflow vm f big)
  | inr good ↦ absurd (rw e at good)
]
Runs-GoodOutcome (again go e r) f = Runs-GoodOutcome r (cycled-IsWellFormed f e)
