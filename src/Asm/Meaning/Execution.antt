-- ===== src/Asm/Meaning/Execution.antt =====
-- The execution of a whole program by the meanings of its instructions, and the loop of `rvm_vm_run`.
use rocketvm.Base.{
  ℕ, ◌*◌, ◌/◌, ◌≤◌, true, false, ltb, ltb→lt, ◌==◌, get_elem?, Option, none, some, ◌≡◌, ap, ◌∙◌,
  refl, sym, subst, arith, Bool-cases, inl, inr, ◌⊎◌,
}
use rocketvm.Exec.{Exec, ok, crash, Crash, ◌>>=◌}
use rocketvm.Memory.{Memory}
use rocketvm.Memory.Laws.{word_at}
use rocketvm.Cpu.State.{Vm}
use rocketvm.Cpu.Cycle.{Status, success, failure, advance, cycle}
use rocketvm.Cpu.Cycle.Invariant.{IsWellFormed}
use rocketvm.Cpu.Cycle.Safety.{cycle-beyond}
use rocketvm.Vm.{Outcome, returned, crashed}
use rocketvm.Vm.Runs.{Runs, halted, fails, crashes, again, cycled-IsWellFormed}
use rocketvm.Asm.Program.{AsmInstr, Program}
use rocketvm.Asm.Meaning.{means}

-- The machine runs and is at instruction `k` of the program, whose word in the code has not been
-- written over.
pub record IsAt (program : Program) (code : Memory) (vm : Vm) (k : ℕ) (instr : AsmInstr)
    : Type 0 where
  pub running : vm.cpu.halt ≡ false
  pub rip : vm.cpu.regs.rip ≡ 2 * k
  pub inside : vm.cpu.regs.rip ≤ 0x7FFD
  pub listed : get_elem? program.instrs k ≡ some instr
  pub kept : word_at vm.mem (2 * k) ≡ word_at code (2 * k)

-- `Executes program code vm o`: the program, executed instruction by instruction from the machine
-- `vm`, ends as `o` says. An execution that leaves the program or overwrites what it comes to
-- execute has no derivation.
pub data Executes (program : Program) (code : Memory) : Vm → Outcome → Type 0 where
  stops : {vm : Vm} → vm.cpu.halt ≡ true → Executes program code vm (returned vm success)
  leaves :
      {vm : Vm}
      → vm.cpu.halt ≡ false
      → 0x7FFE ≤ vm.cpu.regs.rip
      → Executes program code vm (returned vm failure)
  overflows :
      {vm : Vm} {k : ℕ} {instr : AsmInstr} {c : Crash}
      → IsAt program code vm k instr
      → means program instr.opcode instr.opr1 instr.opr2 (advance vm) ≡ some (crash c)
      → Executes program code vm (crashed c)
  steps :
      {vm after : Vm} {k : ℕ} {instr : AsmInstr} {o : Outcome}
      → IsAt program code vm k instr
      → means program instr.opcode instr.opr1 instr.opr2 (advance vm) ≡ some (ok after)
      → Executes program code after o
      → Executes program code vm o

-- The execution comes to a place that is no instruction of the program with its word kept.
pub data Strays (program : Program) (code : Memory) : Vm → Type 0 where
  here :
      {vm : Vm}
      → vm.cpu.halt ≡ false
      → vm.cpu.regs.rip ≤ 0x7FFD
      → ((k : ℕ) (instr : AsmInstr) → IsAt program code vm k instr → ⊥)
      → Strays program code vm
  later :
      {vm after : Vm} {k : ℕ} {instr : AsmInstr}
      → IsAt program code vm k instr
      → means program instr.opcode instr.opr1 instr.opr2 (advance vm) ≡ some (ok after)
      → Strays program code after
      → Strays program code vm

-- A cycle at an instruction of the program is its meaning.
abbrev pub CyclesMean : Program → Memory → Type 0
CyclesMean program code =
    (vm : Vm) (k : ℕ) (instr : AsmInstr)
    → IsWellFormed vm
    → IsAt program code vm k instr
    → (m : Exec Vm) × (means program instr.opcode instr.opr1 instr.opr2 (advance vm) ≡ some m)
      × (cycle vm ≡ (m >>= λ after. ok (after, success)))

module _ (program : Program) (code : Memory) (cycles : CyclesMean program code) where
  cycle-means_only :
      (vm : Vm) (k : ℕ) (instr : AsmInstr) (m : Exec Vm)
      → IsWellFormed vm
      → IsAt program code vm k instr
      → means program instr.opcode instr.opr1 instr.opr2 (advance vm) ≡ some m
      → cycle vm ≡ (m >>= λ after. ok (after, success))
  cycle-means_only vm k instr m f at e =
      let (m', e', cycled) = cycles vm k instr f at in
      let same : m' ≡ m = cc in cycled ∙ ap (λ x. x >>= λ after. ok (after, success)) same

  -- An execution is a run of the loop.
  pub Executes-Runs :
      {vm : Vm} {o : Outcome} → IsWellFormed vm → Executes program code vm o → Runs vm o
  Executes-Runs f (stops h) = halted h
  Executes-Runs {vm} f (leaves go beyond) = fails go (cycle-beyond vm go beyond)
  Executes-Runs {vm} f (overflows {k = k} {instr = instr} {c = c} at e) =
      crashes at.running (cycle-means_only vm k instr (crash c) f at e)
  Executes-Runs {vm} f (steps {after = after} {k = k} {instr = instr} at e r) =
      let cycled = cycle-means_only vm k instr (ok after) f at e in
      again at.running cycled (Executes-Runs (cycled-IsWellFormed f cycled) r)

  -- The instruction that the machine is at, where there is one.
  locate :
      (vm : Vm)
      → IsWellFormed vm
      → vm.cpu.halt ≡ false
      → vm.cpu.regs.rip ≤ 0x7FFD
      → ((k : ℕ) × (instr : AsmInstr) × IsAt program code vm k instr)
        ⊎ ((k : ℕ) (instr : AsmInstr) → IsAt program code vm k instr → ⊥)
  locate vm f go inside = among (get_elem? program.instrs half) refl
    where
      half : ℕ
      half = vm.cpu.regs.rip / 2

      place : vm.cpu.regs.rip ≡ 2 * half
      place = let even = f.valid.rip_even in omega arith

      only : (k : ℕ) → vm.cpu.regs.rip ≡ 2 * k → k ≡ half
      only k e = omega arith

      among :
          (o : Option AsmInstr)
          → get_elem? program.instrs half ≡ o
          → ((k : ℕ) × (instr : AsmInstr) × IsAt program code vm k instr)
            ⊎ ((k : ℕ) (instr : AsmInstr) → IsAt program code vm k instr → ⊥)
      among none e = inr λ k instr at.
          let same = only k at.rip in
          let found = subst (λ j. get_elem? program.instrs j ≡ some instr) same at.listed in
          ground arith
      among (some instr) e =
          elim (Bool-cases (word_at vm.mem (2 * half) == word_at code (2 * half))) [
            | inl same ↦ inl (
              half,
              instr,
              record {
                running = go;
                rip = place;
                inside = inside;
                listed = e;
                kept = ground arith;
              },
            )
            | inr other ↦ inr λ k instr' at.
                let kept =
                  subst (λ j. word_at vm.mem (2 * j) ≡ word_at code (2 * j)) (only k at.rip)
                    at.kept in
                ground arith
          ]

  abbrev Followed : Vm → Outcome → Type 0
  Followed vm o = Executes program code vm o ⊎ Strays program code vm

  -- What follows a cycle, where the loop ends as `o` says.
  abbrev Next : Outcome → Exec (Vm × Status) → Type 0
  Next o (crash c) = o ≡ crashed c
  Next o (ok (vm, failure)) = o ≡ returned vm failure
  Next o (ok (vm, success)) = Followed vm o

  follow_meaning :
      {vm : Vm} {k : ℕ} {instr : AsmInstr} (o : Outcome) (m : Exec Vm)
      → IsAt program code vm k instr
      → means program instr.opcode instr.opr1 instr.opr2 (advance vm) ≡ some m
      → Next o (m >>= λ after. ok (after, success))
      → Followed vm o
  follow_meaning {vm} o (crash c) at e n =
      inl (subst (Executes program code vm) (sym n) (overflows at e))
  follow_meaning o (ok after) at e (inl r) = inl (steps at e r)
  follow_meaning o (ok after) at e (inr r) = inr (later at e r)

  follow_cycle :
      (vm : Vm) (o : Outcome)
      → IsWellFormed vm
      → vm.cpu.halt ≡ false
      → Next o (cycle vm)
      → Followed vm o
  follow_cycle vm o f go n = elim (Bool-cases (ltb 0x7FFD vm.cpu.regs.rip)) [
    | inl far ↦
        let beyond : 0x7FFE ≤ vm.cpu.regs.rip = ltb→lt 0x7FFD vm.cpu.regs.rip far in
        let ended : o ≡ returned vm failure = subst (Next o) (cycle-beyond vm go beyond) n in
        inl (subst (Executes program code vm) (sym ended) (leaves go beyond))
    | inr near ↦ inside (ground arith)
  ]
    where
      inside : vm.cpu.regs.rip ≤ 0x7FFD → Followed vm o
      inside near = elim (locate vm f go near) [
        | inl (k, instr, at) ↦
            let (m, e, cycled) = cycles vm k instr f at in
            follow_meaning o m at e (subst (Next o) cycled n)
        | inr lost ↦ inr (here go near lost)
      ]

  -- A run of the loop is an execution, or strays.
  pub Runs-Executes :
      {vm : Vm} {o : Outcome}
      → IsWellFormed vm
      → Runs vm o
      → Executes program code vm o ⊎ Strays program code vm
  Runs-Executes f (halted h) = inl (stops h)
  Runs-Executes {vm} {o} f (fails go e) = follow_cycle vm o f go (subst (Next o) (sym e) refl)
  Runs-Executes {vm} {o} f (crashes go e) = follow_cycle vm o f go (subst (Next o) (sym e) refl)
  Runs-Executes {vm} {o} f (again go e r) =
      follow_cycle vm o f go (subst (Next o) (sym e) (Runs-Executes (cycled-IsWellFormed f e) r))
