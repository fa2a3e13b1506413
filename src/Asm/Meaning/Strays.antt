-- ===== src/Asm/Meaning/Strays.antt =====
-- Executions that end and executions that stray.
use rocketvm.Base.{ℕ, ◌*◌, get_elem?, some, ◌≡◌, arith, subst}
use rocketvm.Exec.{Exec}
use rocketvm.Memory.{Memory}
use rocketvm.Cpu.State.{Vm}
use rocketvm.Cpu.Cycle.{advance}
use rocketvm.Vm.{Outcome}
use rocketvm.Asm.Program.{AsmInstr, Program}
use rocketvm.Asm.Meaning.{means}
use rocketvm.Asm.Meaning.Execution.{
  IsAt, Executes, stops, leaves, overflows, steps, Strays, here, later,
}

module _ (program : Program) (code : Memory) where
  -- A machine is at one instruction at most, which has one meaning.
  one_meaning :
      {vm : Vm} {k k' : ℕ} {instr instr' : AsmInstr} {m m' : Exec Vm}
      → IsAt program code vm k instr
      → IsAt program code vm k' instr'
      → means program instr.opcode instr.opr1 instr.opr2 (advance vm) ≡ some m
      → means program instr'.opcode instr'.opr1 instr'.opr2 (advance vm) ≡ some m'
      → m ≡ m'
  one_meaning {vm} {k} {k'} {instr} {instr'} {m} {m'} at at' e e' =
      let (p, q) : (vm.cpu.regs.rip ≡ 2 * k) × (vm.cpu.regs.rip ≡ 2 * k') = (at.rip, at'.rip) in
      let place : k ≡ k' = omega arith in
      let there = subst (λ j. get_elem? program.instrs j ≡ some instr) place at.listed in
      let found' = at'.listed in
      let same : instr ≡ instr' = cc in
      let both = subst (λ i. means program i.opcode i.opr1 i.opr2 (advance vm) ≡ some m) same e in
      cc

  -- An execution that ends does not stray.
  pub Executes-not-Strays :
      {vm : Vm} {o : Outcome} → Executes program code vm o → Strays program code vm → ⊥
  Executes-not-Strays (stops h) (here go near lost) = cc
  Executes-not-Strays (stops h) (later at e s) = let go = at.running in cc
  Executes-not-Strays (leaves go beyond) (here on near lost) = omega arith
  Executes-not-Strays (leaves go beyond) (later at e s) = let near = at.inside in omega arith
  Executes-not-Strays (overflows {k = k} {instr = instr} at e) (here go near lost) = lost k instr at
  Executes-not-Strays (overflows at e) (later at' e' s) =
      let same = one_meaning at at' e e' in ground arith
  Executes-not-Strays (steps {k = k} {instr = instr} at e r) (here go near lost) = lost k instr at
  Executes-not-Strays (steps {after = after} at e r) (later {after = after'} at' e' s) =
      let same : after' ≡ after = let m = one_meaning at at' e e' in cc in
      Executes-not-Strays r (subst (Strays program code) same s)
