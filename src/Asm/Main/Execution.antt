-- ===== src/Asm/Main/Execution.antt =====
-- From a source text to a whole run of its image, by the meanings of the instructions.
use rocketvm.Base.{
  ℕ, ◌+◌, ◌≤◌, Bool, true, length, AllBelow, Option, some, ◌≡◌, ◌≢◌, ◌⊎◌, sym, subst,
}
use rocketvm.Exec.{ok}
use rocketvm.Cpu.Cycle.{success}
use rocketvm.Cpu.Cycle.Invariant.{IsWellFormed}
use rocketvm.Vm.{read_file, load, Outcome, out_of_fuel, run}
use rocketvm.Vm
use rocketvm.Vm.Runs.{Runs-run, run-Runs}
use rocketvm.Vm.Load.{create-IsWellFormed, load-IsWellFormed}
use rocketvm.Asm.Program.{Bytes, Program, create}
use rocketvm.Asm.Parser.{done, parse}
use rocketvm.Asm.Emitter.Image.{image_of-AllBelow}
use rocketvm.Asm.Meaning.Strays.{Executes-not-Strays}
use rocketvm.Asm.Meaning.Execution.{Executes, Strays, CyclesMean, Executes-Runs, Runs-Executes}
use rocketvm.Asm.Main.{assemble}
use rocketvm.Asm.Main.Sound.{assemble-written}
use rocketvm.Asm.Main.Loaded.{loaded-means}

module _ (room : ℕ → Bool) (file : Option Bytes) (text bytes : Bytes) (program : Program)
    (read : read_file file ≡ some text) (parsed : parse room text create ≡ done program)
    (made : assemble room true file ≡ ok (bytes, success))
    (fits : length program.instrs ≤ 0x8000) where
  loaded-CyclesMean : CyclesMean program (load Vm.create (some bytes)).0.mem
  loaded-CyclesMean vm k instr f at =
      loaded-means room file text bytes program instr k vm read parsed made fits at.listed f
        at.running at.rip at.inside at.kept

  loaded-IsWellFormed : IsWellFormed (load Vm.create (some bytes)).0
  loaded-IsWellFormed =
      let (text', program', ws, read', parsed', valid, known, words, same) =
        assemble-written room file bytes made in
      load-IsWellFormed Vm.create bytes create-IsWellFormed
        (subst (AllBelow 256) (sym same) (image_of-AllBelow ws))

-- Where a text is read and parsed to a program of at most 32768 instructions, and the assembler,
-- with its output file opened, returns 0, on a new machine that has loaded the written image: if
-- the execution of the program by the meanings of its instructions ends (with a halt, beyond the
-- program region, or in a signed overflow), the loop of `rvm_vm_run` ends with enough fuel, and
-- with more, in the same way and with the same machine. However that loop ends within its fuel, the
-- execution ends the same way, or it strays: it comes to a place that is no instruction of the
-- program with its word kept. An execution that ends does not stray.
pub run-Executes :
    (room : ℕ → Bool) (file : Option Bytes) (text bytes : Bytes) (program : Program) (o : Outcome)
    → read_file file ≡ some text
    → parse room text create ≡ done program
    → assemble room true file ≡ ok (bytes, success)
    → length program.instrs ≤ 0x8000
    → o ≢ out_of_fuel
    → let vm = (load Vm.create (some bytes)).0 in
      (Executes program vm.mem vm o → (fuel : ℕ) × ((extra : ℕ) → run (fuel + extra) vm ≡ o))
      × ((fuel : ℕ) × (run fuel vm ≡ o) → Executes program vm.mem vm o ⊎ Strays program vm.mem vm)
      × (Executes program vm.mem vm o → Strays program vm.mem vm → ⊥)
run-Executes room file text bytes program o read parsed made fits ends =
    let code = (load Vm.create (some bytes)).0.mem in
    let cycles = loaded-CyclesMean room file text bytes program read parsed made fits in
    let formed = loaded-IsWellFormed room file text bytes program read parsed made fits in
    (
      λ execution. Runs-run (Executes-Runs program code cycles formed execution),
      λ (fuel, e). Runs-Executes program code cycles formed (run-Runs fuel _ o ends e),
      Executes-not-Strays program code,
    )
