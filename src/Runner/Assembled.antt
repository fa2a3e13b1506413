-- ===== src/Runner/Assembled.antt =====
-- What `rocketrun` does with an image that `rocketasm` has written.
use rocketvm.Base.{
  ℕ, ◌+◌, ◌<◌, ◌≤◌, Bool, true, List, ◌∷◌, length, Option, some, ◌≡◌, ◌≢◌, ◌⊎◌, inl, inr, refl, sym,
  ap, ◌∙◌, arith,
}
use rocketvm.Exec.{ok, Crash}
use rocketvm.Cpu.State.{Vm}
use rocketvm.Cpu.Cycle.{Status, success, failure}
use rocketvm.Vm.{read_file, load, Outcome, returned, crashed, out_of_fuel, run}
use rocketvm.Vm
use rocketvm.Vm.Load.{load-accepts}
use rocketvm.Runner.{exits, crashes, after_run, after_load, Host, run_file, main}
use rocketvm.Asm.Program.{Bytes, Program, create}
use rocketvm.Asm.Parser.{done, parse}
use rocketvm.Asm.Emitter.Image.{length-image_of}
use rocketvm.Asm.Meaning.Execution.{Executes, Strays}
use rocketvm.Asm.Main.{assemble}
use rocketvm.Asm.Main.Sound.{assemble-written}
use rocketvm.Asm.Main.Loaded.{length-Words}
use rocketvm.Asm.Main.Execution.{run-Executes}

-- A file that is readable under the first argument and can be loaded is run.
main-load :
    (fuel : ℕ) (host : Host) (name path : List ℕ) (others : List (List ℕ))
    → host.readable path ≡ true
    → host.allocates ≡ true
    → (load Vm.create (host.file path)).1 ≡ success
    → main fuel host (name ∷ path ∷ others)
      ≡ after_run (run fuel (load Vm.create (host.file path)).0)
unfolding main run_file
main-load fuel host name path others readable allocates loads =
    rw (readable, allocates) (loaded (load Vm.create (host.file path)) loads)
  where
    loaded : (r : Vm × Status) → r.1 ≡ success → after_load fuel r ≡ after_run (run fuel r.0)
    loaded (vm, success) e = unfold after_load in refl
    loaded (vm, failure) e = absurd (ground arith)

-- Only a run that has halted exits with 0.
after_run-success :
    (o : Outcome) → after_run o ≡ exits success → (vm : Vm) × (o ≡ returned vm success)
unfolding after_run
after_run-success (returned vm success) h = (vm, refl)
after_run-success (returned vm failure) h = absurd (ground arith)
after_run-success (crashed c) h = absurd (ground arith)
after_run-success out_of_fuel h = absurd (ground arith)

-- The image of a program that has an instruction can be loaded.
assembled-loads :
    (room : ℕ → Bool) (file : Option Bytes) (text image : Bytes) (program : Program)
    → read_file file ≡ some text
    → parse room text create ≡ done program
    → assemble room true file ≡ ok (image, success)
    → 0 < length program.instrs
    → length program.instrs ≤ 0x8000
    → (load Vm.create (some image)).1 ≡ success
assembled-loads room file text image program read parsed made some_instr fits =
    let (text', program', ws, read', parsed', valid, known, words, same) =
      assemble-written room file image made in
    let one_text : text' ≡ text = cc in
    let parsed_too : parse room text create ≡ done program' =
      ap (λ t. parse room t create) (sym one_text) ∙ parsed' in
    let one_program : program' ≡ program = cc in
    let long = length-Words program' words ∙ ap (λ p. length p.instrs) one_program in
    let size = ap length same ∙ length-image_of ws in
    (load-accepts Vm.create image (omega arith) (omega arith)).0

-- Where the assembler, with its output file opened, returns 0 for a text that is parsed to a
-- program of 1 to 32768 instructions, and `rocketrun` is started with a path to the written image
-- as its first argument, which is readable, and gets its machine: if the execution of the program
-- by the meanings of its instructions halts, `main` exits with 0, with enough fuel and with more;
-- if it leaves the program region, with -1; if it ends in a crash, `main` crashes likewise. If
-- `main` exits with 0, the execution halts, or it strays. Arguments behind the first change nothing
-- of this.
pub main-assemble :
    (room : ℕ → Bool) (file : Option Bytes) (text image : Bytes) (program : Program) (host : Host)
    (name path : List ℕ) (others : List (List ℕ))
    → read_file file ≡ some text
    → parse room text create ≡ done program
    → assemble room true file ≡ ok (image, success)
    → 0 < length program.instrs
    → length program.instrs ≤ 0x8000
    → host.readable path ≡ true
    → host.allocates ≡ true
    → host.file path ≡ some image
    → let vm = (load Vm.create (some image)).0 in
      let run_main = λ (fuel : ℕ). main fuel host (name ∷ path ∷ others) in
      ((after : Vm) (status : Status)
        → Executes program vm.mem vm (returned after status)
        → (fuel : ℕ) × ((extra : ℕ) → run_main (fuel + extra) ≡ exits status))
      × ((c : Crash)
          → Executes program vm.mem vm (crashed c)
          → (fuel : ℕ) × ((extra : ℕ) → run_main (fuel + extra) ≡ crashes c))
      × ((fuel : ℕ)
          → run_main fuel ≡ exits success
          → ((after : Vm) × Executes program vm.mem vm (returned after success))
            ⊎ Strays program vm.mem vm)
main-assemble room file text image program host name path others read parsed made some_instr fits
      readable allocates found =
    (
      λ after status execution.
          let (fuel, ends) = (runs (returned after status) (ground arith)).0 execution in
          (
            fuel,
            λ extra. started (fuel + extra) ∙ ap after_run (ends extra) ∙ unfold after_run in refl,
          ),
      λ c execution.
          let (fuel, ends) = (runs (crashed c) (ground arith)).0 execution in
          (
            fuel,
            λ extra. started (fuel + extra) ∙ ap after_run (ends extra) ∙ unfold after_run in refl,
          ),
      λ fuel e.
          let (after, halts) = after_run-success (run fuel vm) (sym (started fuel) ∙ e) in
          by_execution after ((runs (returned after success) (ground arith)).1 (fuel, halts)),
    )
  where
    vm : Vm
    vm = (load Vm.create (some image)).0

    loads : (load Vm.create (some image)).1 ≡ success
    loads = assembled-loads room file text image program read parsed made some_instr fits

    runs :
        (o : Outcome)
        → o ≢ out_of_fuel
        → (Executes program vm.mem vm o → (fuel : ℕ) × ((extra : ℕ) → run (fuel + extra) vm ≡ o))
          × ((fuel : ℕ) × (run fuel vm ≡ o)
              → Executes program vm.mem vm o ⊎ Strays program vm.mem vm)
    runs o ends =
        let (there, back, never) =
          run-Executes room file text image program o read parsed made fits ends in
        (there, back)

    by_execution :
        (after : Vm)
        → Executes program vm.mem vm (returned after success) ⊎ Strays program vm.mem vm
        → ((after : Vm) × Executes program vm.mem vm (returned after success))
          ⊎ Strays program vm.mem vm
    by_execution after (inl execution) = inl (after, execution)
    by_execution after (inr strays) = inr strays

    started : (fuel : ℕ) → main fuel host (name ∷ path ∷ others) ≡ after_run (run fuel vm)
    started fuel =
        main-load fuel host name path others readable allocates
          (ap (λ f. (load Vm.create f).1) found ∙ loads)
        ∙ ap (λ f. after_run (run fuel (load Vm.create f).0)) found
