-- ===== src/Runner.antt =====
-- rocketrun/main.c. What a path reads as and the allocation of the machine are parameters; the loop of `rvm_vm_run` takes fuel.
pub mod Assembled
use rocketvm.Base.{ℕ, Bool, not, if◌then◌else◌, List, [], ◌∷◌, Option}
use rocketvm.Exec.{Crash}
use rocketvm.Cpu.State.{Vm}
use rocketvm.Cpu.Cycle.{Status, success, failure}
use rocketvm.Vm.{create, load, Outcome, returned, crashed, out_of_fuel, run}

-- How `main` ends.
pub data Exit : Type 0 where
  exits : Status → Exit
  crashes : Crash → Exit
  out_of_time : Exit

-- The end of `rvm_vm_run`.
unfoldable pub after_run : Outcome → Exit
after_run (returned vm status) = exits status
after_run (crashed c) = crashes c
after_run out_of_fuel = out_of_time

-- The run, where `rvm_vm_load` has returned 0.
unfoldable pub after_load : ℕ → Vm × Status → Exit
after_load fuel (vm, success) = after_run (run fuel vm)
after_load fuel (vm, failure) = exits failure

-- What the system answers: `access` and what can be read, each by the path, and the `malloc` of
-- `rvm_vm_create`.
pub record Host : Type 0 where
  pub readable : List ℕ → Bool
  pub allocates : Bool
  pub file : List ℕ → Option (List ℕ)

-- The part behind the arguments, on the path of the image.
unfoldable pub run_file : ℕ → Host → List ℕ → Exit
run_file fuel host rvm_path =
    if not (host.readable rvm_path)
    then exits failure
    else if not host.allocates
    then exits failure
    else after_load fuel (load create (host.file rvm_path))

-- `main` of rocketrun, on its arguments, the name of the program first.
unfoldable pub main : ℕ → Host → List (List ℕ) → Exit
main fuel host [] = exits success
main fuel host (name ∷ []) = exits success
main fuel host (name ∷ rvm_path ∷ others) = run_file fuel host rvm_path
