-- ===== src/Vm.antt =====
-- rocketvm/vm.c and the file check of rocketvm/common/utility/io.c. `rvm_vm_run` need not end, so
-- the model of its loop takes fuel, one unit for each cycle.
pub mod Runs
pub mod Load
pub mod Straight
use rocketvm.Base.{
  ℕ, zero, suc, ◌+◌, ◌-◌, ◌%◌, Bool, true, false, ltb, if◌then◌else◌, List, [], ◌∷◌, length, Option,
  none, some, update,
}
use rocketvm.Exec.{Exec, ok, crash, Crash}
use rocketvm.Memory.{Memory, memory_size, program_start, stack_end}
use rocketvm.Cpu.State.{Registers, Cpu, Vm}
use rocketvm.Cpu.Cycle.{Status, success, failure, cycle}

-- `rvm_vm_create`, where the allocation succeeds.
abbrev pub create : Vm
create = record {
  cpu = record {
    regs = record { rv = λ i. 0; rip = 0; rsp = stack_end; rsb = 0; flags = 0 };
    halt = false;
  };
  mem = record { bytes = λ i. 0 };
}

-- `rvm_io_read_file`, from what the C library reads of the file: `none` for a call that fails. An
-- empty file is an error.
unfoldable pub read_file : Option (List ℕ) → Option (List ℕ)
read_file none = none
read_file (some []) = none
read_file (some (b ∷ bs)) = some (b ∷ bs)

-- `memcpy(&mem->data[at], bytes, length bytes)`.
unfoldable pub copy_bytes : ℕ → List ℕ → Memory → Memory
copy_bytes at [] mem = mem
copy_bytes at (b ∷ bs) mem = copy_bytes (at + 1) bs (record { bytes = update mem.bytes at b })

-- The size check of `rvm_vm_load`, and the copy.
unfoldable pub load_image : Vm → List ℕ → Vm × Status
load_image vm image =
    if ltb (memory_size - program_start) (length image)
    then (vm, failure)
    else (record vm { mem = copy_bytes program_start image vm.mem }, success)

-- `rvm_vm_load`.
unfoldable pub load : Vm → Option (List ℕ) → Vm × Status
load vm file = elim (read_file file) [ none ↦ (vm, failure) | some image ↦ load_image vm image ]

-- How `rvm_vm_run` ends: by a return, by a crash, or not within the fuel.
pub data Outcome : Type 0 where
  returned : Vm → Status → Outcome
  crashed : Crash → Outcome
  out_of_fuel : Outcome

-- The body of the loop after a cycle; `again` is the rest of the loop.
unfoldable pub after_cycle : (Vm → Outcome) → Exec (Vm × Status) → Outcome
after_cycle again (crash c) = crashed c
after_cycle again (ok (vm, failure)) = returned vm failure
after_cycle again (ok (vm, success)) = again vm

-- `rvm_vm_run`.
unfoldable pub run : ℕ → Vm → Outcome
run zero vm = if vm.cpu.halt then returned vm success else out_of_fuel
run (suc fuel) vm =
    let rest = after_cycle (run fuel) (cycle vm) in
    if vm.cpu.halt then returned vm success else rest
