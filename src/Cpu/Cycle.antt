-- ===== src/Cpu/Cycle.antt =====
-- rocketvm/cpu/cpu.c: the table of handlers, `rvm_cpu_execute` and `rvm_cpu_cycle`.
pub mod Invariant
pub mod Registers
pub mod Machine
pub mod Safety
use rocketvm.Base.{ℕ, ◌+◌, ◌-◌, ◌%◌, ◌^◌, Option, none, some, leb, ltb, if◌then◌else◌}
use rocketvm.Exec.{Exec, ok, ◌>>=◌}
use rocketvm.Isa.Opcode.{
  Opcode, opcode_of, mov, load, store, add, sub, mul, div, modulo, shl, shr, cmp, jmp, jz, jnz,
  call, ret,
}
use rocketvm.Isa.Instr.{Instr}
use rocketvm.Isa.Decode.{decode}
use rocketvm.Memory.{program_end, read_uint16}
use rocketvm.Cpu.State.{Cpu, Vm, op_count, instruction_size, set_rip, fault}
use rocketvm.Cpu.Alu.{exec_add, exec_sub, exec_mul, exec_div, exec_mod, exec_shl, exec_shr}
use rocketvm.Cpu.Data.{exec_mov}
use rocketvm.Cpu.Transfer.{exec_load, exec_store}
use rocketvm.Cpu.Ctrlf.{exec_cmp, exec_jmp, exec_jz, exec_jnz, exec_call, exec_ret}

-- The `int` that the functions return: 0 or -1.
pub data Status : Type 0 where
  success failure : Status

-- A handler that leaves the memory alone.
abbrev pub on_cpu : Vm → Cpu → Exec Vm
on_cpu vm cpu = ok (record vm { cpu = cpu })

-- `rvm_op_handlers`, by enumerator.
unfoldable pub handler : Opcode → Vm → Instr → Exec Vm
handler mov vm instr = on_cpu vm (exec_mov vm.cpu instr)
handler load vm instr = exec_load vm instr
handler store vm instr = exec_store vm instr
handler add vm instr = on_cpu vm (exec_add vm.cpu instr)
handler sub vm instr = on_cpu vm (exec_sub vm.cpu instr)
handler mul vm instr = do cpu ← exec_mul vm.cpu instr; on_cpu vm cpu
handler div vm instr = on_cpu vm (exec_div vm.cpu instr)
handler modulo vm instr = on_cpu vm (exec_mod vm.cpu instr)
handler shl vm instr = on_cpu vm (exec_shl vm.cpu instr)
handler shr vm instr = on_cpu vm (exec_shr vm.cpu instr)
handler cmp vm instr = on_cpu vm (exec_cmp vm.cpu instr)
handler jmp vm instr = on_cpu vm (exec_jmp vm.cpu instr)
handler jz vm instr = on_cpu vm (exec_jz vm.cpu instr)
handler jnz vm instr = on_cpu vm (exec_jnz vm.cpu instr)
handler call vm instr = exec_call vm instr
handler ret vm instr = exec_ret vm instr

abbrev pub faulted : Vm → Vm × Status
faulted vm = (record vm { cpu = fault vm.cpu }, failure)

-- The call of a handler, or the fault on a missing one.
unfoldable pub dispatch : Option Opcode → Vm → Instr → Exec (Vm × Status)
dispatch none vm instr = ok (faulted vm)
dispatch (some op) vm instr = do after ← handler op vm instr; ok (after, success)

-- `rvm_cpu_execute`.
unfoldable pub execute : Vm → Instr → Exec (Vm × Status)
execute vm instr =
    if leb op_count instr.opcode
    then ok (faulted vm)
    else dispatch (opcode_of instr.opcode) vm instr

-- `cpu->regs.rip += RVM_CPU_INSTRUCTION_SIZE`.
abbrev pub advance : Vm → Vm
advance vm = record vm { cpu = set_rip ((vm.cpu.regs.rip + instruction_size) % 2 ^ 16) vm.cpu }

-- `rvm_cpu_cycle`: fetch, decode, advance RIP, execute.
unfoldable pub cycle : Vm → Exec (Vm × Status)
cycle vm =
    let run = (do
      instr_bin ← read_uint16 vm.mem vm.cpu.regs.rip
      execute (advance vm) (decode instr_bin)) in
    if vm.cpu.halt
    then ok (vm, success)
    else if ltb (program_end - 2) vm.cpu.regs.rip
    then ok (vm, failure)
    else run
