-- ===== src/Cpu/Transfer.antt =====
-- rocketvm/cpu/cpu_mem.c: LOAD and STORE.
pub mod Laws
use rocketvm.Base.{ℕ, ◌-◌, bit_and, not, ◌==◌, leb, if◌then◌else◌}
use rocketvm.Exec.{Exec, ok, ◌>>=◌}
use rocketvm.Isa.Instr.{Instr, mode_imm_or_addr, mode_reg}
use rocketvm.Memory.{memory_size, read_uint16, write_uint16}
use rocketvm.Cpu.State.{Cpu, Vm, set_rv, fault}

-- The address that both handlers compute; a mode other than the two leaves 0.
unfoldable pub transfer_address : Cpu → Instr → ℕ
transfer_address cpu instr =
    if instr.mode == mode_imm_or_addr
    then instr.operand
    else if instr.mode == mode_reg
    then cpu.regs.rv (bit_and instr.operand 0x7)
    else 0

-- `rvm_cpu_exec_load`.
unfoldable pub exec_load : Vm → Instr → Exec Vm
exec_load vm instr =
    let addr = transfer_address vm.cpu instr in
    let loaded = (do
      value ← read_uint16 vm.mem addr
      ok (record vm { cpu = set_rv instr.reg value vm.cpu })) in
    if leb (memory_size - 1) addr
    then ok (record vm { cpu = fault vm.cpu })
    else if not (bit_and addr 1 == 0)
    then ok (record vm { cpu = fault vm.cpu })
    else loaded

-- `rvm_cpu_exec_store`.
unfoldable pub exec_store : Vm → Instr → Exec Vm
exec_store vm instr =
    let addr = transfer_address vm.cpu instr in
    let stored = (do
      mem ← write_uint16 vm.mem addr (vm.cpu.regs.rv instr.reg)
      ok (record vm { mem = mem })) in
    if leb (memory_size - 1) addr
    then ok (record vm { cpu = fault vm.cpu })
    else if not (bit_and addr 1 == 0)
    then ok (record vm { cpu = fault vm.cpu })
    else stored
