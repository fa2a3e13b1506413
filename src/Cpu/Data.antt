-- ===== src/Cpu/Data.antt =====
-- rocketvm/cpu/cpu_data.c.
use rocketvm.Base.{bit_and, ◌==◌, if◌then◌else◌}
use rocketvm.Isa.Instr.{Instr, mode_imm_or_addr, mode_reg}
use rocketvm.Cpu.State.{Cpu, set_rv}

-- `rvm_cpu_exec_mov`; a mode other than the two changes nothing.
unfoldable pub exec_mov : Cpu → Instr → Cpu
exec_mov cpu instr =
    if instr.mode == mode_imm_or_addr
    then set_rv instr.reg instr.operand cpu
    else if instr.mode == mode_reg
    then set_rv instr.reg (cpu.regs.rv (bit_and instr.operand 0x7)) cpu
    else cpu
