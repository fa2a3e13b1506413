-- ===== src/Cpu/State.antt =====
-- rocketvm/cpu/cpu.h, and `rvm_vm_t` of rocketvm/vm.h: registers, processor and machine.
use rocketvm.Base.{ℕ, bit_and, ◌==◌, Bool, true, if◌then◌else◌, Array, update}
use rocketvm.Isa.Instr.{Instr, mode_imm_or_addr}
use rocketvm.Memory.{Memory}

abbrev pub instruction_size : ℕ
instruction_size = 2

abbrev pub op_count : ℕ
op_count = 16

-- `rvm_registers_t`.
pub record Registers : Type 0 where
  pub rv : Array
  pub rip : ℕ
  pub rsp : ℕ
  pub rsb : ℕ
  pub flags : ℕ

-- `rvm_cpu_t`.
pub record Cpu : Type 0 where
  pub regs : Registers
  pub halt : Bool

-- `rvm_vm_t`. A handler gets pointers to both parts, and returns the machine that it leaves.
pub record Vm : Type 0 where
  pub cpu : Cpu
  pub mem : Memory

-- `cpu->regs.rv[i] = value`, and the assignments to the other registers.
abbrev pub set_rv : ℕ → ℕ → Cpu → Cpu
set_rv i value cpu = record cpu { regs = record cpu.regs { rv = update cpu.regs.rv i value } }

abbrev pub set_rip : ℕ → Cpu → Cpu
set_rip value cpu = record cpu { regs = record cpu.regs { rip = value } }

abbrev pub set_rsp : ℕ → Cpu → Cpu
set_rsp value cpu = record cpu { regs = record cpu.regs { rsp = value } }

abbrev pub set_flags : ℕ → Cpu → Cpu
set_flags value cpu = record cpu { regs = record cpu.regs { flags = value } }

-- `cpu->halt = true`; `rvm_cpu_fault` also logs its message.
abbrev pub set_halt : Cpu → Cpu
set_halt cpu = record cpu { halt = true }

-- `rvm_cpu_fault` of rocketvm/cpu/cpu_internal.h; the message goes to the log.
abbrev pub fault : Cpu → Cpu
fault cpu = set_halt cpu

-- The value that an instruction operates with: its immediate, or the register that it names.
unfoldable pub source_value : Cpu → Instr → ℕ
source_value cpu instr =
    if instr.mode == mode_imm_or_addr
    then instr.operand
    else cpu.regs.rv (bit_and instr.operand 0x7)
