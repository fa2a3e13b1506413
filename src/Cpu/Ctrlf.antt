-- ===== src/Cpu/Ctrlf.antt =====
-- rocketvm/cpu/cpu_ctrlf.c: CMP, jumps, CALL and RET.
pub mod Laws
pub mod Stack
pub mod Pairs
pub mod Frames
use rocketvm.Base.{ℕ, ◌+◌, ◌-◌, ◌%◌, ◌^◌, bit_and, bit_or, ◌>>>◌, not, ◌==◌, ltb, if◌then◌else◌}
use rocketvm.Base.Int.{ℤ, pos, signed16, unsigned16, ◌+ℤ◌}
use rocketvm.Exec.{Exec, ok, ◌>>=◌}
use rocketvm.Isa.Instr.{Instr, mode_imm_or_addr}
use rocketvm.Memory.{memory_size, stack_start, stack_end, read_uint16, write_uint16}
use rocketvm.Cpu.State.{
  Cpu, Vm, instruction_size, set_rip, set_rsp, set_flags, set_halt, fault, source_value,
}
use rocketvm.Cpu.Flags.{flag_rz, check}
use rocketvm.Cpu.Alu.{sub_flags}

-- `rvm_cpu_exec_cmp`.
unfoldable pub exec_cmp : Cpu → Instr → Cpu
exec_cmp cpu instr =
    set_flags (sub_flags (cpu.regs.rv instr.reg) (source_value cpu instr) cpu.regs.flags) cpu

-- The signed offset in the low eleven bits of a control-flow word.
unfoldable pub jump_offset : ℕ → ℤ
jump_offset raw_word =
    let raw = bit_and raw_word 0x7FF in
    if not (bit_and raw 0x400 == 0) then signed16 (bit_or raw 0xF800) else signed16 raw

-- The target that a jump or call computes: relative to RIP, or the register that the word names.
unfoldable pub jump_target : Cpu → Instr → ℕ
unfolding jump_offset ◌+ℤ◌
jump_target cpu instr =
    let mode = bit_and (instr.raw >>> 11) 0x1 in
    if mode == mode_imm_or_addr
    then unsigned16 (pos cpu.regs.rip +ℤ jump_offset instr.raw)
    else cpu.regs.rv (bit_and instr.raw 0x7)

-- `rvm_cpu_exec_jmp`.
unfoldable pub exec_jmp : Cpu → Instr → Cpu
exec_jmp cpu instr =
    let addr = jump_target cpu instr in
    if ltb (memory_size - instruction_size) addr
    then fault cpu
    else if not (bit_and addr 1 == 0)
    then fault cpu
    else set_rip addr cpu

-- `rvm_cpu_exec_jz`.
unfoldable pub exec_jz : Cpu → Instr → Cpu
exec_jz cpu instr = if check flag_rz cpu.regs.flags then exec_jmp cpu instr else cpu

-- `rvm_cpu_exec_jnz`.
unfoldable pub exec_jnz : Cpu → Instr → Cpu
exec_jnz cpu instr = if not (check flag_rz cpu.regs.flags) then exec_jmp cpu instr else cpu

-- `rvm_cpu_exec_call`: the return address is written below the lowered stack pointer.
unfoldable pub exec_call : Vm → Instr → Exec Vm
exec_call vm instr =
    let cpu = vm.cpu in
    let addr = jump_target cpu instr in
    let rsp = (cpu.regs.rsp + 2 ^ 16 - 2) % 2 ^ 16 in
    let called = (do
      mem ← write_uint16 vm.mem rsp cpu.regs.rip
      ok (record { cpu = set_rip addr (set_rsp rsp cpu); mem = mem })) in
    if ltb (memory_size - instruction_size) addr
    then ok (record vm { cpu = fault cpu })
    else if not (bit_and addr 1 == 0)
    then ok (record vm { cpu = fault cpu })
    else if ltb cpu.regs.rsp (stack_start + 2)
    then ok (record vm { cpu = fault cpu })
    else called

-- `rvm_cpu_exec_ret` past its test for an empty stack, from the address that it has popped.
unfoldable pub ret_to : Cpu → ℕ → Cpu
ret_to cpu addr =
    let popped = set_rsp ((cpu.regs.rsp + 2) % 2 ^ 16) cpu in
    if ltb (memory_size - instruction_size) addr
    then fault popped
    else if not (bit_and addr 1 == 0)
    then fault popped
    else set_rip addr popped

-- `rvm_cpu_exec_ret`: on an empty stack it halts.
unfoldable pub exec_ret : Vm → Instr → Exec Vm
exec_ret vm instr =
    let returned = (do
      addr ← read_uint16 vm.mem vm.cpu.regs.rsp
      ok (record vm { cpu = ret_to vm.cpu addr })) in
    if ltb (stack_end - 1) vm.cpu.regs.rsp
    then ok (record vm { cpu = set_halt vm.cpu })
    else returned
