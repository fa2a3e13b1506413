-- ===== src/Cpu/Ctrlf/Pairs.antt =====
-- Two control-flow instructions in a row: a call and its return, a comparison and its branch.
use rocketvm.Base.{
  ◌+◌, ◌-◌, ◌%◌, ◌^◌, ◌<◌, ◌≤◌, not, ◌==◌, ltb, if◌then◌else◌, ◌≡◌, refl, ◌∙◌, arith, Bool-cases,
  inl, inr, Bool, true, false, leb, not-lt→ltb,
}
use rocketvm.Exec.{ok, ◌>>=◌}
use rocketvm.Isa.Instr.{Instr}
use rocketvm.Memory.{stack_start, stack_end}
use rocketvm.Memory.Laws.{
  IsByteMemory, word_at, with_word, word_at-with_word, with_word-IsByteMemory,
}
use rocketvm.Cpu.State.{Cpu, Vm, source_value}
use rocketvm.Cpu.Flags.{flag_rz, check, flag_word}
use rocketvm.Base.Int.{signed16, ◌-ℤ◌, ◌==ℤ◌}
use rocketvm.Cpu.Alu.Spec.{IsReady, source_value-lt}
use rocketvm.Cpu.Alu.Sums.{sub_flags_lem}
use rocketvm.Cpu.Ctrlf.{jump_target, exec_cmp, exec_jmp, exec_jz, exec_jnz, exec_call, exec_ret}
use rocketvm.Cpu.Ctrlf.Stack.{called, exec_call_lem, exec_ret_lem}

-- For a byte memory, a call to an even 16-bit target, an even 16-bit RIP and room on the stack (RSP
-- between 0xF002 and 0xFEFF): the call and a return right behind it bring the processor back to the
-- state before the call. Of the memory only the word at RSP - 2 has changed, which holds RIP.
pub exec_call-exec_ret :
    (vm : Vm) (i j : Instr)
    → IsByteMemory vm.mem
    → jump_target vm.cpu i < 2 ^ 16
    → jump_target vm.cpu i % 2 ≡ 0
    → vm.cpu.regs.rip < 2 ^ 16
    → vm.cpu.regs.rip % 2 ≡ 0
    → stack_start + 2 ≤ vm.cpu.regs.rsp
    → vm.cpu.regs.rsp ≤ 0xFEFF
    → (exec_call vm i >>= λ vm'. exec_ret vm' j)
      ≡ ok (record vm { mem = with_word vm.mem (vm.cpu.regs.rsp - 2) vm.cpu.regs.rip })
exec_call-exec_ret vm i j bytes target even rip_word rip_even low high =
    let addr = jump_target vm.cpu i in
    let rsp = vm.cpu.regs.rsp in
    let mem = with_word vm.mem (rsp - 2) vm.cpu.regs.rip in
    let room : ltb rsp (stack_start + 2) ≡ false = not-lt→ltb rsp (stack_start + 2) low in
    let full : ltb (stack_end - 1) (rsp - 2) ≡ false =
      not-lt→ltb (stack_end - 1) (rsp - 2) (omega arith) in
    let raised : rsp - 2 + 2 ≡ rsp = omega arith in
    let top : word_at mem (rsp - 2) ≡ vm.cpu.regs.rip =
      word_at-with_word vm.mem (rsp - 2) vm.cpu.regs.rip rip_word in
    let calls : exec_call vm i ≡ ok (called vm addr) =
      exec_call_lem vm i target high ∙ rw (even, room) refl in
    rw calls (
      exec_ret_lem (called vm addr) j
        (with_word-IsByteMemory vm.mem (rsp - 2) vm.cpu.regs.rip bytes) (omega arith)
      ∙ rw (full, top, rip_even, raised) refl)

-- RZ in a register of flags.
check-flag_word : (z n c o : Bool) → check flag_rz (flag_word z n c o) ≡ z
unfolding check
check-flag_word true true true true = refl
check-flag_word z n c o = ground arith

-- CMP leaves RZ set exactly on equal operands.
exec_cmp-check :
    (cpu : Cpu) (i : Instr)
    → IsReady cpu i
    → check flag_rz (exec_cmp cpu i).regs.flags ≡ (cpu.regs.rv i.reg == source_value cpu i)
unfolding exec_cmp
exec_cmp-check cpu i h =
    let d = cpu.regs.rv i.reg in
    let s = source_value cpu i in
    let small = h.words i.reg in
    let small' = source_value-lt h in
    let r = (d + 2 ^ 16 - s) % 2 ^ 16 in
    let zero : (r == 0) ≡ (d == s) = ground arith in
    rw (sub_flags_lem d s cpu.regs.flags small small' h.four_flags) (
      check-flag_word (r == 0) (leb 0x8000 r) (ltb d s)
        (not (signed16 r ==ℤ signed16 d -ℤ signed16 s))
      ∙ zero)

-- For 16-bit registers, four flags and a byte operand: after CMP, JZ jumps exactly where the
-- operands are equal, and JNZ exactly where they differ; otherwise they leave the processor as it
-- is.
pub exec_jz-exec_cmp :
    (cpu : Cpu) (i j : Instr)
    → IsReady cpu i
    → let after = exec_cmp cpu i in
      let equal = cpu.regs.rv i.reg == source_value cpu i in
      (exec_jz after j ≡ (if equal then exec_jmp after j else after))
      × (exec_jnz after j ≡ (if equal then after else exec_jmp after j))
unfolding exec_jz exec_jnz
exec_jz-exec_cmp cpu i j h =
    rw (exec_cmp-check cpu i h) (elim (Bool-cases (cpu.regs.rv i.reg == source_value cpu i)) [
      | inl same ↦ rw same (refl, refl)
      | inr other ↦ rw other (refl, refl)
    ])
