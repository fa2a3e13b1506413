-- ===== src/Cpu/Ctrlf/Stack.antt =====
-- Jumps, CALL and RET by the parity of the target and the room on the stack.
use rocketvm.Base.{
  ℕ, ◌+◌, ◌-◌, ◌%◌, ◌^◌, ◌<◌, ◌≤◌, bit_and, not, ◌==◌, ltb, if◌then◌else◌, ◌≡◌, refl, ◌∙◌, arith,
  Bool-cases, inl, inr, false,
}
use rocketvm.Base.Bits.{bit_and_mask}
use rocketvm.Exec.{ok}
use rocketvm.Isa.Instr.{Instr}
use rocketvm.Memory.{memory_size, stack_start, stack_end}
use rocketvm.Memory.Laws.{IsByteMemory, word_at, with_word, read_uint16_lem, write_uint16_lem}
use rocketvm.Cpu.State.{Cpu, Vm, instruction_size, set_rip, set_rsp, set_halt, fault}
use rocketvm.Cpu.Ctrlf.{jump_target, exec_jmp, exec_call, exec_ret, ret_to}

-- The guards on a target let an even 16-bit address pass, and no other.
guards {ℓ} :
    {A : Type ℓ} (addr : ℕ) (bad good : A)
    → addr < 2 ^ 16
    → (if ltb (memory_size - instruction_size) addr
        then bad
        else if not (bit_and addr 1 == 0)
        then bad
        else good)
      ≡ (if addr % 2 == 0 then good else bad)
guards addr bad good h =
    rw (bit_and_mask 1 addr)
      (elim (Bool-cases (addr % 2 == 0)) [ inl even ↦ ground arith | inr odd ↦ ground arith ])

-- A jump goes to an even target, and faults on an odd one.
pub exec_jmp_lem :
    (cpu : Cpu) (instr : Instr)
    → jump_target cpu instr < 2 ^ 16
    → exec_jmp cpu instr
      ≡ (let addr = jump_target cpu instr in if addr % 2 == 0 then set_rip addr cpu else fault cpu)
unfolding exec_jmp
exec_jmp_lem cpu instr h =
    guards (jump_target cpu instr) (fault cpu) (set_rip (jump_target cpu instr) cpu) h

-- The machine after a return address is pushed and control goes to the target.
abbrev pub called : Vm → ℕ → Vm
called vm addr = record {
  cpu = set_rip addr (set_rsp (vm.cpu.regs.rsp - 2) vm.cpu);
  mem = with_word vm.mem (vm.cpu.regs.rsp - 2) vm.cpu.regs.rip;
}

-- For a 16-bit target and RSP of at most 0xFEFF: CALL faults on an odd target or a full stack.
-- Otherwise it lowers RSP by 2, stores RIP there and goes to the target; no assertion fails.
pub exec_call_lem :
    (vm : Vm) (instr : Instr)
    → jump_target vm.cpu instr < 2 ^ 16
    → vm.cpu.regs.rsp ≤ 0xFEFF
    → exec_call vm instr ≡ (
        let addr = jump_target vm.cpu instr in
        if addr % 2 == 0
        then (if ltb vm.cpu.regs.rsp (stack_start + 2)
            then ok (record vm { cpu = fault vm.cpu })
            else ok (called vm addr))
        else ok (record vm { cpu = fault vm.cpu }))
unfolding exec_call
exec_call_lem vm instr h top =
    guards (jump_target vm.cpu instr) _ _ h
    ∙ elim (Bool-cases (ltb vm.cpu.regs.rsp (stack_start + 2))) [
      | inl full ↦ rw full refl
      | inr room ↦
          rw
            (
              room,
              lowered room,
              write_uint16_lem vm.mem (vm.cpu.regs.rsp - 2) vm.cpu.regs.rip (omega arith),
            )
            refl
    ]
  where
    lowered :
        ltb vm.cpu.regs.rsp (stack_start + 2) ≡ false
        → (vm.cpu.regs.rsp + 2 ^ 16 - 2) % 2 ^ 16 ≡ vm.cpu.regs.rsp - 2
    lowered room = ground arith

-- For a byte memory and RSP of at most 0xFEFF: RET on an empty stack halts. Otherwise it raises RSP
-- by 2 and goes to the word that was on top, or faults if that is odd; no assertion fails.
pub exec_ret_lem :
    (vm : Vm) (instr : Instr)
    → IsByteMemory vm.mem
    → vm.cpu.regs.rsp ≤ 0xFEFF
    → exec_ret vm instr ≡ (
        let addr = word_at vm.mem vm.cpu.regs.rsp in
        let popped = set_rsp (vm.cpu.regs.rsp + 2) vm.cpu in
        if ltb (stack_end - 1) vm.cpu.regs.rsp
        then ok (record vm { cpu = set_halt vm.cpu })
        else ok (record vm { cpu = if addr % 2 == 0 then set_rip addr popped else fault popped }))
unfolding exec_ret ret_to
exec_ret_lem vm instr bytes top =
    let rsp = vm.cpu.regs.rsp in
    let addr = word_at vm.mem rsp in
    let raised : (rsp + 2) % 2 ^ 16 ≡ rsp + 2 = omega arith in
    let low = bytes rsp in
    let high = bytes (rsp + 1) in
    rw
      (
        read_uint16_lem vm.mem rsp bytes (omega arith),
        raised,
        guards addr (fault (set_rsp (rsp + 2) vm.cpu)) (set_rip addr (set_rsp (rsp + 2) vm.cpu))
            (omega arith),
      )
      refl
