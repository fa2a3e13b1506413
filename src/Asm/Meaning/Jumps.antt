-- ===== src/Asm/Meaning/Jumps.antt =====
-- Jumps and calls, against their handlers and the targets of their words.
use rocketvm.Base.{ℕ, ◌+◌, ◌*◌, ◌%◌, ◌^◌, ◌<◌, ◌≤◌, true, if◌then◌else◌, ◌≡◌, ◌∙◌, ap, arith}
use rocketvm.Base.Int.{ℤ, pos, negsuc, signed16, unsigned16, ◌+ℤ◌, ◌≤ℤ◌}
use rocketvm.Isa.Opcode.{Opcode, opcode_value}
use rocketvm.Isa.Instr.{Instr}
use rocketvm.Isa.Decode.{decode}
use rocketvm.Isa.Encoder.{register_word, offset_word, fits_simm11}
use rocketvm.Cpu.State.{Cpu, Vm}
use rocketvm.Cpu.Flags.{flag_rz, check}
use rocketvm.Cpu.Ctrlf.{jump_target, exec_jmp, exec_jz, exec_jnz}
use rocketvm.Cpu.Ctrlf.Laws.{jump_target-offset_word, jump_target-register_word}
use rocketvm.Isa.Encoder.Layout.{register_word-sum}
use rocketvm.Cpu.Ctrlf.Stack.{exec_jmp_lem, exec_call_lem}
use rocketvm.Cpu.Cycle.{handler, on_cpu}
use rocketvm.Asm.Encoder.Jumps.{IsControl, is_jmp, is_jz, is_jnz, is_call, distance}
use rocketvm.Asm.Meaning.{transfer}

-- A handler does what its opcode is to do at the target of the word.
pub handler-transfer :
    (vm : Vm) (instr : Instr) (op : Opcode)
    → IsControl op
    → jump_target vm.cpu instr < 2 ^ 16
    → vm.cpu.regs.rsp ≤ 0xFEFF
    → handler op vm instr ≡ transfer op (jump_target vm.cpu instr) vm
unfolding handler transfer
handler-transfer vm instr op is_jmp h top = ap (on_cpu vm) (exec_jmp_lem vm.cpu instr h)
handler-transfer vm instr op is_jz h top =
    unfold exec_jz in
    ap (λ c. on_cpu vm (if check flag_rz vm.cpu.regs.flags then c else vm.cpu))
      (exec_jmp_lem vm.cpu instr h)
handler-transfer vm instr op is_jnz h top = ap (on_cpu vm) (
    jumps_not
    ∙ ap (λ c. if check flag_rz vm.cpu.regs.flags then vm.cpu else c) (exec_jmp_lem vm.cpu instr h))
  where
    jumps_not :
        exec_jnz vm.cpu instr
        ≡ (if check flag_rz vm.cpu.regs.flags then vm.cpu else exec_jmp vm.cpu instr)
    jumps_not = unfold exec_jnz in ground arith
handler-transfer vm instr op is_call h top = exec_call_lem vm instr h top

-- An offset that passed the assertion.
range : (z : ℤ) → fits_simm11 z ≡ true → (negsuc 1023 ≤ℤ z) × (z ≤ℤ pos 1023)
range (pos n) h = ground arith
range (negsuc n) h = ground arith

arrives :
    (i a : ℕ)
    → unsigned16 (pos (2 * i + 2) +ℤ signed16 (unsigned16 (distance i a))) ≡ 2 * a % 2 ^ 16
unfolding ◌+ℤ◌
arrives i a = ground arith

-- The word of a jump to the label of instruction `a`, whatever wraps around on the way.
pub jump_target-label :
    (op : Opcode) (cpu : Cpu) (i a : ℕ)
    → fits_simm11 (signed16 (unsigned16 (distance i a))) ≡ true
    → cpu.regs.rip ≡ 2 * i + 2
    → jump_target cpu
        (decode (offset_word (opcode_value op) (signed16 (unsigned16 (distance i a)))))
      ≡ 2 * a % 2 ^ 16
jump_target-label op cpu i a fits behind =
    let simm = signed16 (unsigned16 (distance i a)) in
    let (lo, hi) = range simm fits in
    jump_target-offset_word cpu op simm lo hi
    ∙ ap (λ r. unsigned16 (pos r +ℤ simm)) behind
    ∙ arrives i a

-- The word of a jump to a register.
pub jump_target-reg :
    (op : Opcode) (cpu : Cpu) (d : ℕ)
    → jump_target cpu (decode (register_word (opcode_value op) d)) ≡ cpu.regs.rv (d % 8)
jump_target-reg op cpu d =
    let same : register_word (opcode_value op) d ≡ register_word (opcode_value op) (d % 8) =
      rw (register_word-sum (opcode_value op) d, register_word-sum (opcode_value op) (d % 8))
        (omega arith) in
    ap (λ w. jump_target cpu (decode w)) same
    ∙ jump_target-register_word cpu op (d % 8) (omega arith)
