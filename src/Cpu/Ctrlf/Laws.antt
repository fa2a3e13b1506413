-- ===== src/Cpu/Ctrlf/Laws.antt =====
-- Where jumps go: the sign extension of the offset, and the jump that the encoder's words make.
use rocketvm.Base.{
  ℕ, ◌+◌, ◌-◌, ◌*◌, ◌/◌, ◌%◌, ◌^◌, ◌<◌, ◌≤◌, bit_and, bit_or, ◌==◌, ltb, if◌then◌else◌, ◌≡◌, refl,
  ◌∙◌, arith, Bool-cases, inl, inr, Below,
}
use rocketvm.Base.Bits.{bit_and_mask, bit_and-digit, bit_or_low, bit_or_comm}
use rocketvm.Base.Int.{ℤ, pos, negsuc, unsigned16, ◌+ℤ◌, ◌≤ℤ◌}
use rocketvm.Isa.Opcode.{Opcode, opcode_value}
use rocketvm.Isa.Decode.{decode}
use rocketvm.Isa.Encoder.{offset_word, register_word}
use rocketvm.Isa.Encoder.Layout.{offset_word-sum, register_word-sum, decode-fields}
use rocketvm.Cpu.State.{Cpu}
use rocketvm.Cpu.Ctrlf.{jump_offset, jump_target}

extend : (r : ℕ) → r < 2048 → 1024 ≤ r → bit_or r 0xF800 ≡ 0xF800 + r
extend r h k = bit_or_comm r 0xF800 ∙ bit_or_low 11 0xF800 r refl h

-- The low eleven bits as a signed number.
pub jump_offset_lem :
    (w : ℕ) → jump_offset w ≡ (let r = w % 2048 in if ltb r 1024 then pos r else negsuc (2047 - r))
unfolding jump_offset
jump_offset_lem w =
    let r = w % 2048 in
    let sign : bit_and r 0x400 ≡ r / 1024 % 2 * 1024 = bit_and-digit 10 r in
    rw (bit_and_mask 11 w, sign)
      (elim (Bool-cases (ltb r 1024)) [
        | inl small ↦ ground arith
        | inr large ↦ rw (extend r (omega arith) (ground arith)) (ground arith)
      ])

-- The target of a word in either mode.
pub jump_target_lem :
    (cpu : Cpu) (w : ℕ)
    → jump_target cpu (decode w) ≡ (
        if w / 2048 % 2 == 0
        then unsigned16 (pos cpu.regs.rip +ℤ jump_offset w)
        else cpu.regs.rv (w % 8))
unfolding jump_target
jump_target_lem cpu w = rw (decode-fields w, bit_and_mask 1 (w / 2 ^ 11), bit_and_mask 3 w) refl

pub unsigned16-lt : (z : ℤ) → unsigned16 z < 2 ^ 16
unsigned16-lt (pos n) = omega arith
unsigned16-lt (negsuc n) = omega arith

pub jump_target-lt :
    (cpu : Cpu) (w : ℕ) → Below (2 ^ 16) cpu.regs.rv → jump_target cpu (decode w) < 2 ^ 16
jump_target-lt cpu w words = rw (jump_target_lem cpu w) (elim (Bool-cases (w / 2048 % 2 == 0)) [
  | inl relative ↦ rw relative (unsigned16-lt (pos cpu.regs.rip +ℤ jump_offset w))
  | inr absolute ↦ rw absolute (words (w % 8))
])

extend_low :
    (simm : ℤ)
    → negsuc 1023 ≤ℤ simm
    → simm ≤ℤ pos 1023
    → (let r = unsigned16 simm % 2048 in if ltb r 1024 then pos r else negsuc (2047 - r)) ≡ simm
extend_low (pos n) lo hi = ground arith
extend_low (negsuc n) lo hi = ground arith

-- An offset between -1024 and 1023 survives the encoder and the sign extension.
jump_offset-offset_word :
    (op : Opcode) (simm : ℤ)
    → negsuc 1023 ≤ℤ simm
    → simm ≤ℤ pos 1023
    → jump_offset (offset_word (opcode_value op) simm) ≡ simm
jump_offset-offset_word op simm lo hi =
    let u = unsigned16 simm in
    let low : (opcode_value op % 16 * 4096 + u % 2048) % 2048 ≡ u % 2048 = omega arith in
    rw
      (
        jump_offset_lem (offset_word (opcode_value op) simm),
        offset_word-sum (opcode_value op) simm,
        low,
      )
      (extend_low simm lo hi)

-- For an offset of -1024 to 1023, the word of a relative jump has the target RIP + offset, modulo 2
-- ^ 16.
pub jump_target-offset_word :
    (cpu : Cpu) (op : Opcode) (simm : ℤ)
    → negsuc 1023 ≤ℤ simm
    → simm ≤ℤ pos 1023
    → jump_target cpu (decode (offset_word (opcode_value op) simm))
      ≡ unsigned16 (pos cpu.regs.rip +ℤ simm)
jump_target-offset_word cpu op simm lo hi =
    let mode : offset_word (opcode_value op) simm / 2048 % 2 ≡ 0 =
      rw (offset_word-sum (opcode_value op) simm) (omega arith) in
    rw
      (
        jump_target_lem cpu (offset_word (opcode_value op) simm),
        mode,
        jump_offset-offset_word op simm lo hi,
      )
      refl

-- The word of a register jump goes to the address in the register.
pub jump_target-register_word :
    (cpu : Cpu) (op : Opcode) (rvd : ℕ)
    → rvd < 8
    → jump_target cpu (decode (register_word (opcode_value op) rvd)) ≡ cpu.regs.rv rvd
jump_target-register_word cpu op rvd h =
    let w = register_word (opcode_value op) rvd in
    let sum = register_word-sum (opcode_value op) rvd in
    let mode : w / 2048 % 2 ≡ 1 = omega arith in
    let low : w % 8 ≡ rvd = omega arith in rw (jump_target_lem cpu w, mode, low) refl
