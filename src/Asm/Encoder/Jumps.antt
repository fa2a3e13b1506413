-- ===== src/Asm/Encoder/Jumps.antt =====
-- Jumps and calls of assembled programs: their words, and the targets of those words.
use rocketvm.Base.{
  ℕ, ◌+◌, ◌*◌, ◌%◌, ◌^◌, true, false, if◌then◌else◌, ◌≡◌, refl, ◌∙◌, ap, arith, some, none,
  Bool-cases, inl, inr,
}
use rocketvm.Base.Int.{ℤ, pos, negsuc, signed16, unsigned16, sub_ℕ, ◌+ℤ◌, ◌-ℤ◌, ◌≤ℤ◌, ◌==ℤ◌}
use rocketvm.Exec.{ok, crash, assertion}
use rocketvm.Isa.Opcode.{Opcode, opcode_value, jmp, jz, jnz, call}
use rocketvm.Isa.Decode.{decode}
use rocketvm.Isa.Encoder.{fits_simm11, offset_word}
use rocketvm.Cpu.State.{Cpu}
use rocketvm.Cpu.Ctrlf.{jump_target}
use rocketvm.Cpu.Ctrlf.Laws.{jump_target-offset_word}
use rocketvm.Asm.Program.{Bytes, Operand, label, imm, Program, find_label_address}
use rocketvm.Asm.Encoder.{
  offset_from, resolve_label, asserted, control_imm, encode_control, encode_op, encode_instr,
}

-- The opcodes that take a jump target.
pub data IsControl : Opcode → Type 0 where
  is_jmp : IsControl jmp
  is_jz : IsControl jz
  is_jnz : IsControl jnz
  is_call : IsControl call

-- The distance in bytes from the instruction after number `i` to instruction number `a`.
abbrev pub distance : ℕ → ℕ → ℤ
distance i a = sub_ℕ (2 * a) (2 * i + 2)

offset_from-distance : (i a : ℕ) → offset_from i (some a) ≡ distance i a
unfolding offset_from ◌+ℤ◌ ◌-ℤ◌
offset_from-distance i a = ground arith

resolve_label-found :
    (program : Program) (name : Bytes) (i a : ℕ)
    → find_label_address program name ≡ some a
    → resolve_label program name i ≡ distance i a
unfolding resolve_label
resolve_label-found program name i a found = ap (offset_from i) found ∙ offset_from-distance i a

-- A distance in bytes is even, so that it is not the -1 of an unknown label.
distance-known : (i a : ℕ) → (distance i a ==ℤ negsuc 0) ≡ false
distance-known i a = ground arith

narrow : (z : ℤ) → negsuc 1023 ≤ℤ z → z ≤ℤ pos 1023 → signed16 (unsigned16 z) ≡ z
narrow (pos n) lo hi = ground arith
narrow (negsuc n) lo hi = ground arith

fits : (z : ℤ) → negsuc 1023 ≤ℤ z → z ≤ℤ pos 1023 → fits_simm11 z ≡ true
fits (pos n) lo hi = ground arith
fits (negsuc n) lo hi = ground arith

landing :
    (i a : ℕ)
    → negsuc 1023 ≤ℤ distance i a
    → unsigned16 (pos (2 * i + 2) +ℤ distance i a) ≡ 2 * a % 2 ^ 16
unfolding ◌+ℤ◌
landing i a lo = ground arith

control_imm-asserted :
    (op : Opcode) (simm : ℤ)
    → IsControl op
    → control_imm op simm
      ≡ asserted (if fits_simm11 simm then some (offset_word (opcode_value op) simm) else none)
unfolding control_imm
control_imm-asserted op simm is_jmp = refl
control_imm-asserted op simm is_jz = refl
control_imm-asserted op simm is_jnz = refl
control_imm-asserted op simm is_call = refl

pub encode_op-control :
    (program : Program) (op : Opcode) (a b : Operand) (i : ℕ)
    → IsControl op
    → encode_op program op a b i ≡ encode_control program op a i
unfolding encode_op
encode_op-control program op a b i is_jmp = refl
encode_op-control program op a b i is_jz = refl
encode_op-control program op a b i is_jnz = refl
encode_op-control program op a b i is_call = refl

-- A jump or call to a label encodes its distance, after the narrowing to 16 bits, if that fits 11
-- bits; otherwise the assertion of the offset function fails.
pub encode_instr-label :
    (program : Program) (op : Opcode) (name : Bytes) (b : Operand) (i a : ℕ)
    → IsControl op
    → find_label_address program name ≡ some a
    → encode_instr program (record { opcode = op; opr1 = label name; opr2 = b }) i ≡ (
        let simm = signed16 (unsigned16 (distance i a)) in
        if fits_simm11 simm
        then ok (some (offset_word (opcode_value op) simm))
        else crash assertion)
unfolding encode_control
encode_instr-label program op name b i a control found =
    let simm = signed16 (unsigned16 (distance i a)) in
    encode_op-control program op (label name) b i control
    ∙ rw
        (
          encode_control,
          resolve_label-found program name i a found,
          distance-known i a,
          control_imm-asserted op simm control,
        )
        (elim (Bool-cases (fits_simm11 simm)) [ inl fits ↦ rw fits refl | inr far ↦ rw far refl ])

-- For a jump or call to a label that resolves to instruction `a`, assembled as instruction `i` with
-- a distance of -1024 to 1023 bytes, there is a word, and on a processor that has fetched it (RIP
-- is 2 * i + 2) the target of that word is twice `a`, modulo 2 ^ 16.
pub jump_target-encode_instr :
    (program : Program) (op : Opcode) (name : Bytes) (b : Operand) (i a : ℕ) (cpu : Cpu)
    → IsControl op
    → find_label_address program name ≡ some a
    → negsuc 1023 ≤ℤ distance i a
    → distance i a ≤ℤ pos 1023
    → cpu.regs.rip ≡ 2 * i + 2
    → (w : ℕ) × (encode_instr program (record { opcode = op; opr1 = label name; opr2 = b }) i
        ≡ ok (some w))
      × (jump_target cpu (decode w) ≡ 2 * a % 2 ^ 16)
jump_target-encode_instr program op name b i a cpu control found lo hi fetched = (
  offset_word (opcode_value op) (distance i a),
  encode_instr-label program op name b i a control found
      ∙ rw (narrow (distance i a) lo hi, fits (distance i a) lo hi) refl,
  jump_target-offset_word cpu op (distance i a) lo hi ∙ rw fetched (landing i a lo),
)

resolve_label-unknown :
    (program : Program) (name : Bytes) (i : ℕ)
    → find_label_address program name ≡ none
    → resolve_label program name i ≡ negsuc 0
unfolding resolve_label offset_from
resolve_label-unknown program name i unknown = ap (offset_from i) unknown

-- A jump or call to a label that is not in the program, and one to an immediate, fail to encode
-- with -1.
pub encode_instr-no_target :
    (program : Program) (op : Opcode) (name : Bytes) (n : ℕ) (b : Operand) (i : ℕ)
    → IsControl op
    → find_label_address program name ≡ none
    → (encode_instr program (record { opcode = op; opr1 = label name; opr2 = b }) i ≡ ok none)
      × (encode_instr program (record { opcode = op; opr1 = imm n; opr2 = b }) i ≡ ok none)
unfolding encode_control
encode_instr-no_target program op name n b i control unknown = (
  encode_op-control program op (label name) b i control
      ∙ rw (resolve_label-unknown program name i unknown) refl,
  encode_op-control program op (imm n) b i control,
)
