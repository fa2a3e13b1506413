-- ===== src/Asm/Encoder/Words.antt =====
-- The words of assembled instructions that compute, and what the processor decodes from them.
use rocketvm.Base.{ℕ, ◌%◌, ◌^◌, ◌<◌, ◌≡◌, refl, ◌∙◌, arith, some}
use rocketvm.Base.Bits.{bit_and_mask}
use rocketvm.Exec.{ok}
use rocketvm.Isa.Opcode.{
  Opcode, opcode_value, opcode_value-lt, mov, add, sub, mul, div, modulo, shl, shr, cmp,
}
use rocketvm.Isa.Instr.{mode_imm_or_addr, mode_reg}
use rocketvm.Isa.Decode.{decode}
use rocketvm.Isa.Encoder.{encode}
use rocketvm.Isa.Encoder.Layout.{decode-encode}
use rocketvm.Cpu.State.{Cpu, source_value}
use rocketvm.Asm.Program.{imm, reg, Program}
use rocketvm.Asm.Encoder.{alu_imm, alu_reg, encode_mov, encode_alu, encode_op, encode_instr}

-- The opcodes with a destination register and a source that is an immediate or a register.
pub data IsCompute : Opcode → Type 0 where
  is_mov : IsCompute mov
  is_add : IsCompute add
  is_sub : IsCompute sub
  is_mul : IsCompute mul
  is_div : IsCompute div
  is_modulo : IsCompute modulo
  is_shl : IsCompute shl
  is_shr : IsCompute shr
  is_cmp : IsCompute cmp

pub encode_instr-imm :
    (program : Program) (op : Opcode) (rvd n i : ℕ)
    → IsCompute op
    → encode_instr program (record { opcode = op; opr1 = reg rvd; opr2 = imm n }) i
      ≡ ok (some (encode (opcode_value op) rvd mode_imm_or_addr (n % 2 ^ 8)))
unfolding encode_op encode_mov encode_alu alu_imm
encode_instr-imm program op rvd n i is_mov = refl
encode_instr-imm program op rvd n i is_add = refl
encode_instr-imm program op rvd n i is_sub = refl
encode_instr-imm program op rvd n i is_mul = refl
encode_instr-imm program op rvd n i is_div = refl
encode_instr-imm program op rvd n i is_modulo = refl
encode_instr-imm program op rvd n i is_shl = refl
encode_instr-imm program op rvd n i is_shr = refl
encode_instr-imm program op rvd n i is_cmp = refl

pub encode_instr-reg :
    (program : Program) (op : Opcode) (rvd rvs i : ℕ)
    → IsCompute op
    → encode_instr program (record { opcode = op; opr1 = reg rvd; opr2 = reg rvs }) i
      ≡ ok (some (encode (opcode_value op) rvd mode_reg (rvs % 2 ^ 8)))
unfolding encode_op encode_mov encode_alu alu_reg
encode_instr-reg program op rvd rvs i is_mov = refl
encode_instr-reg program op rvd rvs i is_add = refl
encode_instr-reg program op rvd rvs i is_sub = refl
encode_instr-reg program op rvd rvs i is_mul = refl
encode_instr-reg program op rvd rvs i is_div = refl
encode_instr-reg program op rvd rvs i is_modulo = refl
encode_instr-reg program op rvd rvs i is_shl = refl
encode_instr-reg program op rvd rvs i is_shr = refl
encode_instr-reg program op rvd rvs i is_cmp = refl

-- What a processor decodes from a word: opcode, destination and the value of the source.
abbrev pub Reads : Cpu → ℕ → Opcode → ℕ → ℕ → Type 0
Reads cpu w op rvd value =
    (decode w).opcode ≡ opcode_value op × (decode w).reg ≡ rvd × source_value cpu (decode w) ≡ value

pub source_value-imm :
    (cpu : Cpu) (op rvd n : ℕ)
    → source_value cpu (decode (encode op rvd mode_imm_or_addr n)) ≡ n % 256
unfolding source_value
source_value-imm cpu op rvd n =
    let (o, r, m, v) = decode-encode op rvd mode_imm_or_addr n in rw (m, v) refl

pub source_value-reg :
    (cpu : Cpu) (op rvd rvs : ℕ)
    → source_value cpu (decode (encode op rvd mode_reg (rvs % 2 ^ 8))) ≡ cpu.regs.rv (rvs % 8)
unfolding source_value
source_value-reg cpu op rvd rvs =
    let (o, r, m, v) = decode-encode op rvd mode_reg (rvs % 2 ^ 8) in
    let low : rvs % 2 ^ 8 % 256 % 8 ≡ rvs % 8 = omega arith in
    rw (m, v, bit_and_mask 3 (rvs % 2 ^ 8 % 256), low) refl

-- For MOV, an arithmetic opcode or CMP with a destination below 8, an immediate source and a
-- register source both have a word. From it the processor decodes the opcode and the destination,
-- and its source is the immediate modulo 256, or the value of the register modulo 8.
pub encode_instr-compute :
    (program : Program) (op : Opcode) (rvd n i : ℕ) (cpu : Cpu)
    → IsCompute op
    → rvd < 8
    → ((w : ℕ) × (encode_instr program (record { opcode = op; opr1 = reg rvd; opr2 = imm n }) i
          ≡ ok (some w))
        × Reads cpu w op rvd (n % 256))
      × ((w : ℕ) × (encode_instr program (record { opcode = op; opr1 = reg rvd; opr2 = reg n }) i
            ≡ ok (some w))
          × Reads cpu w op rvd (cpu.regs.rv (n % 8)))
encode_instr-compute program op rvd n i cpu computes small =
    let (o, r, m, v) = decode-encode (opcode_value op) rvd mode_imm_or_addr (n % 2 ^ 8) in
    let (o', r', m', v') = decode-encode (opcode_value op) rvd mode_reg (n % 2 ^ 8) in
    let once : n % 2 ^ 8 % 256 ≡ n % 256 = omega arith in
    let keep : opcode_value op % 16 ≡ opcode_value op = nibble op in
    let low : rvd % 8 ≡ rvd = omega arith in
    (
      (
        encode (opcode_value op) rvd mode_imm_or_addr (n % 2 ^ 8),
        encode_instr-imm program op rvd n i computes,
        (o ∙ keep, r ∙ low, source_value-imm cpu (opcode_value op) rvd (n % 2 ^ 8) ∙ once),
      ),
      (
        encode (opcode_value op) rvd mode_reg (n % 2 ^ 8),
        encode_instr-reg program op rvd n i computes,
        (o' ∙ keep, r' ∙ low, source_value-reg cpu (opcode_value op) rvd n),
      ),
    )
  where
    nibble : (op : Opcode) → opcode_value op % 16 ≡ opcode_value op
    nibble op = let h = opcode_value-lt op in omega arith
