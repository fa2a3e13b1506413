-- ===== src/Isa/Decode.antt =====
-- `rvm_decode` of rocketvm/common/isa/encoder.h.
use rocketvm.Base.{ℕ, ◌^◌, ◌%◌, ◌>>>◌, bit_and}
use rocketvm.Isa.Instr.{Instr}

-- `rvm_decode`.
unfoldable pub decode : ℕ → Instr
decode instr = record {
  raw = instr;
  opcode = bit_and (instr >>> 12) 0xF;
  reg = bit_and (instr >>> 9) 0x7;
  mode = bit_and (instr >>> 8) 0x1;
  operand = bit_and instr 0xFF % 2 ^ 8;
}
