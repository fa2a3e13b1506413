-- ===== src/Isa.antt =====
-- The instruction set: rocketvm/common/isa.
pub mod Opcode
pub mod Instr
pub mod Encoder
pub mod Decode
pub mod Names
