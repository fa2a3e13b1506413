-- ===== src/Asm.antt =====
-- The assembler: rocketasm.
pub mod Program
pub mod Encoder
pub mod Emitter
pub mod Lexer
pub mod Parser
pub mod Dump
pub mod Main
pub mod Arguments
pub mod Meaning
