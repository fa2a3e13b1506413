-- ===== src/Cpu.antt =====
-- The processor: rocketvm/cpu.
pub mod State
pub mod Flags
pub mod Alu
pub mod Data
pub mod Transfer
pub mod Ctrlf
pub mod Cycle
pub mod Dump
