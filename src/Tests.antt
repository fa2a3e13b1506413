-- ===== src/Tests.antt =====
-- Runs of the model at concrete inputs.
mod Isa
mod Handlers
mod Machine
mod Programs
mod Hosts
mod Assembler
