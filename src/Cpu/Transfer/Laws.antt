-- ===== src/Cpu/Transfer/Laws.antt =====
-- LOAD and STORE by the parity of the address. An address in range is refused only if it is odd,
-- since 0xFFFF is the only 16-bit address that is out of bounds.
use rocketvm.Base.{
  ℕ, ◌-◌, ◌%◌, ◌^◌, ◌<◌, bit_and, not, ◌==◌, leb, if◌then◌else◌, ◌≡◌, refl, ◌∙◌, arith, Bool-cases,
  inl, inr,
}
use rocketvm.Base.Bits.{bit_and_mask}
use rocketvm.Exec.{Exec, ok}
use rocketvm.Isa.Instr.{Instr}
use rocketvm.Memory.{memory_size}
use rocketvm.Memory.Laws.{IsByteMemory, word_at, with_word, read_uint16_lem, write_uint16_lem}
use rocketvm.Cpu.State.{Cpu, Vm, set_rv, fault, source_value}
use rocketvm.Cpu.Alu.Products.{HasMode}
use rocketvm.Cpu.Transfer.{transfer_address, exec_load, exec_store}

pub transfer_address_lem :
    (cpu : Cpu) (instr : Instr)
    → HasMode instr
    → transfer_address cpu instr ≡ source_value cpu instr
unfolding transfer_address source_value
transfer_address_lem cpu instr m = ground arith

-- The guards of both handlers let an even 16-bit address pass, and no other.
guards :
    (addr : ℕ) (bad good : Exec Vm)
    → addr < 2 ^ 16
    → (if leb (memory_size - 1) addr then bad else if not (bit_and addr 1 == 0) then bad else good)
      ≡ (if addr % 2 == 0 then good else bad)
guards addr bad good h =
    rw (bit_and_mask 1 addr)
      (elim (Bool-cases (addr % 2 == 0)) [ inl even ↦ ground arith | inr odd ↦ ground arith ])

-- For one of the two modes, a byte memory and a 16-bit address: LOAD puts the word at an even
-- address into the register, and faults on an odd one; no assertion fails.
pub exec_load_lem :
    (vm : Vm) (instr : Instr)
    → HasMode instr
    → IsByteMemory vm.mem
    → source_value vm.cpu instr < 2 ^ 16
    → exec_load vm instr ≡ (
        let addr = source_value vm.cpu instr in
        if addr % 2 == 0
        then ok (record vm { cpu = set_rv instr.reg (word_at vm.mem addr) vm.cpu })
        else ok (record vm { cpu = fault vm.cpu }))
unfolding exec_load
exec_load_lem vm instr m bytes h =
    let addr = source_value vm.cpu instr in
    rw (transfer_address_lem vm.cpu instr m) (
      guards addr _ _ h ∙ elim (Bool-cases (addr % 2 == 0)) [
        | inl even ↦ rw (even, read_uint16_lem vm.mem addr bytes (ground arith)) refl
        | inr odd ↦ rw odd refl
      ])

-- For one of the two modes and a 16-bit address: STORE puts the register at an even address, and
-- faults on an odd one; no assertion fails.
pub exec_store_lem :
    (vm : Vm) (instr : Instr)
    → HasMode instr
    → source_value vm.cpu instr < 2 ^ 16
    → exec_store vm instr ≡ (
        let addr = source_value vm.cpu instr in
        if addr % 2 == 0
        then ok (record vm { mem = with_word vm.mem addr (vm.cpu.regs.rv instr.reg) })
        else ok (record vm { cpu = fault vm.cpu }))
unfolding exec_store
exec_store_lem vm instr m h =
    let addr = source_value vm.cpu instr in
    rw (transfer_address_lem vm.cpu instr m) (
      guards addr _ _ h ∙ elim (Bool-cases (addr % 2 == 0)) [
        | inl even ↦
            rw (even, write_uint16_lem vm.mem addr (vm.cpu.regs.rv instr.reg) (ground arith)) refl
        | inr odd ↦ rw odd refl
      ])
