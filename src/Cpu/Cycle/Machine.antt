-- ===== src/Cpu/Cycle/Machine.antt =====
-- The machine invariant under LOAD, STORE, CALL and RET.
use rocketvm.Base.{
  ℕ, ◌+◌, ◌-◌, ◌%◌, ◌^◌, ◌<◌, Bool, true, false, ◌==◌, ltb, if◌then◌else◌, ◌≡◌, arith, Bool-cases,
  inl, inr,
}
use rocketvm.Exec.{Exec, Returns}
use rocketvm.Isa.Decode.{decode}
use rocketvm.Memory.Laws.{word_at, with_word-IsByteMemory}
use rocketvm.Cpu.State.{Cpu, Vm, source_value}
use rocketvm.Cpu.Alu.Spec.{source_value-lt}
use rocketvm.Cpu.Ctrlf.{exec_call, exec_ret, jump_target}
use rocketvm.Cpu.Ctrlf.Stack.{called, exec_call_lem, exec_ret_lem}
use rocketvm.Cpu.Transfer.{exec_load, exec_store}
use rocketvm.Cpu.Transfer.Laws.{exec_load_lem, exec_store_lem}
use rocketvm.Cpu.Ctrlf.Laws.{jump_target-lt}
use rocketvm.Cpu.Cycle.Invariant.{
  IsValid, IsWellFormed, decode-IsDecoded, ready, set_rv-IsValid, fault-IsValid, set_rip-IsValid,
  set_rsp-IsValid,
}
use rocketvm.Cpu.Cycle.Registers.{jump_to}

Returns-both :
    (b : Bool) (x y : Exec Vm)
    → Returns IsWellFormed x
    → Returns IsWellFormed y
    → Returns IsWellFormed (if b then x else y)
Returns-both true x y p q = p
Returns-both false x y p q = q

module _ {vm : Vm} (f : IsWellFormed vm) (w : ℕ) where
  pub with_cpu : {cpu : Cpu} → IsValid cpu → IsWellFormed (record vm { cpu = cpu })
  with_cpu v = record { valid = v; bytes = f.bytes }

  source_fits : source_value vm.cpu (decode w) < 2 ^ 16
  source_fits = source_value-lt (ready f.valid (decode-IsDecoded w))

  pub exec_load-IsWellFormed : Returns IsWellFormed (exec_load vm (decode w))
  exec_load-IsWellFormed =
      let addr = source_value vm.cpu (decode w) in
      let low = f.bytes addr in
      let high = f.bytes (addr + 1) in
      rw (exec_load_lem vm (decode w) (decode-IsDecoded w).has_mode f.bytes source_fits) (
        Returns-both (addr % 2 == 0) _ _
          (with_cpu (set_rv-IsValid f.valid (decode w).reg (word_at vm.mem addr) (omega arith)))
          (with_cpu (fault-IsValid f.valid)))

  pub exec_store-IsWellFormed : Returns IsWellFormed (exec_store vm (decode w))
  exec_store-IsWellFormed =
      let addr = source_value vm.cpu (decode w) in
      let value = vm.cpu.regs.rv (decode w).reg in
      rw (exec_store_lem vm (decode w) (decode-IsDecoded w).has_mode source_fits) (
        Returns-both (addr % 2 == 0) _ _
          (record { valid = f.valid; bytes = with_word-IsByteMemory vm.mem addr value f.bytes })
          (with_cpu (fault-IsValid f.valid)))

  called-IsWellFormed :
      (addr : ℕ)
      → addr < 2 ^ 16
      → (addr % 2 == 0) ≡ true
      → ltb vm.cpu.regs.rsp 0xF002 ≡ false
      → IsWellFormed (called vm addr)
  called-IsWellFormed addr h even room =
      let v = f.valid in
      record {
        valid =
            set_rip-IsValid
              (set_rsp-IsValid v (vm.cpu.regs.rsp - 2) (ground arith) (omega arith) (ground arith))
              addr h (ground arith);
        bytes = with_word-IsByteMemory vm.mem (vm.cpu.regs.rsp - 2) vm.cpu.regs.rip f.bytes;
      }

  pub exec_call-IsWellFormed : Returns IsWellFormed (exec_call vm (decode w))
  exec_call-IsWellFormed =
      let addr = jump_target vm.cpu (decode w) in
      let fits = jump_target-lt vm.cpu w f.valid.words in
      let faulted = with_cpu (fault-IsValid f.valid) in
      rw (exec_call_lem vm (decode w) fits f.valid.rsp_high) (elim (Bool-cases (addr % 2 == 0)) [
        | inl even ↦ rw even (elim (Bool-cases (ltb vm.cpu.regs.rsp 0xF002)) [
          | inl full ↦ rw full faulted
          | inr room ↦ rw room (called-IsWellFormed addr fits even room)
        ])
        | inr odd ↦ rw odd faulted
      ])

  pub exec_ret-IsWellFormed : Returns IsWellFormed (exec_ret vm (decode w))
  exec_ret-IsWellFormed =
      let rsp = vm.cpu.regs.rsp in
      let addr = word_at vm.mem rsp in
      let low = f.bytes rsp in
      let high = f.bytes (rsp + 1) in
      let v = f.valid in
      rw (exec_ret_lem vm (decode w) f.bytes v.rsp_high) (elim (Bool-cases (ltb 0xFEFE rsp)) [
        | inl empty ↦ rw empty (with_cpu (fault-IsValid v))
        | inr more ↦
            let popped = set_rsp-IsValid v (rsp + 2) (omega arith) (ground arith) (ground arith) in
            rw more (with_cpu (jump_to popped w addr (omega arith)))
      ])
