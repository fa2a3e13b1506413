-- ===== src/Cpu/Cycle/Registers.antt =====
-- The processor's invariant under the handlers that leave the memory alone.
use rocketvm.Base.{
  ℕ, ◌*◌, ◌%◌, ◌^◌, ◌<◌, bit_and, Bool, true, false, not, ◌==◌, leb, if◌then◌else◌, arith,
  Bool-cases, inl, inr, lt→ltb,
}
use rocketvm.Exec.{Returns}
use rocketvm.Isa.Instr.{Instr}
use rocketvm.Isa.Decode.{decode}
use rocketvm.Cpu.State.{Cpu, set_rip, fault, source_value}
use rocketvm.Cpu.Flags.{flag_word, flag_rz, check}
use rocketvm.Cpu.Flags.Laws.{flag_word-lt}
use rocketvm.Cpu.Alu.{exec_add, exec_sub, exec_mul, exec_div, exec_mod, exec_shl, exec_shr}
use rocketvm.Cpu.Alu.Spec.{with_result, source_value-lt}
use rocketvm.Cpu.Alu.Sums.{exec_add_lem, exec_sub_lem, sub_flags_lem}
use rocketvm.Cpu.Alu.Products.{exec_mul_lem, exec_div_lem, exec_mod_lem}
use rocketvm.Cpu.Alu.Shifts.{exec_shl_lem, exec_shr_lem}
use rocketvm.Cpu.Data.{exec_mov}
use rocketvm.Cpu.Ctrlf.{exec_cmp, exec_jmp, exec_jz, exec_jnz, jump_target}
use rocketvm.Cpu.Ctrlf.Stack.{exec_jmp_lem}
use rocketvm.Cpu.Ctrlf.Laws.{jump_target-lt}
use rocketvm.Cpu.Cycle.Invariant.{
  IsValid, IsDecoded, ready, set_rv-IsValid, set_flags-IsValid, fault-IsValid, set_rip-IsValid,
}

if_both : (b : Bool) {x y : Cpu} → IsValid x → IsValid y → IsValid (if b then x else y)
if_both true p q = p
if_both false p q = q

module _ {cpu : Cpu} {instr : Instr} (v : IsValid cpu) (d : IsDecoded instr) where
  with_result-IsValid :
      (r : ℕ) (rc ro : Bool) → r < 2 ^ 16 → IsValid (with_result cpu instr r rc ro)
  with_result-IsValid r rc ro h =
      set_rv-IsValid
        (set_flags-IsValid v (flag_word (r == 0) (leb 0x8000 r) rc ro)
          (flag_word-lt (r == 0) (leb 0x8000 r) rc ro))
        instr.reg r h

  pub exec_mov-IsValid : IsValid (exec_mov cpu instr)
  unfolding exec_mov
  exec_mov-IsValid =
      if_both (instr.mode == 0) (set_rv-IsValid v instr.reg instr.operand (omega arith)) (
        if_both (instr.mode == 1)
          (set_rv-IsValid v instr.reg (cpu.regs.rv (bit_and instr.operand 7))
            (v.words (bit_and instr.operand 7)))
          v)

  pub exec_add-IsValid : IsValid (exec_add cpu instr)
  exec_add-IsValid =
      rw (exec_add_lem cpu instr (ready v d)) (with_result-IsValid _ _ _ (omega arith))

  pub exec_sub-IsValid : IsValid (exec_sub cpu instr)
  exec_sub-IsValid =
      rw (exec_sub_lem cpu instr (ready v d)) (with_result-IsValid _ _ _ (omega arith))

  -- The product that MUL forms.
  pub exec_mul-IsValid :
      cpu.regs.rv instr.reg * source_value cpu instr < 2 ^ 31 → Returns IsValid (exec_mul cpu instr)
  exec_mul-IsValid h =
      rw
        (
          exec_mul_lem cpu instr (ready v d) d.has_mode,
          lt→ltb (cpu.regs.rv instr.reg * source_value cpu instr) (2 ^ 31) h,
        )
        (with_result-IsValid _ _ _ (omega arith))

  pub exec_div-IsValid : IsValid (exec_div cpu instr)
  exec_div-IsValid =
      let word = v.words instr.reg in
      rw (exec_div_lem cpu instr (ready v d) d.has_mode) (
        if_both (source_value cpu instr == 0) (fault-IsValid v)
          (with_result-IsValid _ _ _ (omega arith)))

  pub exec_mod-IsValid : IsValid (exec_mod cpu instr)
  exec_mod-IsValid =
      let word = v.words instr.reg in
      rw (exec_mod_lem cpu instr (ready v d) d.has_mode) (
        if_both (source_value cpu instr == 0) (fault-IsValid v)
          (with_result-IsValid _ _ _ (omega arith)))

  pub exec_shl-IsValid : IsValid (exec_shl cpu instr)
  exec_shl-IsValid =
      rw (exec_shl_lem cpu instr (ready v d))
        (if_both (source_value cpu instr % 16 == 0) v (with_result-IsValid _ _ _ (omega arith)))

  pub exec_shr-IsValid : IsValid (exec_shr cpu instr)
  exec_shr-IsValid =
      let word = v.words instr.reg in
      rw (exec_shr_lem cpu instr (ready v d) d.has_mode) (with_result-IsValid _ _ _ (omega arith))

  pub exec_cmp-IsValid : IsValid (exec_cmp cpu instr)
  unfolding exec_cmp
  exec_cmp-IsValid =
      rw (sub_flags_lem _ _ _ (v.words instr.reg) (source_value-lt (ready v d)) v.four_flags)
        (set_flags-IsValid v _ (flag_word-lt _ _ _ _))

module _ {cpu : Cpu} (v : IsValid cpu) (w : ℕ) where
  pub jump_to :
      (addr : ℕ) → addr < 2 ^ 16 → IsValid (if addr % 2 == 0 then set_rip addr cpu else fault cpu)
  jump_to addr h = elim (Bool-cases (addr % 2 == 0)) [
    | inl even ↦ rw even (set_rip-IsValid v addr h (ground arith))
    | inr odd ↦ rw odd (fault-IsValid v)
  ]

  pub exec_jmp-IsValid : IsValid (exec_jmp cpu (decode w))
  exec_jmp-IsValid =
      let fits = jump_target-lt cpu w v.words in
      rw (exec_jmp_lem cpu (decode w) fits) (jump_to (jump_target cpu (decode w)) fits)

  pub exec_jz-IsValid : IsValid (exec_jz cpu (decode w))
  unfolding exec_jz
  exec_jz-IsValid = if_both (check flag_rz cpu.regs.flags) exec_jmp-IsValid v

  pub exec_jnz-IsValid : IsValid (exec_jnz cpu (decode w))
  unfolding exec_jnz
  exec_jnz-IsValid = if_both (not (check flag_rz cpu.regs.flags)) exec_jmp-IsValid v
