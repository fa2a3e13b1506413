-- ===== src/Asm/Meaning/Compute.antt =====
-- The instructions that compute, against their handlers.
use rocketvm.Base.{if◌then◌else◌, ◌≡◌, refl, ◌∙◌, ap, arith, Bool, true, false}
use rocketvm.Exec.{ok, ◌>>=◌}
use rocketvm.Isa.Opcode.{Opcode}
use rocketvm.Isa.Instr.{Instr}
use rocketvm.Cpu.State.{Cpu, Vm, source_value}
use rocketvm.Cpu.Alu.Spec.{IsReady, source_value-lt}
use rocketvm.Cpu.Alu.Sums.{exec_add_lem, exec_sub_lem, sub_flags_lem}
use rocketvm.Cpu.Alu.Products.{HasMode, exec_mul_lem, exec_div_lem, exec_mod_lem}
use rocketvm.Cpu.Alu.Shifts.{exec_shl_lem, exec_shr_lem}
use rocketvm.Cpu.Data.{exec_mov}
use rocketvm.Cpu.Ctrlf.{exec_cmp}
use rocketvm.Cpu.Cycle.{handler, on_cpu}
use rocketvm.Asm.Encoder.Words.{
  IsCompute, is_mov, is_add, is_sub, is_mul, is_div, is_modulo, is_shl, is_shr, is_cmp,
}
use rocketvm.Asm.Meaning.{compute}

on_cpu-if :
    (vm : Vm) (b : Bool) (x y : Cpu)
    → on_cpu vm (if b then x else y) ≡ ((if b then ok x else ok y) >>= on_cpu vm)
on_cpu-if vm true x y = refl
on_cpu-if vm false x y = refl

module _ (vm : Vm) (instr : Instr) (h : IsReady vm.cpu instr) (m : HasMode instr) where
  -- A handler does what the opcode is to compute.
  pub handler-compute :
      (op : Opcode)
      → IsCompute op
      → handler op vm instr
        ≡ (compute op instr.reg (source_value vm.cpu instr) vm.cpu >>= on_cpu vm)
  unfolding handler compute
  handler-compute op is_mov = unfold exec_mov source_value in ground arith
  handler-compute op is_add = ap (on_cpu vm) (exec_add_lem vm.cpu instr h)
  handler-compute op is_sub = ap (on_cpu vm) (exec_sub_lem vm.cpu instr h)
  handler-compute op is_mul = ap (λ e. e >>= on_cpu vm) (exec_mul_lem vm.cpu instr h m)
  handler-compute op is_div = ap (on_cpu vm) (exec_div_lem vm.cpu instr h m) ∙ on_cpu-if vm _ _ _
  handler-compute op is_modulo = ap (on_cpu vm) (exec_mod_lem vm.cpu instr h m) ∙ on_cpu-if vm _ _ _
  handler-compute op is_shl = ap (on_cpu vm) (exec_shl_lem vm.cpu instr h) ∙ on_cpu-if vm _ _ _
  handler-compute op is_shr = ap (on_cpu vm) (exec_shr_lem vm.cpu instr h m)
  handler-compute op is_cmp =
      unfold exec_cmp in
      ap (λ f. on_cpu vm (record vm.cpu { regs = record vm.cpu.regs { flags = f } }))
        (sub_flags_lem (vm.cpu.regs.rv instr.reg) (source_value vm.cpu instr) vm.cpu.regs.flags
          (h.words instr.reg) (source_value-lt h) h.four_flags)
