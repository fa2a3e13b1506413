-- ===== src/Cpu/Cycle/Invariant.antt =====
-- The machine invariant.
use rocketvm.Base.{ℕ, ◌%◌, ◌^◌, ◌<◌, ◌≤◌, ◌≡◌, arith, Below, update-Below}
use rocketvm.Isa.Instr.{Instr}
use rocketvm.Isa.Decode.{decode}
use rocketvm.Isa.Encoder.Layout.{decode-fields}
use rocketvm.Memory.Laws.{IsByteMemory}
use rocketvm.Cpu.State.{Cpu, Vm, set_rv, set_flags, set_rip, set_rsp, fault}
use rocketvm.Cpu.Alu.Spec.{IsReady}
use rocketvm.Cpu.Alu.Products.{HasMode}

-- What holds of the processor between two instructions. RSP is odd and stays inside the stack
-- region, and RIP is even.
pub record IsValid (cpu : Cpu) : Type 0 where
  pub words : Below (2 ^ 16) cpu.regs.rv
  pub four_flags : cpu.regs.flags < 16
  pub rip_word : cpu.regs.rip < 2 ^ 16
  pub rip_even : cpu.regs.rip % 2 ≡ 0
  pub rsp_low : 0xF001 ≤ cpu.regs.rsp
  pub rsp_high : cpu.regs.rsp ≤ 0xFEFF
  pub rsp_odd : cpu.regs.rsp % 2 ≡ 1
  pub rsb_unused : cpu.regs.rsb ≡ 0

-- A well-formed machine: a valid processor, and bytes in memory.
pub record IsWellFormed (vm : Vm) : Type 0 where
  pub valid : IsValid vm.cpu
  pub bytes : IsByteMemory vm.mem

-- The ranges of the fields of a decoded word.
pub record IsDecoded (instr : Instr) : Type 0 where
  pub register : instr.reg < 8
  pub has_mode : HasMode instr
  pub byte_operand : instr.operand < 2 ^ 8

pub decode-IsDecoded : (w : ℕ) → IsDecoded (decode w)
decode-IsDecoded w =
    rw (decode-fields w)
      (record { register = omega arith; has_mode = omega arith; byte_operand = omega arith })

module _ {cpu : Cpu} (v : IsValid cpu) where
  pub ready : {instr : Instr} → IsDecoded instr → IsReady cpu instr
  ready d = record { words = v.words; four_flags = v.four_flags; byte_operand = d.byte_operand }

  pub set_rv-IsValid : (i value : ℕ) → value < 2 ^ 16 → IsValid (set_rv i value cpu)
  set_rv-IsValid i value h =
      let words' = update-Below (2 ^ 16) cpu.regs.rv i value v.words h in assumption words'

  pub set_flags-IsValid : (flags : ℕ) → flags < 16 → IsValid (set_flags flags cpu)
  set_flags-IsValid flags h = assumption

  pub fault-IsValid : IsValid (fault cpu)
  fault-IsValid = assumption

  pub set_rip-IsValid : (addr : ℕ) → addr < 2 ^ 16 → addr % 2 ≡ 0 → IsValid (set_rip addr cpu)
  set_rip-IsValid addr h even = assumption

  pub set_rsp-IsValid :
      (rsp : ℕ) → 0xF001 ≤ rsp → rsp ≤ 0xFEFF → rsp % 2 ≡ 1 → IsValid (set_rsp rsp cpu)
  set_rsp-IsValid rsp low high odd = assumption
