-- ===== src/Cpu/Alu.antt =====
-- rocketvm/cpu/cpu_alu.c. The handlers ignore the memory, so they are functions of the processor.
-- A `uint32_t` difference wraps modulo 2 ^ 32. The other intermediate values fit their types, but for
-- the `int` product of two registers, whose overflow is undefined.
pub mod Spec
pub mod Sums
pub mod Products
pub mod Shifts
use rocketvm.Base.{
  ℕ, ◌+◌, ◌-◌, ◌*◌, ◌/◌, ◌%◌, ◌^◌, bit_and, bit_or, bit_xor, not, ◌==◌, Bool, true, false, ◌&&◌,
  if◌then◌else◌, ltb, ◌<<<◌, ◌>>>◌,
}
use rocketvm.Exec.{Exec, ok, crash, signed_overflow, ◌>>=◌}
use rocketvm.Isa.Instr.{Instr, mode_imm_or_addr, mode_reg}
use rocketvm.Cpu.State.{Cpu, set_rv, set_flags, set_halt, source_value}
use rocketvm.Cpu.Flags.{flag_rz, flag_rn, flag_rc, flag_ro, clear, set_if}

-- `RVM_CPU_FLAG_RZ | RVM_CPU_FLAG_RN`, with RC, and with RO.
abbrev pub flags_zn : ℕ
flags_zn = bit_or flag_rz flag_rn

abbrev pub flags_znc : ℕ
flags_znc = bit_or flags_zn flag_rc

abbrev pub flags_znco : ℕ
flags_znco = bit_or flags_znc flag_ro

-- The two tests on a result that every handler makes: RZ, then RN.
unfoldable pub set_zn : ℕ → ℕ → ℕ
set_zn result flags =
    set_if (not (bit_and (result % 2 ^ 16) 0x8000 == 0)) flag_rn
      (set_if (bit_and result 0xFFFF == 0) flag_rz flags)

-- `rvm_cpu_exec_add`.
unfoldable pub exec_add : Cpu → Instr → Cpu
unfolding source_value set_zn
exec_add cpu instr =
    let dst = cpu.regs.rv instr.reg in
    let src = source_value cpu instr in
    let result = dst + src in
    let word = result % 2 ^ 16 in
    let overflow = not (bit_and (bit_and (bit_xor dst word) (bit_xor src word)) 0x8000 == 0) in
    let cleared = clear flags_znco cpu.regs.flags in
    let carried = set_if (ltb 0xFFFF result) flag_rc (set_zn result cleared) in
    set_rv instr.reg word (set_flags (set_if overflow flag_ro carried) cpu)

-- `dst - src` as `uint32_t`.
abbrev pub difference : ℕ → ℕ → ℕ
difference dst src = (dst + 2 ^ 32 - src) % 2 ^ 32

-- The flags that `rvm_cpu_exec_sub` and `rvm_cpu_exec_cmp` both compute.
unfoldable pub sub_flags : ℕ → ℕ → ℕ → ℕ
unfolding set_zn
sub_flags dst src flags =
    let result = difference dst src in
    let borrow = ltb dst src in
    let overflow =
      not (bit_and (bit_and (bit_xor dst src) (bit_xor dst (result % 2 ^ 16))) 0x8000 == 0) in
    set_if overflow flag_ro (set_if borrow flag_rc (set_zn result (clear flags_znco flags)))

-- `rvm_cpu_exec_sub`.
unfoldable pub exec_sub : Cpu → Instr → Cpu
unfolding source_value sub_flags
exec_sub cpu instr =
    let dst = cpu.regs.rv instr.reg in
    let src = source_value cpu instr in
    set_rv instr.reg (difference dst src % 2 ^ 16)
      (set_flags (sub_flags dst src cpu.regs.flags) cpu)

-- `x * y` for two `uint16_t`, which C multiplies as `int`.
unfoldable pub int_product : ℕ → ℕ → Exec ℕ
int_product x y = if ltb (x * y) (2 ^ 31) then ok (x * y) else crash signed_overflow

-- The product of `rvm_cpu_exec_mul`; a mode other than the two leaves 0.
unfoldable pub mul_result : Cpu → Instr → Exec ℕ
unfolding int_product
mul_result cpu instr =
    if instr.mode == mode_imm_or_addr
    then int_product (cpu.regs.rv instr.reg) instr.operand
    else if instr.mode == mode_reg
    then int_product (cpu.regs.rv instr.reg) (cpu.regs.rv (bit_and instr.operand 0x7))
    else ok 0

-- The rest of `rvm_cpu_exec_mul`, from the product.
unfoldable pub mul_finish : Cpu → Instr → ℕ → Cpu
unfolding set_zn
mul_finish cpu instr result =
    let large = ltb 0xFFFF result in
    let flags = set_zn result (clear flags_znco cpu.regs.flags) in
    set_rv instr.reg (result % 2 ^ 16)
      (set_flags (set_if large flag_ro (set_if large flag_rc flags)) cpu)

-- `rvm_cpu_exec_mul`.
unfoldable pub exec_mul : Cpu → Instr → Exec Cpu
exec_mul cpu instr = do result ← mul_result cpu instr; ok (mul_finish cpu instr result)

-- What `rvm_cpu_exec_div` and `rvm_cpu_exec_mod` do with a result.
unfoldable pub division_finish : Cpu → Instr → ℕ → Cpu
unfolding set_zn
division_finish cpu instr result =
    set_rv instr.reg (result % 2 ^ 16)
      (set_flags (set_zn result (clear flags_zn cpu.regs.flags)) cpu)

-- `rvm_cpu_exec_div`: division by zero halts.
unfoldable pub exec_div : Cpu → Instr → Cpu
exec_div cpu instr =
    let dst = cpu.regs.rv instr.reg in
    let value = cpu.regs.rv (bit_and instr.operand 0x7) in
    if instr.mode == mode_imm_or_addr
    then (if instr.operand == 0
        then set_halt cpu
        else division_finish cpu instr (dst / instr.operand))
    else if instr.mode == mode_reg
    then (if value == 0 then set_halt cpu else division_finish cpu instr (dst / value))
    else division_finish cpu instr 0

-- `rvm_cpu_exec_mod`: the remainder by zero halts.
unfoldable pub exec_mod : Cpu → Instr → Cpu
exec_mod cpu instr =
    let dst = cpu.regs.rv instr.reg in
    let value = cpu.regs.rv (bit_and instr.operand 0x7) in
    if instr.mode == mode_imm_or_addr
    then (if instr.operand == 0
        then set_halt cpu
        else division_finish cpu instr (dst % instr.operand))
    else if instr.mode == mode_reg
    then (if value == 0 then set_halt cpu else division_finish cpu instr (dst % value))
    else division_finish cpu instr 0

-- `rvm_cpu_exec_shl` past its early return.
unfoldable pub shl_by : Cpu → Instr → ℕ → Cpu
shl_by cpu instr shift =
    let dst = cpu.regs.rv instr.reg in
    let result = bit_and (dst <<< shift) 0xFFFF in
    let flags = set_zn result (clear flags_znco cpu.regs.flags) in
    let out = not (shift == 0) && not (bit_and (dst >>> (16 - shift)) 1 == 0) in
    let flipped = shift == 1 && not (bit_and (bit_xor dst (result % 2 ^ 16)) 0x8000 == 0) in
    set_rv instr.reg (result % 2 ^ 16)
      (set_flags (set_if flipped flag_ro (set_if out flag_rc flags)) cpu)

-- `rvm_cpu_exec_shl`: a shift by 0 returns before it touches the flags.
unfoldable pub exec_shl : Cpu → Instr → Cpu
exec_shl cpu instr =
    let shift = bit_and (source_value cpu instr) 0xF in
    if shift == 0 then cpu else shl_by cpu instr shift

-- The shift of `rvm_cpu_exec_shr`, and its result; a mode other than the two leaves both 0.
unfoldable pub shr_amount : Cpu → Instr → ℕ
shr_amount cpu instr =
    if instr.mode == mode_imm_or_addr
    then bit_and instr.operand 0xF
    else if instr.mode == mode_reg
    then bit_and (cpu.regs.rv (bit_and instr.operand 0x7)) 0xF
    else 0

unfoldable pub shr_result : Cpu → Instr → ℕ
shr_result cpu instr =
    let shifted = cpu.regs.rv instr.reg >>> shr_amount cpu instr in
    if instr.mode == mode_imm_or_addr
    then shifted
    else if instr.mode == mode_reg
    then shifted
    else 0

-- `rvm_cpu_exec_shr`.
unfoldable pub exec_shr : Cpu → Instr → Cpu
exec_shr cpu instr =
    let dst = cpu.regs.rv instr.reg in
    let shift = shr_amount cpu instr in
    let result = shr_result cpu instr in
    let flags = set_zn result (clear flags_znc cpu.regs.flags) in
    let out = not (shift == 0) && not (bit_and (dst >>> (shift - 1)) 1 == 0) in
    set_rv instr.reg (result % 2 ^ 16) (set_flags (set_if out flag_rc flags) cpu)
