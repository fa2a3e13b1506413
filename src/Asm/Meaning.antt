-- ===== src/Asm/Meaning.antt =====
-- What an assembly instruction is to do on a machine, without its word: the abstract machine of the
-- assembly language. It follows specification/Architecture.md, and the code where the two differ or
-- the document is silent: SHL by 0 keeps the flags, MUL overflows an `int`, a label as a memory
-- operand stands for the number of its instruction, and odd addresses are faults. Registers are taken
-- modulo 8, immediates and memory addresses in instructions modulo 2 ^ 8, and RIP is behind the
-- instruction. The bits that a shift moves out, and the push of CALL, are those of Cpu/Alu/Shifts
-- and Cpu/Ctrlf/Stack.
pub mod Compute
pub mod Jumps
pub mod Does
pub mod Data
pub mod Control
pub mod Defined
pub mod Correct
pub mod Execution
pub mod Strays
use rocketvm.Base.{
  ℕ, ◌+◌, ◌-◌, ◌*◌, ◌/◌, ◌%◌, ◌^◌, Bool, true, false, not, ◌&&◌, ◌==◌, ltb, leb, if◌then◌else◌,
  Option, none, some,
}
use rocketvm.Base.Int.{signed16, ◌+ℤ◌, ◌-ℤ◌, ◌==ℤ◌}
use rocketvm.Exec.{Exec, ok, crash, signed_overflow, ◌>>=◌}
use rocketvm.Isa.Opcode.{
  Opcode, mov, load, store, add, sub, mul, div, modulo, shl, shr, cmp, jmp, jz, jnz, call, ret,
}
use rocketvm.Memory.{stack_start, stack_end}
use rocketvm.Memory.Laws.{word_at, with_word}
use rocketvm.Cpu.State.{Cpu, Vm, set_rv, set_rip, set_rsp, set_flags, set_halt, fault}
use rocketvm.Cpu.Flags.{flag_rz, flag_rc, flag_ro, check, flag_word}
use rocketvm.Cpu.Alu.Shifts.{bit_out_left, sign_flips, bit_out_right}
use rocketvm.Cpu.Ctrlf.Stack.{called}
use rocketvm.Cpu.Cycle.{on_cpu}
use rocketvm.Asm.Program.{
  mem_imm, mem_reg, mem_label, Operand, imm, reg, label, mem, AsmInstr, Program, find_label_address,
}

-- The value of a source operand.
abbrev pub source : Cpu → Operand → Option ℕ
source cpu (imm n) = some (n % 256)
source cpu (reg r) = some (cpu.regs.rv (r % 8))
source cpu _ = none

abbrev pub low_byte : Option ℕ → Option ℕ
low_byte none = none
low_byte (some a) = some (a % 256)

-- The address of a memory operand. A label stands for the number of its instruction.
abbrev pub address : Program → Cpu → Operand → Option ℕ
address program cpu (mem (mem_imm n)) = some (n % 256)
address program cpu (mem (mem_reg r)) = some (cpu.regs.rv (r % 8))
address program cpu (mem (mem_label name)) = low_byte (find_label_address program name)
address program cpu _ = none

abbrev pub place : Option ℕ → Option ℕ
place none = none
place (some a) = some (2 * a % 2 ^ 16)

-- The target of a jump or call. A label stands for the address of its instruction.
abbrev pub target : Program → Cpu → Operand → Option ℕ
target program cpu (label name) = place (find_label_address program name)
target program cpu (reg r) = some (cpu.regs.rv (r % 8))
target program cpu _ = none

-- A result is stored, RZ and RN by the result, RC and RO as given.
abbrev pub keep : ℕ → ℕ → Bool → Bool → Cpu → Cpu
keep d result rc ro cpu =
    set_rv d result (set_flags (flag_word (result == 0) (leb 0x8000 result) rc ro) cpu)

-- RZ, RN, RC and RO after the comparison of `x` with `y`.
abbrev pub compared : ℕ → ℕ → ℕ
compared x y =
    let r = (x + 2 ^ 16 - y) % 2 ^ 16 in
    flag_word (r == 0) (leb 0x8000 r) (ltb x y) (not (signed16 r ==ℤ signed16 x -ℤ signed16 y))

-- The opcodes that compute, on destination register `d` and source value `v`.
unfoldable pub compute : Opcode → ℕ → ℕ → Cpu → Exec Cpu
compute mov d v cpu = ok (set_rv d v cpu)
compute add d v cpu =
    let x = cpu.regs.rv d in
    let r = (x + v) % 2 ^ 16 in
    ok (keep d r (leb (2 ^ 16) (x + v)) (not (signed16 r ==ℤ signed16 x +ℤ signed16 v)) cpu)
compute sub d v cpu =
    let x = cpu.regs.rv d in
    let r = (x + 2 ^ 16 - v) % 2 ^ 16 in
    ok (keep d r (ltb x v) (not (signed16 r ==ℤ signed16 x -ℤ signed16 v)) cpu)
compute mul d v cpu =
    let p = cpu.regs.rv d * v in
    let large = leb (2 ^ 16) p in
    if ltb p (2 ^ 31) then ok (keep d (p % 2 ^ 16) large large cpu) else crash signed_overflow
compute div d v cpu =
    if v == 0
    then ok (set_halt cpu)
    else ok (
        keep d (cpu.regs.rv d / v) (check flag_rc cpu.regs.flags) (check flag_ro cpu.regs.flags)
          cpu)
compute modulo d v cpu =
    if v == 0
    then ok (set_halt cpu)
    else ok (
        keep d (cpu.regs.rv d % v) (check flag_rc cpu.regs.flags) (check flag_ro cpu.regs.flags)
          cpu)
compute shl d v cpu =
    let x = cpu.regs.rv d in
    let s = v % 16 in
    if s == 0
    then ok cpu
    else ok (keep d (x * 2 ^ s % 2 ^ 16) (bit_out_left x s) (sign_flips x s) cpu)
compute shr d v cpu =
    let x = cpu.regs.rv d in
    let s = v % 16 in
    ok (keep d (x / 2 ^ s) (not (s == 0) && bit_out_right x s) (check flag_ro cpu.regs.flags) cpu)
compute cmp d v cpu = ok (set_flags (compared (cpu.regs.rv d) v) cpu)
compute _ d v cpu = ok cpu

-- Control goes to an even address; an odd one is a fault.
abbrev pub goto : ℕ → Cpu → Cpu
goto t cpu = if t % 2 == 0 then set_rip t cpu else fault cpu

-- A jump or call with a target.
unfoldable pub transfer : Opcode → ℕ → Vm → Exec Vm
transfer jmp t vm = on_cpu vm (goto t vm.cpu)
transfer jz t vm = on_cpu vm (if check flag_rz vm.cpu.regs.flags then goto t vm.cpu else vm.cpu)
transfer jnz t vm = on_cpu vm (if check flag_rz vm.cpu.regs.flags then vm.cpu else goto t vm.cpu)
transfer call t vm =
    if t % 2 == 0
    then (if ltb vm.cpu.regs.rsp (stack_start + 2)
        then ok (record vm { cpu = fault vm.cpu })
        else ok (called vm t))
    else ok (record vm { cpu = fault vm.cpu })
transfer _ t vm = ok vm

-- RET: a halt on the empty stack, else a jump to the word on top.
unfoldable pub return_from : Vm → Exec Vm
return_from vm =
    let popped = set_rsp (vm.cpu.regs.rsp + 2) vm.cpu in
    if ltb (stack_end - 1) vm.cpu.regs.rsp
    then ok (record vm { cpu = set_halt vm.cpu })
    else ok (record vm { cpu = goto (word_at vm.mem vm.cpu.regs.rsp) popped })

unfoldable pub load_from : ℕ → ℕ → Vm → Exec Vm
load_from d addr vm =
    if addr % 2 == 0
    then ok (record vm { cpu = set_rv d (word_at vm.mem addr) vm.cpu })
    else ok (record vm { cpu = fault vm.cpu })

unfoldable pub store_to : ℕ → ℕ → Vm → Exec Vm
store_to s addr vm =
    if addr % 2 == 0
    then ok (record vm { mem = with_word vm.mem addr (vm.cpu.regs.rv s) })
    else ok (record vm { cpu = fault vm.cpu })

-- A value, where the operand has one, decides what happens.
abbrev pub with_value : Option ℕ → (ℕ → Exec Vm) → Option (Exec Vm)
with_value none f = none
with_value (some v) f = some (f v)

abbrev pub means_compute : Opcode → Operand → Operand → Vm → Option (Exec Vm)
means_compute op (reg d) b vm =
    with_value (source vm.cpu b) (λ v. compute op (d % 8) v vm.cpu >>= on_cpu vm)
means_compute op _ b vm = none

abbrev pub means_load : Program → Operand → Operand → Vm → Option (Exec Vm)
means_load program (reg d) b vm =
    with_value (address program vm.cpu b) (λ a. load_from (d % 8) a vm)
means_load program _ b vm = none

abbrev pub means_store : Program → Operand → Operand → Vm → Option (Exec Vm)
means_store program a (reg s) vm =
    with_value (address program vm.cpu a) (λ t. store_to (s % 8) t vm)
means_store program a _ vm = none

abbrev pub means_control : Program → Opcode → Operand → Vm → Option (Exec Vm)
means_control program op a vm = with_value (target program vm.cpu a) (λ t. transfer op t vm)

-- The meaning of an instruction; `none` where its operands do not fit its opcode or a label is not
-- in the program.
unfoldable pub means : Program → Opcode → Operand → Operand → Vm → Option (Exec Vm)
means program load a b vm = means_load program a b vm
means program store a b vm = means_store program a b vm
means program jmp a b vm = means_control program jmp a vm
means program jz a b vm = means_control program jz a vm
means program jnz a b vm = means_control program jnz a vm
means program call a b vm = means_control program call a vm
means program ret a b vm = some (return_from vm)
means program op a b vm = means_compute op a b vm
