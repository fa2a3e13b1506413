-- ===== src/Tests/Handlers.antt =====
-- The handlers at concrete processors.
use rocketvm.Base.{◌≡◌, refl, arith, true, false}
use rocketvm.Base.Int.{◌+ℤ◌, ◌-ℤ◌}
use rocketvm.Exec.{ok, crash, signed_overflow, ◌>>=◌}
use rocketvm.Isa.Instr.{Instr}
use rocketvm.Memory.Laws.{with_word}
use rocketvm.Cpu.State.{Cpu, Vm, set_rv, fault, source_value}
use rocketvm.Cpu.Flags.{check}
use rocketvm.Cpu.Alu.{exec_add, exec_sub, exec_mul, exec_div, exec_mod, exec_shl, exec_shr}
use rocketvm.Cpu.Alu.Spec.{IsReady, with_result}
use rocketvm.Cpu.Alu.Sums.{exec_add_lem, exec_sub_lem}
use rocketvm.Cpu.Alu.Products.{exec_mul_lem, exec_div_lem, exec_mod_lem}
use rocketvm.Cpu.Alu.Shifts.{exec_shl_lem, exec_shr_lem}
use rocketvm.Cpu.Transfer.{exec_load, exec_store}
use rocketvm.Cpu.Transfer.Laws.{exec_load_lem, exec_store_lem}
use rocketvm.Cpu.Ctrlf.{jump_target, exec_cmp, exec_jmp, exec_jz, exec_jnz, exec_call, exec_ret}
use rocketvm.Cpu.Ctrlf.Pairs.{exec_call-exec_ret, exec_jz-exec_cmp}

-- Every register holds 0xFFFF, and the stack has two words.
abbrev cpu : Cpu
cpu = record {
  regs = record { rv = λ i. 0xFFFF; rip = 2; rsp = 0xFEFB; rsb = 0; flags = 4 };
  halt = false;
}

abbrev vm : Vm
vm = record { cpu = cpu; mem = record { bytes = λ i. 0x10 } }

-- An instruction on rv1 with an immediate.
abbrev immediate : Instr
immediate = record { raw = 0; opcode = 0; reg = 1; mode = 0; operand = 4 }

-- An instruction on rv1 and rv2.
abbrev registers : Instr
registers = record { raw = 0; opcode = 0; reg = 1; mode = 1; operand = 2 }

IsReady-immediate : IsReady cpu immediate
IsReady-immediate = record {
  words = λ i. omega arith;
  four_flags = omega arith;
  byte_operand = omega arith;
}

IsReady-registers : IsReady cpu registers
IsReady-registers = record {
  words = λ i. omega arith;
  four_flags = omega arith;
  byte_operand = omega arith;
}

-- 0xFFFF + 4 is 3 with a carry.
exec_add_lem_example : exec_add cpu immediate ≡ with_result cpu immediate 3 true false
unfolding source_value ◌+ℤ◌
exec_add_lem_example = exec_add_lem cpu immediate IsReady-immediate

exec_sub_lem_example : exec_sub cpu immediate ≡ with_result cpu immediate 0xFFFB false false
unfolding source_value ◌-ℤ◌
exec_sub_lem_example = exec_sub_lem cpu immediate IsReady-immediate

-- 0xFFFF * 0xFFFF is beyond `int`.
exec_mul_lem_example : exec_mul cpu registers ≡ crash signed_overflow
unfolding source_value
exec_mul_lem_example = exec_mul_lem cpu registers IsReady-registers (omega arith)

exec_div_lem_example : exec_div cpu immediate ≡ with_result cpu immediate 0x3FFF true false
unfolding source_value check
exec_div_lem_example = exec_div_lem cpu immediate IsReady-immediate (omega arith)

exec_mod_lem_example : exec_mod cpu immediate ≡ with_result cpu immediate 3 true false
unfolding source_value check
exec_mod_lem_example = exec_mod_lem cpu immediate IsReady-immediate (omega arith)

exec_shl_lem_example : exec_shl cpu immediate ≡ with_result cpu immediate 0xFFF0 true false
unfolding source_value
exec_shl_lem_example = exec_shl_lem cpu immediate IsReady-immediate

exec_shr_lem_example : exec_shr cpu immediate ≡ with_result cpu immediate 0x0FFF true false
unfolding source_value check
exec_shr_lem_example = exec_shr_lem cpu immediate IsReady-immediate (omega arith)

exec_load_lem_example : exec_load vm immediate ≡ ok (record vm { cpu = set_rv 1 0x1010 cpu })
unfolding source_value
exec_load_lem_example =
    exec_load_lem vm immediate (omega arith) (λ i. omega arith) (unfold source_value in omega arith)

-- The address 0xFFFF is odd.
exec_store_lem_example : exec_store vm registers ≡ ok (record vm { cpu = fault cpu })
unfolding source_value
exec_store_lem_example =
    exec_store_lem vm registers (omega arith) (unfold source_value in omega arith)

-- A call 8 bytes back from address 2 wraps around to 0xFFFA.
abbrev call_back : Instr
call_back = record { raw = 0xE7F8; opcode = 0xE; reg = 3; mode = 1; operand = 0xF8 }

target : jump_target cpu call_back ≡ 0xFFFA
unfolding jump_target rocketvm.Cpu.Ctrlf.jump_offset ◌+ℤ◌
target = refl

exec_call-exec_ret_example :
    (exec_call vm call_back >>= λ vm'. exec_ret vm' registers)
    ≡ ok (record vm { mem = with_word vm.mem 0xFEF9 2 })
unfolding jump_target rocketvm.Cpu.Ctrlf.jump_offset ◌+ℤ◌
exec_call-exec_ret_example =
    exec_call-exec_ret vm call_back registers (λ i. omega arith) (omega arith) refl (omega arith)
      refl (omega arith) (omega arith)

exec_jz-exec_cmp_example :
    (exec_jz (exec_cmp cpu registers) call_back ≡ exec_jmp (exec_cmp cpu registers) call_back)
    × (exec_jnz (exec_cmp cpu registers) call_back ≡ exec_cmp cpu registers)
unfolding source_value
exec_jz-exec_cmp_example = exec_jz-exec_cmp cpu registers call_back IsReady-registers
