-- ===== src/Isa/Names.antt =====
-- rocketvm/common/isa/utility.c: the names of opcodes, registers and modes.
use rocketvm.Base.{ℕ, List, ◌==◌, if◌then◌else◌}
use rocketvm.Base.Print.{bytes}
use rocketvm.Isa.Opcode.{
  Opcode, mov, load, store, add, sub, mul, div, modulo, shl, shr, cmp, jmp, jz, jnz, call, ret,
}
use rocketvm.Isa.Instr.{mode_imm_or_addr, mode_reg}

-- `rvm_opcode_to_string`; its default is for values that are no enumerator.
unfoldable pub opcode_to_string : Opcode → List ℕ
opcode_to_string mov = bytes "MOV"
opcode_to_string load = bytes "LOAD"
opcode_to_string store = bytes "STORE"
opcode_to_string add = bytes "ADD"
opcode_to_string sub = bytes "SUB"
opcode_to_string mul = bytes "MUL"
opcode_to_string div = bytes "DIV"
opcode_to_string modulo = bytes "MOD"
opcode_to_string shl = bytes "SHL"
opcode_to_string shr = bytes "SHR"
opcode_to_string cmp = bytes "CMP"
opcode_to_string jmp = bytes "JMP"
opcode_to_string jz = bytes "JZ"
opcode_to_string jnz = bytes "JNZ"
opcode_to_string call = bytes "CALL"
opcode_to_string ret = bytes "RET"

-- `rvm_reg_to_string`.
unfoldable pub reg_to_string : ℕ → List ℕ
reg_to_string reg =
    if reg == 0
    then bytes "RV0"
    else if reg == 1
    then bytes "RV1"
    else if reg == 2
    then bytes "RV2"
    else if reg == 3
    then bytes "RV3"
    else if reg == 4
    then bytes "RV4"
    else if reg == 5
    then bytes "RV5"
    else if reg == 6
    then bytes "RV6"
    else if reg == 7
    then bytes "RV7"
    else bytes "INVALID_REG"

-- `rvm_instr_mode_to_string`.
unfoldable pub instr_mode_to_string : ℕ → List ℕ
instr_mode_to_string mode =
    if mode == mode_imm_or_addr
    then bytes "IMM_OR_ADDR"
    else if mode == mode_reg
    then bytes "REG"
    else bytes "INVALID"
