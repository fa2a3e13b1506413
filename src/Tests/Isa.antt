-- ===== src/Tests/Isa.antt =====
-- Words of rocketvm/common/isa/encoder.h, and memory, at concrete values.
use rocketvm.Base.{◌≡◌, refl, arith}
use rocketvm.Exec.{ok, ◌>>=◌}
use rocketvm.Memory.{Memory, write_uint16, read_uint16}
use rocketvm.Memory.Laws.{read_uint16-write_uint16}
use rocketvm.Isa.Encoder.{encode}
use rocketvm.Isa.Encoder.Layout.{decode-encode}
use rocketvm.Isa.Decode.{decode}
use rocketvm.Base.Print.{bytes, decimal, hexadecimal, padded}
use rocketvm.Isa.Names.{opcode_to_string, instr_mode_to_string}
use rocketvm.Cpu.Dump.{instr_dump, opcode_name, upper}

-- `ADD rv1, 3`.
add_word : encode 3 1 0 3 ≡ 0x3203
unfolding encode
add_word = refl

decode-encode_example :
    let i = decode (encode 3 1 0 3) in (i.opcode ≡ 3) × (i.reg ≡ 1) × (i.mode ≡ 0) × (i.operand ≡ 3)
decode-encode_example = decode-encode 3 1 0 3

add_dump :
    instr_dump (decode 0x3203) ≡ bytes "INSTR: opcode=ADD reg=RV1 mode=IMM_OR_ADDR operand=0x03"
unfolding instr_dump opcode_name decode opcode_to_string decimal instr_mode_to_string padded
    hexadecimal upper
add_dump = refl

abbrev zeros : Memory
zeros = record { bytes = λ i. 0 }

read_uint16-write_uint16_example :
    (write_uint16 zeros 0x8000 0xBEEF >>= λ mem'. read_uint16 mem' 0x8000) ≡ ok 0xBEEF
read_uint16-write_uint16_example =
    read_uint16-write_uint16 zeros 0x8000 0xBEEF (λ i. omega arith) (omega arith) (omega arith)
