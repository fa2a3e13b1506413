-- ===== src/Memory.antt =====
-- rocketvm/memory.h: the 64 KiB memory, its regions, and reads and writes of bytes and words.
pub mod Laws
use rocketvm.Base.{
  ℕ, ◌+◌, ◌-◌, ◌%◌, ◌^◌, bit_and, bit_or, ◌<<<◌, ◌>>>◌, ltb, if◌then◌else◌, Array, update,
}
use rocketvm.Exec.{Exec, ok, crash, assertion}

abbrev pub memory_size : ℕ
memory_size = 0x10000

abbrev pub program_start : ℕ
program_start = 0x0000

abbrev pub program_end : ℕ
program_end = 0x7FFF

abbrev pub stack_start : ℕ
stack_start = 0xF000

abbrev pub stack_end : ℕ
stack_end = 0xFEFF

-- `rvm_memory_t`: the byte at each offset below `memory_size`.
pub record Memory : Type 0 where
  pub bytes : Array

-- `rvm_memory_read_uint8`.
unfoldable pub read_uint8 : Memory → ℕ → ℕ
read_uint8 mem offset = mem.bytes offset

-- `rvm_memory_write_uint8`.
unfoldable pub write_uint8 : Memory → ℕ → ℕ → Memory
write_uint8 mem offset value = record { bytes = update mem.bytes offset value }

-- `rvm_memory_read_uint16`: little-endian, after the assertion on the offset.
unfoldable pub read_uint16 : Memory → ℕ → Exec ℕ
read_uint16 mem offset =
    if ltb offset (memory_size - 1)
    then (let low = mem.bytes offset in
        let high = mem.bytes (offset + 1) in ok (bit_or ((high <<< 8) % 2 ^ 16) low))
    else crash assertion

-- `rvm_memory_write_uint16`: the low byte first, then the high byte.
unfoldable pub write_uint16 : Memory → ℕ → ℕ → Exec Memory
write_uint16 mem offset value =
    if ltb offset (memory_size - 1)
    then (let low = bit_and value 0xFF % 2 ^ 8 in
        let high = bit_and (value >>> 8) 0xFF % 2 ^ 8 in
        ok (record { bytes = update (update mem.bytes offset low) (offset + 1) high }))
    else crash assertion
