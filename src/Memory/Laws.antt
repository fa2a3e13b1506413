-- ===== src/Memory/Laws.antt =====
-- Words in memory, written and read.
use rocketvm.Base.{
  ℕ, ◌+◌, ◌-◌, ◌*◌, ◌%◌, ◌/◌, ◌^◌, ◌<◌, ◌≡◌, ◌≢◌, refl, ap, ◌∙◌, arith, lt→ltb, Below, update,
  update-Below,
}
use rocketvm.Base.Bits.{bit_and_mask, bit_or_low}
use rocketvm.Exec.{ok, ◌>>=◌}
use rocketvm.Memory.{Memory, memory_size, read_uint8, read_uint16, write_uint16}

-- A word of memory, by its two bytes.
abbrev pub word_at : Memory → ℕ → ℕ
word_at mem offset = mem.bytes (offset + 1) * 256 + mem.bytes offset

-- The memory after a word is stored at an offset.
abbrev pub with_word : Memory → ℕ → ℕ → Memory
with_word mem offset value = record {
  bytes = update (update mem.bytes offset (value % 256)) (offset + 1) (value / 256 % 256);
}

-- Every cell of the memory holds a byte.
abbrev pub IsByteMemory : Memory → Type 0
IsByteMemory mem = Below 256 mem.bytes

pub read_uint16_lem :
    (mem : Memory) (offset : ℕ)
    → IsByteMemory mem
    → offset < memory_size - 1
    → read_uint16 mem offset ≡ ok (word_at mem offset)
unfolding read_uint16
read_uint16_lem mem offset bytes h =
    let low = bytes offset in
    let high = bytes (offset + 1) in
    let e : mem.bytes (offset + 1) * 2 ^ 8 % 2 ^ 16 ≡ mem.bytes (offset + 1) * 256 = omega arith in
    rw
      (
        lt→ltb offset 0xFFFF h,
        e,
        bit_or_low 8 (mem.bytes (offset + 1) * 256) (mem.bytes offset) (omega arith) low,
      )
      refl

pub write_uint16_lem :
    (mem : Memory) (offset value : ℕ)
    → offset < memory_size - 1
    → write_uint16 mem offset value ≡ ok (with_word mem offset value)
unfolding write_uint16
write_uint16_lem mem offset value h =
    let e : value % 2 ^ 8 % 2 ^ 8 ≡ value % 256 = omega arith in
    let f : value / 2 ^ 8 % 2 ^ 8 % 2 ^ 8 ≡ value / 256 % 256 = omega arith in
    rw (lt→ltb offset 0xFFFF h, bit_and_mask 8 value, bit_and_mask 8 (value / 2 ^ 8), e, f) refl

pub with_word-IsByteMemory :
    (mem : Memory) (offset value : ℕ) → IsByteMemory mem → IsByteMemory (with_word mem offset value)
with_word-IsByteMemory mem offset value bytes =
    update-Below 256 (update mem.bytes offset (value % 256)) (offset + 1) (value / 256 % 256)
      (update-Below 256 mem.bytes offset (value % 256) bytes (omega arith)) (omega arith)

-- The word just stored.
pub word_at-with_word :
    (mem : Memory) (offset value : ℕ)
    → value < 2 ^ 16
    → word_at (with_word mem offset value) offset ≡ value
word_at-with_word mem offset value fits = ground arith

-- In a memory of bytes, a 16-bit word written at an offset below 0xFFFF is read back from the same
-- offset.
pub read_uint16-write_uint16 :
    (mem : Memory) (offset value : ℕ)
    → IsByteMemory mem
    → offset < memory_size - 1
    → value < 2 ^ 16
    → (write_uint16 mem offset value >>= λ mem'. read_uint16 mem' offset) ≡ ok value
read_uint16-write_uint16 mem offset value bytes h fits = rw (write_uint16_lem mem offset value h) (
    read_uint16_lem (with_word mem offset value) offset
      (with_word-IsByteMemory mem offset value bytes) h
    ∙ ap ok (word_at-with_word mem offset value fits))

-- Writing a word at an offset below 0xFFFF changes no byte other than the two at that offset.
pub read_uint8-write_uint16 :
    (mem : Memory) (offset value other : ℕ)
    → offset < memory_size - 1
    → other ≢ offset
    → other ≢ offset + 1
    → (write_uint16 mem offset value >>= λ mem'. ok (read_uint8 mem' other))
      ≡ ok (read_uint8 mem other)
unfolding read_uint8
read_uint8-write_uint16 mem offset value other h p q =
    rw (write_uint16_lem mem offset value h) (ground arith)
