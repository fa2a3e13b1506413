-- ===== src/Files.antt =====
-- rocketvm/common/utility/io.c, call by call. What the C library answers is a parameter; the streams
-- and buffers that are in use are counted.
pub mod Laws
use rocketvm.Base.{
  ℕ, ◌+◌, ◌-◌, Bool, true, false, not, ◌==◌, if◌then◌else◌, List, length, Option, none, some,
}

-- The answers to the calls on one file: whether `fopen`, the two `fseek` and `malloc` succeed, what
-- `ftell` returns (`none` for -1), and the bytes that `fread` stores.
pub record Calls : Type 0 where
  pub opens : Bool
  pub seeks_end : Bool
  pub tells : Option ℕ
  pub seeks_set : Bool
  pub allocates : Bool
  pub reads : List ℕ

-- Streams that are open and buffers that are allocated.
pub record Resources : Type 0 where
  pub streams : ℕ
  pub buffers : ℕ

abbrev pub fopen : Resources → Resources
fopen r = record r { streams = r.streams + 1 }

abbrev pub fclose : Resources → Resources
fclose r = record r { streams = r.streams - 1 }

abbrev pub malloc : Resources → Resources
malloc r = record r { buffers = r.buffers + 1 }

abbrev pub free : Resources → Resources
free r = record r { buffers = r.buffers - 1 }

-- From the `malloc` on, with the stream open.
unfoldable pub read_sized : ℕ → Calls → Resources → Option (List ℕ) × Resources
read_sized size c r =
    if not c.allocates
    then (none, fclose r)
    else if not (length c.reads == size)
    then (none, fclose (free (malloc r)))
    else (some c.reads, fclose (malloc r))

-- From the test of the size on.
unfoldable pub read_told : Option ℕ → Calls → Resources → Option (List ℕ) × Resources
unfolding read_sized
read_told none c r = (none, fclose r)
read_told (some size) c r =
    if size == 0
    then (none, fclose r)
    else if not c.seeks_set
    then (none, fclose r)
    else read_sized size c r

-- `rvm_io_read_file`.
unfoldable pub io_read_file : Calls → Resources → Option (List ℕ) × Resources
unfolding read_told
io_read_file c r =
    if not c.opens
    then (none, r)
    else if not c.seeks_end
    then (none, fclose (fopen r))
    else read_told c.tells c (fopen r)
