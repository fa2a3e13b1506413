-- ===== src/Files/Laws.antt =====
-- What `rvm_io_read_file` returns, and what it leaves open.
use rocketvm.Base.{ℕ, ◌+◌, true, List, [], ◌∷◌, length, none, some, ◌≡◌, ◌≢◌, ◌↔◌, refl, arith}
use rocketvm.Files.{Calls, Resources, io_read_file}
use rocketvm.Vm.{read_file}

-- All calls on a file of these bytes succeed.
abbrev pub Succeeds : Calls → List ℕ → Type 0
Succeeds c file =
    (c.opens ≡ true)
    × (c.seeks_end ≡ true)
    × (c.tells ≡ some (length file))
    × (c.seeks_set ≡ true)
    × (c.allocates ≡ true)
    × (c.reads ≡ file)

reads_all :
    (c : Calls) (r : Resources) (file : List ℕ)
    → (io_read_file c r).0 ≡ some file
    → Succeeds c file × (file ≢ [])
unfolding io_read_file
reads_all c r [] h = absurd (ground arith)
reads_all c r (b ∷ bs) h = ground arith

all_read :
    (c : Calls) (r : Resources) (b : ℕ) (bs : List ℕ)
    → Succeeds c (b ∷ bs)
    → (io_read_file c r).0 ≡ some (b ∷ bs)
unfolding io_read_file
all_read c r b bs h = ground arith

empty_read : (c : Calls) (r : Resources) → Succeeds c [] → (io_read_file c r).0 ≡ none
unfolding io_read_file
empty_read c r h = ground arith

-- `rvm_io_read_file` returns a buffer with certain bytes exactly where the bytes are not empty and
-- each call succeeds: `fopen`, both `fseek`, `ftell` with their number, `malloc`, and `fread` with
-- those bytes.
pub io_read_file_iff :
    (c : Calls) (r : Resources) (file : List ℕ)
    → ((io_read_file c r).0 ≡ some file) ↔ (Succeeds c file × (file ≢ []))
io_read_file_iff c r file = (reads_all c r file, back file)
  where
    back : (file : List ℕ) → Succeeds c file × (file ≢ []) → (io_read_file c r).0 ≡ some file
    back [] (h, full) = absurd (full refl)
    back (b ∷ bs) (h, full) = all_read c r b bs h

-- On every path, `rvm_io_read_file` leaves as many streams open as there were, and one buffer more
-- where it returns one, else as many as there were.
pub io_read_file_resources :
    (c : Calls) (r : Resources)
    → let (file, after) = io_read_file c r in
      (after.streams ≡ r.streams)
      × (after.buffers ≡ (elim file [ none ↦ r.buffers | some _ ↦ r.buffers + 1 ]))
unfolding io_read_file
io_read_file_resources c r = ground arith

pub io_read_file-read_file :
    (c : Calls) (r : Resources) (file : List ℕ)
    → Succeeds c file
    → (io_read_file c r).0 ≡ read_file (some file)
unfolding read_file
io_read_file-read_file c r [] h = empty_read c r h
io_read_file-read_file c r (b ∷ bs) h = all_read c r b bs h
