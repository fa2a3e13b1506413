-- ===== src/Vm/Load.antt =====
-- What `rvm_vm_create` and `rvm_vm_load` leave, up to the end of a program that was loaded.
use rocketvm.Base.{
  ℕ, suc, ◌+◌, ◌-◌, ◌≤◌, ◌<◌, ltb, leb, ◌==◌, if◌then◌else◌, ◌≡◌, refl, ◌∙◌, arith, Bool-cases, inl,
  inr, List, [], ◌∷◌, length, get_or, ◌⊎◌, not-lt→ltb, AllBelow, update, update-Below, Option, some,
  none,
}
use rocketvm.Memory.{Memory, read_uint8}
use rocketvm.Memory.Laws.{IsByteMemory}
use rocketvm.Cpu.State.{Vm}
use rocketvm.Cpu.Cycle.{success, failure}
use rocketvm.Cpu.Cycle.Invariant.{IsWellFormed}
use rocketvm.Vm.{create, read_file, copy_bytes, load_image, load, Outcome}
use rocketvm.Vm.Runs.{Runs, GoodOutcome, Runs-GoodOutcome}

-- The new machine is well-formed.
pub create-IsWellFormed : IsWellFormed create
create-IsWellFormed = record {
  valid = record {
    words = λ i. omega arith;
    four_flags = omega arith;
    rip_word = omega arith;
    rip_even = omega arith;
    rsp_low = omega arith;
    rsp_high = omega arith;
    rsp_odd = omega arith;
    rsb_unused = refl;
  };
  bytes = λ i. omega arith;
}

-- The copy puts byte `i` of the image at offset `at + i`, and changes nothing outside.
pub copy_bytes_lem :
    (at : ℕ) (image : List ℕ) (mem : Memory) (j : ℕ)
    → (copy_bytes at image mem).bytes j ≡ (
        if leb at j
        then (if ltb (j - at) (length image) then get_or image (j - at) 0 else mem.bytes j)
        else mem.bytes j)
unfolding copy_bytes
copy_bytes_lem at [] mem j = ground arith
copy_bytes_lem at (b ∷ bs) mem j =
    copy_bytes_lem (at + 1) bs (record { bytes = update mem.bytes at b }) j
    ∙ elim (Bool-cases (leb at j)) [
      | inr below ↦ ground arith
      | inl above ↦ elim (Bool-cases (j == at)) [
        | inl here ↦ let e : j - at ≡ 0 = ground arith in rw e (ground arith)
        | inr later ↦ let e : j - at ≡ suc (j - (at + 1)) = ground arith in rw e (ground arith)
      ]
    ]

copy_bytes-IsByteMemory :
    (at : ℕ) (image : List ℕ) (mem : Memory)
    → AllBelow 256 image
    → IsByteMemory mem
    → IsByteMemory (copy_bytes at image mem)
unfolding copy_bytes
copy_bytes-IsByteMemory at [] mem h bytes = bytes
copy_bytes-IsByteMemory at (b ∷ bs) mem h bytes =
    copy_bytes-IsByteMemory (at + 1) bs (record { bytes = update mem.bytes at b }) h.1
      (update-Below 256 mem.bytes at b bytes h.0)

-- If the file cannot be read, is empty or has more than 65536 bytes, `rvm_vm_load` returns -1 and
-- the machine is unchanged.
pub load-refuses :
    (vm : Vm) (file : Option (List ℕ))
    → ((image : List ℕ) → file ≡ some image → (image ≡ []) ⊎ (0x10000 < length image))
    → load vm file ≡ (vm, failure)
unfolding load load_image read_file
load-refuses vm none h = refl
load-refuses vm (some []) h = refl
load-refuses vm (some (b ∷ bs)) h = ground (arith, h (b ∷ bs) refl)

-- A file of 1 to 65536 bytes is put at the start of the memory; the rest of the memory and the
-- processor are kept, and 0 is returned.
pub load-accepts :
    (vm : Vm) (image : List ℕ)
    → 0 < length image
    → length image ≤ 0x10000
    → let r = load vm (some image) in
      (r.1 ≡ success)
      × (r.0.cpu ≡ vm.cpu)
      × ((j : ℕ)
          → read_uint8 r.0.mem j
            ≡ (if ltb j (length image) then get_or image j 0 else read_uint8 vm.mem j))
load-accepts vm [] pos fits = absurd (omega arith)
load-accepts vm (b ∷ bs) pos fits =
    rw loaded
      (refl, refl, λ j. unfold read_uint8 in rw (copy_bytes_lem 0 (b ∷ bs) vm.mem j) (ground arith))
  where
    loaded : load vm (some (b ∷ bs)) ≡ (record vm { mem = copy_bytes 0 (b ∷ bs) vm.mem }, success)
    loaded = unfold load load_image read_file in rw (not-lt→ltb 0x10000 (length (b ∷ bs)) fits) refl

-- Loading a file of bytes, of any length, keeps a well-formed machine well-formed.
pub load-IsWellFormed :
    (vm : Vm) (file : List ℕ)
    → IsWellFormed vm
    → AllBelow 256 file
    → IsWellFormed (load vm (some file)).0
unfolding load load_image read_file
load-IsWellFormed vm [] f h = f
load-IsWellFormed vm (b ∷ bs) f h = elim (Bool-cases (ltb 0x10000 (length (b ∷ bs)))) [
  | inl large ↦ rw large f
  | inr fits ↦
      rw fits
        (record { valid = f.valid; bytes = copy_bytes-IsByteMemory 0 (b ∷ bs) vm.mem h f.bytes })
]

-- For a file of bytes that `rvm_vm_load` reads into a new machine, every way in which `rvm_vm_run`
-- ends is one of three: it returns 0, with the processor halted; it returns -1, with the processor
-- running and RIP at 0x7FFE or beyond; or a product of 2 ^ 31 or more overflows an `int`. Where it
-- returns, the machine is well-formed. No assertion on the memory fails.
pub load-GoodOutcome :
    (file : List ℕ) (o : Outcome)
    → AllBelow 256 file
    → Runs (load create (some file)).0 o
    → GoodOutcome o
load-GoodOutcome file o h r =
    Runs-GoodOutcome r (load-IsWellFormed create file create-IsWellFormed h)
