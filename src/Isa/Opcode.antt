-- ===== src/Isa/Opcode.antt =====
-- rocketvm/common/isa/opcode.h: the sixteen operations and the values of their enumerators.
use rocketvm.Base.{
  ℕ, zero, suc, ◌+◌, ◌<◌, ◌≡◌, refl, List, [], ◌∷◌, Option, some, get_elem?, length, arith,
}

-- `rvm_opcode_t`; `modulo` is RVM_OP_MOD.
pub data Opcode : Type 0 where
  mov load store add sub mul div modulo shl shr cmp jmp jz jnz call ret : Opcode

-- The value of an enumerator.
abbrev pub opcode_value : Opcode → ℕ
opcode_value mov = 0x0
opcode_value load = 0x1
opcode_value store = 0x2
opcode_value add = 0x3
opcode_value sub = 0x4
opcode_value mul = 0x5
opcode_value div = 0x6
opcode_value modulo = 0x7
opcode_value shl = 0x8
opcode_value shr = 0x9
opcode_value cmp = 0xA
opcode_value jmp = 0xB
opcode_value jz = 0xC
opcode_value jnz = 0xD
opcode_value call = 0xE
opcode_value ret = 0xF

abbrev pub all_opcodes : List Opcode
all_opcodes =
    mov ∷ load ∷ store ∷ add ∷ sub ∷ mul ∷ div ∷ modulo ∷ shl ∷ shr ∷ cmp ∷ jmp ∷ jz ∷ jnz ∷ call
    ∷ ret ∷ []

-- The enumerator with a given value, if there is one.
abbrev pub opcode_of : ℕ → Option Opcode
opcode_of n = get_elem? all_opcodes n

pub opcode_of-opcode_value : (op : Opcode) → opcode_of (opcode_value op) ≡ some op
opcode_of-opcode_value mov = refl
opcode_of-opcode_value _ = refl

pub opcode_value-lt : (op : Opcode) → opcode_value op < 16
opcode_value-lt mov = omega arith
opcode_value-lt _ = omega arith

-- The values of the opcodes of a list count up from `k`.
abbrev Numbered : ℕ → List Opcode → Type 0
Numbered k [] = Unit
Numbered k (op ∷ ops) = (opcode_value op ≡ k) × Numbered (suc k) ops

all_opcodes-Numbered : Numbered 0 all_opcodes
all_opcodes-Numbered = omega arith

nth_opcode :
    (ops : List Opcode) (k n : ℕ)
    → Numbered k ops
    → n < length ops
    → (op : Opcode) × (get_elem? ops n ≡ some op) × (opcode_value op ≡ k + n)
nth_opcode [] k n c h = absurd (omega arith)
nth_opcode (op ∷ ops) k zero c h = (op, refl, omega arith)
nth_opcode (op ∷ ops) k (suc n) c h =
    let (found, e, value) = nth_opcode ops (suc k) n c.1 (omega arith) in (found, e, omega arith)

-- Every 4-bit value is an opcode.
pub opcode_of-some :
    (n : ℕ) → n < 16 → (op : Opcode) × (opcode_of n ≡ some op) × (opcode_value op ≡ n)
opcode_of-some n h =
    let (op, e, value) = nth_opcode all_opcodes 0 n all_opcodes-Numbered h in (op, e, omega arith)
