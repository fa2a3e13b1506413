-- ===== src/Asm/Meaning/Does.antt =====
-- What a handler does at an assembled word, as a relation.
use rocketvm.Base.{ℕ, ◌%◌, ◌^◌, ◌<◌, ◌≡◌, ◌∙◌, subst, arith, Option, none, some}
use rocketvm.Exec.{Exec, ok}
use rocketvm.Isa.Opcode.{Opcode, opcode_value, opcode_value-lt}
use rocketvm.Isa.Decode.{decode}
use rocketvm.Isa.Encoder.{encode}
use rocketvm.Isa.Encoder.Layout.{decode-encode, encode-sum}
use rocketvm.Cpu.State.{Vm}
use rocketvm.Cpu.Cycle.{handler}

-- A word is taken for the opcode, and its handler does what is to be done.
abbrev pub Does : Vm → Opcode → ℕ → Exec Vm → Type 0
Does vm op w m =
    (w < 2 ^ 16) × ((decode w).opcode ≡ opcode_value op) × (handler op vm (decode w) ≡ m)

-- An encoding and a meaning, each known in two forms.
pub known :
    (vm : Vm) (op : Opcode) (r : Exec (Option ℕ)) (s : Option (Exec Vm)) (w w' : ℕ) (m m' : Exec Vm)
    → r ≡ ok (some w)
    → r ≡ ok (some w')
    → s ≡ some m
    → s ≡ some m'
    → Does vm op w m
    → Does vm op w' m'
known vm op r s w w' m m' e e' d d' does =
    let same : w ≡ w' = cc in
    let same_meaning : m ≡ m' = cc in
    subst (λ x. Does vm op x m') same (subst (Does vm op w) same_meaning does)

pub nothing : {A : Type 0} {m : Exec Vm} → none ≡ some m → A
nothing e = absurd (cc e)

nibble : (op : Opcode) → opcode_value op % 16 ≡ opcode_value op
nibble op = let h = opcode_value-lt op in omega arith

pub encode-opcode :
    (op : Opcode) (d mode n : ℕ)
    → (decode (encode (opcode_value op) d mode n)).opcode ≡ opcode_value op
encode-opcode op d mode n =
    let (o, r, m, v) = decode-encode (opcode_value op) d mode n in o ∙ nibble op

pub encode-lt : (op d mode n : ℕ) → encode op d mode n < 2 ^ 16
encode-lt op d mode n = let e = encode-sum op d mode n in omega arith

pub encode-reg : (op d mode n : ℕ) → (decode (encode op d mode n)).reg ≡ d % 8
encode-reg op d mode n = let (o, r, m, v) = decode-encode op d mode n in r

pub nothing_encoded : {A : Type 0} {w : ℕ} → ok none ≡ ok (some w) → A
nothing_encoded e = absurd (ground arith)
