-- ===== src/Asm/Lexer/Mnemonics.antt =====
-- The words that the lexer takes for opcodes.
use rocketvm.Base.{ℕ, [], ◌∷◌, map, some, ◌≡◌, ◌↔◌, arith}
use rocketvm.Isa.Opcode.{
  Opcode, mov, load, store, add, sub, mul, div, modulo, shl, shr, cmp, jmp, jz, jnz, call, ret,
}
use rocketvm.Asm.Program.{Bytes}
use rocketvm.Asm.Lexer.{to_lower, tokenize_opcode3, tokenize_opcode}

-- The mnemonic of an opcode.
abbrev pub mnemonic : Opcode → Bytes
mnemonic mov = b'm' ∷ b'o' ∷ b'v' ∷ []
mnemonic load = b'l' ∷ b'o' ∷ b'a' ∷ b'd' ∷ []
mnemonic store = b's' ∷ b't' ∷ b'o' ∷ b'r' ∷ b'e' ∷ []
mnemonic add = b'a' ∷ b'd' ∷ b'd' ∷ []
mnemonic sub = b's' ∷ b'u' ∷ b'b' ∷ []
mnemonic mul = b'm' ∷ b'u' ∷ b'l' ∷ []
mnemonic div = b'd' ∷ b'i' ∷ b'v' ∷ []
mnemonic modulo = b'm' ∷ b'o' ∷ b'd' ∷ []
mnemonic shl = b's' ∷ b'h' ∷ b'l' ∷ []
mnemonic shr = b's' ∷ b'h' ∷ b'r' ∷ []
mnemonic cmp = b'c' ∷ b'm' ∷ b'p' ∷ []
mnemonic jmp = b'j' ∷ b'm' ∷ b'p' ∷ []
mnemonic jz = b'j' ∷ b'z' ∷ []
mnemonic jnz = b'j' ∷ b'n' ∷ b'z' ∷ []
mnemonic call = b'c' ∷ b'a' ∷ b'l' ∷ b'l' ∷ []
mnemonic ret = b'r' ∷ b'e' ∷ b't' ∷ []

spells2 :
    (a b : ℕ) (op : Opcode)
    → tokenize_opcode (a ∷ b ∷ []) ≡ some op
    → map to_lower (a ∷ b ∷ []) ≡ mnemonic op
unfolding tokenize_opcode
spells2 a b op h = ground arith

spells3 :
    (a b c : ℕ) (op : Opcode)
    → tokenize_opcode3 a b c ≡ some op
    → map to_lower (a ∷ b ∷ c ∷ []) ≡ mnemonic op
unfolding tokenize_opcode3
spells3 a b c op h = ground arith

spells4 :
    (a b c d : ℕ) (op : Opcode)
    → tokenize_opcode (a ∷ b ∷ c ∷ d ∷ []) ≡ some op
    → map to_lower (a ∷ b ∷ c ∷ d ∷ []) ≡ mnemonic op
unfolding tokenize_opcode
spells4 a b c d op h = ground arith

spells5 :
    (a b c d e : ℕ) (op : Opcode)
    → tokenize_opcode (a ∷ b ∷ c ∷ d ∷ e ∷ []) ≡ some op
    → map to_lower (a ∷ b ∷ c ∷ d ∷ e ∷ []) ≡ mnemonic op
unfolding tokenize_opcode
spells5 a b c d e op h = ground arith

spells : (cs : Bytes) (op : Opcode) → tokenize_opcode cs ≡ some op → map to_lower cs ≡ mnemonic op
unfolding tokenize_opcode
spells (a ∷ b ∷ []) op h = spells2 a b op h
spells (a ∷ b ∷ c ∷ []) op h = spells3 a b c op h
spells (a ∷ b ∷ c ∷ d ∷ []) op h = spells4 a b c d op h
spells (a ∷ b ∷ c ∷ d ∷ e ∷ []) op h = spells5 a b c d e op h
spells _ op h = ground arith

reads2 :
    (a b : ℕ) (op : Opcode)
    → map to_lower (a ∷ b ∷ []) ≡ mnemonic op
    → tokenize_opcode (a ∷ b ∷ []) ≡ some op
unfolding tokenize_opcode
reads2 a b jz h = ground arith
reads2 a b _ h = ground arith

reads3 :
    (a b c : ℕ) (op : Opcode)
    → map to_lower (a ∷ b ∷ c ∷ []) ≡ mnemonic op
    → tokenize_opcode3 a b c ≡ some op
unfolding tokenize_opcode3
reads3 a b c mov h = ground arith
reads3 a b c _ h = ground arith

reads4 :
    (a b c d : ℕ) (op : Opcode)
    → map to_lower (a ∷ b ∷ c ∷ d ∷ []) ≡ mnemonic op
    → tokenize_opcode (a ∷ b ∷ c ∷ d ∷ []) ≡ some op
unfolding tokenize_opcode
reads4 a b c d load h = ground arith
reads4 a b c d _ h = ground arith

reads5 :
    (a b c d e : ℕ) (op : Opcode)
    → map to_lower (a ∷ b ∷ c ∷ d ∷ e ∷ []) ≡ mnemonic op
    → tokenize_opcode (a ∷ b ∷ c ∷ d ∷ e ∷ []) ≡ some op
unfolding tokenize_opcode
reads5 a b c d e store h = ground arith
reads5 a b c d e _ h = ground arith

reads : (cs : Bytes) (op : Opcode) → map to_lower cs ≡ mnemonic op → tokenize_opcode cs ≡ some op
unfolding tokenize_opcode
reads [] op h = none_short op h
  where
    none_short : (op : Opcode) → [] ≡ mnemonic op → tokenize_opcode [] ≡ some op
    none_short mov h = ground arith
    none_short _ h = ground arith
reads (a ∷ []) op h = none_one op h
  where
    none_one : (op : Opcode) → to_lower a ∷ [] ≡ mnemonic op → tokenize_opcode (a ∷ []) ≡ some op
    none_one mov h = ground arith
    none_one _ h = ground arith
reads (a ∷ b ∷ []) op h = reads2 a b op h
reads (a ∷ b ∷ c ∷ []) op h = reads3 a b c op h
reads (a ∷ b ∷ c ∷ d ∷ []) op h = reads4 a b c d op h
reads (a ∷ b ∷ c ∷ d ∷ e ∷ []) op h = reads5 a b c d e op h
reads (a ∷ b ∷ c ∷ d ∷ e ∷ f ∷ cs) op h = none_long op h
  where
    none_long :
        (op : Opcode)
        → map to_lower (a ∷ b ∷ c ∷ d ∷ e ∷ f ∷ cs) ≡ mnemonic op
        → tokenize_opcode (a ∷ b ∷ c ∷ d ∷ e ∷ f ∷ cs) ≡ some op
    none_long mov h = ground arith
    none_long _ h = ground arith

-- A text is read as an opcode exactly where its bytes, with bit 5 set as `rsm_tolower` does, are
-- the mnemonic of that opcode.
pub tokenize_opcode_iff :
    (cs : Bytes) (op : Opcode) → (tokenize_opcode cs ≡ some op) ↔ (map to_lower cs ≡ mnemonic op)
tokenize_opcode_iff cs op = (spells cs op, reads cs op)
