-- ===== src/Isa/Encoder/Layout.antt =====
-- The layout of the instruction words, and the round trip between `rvm_encode` and `rvm_decode`.
use rocketvm.Base.{ℕ, ◌+◌, ◌*◌, ◌/◌, ◌%◌, ◌^◌, ◌<◌, bit_or, ◌≡◌, ◌∙◌, arith}
use rocketvm.Base.Bits.{bit_and_mask, bit_or_low}
use rocketvm.Base.Int.{ℤ, unsigned16}
use rocketvm.Isa.Decode.{decode}
use rocketvm.Isa.Encoder.{encode, offset_word, register_word}

-- Four disjoint fields joined by `|`, as a sum.
join-fields :
    (a b c d : ℕ)
    → a < 16
    → b < 8
    → c < 2
    → d < 256
    → bit_or (bit_or (bit_or (a * 4096) (b * 512)) (c * 256)) d % 2 ^ 16
      ≡ a * 4096 + b * 512 + c * 256 + d
join-fields a b c d ha hb hc hd =
    rw
      (
        bit_or_low 12 (a * 4096) (b * 512) (omega arith) (omega arith),
        bit_or_low 9 (a * 4096 + b * 512) (c * 256) (omega arith) (omega arith),
        bit_or_low 8 (a * 4096 + b * 512 + c * 256) d (omega arith) (omega arith),
      )
      (omega arith)

-- The four fields of a word stand side by side.
pub encode-sum :
    (opcode reg mode operand : ℕ)
    → encode opcode reg mode operand
      ≡ opcode % 16 * 4096 + reg % 8 * 512 + mode % 2 * 256 + operand % 256
unfolding encode
encode-sum opcode reg mode operand =
    let small = λ (n : ℕ) (h : n < 256). let e : n % 2 ^ 16 ≡ n = omega arith in e in
    rw
      (
        bit_and_mask 4 opcode,
        bit_and_mask 3 reg,
        bit_and_mask 1 mode,
        bit_and_mask 8 operand,
        small (opcode % 2 ^ 4) (omega arith),
        small (reg % 2 ^ 3) (omega arith),
        small (mode % 2 ^ 1) (omega arith),
        small (operand % 2 ^ 8) (omega arith),
      )
      (join-fields (opcode % 16) (reg % 8) (mode % 2) (operand % 256) (omega arith) (omega arith)
        (omega arith) (omega arith))

-- Opcode, mode and a low part of at most 11 bits joined by `|`, as a sum.
join-control :
    (a c d : ℕ)
    → a < 16
    → c < 2
    → d < 2048
    → bit_or (bit_or (a * 4096) (c * 2048)) d % 2 ^ 16 ≡ a * 4096 + c * 2048 + d
join-control a c d ha hc hd =
    rw
      (
        bit_or_low 12 (a * 4096) (c * 2048) (omega arith) (omega arith),
        bit_or_low 11 (a * 4096 + c * 2048) d (omega arith) (omega arith),
      )
      (omega arith)

-- An offset word: the opcode, mode 0 and the low 11 bits of the offset.
pub offset_word-sum :
    (opcode : ℕ) (simm : ℤ) → offset_word opcode simm ≡ opcode % 16 * 4096 + unsigned16 simm % 2048
unfolding offset_word
offset_word-sum opcode simm =
    let e : opcode % 2 ^ 4 % 2 ^ 16 ≡ opcode % 2 ^ 4 = omega arith in
    let f : unsigned16 simm % 2 ^ 11 % 2 ^ 16 ≡ unsigned16 simm % 2 ^ 11 = omega arith in
    rw (bit_and_mask 4 opcode, bit_and_mask 11 (unsigned16 simm), e, f)
      (join-control (opcode % 16) 0 (unsigned16 simm % 2048) (omega arith) (omega arith)
          (omega arith)
        ∙ omega arith)

-- A register word: the opcode, mode 1 and the register.
pub register_word-sum :
    (opcode rvd : ℕ) → register_word opcode rvd ≡ opcode % 16 * 4096 + 2048 + rvd % 8
unfolding register_word
register_word-sum opcode rvd =
    let e : opcode % 2 ^ 4 % 2 ^ 16 ≡ opcode % 2 ^ 4 = omega arith in
    rw (bit_and_mask 4 opcode, bit_and_mask 3 rvd, e)
      (join-control (opcode % 16) 1 (rvd % 8) (omega arith) (omega arith) (omega arith)
        ∙ omega arith)

-- The fields of a decoded word, by division.
pub decode-fields :
    (w : ℕ)
    → decode w ≡ record {
      raw = w;
      opcode = w / 4096 % 16;
      reg = w / 512 % 8;
      mode = w / 256 % 2;
      operand = w % 256;
    }
unfolding decode
decode-fields w =
    let a = bit_and_mask 4 (w / 2 ^ 12) in
    let b = bit_and_mask 3 (w / 2 ^ 9) in
    let c = bit_and_mask 1 (w / 2 ^ 8) in let d = bit_and_mask 8 w in ground arith

-- `rvm_decode` returns the four fields that were given to `rvm_encode`: opcode modulo 16, register
-- modulo 8, mode modulo 2, operand modulo 256.
pub decode-encode :
    (op reg mode operand : ℕ)
    → let i = decode (encode op reg mode operand) in
      (i.opcode ≡ op % 16) × (i.reg ≡ reg % 8) × (i.mode ≡ mode % 2) × (i.operand ≡ operand % 256)
decode-encode op reg mode operand = rw (decode-fields, encode-sum) (omega arith)

-- Every word below 2 ^ 16 is the encoding of its own decoded fields.
pub encode-decode :
    (w : ℕ) → w < 2 ^ 16 → let i = decode w in encode i.opcode i.reg i.mode i.operand ≡ w
encode-decode w h = rw (encode-sum, decode-fields) (omega arith)
