-- ===== src/Base/Word.antt =====
-- The shifts of C on unsigned values: a left shift before any cast that cuts it, and a right shift.
use Prim.Native.Nat.{ℕ, ◌*◌, ◌/◌, ◌^◌}

infixl 70 ◌<<<◌ ◌>>>◌
abbrev pub ◌<<<◌ : ℕ → ℕ → ℕ
x <<< k = x * 2 ^ k

abbrev pub ◌>>>◌ : ℕ → ℕ → ℕ
x >>> k = x / 2 ^ k
