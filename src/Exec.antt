-- ===== src/Exec.antt =====
-- How a C function may end: it returns, or it leaves the language by a failed `assert` (of a build
-- without NDEBUG) or by the overflow of a signed `int`, which the C standard leaves undefined.

pub data Crash : Type 0 where
  assertion signed_overflow : Crash

pub data Exec {ℓ} (A : Type ℓ) : Type ℓ where
  ok : A → Exec A
  crash : Crash → Exec A

infixl 5 ◌>>=◌
abbrev pub ◌>>=◌ {ℓ κ} : {A : Type ℓ} {B : Type κ} → Exec A → (A → Exec B) → Exec B
ok a >>= f = f a
crash e >>= f = crash e

-- The function returns, and what it returns satisfies `P`.
abbrev pub Returns {ℓ} : {A : Type ℓ} → (A → Type 0) → Exec A → Type 0
Returns P (ok a) = P a
Returns P (crash e) = ⊥
