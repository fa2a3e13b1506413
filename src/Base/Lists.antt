-- ===== src/Base/Lists.antt =====
-- Lists measured and indexed by native numbers, and arrays of fixed size as functions of the index.
use Prim.Native.Nat.{ℕ, zero, suc, ◌+◌, ◌<◌}
use mathlib.Core.Path.{◌≡◌}
use mathlib.Core.List.{List, [], ◌∷◌, ◌++◌}
use mathlib.Core.Option.{Option, none, some}
use mathlib.Core.Option
use native.Mathlib.Omega.{arith}
use rocketvm.Base.Tests.{◌==◌, if◌then◌else◌}

module _ {ℓ} {A : Type ℓ} where
  abbrev pub length : List A → ℕ
  length [] = 0
  length (x ∷ xs) = suc (length xs)

  abbrev pub get_elem? : List A → ℕ → Option A
  get_elem? [] i = none
  get_elem? (x ∷ xs) zero = some x
  get_elem? (x ∷ xs) (suc i) = get_elem? xs i

  abbrev pub get_or : List A → ℕ → A → A
  get_or xs i d = Option.get_or (get_elem? xs i) d

  pub length-append : (xs ys : List A) → length (xs ++ ys) ≡ length xs + length ys
  length-append [] ys = omega arith
  length-append (x ∷ xs) ys = omega (arith, length-append xs ys)

-- A C array, whose bounds are stated where it is used: element `i` is `a i`.
abbrev pub Array : Type 0
Array = ℕ → ℕ

-- The array after `a[i] = v`.
abbrev pub update : Array → ℕ → ℕ → Array
update a i v j = if j == i then v else a j

-- Every element fits below the bound.
abbrev pub Below : ℕ → Array → Type 0
Below n a = (i : ℕ) → a i < n

pub update-Below : (n : ℕ) (a : Array) (i v : ℕ) → Below n a → v < n → Below n (update a i v)
update-Below n a i v h hv j = ground (arith, h j)

-- Every element of a list fits below the bound.
abbrev pub AllBelow : ℕ → List ℕ → Type 0
AllBelow n [] = Unit
AllBelow n (x ∷ xs) = (x < n) × AllBelow n xs
