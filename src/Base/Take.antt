-- ===== src/Base/Take.antt =====
-- The first elements of a list.
use Prim.Native.Nat.{ℕ, zero, suc, ◌-◌, ◌≤◌}
use mathlib.Core.Path.{◌≡◌, refl, sym, ap}
use mathlib.Core.List.{List, [], ◌∷◌, ◌++◌}
use native.Mathlib.Omega.{arith}
use rocketvm.Base.Tests.{leb, if◌then◌else◌}
use rocketvm.Base.Lists.{length}

module _ {ℓ} {A : Type ℓ} where
  unfoldable pub take : ℕ → List A → List A
  take zero xs = []
  take (suc n) [] = []
  take (suc n) (x ∷ xs) = x ∷ take n xs

  pub take-append :
      (n : ℕ) (t u : List A) → length t ≤ n → take n (t ++ u) ≡ t ++ take (n - length t) u
  unfolding take
  take-append n [] u h = let e : n - 0 ≡ n = omega arith in ap (λ k. take k u) (sym e)
  take-append zero (c ∷ cs) u h = absurd (omega arith)
  take-append (suc n) (c ∷ cs) u h =
      let e : suc n - suc (length cs) ≡ n - length cs = omega arith in
      rw e (ap (λ l. c ∷ l) (take-append n cs u (omega arith)))

  pub take-take-append : (n : ℕ) (t u : List A) → take n (take n t ++ u) ≡ take n (t ++ u)
  unfolding take
  take-take-append zero t u = refl
  take-take-append (suc n) [] u = refl
  take-take-append (suc n) (c ∷ cs) u = ap (λ l. c ∷ l) (take-take-append n cs u)

  pub take-short : (n : ℕ) (t : List A) → length t ≤ n → take n t ≡ t
  unfolding take
  take-short zero [] h = refl
  take-short zero (c ∷ cs) h = absurd (omega arith)
  take-short (suc n) [] h = refl
  take-short (suc n) (c ∷ cs) h = ap (λ l. c ∷ l) (take-short n cs (omega arith))

  pub length-take :
      (n : ℕ) (t : List A) → length (take n t) ≡ (if leb n (length t) then n else length t)
  unfolding take
  length-take zero t = ground arith
  length-take (suc n) [] = ground arith
  length-take (suc n) (c ∷ cs) = let ih = length-take n cs in ground arith
