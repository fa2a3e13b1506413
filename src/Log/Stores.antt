-- ===== src/Log/Stores.antt =====
-- Texts in the buffer, and where `snprintf` stores.
use rocketvm.Base.{
  ℕ, zero, suc, ◌+◌, ◌≤◌, ◌<◌, List, [], ◌∷◌, ◌++◌, length, Array, update, ◌≡◌, refl, ◌∙◌, arith,
  subst,
}
use rocketvm.Base.Take.{take}
use rocketvm.Log.{snprintf, slice}

-- The array holds a text from an index on.
abbrev pub Starts : Array → ℕ → List ℕ → Type 0
Starts a i [] = Unit {0}
Starts a i (c ∷ cs) = (a i ≡ c) × Starts a (i + 1) cs

pub slice-Starts : (a : Array) (i : ℕ) (t : List ℕ) → Starts a i t → slice (length t) i a ≡ t
unfolding slice
slice-Starts a i [] h = refl
slice-Starts a i (c ∷ cs) h = rw (h.0, slice-Starts a (i + 1) cs h.1) refl

pub Starts-append :
    (a : Array) (i : ℕ) (t u : List ℕ)
    → Starts a i t
    → Starts a (i + length t) u
    → Starts a i (t ++ u)
Starts-append a i [] u h k = let e : i + 0 ≡ i = omega arith in subst (λ n. Starts a n u) e k
Starts-append a i (c ∷ cs) u h k =
    let e : i + suc (length cs) ≡ i + 1 + length cs = omega arith in
    (h.0, Starts-append a (i + 1) cs u h.1 (subst (λ n. Starts a n u) e k))

-- Another array that agrees with the first over the text.
pub Starts-kept :
    (a a' : Array) (i : ℕ) (t : List ℕ)
    → ((j : ℕ) → j < i + length t → a' j ≡ a j)
    → Starts a i t
    → Starts a' i t
Starts-kept a a' i [] same h = tt
Starts-kept a a' i (c ∷ cs) same h =
    (same i (omega arith) ∙ h.0, Starts-kept a a' (i + 1) cs (λ j lt. same j (omega arith)) h.1)

-- `snprintf` writes in its room only.
pub snprintf-outside :
    (room i : ℕ) (text : List ℕ) (buf : Array) (j : ℕ)
    → (j < i → snprintf room i text buf j ≡ buf j)
      × (i + room ≤ j → snprintf room i text buf j ≡ buf j)
unfolding snprintf
snprintf-outside zero i text buf j = (λ h. refl, λ h. refl)
snprintf-outside (suc zero) i text buf j = (λ h. ground arith, λ h. ground arith)
snprintf-outside (suc (suc room)) i [] buf j = (λ h. ground arith, λ h. ground arith)
snprintf-outside (suc (suc room)) i (c ∷ cs) buf j =
    let (below, above) = snprintf-outside (suc room) (i + 1) cs (update buf i c) j in
    (λ h. below (omega arith) ∙ ground arith, λ h. above (omega arith) ∙ ground arith)

pub snprintf-Starts :
    (room i : ℕ) (text : List ℕ) (buf : Array)
    → Starts (snprintf (suc room) i text buf) i (take room text)
unfolding snprintf take
snprintf-Starts zero i text buf = tt
snprintf-Starts (suc room) i [] buf = tt
snprintf-Starts (suc room) i (c ∷ cs) buf =
    let (below, above) = snprintf-outside (suc room) (i + 1) cs (update buf i c) i in
    (below (omega arith) ∙ ground arith, snprintf-Starts room (i + 1) cs (update buf i c))
