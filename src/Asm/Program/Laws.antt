-- ===== src/Asm/Program/Laws.antt =====
-- Which label a name resolves to.
use rocketvm.Base.{
  ℕ, Bool, true, false, ◌&&◌, ◌==◌, ==_refl, List, [], ◌∷◌, some, ◌≡◌, ◌≢◌, ◌↔◌, refl, ap, sym, ◌∙◌,
  arith, Bool-cases, inl, inr, subst,
}
use rocketvm.Asm.Program.{Bytes, Label, same_name, find_label}

&&-both : (a b : Bool) → a && b ≡ true → (a ≡ true) × (b ≡ true)
&&-both true b h = (refl, h)
&&-both false b h = ground arith

pub same_name-equal : (xs ys : Bytes) → same_name xs ys ≡ true → xs ≡ ys
unfolding same_name
same_name-equal [] [] h = refl
same_name-equal (x ∷ xs) (y ∷ ys) h =
    let (first, others) = &&-both (x == y) (same_name xs ys) h in
    let same : x ≡ y = ground arith in let rest = same_name-equal xs ys others in cc
same_name-equal _ _ h = ground arith

same_name_refl : (xs : Bytes) → same_name xs xs ≡ true
unfolding same_name
same_name_refl [] = refl
same_name_refl (x ∷ xs) = rw (==_refl x) (same_name_refl xs)

-- The first label of a name stands at an address.
pub data First (name : Bytes) : List Label → ℕ → Type 0 where
  here : {l : Label} {ls : List Label} → l.name ≡ name → First name (l ∷ ls) l.address
  later :
      {l : Label} {ls : List Label} {a : ℕ}
      → l.name ≢ name
      → First name ls a
      → First name (l ∷ ls) a

First-find_label :
    (ls : List Label) (name : Bytes) (a : ℕ) → find_label ls name ≡ some a → First name ls a
unfolding find_label
First-find_label [] name a h = ground arith
First-find_label (l ∷ ls) name a h = elim (Bool-cases (same_name l.name name)) [
  | inl same ↦
      let found : l.address ≡ a = ground arith in
      subst (First name (l ∷ ls)) found (here (same_name-equal l.name name same))
  | inr other ↦
      let found : find_label ls name ≡ some a = ground arith in
      later (λ e. different name (sym other ∙ ap (λ n. same_name n name) e))
        (First-find_label ls name a found)
]
  where
    different : (name : Bytes) → false ≡ same_name name name → ⊥
    different name e = let h = same_name_refl name in ground arith

find_label-First :
    {name : Bytes} {ls : List Label} {a : ℕ} → First name ls a → find_label ls name ≡ some a
unfolding find_label
find_label-First {name = name} (here {l = l} e) =
    rw (ap (λ n. same_name n name) e ∙ same_name_refl name) refl
find_label-First {name = name} (later {l = l} n f) = elim (Bool-cases (same_name l.name name)) [
  | inl same ↦ elim (n (same_name-equal l.name name same)) [ ]
  | inr other ↦ rw other (find_label-First f)
]

-- A name resolves to an address exactly where the first label of that name, byte for byte, stands
-- there.
pub find_label_iff :
    (ls : List Label) (name : Bytes) (a : ℕ) → (find_label ls name ≡ some a) ↔ First name ls a
find_label_iff ls name a = (First-find_label ls name a, find_label-First)
