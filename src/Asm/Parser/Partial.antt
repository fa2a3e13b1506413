-- ===== src/Asm/Parser/Partial.antt =====
-- Partial results of the parser whose value has a property, through the chains and tests of its code.
use rocketvm.Base.{Bool, true, false, if◌then◌else◌, Option, none, some, ◌≡◌, refl}
use rocketvm.Asm.Parser.{◌>>=◌}

-- A result in which the value, where there is one, has a property.
abbrev pub AllSome {ℓ} : {A : Type ℓ} → (A → Type 0) → Option A → Type 0
AllSome P none = Unit
AllSome P (some a) = P a

pub AllSome->>= {ℓ κ} :
    {A : Type ℓ} {B : Type κ} (P : A → Type 0) (Q : B → Type 0) (o : Option A) (f : A → Option B)
    → AllSome P o
    → ((a : A) → P a → AllSome Q (f a))
    → AllSome Q (o >>= f)
AllSome->>= P Q none f h g = tt
AllSome->>= P Q (some a) f h g = g a h

pub AllSome-bind {ℓ κ} :
    {A : Type ℓ} {B : Type κ} (Q : B → Type 0) (o : Option A) (f : A → Option B)
    → ((a : A) → AllSome Q (f a))
    → AllSome Q (o >>= f)
AllSome-bind Q none f g = tt
AllSome-bind Q (some a) f g = g a

pub AllSome-if :
    {A : Type 0} (P : A → Type 0) (b : Bool) (x y : Option A)
    → AllSome P x
    → AllSome P y
    → AllSome P (if b then x else y)
AllSome-if P true x y hx hy = hx
AllSome-if P false x y hx hy = hy

pub AllSome-guard :
    {A : Type 0} (P : A → Type 0) (b : Bool) (x : Option A)
    → (b ≡ true → AllSome P x)
    → AllSome P (if b then x else none)
AllSome-guard P true x h = h refl
AllSome-guard P false x h = tt
