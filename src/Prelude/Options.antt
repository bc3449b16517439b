-- ===== src/Prelude/Options.antt =====
-- Chains of steps that may fail, and predicates over lists.
use mathlib.Core.Option.{Option, none, some}
use mathlib.Core.List.{List, [], ◌∷◌, ◌++◌}
use mathlib.Core.Path.{◌≡◌, refl}
use mathlib.Core.Bool.{Bool, true, false}
use rmvl.Prelude.Tests.{if◌then◌else◌}

infixl 5 ◌>>=◌
abbrev pub ◌>>=◌ {ℓ κ} : {A : Type ℓ} {B : Type κ} → Option A → (A → Option B) → Option B
none >>= f = none
some a >>= f = f a

abbrev pub All {ℓ κ} : {A : Type ℓ} → (A → Type κ) → List A → Type κ
All P [] = Unit
All P (x ∷ xs) = P x × All P xs

module _ {ℓ κ} {A : Type ℓ} (P : A → Type κ) where
  pub All-append : (xs ys : List A) → All P xs → All P ys → All P (xs ++ ys)
  All-append [] ys h k = k
  All-append (x ∷ xs) ys h k = (h.0, All-append xs ys h.1 k)

  pub All-map : {Q : A → Type κ} → ((a : A) → P a → Q a) → (xs : List A) → All P xs → All Q xs
  All-map f [] h = tt
  All-map f (x ∷ xs) h = (f x h.0, All-map f xs h.1)

-- A call returns.
abbrev pub Ends {ℓ} : {A : Type ℓ} → Option A → Type ℓ
Ends {A} o = (a : A) × (o ≡ some a)

pub Ends-some {ℓ} : {A : Type ℓ} {a : A} → Ends (some a)
Ends-some {a = a} = (a, refl)

pub Ends-bind {ℓ κ} :
    {A : Type ℓ} {B : Type κ} {o : Option A} {f : A → Option B}
    → Ends o
    → ((a : A) → Ends (f a))
    → Ends (o >>= f)
Ends-bind {f = f} (a, e) h = rw e (h a)

pub Ends-if {ℓ} :
    {A : Type ℓ} (b : Bool) {x y : Option A}
    → (b ≡ true → Ends x)
    → (b ≡ false → Ends y)
    → Ends (if b then x else y)
Ends-if true f g = f refl
Ends-if false f g = g refl

pub Ends-option {ℓ κ} :
    {A : Type ℓ} {B : Type κ} {x : Option B} {f : A → Option B} (o : Option A)
    → Ends x
    → ((a : A) → Ends (f a))
    → Ends (elim o as (λ _. Option B) [ none ↦ x | some a ↦ f a ])
Ends-option none h k = h
Ends-option (some a) h k = k a
