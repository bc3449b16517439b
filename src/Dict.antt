-- ===== src/Dict.antt =====
-- std::unordered_map as an association list: the list's order stands for the iteration order,
-- which the sources do not fix. `find`, `operator[] =` (put) and `erase` by key.
pub mod Laws
use rmvl.Prelude.{Eq, List, Option, [], if◌then◌else◌, none, some, ◌=?◌, ◌∷◌}

abbrev pub Dict {ℓ κ} : Type ℓ → Type κ → Type (ℓ ⊔ κ)
Dict K V = List (K × V)

module _ {ℓ κ} {K : Type ℓ} {V : Type κ} ⦃e : Eq K⦄ where
  unfoldable pub find : K → Dict K V → Option V
  find k [] = none
  find k ((j, v) ∷ m) = if k =? j then some v else find k m

  unfoldable pub put : K → V → Dict K V → Dict K V
  put k v [] = (k, v) ∷ []
  put k v ((j, w) ∷ m) = if k =? j then (k, v) ∷ m else (j, w) ∷ put k v m

  unfoldable pub erase : K → Dict K V → Dict K V
  erase k [] = []
  erase k ((j, w) ∷ m) = if k =? j then m else (j, w) ∷ erase k m
