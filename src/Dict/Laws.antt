-- ===== src/Dict/Laws.antt =====
-- Lookups after writes, predicates on all entries, and sums over the entries.
use rmvl.Prelude.{
  =?_refl, All, Bool-cases, Eq, [], arith, false, if◌then◌else◌, inl, inr, length, none, refl, some,
  sym, ◌+◌, ◌<◌, ◌=?◌, ◌∷◌, ◌≡◌,
}
use mathlib.Core.Path.{subst₂}
use rmvl.Dict.{Dict, find, put, erase}

module _ {ℓ κ} {K : Type ℓ} {V : Type κ} ⦃e : Eq K⦄ where
  pub find-put :
      (k q : K) (v : V) (m : Dict K V) → find q (put k v m) ≡ (if q =? k then some v else find q m)
  unfolding find put
  find-put k q v [] = refl
  find-put k q v ((j, w) ∷ m) =
      ground (arith, e.beq_iff k j, e.beq_iff q j, e.beq_iff q k, find-put k q v m)

  pub find-put_self : (k : K) (v : V) (m : Dict K V) → find k (put k v m) ≡ some v
  find-put_self k v m = rw (find-put k k v m, =?_refl k)

  pub find-erase_ne : (k q : K) (m : Dict K V) → (q =? k) ≡ false → find q (erase k m) ≡ find q m
  unfolding find erase
  find-erase_ne k q [] h = refl
  find-erase_ne k q ((j, w) ∷ m) h =
      ground (arith, e.beq_iff k j, e.beq_iff q j, e.beq_iff q k, find-erase_ne k q m h)

  pub length-erase :
      (k : K) (v : V) (m : Dict K V) → find k m ≡ some v → length (erase k m) + 1 ≡ length m
  unfolding find erase
  length-erase k v [] h = ground arith
  length-erase k v ((j, w) ∷ m) h = ground (arith, length-erase k v m)

  pub find-erase-none : (k q : K) (m : Dict K V) → find q m ≡ none → find q (erase k m) ≡ none
  unfolding find erase
  find-erase-none k q [] h = refl
  find-erase-none k q ((j, w) ∷ m) h = ground (arith, find-erase-none k q m)

  pub find-put_ne :
      (k q : K) (v : V) (m : Dict K V) → (q =? k) ≡ false → find q (put k v m) ≡ find q m
  find-put_ne k q v m h = rw (find-put k q v m, h)

  pub find-nonempty : (k : K) (v : V) (m : Dict K V) → find k m ≡ some v → 0 < length m
  unfolding find
  find-nonempty k v [] h = absurd (ground arith)
  find-nonempty k v (x ∷ m) h = omega arith

  -- No key stands twice.
  abbrev pub Unique : Dict K V → Type κ
  Unique [] = Unit
  Unique ((k, v) ∷ m) = (find k m ≡ none) × Unique m

  pub Unique-put : (k : K) (v : V) (m : Dict K V) → Unique m → Unique (put k v m)
  unfolding find put
  Unique-put k v [] h = (refl, tt)
  Unique-put k v ((j, w) ∷ m) h = elim (Bool-cases (k =? j)) [
    | inl same ↦ rw (same, (e.beq_iff k j).0 same) h
    | inr other ↦
        rw other
          (ground (arith, e.beq_iff k j, e.beq_iff j k, find-put k j v m), Unique-put k v m h.1)
  ]

  pub Unique-erase : (k : K) (m : Dict K V) → Unique m → Unique (erase k m)
  unfolding find erase
  Unique-erase k [] h = tt
  Unique-erase k ((j, w) ∷ m) h = elim (Bool-cases (k =? j)) [
    | inl same ↦ rw same h.1
    | inr other ↦ rw other (find-erase-none k j m h.0, Unique-erase k m h.1)
  ]

  pub find-erase_self : (k : K) (m : Dict K V) → Unique m → find k (erase k m) ≡ none
  unfolding find erase
  find-erase_self k [] h = refl
  find-erase_self k ((j, w) ∷ m) h = ground (arith, e.beq_iff k j, find-erase_self k m h.1)

  module _ {κ'} (P : K × V → Type κ') where
    pub All-erase : (k : K) (m : Dict K V) → All P m → All P (erase k m)
    unfolding erase
    All-erase k [] h = tt
    All-erase k ((j, w) ∷ m) h = elim (Bool-cases (k =? j)) [
      | inl same ↦ rw same h.1
      | inr other ↦ rw other (h.0, All-erase k m h.1)
    ]

    pub All-put : (k : K) (v : V) (m : Dict K V) → P (k, v) → All P m → All P (put k v m)
    unfolding put
    All-put k v [] p h = (p, tt)
    All-put k v ((j, w) ∷ m) p h = elim (Bool-cases (k =? j)) [
      | inl same ↦ rw same (p, h.1)
      | inr other ↦ rw other (h.0, All-put k v m p h.1)
    ]

    pub All-find : (k : K) (v : V) (m : Dict K V) → All P m → find k m ≡ some v → P (k, v)
    unfolding find
    All-find k v [] h f = absurd (ground arith)
    All-find k v ((j, w) ∷ m) h f = elim (Bool-cases (k =? j)) [
      | inl same ↦
          let keys : j ≡ k = sym ((e.beq_iff k j).0 same) in
          let values : w ≡ v = ground arith in subst₂ (λ q u. P (q, u)) keys values h.0
      | inr other ↦ All-find k v m h.1 (ground arith)
    ]
