-- ===== src/Algorithm/Heap.antt =====
-- modules/algorithm/include/rmvl/algorithm/datastruct.hpp: RaHeap. `none` is an access outside of the
-- array, which is undefined behaviour.
use rmvl.Prelude.{
  Bool, Eq, List, Option, [], get_elem?, if◌then◌else◌, length, ltb, none, not, set, some, suc,
  take, zero, ℕ, ◌*◌, ◌++◌, ◌+◌, ◌-◌, ◌/◌, ◌==◌, ◌>>=◌, ◌∷◌,
}
use rmvl.Dict.{Dict, find, put, erase}

module _ {ℓ} (A : Type ℓ) where
  -- `_c` and `_indexs`.
  pub record RaHeap : Type ℓ where
    pub c : List A
    pub indexs : Dict A ℕ

module _ {ℓ} {A : Type ℓ} ⦃e : Eq A⦄ where
  unfoldable pub swap_node : ℕ → ℕ → RaHeap A → Option (RaHeap A)
  swap_node i j h = do
    a ← get_elem? h.c i
    b ← get_elem? h.c j
    some (record { c = set (set h.c i b) j a; indexs = put b i (put a j h.indexs) })

  -- A round halves the index: as many rounds as elements are enough.
  unfoldable pub up_heapify : (A → A → Bool) → ℕ → ℕ → RaHeap A → Option (RaHeap A)
  up_heapify comp zero idx h = some h
  up_heapify comp (suc rounds) idx h = if idx == 0 then some h else do
    parent ← get_elem? h.c ((idx - 1) / 2)
    here ← get_elem? h.c idx
    if comp parent here
        then (swap_node ((idx - 1) / 2) idx h >>= λ h'. up_heapify comp rounds ((idx - 1) / 2) h')
        else some h

  -- The better child of the two, or the only one.
  unfoldable pub better_child : (A → A → Bool) → ℕ → RaHeap A → Option ℕ
  better_child comp left h = get_elem? h.c left >>= λ a. elim (get_elem? h.c (left + 1)) [
    | none ↦ some left
    | some b ↦ some (if comp a b then left + 1 else left)
  ]

  -- A round goes down by a level.
  unfoldable pub down_heapify : (A → A → Bool) → ℕ → ℕ → RaHeap A → Option (RaHeap A)
  down_heapify comp zero idx h = some h
  down_heapify comp (suc rounds) idx h = if not (ltb (idx * 2 + 1) (length h.c)) then some h else do
    better ← better_child comp (idx * 2 + 1) h
    child ← get_elem? h.c better
    here ← get_elem? h.c idx
    if comp child here
        then some h
        else (swap_node idx better h >>= λ h'. down_heapify comp rounds better h')

  unfoldable pub push : (A → A → Bool) → A → RaHeap A → Option (RaHeap A)
  push comp x h =
      let c = h.c ++ (x ∷ []) in
      up_heapify comp (length c) (length c - 1)
        (record { c = c; indexs = put x (length c - 1) h.indexs })

  unfoldable pub update : (A → A → Bool) → A → A → RaHeap A → Option (RaHeap A)
  update comp prev value h = elim (find prev h.indexs) [
    | none ↦ some h
    | some idx ↦
        let h' : RaHeap A = record {
          c = set h.c idx value;
          indexs = erase prev (put value idx h.indexs);
        } in
        if comp prev value
        then up_heapify comp (length h.c) idx h'
        else down_heapify comp (length h.c) idx h'
  ]

  -- The last element is forgotten, and the element at `idx` goes down.
  unfoldable pub drop_last : (A → A → Bool) → ℕ → RaHeap A → Option (RaHeap A)
  drop_last comp idx h = do
    last ← get_elem? h.c (length h.c - 1)
    down_heapify comp (length h.c) idx
        (record { c = take (length h.c - 1) h.c; indexs = erase last h.indexs })

  unfoldable pub erase_value : (A → A → Bool) → A → RaHeap A → Option (RaHeap A)
  erase_value comp value h = elim (find value h.indexs) [
    | none ↦ some h
    | some idx ↦ swap_node idx (length h.c - 1) h >>= drop_last comp idx
  ]

  unfoldable pub pop : (A → A → Bool) → RaHeap A → Option (RaHeap A)
  pop comp h = swap_node 0 (length h.c - 1) h >>= drop_last comp 0
