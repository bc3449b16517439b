-- ===== src/Algorithm/Union.antt =====
-- modules/algorithm/include/rmvl/algorithm/datastruct.hpp: UnionFind. `none` is a search for the
-- representative that has not ended after the rounds given.
use rmvl.Prelude.{
  Bool, Eq, List, Option, [], false, if◌then◌else◌, leb, length, none, not, some, suc, true, zero,
  ℕ, ◌+◌, ◌-◌, ◌=?◌, ◌>>=◌, ◌||◌, ◌∷◌,
}
use rmvl.Dict.{Dict, find, put, erase}

module _ {ℓ} (A : Type ℓ) where
  -- `_element_set`, `_parent_map`, `_size_map` and `_connected_component`.
  pub record UnionFind : Type ℓ where
    pub element_set : Dict A Bool
    pub parent_map : Dict A A
    pub size_map : Dict A ℕ
    pub connected_component : ℕ

module _ {ℓ} {A : Type ℓ} ⦃e : Eq A⦄ where
  unfoldable pub insert_all : List A → UnionFind A → UnionFind A
  insert_all [] u = u
  insert_all (x ∷ xs) u = insert_all xs (record {
    element_set = put x true u.element_set;
    parent_map = put x x u.parent_map;
    size_map = put x 1 u.size_map;
    connected_component = u.connected_component + 1;
  })

  unfoldable pub make : List A → UnionFind A
  make xs =
      insert_all xs
        (record { element_set = []; parent_map = []; size_map = []; connected_component = 0 })

  -- The way up: the path, its last element first, and the representative.
  unfoldable pub climb : ℕ → A → List A → Dict A A → Option (List A × A)
  climb zero element path parents = none
  climb (suc rounds) element path parents = find element parents >>= λ parent.
      if element =? parent
      then some (path, element)
      else climb rounds parent (element ∷ path) parents

  unfoldable pub compress : List A → A → Dict A A → Dict A A
  compress [] root parents = parents
  compress (x ∷ path) root parents = compress path root (put x root parents)

  unfoldable pub find_rep : A → UnionFind A → Option (A × UnionFind A)
  find_rep element u = do
    (path, root) ← climb (length u.parent_map + 1) element [] u.parent_map
    some (root, record u { parent_map = compress path root u.parent_map })

  has_element : A → UnionFind A → Bool
  has_element a u = elim (find a u.element_set) [ none ↦ false | some _ ↦ true ]

  size_of : A → UnionFind A → ℕ
  size_of a u = elim (find a u.size_map) [ none ↦ 0 | some n ↦ n ]

  unfoldable pub connected : A → A → UnionFind A → Option (Bool × UnionFind A)
  unfolding has_element
  connected a b u =
      if not (has_element a u) || not (has_element b u)
      then some (false, u)
      else do (a_rep, u') ← find_rep a u; (b_rep, u'') ← find_rep b u'; some (a_rep =? b_rep, u'')

  -- The small set is mounted to the large one.
  unfoldable pub mount : A → A → UnionFind A → UnionFind A
  unfolding size_of
  mount a_rep b_rep u =
      let large = if leb (size_of b_rep u) (size_of a_rep u) then a_rep else b_rep in
      let small = if large =? a_rep then b_rep else a_rep in
      record u {
        parent_map = put small large u.parent_map;
        size_map = erase small (put large (size_of a_rep u + size_of b_rep u) u.size_map);
        connected_component = u.connected_component - 1;
      }

  unfoldable pub merge : A → A → UnionFind A → Option (UnionFind A)
  unfolding has_element
  merge a b u = if not (has_element a u) || not (has_element b u) then some u else do
    (a_rep, u') ← find_rep a u
    (b_rep, u'') ← find_rep b u'
    some (if a_rep =? b_rep then u'' else mount a_rep b_rep u'')
