-- ===== src/Lpss/Node/Clean.antt =====
-- modules/lpss/src/node.cpp: cleaning leaves no endpoint of the nodes it is for.
use rmvl.Prelude.{
  All, Bool-cases, List, [], arith, false, inl, inr, length, ◌<◌, ◌==◌, ◌∷◌, ◌≡◌, ◌⊎◌,
}
use rmvl.Lpss.Guid.{Guid, guid_eq}
use rmvl.Dict.{Dict}
use rmvl.Lpss.Mtp.Endpoints.{same_node, erase_node}
use rmvl.Lpss.Node.{Table, clean_discovered, clean_all}

-- A GUID is one of these.
abbrev pub Among : Guid → List Guid → Type 0
Among g [] = 0 < 0
Among g (h ∷ hs) = (g ≡ h) ⊎ Among g hs

module _ {V : Type 0} where
  -- No endpoint of the node is in the table.
  abbrev pub IsCleanOf : Guid → Table V → Type 0
  IsCleanOf dead = All (λ p. All (λ e. same_node e.0 dead ≡ false) p.1.endpoints)

  erase_node-clean :
      (dead : Guid) (m : Dict Guid V) → All (λ e. same_node e.0 dead ≡ false) (erase_node dead m)
  unfolding erase_node
  erase_node-clean dead [] = tt
  erase_node-clean dead ((g, v) ∷ m) = elim (Bool-cases (same_node g dead)) [
    | inl same ↦ rw (erase_node, same) (erase_node-clean dead m)
    | inr other ↦ rw (erase_node, other) (other, erase_node-clean dead m)
  ]

  erase_node-All :
      (P : Guid × V → Type 0) (dead : Guid) (m : Dict Guid V) → All P m → All P (erase_node dead m)
  unfolding erase_node
  erase_node-All P dead [] h = tt
  erase_node-All P dead ((g, v) ∷ m) h = elim (Bool-cases (same_node g dead)) [
    | inl same ↦ rw (erase_node, same) (erase_node-All P dead m h.1)
    | inr other ↦ rw (erase_node, other) (h.0, erase_node-All P dead m h.1)
  ]

  clean_discovered-IsCleanOf :
      (dead : Guid) (table : Table V) → IsCleanOf dead (clean_discovered dead table)
  unfolding clean_discovered
  clean_discovered-IsCleanOf dead [] = tt
  clean_discovered-IsCleanOf dead ((topic, d) ∷ table) =
      elim (Bool-cases (length (erase_node dead d.endpoints) == 0)) [
        | inl empty ↦ rw (clean_discovered, empty) (clean_discovered-IsCleanOf dead table)
        | inr left ↦
            rw (clean_discovered, left)
              (erase_node-clean dead d.endpoints, clean_discovered-IsCleanOf dead table)
      ]

  clean_discovered-still :
      (g dead : Guid) (table : Table V)
      → IsCleanOf g table
      → IsCleanOf g (clean_discovered dead table)
  unfolding clean_discovered
  clean_discovered-still g dead [] h = tt
  clean_discovered-still g dead ((topic, d) ∷ table) h =
      elim (Bool-cases (length (erase_node dead d.endpoints) == 0)) [
        | inl empty ↦ rw (clean_discovered, empty) (clean_discovered-still g dead table h.1)
        | inr left ↦
            rw (clean_discovered, left)
              (
                erase_node-All (λ e. same_node e.0 g ≡ false) dead d.endpoints h.0,
                clean_discovered-still g dead table h.1,
              )
      ]

  clean_all-still :
      (g : Guid) (guids : List Guid) (table : Table V)
      → IsCleanOf g table
      → IsCleanOf g (clean_all guids table)
  unfolding clean_all
  clean_all-still g [] table h = h
  clean_all-still g (dead ∷ guids) table h =
      clean_all-still g guids (clean_discovered dead table) (clean_discovered-still g dead table h)

  pub clean_all-IsCleanOf :
      (g : Guid) (guids : List Guid) (table : Table V)
      → Among g guids
      → IsCleanOf g (clean_all guids table)
  unfolding clean_all
  clean_all-IsCleanOf g [] table h = absurd (omega arith)
  clean_all-IsCleanOf g (dead ∷ guids) table h = elim h [
    | inl here ↦
        clean_all-still g guids (clean_discovered dead table)
          (rw here (clean_discovered-IsCleanOf dead table))
    | inr later ↦ clean_all-IsCleanOf g guids (clean_discovered dead table) later
  ]
