-- ===== src/Lpss/Mtp/Endpoints/Routes.antt =====
-- modules/lpss/src/node_rmtp.cpp: a writer reaches each reader by one channel, and what removing an
-- endpoint or a node leaves of a map.
use rmvl.Prelude.{
  All, Bool-cases, List, Option-cases, [], arith, false, if◌then◌else◌, inl, inr, none, some, true,
  ◌=?◌, ◌∙◌, ◌∷◌, ◌≡◌,
}
use rmvl.Dict.{Dict, find}
use rmvl.Dict.Laws.{
  Unique, Unique-put, Unique-erase, All-put, All-erase, find-erase_ne, find-erase_self,
}
use rmvl.Lpss.Guid.{Guid, guid_eq, Locator, host, pid}
use rmvl.Lpss.Mtp.Capacity.{NetworkInterface}
use rmvl.Lpss.Mtp.Endpoints.{
  same_host, same_node, erase_node, erase_endpoint_or_node, DataWriter, add_reader_endpoint,
  remove_reader_endpoint, Bytes,
}

module _ {ℓ} {V : Type ℓ} where
  find-erase_node :
      (g q : Guid) (m : Dict Guid V)
      → find q (erase_node g m) ≡ (if same_node q g then none else find q m)
  unfolding find erase_node same_node host pid
  find-erase_node g q [] = ground arith
  find-erase_node g q ((j, v) ∷ m) = ground (arith, guid_eq.beq_iff q j, find-erase_node g q m)

  -- Removing an endpoint that a map without double keys holds removes that endpoint alone. Removing
  -- any other GUID removes every endpoint of its node, and no other.
  pub find-erase_endpoint_or_node :
      (g q : Guid) (m : Dict Guid V)
      → Unique m
      → find q (erase_endpoint_or_node g m) ≡ elim (find g m) [
        | some _ ↦ if q =? g then none else find q m
        | none ↦ if same_node q g then none else find q m
      ]
  unfolding erase_endpoint_or_node
  find-erase_endpoint_or_node g q m u = elim (Option-cases (find g m)) [
    | inl absent ↦ rw (absent, erase_endpoint_or_node) (find-erase_node g q m)
    | inr (v, held) ↦
        rw (held, erase_endpoint_or_node)
          (elim (Bool-cases (q =? g)) [
            | inl same ↦ rw same (ground (arith, guid_eq.beq_iff q g, find-erase_self g m u))
            | inr other ↦ rw other (find-erase_ne g q m other)
          ])
  ]

  erase_node-Unique : (g : Guid) (m : Dict Guid V) → Unique m → Unique (erase_node g m)
  unfolding erase_node
  erase_node-Unique g [] u = tt
  erase_node-Unique g ((j, v) ∷ m) u = elim (Bool-cases (same_node j g)) [
    | inl same ↦ rw same (erase_node-Unique g m u.1)
    | inr other ↦
        let absent : find j (erase_node g m) ≡ none = find-erase_node g j m ∙ (rw other u.0) in
        rw other (absent, erase_node-Unique g m u.1)
  ]

  erase_endpoint_or_node-Unique :
      (g : Guid) (m : Dict Guid V) → Unique m → Unique (erase_endpoint_or_node g m)
  unfolding erase_endpoint_or_node
  erase_endpoint_or_node-Unique g m u = elim (Option-cases (find g m)) [
    | inl absent ↦ rw (absent, erase_endpoint_or_node) (erase_node-Unique g m u)
    | inr (v, held) ↦ rw (held, erase_endpoint_or_node) (Unique-erase g m u)
  ]

module _ {ℓ κ} {V : Type ℓ} (P : Guid × V → Type κ) where
  All-erase_node : (g : Guid) (m : Dict Guid V) → All P m → All P (erase_node g m)
  unfolding erase_node
  All-erase_node g [] h = tt
  All-erase_node g ((j, v) ∷ m) h = elim (Bool-cases (same_node j g)) [
    | inl same ↦ rw same (All-erase_node g m h.1)
    | inr other ↦ rw other (h.0, All-erase_node g m h.1)
  ]

  All-erase_endpoint_or_node :
      (g : Guid) (m : Dict Guid V) → All P m → All P (erase_endpoint_or_node g m)
  unfolding erase_endpoint_or_node
  All-erase_endpoint_or_node g m h = elim (Option-cases (find g m)) [
    | inl absent ↦ rw (absent, erase_endpoint_or_node) (All-erase_node g m h)
    | inr (v, held) ↦ rw (held, erase_endpoint_or_node) (All-erase P g m h)
  ]

-- The readers of the writer's own host are reached by shared memory, all others by UDP, and no map
-- holds a reader twice.
pub record IsRouted (Shm : Type 0) (w : DataWriter Shm) : Type 0 where
  pub remote : All (λ e. same_host w.guid e.0 ≡ false) w.udpv4_targets
  pub local : All (λ e. same_host w.guid e.0 ≡ true) w.shm_targets
  pub remote_unique : Unique w.udpv4_targets
  pub local_unique : Unique w.shm_targets

-- A writer whose readers are reached each by the one channel of its host, shared memory on the same
-- host and UDP on another, is such a writer after a reader is added, and after an endpoint or a node
-- is removed.
pub add_remove-IsRouted :
    (Shm : Type 0) (w : DataWriter Shm) (create_shm_channel : Bytes → Shm)
    (interfaces : List NetworkInterface) (g : Guid) (loc : Locator)
    → IsRouted Shm w
    → IsRouted Shm (add_reader_endpoint Shm create_shm_channel interfaces g loc w)
      × IsRouted Shm (remove_reader_endpoint Shm g w)
unfolding add_reader_endpoint remove_reader_endpoint
add_remove-IsRouted Shm w create_shm_channel interfaces g loc v = (
  elim (Bool-cases (same_host w.guid g)) [
    | inl here ↦ rw here (record {
      remote = All-erase _ g w.udpv4_targets v.remote;
      local = All-put _ g _ w.shm_targets here v.local;
      remote_unique = Unique-erase g w.udpv4_targets v.remote_unique;
      local_unique = Unique-put g _ w.shm_targets v.local_unique;
    })
    | inr away ↦ rw away (record {
      remote = All-put _ g _ w.udpv4_targets away v.remote;
      local = All-erase _ g w.shm_targets v.local;
      remote_unique = Unique-put g _ w.udpv4_targets v.remote_unique;
      local_unique = Unique-erase g w.shm_targets v.local_unique;
    })
  ],
  record {
    remote = All-erase_endpoint_or_node _ g w.udpv4_targets v.remote;
    local = All-erase_endpoint_or_node _ g w.shm_targets v.local;
    remote_unique = erase_endpoint_or_node-Unique g w.udpv4_targets v.remote_unique;
    local_unique = erase_endpoint_or_node-Unique g w.shm_targets v.local_unique;
  },
)
