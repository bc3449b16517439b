-- ===== src/Lpss/Node/Tidy.antt =====
-- modules/lpss/src/node.cpp: a topic stands in the tables of a node as long as it has an endpoint.
use mathlib.Core.Path.{subst}
use mathlib.Core.Option.{some-injective}
use rmvl.Prelude.{
  All, Bool, Bool-cases, List, Option-cases, [], arith, inl, inr, length, refl, some, sym, true, ℕ,
  ◌<◌, ◌==◌, ◌=?◌, ◌∙◌, ◌∷◌, ◌≡◌,
}
use rmvl.Bytes.{Bytes, bytes_eq}
use rmvl.Dict.{Dict, put, erase}
use rmvl.Dict.Laws.{All-put, All-erase}
use rmvl.Lpss.Guid.{Guid, guid_eq, Locator}
use rmvl.Lpss.Mtp.Capacity.{NetworkInterface}
use rmvl.Lpss.Mtp.Endpoints.{erase_node}
use rmvl.Lpss.Rsd.{RedpMessage, Action, EndpointType, add, remove, reader, writer, redp_deserialize}
use rmvl.Lpss.Node.{
  Table, discovered_at, add_discovered, remove_discovered, clean_discovered, clean_all, timeouts,
  Node, set_endpoint, set_discovered, tell_local, apply_redp, redp_listen, forget_all,
  heartbeat_detect,
}

module _ {V : Type 0} where
  -- Each topic of the table has an endpoint.
  abbrev pub IsTidy : Table V → Type 0
  IsTidy = All (λ p. 0 < length p.1.endpoints)

  put-nonempty : (guid : Guid) (v : V) (m : Dict Guid V) → 0 < length (put guid v m)
  unfolding put
  put-nonempty guid v [] = omega arith
  put-nonempty guid v ((g, w) ∷ m) = elim (Bool-cases (guid =? g)) [
    | inl same ↦ rw (put, same) (omega arith)
    | inr other ↦ rw (put, other) (omega arith)
  ]

  add_discovered-IsTidy :
      (topic msgtype : Bytes) (guid : Guid) (v : V) (table : Table V)
      → IsTidy table
      → IsTidy (add_discovered topic msgtype guid v table).1
  unfolding add_discovered
  add_discovered-IsTidy topic msgtype guid v table h =
      All-put _ topic _ table (put-nonempty guid v (discovered_at topic table).endpoints) h

  remove_discovered-IsTidy :
      (topic : Bytes) (guid : Guid) (table : Table V)
      → IsTidy table
      → IsTidy (remove_discovered topic guid table)
  unfolding remove_discovered
  remove_discovered-IsTidy topic guid table h =
      let left = erase guid (discovered_at topic table).endpoints in
      elim (Bool-cases (length left == 0)) [
        | inl empty ↦ rw (remove_discovered, empty) (All-erase _ topic table h)
        | inr some_left ↦
            rw (remove_discovered, some_left) (All-put _ topic _ table (ground arith) h)
      ]

  clean_discovered-IsTidy : (dead : Guid) (table : Table V) → IsTidy (clean_discovered dead table)
  unfolding clean_discovered
  clean_discovered-IsTidy dead [] = tt
  clean_discovered-IsTidy dead ((topic, d) ∷ table) =
      let left = erase_node dead d.endpoints in
      elim (Bool-cases (length left == 0)) [
        | inl empty ↦ rw (clean_discovered, empty) (clean_discovered-IsTidy dead table)
        | inr some_left ↦
            rw (clean_discovered, some_left) (ground arith, clean_discovered-IsTidy dead table)
      ]

  pub clean_all-IsTidy :
      (guids : List Guid) (table : Table V) → IsTidy table → IsTidy (clean_all guids table)
  unfolding clean_all
  clean_all-IsTidy [] table h = h
  clean_all-IsTidy (dead ∷ guids) table h =
      clean_all-IsTidy guids (clean_discovered dead table) (clean_discovered-IsTidy dead table)

module _ (Shm : Type 0) where
  pub record IsTidyNode (node : Node Shm) : Type 0 where
    pub writers : IsTidy node.discovered_writers
    pub readers : IsTidy node.discovered_readers

  set_endpoint-IsTidyNode :
      (action : Action) (type : EndpointType) (topic msgtype : Bytes) (guid : Guid) (loc : Locator)
      (node : Node Shm)
      → IsTidyNode node
      → IsTidyNode (set_endpoint Shm action type topic msgtype guid loc node).1
  unfolding set_endpoint
  set_endpoint-IsTidyNode add writer topic msgtype guid loc node v = record {
    writers = add_discovered-IsTidy topic msgtype guid true node.discovered_writers v.writers;
    readers = v.readers;
  }
  set_endpoint-IsTidyNode add reader topic msgtype guid loc node v = record {
    writers = v.writers;
    readers = add_discovered-IsTidy topic msgtype guid loc node.discovered_readers v.readers;
  }
  set_endpoint-IsTidyNode remove writer topic msgtype guid loc node v = record {
    writers = remove_discovered-IsTidy topic guid node.discovered_writers v.writers;
    readers = v.readers;
  }
  set_endpoint-IsTidyNode remove reader topic msgtype guid loc node v = record {
    writers = v.writers;
    readers = remove_discovered-IsTidy topic guid node.discovered_readers v.readers;
  }

  module _ (create_shm_channel : Bytes → Shm) (interfaces : List NetworkInterface) where
    tell_local-IsTidyNode :
        (type : EndpointType) (msg : RedpMessage) (addr : Bytes) (node : Node Shm)
        → IsTidyNode node
        → IsTidyNode (tell_local Shm create_shm_channel interfaces type msg addr node)
    unfolding tell_local
    tell_local-IsTidyNode reader msg addr node v = record {
      writers = v.writers;
      readers = v.readers;
    }
    tell_local-IsTidyNode writer msg addr node v = record {
      writers = v.writers;
      readers = v.readers;
    }

    apply_redp-IsTidyNode :
        (msg : RedpMessage) (addr : Bytes) (node : Node Shm)
        → IsTidyNode node
        → IsTidyNode (apply_redp Shm create_shm_channel interfaces msg addr node).1
    unfolding apply_redp set_discovered
    apply_redp-IsTidyNode msg addr node v =
        let stored = set_discovered Shm msg addr node in
        let w : IsTidyNode stored.1 =
          set_endpoint-IsTidyNode msg.action msg.type msg.topic msg.msgtype msg.endpoint_guid
            (record { port = msg.port; addr = addr }) node v in
        elim (Bool-cases stored.0) [
          | inl agrees ↦
              rw (apply_redp, agrees) (tell_local-IsTidyNode msg.type msg addr stored.1 w)
          | inr differs ↦ rw (apply_redp, differs) w
        ]

  forget_all-IsTidyNode :
      (guids : List Guid) (node : Node Shm)
      → IsTidyNode node
      → IsTidyNode (forget_all Shm guids node)
  unfolding forget_all
  forget_all-IsTidyNode [] node v = v
  forget_all-IsTidyNode (dead ∷ guids) node v =
      forget_all-IsTidyNode guids _ (record { writers = v.writers; readers = v.readers })

  -- A message on an endpoint, if it can be read, and a round of the heartbeat leave each topic that is
  -- in the tables of discovered writers and readers with an endpoint, if each had one before; also
  -- where the message's type does not agree, which is an exception.
  pub redp_listen-IsTidyNode :
      (create_shm_channel : Bytes → Shm) (interfaces : List NetworkInterface) (bytes addr : Bytes)
      (now : ℕ) (node : Node Shm) (r : Bool × Node Shm)
      → IsTidyNode node
      → redp_listen Shm create_shm_channel interfaces bytes addr node ≡ some r
      → IsTidyNode r.1 × IsTidyNode (heartbeat_detect Shm now node)
  unfolding redp_listen heartbeat_detect
  redp_listen-IsTidyNode create_shm_channel interfaces bytes addr now node r v h = (
    read,
    forget_all-IsTidyNode (timeouts now node.discovered_nodes) _ (record {
      writers =
          clean_all-IsTidy (timeouts now node.discovered_nodes) node.discovered_writers v.writers;
      readers =
          clean_all-IsTidy (timeouts now node.discovered_nodes) node.discovered_readers v.readers;
    }),
  )
    where
      read : IsTidyNode r.1
      read = elim (Option-cases (redp_deserialize bytes)) [
        | inl unread ↦ absurd (ground arith)
        | inr (msg, e) ↦
            let applied = apply_redp Shm create_shm_channel interfaces msg addr node in
            let done : redp_listen Shm create_shm_channel interfaces bytes addr node
                ≡ some applied =
              rw (redp_listen, e) refl in
            subst (λ q. IsTidyNode q.1) (some-injective applied r (sym done ∙ h))
              (apply_redp-IsTidyNode create_shm_channel interfaces msg addr node v)
      ]
