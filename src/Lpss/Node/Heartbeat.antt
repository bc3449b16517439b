-- ===== src/Lpss/Node/Heartbeat.antt =====
-- modules/lpss/src/node.cpp: what a round of the heartbeat takes out of the tables of a node.
use mathlib.Core.Path.{subst}
use mathlib.Core.Option.{some-injective}
use rmvl.Prelude.{
  Bool, Bool-cases, List, [], ap, arith, false, if◌then◌else◌, inl, inr, length, ltb, lt→ltb, none,
  refl, some, sym, true, ℕ, ◌*◌, ◌+◌, ◌<◌, ◌=?◌, ◌∙◌, ◌∷◌, ◌≡◌,
}
use rmvl.Bytes.{Bytes, bytes_eq}
use rmvl.Dict.{Dict, find, erase}
use rmvl.Dict.Laws.{
  Unique, Unique-put, Unique-erase, find-erase_self, find-erase_ne, find-erase-none, find-put_self,
}
use rmvl.Lpss.Guid.{Guid, guid_eq, Locator, no_locator, invalid}
use rmvl.Lpss.Rsd.{
  RndpMessage, RedpMessage, rndp_header_size, rndp_deserialize, select_best_locator,
}
use rmvl.Lpss.Mtp.Endpoints.{DataReader}
use rmvl.Lpss.Node.{
  NodeStorageInfo, timed_out, timeouts, erase_all, Node, discover, rndp_listen, forget_all,
  heartbeat_detect,
}
use rmvl.Lpss.Node.Clean.{Among, IsCleanOf, clean_all-IsCleanOf}

-- The timeout of a node is in seconds, and the clock counts nanoseconds.
abbrev pub past_timeout : ℕ → NodeStorageInfo → Bool
past_timeout now info = ltb (info.last_alive + info.rndp_msg.heartbeat_timeout * 1000000000) now

timed_out_lem : (now : ℕ) (info : NodeStorageInfo) → timed_out now info ≡ past_timeout now info
unfolding timed_out
timed_out_lem now info =
    elim (Bool-cases (ltb (info.last_alive + info.rndp_msg.heartbeat_timeout * 1000000000) now)) [
      | inl past ↦ ground arith
      | inr early ↦ ground arith
    ]

-- The nodes that have timed out are those that are listed.
timeouts-Among :
    (now : ℕ) (g : Guid) (info : NodeStorageInfo) (nodes : Dict Guid NodeStorageInfo)
    → find g nodes ≡ some info
    → timed_out now info ≡ true
    → Among g (timeouts now nodes)
unfolding timeouts find
timeouts-Among now g info [] h k = absurd (ground arith)
timeouts-Among now g info ((guid, i) ∷ nodes) h k = elim (Bool-cases (g =? guid)) [
  | inl same ↦
      let this : i ≡ info = some-injective i info (sym (rw (find, same) refl) ∙ h) in
      rw (ap (timed_out now) this ∙ k) (inl ((guid_eq.beq_iff g guid).0 same))
  | inr other ↦
      let rest = timeouts-Among now g info nodes (rw (find, other) at h) k in
      elim (Bool-cases (timed_out now i)) [
        | inl late ↦ rw (timeouts, late) (inr rest)
        | inr alive ↦ rw (timeouts, alive) rest
      ]
]

find-tail :
    (g guid : Guid) (info i : NodeStorageInfo) (nodes : Dict Guid NodeStorageInfo)
    → find guid nodes ≡ none
    → find g nodes ≡ some info
    → find g ((guid, i) ∷ nodes) ≡ some info
unfolding find
find-tail g guid info i nodes new found = elim (Bool-cases (g =? guid)) [
  | inl same ↦
      let here : find guid nodes ≡ some info =
        subst (λ k. find k nodes ≡ some info) ((guid_eq.beq_iff g guid).0 same) found in
      absurd (ground (arith, new, here))
  | inr other ↦ rw other found
]

timeouts-found :
    (now : ℕ) (g : Guid) (nodes : Dict Guid NodeStorageInfo)
    → Unique nodes
    → Among g (timeouts now nodes)
    → (info : NodeStorageInfo) × ((find g nodes ≡ some info) × (timed_out now info ≡ true))
unfolding timeouts find
timeouts-found now g [] u h = absurd (omega arith)
timeouts-found now g ((guid, i) ∷ nodes) u h = elim (Bool-cases (timed_out now i)) [
  | inr alive ↦
      let (info, (found, late)) = timeouts-found now g nodes u.1 (rw (timeouts, alive) at h) in
      (info, (find-tail g guid info i nodes u.0 found, late))
  | inl late ↦ elim (rw (timeouts, late) at h) [
    | inl same ↦ (i, (rw (find, (guid_eq.beq_iff g guid).1 same) refl, late))
    | inr later ↦
        let (info, (found, late')) = timeouts-found now g nodes u.1 later in
        (info, (find-tail g guid info i nodes u.0 found, late'))
  ]
]

erase_all-none :
    (g : Guid) (guids : List Guid) (nodes : Dict Guid NodeStorageInfo)
    → find g nodes ≡ none
    → find g (erase_all guids nodes) ≡ none
unfolding erase_all
erase_all-none g [] nodes h = h
erase_all-none g (dead ∷ guids) nodes h =
    erase_all-none g guids (erase dead nodes) (find-erase-none dead g nodes h)

erase_all-Among :
    (g : Guid) (guids : List Guid) (nodes : Dict Guid NodeStorageInfo)
    → Unique nodes
    → Among g guids
    → find g (erase_all guids nodes) ≡ none
unfolding erase_all
erase_all-Among g [] nodes u h = absurd (omega arith)
erase_all-Among g (dead ∷ guids) nodes u h = elim h [
  | inl here ↦ erase_all-none g guids (erase dead nodes) (rw here (find-erase_self dead nodes u))
  | inr later ↦ erase_all-Among g guids (erase dead nodes) (Unique-erase dead nodes u) later
]

erase_all-other :
    (g : Guid) (guids : List Guid) (nodes : Dict Guid NodeStorageInfo)
    → (Among g guids → 0 < 0)
    → find g (erase_all guids nodes) ≡ find g nodes
unfolding erase_all
erase_all-other g [] nodes h = refl
erase_all-other g (dead ∷ guids) nodes h = elim (Bool-cases (g =? dead)) [
  | inl same ↦ absurd (omega (arith, h (inl ((guid_eq.beq_iff g dead).0 same))))
  | inr other ↦
      erase_all-other g guids (erase dead nodes) (λ k. h (inr k)) ∙ find-erase_ne dead g nodes other
]

module _ (Shm : Type 0) where
  forget_all-nodes :
      (guids : List Guid) (node : Node Shm)
      → (forget_all Shm guids node).discovered_nodes ≡ node.discovered_nodes
  unfolding forget_all
  forget_all-nodes [] node = refl
  forget_all-nodes (dead ∷ guids) node = forget_all-nodes guids _

  forget_all-writers :
      (guids : List Guid) (node : Node Shm)
      → (forget_all Shm guids node).discovered_writers ≡ node.discovered_writers
  unfolding forget_all
  forget_all-writers [] node = refl
  forget_all-writers (dead ∷ guids) node = forget_all-writers guids _

  forget_all-readers :
      (guids : List Guid) (node : Node Shm)
      → (forget_all Shm guids node).discovered_readers ≡ node.discovered_readers
  unfolding forget_all
  forget_all-readers [] node = refl
  forget_all-readers (dead ∷ guids) node = forget_all-readers guids _

  heartbeat_detect-nodes :
      (now : ℕ) (node : Node Shm) (g : Guid) (info : NodeStorageInfo)
      → Unique node.discovered_nodes
      → find g node.discovered_nodes ≡ some info
      → find g (heartbeat_detect Shm now node).discovered_nodes
        ≡ (if timed_out now info then none else some info)
  unfolding heartbeat_detect
  heartbeat_detect-nodes now node g info u h =
      let dead = timeouts now node.discovered_nodes in
      ap (find g) (forget_all-nodes dead _) ∙ elim (Bool-cases (timed_out now info)) [
        | inl late ↦ rw late (
            erase_all-Among g dead node.discovered_nodes u
              (timeouts-Among now g info node.discovered_nodes h late))
        | inr alive ↦ rw alive (erase_all-other g dead node.discovered_nodes (not_dead alive) ∙ h)
      ]
    where
      not_dead : timed_out now info ≡ false → Among g (timeouts now node.discovered_nodes) → 0 < 0
      not_dead alive k =
          let (i, (found, late)) = timeouts-found now g node.discovered_nodes u k in
          let same : i ≡ info = some-injective i info (sym found ∙ h) in
          absurd (ground (arith, sym (ap (timed_out now) same) ∙ late, alive))

  -- Where the table has one entry for each node, a round of the heartbeat takes a node out exactly
  -- when the clock is past the time in its entry (last_alive) by more than its timeout, in seconds
  -- of 1000000000 nanoseconds, and leaves its entry as it is otherwise; and none of the endpoints
  -- of a node that is taken out, by host and process, is left among the discovered writers and
  -- readers.
  pub heartbeat_detect_lem :
      (now : ℕ) (node : Node Shm) (g dead : Guid) (info dead_info : NodeStorageInfo)
      → Unique node.discovered_nodes
      → find g node.discovered_nodes ≡ some info
      → find dead node.discovered_nodes ≡ some dead_info
      → past_timeout now dead_info ≡ true
      → let after = heartbeat_detect Shm now node in
        (find g after.discovered_nodes ≡ (if past_timeout now info then none else some info))
        × (IsCleanOf dead after.discovered_writers × IsCleanOf dead after.discovered_readers)
  unfolding heartbeat_detect
  heartbeat_detect_lem now node g dead info dead_info u h k past =
      let late = timed_out_lem now dead_info ∙ past in
      let guids = timeouts now node.discovered_nodes in
      let listed = timeouts-Among now dead dead_info node.discovered_nodes k late in
      (
        heartbeat_detect-nodes now node g info u h
            ∙ ap (λ b. if b then none else some info) (timed_out_lem now info),
        (
          rw (forget_all-writers guids _)
              (clean_all-IsCleanOf dead guids node.discovered_writers listed),
          rw (forget_all-readers guids _)
              (clean_all-IsCleanOf dead guids node.discovered_readers listed),
        ),
      )

  discover-find :
      (port_of : DataReader Shm → ℕ) (msg : RndpMessage) (addr : Bytes) (node : Node Shm)
      → Unique node.discovered_nodes
      → (info : NodeStorageInfo) × ((find msg.guid
              (discover Shm port_of msg addr node).1.discovered_nodes
            ≡ some info)
          × ((info.rndp_msg ≡ msg)
              × ((info.last_alive ≡ 0)
                  × Unique (discover Shm port_of msg addr node).1.discovered_nodes)))
  unfolding discover
  discover-find port_of msg addr node u =
      let loc = select_best_locator addr msg.locators in
      let info : Locator → NodeStorageInfo =
        λ l. record { rndp_msg = msg; last_alive = 0; ctrl_loc = l } in
      elim (Bool-cases (invalid loc)) [
        | inl nowhere ↦
            rw (discover, nowhere)
              (
                info no_locator,
                (
                  find-put_self msg.guid (info no_locator) node.discovered_nodes,
                  (refl, (refl, Unique-put msg.guid (info no_locator) node.discovered_nodes u)),
                ),
              )
        | inr reached ↦
            rw (discover, reached)
              (
                info loc,
                (
                  find-put_self msg.guid (info loc) node.discovered_nodes,
                  (refl, (refl, Unique-put msg.guid (info loc) node.discovered_nodes u)),
                ),
              )
      ]

  -- A node that is new is taken out by a round of the heartbeat at any time after its timeout from the
  -- start of the clock, however recent its message is.
  pub heartbeat_detect-discover :
      (port_of : DataReader Shm → ℕ) (now later : ℕ) (bytes addr : Bytes) (msg : RndpMessage)
      (node : Node Shm) (r : List (Locator × RedpMessage) × Node Shm)
      → Unique node.discovered_nodes
      → rndp_deserialize bytes ≡ some msg
      → (msg.guid =? node.uid) ≡ false
      → find msg.guid node.discovered_nodes ≡ none
      → ltb (length bytes) rndp_header_size ≡ false
      → msg.heartbeat_timeout * 1000 * 1000000 < later
      → rndp_listen Shm port_of now bytes addr node ≡ some r
      → find msg.guid (heartbeat_detect Shm later r.1).discovered_nodes ≡ none
  unfolding rndp_listen timed_out
  heartbeat_detect-discover port_of now later bytes addr msg node r u read foreign new long late h =
      let found = discover Shm port_of msg addr node in
      let stepped : rndp_listen Shm port_of now bytes addr node ≡ some found =
        rw (rndp_listen, long, read, foreign, new) refl in
      let same : found ≡ r = some-injective found r (sym stepped ∙ h) in
      let (info, (stored, (says, (when, u')))) = discover-find port_of msg addr node u in
      let dead : timed_out later info ≡ true = dropped info says when in
      subst (λ q. find msg.guid (heartbeat_detect Shm later q.1).discovered_nodes ≡ none) same
        (heartbeat_detect-nodes later found.1 msg.guid info u' stored ∙ rw dead refl)
    where
      dropped :
          (info : NodeStorageInfo)
          → info.rndp_msg ≡ msg
          → info.last_alive ≡ 0
          → timed_out later info ≡ true
      dropped info says when = rw (timed_out, when, says) (lt→ltb _ _ (omega arith))
