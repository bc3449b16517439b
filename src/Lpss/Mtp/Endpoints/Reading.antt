-- ===== src/Lpss/Mtp/Endpoints/Reading.antt =====
-- modules/lpss/src/node_rmtp.cpp: what the loop of DataReaderBase::read returns, in terms of the
-- datagrams that the socket hands over and of the flag that stops the reader.
use rmvl.Prelude.{
  Bool, Bool-cases, List, Option, Option-cases, [], ap, false, if◌then◌else◌, inl, inr, none, refl,
  some, sym, true, ◌++◌, ◌||◌, ◌∙◌, ◌∷◌, ◌≡◌,
}
use rmvl.Bytes.{Bytes}
use rmvl.Lpss.Mtp.Assembly.{Limits, Reassembly, Arrival, accept_fragment, receive}
use rmvl.Lpss.Mtp.Endpoints.{DataReader, Round, take_parts, read_shm_sources, read_round, read}

-- The datagram of a round: one of two parts, the header and the payload.
abbrev pub datagrams : (Shm : Type 0) → Round Shm → List Arrival
datagrams Shm i = elim i.parts [
  | header ∷ payload ∷ [] ↦
      record { now = i.now; addr = i.addr; port = i.port; header = header; payload = payload } ∷ []
  | _ ↦ []
]

-- What a reader hears before it is stopped, and whether it is stopped. A round in which the flag is
-- set, before or after the socket's read, is not heard.
abbrev pub heard : (Shm : Type 0) → List (Round Shm) → List Arrival × Bool
heard Shm [] = ([], false)
heard Shm (i ∷ is) =
    if i.stopped || i.stopped_after
    then ([], true)
    else (datagrams Shm i ++ (heard Shm is).0, (heard Shm is).1)

-- The first message of those that are complete; else the empty text if the reader is stopped, and
-- nothing while it waits.
abbrev pub outcome : List Bytes → Bool → Option Bytes
outcome (message ∷ _) stopped = some message
outcome [] stopped = if stopped then some [] else none

module _ (Shm : Type 0) (limits : Limits) where
  abbrev with_cache : DataReader Shm → Reassembly → DataReader Shm
  with_cache r cache = record r { shm_sources = []; cache = cache }

  read_round-alone :
      (i : Round Shm) (r : DataReader Shm) (cache : Reassembly)
      → read_round Shm limits i (with_cache r cache) ≡ (
          if i.stopped || i.stopped_after
          then (some [], with_cache r cache)
          else take_parts Shm limits i (with_cache r cache))
  unfolding read_round read_shm_sources
  read_round-alone i r cache = elim (Bool-cases i.stopped) [
    | inl before ↦ rw (read_round, before) refl
    | inr going ↦ elim (Bool-cases i.stopped_after) [
      | inl after ↦ rw (read_round, going, after) refl
      | inr still ↦ rw (read_round, going, still) refl
    ]
  ]

  -- What a call of read returns once a round has this result.
  abbrev go_on : List (Round Shm) → Option Bytes × DataReader Shm → Option Bytes
  go_on is result = elim result.0 [
    | some message ↦ some message
    | none ↦ (read Shm limits is result.1).0
  ]

  read-cons :
      (i : Round Shm) (is : List (Round Shm)) (r : DataReader Shm)
      → (read Shm limits (i ∷ is) r).0 ≡ go_on is (read_round Shm limits i r)
  unfolding read
  read-cons i is r = elim (Option-cases (read_round Shm limits i r).0) [
    | inl waits ↦ rw (read, waits) refl
    | inr (message, done) ↦ rw (read, done) refl
  ]

  receive-cons :
      (type topic : Bytes) (d : Arrival) (ds : List Arrival) (cache : Reassembly) (stopped : Bool)
      → let after = accept_fragment limits type topic d cache in
        outcome (receive limits type topic (d ∷ ds) cache).0 stopped ≡ elim after.0 [
          | some message ↦ some message
          | none ↦ outcome (receive limits type topic ds after.1).0 stopped
        ]
  unfolding receive
  receive-cons type topic d ds cache stopped =
      elim (Option-cases (accept_fragment limits type topic d cache).0) [
        | inl waits ↦ rw (receive, waits) refl
        | inr (message, done) ↦ rw (receive, done) refl
      ]

  -- A round that is not stopped, by its parts.
  go_on-parts :
      (i : Round Shm) (parts : List Bytes) (is : List (Round Shm)) (r : DataReader Shm)
      (cache : Reassembly) (ds : List Arrival) (stopped : Bool)
      → ((c : Reassembly)
          → (read Shm limits is (with_cache r c)).0
            ≡ outcome (receive limits r.type r.topic ds c).0 stopped)
      → go_on is (take_parts Shm limits (record i { parts = parts }) (with_cache r cache))
        ≡ outcome
            (receive limits r.type r.topic
              (datagrams Shm (record i { parts = parts }) ++ ds)
              cache).0
            stopped
  unfolding take_parts
  go_on-parts i [] is r cache ds stopped rest = rest cache
  go_on-parts i (header ∷ []) is r cache ds stopped rest = rest cache
  go_on-parts i (header ∷ payload ∷ other ∷ parts) is r cache ds stopped rest = rest cache
  go_on-parts i (header ∷ payload ∷ []) is r cache ds stopped rest =
      let d : Arrival = record {
        now = i.now;
        addr = i.addr;
        port = i.port;
        header = header;
        payload = payload;
      } in
      let after = accept_fragment limits r.type r.topic d cache in
      ap (λ o. elim after.0 [ some message ↦ some message | none ↦ o ]) (rest after.1)
      ∙ sym (receive-cons r.type r.topic d ds cache stopped)

  read_from :
      (is : List (Round Shm)) (r : DataReader Shm) (cache : Reassembly)
      → (read Shm limits is (with_cache r cache)).0
        ≡ outcome (receive limits r.type r.topic (heard Shm is).0 cache).0 (heard Shm is).1
  unfolding read receive
  read_from [] r cache = refl
  read_from (i ∷ is) r cache =
      read-cons i is (with_cache r cache)
      ∙ (ap (go_on is) (read_round-alone i r cache)
          ∙ elim (Bool-cases (i.stopped || i.stopped_after)) [
            | inl stopped ↦ rw stopped refl
            | inr going ↦ rw going (
                go_on-parts i i.parts is r cache (heard Shm is).0 (heard Shm is).1
                  (λ c. read_from is r c))
          ])

  -- A reader that has no writer on its own host returns from read the first message that the datagrams
  -- of two parts complete, of the rounds before the one in which it is stopped, before or after the
  -- socket's read; if they complete none, it returns the empty text once it is stopped, and waits
  -- until then.
  pub read-receive :
      (is : List (Round Shm)) (r : DataReader Shm)
      → r.shm_sources ≡ []
      → (read Shm limits is r).0
        ≡ outcome (receive limits r.type r.topic (heard Shm is).0 r.cache).0 (heard Shm is).1
  read-receive is r alone =
      let same : with_cache r r.cache ≡ r = rw alone refl in rw same at (read_from is r r.cache)
