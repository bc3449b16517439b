-- ===== src/Lpss/Mtp/Assembly/Contents.antt =====
-- modules/lpss/src/node_rmtp.cpp: what is true of every stored fragment stays true, and a message
-- that accept_fragment returns is put together from stored fragments.
use mathlib.Core.Path.{subst}
use rmvl.Prelude.{
  ==_iff, All, Bool-cases, Option, Option-cases, [], ap, arith, inl, inr, leb, length, ltb, none,
  refl, some, suc, zero, ℕ, ◌==◌, ◌=?◌, ◌∙◌, ◌∷◌, ◌≡◌,
}
use rmvl.Bytes.{Bytes, bytes_eq}
use rmvl.Dict.{find, put}
use rmvl.Dict.Laws.{All-put, All-erase, All-find}
use rmvl.Lpss.Mtp.Header.{ParsedFragment, parse_header}
use rmvl.Lpss.Mtp.Assembly.{
  Limits, MtpAsmKey, key_eq, Fragments, MtpAsm, Reassembly, add_size, remove_asm, oldest_from,
  reserve_memory, find_fragment, emplace_fragment, gap, overrun, scanned, scan, join_fragments,
  finish, store_new, store, accept_parsed, Arrival, key_of, accept_fragment, Scan,
}
use rmvl.Lpss.Mtp.Assembly.Accounts.{All-remove_expired}

All-emplace :
    (P : ℕ × Bytes → Type 0) (id : ℕ) (part : Bytes) (fs : Fragments)
    → P (id, part)
    → All P fs
    → All P (emplace_fragment id part fs)
unfolding emplace_fragment
All-emplace P id part [] p h = (p, tt)
All-emplace P id part ((i, other) ∷ fs) p h = elim (Bool-cases (ltb id i)) [
  | inl e ↦ rw e (p, h)
  | inr e ↦ rw e (h.0, All-emplace P id part fs p h.1)
]

-- `Good key total id part`: what is known of a fragment of the message `key`, `total` bytes long.
module _ (Good : MtpAsmKey → ℕ → ℕ → Bytes → Type 0) where
  abbrev pub AllGood : MtpAsmKey → ℕ → Fragments → Type 0
  AllGood key total fs = All (λ f. Good key total f.0 f.1) fs

  abbrev pub EntryGood : MtpAsmKey × MtpAsm → Type 0
  EntryGood (key, a) = AllGood key a.total_size a.fragments

  -- A message put together from good fragments without a gap, of the size that they state.
  pub record Delivered (key : MtpAsmKey) (total : ℕ) (message : Bytes) : Type 0 where
    pub fragments : Fragments
    pub good : AllGood key total fragments
    pub complete : scan total 0 0 fragments ≡ scanned total
    pub joined : message ≡ join_fragments fragments

  abbrev pub Outcome : MtpAsmKey → ℕ → Option Bytes × Reassembly → Type 0
  Outcome key total (result, s) =
      ((message : Bytes) → result ≡ some message → Delivered key total message)
      × All EntryGood s.asms

  module _ (limits : Limits) (key : MtpAsmKey) where
    removed :
        (total : ℕ) (a : MtpAsm) (s : Reassembly)
        → All EntryGood s.asms
        → Outcome key total (none, remove_asm key a s)
    unfolding remove_asm
    removed total a s h = (λ m e. cc, All-erase EntryGood key s.asms h)

    finish-Outcome :
        (a : MtpAsm) (s : Reassembly)
        → All EntryGood s.asms
        → EntryGood (key, a)
        → Outcome key a.total_size (finish key a s)
    unfolding finish remove_asm
    finish-Outcome a s h g = go (scan a.total_size 0 0 a.fragments) refl
      where
        go :
            (r : Scan)
            → scan a.total_size 0 0 a.fragments ≡ r
            → Outcome key a.total_size (finish key a s)
        go gap e = rw (e, finish) (λ m f. cc, h)
        go overrun e = rw (e, finish) (removed a.total_size a s h)
        go (scanned total) e = elim (Bool-cases (total == a.total_size)) [
          | inr f ↦ rw (e, finish, f) (λ m g. cc, h)
          | inl f ↦
              let whole : total ≡ a.total_size = (==_iff _ _).0 f in
              rw (e, finish, f)
                (
                  λ m eq. record {
                    fragments = a.fragments;
                    good = g;
                    complete = e ∙ ap scanned whole;
                    joined = ground arith;
                  },
                  All-erase EntryGood key s.asms h,
                )
        ]

    All-reserve_memory :
        (rounds : ℕ) (s : Reassembly) (amount : ℕ)
        → All EntryGood s.asms
        → All EntryGood (reserve_memory rounds limits key amount s).1.asms
    unfolding reserve_memory remove_asm
    All-reserve_memory zero s amount h = h
    All-reserve_memory (suc rounds) s amount h =
        elim (Bool-cases (leb (add_size s.asm_bytes amount) limits.reassembly_max_bytes)) [
          | inl e ↦ rw e h
          | inr e ↦ elim (Option-cases (oldest_from key s.asms none)) [
            | inl f ↦ rw (e, f) h
            | inr ((k, a), f) ↦
                rw (e, f)
                  (All-reserve_memory rounds (remove_asm k a s) amount
                    (All-erase EntryGood k s.asms h))
          ]
        ]

    store_new-Outcome :
        (id : ℕ) (payload : Bytes) (a : MtpAsm) (s : Reassembly)
        → All EntryGood s.asms
        → EntryGood (key, a)
        → Good key a.total_size id payload
        → Outcome key a.total_size (store_new limits key id payload a s)
    unfolding store_new
    store_new-Outcome id payload a s h g new =
        let r = reserve_memory (length s.asms) limits key (length payload) s in
        let kept = All-reserve_memory (length s.asms) s (length payload) h in
        let stored : MtpAsm = record a {
          fragments = emplace_fragment id payload a.fragments;
          bytes = add_size a.bytes (length payload);
        } in
        let more = All-emplace (λ f. Good key a.total_size f.0 f.1) id payload a.fragments new g in
        elim (Bool-cases (ltb a.total_size (add_size a.bytes (length payload)))) [
          | inl e ↦ rw e (removed a.total_size a s h)
          | inr e ↦ elim (Bool-cases r.0) [
            | inl roomy ↦
                rw (e, roomy)
                  (finish-Outcome stored _ (All-put EntryGood key stored r.1.asms more kept) more)
            | inr full ↦ rw (e, full) (removed a.total_size a r.1 kept)
          ]
        ]

    store-Outcome :
        (now id : ℕ) (payload : Bytes) (a : MtpAsm) (s : Reassembly)
        → All EntryGood s.asms
        → EntryGood (key, a)
        → Good key a.total_size id payload
        → Outcome key a.total_size (store limits now key id payload a s)
    unfolding store
    store-Outcome now id payload a s h g new =
        let a' : MtpAsm = record a { updated = now } in
        let s' : Reassembly = record s { asms = put key a' s.asms } in
        let h' = All-put EntryGood key a' s.asms g h in
        elim (Option-cases (find_fragment id a.fragments)) [
          | inl absent ↦ rw (absent, store) (store_new-Outcome id payload a' s' h' g new)
          | inr (part, old) ↦ elim (Bool-cases (part =? payload)) [
            | inl same ↦ rw (old, store, same) (finish-Outcome a' s' h' g)
            | inr other ↦ rw (old, store, other) (removed a.total_size a' s' h')
          ]
        ]

    accept_parsed-Outcome :
        (now : ℕ) (parsed : ParsedFragment) (payload : Bytes) (s : Reassembly)
        → All EntryGood s.asms
        → Good key parsed.total_size parsed.fragment_id payload
        → Outcome key parsed.total_size (accept_parsed limits now key parsed payload s)
    unfolding accept_parsed
    accept_parsed-Outcome now parsed payload s h new = elim (Option-cases (find key s.asms)) [
      | inl absent ↦
          rw (absent, accept_parsed) (store-Outcome now parsed.fragment_id payload _ s h tt new)
      | inr (a, f) ↦ elim (Bool-cases (a.total_size == parsed.total_size)) [
        | inl same ↦
            let e : a.total_size ≡ parsed.total_size = (==_iff _ _).0 same in
            let g = All-find EntryGood key a s.asms h f in
            rw (f, accept_parsed, same)
              (subst (λ t. Outcome key t (store limits now key parsed.fragment_id payload a s)) e
                (store-Outcome now parsed.fragment_id payload a s h g (rw e new)))
        | inr other ↦ rw (f, accept_parsed, other) (removed parsed.total_size a s h)
      ]
    ]

  -- What accept_fragment makes of an arrival.
  pub record Accepted (d : Arrival) (type topic : Bytes) (r : Option Bytes × Reassembly)
      : Type 0 where
    pub message_of :
        (message : Bytes)
        → r.0 ≡ some message
        → (parsed : ParsedFragment) × (parse_header d.header d.payload type topic ≡ some parsed)
          × Delivered (key_of d parsed) parsed.total_size message
    pub kept : All EntryGood r.1.asms

  pub accept_fragment-Accepted :
      (limits : Limits) (type topic : Bytes) (d : Arrival) (s : Reassembly)
      → All EntryGood s.asms
      → ((parsed : ParsedFragment)
          → parse_header d.header d.payload type topic ≡ some parsed
          → Good (key_of d parsed) parsed.total_size parsed.fragment_id d.payload)
      → Accepted d type topic (accept_fragment limits type topic d s)
  unfolding accept_fragment
  accept_fragment-Accepted limits type topic d s h new =
      let h' = All-remove_expired EntryGood limits.fragment_timeout d.now s.asms s.asm_bytes h in
      elim (Option-cases (parse_header d.header d.payload type topic)) [
        | inl refused ↦ rw (refused, accept_fragment) (record { message_of = λ m e. cc; kept = h' })
        | inr (parsed, e) ↦ elim (Bool-cases (ltb limits.reassembly_max_bytes parsed.total_size)) [
          | inl large ↦
              rw (e, accept_fragment, large) (record { message_of = λ m e. cc; kept = h' })
          | inr fits ↦
              let (out, kept) =
                accept_parsed-Outcome limits (key_of d parsed) d.now parsed d.payload _ h'
                  (new parsed e) in
              rw (e, accept_fragment, fits)
                (record { message_of = λ m f. (parsed, e, out m f); kept = kept })
        ]
      ]
