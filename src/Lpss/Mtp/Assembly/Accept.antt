-- ===== src/Lpss/Mtp/Assembly/Accept.antt =====
-- modules/lpss/src/node_rmtp.cpp: every branch of accept_fragment keeps the cache's invariant.
use rmvl.Prelude.{
  Bool-cases, Option-cases, [], arith, inl, inr, length, ltb, none, refl, some, ℕ, ◌+◌, ◌<◌, ◌==◌,
  ◌=?◌, ◌^◌, ◌∙◌, ◌≡◌, ◌≤◌,
}
use rmvl.Bytes.{Bytes, bytes_eq}
use rmvl.Dict.{find}
use rmvl.Dict.Laws.{All-find, find-put_self}
use rmvl.Lpss.Mtp.Header.{parse_header, sizes_agree}
use rmvl.Lpss.Mtp.Assembly.{
  Limits, MtpAsmKey, key_eq, MtpAsm, Reassembly, add_size, remove_expired, reserve_memory,
  find_fragment, emplace_fragment, finish, store_new, store, accept_parsed, Arrival, key_of,
  accept_fragment, ParsedFragment,
}
use rmvl.Lpss.Mtp.Assembly.Accounts.{
  fragment_bytes, bytes_at, fragment_bytes-emplace, IsOrdered-emplace,
}
use rmvl.Lpss.Mtp.Assembly.Invariant.{
  IsWf, IsValid, bytes_at-found, add_size-exact, remove_asm-IsValid, put-IsValid,
  remove_expired-IsValid, reserve_memory-Reserved,
}

-- An accepted payload is no longer than the message.
pub parse_header-sizes :
    (header payload type topic : Bytes) (parsed : ParsedFragment)
    → parse_header header payload type topic ≡ some parsed
    → length payload ≤ parsed.total_size
unfolding parse_header sizes_agree
parse_header-sizes header payload type topic parsed h = ground arith

module _ (limits : Limits) (narrow : limits.reassembly_max_bytes < 2 ^ 32) where
  -- One of the two outcomes of storing a fragment leaves the message incomplete.
  finish-IsValid :
      {s : Reassembly} (key : MtpAsmKey) (a : MtpAsm)
      → IsValid limits s
      → find key s.asms ≡ some a
      → IsValid limits (finish key a s).1
  unfolding finish
  finish-IsValid {s} key a v f = ground (arith, remove_asm-IsValid limits narrow key a v f)

  store_new-IsValid :
      {s : Reassembly} (key : MtpAsmKey) (id : ℕ) (payload : Bytes) (a : MtpAsm)
      → IsValid limits s
      → find key s.asms ≡ some a
      → IsWf limits a
      → find_fragment id a.fragments ≡ none
      → length payload < 2 ^ 32
      → IsValid limits (store_new limits key id payload a s).1
  unfolding store_new
  store_new-IsValid {s} key id payload a v f w new h =
      elim (Bool-cases (ltb a.total_size (add_size a.bytes (length payload)))) [
        | inl e ↦ rw e (remove_asm-IsValid limits narrow key a v f).0
        | inr e ↦
            let r = reserve_memory (length s.asms) limits key (length payload) s in
            let made =
              reserve_memory-Reserved limits narrow (length s.asms) s key (length payload) v h in
            elim (Bool-cases r.0) [
              | inl roomy ↦
                  let here = bytes_at-found key r.1 a (made.kept_entry ∙ f) in
                  let stored : MtpAsm = record a {
                    fragments = emplace_fragment id payload a.fragments;
                    bytes = add_size a.bytes (length payload);
                  } in
                  let total : add_size a.bytes (length payload) ≡ a.bytes + length payload =
                    add_size-exact a.bytes (length payload) (omega arith) in
                  let held : add_size r.1.asm_bytes (length payload)
                      ≡ r.1.asm_bytes + length payload =
                    add_size-exact r.1.asm_bytes (length payload)
                      (omega (arith, made.room roomy)) in
                  let fits : a.bytes + length payload ≤ a.total_size = ground (arith, total) in
                  let wf : IsWf limits stored = record {
                    counted = omega (arith, fragment_bytes-emplace id payload a.fragments);
                    within = omega arith;
                    sized = w.sized;
                    ordered = IsOrdered-emplace id payload a.fragments new w.ordered;
                  } in
                  rw (e, roomy)
                    (finish-IsValid key stored
                      (put-IsValid limits narrow key stored _ made.valid wf (omega arith)
                        (omega (arith, made.room roomy)))
                      (find-put_self key stored r.1.asms))
              | inr full ↦
                  rw (e, full)
                    (remove_asm-IsValid limits narrow key a made.valid (made.kept_entry ∙ f)).0
            ]
      ]

  store-IsValid :
      {s : Reassembly} (now : ℕ) (key : MtpAsmKey) (id : ℕ) (payload : Bytes) (a : MtpAsm)
      → IsValid limits s
      → bytes_at key s.asms ≡ a.bytes
      → IsWf limits a
      → length payload < 2 ^ 32
      → IsValid limits (store limits now key id payload a s).1
  unfolding store
  store-IsValid {s} now key id payload a v e w h =
      let a' : MtpAsm = record a { updated = now } in
      let w' : IsWf limits a' = record {
        counted = w.counted;
        within = w.within;
        sized = w.sized;
        ordered = w.ordered;
      } in
      let v' = put-IsValid limits narrow key a' s.asm_bytes v w' (omega arith) v.bounded in
      let f = find-put_self key a' s.asms in
      elim (Option-cases (find_fragment id a.fragments)) [
        | inl new ↦ rw (new, store) (store_new-IsValid key id payload a' v' f w' new h)
        | inr (part, old) ↦
            rw (old, store)
              (elim (Bool-cases (part =? payload)) [
                | inl same ↦ rw same (finish-IsValid key a' v' f)
                | inr other ↦ rw other (remove_asm-IsValid limits narrow key a' v' f).0
              ])
      ]

  fresh-IsWf :
      (now total : ℕ)
      → total ≤ limits.reassembly_max_bytes
      → IsWf limits (record { total_size = total; fragments = []; bytes = 0; updated = now })
  unfolding fragment_bytes
  fresh-IsWf now total h = record { counted = refl; within = omega arith; sized = h; ordered = tt }

  accept_parsed-IsValid :
      {s : Reassembly} (now : ℕ) (key : MtpAsmKey) (parsed : ParsedFragment) (payload : Bytes)
      → IsValid limits s
      → length payload < 2 ^ 32
      → parsed.total_size ≤ limits.reassembly_max_bytes
      → IsValid limits (accept_parsed limits now key parsed payload s).1
  unfolding accept_parsed bytes_at
  accept_parsed-IsValid {s} now key parsed payload v h t = elim (Option-cases (find key s.asms)) [
    | inl absent ↦
        rw (absent, accept_parsed)
          (store-IsValid now key parsed.fragment_id payload _ v (rw (absent, bytes_at) refl)
            (fresh-IsWf now parsed.total_size t) h)
    | inr (a, f) ↦ elim (Bool-cases (a.total_size == parsed.total_size)) [
      | inl same ↦
          rw (f, accept_parsed, same)
            (store-IsValid now key parsed.fragment_id payload a v (bytes_at-found key s a f)
              (All-find _ key a s.asms v.entries f) h)
      | inr other ↦ rw (f, accept_parsed, other) (remove_asm-IsValid limits narrow key a v f).0
    ]
  ]

  pub accept_fragment-IsValid :
      {s : Reassembly} (type topic : Bytes) (d : Arrival)
      → IsValid limits s
      → IsValid limits (accept_fragment limits type topic d s).1
  unfolding accept_fragment accept_parsed
  accept_fragment-IsValid {s} type topic d v =
      let v' = remove_expired-IsValid limits narrow d.now v in
      let s' = remove_expired limits.fragment_timeout d.now s.asms s.asm_bytes in
      elim (Option-cases (parse_header d.header d.payload type topic)) [
        | inl refused ↦ rw (refused, accept_fragment) v'
        | inr (parsed, e) ↦ elim (Bool-cases (ltb limits.reassembly_max_bytes parsed.total_size)) [
          | inl large ↦ rw (e, accept_fragment, large) v'
          | inr fits ↦
              let size : length d.payload ≤ parsed.total_size =
                parse_header-sizes d.header d.payload type topic parsed e in
              let small : parsed.total_size ≤ limits.reassembly_max_bytes = ground arith in
              rw (e, accept_fragment, fits)
                (accept_parsed-IsValid d.now (key_of d parsed) parsed d.payload v' (omega arith)
                  small)
        ]
      ]
