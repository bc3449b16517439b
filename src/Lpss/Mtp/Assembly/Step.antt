-- ===== src/Lpss/Mtp/Assembly/Step.antt =====
-- modules/lpss/src/node_rmtp.cpp: the reader's step on the next part of a message of which it has
-- the parts before.
use rmvl.Prelude.{
  ==_iff, [], ap, arith, false, length, ltb, min, none, refl, some, suc, zero, ℕ, ◌*◌, ◌+◌, ◌-◌,
  ◌<◌, ◌^◌, ◌∙◌, ◌≡◌, ◌≤◌,
}
use rmvl.Bytes.{Bytes}
use rmvl.Dict.{find, put}
use rmvl.Dict.Laws.{find-put_self}
use rmvl.Lpss.Mtp.Header.{parse_header}
use rmvl.Lpss.Mtp.Send.{fragment_count}
use rmvl.Lpss.Mtp.Send.Fragments.{chunk, chunks_from, chunks_join, length-chunk, count-covers}
use rmvl.Lpss.Mtp.Assembly.{
  Limits, MtpAsmKey, key_eq, MtpAsm, Reassembly, add_size, remove_expired, reserve_memory, scanned,
  scan, join_fragments, finish, store_new, store, accept_parsed, Arrival, key_of, accept_fragment,
}
use rmvl.Lpss.Mtp.Assembly.Accounts.{find-remove_expired_fresh, find-remove_expired-none, bytes_at}
use rmvl.Lpss.Mtp.Assembly.Invariant.{
  IsWf, IsValid, put-IsValid, remove_expired-IsValid, add_size-exact,
}
use rmvl.Lpss.Mtp.Assembly.Room.{reserve_memory-room}
use rmvl.Lpss.Mtp.Assembly.Parts.{
  parts_from, join_fragments-parts_from, fragment_bytes-parts_from, length-chunks_from,
  find_fragment-parts_from, emplace_fragment-parts_from, IsOrdered-parts_from, scan-parts_from,
}

module _ (limits : Limits) (narrow : limits.reassembly_max_bytes < 2 ^ 32) (text : Bytes)
    (fits : length text ≤ limits.reassembly_max_bytes) (capacity : ℕ) (pos : 0 < capacity)
    (key : MtpAsmKey) where
  abbrev pub count : ℕ
  count = fragment_count capacity (length text)

  -- The entry with the first `n` parts.
  abbrev pub entry : ℕ → ℕ → MtpAsm
  entry n now = record {
    total_size = length text;
    fragments = parts_from text capacity n 0;
    bytes = min (n * capacity) (length text);
    updated = now;
  }

  entry-IsWf : (n now : ℕ) → IsWf limits (entry n now)
  entry-IsWf n now = record {
    counted =
        omega
          (arith, fragment_bytes-parts_from text capacity n 0, length-chunks_from text capacity n);
    within = omega arith;
    sized = fits;
    ordered = IsOrdered-parts_from text capacity n 0;
  }

  scan-entry :
      (n : ℕ)
      → scan (length text) 0 0 (parts_from text capacity n 0)
        ≡ scanned (min (n * capacity) (length text))
  scan-entry n =
      let size = length-chunks_from text capacity n in
      let zero_add : 0 + length (chunks_from text capacity n 0) ≡ min (n * capacity) (length text) =
        omega (arith, size) in
      scan-parts_from text capacity n 0 0 (length text) (omega arith) (omega (arith, size))
      ∙ ap scanned zero_add

  -- The reader's step on the part with number `n`, once the parts before it are stored.
  store_new-part :
      (n now : ℕ) (s : Reassembly)
      → n < count
      → IsValid limits s
      → find key s.asms ≡ some (entry n now)
      → (s' : Reassembly) × (store_new limits key n (chunk text capacity n) (entry n now) s
          ≡ finish key (entry (suc n) now) s')
        × (find key s'.asms ≡ some (entry (suc n) now))
  unfolding store_new
  store_new-part n now s h v f =
      let part = chunk text capacity n in
      let size = length-chunk text capacity n in
      let old = min (n * capacity) (length text) in
      let sum : old + length part ≡ min (suc n * capacity) (length text) = omega (arith, size) in
      let exact : add_size old (length part) ≡ min (suc n * capacity) (length text) =
        add_size-exact old (length part) (omega arith) ∙ sum in
      let within : ltb (length text) (min (suc n * capacity) (length text)) ≡ false =
        ground arith in
      let roomy =
        reserve_memory-room limits narrow (length s.asms) s key (entry n now) (length part) v f
          (omega arith) (omega arith) in
      let r = reserve_memory (length s.asms) limits key (length part) s in
      let ordered = emplace_fragment-parts_from text capacity n 0 n (omega arith) in
      (
        record {
          asms = put key (entry (suc n) now) r.1.asms;
          asm_bytes = add_size r.1.asm_bytes (length part);
        },
        rw (exact, within, roomy, ordered) refl,
        find-put_self key (entry (suc n) now) r.1.asms,
      )

  store-part :
      (n old now : ℕ) (s : Reassembly)
      → store limits now key n (chunk text capacity n) (entry n old) s
        ≡ store_new limits key n
            (chunk text capacity n)
            (entry n now)
            (record s { asms = put key (entry n now) s.asms })
  unfolding store
  store-part n old now s =
      rw (find_fragment-parts_from text capacity n 0 n (omega arith), store) refl

  pub finish-more :
      (n now : ℕ) (s : Reassembly)
      → n * capacity < length text
      → finish key (entry n now) s ≡ (none, s)
  unfolding finish
  finish-more n now s h = rw (scan-entry n, finish) (ground arith)

  pub finish-last :
      (n now : ℕ) (s : Reassembly) → n ≡ count → (finish key (entry n now) s).0 ≡ some text
  unfolding finish
  finish-last n now s e =
      let whole : min (n * capacity) (length text) ≡ length text =
        rw e (omega (arith, count-covers text capacity pos)) in
      let same = (==_iff (length text) (length text)).1 refl in
      let joined : join_fragments (parts_from text capacity n 0) ≡ text =
        join_fragments-parts_from text capacity n 0 ∙ rw e (chunks_join text capacity pos) in
      rw (scan-entry n, finish, whole, same, joined) refl

  -- What the cache holds under the key before part `n`, last updated at `u`.
  abbrev pub Stored : ℕ → ℕ → Reassembly → Type 0
  Stored zero u s = find key s.asms ≡ none
  Stored (suc n) u s = find key s.asms ≡ some (entry (suc n) u)

  fresh-entry :
      (now : ℕ)
      → ◌≡◌ {A = MtpAsm}
          (record { total_size = length text; fragments = []; bytes = 0; updated = now })
          (entry 0 now)
  unfolding parts_from
  fresh-entry now = ground arith

  accept_parsed-part :
      (n u now sequence : ℕ) (s : Reassembly)
      → n < count
      → IsValid limits s
      → Stored n u s
      → (s' : Reassembly) × (accept_parsed limits now key
            (record { sequence = sequence; fragment_id = n; total_size = length text })
            (chunk text capacity n)
            s
          ≡ finish key (entry (suc n) now) s')
        × (find key s'.asms ≡ some (entry (suc n) now))
  unfolding accept_parsed bytes_at
  accept_parsed-part zero u now sequence s h v f =
      let v' =
        put-IsValid limits narrow key (entry 0 now) s.asm_bytes v (entry-IsWf 0 now)
          (rw (f, bytes_at) (omega arith)) v.bounded in
      let (s', step, stored) =
        store_new-part 0 now _ h v' (find-put_self key (entry 0 now) s.asms) in
      (s', rw (f, accept_parsed, fresh-entry now, store-part 0 now now s) step, stored)
  accept_parsed-part (suc n) u now sequence s h v f =
      let v' =
        put-IsValid limits narrow key (entry (suc n) now) s.asm_bytes v (entry-IsWf (suc n) now)
          (rw (f, bytes_at) refl) v.bounded in
      let (s', step, stored) =
        store_new-part (suc n) now _ h v' (find-put_self key (entry (suc n) now) s.asms) in
      let same = (==_iff (length text) (length text)).1 refl in
      (s', rw (f, accept_parsed, same, store-part (suc n) u now s) step, stored)

  Stored-remove_expired :
      (n u now held : ℕ) (s : Reassembly)
      → Stored n u s
      → now - u ≤ limits.fragment_timeout
      → Stored n u (remove_expired limits.fragment_timeout now s.asms held)
  Stored-remove_expired zero u now held s f h =
      find-remove_expired-none limits.fragment_timeout now s.asms held key f
  Stored-remove_expired (suc n) u now held s f h =
      find-remove_expired_fresh limits.fragment_timeout now s.asms held key (entry (suc n) u) f h

  pub accept_fragment-part :
      (type topic : Bytes) (d : Arrival) (n u sequence : ℕ) (s : Reassembly)
      → n < count
      → IsValid limits s
      → Stored n u s
      → d.now - u ≤ limits.fragment_timeout
      → d.payload ≡ chunk text capacity n
      → parse_header d.header d.payload type topic
        ≡ some (record { sequence = sequence; fragment_id = n; total_size = length text })
      → key_of d (record { sequence = sequence; fragment_id = n; total_size = length text }) ≡ key
      → (s' : Reassembly) × (accept_fragment limits type topic d s
          ≡ finish key (entry (suc n) d.now) s')
        × (find key s'.asms ≡ some (entry (suc n) d.now))
  unfolding accept_fragment
  accept_fragment-part type topic d n u sequence s h v f fresh payload parsed same =
      let v' = remove_expired-IsValid limits narrow d.now v in
      let f' = Stored-remove_expired n u d.now s.asm_bytes s f fresh in
      let (s', step, stored) = accept_parsed-part n u d.now sequence _ h v' f' in
      let small : ltb limits.reassembly_max_bytes (length text) ≡ false = ground arith in
      (s', rw (parsed, accept_fragment, small, same, payload) step, stored)
