-- ===== src/Lpss/Mtp/Assembly/Parts.antt =====
-- modules/lpss/src/node_rmtp.cpp: the first parts of a text, as an entry holds them.
use rmvl.Prelude.{
  [], arith, false, length, length-append, length-take, ltb, min, none, refl, suc, zero, ℕ, ◌*◌,
  ◌++◌, ◌+◌, ◌<◌, ◌^◌, ◌∷◌, ◌≡◌, ◌≤◌,
}
use rmvl.Bytes.{Bytes}
use rmvl.Lpss.Mtp.Send.Fragments.{chunk, chunks_from, chunks_from-take}
use rmvl.Lpss.Mtp.Assembly.{
  Fragments, find_fragment, emplace_fragment, scanned, scan, join_fragments,
}
use rmvl.Lpss.Mtp.Assembly.Accounts.{fragment_bytes, IsOrdered, Above}
use rmvl.Lpss.Mtp.Assembly.Invariant.{add_size-exact}

module _ (text : Bytes) (capacity : ℕ) where
  unfoldable pub parts_from : ℕ → ℕ → Fragments
  parts_from zero id = []
  parts_from (suc n) id = (id, chunk text capacity id) ∷ parts_from n (id + 1)

  pub join_fragments-parts_from :
      (n id : ℕ) → join_fragments (parts_from n id) ≡ chunks_from text capacity n id
  unfolding join_fragments parts_from chunks_from
  join_fragments-parts_from zero id = refl
  join_fragments-parts_from (suc n) id = rw (join_fragments-parts_from n (id + 1)) refl

  pub fragment_bytes-parts_from :
      (n id : ℕ) → fragment_bytes (parts_from n id) ≡ length (chunks_from text capacity n id)
  unfolding fragment_bytes parts_from chunks_from
  fragment_bytes-parts_from zero id = refl
  fragment_bytes-parts_from (suc n) id = omega (
    arith,
    fragment_bytes-parts_from n (id + 1),
    length-append (chunk text capacity id) (chunks_from text capacity n (id + 1)),
  )

  pub length-chunks_from :
      (n : ℕ) → length (chunks_from text capacity n 0) ≡ min (n * capacity) (length text)
  length-chunks_from n =
      let start : 0 * capacity ≡ 0 = omega arith in
      rw (chunks_from-take text capacity n 0, start) (length-take (n * capacity) text)

  pub find_fragment-parts_from :
      (n id j : ℕ) → id + n ≤ j → find_fragment j (parts_from n id) ≡ none
  unfolding find_fragment parts_from
  find_fragment-parts_from zero id j h = refl
  find_fragment-parts_from (suc n) id j h = ground (arith, find_fragment-parts_from n (id + 1) j)

  pub emplace_fragment-parts_from :
      (n id j : ℕ)
      → id + n ≡ j
      → emplace_fragment j (chunk text capacity j) (parts_from n id) ≡ parts_from (suc n) id
  unfolding emplace_fragment parts_from
  emplace_fragment-parts_from zero id j h = let e : j ≡ id = omega arith in rw e refl
  emplace_fragment-parts_from (suc n) id j h =
      let ih = emplace_fragment-parts_from n (id + 1) j (omega arith) in
      let after : ltb j id ≡ false = ground arith in rw (after, ih) refl

  Above-parts_from : (n m id : ℕ) → m < id → Above m (parts_from n id)
  unfolding parts_from
  Above-parts_from zero m id h = tt
  Above-parts_from (suc n) m id h = (h, Above-parts_from n m (id + 1) (omega arith))

  pub IsOrdered-parts_from : (n id : ℕ) → IsOrdered (parts_from n id)
  unfolding parts_from
  IsOrdered-parts_from zero id = tt
  IsOrdered-parts_from (suc n) id =
      (Above-parts_from n id (id + 1) (omega arith), IsOrdered-parts_from n (id + 1))

  pub scan-parts_from :
      (n id total limit : ℕ)
      → limit < 2 ^ 32
      → total + length (chunks_from text capacity n id) ≤ limit
      → scan limit id total (parts_from n id)
        ≡ scanned (total + length (chunks_from text capacity n id))
  unfolding scan parts_from chunks_from
  scan-parts_from zero id total limit small h = let e : total + 0 ≡ total = omega arith in rw e refl
  scan-parts_from (suc n) id total limit small h =
      let size = length-append (chunk text capacity id) (chunks_from text capacity n (id + 1)) in
      let sum = add_size-exact total (length (chunk text capacity id)) (omega (arith, size)) in
      let next = total + length (chunk text capacity id) in
      let rest = scan-parts_from n (id + 1) next limit small (omega (arith, size)) in
      let all : next + length (chunks_from text capacity n (id + 1))
          ≡ total + length (chunk text capacity id ++ chunks_from text capacity n (id + 1)) =
        omega (arith, size) in
      rw (sum, rest, all) (ground (arith, size))
