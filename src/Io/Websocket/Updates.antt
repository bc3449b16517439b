-- ===== src/Io/Websocket/Updates.antt =====
-- modules/io/src/ws_aux.hpp: the digest does not depend on how the bytes are cut.
use rmvl.Prelude.{
  Bool-cases, [], ap, arith, inl, inr, length, length-append, refl, sym, ℕ, ◌%◌, ◌++◌, ◌+◌, ◌==◌,
  ◌^◌, ◌∙◌, ◌∷◌, ◌≡◌,
}
use rmvl.Bytes.{Bytes}
use rmvl.Io.Websocket.{
  Sha1, reset, feed, update, final, base64_encode, magic_guid, generate_accept_key,
}

pub feed-append : (s t : Bytes) (h : Sha1) → feed (s ++ t) h ≡ feed t (feed s h)
unfolding feed
feed-append [] t h = refl
feed-append (c ∷ s) t h = feed-append s t _

-- A byte count that has wrapped around may be counted on.
count_on : (n a b : ℕ) → ((n + a) % 2 ^ 64 + b) % 2 ^ 64 ≡ (n + (a + b)) % 2 ^ 64
count_on n a b = omega arith

abbrev pub with_count : Sha1 → ℕ → Sha1
with_count h n = record h { byte_count = n }

pub feed-with_count :
    (s : Bytes) (h : Sha1) (n : ℕ) → feed s (with_count h n) ≡ with_count (feed s h) n
unfolding feed
feed-with_count [] h n = refl
feed-with_count (c ∷ s) h n = elim (Bool-cases (length (h.buffer ++ (c ∷ [])) == 64)) [
  | inl full ↦ rw (feed, full) (feed-with_count s _ n)
  | inr part ↦ rw (feed, part) (feed-with_count s _ n)
]

-- Updating with one text and then another is updating with the two in one.
pub update-append : (s t : Bytes) (h : Sha1) → update (s ++ t) h ≡ update t (update s h)
unfolding update
update-append s t h =
    let n = (h.byte_count + length s) % 2 ^ 64 in
    let sum : (h.byte_count + length (s ++ t)) % 2 ^ 64 ≡ (n + length t) % 2 ^ 64 =
      ap (λ k. (h.byte_count + k) % 2 ^ 64) (length-append s t)
      ∙ sym (count_on h.byte_count (length s) (length t)) in
    ap (λ x. with_count x ((h.byte_count + length (s ++ t)) % 2 ^ 64)) (feed-append s t h)
    ∙ ap (with_count (feed t (feed s h))) sum
    ∙ sym (ap (λ x. with_count x ((n + length t) % 2 ^ 64)) (feed-with_count t (feed s h) n))

-- The accept key is the base64 text of the digest of the client's key and the fixed identifier in
-- one text.
pub generate_accept_key_lem :
    (client_key : Bytes)
    → generate_accept_key client_key
      ≡ base64_encode (final (update (client_key ++ magic_guid) reset))
unfolding generate_accept_key
generate_accept_key_lem client_key =
    ap (λ h. base64_encode (final h)) (sym (update-append client_key magic_guid reset))
