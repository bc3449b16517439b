-- ===== src/Lpss/Rsd/Overflow.antt =====
-- modules/lpss/src/node_rsd.cpp: the count of locators is cut to a byte before the buffer is sized,
-- and the loop writes all of them.
use rmvl.Prelude.{
  All, Bool-cases, List, [], arith, inl, inr, leb, length, length-append, length-replicate, none,
  refl, replicate, suc, ℕ, ◌%◌, ◌*◌, ◌++◌, ◌+◌, ◌-◌, ◌<◌, ◌∷◌, ◌≡◌, ◌≤◌,
}
use rmvl.Bytes.{Bytes, net_u16, object_bytes}
use rmvl.Bytes.Laws.{poke-next, poke-none, length-net_u16, length-object_bytes}
use rmvl.Lpss.Guid.{Locator}
use rmvl.Lpss.Rsd.{rndp_magic, write_locators, RndpMessage, rndp_serialize}
use rmvl.Lpss.Rsd.Layout.{HasAddress, strcpy-fill}

write_locators-none :
    (ls : List Locator) (p : Bytes) (off k : ℕ)
    → All HasAddress ls
    → length p ≡ off
    → k < length ls * 6
    → write_locators (p ++ replicate k 0) off ls ≡ none
unfolding write_locators
write_locators-none [] p off k h hp hk = absurd (omega arith)
write_locators-none (l ∷ ls) p off k h hp hk =
    let port = net_u16 l.port in
    let size = length-net_u16 l.port in
    let s₁ = length-append p port in
    let s₂ = length-append (p ++ port) l.addr in
    elim (Bool-cases (leb 6 k)) [
      | inl room ↦
          let six : 6 ≤ k = ground arith in
          let first = poke-next p port off k (k - 2) hp (omega (arith, size)) in
          let second =
            poke-next (p ++ port) l.addr (off + 2) (k - 2) (k - 6) (omega (arith, s₁, size))
              (omega (arith, h.0)) in
          rw (first, second)
            (write_locators-none ls ((p ++ port) ++ l.addr) (off + 6) (k - 6) h.1
              (omega (arith, s₁, s₂, size, h.0)) (omega arith))
      | inr tight ↦ elim (Bool-cases (leb 2 k)) [
        | inl room ↦
            let two : 2 ≤ k = ground arith in
            let first = poke-next p port off k (k - 2) hp (omega (arith, size)) in
            let whole = length-append (p ++ port) (replicate (k - 2) 0) in
            let zeros = length-replicate {A = ℕ} (k - 2) 0 in
            rw
              (
                first,
                poke-none ((p ++ port) ++ replicate (k - 2) 0) (off + 2) l.addr
                    (ground (arith, whole, zeros, s₁, size, h.0)),
              )
              refl
        | inr none_left ↦
            let whole = length-append p (replicate k 0) in
            let zeros = length-replicate {A = ℕ} k 0 in
            rw (poke-none (p ++ replicate k 0) off port (ground (arith, whole, zeros, size))) refl
      ]
    ]

-- Every node message with more than 255 locators, whose name is no longer than 255 bytes, is
-- serialized by a write past the end of the buffer.
pub rndp_serialize-overflow :
    (m : RndpMessage)
    → 255 < length m.locators
    → All HasAddress m.locators
    → length m.name < 256
    → rndp_serialize m ≡ none
unfolding rndp_serialize
rndp_serialize-overflow m many h named =
    let n = length m.locators % 256 in
    let left = n * 6 + (1 + length m.name) in
    let bytes = λ (k x : ℕ). length-object_bytes k x in
    let p₁ = rndp_magic ++ object_bytes 8 m.guid.full in
    let p₂ = p₁ ++ object_bytes 1 n in
    let p₃ = p₂ ++ object_bytes 1 m.heartbeat_timeout in
    let s₁ : length p₁ ≡ 12 = omega (arith, bytes 8 m.guid.full) in
    let s₂ : length p₂ ≡ 13 = omega (arith, s₁, length-append p₁ (object_bytes 1 n), bytes 1 n) in
    let s₃ : length p₃ ≡ 14 = omega (
      arith,
      s₂,
      length-append p₂ (object_bytes 1 m.heartbeat_timeout),
      bytes 1 m.heartbeat_timeout,
    ) in
    rw
      (
        strcpy-fill rndp_magic (14 + n * 6 + 1 + length m.name) (9 + left) (omega arith),
        poke-next rndp_magic (object_bytes 8 m.guid.full) 4 (suc (9 + left)) (2 + left) refl
            (omega (arith, bytes 8 m.guid.full)),
        poke-next p₁ (object_bytes 1 n) 12 (2 + left) (1 + left) s₁ (omega (arith, bytes 1 n)),
        poke-next p₂ (object_bytes 1 m.heartbeat_timeout) 13 (1 + left) left s₂
            (omega (arith, bytes 1 m.heartbeat_timeout)),
        write_locators-none m.locators p₃ 14 left h s₃ (omega arith),
      )
      refl
