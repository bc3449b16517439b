-- ===== src/Lpss/Rsd/Layout.antt =====
-- modules/lpss/src/node_rsd.cpp: the wire formats of RNDP and REDP messages, and that the
-- serializers fill their buffers with them, byte for byte and without a write outside.
use rmvl.Prelude.{
  All, List, [], ap, append-nil, append_assoc, arith, length, length-append, refl, replicate, some,
  suc, take, ℕ, ◌%◌, ◌*◌, ◌++◌, ◌+◌, ◌<◌, ◌^◌, ◌∙◌, ◌∷◌, ◌≡◌,
}
use rmvl.Bytes.{Bytes, net_u16, object_bytes}
use rmvl.Bytes.Laws.{poke-next, poke_end, length-net_u16, length-object_bytes, take_all}
use rmvl.Lpss.Guid.{Locator}
use rmvl.Lpss.Rsd.{rndp_magic, strcpy, write_locators, RndpMessage, rndp_serialize}

abbrev pub HasAddress : Locator → Type 0
HasAddress l = length l.addr ≡ 4

unfoldable pub locator_bytes : List Locator → Bytes
locator_bytes [] = []
locator_bytes (l ∷ ls) = net_u16 l.port ++ (l.addr ++ locator_bytes ls)

pub length-locator_bytes :
    (ls : List Locator) → All HasAddress ls → length (locator_bytes ls) ≡ length ls * 6
unfolding locator_bytes net_u16
length-locator_bytes [] h = omega arith
length-locator_bytes (l ∷ ls) h =
    omega (arith, length-append l.addr (locator_bytes ls), length-locator_bytes ls h.1)

-- Each locator in turn is written behind what is there.
write_locators-fill :
    (ls : List Locator) (p : Bytes) (off k k' : ℕ)
    → All HasAddress ls
    → length p ≡ off
    → k ≡ length ls * 6 + k'
    → write_locators (p ++ replicate k 0) off ls ≡ some ((p ++ locator_bytes ls) ++ replicate k' 0)
unfolding write_locators locator_bytes
write_locators-fill [] p off k k' h hp hk =
    let same : k ≡ k' = omega arith in rw (same, append-nil p) refl
write_locators-fill (l ∷ ls) p off k k' h hp hk =
    let port_size = length-net_u16 l.port in
    let p₁ = p ++ net_u16 l.port in
    let first =
      poke-next p (net_u16 l.port) off k (4 + (length ls * 6 + k')) hp (omega (arith, port_size)) in
    let second =
      poke-next p₁ l.addr (off + 2) (4 + (length ls * 6 + k')) (length ls * 6 + k')
        (omega (arith, length-append p (net_u16 l.port), port_size)) (omega (arith, h.0)) in
    let rest =
      write_locators-fill ls (p₁ ++ l.addr) (off + 6) (length ls * 6 + k') k' h.1
        (omega (arith, length-append p (net_u16 l.port), length-append p₁ l.addr, port_size, h.0))
        refl in
    let regroup : (p₁ ++ l.addr) ++ locator_bytes ls
        ≡ p ++ (net_u16 l.port ++ (l.addr ++ locator_bytes ls)) =
      simp append_assoc in
    rw (first, second, rest, regroup) refl

pub strcpy-fill :
    (literal : Bytes) (k k' : ℕ)
    → k ≡ length literal + suc k'
    → strcpy (replicate k 0) literal ≡ some (literal ++ replicate (suc k') 0)
unfolding strcpy
strcpy-fill literal k k' h =
    poke-next [] (literal ++ (0 ∷ [])) 0 k k' refl (omega (arith, length-append literal (0 ∷ [])))
    ∙ ap some (append_assoc literal (0 ∷ []) (replicate k' 0))

-- The RNDP format: the magic, the GUID, the number of locators, the heartbeat period, the locators,
-- and the name behind its size.
abbrev pub rndp_wire : RndpMessage → Bytes
rndp_wire m =
    ((((rndp_magic ++ object_bytes 8 m.guid.full) ++ object_bytes 1 (length m.locators))
        ++ object_bytes 1 m.heartbeat_timeout)
      ++ locator_bytes m.locators)
    ++ (object_bytes 1 (length m.name) ++ m.name)

-- The messages that the format can hold.
pub record IsRndp (m : RndpMessage) : Type 0 where
  pub guid : m.guid.full < 2 ^ 64
  pub heartbeat : m.heartbeat_timeout < 2 ^ 8
  pub locators : length m.locators < 2 ^ 8
  pub addresses : All HasAddress m.locators
  pub ports : All (λ l. l.port < 2 ^ 16) m.locators
  pub name : length m.name < 2 ^ 8

pub rndp_serialize-wire : (m : RndpMessage) → IsRndp m → rndp_serialize m ≡ some (rndp_wire m)
unfolding rndp_serialize
rndp_serialize-wire m v =
    let n = length m.locators in
    let size = length m.name in
    let left = n * 6 + (1 + size) in
    let num : n % 256 ≡ n = omega arith in
    let name_size : size % 256 ≡ size = omega arith in
    let whole : take size m.name ≡ m.name = take_all size m.name (omega arith) in
    let bytes = λ (k x : ℕ). length-object_bytes k x in
    let p₁ = rndp_magic ++ object_bytes 8 m.guid.full in
    let p₂ = p₁ ++ object_bytes 1 n in
    let p₃ = p₂ ++ object_bytes 1 m.heartbeat_timeout in
    let p₄ = p₃ ++ locator_bytes m.locators in
    let p₅ = p₄ ++ object_bytes 1 size in
    let s₁ : length p₁ ≡ 12 = omega (arith, bytes 8 m.guid.full) in
    let s₂ : length p₂ ≡ 13 = omega (arith, s₁, length-append p₁ (object_bytes 1 n), bytes 1 n) in
    let s₃ : length p₃ ≡ 14 = omega (
      arith,
      s₂,
      length-append p₂ (object_bytes 1 m.heartbeat_timeout),
      bytes 1 m.heartbeat_timeout,
    ) in
    let s₄ : length p₄ ≡ 14 + n * 6 = omega (
      arith,
      s₃,
      length-append p₃ (locator_bytes m.locators),
      length-locator_bytes m.locators v.addresses,
    ) in
    let s₅ : length p₅ ≡ 14 + n * 6 + 1 =
      omega (arith, s₄, length-append p₄ (object_bytes 1 size), bytes 1 size) in
    rw
      (
        num,
        name_size,
        whole,
        strcpy-fill rndp_magic (14 + n * 6 + 1 + size) (9 + left) (omega arith),
        poke-next rndp_magic (object_bytes 8 m.guid.full) 4 (suc (9 + left)) (2 + left) refl
            (omega (arith, bytes 8 m.guid.full)),
        poke-next p₁ (object_bytes 1 n) 12 (2 + left) (1 + left) s₁ (omega (arith, bytes 1 n)),
        poke-next p₂ (object_bytes 1 m.heartbeat_timeout) 13 (1 + left) left s₂
            (omega (arith, bytes 1 m.heartbeat_timeout)),
        write_locators-fill m.locators p₃ 14 left (1 + size) v.addresses s₃ refl,
        poke-next p₄ (object_bytes 1 size) (14 + n * 6) (1 + size) size s₄
            (omega (arith, bytes 1 size)),
        poke_end p₅ m.name (14 + n * 6 + 1) size s₅ refl,
      )
      (ap some (append_assoc p₄ (object_bytes 1 size) m.name))
