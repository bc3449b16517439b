-- ===== src/Lpss/Rsd/RoundTrip.antt =====
-- modules/lpss/src/node_rsd.cpp: a message that was serialized is read back as it was.
use rmvl.Prelude.{
  All, List, [], append_assoc, arith, length, length-append, refl, some, ℕ, ◌*◌, ◌++◌, ◌+◌, ◌<◌,
  ◌>>=◌, ◌^◌, ◌∙◌, ◌∷◌, ◌≡◌,
}
use rmvl.Bytes.{Bytes, net_u16, object_bytes, object_of_bytes, peek}
use rmvl.Bytes.Laws.{
  peek-append, length-net_u16, length-object_bytes, host_of_net-net_u16,
  object_of_bytes-object_bytes, peek_at,
}
use rmvl.Lpss.Guid.{Locator}
use rmvl.Lpss.Rsd.{rndp_magic, read_locators, RndpMessage, rndp_serialize, rndp_deserialize}
use rmvl.Lpss.Rsd.Layout.{
  HasAddress, locator_bytes, length-locator_bytes, rndp_wire, IsRndp, rndp_serialize-wire,
}

pub object_of_bytes-byte : (v : ℕ) → v < 2 ^ 8 → object_of_bytes (object_bytes 1 v) ≡ v
unfolding object_of_bytes object_bytes
object_of_bytes-byte v h = omega arith

-- The locators stand behind a prefix and before the rest of the datagram.
read_locators-wire :
    (ls : List Locator) (p rest : Bytes) (off : ℕ)
    → length p ≡ off
    → All HasAddress ls
    → All (λ l. l.port < 2 ^ 16) ls
    → read_locators (length ls) (p ++ (locator_bytes ls ++ rest)) off ≡ some ls
unfolding read_locators locator_bytes
read_locators-wire [] p rest off hp ha hq = refl
read_locators-wire (l ∷ ls) p rest off hp ha hq =
    let port = net_u16 l.port in
    let tail = locator_bytes ls ++ rest in
    let whole : p ++ ((port ++ (l.addr ++ locator_bytes ls)) ++ rest)
        ≡ p ++ (port ++ (l.addr ++ tail)) =
      simp append_assoc in
    let second : p ++ (port ++ (l.addr ++ tail)) ≡ (p ++ port) ++ (l.addr ++ tail) =
      simp append_assoc in
    let third : p ++ (port ++ (l.addr ++ tail)) ≡ ((p ++ port) ++ l.addr) ++ tail =
      simp append_assoc in
    let size = length-net_u16 l.port in
    let s₁ = length-append p port in
    let s₂ = length-append (p ++ port) l.addr in
    let first_read = peek-append p port (l.addr ++ tail) off 2 hp size in
    let second_read =
      rw (← second) at
        (peek-append (p ++ port) l.addr tail (off + 2) 4 (omega (arith, s₁, size)) ha.0) in
    let others = rw (← third) at (
      read_locators-wire ls ((p ++ port) ++ l.addr) rest (off + 6)
        (omega (arith, s₁, s₂, size, ha.0)) ha.1 hq.1) in
    rw (whole, first_read, second_read, others, host_of_net-net_u16 l.port hq.0) refl

module _ (m : RndpMessage) (v : IsRndp m) (rest text : Bytes) (e : text ≡ rndp_wire m ++ rest) where
  abbrev guid_bytes : Bytes
  guid_bytes = object_bytes 8 m.guid.full

  abbrev count_byte : Bytes
  count_byte = object_bytes 1 (length m.locators)

  abbrev heartbeat_byte : Bytes
  heartbeat_byte = object_bytes 1 m.heartbeat_timeout

  abbrev size_byte : Bytes
  size_byte = object_bytes 1 (length m.name)

  abbrev header : Bytes
  header = ((rndp_magic ++ guid_bytes) ++ count_byte) ++ heartbeat_byte

  length-header : length header ≡ 14
  unfolding object_bytes
  length-header = refl

  length-named : length (header ++ locator_bytes m.locators) ≡ 14 + length m.locators * 6
  length-named = omega (
    arith,
    length-header,
    length-append header (locator_bytes m.locators),
    length-locator_bytes m.locators v.addresses,
  )

  read_fixed :
      (peek text 0 4 ≡ some rndp_magic)
      × (peek text 4 8 ≡ some guid_bytes)
      × (peek text 12 1 ≡ some count_byte)
      × (peek text 13 1 ≡ some heartbeat_byte)
  unfolding object_bytes
  read_fixed =
      let t = locator_bytes m.locators ++ ((size_byte ++ m.name) ++ rest) in
      (
        peek_at text [] rndp_magic (guid_bytes ++ (count_byte ++ (heartbeat_byte ++ t))) 0 4
            (e ∙ simp append_assoc) refl refl,
        peek_at text rndp_magic guid_bytes (count_byte ++ (heartbeat_byte ++ t)) 4 8
            (e ∙ simp append_assoc) refl refl,
        peek_at text (rndp_magic ++ guid_bytes) count_byte (heartbeat_byte ++ t) 12 1
            (e ∙ simp append_assoc) refl refl,
        peek_at text ((rndp_magic ++ guid_bytes) ++ count_byte) heartbeat_byte t 13 1
            (e ∙ simp append_assoc) refl refl,
      )

  read_name :
      (peek text (14 + length m.locators * 6) 1 ≡ some size_byte)
      × (peek text (14 + length m.locators * 6 + 1) (length m.name) ≡ some m.name)
  read_name =
      let one = length-object_bytes 1 (length m.name) in
      (
        peek_at text (header ++ locator_bytes m.locators) size_byte (m.name ++ rest) _ 1
            (e ∙ simp append_assoc) length-named one,
        peek_at text ((header ++ locator_bytes m.locators) ++ size_byte) m.name rest _ _
            (e ∙ simp append_assoc)
            (omega (
              arith,
              length-named,
              one,
              length-append (header ++ locator_bytes m.locators) size_byte,
            ))
            refl,
      )

  read_all : read_locators (length m.locators) text 14 ≡ some m.locators
  read_all =
      let regroup : text ≡ header ++ (locator_bytes m.locators ++ ((size_byte ++ m.name) ++ rest)) =
        e ∙ simp append_assoc in
      rw regroup (read_locators-wire m.locators header _ 14 length-header v.addresses v.ports)

  rndp_deserialize-wire : rndp_deserialize text ≡ some m
  unfolding rndp_deserialize
  rndp_deserialize-wire =
      let (magic, guid, num, heartbeat) = read_fixed in
      let (size, name) = read_name in
      rw
        (
          magic,
          guid,
          num,
          heartbeat,
          object_of_bytes-byte (length m.locators) v.locators,
          read_all,
          size,
          object_of_bytes-byte (length m.name) v.name,
          name,
          object_of_bytes-byte m.heartbeat_timeout v.heartbeat,
          object_of_bytes-object_bytes m.guid.full v.guid,
        )
        refl

-- A node message within the format's limits is serialized without a write outside of its buffer, and
-- read back as it was, whatever follows it in the receiver's buffer.
pub rndp_deserialize-serialize :
    (m : RndpMessage) (rest : Bytes)
    → IsRndp m
    → (rndp_serialize m >>= λ text. rndp_deserialize (text ++ rest)) ≡ some m
rndp_deserialize-serialize m rest v =
    rw (rndp_serialize-wire m v) (rndp_deserialize-wire m v rest (rndp_wire m ++ rest) refl)
