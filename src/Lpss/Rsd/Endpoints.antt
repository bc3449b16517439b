-- ===== src/Lpss/Rsd/Endpoints.antt =====
-- modules/lpss/src/node_rsd.cpp: the REDP format, and its messages written and read back.
use Prim.Native.Nat.{bit_or}
use rmvl.Prelude.{
  [], append_assoc, arith, length, length-append, refl, some, suc, ℕ, ◌%◌, ◌*◌, ◌++◌, ◌+◌, ◌/◌, ◌<◌,
  ◌>>=◌, ◌^◌, ◌∙◌, ◌≡◌,
}
use rmvl.Bytes.{Bytes, net_u16, object_bytes, peek}
use rmvl.Bytes.Laws.{
  poke-next, poke_end, peek_at, length-net_u16, length-object_bytes, host_of_net-net_u16,
  object_of_bytes-object_bytes, take_all,
}
use rmvl.Lpss.Rsd.{
  redp_magic, RedpMessage, Action, EndpointType, remove, add, reader, writer, action_bits,
  type_bits, action_of_bits, type_of_bits, redp_serialize, redp_deserialize,
}
use rmvl.Lpss.Rsd.Layout.{strcpy-fill}
use rmvl.Lpss.Rsd.RoundTrip.{object_of_bytes-byte}

-- The messages that the format can hold.
pub record IsRedp (m : RedpMessage) : Type 0 where
  pub guid : m.endpoint_guid.full < 2 ^ 64
  pub port : m.port < 2 ^ 16
  pub topic : length m.topic < 2 ^ 8
  pub msgtype : length m.msgtype < 2 ^ 8

bits_lt : (a : Action) (t : EndpointType) → bit_or (action_bits a) (type_bits t) < 2 ^ 8
bits_lt remove reader = omega arith
bits_lt remove writer = omega arith
bits_lt add reader = omega arith
bits_lt add writer = omega arith

bits_parts :
    (a : Action) (t : EndpointType)
    → (action_of_bits (bit_or (action_bits a) (type_bits t) % 2) ≡ a)
      × (type_of_bits (bit_or (action_bits a) (type_bits t) / 2 % 2 * 2) ≡ t)
bits_parts remove reader = (refl, refl)
bits_parts remove writer = (refl, refl)
bits_parts add reader = (refl, refl)
bits_parts add writer = (refl, refl)

module _ (m : RedpMessage) (v : IsRedp m) where
  abbrev guid_bytes : Bytes
  guid_bytes = object_bytes 8 m.endpoint_guid.full

  abbrev bits : ℕ
  bits = bit_or (action_bits m.action) (type_bits m.type)

  abbrev bits_byte : Bytes
  bits_byte = object_bytes 1 bits

  abbrev port_bytes : Bytes
  port_bytes = net_u16 m.port

  abbrev topic_byte : Bytes
  topic_byte = object_bytes 1 (length m.topic)

  abbrev msgtype_byte : Bytes
  msgtype_byte = object_bytes 1 (length m.msgtype)

  -- The bytes up to and with the size of the topic, and up to and with the topic.
  abbrev header : Bytes
  header = (((redp_magic ++ guid_bytes) ++ bits_byte) ++ port_bytes) ++ topic_byte

  abbrev with_topic : Bytes
  with_topic = header ++ m.topic

  -- The REDP format.
  abbrev pub redp_wire : Bytes
  redp_wire = (with_topic ++ msgtype_byte) ++ m.msgtype

  length-header : length header ≡ 16
  unfolding object_bytes net_u16
  length-header = refl

  length-with_topic : length with_topic ≡ 16 + length m.topic
  length-with_topic = omega (arith, length-header, length-append header m.topic)

  length-second : length (with_topic ++ msgtype_byte) ≡ 16 + length m.topic + 1
  length-second = omega (
    arith,
    length-with_topic,
    length-append with_topic msgtype_byte,
    length-object_bytes 1 (length m.msgtype),
  )

  pub redp_serialize-wire : redp_serialize m ≡ some redp_wire
  unfolding redp_serialize
  redp_serialize-wire =
      let t = length m.topic in
      let u = length m.msgtype in
      let left = t + (1 + u) in
      let topic_size : t % 256 ≡ t = omega arith in
      let msgtype_size : u % 256 ≡ u = omega arith in
      let one = λ (x : ℕ). length-object_bytes 1 x in
      let eight = length-object_bytes 8 m.endpoint_guid.full in
      let p₁ = redp_magic ++ guid_bytes in
      let p₂ = p₁ ++ bits_byte in
      let p₃ = p₂ ++ port_bytes in
      let s₁ : length p₁ ≡ 12 = omega (arith, eight) in
      let s₂ : length p₂ ≡ 13 = omega (arith, s₁, length-append p₁ bits_byte, one bits) in
      let s₃ : length p₃ ≡ 15 =
        omega (arith, s₂, length-append p₂ port_bytes, length-net_u16 m.port) in
      rw
        (
          topic_size,
          msgtype_size,
          take_all t m.topic (omega arith),
          take_all u m.msgtype (omega arith),
          strcpy-fill redp_magic (16 + t + 1 + u) (11 + left) (omega arith),
          poke-next redp_magic guid_bytes 4 (suc (11 + left)) (4 + left) refl
              (omega (arith, eight)),
          poke-next p₁ bits_byte 12 (4 + left) (3 + left) s₁ (omega (arith, one bits)),
          poke-next p₂ port_bytes 13 (3 + left) (1 + left) s₂
              (omega (arith, length-net_u16 m.port)),
          poke-next p₃ topic_byte 15 (1 + left) left s₃ (omega (arith, one t)),
          poke-next header m.topic 16 left (1 + u) length-header refl,
          poke-next with_topic msgtype_byte (16 + t) (1 + u) u length-with_topic
              (omega (arith, one u)),
          poke_end (with_topic ++ msgtype_byte) m.msgtype (16 + t + 1) u length-second refl,
        )
        refl

  module _ (rest text : Bytes) (e : text ≡ redp_wire ++ rest) where
    read_fixed :
        (peek text 0 4 ≡ some redp_magic)
        × (peek text 4 8 ≡ some guid_bytes)
        × (peek text 12 1 ≡ some bits_byte)
        × (peek text 13 2 ≡ some port_bytes)
        × (peek text 15 1 ≡ some topic_byte)
    unfolding object_bytes net_u16
    read_fixed =
        let t = m.topic ++ (msgtype_byte ++ (m.msgtype ++ rest)) in
        (
          peek_at text [] redp_magic
              (guid_bytes ++ (bits_byte ++ (port_bytes ++ (topic_byte ++ t)))) 0 4
              (e ∙ simp append_assoc) refl refl,
          peek_at text redp_magic guid_bytes (bits_byte ++ (port_bytes ++ (topic_byte ++ t))) 4 8
              (e ∙ simp append_assoc) refl refl,
          peek_at text (redp_magic ++ guid_bytes) bits_byte (port_bytes ++ (topic_byte ++ t)) 12 1
              (e ∙ simp append_assoc) refl refl,
          peek_at text ((redp_magic ++ guid_bytes) ++ bits_byte) port_bytes (topic_byte ++ t) 13 2
              (e ∙ simp append_assoc) refl refl,
          peek_at text (((redp_magic ++ guid_bytes) ++ bits_byte) ++ port_bytes) topic_byte t 15 1
              (e ∙ simp append_assoc) refl refl,
        )

    read_names :
        (peek text 16 (length m.topic) ≡ some m.topic)
        × (peek text (16 + length m.topic) 1 ≡ some msgtype_byte)
        × (peek text (16 + length m.topic + 1) (length m.msgtype) ≡ some m.msgtype)
    read_names = (
      peek_at text header m.topic (msgtype_byte ++ (m.msgtype ++ rest)) 16 (length m.topic)
          (e ∙ simp append_assoc) length-header refl,
      peek_at text with_topic msgtype_byte (m.msgtype ++ rest) (16 + length m.topic) 1
          (e ∙ simp append_assoc) length-with_topic (length-object_bytes 1 (length m.msgtype)),
      peek_at text (with_topic ++ msgtype_byte) m.msgtype rest (16 + length m.topic + 1)
          (length m.msgtype) (e ∙ simp append_assoc) length-second refl,
    )

    redp_deserialize-wire : redp_deserialize text ≡ some m
    unfolding redp_deserialize
    redp_deserialize-wire =
        let (magic, guid, byte, port, size) = read_fixed in
        let (topic, size', msgtype) = read_names in
        let (action, type) = bits_parts m.action m.type in
        rw
          (
            magic,
            guid,
            byte,
            port,
            size,
            object_of_bytes-byte (length m.topic) v.topic,
            topic,
            size',
            object_of_bytes-byte (length m.msgtype) v.msgtype,
            msgtype,
            object_of_bytes-byte bits (bits_lt m.action m.type),
            action,
            type,
            object_of_bytes-object_bytes m.endpoint_guid.full v.guid,
            host_of_net-net_u16 m.port v.port,
          )
          refl

-- An endpoint message within the format's limits is serialized without a write outside of its
-- buffer, and read back as it was, whatever follows it in the receiver's buffer.
pub redp_deserialize-serialize :
    (m : RedpMessage) (rest : Bytes)
    → IsRedp m
    → (redp_serialize m >>= λ text. redp_deserialize (text ++ rest)) ≡ some m
redp_deserialize-serialize m rest v =
    rw (redp_serialize-wire m v) (redp_deserialize-wire m v rest (redp_wire m v ++ rest) refl)
