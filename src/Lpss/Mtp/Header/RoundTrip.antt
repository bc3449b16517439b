-- ===== src/Lpss/Mtp/Header/RoundTrip.antt =====
-- modules/lpss/src/node_rmtp.cpp: what the writer puts into a header, the reader gets out of it.
use rmvl.Prelude.{
  =?_refl, [], ap, append-nil, append_assoc, arith, get_or, length, length-append, refl, some, sym,
  true, ℕ, ◌%◌, ◌++◌, ◌+◌, ◌<◌, ◌>>=◌, ◌^◌, ◌∙◌, ◌∷◌, ◌≡◌,
}
use rmvl.Bytes.{Bytes, bytes_eq, net_u16, net_u32, slice}
use rmvl.Bytes.Laws.{
  length-net_u16, length-net_u32, poke_last, poke-append, get_or-append, slice-append,
  host_of_net-net_u16, host_of_net-net_u32,
}
use rmvl.Lpss.Mtp.Header.{
  magic, mtp_header_size, name_size, MtpHeader, create, set_fragment, names, parse_header,
  sizes_agree,
}

-- The wire format: the magic, the two names with their sizes, the sequence number, the fragment's
-- number, the size of the message and the size of the fragment.
unfoldable pub wire_prefix : Bytes → Bytes → ℕ → Bytes
wire_prefix type topic sequence =
    magic ++ (name_size topic ∷ (topic ++ (name_size type ∷ (type ++ net_u16 sequence))))

unfoldable pub wire_header : Bytes → Bytes → ℕ → ℕ → ℕ → ℕ → Bytes
wire_header type topic sequence total id size =
    wire_prefix type topic sequence ++ (net_u16 id ++ (net_u32 total ++ net_u16 size))

-- The header object whose bytes are in that format.
abbrev pub header_at : Bytes → Bytes → ℕ → ℕ → ℕ → ℕ → MtpHeader
header_at type topic sequence total id size = record {
  bytes = wire_header type topic sequence total id size;
  fragment_id_offset = 8 + length topic + length type;
  payload_size_offset = 14 + length topic + length type;
}

module _ (type topic : Bytes) (sequence : ℕ) where
  length-wire_prefix : length (wire_prefix type topic sequence) ≡ 8 + length topic + length type
  unfolding net_u16 wire_prefix
  length-wire_prefix = omega (
    arith,
    length-append topic (name_size type ∷ (type ++ net_u16 sequence)),
    length-append type (net_u16 sequence),
  )

  module _ (total : ℕ) where
    pub length-wire_header :
        (id size : ℕ)
        → length (wire_header type topic sequence total id size) ≡ mtp_header_size type topic
    unfolding net_u16 net_u32 mtp_header_size wire_header
    length-wire_header id size = omega (
      arith,
      length-wire_prefix,
      length-append (wire_prefix type topic sequence)
          (net_u16 id ++ (net_u32 total ++ net_u16 size)),
    )

    pub create_lem : create type topic sequence total ≡ header_at type topic sequence total 0 0
    unfolding create wire_header wire_prefix
    create_lem =
        λ i. record { bytes = all i; fragment_id_offset = first i; payload_size_offset = second i }
      where
        all : (create type topic sequence total).bytes ≡ wire_header type topic sequence total 0 0
        all = simp append_assoc

        first :
            (create type topic sequence total).fragment_id_offset ≡ 8 + length topic + length type
        first = simp length-append (omega (arith, length-net_u16 sequence))

        second :
            (create type topic sequence total).payload_size_offset ≡ 14 + length topic + length type
        second =
            simp length-append
              (omega (arith, length-net_u16 sequence, length-net_u16 0, length-net_u32 total))

    pub set_fragment_lem :
        (id size id' size' : ℕ)
        → set_fragment id' size' (header_at type topic sequence total id size)
          ≡ some (header_at type topic sequence total id' size')
    unfolding set_fragment wire_header
    set_fragment_lem id size id' size' =
        let same = λ (a b : ℕ). length-net_u16 a ∙ sym (length-net_u16 b) in
        let before = wire_prefix type topic sequence ++ (net_u16 id' ++ net_u32 total) in
        let size_before : length before ≡ 14 + length topic + length type = omega (
          arith,
          length-wire_prefix,
          length-append (wire_prefix type topic sequence) (net_u16 id' ++ net_u32 total),
          length-append (net_u16 id') (net_u32 total),
          length-net_u16 id',
          length-net_u32 total,
        ) in
        let regroup = λ (z : Bytes).
          ap (λ t. wire_prefix type topic sequence ++ t)
            (append_assoc (net_u16 id') (net_u32 total) z) in
        let whole = λ (z : Bytes).
          append_assoc (wire_prefix type topic sequence) (net_u16 id' ++ net_u32 total) z
          ∙ regroup z in
        rw (
          poke-append (wire_prefix type topic sequence) (net_u16 id) (net_u32 total ++ net_u16 size)
              (net_u16 id') _ length-wire_prefix (same id id'),
          ← whole (net_u16 size),
          poke_last before (net_u16 size) (net_u16 size') _ size_before (same size size'),
          whole (net_u16 size'),
        )

-- A name's size byte and bytes in the middle of a header.
names-append :
    (a name c : Bytes) (off : ℕ)
    → length a ≡ off
    → length name < 64
    → names (a ++ (name_size name ∷ (name ++ c))) off name ≡ true
unfolding names name_size
names-append a name c off ha small =
    let size : get_or (a ++ (name_size name ∷ (name ++ c))) off 0 ≡ name_size name =
      get_or-append a _ _ off 0 ha in
    let low : name_size name % 2 ^ 6 ≡ length name = omega arith in
    let at_name : slice (a ++ (name_size name ∷ (name ++ c))) (off + 1) (length name) ≡ name =
      rw (append_assoc a (name_size name ∷ []) (name ++ c)) at (
        slice-append (a ++ (name_size name ∷ [])) name c (off + 1) (length name)
          (omega (arith, length-append a (name_size name ∷ []))) refl) in
    rw (size, low, at_name) (ground (arith, =?_refl name))

module _ (type topic : Bytes) (sequence total id size : ℕ) where
  abbrev wire : Bytes
  wire = wire_header type topic sequence total id size

  abbrev tail : Bytes
  tail = net_u16 id ++ (net_u32 total ++ net_u16 size)

  at_topic :
      wire
      ≡ magic
        ++ (name_size topic ∷ (topic ++ (name_size type ∷ (type ++ (net_u16 sequence ++ tail)))))
  unfolding wire_header wire_prefix
  at_topic = simp append_assoc

  at_type :
      wire
      ≡ (magic ++ (name_size topic ∷ topic))
        ++ (name_size type ∷ (type ++ (net_u16 sequence ++ tail)))
  unfolding wire_header wire_prefix
  at_type = simp append_assoc

  at_sequence :
      wire
      ≡ (magic ++ (name_size topic ∷ (topic ++ (name_size type ∷ type))))
        ++ (net_u16 sequence ++ tail)
  unfolding wire_header wire_prefix
  at_sequence = simp append_assoc

  wire-names :
      length topic < 64
      → length type < 64
      → (slice wire 0 4 ≡ magic)
        × (names wire 4 topic ≡ true)
        × (names wire (4 + 1 + length topic) type ≡ true)
  unfolding slice
  wire-names ht hy = (
    rw at_topic refl,
    rw at_topic (names-append magic topic _ 4 refl ht),
    rw at_type (names-append (magic ++ (name_size topic ∷ topic)) type _ _ (omega arith) hy),
  )

  wire_fields :
      let offset = 4 + 1 + length topic + 1 + length type in
      (slice wire offset 2 ≡ net_u16 sequence)
      × (slice wire (offset + 2) 2 ≡ net_u16 id)
      × (slice wire (offset + 4) 4 ≡ net_u32 total)
      × (slice wire (offset + 8) 2 ≡ net_u16 size)
  unfolding wire_header
  wire_fields =
      let p = wire_prefix type topic sequence in
      let p_size = length-wire_prefix type topic sequence in
      let q = p ++ net_u16 id in
      let q_size = length-append p (net_u16 id) in
      let r_size = length-append q (net_u32 total) in
      (
        rw at_sequence (
            slice-append (magic ++ (name_size topic ∷ (topic ++ (name_size type ∷ type))))
              (net_u16 sequence) tail _ 2
              (omega (arith, length-append topic (name_size type ∷ type)))
              (length-net_u16 sequence)),
        slice-append p (net_u16 id) _ _ 2 (omega (arith, p_size)) (length-net_u16 id),
        rw (append_assoc p (net_u16 id) (net_u32 total ++ net_u16 size)) at (
            slice-append q (net_u32 total) (net_u16 size)
              (4 + 1 + length topic + 1 + length type + 4) 4
              (omega (arith, p_size, q_size, length-net_u16 id)) (length-net_u32 total)),
        simp (append_assoc, append-nil) at
            (slice-append (q ++ net_u32 total) (net_u16 size) []
              (4 + 1 + length topic + 1 + length type + 8) 2
              (omega (arith, p_size, q_size, r_size, length-net_u16 id, length-net_u32 total))
              (length-net_u16 size)),
      )

  -- The reader of the same type and topic accepts the header of a fragment whose sizes agree with
  -- its payload, and gets back the sequence number, the fragment's number and the message's size.
  pub parse_header-wire :
      (payload : Bytes)
      → length topic < 64
      → length type < 64
      → sequence < 2 ^ 16
      → id < 2 ^ 16
      → total < 2 ^ 32
      → size < 2 ^ 16
      → sizes_agree (length payload) size id total ≡ true
      → parse_header wire payload type topic
        ≡ some (record { sequence = sequence; fragment_id = id; total_size = total })
  unfolding parse_header mtp_header_size
  parse_header-wire payload ht hy hs hi ht' hz agree =
      let (start, first, second) = wire-names ht hy in
      let (f, g, h, k) = wire_fields in
      let width : length wire ≡ 16 + length topic + length type =
        length-wire_header type topic sequence total id size in
      rw
        (
          f,
          g,
          h,
          k,
          host_of_net-net_u16 sequence hs,
          host_of_net-net_u16 id hi,
          host_of_net-net_u32 total ht',
          host_of_net-net_u16 size hz,
          agree,
        )
        (rw start (ground (arith, width, first, second)))

-- The header that the writer creates for a message and patches for a fragment is accepted by the
-- reader of the same type and topic, which gets back the sequence number, the fragment's number
-- and the message's size; and no patch writes outside of the header. The names are at most 63 bytes
-- long, the numbers in the range of their fields, and the sizes agree with the payload.
pub parse_header-set_fragment :
    (type topic payload : Bytes) (sequence total id size : ℕ)
    → length topic < 64
    → length type < 64
    → sequence < 2 ^ 16
    → id < 2 ^ 16
    → total < 2 ^ 32
    → size < 2 ^ 16
    → sizes_agree (length payload) size id total ≡ true
    → (set_fragment id size (create type topic sequence total) >>= λ h.
        parse_header h.bytes payload type topic)
      ≡ some (record { sequence = sequence; fragment_id = id; total_size = total })
parse_header-set_fragment type topic payload sequence total id size ht hy hs hi hn hz agree =
    rw
      (create_lem type topic sequence total, set_fragment_lem type topic sequence total 0 0 id size)
      (parse_header-wire type topic sequence total id size payload ht hy hs hi hn hz agree)
