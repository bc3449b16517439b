-- ===== src/Lpss/Mtp/Header.antt =====
-- modules/lpss/src/node_rmtp.cpp: the MTP message header, written once for each message, patched
-- for each fragment, and checked by the reader.
pub mod RoundTrip
use rmvl.Prelude.{
  Bool, Option, [], get_or, if◌then◌else◌, leb, length, ltb, none, not, some, ℕ, ◌%◌, ◌&&◌, ◌*◌,
  ◌++◌, ◌+◌, ◌==◌, ◌=?◌, ◌^◌, ◌||◌, ◌∷◌, ◌>>=◌,
}
use rmvl.Bytes.{Bytes, bytes_eq, codes, net_u16, net_u32, host_of_net, slice, poke}

abbrev pub mtp_fixed_header_size : ℕ
mtp_fixed_header_size = 16

abbrev pub magic : Bytes
magic = codes "MT02"

unfoldable pub mtp_header_size : Bytes → Bytes → ℕ
mtp_header_size type topic = mtp_fixed_header_size + length topic + length type

-- `static_cast<uint8_t>(name.size()) & NAME_SIZE_MASK`
unfoldable pub name_size : Bytes → ℕ
name_size name = length name % 2 ^ 8 % 2 ^ 6

pub record MtpHeader : Type 0 where
  pub bytes : Bytes
  pub fragment_id_offset : ℕ
  pub payload_size_offset : ℕ

unfoldable pub create : Bytes → Bytes → ℕ → ℕ → MtpHeader
create type topic sequence all_payload_size =
    let named = (((magic ++ (name_size topic ∷ [])) ++ topic) ++ (name_size type ∷ [])) ++ type in
    let sequenced = named ++ net_u16 sequence in
    let sized = (sequenced ++ net_u16 0) ++ net_u32 all_payload_size in
    record {
      bytes = sized ++ net_u16 0;
      fragment_id_offset = length sequenced;
      payload_size_offset = length sized;
    }

set_net_u16 : ℕ → ℕ → Bytes → Option Bytes
set_net_u16 offset value bytes = poke bytes offset (net_u16 value)

-- `none` is a write outside of the header.
unfoldable pub set_fragment : ℕ → ℕ → MtpHeader → Option MtpHeader
unfolding set_net_u16
set_fragment fragment_id payload_size h = do
  bytes ← set_net_u16 h.fragment_id_offset fragment_id h.bytes
  bytes' ← set_net_u16 h.payload_size_offset payload_size bytes
  some (record h { bytes = bytes' })

pub record ParsedFragment : Type 0 where
  pub sequence : ℕ
  pub fragment_id : ℕ
  pub total_size : ℕ

-- The size byte and the name at `offset` are those of `name`.
unfoldable pub names : Bytes → ℕ → Bytes → Bool
names header offset name =
    let size = get_or header offset 0 % 2 ^ 6 in
    size == length name && (slice header (offset + 1) size =? name)

-- The checks on the sizes that a fragment states.
unfoldable pub sizes_agree : ℕ → ℕ → ℕ → ℕ → Bool
sizes_agree payload_size fragment_size fragment_id total_size =
    (payload_size == fragment_size && leb fragment_size total_size)
    && (if total_size == 0
        then fragment_id == 0 && fragment_size == 0
        else not (fragment_size == 0))

-- The reads stay inside the header, by the checks on its size.
unfoldable pub parse_header : Bytes → Bytes → Bytes → Bytes → Option ParsedFragment
parse_header header payload type topic =
    if not (length header == mtp_header_size type topic)
      || (ltb (length header) mtp_fixed_header_size || not (slice header 0 4 =? magic))
    then none
    else if not (names header 4 topic)
    then none
    else let at_type = 4 + 1 + length topic in
      if not (names header at_type type)
      then none
      else let offset = at_type + 1 + length type in
        if not (offset + 2 * 3 + 4 == length header)
        then none
        else let sequence = host_of_net 0 (slice header offset 2) in
          let fragment_id = host_of_net 0 (slice header (offset + 2) 2) in
          let total_size = host_of_net 0 (slice header (offset + 4) 4) in
          let fragment_size = host_of_net 0 (slice header (offset + 8) 2) in
          if sizes_agree (length payload) fragment_size fragment_id total_size
          then some
              (record { sequence = sequence; fragment_id = fragment_id; total_size = total_size })
          else none
