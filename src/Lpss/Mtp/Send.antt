-- ===== src/Lpss/Mtp/Send.antt =====
-- modules/lpss/src/node_rmtp.cpp: sendMTPMessage. The callback that writes to the socket is the
-- list of datagrams that it is given, in order; the pauses between them are not modelled.

pub mod Fragments
pub mod Correct
use rmvl.Prelude.{
  Bool, List, Option, [], if◌then◌else◌, leb, length, ltb, min, not, some, suc, true, zero, ℕ, ◌%◌,
  ◌&&◌, ◌++◌, ◌+◌, ◌-◌, ◌/◌, ◌==◌, ◌^◌, ◌||◌, ◌∷◌, ◌>>=◌,
}
use rmvl.Bytes.{Bytes, slice}
use rmvl.Lpss.Guid.{Locator}
use rmvl.Lpss.Mtp.Header.{mtp_header_size, MtpHeader, create, set_fragment}
use rmvl.Lpss.Mtp.Capacity.{fragment_capacity}

pub record MtpWriterTarget : Type 0 where
  pub locator : Locator
  pub mtu : ℕ

pub record Datagram : Type 0 where
  pub to : Locator
  pub header : Bytes
  pub payload : Bytes

-- For a positive capacity. The product and the sum stay far below 2^64.
unfoldable pub fragment_count : ℕ → ℕ → ℕ
fragment_count capacity data_size = if data_size == 0 then 1 else 1 + (data_size - 1) / capacity

-- The loop over the fragments of one target, with the rounds left; `none` is a write outside of the
-- header, which the loop patches in place.
unfoldable pub send_fragments :
    Bytes → MtpWriterTarget → ℕ → ℕ → ℕ → ℕ → MtpHeader → Option (List Datagram × MtpHeader)
send_fragments text target capacity zero id offset header = some ([], header)
send_fragments text target capacity (suc rounds) id offset header = do
  let size = min capacity (length text - offset)
  header' ← set_fragment (id % 2 ^ 16) (size % 2 ^ 16) header
  (rest, last) ← send_fragments text target capacity rounds (id + 1) (offset + size) header'
  let here : Datagram = record {
    to = target.locator;
    header = header'.bytes;
    payload = slice text offset size;
  }
  some (here ∷ rest, last)

unfoldable pub send_targets : Bytes → ℕ → List MtpWriterTarget → MtpHeader → Option (List Datagram)
send_targets text header_size [] header = some []
send_targets text header_size (target ∷ targets) header = do
  let capacity = fragment_capacity target.mtu header_size
  (sent, header') ←
      send_fragments text target capacity (fragment_count capacity (length text)) 0 0 header
  rest ← send_targets text header_size targets header'
  some (sent ++ rest)

-- Every target can be reached by at most 65536 fragments.
unfoldable pub all_in_limits : ℕ → ℕ → List MtpWriterTarget → Bool
all_in_limits data_size header_size [] = true
all_in_limits data_size header_size (target ∷ targets) =
    let capacity = fragment_capacity target.mtu header_size in
    (not (capacity == 0) && leb (fragment_count capacity data_size) (2 ^ 16 - 1 + 1))
    && all_in_limits data_size header_size targets

abbrev pub name_size_mask : ℕ
name_size_mask = 0x3f

unfoldable pub send_mtp_message :
    Bytes → Bytes → Bytes → ℕ → List MtpWriterTarget → Option (List Datagram)
send_mtp_message text type topic sequence targets =
    let header_size = mtp_header_size type topic in
    if ltb name_size_mask (length topic)
      || (ltb name_size_mask (length type) || ltb (2 ^ 32 - 1) (length text))
    then some []
    else if not (all_in_limits (length text) header_size targets)
    then some []
    else send_targets text header_size targets (create type topic sequence (length text % 2 ^ 32))
