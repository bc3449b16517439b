-- ===== src/Lpss/Mtp/Send/Correct.antt =====
-- modules/lpss/src/node_rmtp.cpp: what sendMTPMessage hands to the socket.
use rmvl.Prelude.{
  All, Bool, List, [], ap, arith, if◌then◌else◌, leb, length, refl, some, suc, true, zero, ℕ, ◌%◌,
  ◌&&◌, ◌*◌, ◌++◌, ◌+◌, ◌-◌, ◌<◌, ◌^◌, ◌∙◌, ◌∷◌, ◌≡◌, ◌≤◌,
}
use rmvl.Bytes.{Bytes}
use rmvl.Lpss.Mtp.Header.{mtp_header_size, create}
use rmvl.Lpss.Mtp.Header.RoundTrip.{header_at, create_lem, length-wire_header}
use rmvl.Lpss.Mtp.Capacity.{fragment_capacity, ipv4_udp_header_size, max_udp_payload}
use rmvl.Lpss.Mtp.Send.{
  MtpWriterTarget, Datagram, fragment_count, send_targets, all_in_limits, name_size_mask,
  send_mtp_message,
}
use rmvl.Lpss.Mtp.Send.Fragments.{
  chunk, chunks_from, chunks_join, length-chunk, fragment, fragments_from, send_fragments-from,
}

-- The payloads of a sequence of datagrams, joined.
abbrev pub payloads : List Datagram → Bytes
payloads [] = []
payloads (d ∷ ds) = d.payload ++ payloads ds

-- With its IP and UDP headers the datagram is no longer than the interface allows.
pub record Fits (mtu : ℕ) (d : Datagram) : Type 0 where
  pub whole : length d.header + length d.payload + ipv4_udp_header_size ≤ mtu
  pub udp : length d.header + length d.payload ≤ max_udp_payload

pub fragment_capacity-fits :
    (mtu header_size : ℕ)
    → 0 < fragment_capacity mtu header_size
    → (header_size + fragment_capacity mtu header_size + ipv4_udp_header_size ≤ mtu)
      × (header_size + fragment_capacity mtu header_size ≤ max_udp_payload)
unfolding fragment_capacity
fragment_capacity-fits mtu header_size h = ground arith

module _ (text type topic : Bytes) (sequence : ℕ) where
  abbrev pub capacity_of : MtpWriterTarget → ℕ
  capacity_of target = fragment_capacity target.mtu (mtp_header_size type topic)

  -- The fragments of the text that one target is to get.
  unfoldable pub fragments_of : MtpWriterTarget → List Datagram
  fragments_of target =
      fragments_from text type topic sequence target (capacity_of target)
        (fragment_count (capacity_of target) (length text)) 0

  unfoldable pub fragments_of_all : List MtpWriterTarget → List Datagram
  fragments_of_all [] = []
  fragments_of_all (target ∷ targets) = fragments_of target ++ fragments_of_all targets

  payloads-fragments_from :
      (target : MtpWriterTarget) (capacity rounds id : ℕ)
      → payloads (fragments_from text type topic sequence target capacity rounds id)
        ≡ chunks_from text capacity rounds id
  unfolding fragments_from fragment chunks_from
  payloads-fragments_from target capacity zero id = refl
  payloads-fragments_from target capacity (suc rounds) id =
      ap (λ t. chunk text capacity id ++ t)
        (payloads-fragments_from target capacity rounds (id + 1))

  fragments_from-Fits :
      (target : MtpWriterTarget) (rounds id : ℕ)
      → 0 < capacity_of target
      → All
          (Fits target.mtu)
          (fragments_from text type topic sequence target (capacity_of target) rounds id)
  unfolding fragments_from fragment
  fragments_from-Fits target zero id pos = tt
  fragments_from-Fits target (suc rounds) id pos = (
    record { whole = omega (arith, width, part, room); udp = omega (arith, width, part, room) },
    fragments_from-Fits target rounds (id + 1) pos,
  )
    where
      width :
          length (fragment text type topic sequence target (capacity_of target) id).header
          ≡ mtp_header_size type topic
      width = length-wire_header type topic sequence (length text) id _

      part : length (chunk text (capacity_of target) id) ≤ capacity_of target
      part = omega (arith, length-chunk text (capacity_of target) id)

      room :
          (mtp_header_size type topic + capacity_of target + ipv4_udp_header_size ≤ target.mtu)
          × (mtp_header_size type topic + capacity_of target ≤ max_udp_payload)
      room = fragment_capacity-fits target.mtu (mtp_header_size type topic) pos

  send_targets-sent :
      (targets : List MtpWriterTarget) (old_id old_size : ℕ)
      → all_in_limits (length text) (mtp_header_size type topic) targets ≡ true
      → send_targets text
          (mtp_header_size type topic)
          targets
          (header_at type topic sequence (length text) old_id old_size)
        ≡ some (fragments_of_all targets)
  unfolding send_targets all_in_limits fragments_of_all fragments_of
  send_targets-sent [] old_id old_size h = refl
  send_targets-sent (target ∷ targets) old_id old_size h =
      let capacity = capacity_of target in
      let (pos, few, others) = limits in
      let narrow : capacity < 2 ^ 16 = omega (arith, fragment_capacity-fits target.mtu _ pos) in
      let start : 0 * capacity ≡ 0 = omega arith in
      let (id, size, sent) =
        send_fragments-from text type topic sequence target capacity pos narrow
          (fragment_count capacity (length text)) 0 old_id old_size (omega arith) (omega arith) in
      rw (rw start at sent, send_targets-sent targets id size others)
    where
      limits :
          (0 < capacity_of target)
          × (fragment_count (capacity_of target) (length text) ≤ 2 ^ 16)
          × (all_in_limits (length text) (mtp_header_size type topic) targets ≡ true)
      limits = ground arith

  send_created :
      (targets : List MtpWriterTarget)
      → length text < 2 ^ 32
      → all_in_limits (length text) (mtp_header_size type topic) targets ≡ true
      → send_targets text
          (mtp_header_size type topic)
          targets
          (create type topic sequence (length text % 2 ^ 32))
        ≡ some (fragments_of_all targets)
  send_created targets h k =
      let e : length text % 2 ^ 32 ≡ length text = omega arith in
      rw (e, create_lem) (send_targets-sent targets 0 0 k)

  -- Whether the code sends anything.
  abbrev pub within_limits : List MtpWriterTarget → Bool
  within_limits targets =
      (leb (length topic) name_size_mask
        && (leb (length type) name_size_mask && leb (length text) (2 ^ 32 - 1)))
      && all_in_limits (length text) (mtp_header_size type topic) targets

  -- For every text, type, topic and list of targets the call writes nowhere outside of the header.
  -- Within the limits it sends to each target in turn all the fragments that are meant for it, and
  -- otherwise it sends nothing to anyone.
  pub send_mtp_message_lem :
      (targets : List MtpWriterTarget)
      → send_mtp_message text type topic sequence targets
        ≡ some (if within_limits targets then fragments_of_all targets else [])
  unfolding send_mtp_message
  send_mtp_message_lem targets = ground (arith, send_created targets)

  -- The fragments for a target that can be reached carry the text, cut in order, and each of them
  -- with its IP and UDP headers is no longer than the MTU and than a UDP datagram can be.
  pub fragments_of-Fits :
      (target : MtpWriterTarget)
      → 0 < capacity_of target
      → (payloads (fragments_of target) ≡ text) × All (Fits target.mtu) (fragments_of target)
  unfolding fragments_of
  fragments_of-Fits target pos = (
    payloads-fragments_from target _ _ 0 ∙ chunks_join text (capacity_of target) pos,
    fragments_from-Fits target _ 0 pos,
  )
