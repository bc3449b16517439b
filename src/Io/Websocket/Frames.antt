-- ===== src/Io/Websocket/Frames.antt =====
-- modules/io/src/netapp.cpp: WebSocket::send and WebSocket::recv. A connection is the list of the
-- chunks that its reads give until it is closed; after them, each read gives an empty string. A loop
-- that such a read does not end has as many rounds as it is given.
pub mod Buffers
pub mod RoundTrip
pub mod Closed
use Prim.Native.Nat.{bit_xor}
use rmvl.Prelude.{
  Bool, List, Option, [], false, get_or, if◌then◌else◌, leb, length, ltb, none, not, some, suc,
  true, zero, ℕ, ◌%◌, ◌++◌, ◌+◌, ◌/◌, ◌==◌, ◌=?◌, ◌>>=◌, ◌^◌, ◌∷◌,
}
use rmvl.Bytes.{Bytes, net_u16, net_u32, host_of_net, slice, bytes_eq}
use rmvl.Bytes.Chunks.{next_chunk}

-- htobe64.
unfoldable pub net_u64 : ℕ → Bytes
net_u64 v = net_u32 (v / 2 ^ 32 % 2 ^ 32) ++ net_u32 (v % 2 ^ 32)

-- The frame that send writes: the last one of a text, without a mask.
unfoldable pub send_frame : Bytes → Bytes
send_frame message =
    let size = length message in
    if leb size 125
    then 129 ∷ size ∷ message
    else if leb size 65535
    then 129 ∷ 126 ∷ (net_u16 size ++ message)
    else 129 ∷ 127 ∷ (net_u64 size ++ message)

-- The result is the size of the message, as a bool, where the write succeeds.
unfoldable pub send : Bool → (Bytes → Bool) → Bytes → Bool
send is_open write message =
    if not is_open
    then false
    else if write (send_frame message)
    then not (length message == 0)
    else false

-- The loop that reads until a buffer has `n` bytes. `none`: it has not ended after these rounds.
unfoldable pub fill : ℕ → ℕ → Bytes → List Bytes → Option (Bytes × List Bytes)
fill zero n buffer chunks = none
fill (suc rounds) n buffer chunks =
    let (chunk, left) = next_chunk chunks in
    let rest = fill rounds n (buffer ++ chunk) left in
    if ltb (length buffer) n then rest else some (buffer, chunks)

-- The same for the payload, up to an empty chunk.
unfoldable pub fill_payload : ℕ → Bytes → List Bytes → Bytes × List Bytes
fill_payload n buffer [] = (buffer, [])
fill_payload n buffer (c ∷ cs) =
    let rest = fill_payload n (buffer ++ c) cs in
    if ltb (length buffer) n then if c =? [] then (buffer, cs) else rest else (buffer, c ∷ cs)

-- The bytes from the `i`th on.
unfoldable pub unmask : ℕ → Bytes → Bytes → Bytes
unmask i key [] = []
unmask i key (b ∷ bs) = bit_xor b (get_or key (i % 4) 0) ∷ unmask (i + 1) key bs

abbrev pub decoded : Option Bytes → Bytes → Bytes
decoded none payload = payload
decoded (some key) payload = unmask 0 key payload

pub record Received : Type 0 where
  pub payload : Bytes
  pub closes : Bool
  pub rest : List Bytes

abbrev pub nothing_received : List Bytes → Received
nothing_received chunks = record { payload = []; closes = false; rest = chunks }

-- What follows the header, of `header_size` bytes.
unfoldable pub recv_payload : ℕ → ℕ → ℕ → Option Bytes → Bytes → List Bytes → Received
recv_payload opcode header_size payload_size mask buffer chunks =
    let (b, cs) = fill_payload ((header_size + payload_size) % 2 ^ 64) buffer chunks in
    let payload = slice b header_size payload_size in
    if opcode == 8
    then record { payload = []; closes = true; rest = cs }
    else record { payload = decoded mask payload; closes = false; rest = cs }

unfoldable pub recv_mask : ℕ → ℕ → Bool → ℕ → ℕ → Bytes → List Bytes → Option Received
recv_mask rounds opcode masked header_size payload_size buffer chunks =
    if masked
    then (fill rounds (header_size + 4) buffer chunks >>= λ (b, cs).
        some
          (recv_payload opcode (header_size + 4) payload_size (some (slice b header_size 4)) b cs))
    else some (recv_payload opcode header_size payload_size none buffer chunks)

unfoldable pub recv_size : ℕ → ℕ → ℕ → Bytes → List Bytes → Option Received
recv_size rounds first second buffer chunks =
    let opcode = first % 16 in
    let masked = leb 128 second in
    let size = second % 128 in
    if size == 126
    then (fill rounds 4 buffer chunks >>= λ (b, cs).
        recv_mask rounds opcode masked 4 (host_of_net 0 (slice b 2 2)) b cs)
    else if size == 127
    then (fill rounds 10 buffer chunks >>= λ (b, cs).
        recv_mask rounds opcode masked 10 (host_of_net 0 (slice b 2 8)) b cs)
    else recv_mask rounds opcode masked 2 size buffer chunks

-- Each loop of the header has these rounds.
unfoldable pub recv : ℕ → List Bytes → Option Received
recv rounds [] = some (nothing_received [])
recv rounds ((first ∷ second ∷ bytes) ∷ chunks) =
    recv_size rounds first second (first ∷ second ∷ bytes) chunks
recv rounds (buffer ∷ chunks) = some (nothing_received chunks)
