-- ===== src/Io/Websocket/Frames/RoundTrip.antt =====
-- modules/io/src/netapp.cpp: recv reads the frames that send and a client write, however the
-- connection cuts them.
use rmvl.Prelude.{
  All, Bool, Bool-cases, List, Option, [], ap, append_assoc, arith, false, get_or, if◌then◌else◌,
  inl, inr, leb, length, length-append, none, refl, some, sym, true, ℕ, ◌%◌, ◌++◌, ◌+◌, ◌<◌, ◌==◌,
  ◌>>=◌, ◌^◌, ◌∙◌, ◌∷◌, ◌≡◌, ◌≤◌,
}
use rmvl.Bytes.{Bytes, bytes_eq, net_u16, host_of_net, slice}
use rmvl.Bytes.Laws.{host_of_net-net_u16, length-net_u16}
use rmvl.Bytes.Chunks.{contents, IsNonempty}
use rmvl.Io.Websocket.Frames.{
  net_u64, send_frame, fill, unmask, Received, recv_mask, recv_size, recv,
}
use rmvl.Io.Websocket.Frames.Buffers.{
  unmask-covered, length-covered, host_of_net-net_u64, length-net_u64, Holds, fill-Filled, field,
  recv_payload-body, covered,
}

-- The size of a message in a frame, after the bit for the mask.
abbrev size_field : ℕ → ℕ → Bytes
size_field flag size =
    if leb size 125
    then (flag + size) ∷ []
    else if leb size 65535
    then (flag + 126) ∷ net_u16 size
    else (flag + 127) ∷ net_u64 size

abbrev pub IsKey : Option Bytes → Type 0
IsKey none = Unit
IsKey (some key) = length key ≡ 4

-- What stands after the size.
abbrev tail_of : Option Bytes → Bytes → Bytes
tail_of none message = message
tail_of (some key) message = key ++ covered key message

abbrev is_masked : Option Bytes → Bool
is_masked none = false
is_masked (some key) = true

abbrev flag_of : Bool → ℕ
flag_of true = 128
flag_of false = 0

-- The frame of a text, by RFC 6455: without a mask, or with the four bytes of its key.
abbrev pub frame : Option Bytes → Bytes → Bytes
frame mask message =
    129 ∷ (size_field (flag_of (is_masked mask)) (length message) ++ tail_of mask message)

recv_mask-frame :
    (rounds : ℕ) (key head body extra buffer : Bytes) (chunks : List Bytes)
    → length chunks < rounds
    → length key ≡ 4
    → length head + length body + 4 < 2 ^ 64
    → Holds (head ++ (key ++ (body ++ extra))) buffer chunks
    → (rest : List Bytes) × (recv_mask rounds 1 true (length head) (length body) buffer chunks
        ≡ some (record { payload = unmask 0 key body; closes = false; rest = rest }))
unfolding recv_mask
recv_mask-frame rounds key head body extra buffer chunks m four small h =
    let text = head ++ (key ++ (body ++ extra)) in
    let (r, e, f, fewer) = fill-Filled rounds (length head + 4) text buffer chunks m h (
      omega
        (arith, length-append head (key ++ (body ++ extra)), length-append key (body ++ extra))) in
    let found =
      field (length head + 4) (length head) 4 head key (body ++ extra) r f (omega arith) refl
        four in
    let size : length (head ++ key) ≡ length head + 4 = omega (arith, length-append head key) in
    let held : Holds ((head ++ key) ++ (body ++ extra)) r.0 r.1 = record {
      whole = f.holds.whole ∙ sym (append_assoc head key (body ++ extra));
      nonempty = f.holds.nonempty;
    } in
    let (rest, done) =
      recv_payload-body 1 (some key) (head ++ key) body extra r.0 r.1 refl (omega arith) held in
    (rest, rw (recv_mask, e, found) (ap some (rw size at done)))

abbrev pub IsReceived : Bytes → Option Received → Type 0
IsReceived message r =
    (rest : List Bytes) × (r ≡ some (record { payload = message; closes = false; rest = rest }))

recv_mask-tail :
    (rounds : ℕ) (mask : Option Bytes) (head message extra buffer : Bytes) (chunks : List Bytes)
    → length chunks < rounds
    → IsKey mask
    → length head + length message + 4 < 2 ^ 64
    → Holds (head ++ (tail_of mask message ++ extra)) buffer chunks
    → IsReceived message
        (recv_mask rounds 1 (is_masked mask) (length head) (length message) buffer chunks)
unfolding recv_mask
recv_mask-tail rounds none head message extra buffer chunks m k small h =
    let (rest, e) =
      recv_payload-body 1 none head message extra buffer chunks refl (omega arith) h in
    (rest, ap some e)
recv_mask-tail rounds (some key) head message extra buffer chunks m k small h =
    let text = covered key message in
    let size = length-covered key message in
    let held : Holds (head ++ (key ++ (text ++ extra))) buffer chunks = record {
      whole = h.whole ∙ ap (λ t. head ++ t) (append_assoc key text extra);
      nonempty = h.nonempty;
    } in
    let (rest, e) =
      recv_mask-frame rounds key head text extra buffer chunks m k (omega (arith, size)) held in
    (rest, rw (← size) (e ∙ rw (unmask-covered key message) refl))

second_byte :
    (masked : Bool) (x : ℕ)
    → x < 128
    → (leb 128 (flag_of masked + x) ≡ masked) × ((flag_of masked + x) % 128 ≡ x)
second_byte true x h = ground arith
second_byte false x h = ground arith

module _ (rounds : ℕ) (mask : Option Bytes) (message extra buffer : Bytes) (chunks : List Bytes)
    (enough : length chunks < rounds) (key : IsKey mask)
    (small : length message + 14 < 2 ^ 64) where
  abbrev message_size : ℕ
  message_size = length message

  abbrev flag : ℕ
  flag = flag_of (is_masked mask)

  short_frame :
      message_size ≤ 125
      → Holds (129 ∷ (flag + message_size) ∷ (tail_of mask message ++ extra)) buffer chunks
      → IsReceived message (recv_size rounds 129 (flag + message_size) buffer chunks)
  unfolding recv_size
  short_frame few h =
      let (masked, low) = second_byte (is_masked mask) message_size (omega arith) in
      let not_126 : (message_size == 126) ≡ false = ground arith in
      let not_127 : (message_size == 127) ≡ false = ground arith in
      rw (recv_size, low, masked, not_126, not_127)
        (recv_mask-tail rounds mask (129 ∷ (flag + message_size) ∷ []) message extra buffer chunks
          enough key (omega arith) h)

  extended_frame :
      (n x : ℕ) (f : Bytes)
      → length f ≡ n
      → n ≤ 8
      → host_of_net 0 f ≡ message_size
      → Holds (129 ∷ x ∷ (f ++ (tail_of mask message ++ extra))) buffer chunks
      → IsReceived message (
          fill rounds (2 + n) buffer chunks >>= λ (b, cs).
          recv_mask rounds 1 (is_masked mask) (2 + n) (host_of_net 0 (slice b 2 n)) b cs)
  extended_frame n x f hf few value h =
      let head : Bytes = 129 ∷ x ∷ [] in
      let text = head ++ (f ++ (tail_of mask message ++ extra)) in
      let long : length (head ++ f) ≡ 2 + n = omega (arith, hf) in
      let (r, e, filled, fewer) =
        fill-Filled rounds (2 + n) text buffer chunks enough h
          (omega (arith, hf, length-append f (tail_of mask message ++ extra))) in
      let found =
        field (2 + n) 2 n head f (tail_of mask message ++ extra) r filled (omega arith) refl hf in
      rw (e, found, value, ← long)
        (recv_mask-tail rounds mask (head ++ f) message extra r.0 r.1 (omega (arith, enough, fewer))
          key (omega (arith, long)) filled.holds)

  middle_frame :
      message_size < 2 ^ 16
      → Holds
          (129 ∷ (flag + 126) ∷ (net_u16 message_size ++ (tail_of mask message ++ extra)))
          buffer
          chunks
      → IsReceived message (recv_size rounds 129 (flag + 126) buffer chunks)
  unfolding recv_size
  middle_frame few h =
      let (masked, low) = second_byte (is_masked mask) 126 (omega arith) in
      rw (recv_size, low, masked)
        (extended_frame 2 (flag + 126) (net_u16 message_size) (length-net_u16 message_size)
          (omega arith) (host_of_net-net_u16 message_size few) h)

  long_frame :
      Holds
        (129 ∷ (flag + 127) ∷ (net_u64 message_size ++ (tail_of mask message ++ extra)))
        buffer
        chunks
      → IsReceived message (recv_size rounds 129 (flag + 127) buffer chunks)
  unfolding recv_size
  long_frame h =
      let (masked, low) = second_byte (is_masked mask) 127 (omega arith) in
      rw (recv_size, low, masked)
        (extended_frame 8 (flag + 127) (net_u64 message_size) (length-net_u64 message_size)
          (omega arith) (host_of_net-net_u64 message_size (omega arith)) h)

  regroup :
      (second : ℕ) (f : Bytes)
      → frame mask message ≡ 129 ∷ second ∷ (f ++ tail_of mask message)
      → Holds (frame mask message ++ extra) buffer chunks
      → Holds (129 ∷ second ∷ (f ++ (tail_of mask message ++ extra))) buffer chunks
  regroup second f e h = record {
    whole =
        h.whole
        ∙ (ap (λ t. t ++ extra) e
            ∙ ap (λ t. 129 ∷ second ∷ t) (append_assoc f (tail_of mask message) extra));
    nonempty = h.nonempty;
  }

  recv_size-frame :
      (first second : ℕ) (bytes : Bytes)
      → buffer ≡ first ∷ second ∷ bytes
      → Holds (frame mask message ++ extra) buffer chunks
      → IsReceived message (recv_size rounds first second buffer chunks)
  recv_size-frame first second bytes shape h = elim (Bool-cases (leb message_size 125)) [
    | inl short ↦
        let held : Holds (129 ∷ (flag + message_size) ∷ (tail_of mask message ++ extra)) buffer
            chunks =
          regroup (flag + message_size) [] (rw short refl) h in
        rw (first_is held, second_is held) (short_frame (ground arith) held)
    | inr longer ↦ elim (Bool-cases (leb message_size 65535)) [
      | inl middle ↦
          let held : Holds
              (129 ∷ (flag + 126) ∷ (net_u16 message_size ++ (tail_of mask message ++ extra)))
              buffer chunks =
            regroup (flag + 126) (net_u16 message_size) (rw (longer, middle) refl) h in
          rw (first_is held, second_is held) (middle_frame (ground arith) held)
      | inr long ↦
          let held : Holds
              (129 ∷ (flag + 127) ∷ (net_u64 message_size ++ (tail_of mask message ++ extra)))
              buffer chunks =
            regroup (flag + 127) (net_u64 message_size) (rw (longer, long) refl) h in
          rw (first_is held, second_is held) (long_frame held)
    ]
  ]
    where
      first_is : {a b : ℕ} {t : Bytes} → Holds (a ∷ b ∷ t) buffer chunks → first ≡ a
      first_is h = ap (λ t. get_or t 0 0) (rw shape at h.whole)

      second_is : {a b : ℕ} {t : Bytes} → Holds (a ∷ b ∷ t) buffer chunks → second ≡ b
      second_is h = ap (λ t. get_or t 1 0) (rw shape at h.whole)

-- A text of fewer than 2 ^ 64 - 14 bytes in a frame, with or without a mask, is received as it is,
-- however the connection cuts the frame and what comes after it into chunks, if none of them is
-- empty and the first one has two bytes: with as many rounds for each loop as there are chunks.
pub recv-frame :
    (rounds : ℕ) (mask : Option Bytes) (message extra chunk : Bytes) (chunks : List Bytes)
    → length chunks < rounds
    → IsKey mask
    → length message + 14 < 2 ^ 64
    → 2 ≤ length chunk
    → chunk ++ contents chunks ≡ frame mask message ++ extra
    → All IsNonempty chunks
    → IsReceived message (recv rounds (chunk ∷ chunks))
unfolding recv
recv-frame rounds mask message extra [] chunks m k small two whole full = absurd (omega arith)
recv-frame rounds mask message extra (a ∷ []) chunks m k small two whole full = absurd (omega arith)
recv-frame rounds mask message extra (a ∷ b ∷ bytes) chunks m k small two whole full =
    recv_size-frame rounds mask message extra (a ∷ b ∷ bytes) chunks m k small a b bytes refl
      (record { whole = whole; nonempty = full })

send_frame-frame : (message : Bytes) → send_frame message ≡ frame none message
unfolding send_frame
send_frame-frame message = elim (Bool-cases (leb (length message) 125)) [
  | inl short ↦
      let zero_more : 0 + length message ≡ length message = omega arith in
      rw (send_frame, short, zero_more) refl
  | inr longer ↦ elim (Bool-cases (leb (length message) 65535)) [
    | inl middle ↦ rw (send_frame, longer, middle) refl
    | inr long ↦ rw (send_frame, longer, long) refl
  ]
]

-- What send writes, for fewer than 2 ^ 64 - 14 bytes, is the frame of RFC 6455 without a mask, and
-- recv gives the message back, however the connection cuts the frame and what comes after it into
-- chunks, if none of them is empty and the first one has two bytes: with as many rounds for each
-- loop as there are chunks.
pub recv-send_frame :
    (rounds : ℕ) (message extra chunk : Bytes) (chunks : List Bytes)
    → length chunks < rounds
    → length message + 14 < 2 ^ 64
    → 2 ≤ length chunk
    → chunk ++ contents chunks ≡ send_frame message ++ extra
    → All IsNonempty chunks
    → (send_frame message ≡ frame none message) × IsReceived message (recv rounds (chunk ∷ chunks))
recv-send_frame rounds message extra chunk chunks m small two whole full = (
  send_frame-frame message,
  recv-frame rounds none message extra chunk chunks m tt small two
      (whole ∙ ap (λ t. t ++ extra) (send_frame-frame message)) full,
)
