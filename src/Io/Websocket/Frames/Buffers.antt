-- ===== src/Io/Websocket/Frames/Buffers.antt =====
-- modules/io/src/netapp.cpp: the loops of recv that read, and what is in the buffer after them.
use Prim.Native.Nat.{bit_xor}
use rmvl.Prelude.{
  All, Bool-cases, List, Option, [], ap, append_assoc, arith, false, get_or, inl, inr, length,
  length-append, ltb, refl, some, suc, sym, zero, ℕ, ◌%◌, ◌++◌, ◌+◌, ◌<◌, ◌==◌, ◌^◌, ◌∙◌, ◌∷◌, ◌≡◌,
  ◌≤◌,
}
use rmvl.Bytes.{Bytes, bytes_eq, net_u32, host_of_net, slice}
use rmvl.Bytes.Laws.{slice-append, slice-append_le}
use rmvl.Bytes.Chunks.{contents, IsNonempty}
use rmvl.Bytes.Xor.{bit_xor-cancel}
use rmvl.Io.Websocket.Frames.{net_u64, fill, fill_payload, unmask, decoded, recv_payload}

-- The mask of RFC 6455: the bytes of the key in turn.
abbrev pub cover : ℕ → ℕ → ℕ → ℕ → Bytes → Bytes
cover k₀ k₁ k₂ k₃ [] = []
cover k₀ k₁ k₂ k₃ (b ∷ bs) = bit_xor b k₀ ∷ cover k₁ k₂ k₃ k₀ bs

abbrev pub covered : Bytes → Bytes → Bytes
covered key message =
    cover (get_or key 0 0) (get_or key 1 0) (get_or key 2 0) (get_or key 3 0) message

unmask_from :
    (i : ℕ) (key : Bytes) (k₀ k₁ k₂ k₃ : ℕ) (bs : Bytes)
    → get_or key (i % 4) 0 ≡ k₀
    → get_or key ((i + 1) % 4) 0 ≡ k₁
    → get_or key ((i + 1 + 1) % 4) 0 ≡ k₂
    → get_or key ((i + 1 + 1 + 1) % 4) 0 ≡ k₃
    → unmask i key (cover k₀ k₁ k₂ k₃ bs) ≡ bs
unfolding unmask
unmask_from i key k₀ k₁ k₂ k₃ [] e₀ e₁ e₂ e₃ = refl
unmask_from i key k₀ k₁ k₂ k₃ (b ∷ bs) e₀ e₁ e₂ e₃ =
    let again : (i + 1 + 1 + 1 + 1) % 4 ≡ i % 4 = omega arith in
    rw (e₀, bit_xor-cancel, unmask_from (i + 1) key k₁ k₂ k₃ k₀ bs e₁ e₂ e₃ (rw again e₀)) refl

-- The code takes the mask off.
pub unmask-covered : (key bs : Bytes) → unmask 0 key (covered key bs) ≡ bs
unmask-covered key bs =
    unmask_from 0 key (get_or key 0 0) (get_or key 1 0) (get_or key 2 0) (get_or key 3 0) bs refl
      refl refl refl

length-cover : (k₀ k₁ k₂ k₃ : ℕ) (bs : Bytes) → length (cover k₀ k₁ k₂ k₃ bs) ≡ length bs
length-cover k₀ k₁ k₂ k₃ [] = refl
length-cover k₀ k₁ k₂ k₃ (b ∷ bs) = rw (length-cover k₁ k₂ k₃ k₀ bs) refl

pub length-covered : (key bs : Bytes) → length (covered key bs) ≡ length bs
length-covered key bs =
    length-cover (get_or key 0 0) (get_or key 1 0) (get_or key 2 0) (get_or key 3 0) bs

pub host_of_net-net_u64 : (v : ℕ) → v < 2 ^ 64 → host_of_net 0 (net_u64 v) ≡ v
unfolding net_u64 net_u32 host_of_net
host_of_net-net_u64 v h = omega arith

pub length-net_u64 : (v : ℕ) → length (net_u64 v) ≡ 8
unfolding net_u64 net_u32
length-net_u64 v = refl

-- A buffer and the chunks after it, which hold a text.
pub record Holds (text buffer : Bytes) (chunks : List Bytes) : Type 0 where
  pub whole : buffer ++ contents chunks ≡ text
  pub nonempty : All IsNonempty chunks

pub record Filled (n : ℕ) (text : Bytes) (r : Bytes × List Bytes) : Type 0 where
  pub holds : Holds text r.0 r.1
  pub enough : n ≤ length r.0

pub fill-Filled :
    (rounds n : ℕ) (text buffer : Bytes) (chunks : List Bytes)
    → length chunks < rounds
    → Holds text buffer chunks
    → n ≤ length text
    → (r : Bytes × List Bytes) × (fill rounds n buffer chunks ≡ some r)
      × Filled n text r
      × (length r.1 ≤ length chunks)
unfolding fill
fill-Filled zero n text buffer chunks m h k = absurd (omega (arith, m))
fill-Filled (suc rounds) n text buffer [] m h k = elim (Bool-cases (ltb (length buffer) n)) [
  | inl short ↦ absurd (ground (arith, ap length h.whole, length-append buffer []))
  | inr full ↦
      ((buffer, []), rw (fill, full) refl, record { holds = h; enough = ground arith }, omega arith)
]
fill-Filled (suc rounds) n text buffer (c ∷ cs) m h k = elim (Bool-cases (ltb (length buffer) n)) [
  | inl short ↦
      let (r, e, f, fewer) =
        fill-Filled rounds n text (buffer ++ c) cs (omega (arith, m))
          (record {
            whole = append_assoc buffer c (contents cs) ∙ h.whole;
            nonempty = h.nonempty.1;
          })
          k in
      (r, rw (fill, short) e, f, omega (arith, fewer))
  | inr full ↦ (
    (buffer, c ∷ cs),
    rw (fill, full) refl,
    record { holds = h; enough = ground arith },
    omega arith,
  )
]

pub fill_payload-Filled :
    (n : ℕ) (text buffer : Bytes) (chunks : List Bytes)
    → Holds text buffer chunks
    → n ≤ length text
    → Filled n text (fill_payload n buffer chunks)
unfolding fill_payload
fill_payload-Filled n text buffer [] h k = record {
  holds = h;
  enough = omega (arith, ap length h.whole, length-append buffer []);
}
fill_payload-Filled n text buffer ([] ∷ cs) h k = absurd (omega (arith, h.nonempty.0))
fill_payload-Filled n text buffer ((d ∷ c) ∷ cs) h k = elim (Bool-cases (ltb (length buffer) n)) [
  | inl short ↦ rw short (
      fill_payload-Filled n text (buffer ++ (d ∷ c)) cs
        (record {
          whole = append_assoc buffer (d ∷ c) (contents cs) ∙ h.whole;
          nonempty = h.nonempty.1;
        })
        k)
  | inr full ↦ rw full (record { holds = h; enough = ground arith })
]

-- A field of the text that is in the buffer.
pub field :
    (m off n : ℕ) (a f x : Bytes) (r : Bytes × List Bytes)
    → Filled m (a ++ (f ++ x)) r
    → off + n ≤ m
    → length a ≡ off
    → length f ≡ n
    → slice r.0 off n ≡ f
field m off n a f x r filled h ha hf =
    sym (slice-append_le off n r.0 (contents r.1) (omega (arith, filled.enough)))
    ∙ (ap (λ t. slice t off n) filled.holds.whole ∙ slice-append a f x off n ha hf)

pub recv_payload-body :
    (opcode : ℕ) (mask : Option Bytes) (head body extra buffer : Bytes) (chunks : List Bytes)
    → (opcode == 8) ≡ false
    → length head + length body < 2 ^ 64
    → Holds (head ++ (body ++ extra)) buffer chunks
    → (rest : List Bytes) × (recv_payload opcode (length head) (length body) mask buffer chunks
        ≡ record { payload = decoded mask body; closes = false; rest = rest })
unfolding recv_payload
recv_payload-body opcode mask head body extra buffer chunks text_frame small h =
    let total : (length head + length body) % 2 ^ 64 ≡ length head + length body = omega arith in
    let r = fill_payload (length head + length body) buffer chunks in
    let filled =
      fill_payload-Filled (length head + length body) (head ++ (body ++ extra)) buffer chunks h
        (omega (arith, length-append head (body ++ extra), length-append body extra)) in
    let payload =
      field (length head + length body) (length head) (length body) head body extra r filled
        (omega arith) refl refl in
    (r.1, rw (recv_payload, total, text_frame, payload) refl)
