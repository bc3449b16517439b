-- ===== src/Io/Websocket.antt =====
-- modules/io/src/ws_aux.hpp: SHA-1, base64 and the accept key of the WebSocket handshake.
pub mod Updates
pub mod Padding
pub mod Frames
use Prim.Native.Nat.{bit_and, bit_or, bit_xor}
use rmvl.Prelude.{
  List, [], drop, get_or, if◌then◌else◌, leb, length, ltb, replicate, suc, take, zero, ℕ, ◌%◌, ◌*◌,
  ◌++◌, ◌+◌, ◌-◌, ◌/◌, ◌==◌, ◌^◌, ◌∷◌,
}
use rmvl.Bytes.{Bytes, codes, host_of_net, net_u32}

-- The five words of `_state`.
pub record Words : Type 0 where
  pub w₀ : ℕ
  pub w₁ : ℕ
  pub w₂ : ℕ
  pub w₃ : ℕ
  pub w₄ : ℕ

-- `buffer` holds the bytes of `_buffer` below `_buffer_idx`; those above it are written before they
-- are read.
pub record Sha1 : Type 0 where
  pub words : Words
  pub buffer : Bytes
  pub byte_count : ℕ

abbrev pub reset : Sha1
reset = record {
  words = record {
    w₀ = 0x67452301;
    w₁ = 0xEFCDAB89;
    w₂ = 0x98BADCFE;
    w₃ = 0x10325476;
    w₄ = 0xC3D2E1F0;
  };
  buffer = [];
  byte_count = 0;
}

unfoldable pub rol : ℕ → ℕ → ℕ
rol value bits = bit_or (value * 2 ^ bits % 2 ^ 32) (value / 2 ^ (32 - bits))

-- The first words, the last one first.
unfoldable pub load_words : ℕ → Bytes → List ℕ → List ℕ
load_words zero block w = w
load_words (suc n) block w = load_words n (drop 4 block) (host_of_net 0 (take 4 block) ∷ w)

-- The other words: `w[i - 3]` is the third of those before.
unfoldable pub extend_words : ℕ → List ℕ → List ℕ
extend_words zero w = w
extend_words (suc n) w = extend_words n (
    rol (bit_xor (bit_xor (bit_xor (get_or w 2 0) (get_or w 7 0)) (get_or w 13 0)) (get_or w 15 0))
      1
    ∷ w)

unfoldable pub round_function : ℕ → ℕ → ℕ → ℕ → ℕ × ℕ
round_function i b c d =
    if ltb i 20
    then (bit_or (bit_and b c) (bit_and (2 ^ 32 - 1 - b) d), 0x5A827999)
    else if ltb i 40
    then (bit_xor (bit_xor b c) d, 0x6ED9EBA1)
    else if ltb i 60
    then (bit_or (bit_or (bit_and b c) (bit_and b d)) (bit_and c d), 0x8F1BBCDC)
    else (bit_xor (bit_xor b c) d, 0xCA62C1D6)

unfoldable pub mix : ℕ → ℕ → Words → Words
mix i w s =
    let (f, k) = round_function i s.w₁ s.w₂ s.w₃ in
    record {
      w₀ = (rol s.w₀ 5 + f + s.w₄ + k + w) % 2 ^ 32;
      w₁ = s.w₀;
      w₂ = rol s.w₁ 30;
      w₃ = s.w₂;
      w₄ = s.w₃;
    }

unfoldable pub mix_all : ℕ → List ℕ → Words → Words
mix_all i [] s = s
mix_all i (w ∷ ws) s = mix_all (i + 1) ws (mix i w s)

unfoldable pub in_order : List ℕ → List ℕ → List ℕ
in_order [] acc = acc
in_order (w ∷ ws) acc = in_order ws (w ∷ acc)

unfoldable pub process_block : Bytes → Words → Words
process_block block s =
    let r = mix_all 0 (in_order (extend_words 64 (load_words 16 block [])) []) s in
    record {
      w₀ = (s.w₀ + r.w₀) % 2 ^ 32;
      w₁ = (s.w₁ + r.w₁) % 2 ^ 32;
      w₂ = (s.w₂ + r.w₂) % 2 ^ 32;
      w₃ = (s.w₃ + r.w₃) % 2 ^ 32;
      w₄ = (s.w₄ + r.w₄) % 2 ^ 32;
    }

unfoldable pub feed : Bytes → Sha1 → Sha1
feed [] s = s
feed (c ∷ cs) s =
    let buffer = s.buffer ++ (c ∷ []) in
    feed cs (
      if length buffer == 64
      then record s { words = process_block buffer s.words; buffer = [] }
      else record s { buffer = buffer })

unfoldable pub update : Bytes → Sha1 → Sha1
update bytes s =
    let fed = feed bytes s in record fed { byte_count = (s.byte_count + length bytes) % 2 ^ 64 }

-- The byte 0x80, zeros up to the last eight bytes of a block, and the number of bits.
unfoldable pub final : Sha1 → Bytes
final s =
    let marked = s.buffer ++ (0x80 ∷ []) in
    let bits = s.byte_count * 8 % 2 ^ 64 in
    let count = net_u32 (bits / 2 ^ 32) ++ net_u32 (bits % 2 ^ 32) in
    let spill = ltb 56 (length marked) in
    let words =
      if spill
      then process_block (marked ++ replicate (64 - length marked) 0) s.words
      else s.words in
    let begun = if spill then [] else marked in
    let r = process_block ((begun ++ replicate (56 - length begun) 0) ++ count) words in
    net_u32 r.w₀ ++ (net_u32 r.w₁ ++ (net_u32 r.w₂ ++ (net_u32 r.w₃ ++ net_u32 r.w₄)))

abbrev pub base64_table : Bytes
base64_table = codes "ABCDEFGHIJKLMNOPQRSTUVWXYZabcdefghijklmnopqrstuvwxyz0123456789+/"

-- `pending` is `valb + 6`: the number of bits of `val` that are not written yet.
unfoldable pub emit : ℕ → ℕ → ℕ → Bytes × ℕ
emit zero val pending = ([], pending)
emit (suc rounds) val pending =
    let (out, left) = emit rounds val (pending - 6) in
    if leb 6 pending
    then (get_or base64_table (val / 2 ^ (pending - 6) % 64) 0 ∷ out, left)
    else ([], pending)

-- Eight bits and at most four pending ones are two characters at most. An int keeps 32 bits.
unfoldable pub base64_from : ℕ → ℕ → Bytes → Bytes
base64_from val pending [] =
    if ltb 0 pending then get_or base64_table (val * 2 ^ 8 / 2 ^ (pending + 2) % 64) 0 ∷ [] else []
base64_from val pending (c ∷ cs) =
    let val' = (val * 2 ^ 8 + c) % 2 ^ 32 in
    let (out, left) = emit 3 val' (pending + 8) in out ++ base64_from val' left cs

unfoldable pub padding : ℕ → Bytes
padding size = replicate ((4 - size % 4) % 4) 61

unfoldable pub base64_encode : Bytes → Bytes
base64_encode bytes = let out = base64_from 0 0 bytes in out ++ padding (length out)

abbrev pub magic_guid : Bytes
magic_guid = codes "258EAFA5-E914-47DA-95CA-C5AB0DC85B11"

unfoldable pub generate_accept_key : Bytes → Bytes
generate_accept_key client_key = base64_encode (final (update magic_guid (update client_key reset)))
