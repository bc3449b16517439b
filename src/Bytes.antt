-- ===== src/Bytes.antt =====
-- Byte strings (std::string, std::string_view, char buffers) as lists of numbers below 256, and
-- the byte orders of the wire formats: htons, htonl and ntohs, ntohl give big-endian words, and a
-- memcpy of an integer object gives little-endian bytes (the hosts the library is built for).
pub mod Laws
pub mod Xor
pub mod Chunks
use Prim.Native.Char.{code}
use Prim.Native.String.{String}
use rmvl.Prelude.{
  Eq, List, Option, [], drop, if◌then◌else◌, leb, length, list_eq, ltb, none, some, suc, take, zero,
  ℕ, ◌%◌, ◌*◌, ◌++◌, ◌+◌, ◌/◌, ◌<◌, ◌∷◌, nat_eq,
}

abbrev pub Bytes : Type 0
Bytes = List ℕ

instance abbrev pub bytes_eq : Eq Bytes
bytes_eq = list_eq

abbrev pub IsByte : ℕ → Type 0
IsByte b = b < 256

-- The bytes of an ASCII literal.
abbrev pub codes : String → Bytes
codes String.[] = []
codes (String.◌∷◌ c s) = code c ∷ codes s

-- uint16_t and uint32_t in network byte order.
unfoldable pub net_u16 : ℕ → Bytes
net_u16 v = (v / 256 % 256) ∷ (v % 256) ∷ []

unfoldable pub net_u32 : ℕ → Bytes
net_u32 v = (v / 16777216 % 256) ∷ (v / 65536 % 256) ∷ (v / 256 % 256) ∷ (v % 256) ∷ []

-- The words that such bytes stand for: `acc` is what the bytes before them stand for.
unfoldable pub host_of_net : ℕ → Bytes → ℕ
host_of_net acc [] = acc
host_of_net acc (b ∷ bs) = host_of_net (acc * 256 + b) bs

-- The `n` bytes of an integer object, least significant first, and the integer read back.
unfoldable pub object_bytes : ℕ → ℕ → Bytes
object_bytes zero v = []
object_bytes (suc n) v = (v % 256) ∷ object_bytes n (v / 256)

unfoldable pub object_of_bytes : Bytes → ℕ
object_of_bytes [] = 0
object_of_bytes (b ∷ bs) = b + 256 * object_of_bytes bs

-- `s.substr(off, n)` with `off` in range.
unfoldable pub slice : Bytes → ℕ → ℕ → Bytes
slice s off n = take n (drop off s)

-- memcpy of `bs` to `buf + off`. A write past the end is undefined behaviour: `none`.
unfoldable pub poke : Bytes → ℕ → Bytes → Option Bytes
poke buf off bs =
    if leb (off + length bs) (length buf)
    then some (take off buf ++ (bs ++ drop (off + length bs) buf))
    else none

-- memcpy of `n` bytes from `buf + off`. A read past the end is undefined behaviour: `none`.
unfoldable pub peek : Bytes → ℕ → ℕ → Option Bytes
peek buf off n = if leb (off + n) (length buf) then some (slice buf off n) else none

-- std::to_string of a word of at most 64 bits: 20 digits are enough.
unfoldable pub decimal_from : ℕ → ℕ → Bytes
decimal_from zero n = []
decimal_from (suc fuel) n =
    let rest = decimal_from fuel (n / 10) in
    if ltb n 10 then (48 + n) ∷ [] else rest ++ ((48 + n % 10) ∷ [])

unfoldable pub decimal : ℕ → Bytes
decimal n = decimal_from 20 n
