-- ===== src/Lpss/Mtp/Capacity.antt =====
-- modules/lpss/src/node_rmtp.cpp: how large a datagram may be. The host's interfaces, which the
-- code asks the operating system for, are an argument.
pub mod Routes
use Prim.Native.Nat.{bit_and}
use rmvl.Prelude.{
  Bool, List, [], false, if◌then◌else◌, leb, ltb, min, not, suc, true, zero, ℕ, ◌%◌, ◌&&◌, ◌+◌, ◌-◌,
  ◌/◌, ◌==◌, ◌||◌, ◌∷◌,
}
use rmvl.Bytes.{Bytes}
use rmvl.Lpss.Guid.{Locator}

-- ip::Networkv4, and what the code reads of a NetworkInterface.
pub record Network : Type 0 where
  pub address : Bytes
  pub netmask : Bytes

pub record NetworkInterface : Type 0 where
  pub up : Bool
  pub running : Bool
  pub mtu : ℕ
  pub ipv4 : List Network

abbrev pub max_udp_payload : ℕ
max_udp_payload = 65507

abbrev pub ipv4_udp_header_size : ℕ
ipv4_udp_header_size = 28

abbrev pub default_mtu : ℕ
default_mtu = 1500

-- The set bits of one byte: the rounds of the inner loop are the 8 bits.
byte_bits : ℕ → ℕ → ℕ
byte_bits zero byte = 0
byte_bits (suc k) byte = byte % 2 + byte_bits k (byte / 2)

unfoldable pub prefix_length : Bytes → ℕ
unfolding byte_bits
prefix_length [] = 0
prefix_length (byte ∷ mask) = byte_bits 8 byte + prefix_length mask

same_masked : Bytes → Bytes → Bytes → Bool
same_masked (t ∷ target) (l ∷ local) (m ∷ mask) =
    bit_and t m == bit_and l m && same_masked target local mask
same_masked _ _ _ = true

unfoldable pub same_subnet : Bytes → Network → Bool
unfolding same_masked
same_subnet target network = same_masked target network.address network.netmask

-- The local variables of the search.
pub record Route : Type 0 where
  pub fallback : ℕ
  pub selected : ℕ
  pub best_prefix : ℕ
  pub matched : Bool

abbrev pub no_route : Route
no_route = record { fallback = 0; selected = 0; best_prefix = 0; matched = false }

unfoldable pub try_network : Bytes → ℕ → Network → Route → Route
try_network addr mtu network r =
    let current_prefix = prefix_length network.netmask in
    if not (same_subnet addr network)
    then r
    else if not r.matched
        || (ltb r.best_prefix current_prefix
            || (current_prefix == r.best_prefix && ltb mtu r.selected))
    then record r { matched = true; best_prefix = current_prefix; selected = mtu }
    else r

unfoldable pub try_networks : Bytes → ℕ → List Network → Route → Route
try_networks addr mtu [] r = r
try_networks addr mtu (n ∷ ns) r = try_networks addr mtu ns (try_network addr mtu n r)

unfoldable pub usable : NetworkInterface → Bool
usable i = i.up && (i.running && (not (i.mtu == 0) && elim i.ipv4 [ [] ↦ false | _ ∷ _ ↦ true ]))

unfoldable pub try_interface : Bytes → NetworkInterface → Route → Route
try_interface addr i r =
    if not (usable i)
    then r
    else try_networks addr i.mtu i.ipv4
        (record r { fallback = if r.fallback == 0 then i.mtu else min r.fallback i.mtu })

unfoldable pub try_interfaces : Bytes → List NetworkInterface → Route → Route
try_interfaces addr [] r = r
try_interfaces addr (i ∷ is) r = try_interfaces addr is (try_interface addr i r)

unfoldable pub outbound_mtu : List NetworkInterface → Locator → ℕ
outbound_mtu interfaces locator =
    let r = try_interfaces locator.addr interfaces no_route in
    if r.matched then r.selected else if not (r.fallback == 0) then r.fallback else default_mtu

unfoldable pub fragment_capacity : ℕ → ℕ → ℕ
fragment_capacity mtu header_size =
    if leb mtu ipv4_udp_header_size
    then 0
    else let datagram_capacity = min (mtu - ipv4_udp_header_size) max_udp_payload in
      if ltb header_size datagram_capacity then datagram_capacity - header_size else 0
