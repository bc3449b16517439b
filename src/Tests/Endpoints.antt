-- ===== src/Tests/Endpoints.antt =====
-- modules/lpss/src/node_rmtp.cpp: writers and readers on concrete endpoints.
use rmvl.Prelude.{
  All, Bool, List, [], arith, false, if◌then◌else◌, none, refl, some, true, ℕ, ◌++◌, ◌=?◌, ◌∷◌, ◌≡◌,
}
use rmvl.Bytes.{Bytes, codes}
use rmvl.Dict.{Dict, find}
use rmvl.Lpss.Guid.{Guid, Locator, guid_eq}
use rmvl.Lpss.Mtp.Assembly.{Arrival, Limits, empty, receive}
use rmvl.Lpss.Mtp.Endpoints.{
  same_node, erase_endpoint_or_node, DataWriter, DataReader, ReadShm, read, add_reader_endpoint,
  remove_reader_endpoint,
}
use rmvl.Lpss.Mtp.Capacity.{NetworkInterface, outbound_mtu, usable, same_subnet}
use rmvl.Lpss.Mtp.Capacity.Routes.{networks_on, routes_to, Among, IsNoBetter, outbound_mtu-best}
use rmvl.Lpss.Mtp.Endpoints.Names.{shm_channel_name-injective}
use rmvl.Lpss.Mtp.Endpoints.Routes.{find-erase_endpoint_or_node, IsRouted, add_remove-IsRouted}
use rmvl.Lpss.Mtp.Endpoints.Reading.{outcome, read-receive}
use rmvl.Lpss.Mtp.Endpoints.{Round}

abbrev here : Guid
here = record { full = 4294967297 }

abbrev there : Guid
there = record { full = 8589934592 }

shm_channel_name-injective_example : (here ≡ here) × (there ≡ there)
shm_channel_name-injective_example =
    shm_channel_name-injective here there here there (omega arith) (omega arith) (omega arith)
      (omega arith) refl

abbrev table : Dict Guid ℕ
table = (here, 1) ∷ (there, 2) ∷ []

find-erase_endpoint_or_node_example :
    find there (erase_endpoint_or_node here table) ≡ elim (find here table) [
      | some _ ↦ if there =? here then none else find there table
      | none ↦ if same_node there here then none else find there table
    ]
unfolding find
find-erase_endpoint_or_node_example =
    find-erase_endpoint_or_node here there table (refl, (refl, tt))

abbrev writer : DataWriter Bytes
writer = record {
  guid = here;
  type = codes "M";
  topic = codes "t";
  udpv4_targets = [];
  shm_targets = [];
  sequence = 0;
}

abbrev locator : Locator
locator = record { port = 7000; addr = 10 ∷ 0 ∷ 0 ∷ 2 ∷ [] }

add_remove-IsRouted_example :
    IsRouted Bytes (add_reader_endpoint Bytes (λ name. name) [] there locator writer)
    × IsRouted Bytes (remove_reader_endpoint Bytes there writer)
add_remove-IsRouted_example =
    add_remove-IsRouted Bytes writer (λ name. name) [] there locator
      (record { remote = tt; local = tt; remote_unique = tt; local_unique = tt })

abbrev reader : DataReader Bytes
reader = record {
  guid = there;
  type = codes "M";
  topic = codes "t";
  shm_sources = [];
  cache = empty;
}

abbrev no_message : ReadShm Bytes
no_message shm sequence = (false, [], sequence)

abbrev limits : Limits
limits = record { fragment_timeout = 1000; reassembly_max_bytes = 16777216 }

-- A message of one fragment.
abbrev arrival : Arrival
arrival = record {
  now = 5;
  addr = codes "10.0.0.1";
  port = 9000;
  header = codes "MT02" ++ (1 ∷ 116 ∷ 1 ∷ 77 ∷ 0 ∷ 7 ∷ 0 ∷ 0 ∷ 0 ∷ 0 ∷ 0 ∷ 2 ∷ 0 ∷ 2 ∷ []);
  payload = codes "hi";
}

-- A round of the reader, and whether it is stopped during the socket's read.
abbrev round : List Bytes → Bool → Round Bytes
round parts stopped_after = record {
  stopped = false;
  channels = no_message;
  parts = parts;
  addr = arrival.addr;
  port = arrival.port;
  now = arrival.now;
  stopped_after = stopped_after;
  channels_after = no_message;
}

abbrev two_parts : List Bytes
two_parts = arrival.header ∷ arrival.payload ∷ []

-- A text that only wakes the reader up, a datagram, and another one at which the reader is stopped.
abbrev rounds : List (Round Bytes)
rounds = round [] false ∷ round two_parts false ∷ round two_parts true ∷ []

read-receive_example :
    (read Bytes limits rounds reader).0
    ≡ outcome (receive limits (codes "M") (codes "t") (arrival ∷ []) empty).0 true
read-receive_example = read-receive Bytes limits rounds reader refl

abbrev interface : ℕ → ℕ → NetworkInterface
interface mtu mask = record {
  up = true;
  running = true;
  mtu = mtu;
  ipv4 = record { address = 10 ∷ 0 ∷ 0 ∷ 1 ∷ []; netmask = 255 ∷ mask ∷ mask ∷ 0 ∷ [] } ∷ [];
}

abbrev interfaces : List NetworkInterface
interfaces = interface 9000 0 ∷ interface 1400 255 ∷ []

outbound_mtu-best_example :
    (p : ℕ) × Among p (outbound_mtu interfaces locator) (routes_to locator.addr interfaces [])
    × All (IsNoBetter p (outbound_mtu interfaces locator)) (routes_to locator.addr interfaces [])
unfolding routes_to usable networks_on same_subnet
outbound_mtu-best_example = outbound_mtu-best interfaces locator (omega arith)
