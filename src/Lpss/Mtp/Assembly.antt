-- ===== src/Lpss/Mtp/Assembly.antt =====
-- modules/lpss/src/node_rmtp.cpp: the reader's reassembly of fragments. `asm_bytes` is a size_t,
-- with its wrap-around; time is a number of clock ticks, and the two values of para::lpss_param
-- that the code reads (the build generates that object) are the fields of `Limits`.
pub mod Accounts
pub mod Invariant
pub mod Accept
pub mod Contents
pub mod Sound
pub mod Room
pub mod Parts
pub mod Step
pub mod Delivery
use rmvl.Prelude.{
  Bool, Eq, List, Option, [], arith, false, if◌then◌else◌, leb, length, list_beq_iff, ltb, none,
  not, some, suc, true, zero, ℕ, ◌%◌, ◌&&◌, ◌++◌, ◌+◌, ◌-◌, ◌==◌, ◌=?◌, ◌^◌, ◌↔◌, ◌∷◌, ◌≡◌, nat_eq,
}
use rmvl.Bytes.{Bytes, bytes_eq}
use rmvl.Dict.{Dict, find, put, erase}
use rmvl.Lpss.Mtp.Header.{ParsedFragment, parse_header}

pub record Limits : Type 0 where
  pub fragment_timeout : ℕ
  pub reassembly_max_bytes : ℕ

pub record MtpAsmKey : Type 0 where
  pub addr : Bytes
  pub port : ℕ
  pub sequence : ℕ

abbrev pub key_beq : MtpAsmKey → MtpAsmKey → Bool
key_beq a b = (a.addr =? b.addr) && (a.port == b.port && a.sequence == b.sequence)

pub key_beq_iff : (a b : MtpAsmKey) → (key_beq a b ≡ true) ↔ (a ≡ b)
key_beq_iff a b = ground (arith, list_beq_iff a.addr b.addr)

instance abbrev pub key_eq : Eq MtpAsmKey
key_eq = record { beq = key_beq; beq_iff = key_beq_iff }

-- std::map<uint16_t, std::string>, in the order of the keys.
abbrev pub Fragments : Type 0
Fragments = List (ℕ × Bytes)

pub record MtpAsm : Type 0 where
  pub total_size : ℕ
  pub fragments : Fragments
  pub bytes : ℕ
  pub updated : ℕ

-- The members `_asms` and `_asm_bytes` of a reader.
pub record Reassembly : Type 0 where
  pub asms : Dict MtpAsmKey MtpAsm
  pub asm_bytes : ℕ

abbrev pub empty : Reassembly
empty = record { asms = []; asm_bytes = 0 }

unfoldable pub add_size : ℕ → ℕ → ℕ
add_size a b = (a + b) % 2 ^ 64

unfoldable pub sub_size : ℕ → ℕ → ℕ
sub_size a b = (a + 2 ^ 64 - b) % 2 ^ 64

-- `asms.erase(it)` for the entry of a key.
unfoldable pub remove_asm : MtpAsmKey → MtpAsm → Reassembly → Reassembly
remove_asm key assembly s = record {
  asms = erase key s.asms;
  asm_bytes = sub_size s.asm_bytes assembly.bytes;
}

-- The loop erases entries as it passes them.
unfoldable pub remove_expired : ℕ → ℕ → Dict MtpAsmKey MtpAsm → ℕ → Reassembly
remove_expired timeout now [] asm_bytes = record { asms = []; asm_bytes = asm_bytes }
remove_expired timeout now ((key, a) ∷ asms) asm_bytes =
    let old = ltb timeout (now - a.updated) in
    let rest =
      remove_expired timeout now asms (if old then sub_size asm_bytes a.bytes else asm_bytes) in
    if old then rest else record rest { asms = (key, a) ∷ rest.asms }

-- The entry that was updated first, the kept key's set aside.
unfoldable pub oldest_from :
    MtpAsmKey → Dict MtpAsmKey MtpAsm → Option (MtpAsmKey × MtpAsm) → Option (MtpAsmKey × MtpAsm)
oldest_from kept [] oldest = oldest
oldest_from kept ((key, a) ∷ asms) oldest = oldest_from kept asms (
    if key =? kept then oldest else elim oldest [
      | none ↦ some (key, a)
      | some (k, b) ↦ if ltb a.updated b.updated then some (key, a) else some (k, b)
    ])

-- The loop that makes room; a round removes an entry, so the rounds are at most the entries.
unfoldable pub reserve_memory : ℕ → Limits → MtpAsmKey → ℕ → Reassembly → Bool × Reassembly
reserve_memory zero limits kept amount s =
    (leb (add_size s.asm_bytes amount) limits.reassembly_max_bytes, s)
reserve_memory (suc rounds) limits kept amount s =
    if leb (add_size s.asm_bytes amount) limits.reassembly_max_bytes
    then (true, s)
    else elim (oldest_from kept s.asms none) [
      | none ↦ (false, s)
      | some (key, a) ↦ reserve_memory rounds limits kept amount (remove_asm key a s)
    ]

unfoldable pub find_fragment : ℕ → Fragments → Option Bytes
find_fragment id [] = none
find_fragment id ((i, part) ∷ fs) = if id == i then some part else find_fragment id fs

-- `fragments.emplace` of an id that is not there.
unfoldable pub emplace_fragment : ℕ → Bytes → Fragments → Fragments
emplace_fragment id part [] = (id, part) ∷ []
emplace_fragment id part ((i, other) ∷ fs) =
    if ltb id i then (id, part) ∷ (i, other) ∷ fs else (i, other) ∷ emplace_fragment id part fs

-- The loop over the fragments: a missing id, too many bytes, or the bytes up to the last one.
pub data Scan : Type 0 where
  gap overrun : Scan
  scanned : ℕ → Scan

unfoldable pub scan : ℕ → ℕ → ℕ → Fragments → Scan
scan total_size expected total [] = scanned total
scan total_size expected total ((id, part) ∷ fs) =
    let rest = scan total_size (expected + 1) (add_size total (length part)) fs in
    if not (id == expected)
    then gap
    else if ltb total_size (add_size total (length part))
    then overrun
    else rest

unfoldable pub join_fragments : Fragments → Bytes
join_fragments [] = []
join_fragments ((_, part) ∷ fs) = part ++ join_fragments fs

-- The end of accept_fragment: the message, if it is complete.
unfoldable pub finish : MtpAsmKey → MtpAsm → Reassembly → Option Bytes × Reassembly
finish key assembly s = elim (scan assembly.total_size 0 0 assembly.fragments) [
  | gap ↦ (none, s)
  | overrun ↦ (none, remove_asm key assembly s)
  | scanned total ↦
      if not (total == assembly.total_size)
      then (none, s)
      else (some (join_fragments assembly.fragments), remove_asm key assembly s)
]

-- The new fragment is stored, once there is room for it.
unfoldable pub store_new :
    Limits → MtpAsmKey → ℕ → Bytes → MtpAsm → Reassembly → Option Bytes × Reassembly
store_new limits key fragment_id payload assembly s =
    if ltb assembly.total_size (add_size assembly.bytes (length payload))
    then (none, remove_asm key assembly s)
    else let (room, s') = reserve_memory (length s.asms) limits key (length payload) s in
      if not room
      then (none, remove_asm key assembly s')
      else let stored = record assembly {
        fragments = emplace_fragment fragment_id payload assembly.fragments;
        bytes = add_size assembly.bytes (length payload);
      } in
        finish key stored (record {
          asms = put key stored s'.asms;
          asm_bytes = add_size s'.asm_bytes (length payload);
        })

-- `assembly` is the entry of the key, found or new.
unfoldable pub store :
    Limits → ℕ → MtpAsmKey → ℕ → Bytes → MtpAsm → Reassembly → Option Bytes × Reassembly
store limits now key fragment_id payload found s =
    let assembly = record found { updated = now } in
    let s' = record s { asms = put key assembly s.asms } in
    elim (find_fragment fragment_id assembly.fragments) [
      | some part ↦
          if not (part =? payload)
          then (none, remove_asm key assembly s')
          else finish key assembly s'
      | none ↦ store_new limits key fragment_id payload assembly s'
    ]

unfoldable pub accept_parsed :
    Limits → ℕ → MtpAsmKey → ParsedFragment → Bytes → Reassembly → Option Bytes × Reassembly
accept_parsed limits now key parsed payload s = elim (find key s.asms) [
  | none ↦
      let fresh : MtpAsm = record {
        total_size = parsed.total_size;
        fragments = [];
        bytes = 0;
        updated = now;
      } in
      store limits now key parsed.fragment_id payload fresh s
  | some assembly ↦
      if not (assembly.total_size == parsed.total_size)
      then (none, remove_asm key assembly s)
      else store limits now key parsed.fragment_id payload assembly s
]

-- A datagram as the socket hands it over: when it was read, its sender, and its two parts.
pub record Arrival : Type 0 where
  pub now : ℕ
  pub addr : Bytes
  pub port : ℕ
  pub header : Bytes
  pub payload : Bytes

abbrev pub key_of : Arrival → ParsedFragment → MtpAsmKey
key_of d parsed = record { addr = d.addr; port = d.port; sequence = parsed.sequence }

unfoldable pub accept_fragment :
    Limits → Bytes → Bytes → Arrival → Reassembly → Option Bytes × Reassembly
accept_fragment limits type topic d s =
    let s' = remove_expired limits.fragment_timeout d.now s.asms s.asm_bytes in
    elim (parse_header d.header d.payload type topic) [
      | none ↦ (none, s')
      | some parsed ↦
          if ltb limits.reassembly_max_bytes parsed.total_size
          then (none, s')
          else accept_parsed limits d.now (key_of d parsed) parsed d.payload s'
    ]

-- The cache after a sequence of arrivals: the calls that the read loop makes.
unfoldable pub run : Limits → Bytes → Bytes → List Arrival → Reassembly → Reassembly
run limits type topic [] s = s
run limits type topic (d ∷ ds) s =
    run limits type topic ds (accept_fragment limits type topic d s).1

-- The messages that these calls return, in order, and the cache at the end.
unfoldable pub receive :
    Limits → Bytes → Bytes → List Arrival → Reassembly → List Bytes × Reassembly
receive limits type topic [] s = ([], s)
receive limits type topic (d ∷ ds) s =
    let (result, s') = accept_fragment limits type topic d s in
    let (messages, last) = receive limits type topic ds s' in
    (elim result [ none ↦ messages | some message ↦ message ∷ messages ], last)
