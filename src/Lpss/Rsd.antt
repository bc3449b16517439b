-- ===== src/Lpss/Rsd.antt =====
-- modules/lpss/src/node_rsd.cpp: the discovery messages of nodes (RNDP) and of endpoints (REDP),
-- written to and read from datagrams. A write or a read outside of the buffer is `none`.
pub mod Layout
pub mod RoundTrip
pub mod Endpoints
pub mod Overflow
use Prim.Native.Nat.{bit_or}
use rmvl.Prelude.{
  List, Option, [], if◌then◌else◌, length, not, replicate, some, suc, take, zero, ℕ, ◌%◌, ◌*◌, ◌++◌,
  ◌+◌, ◌/◌, ◌==◌, ◌=?◌, ◌^◌, ◌∷◌, ◌>>=◌,
}
use rmvl.Bytes.{
  Bytes, bytes_eq, codes, net_u16, host_of_net, object_bytes, object_of_bytes, peek, poke,
}
use rmvl.Lpss.Guid.{Guid, Locator, no_locator}

abbrev pub locator_wire_size : ℕ
locator_wire_size = 2 + 4

abbrev pub rndp_header_size : ℕ
rndp_header_size = 4 + 8 + 2

abbrev pub redp_header_size : ℕ
redp_header_size = 4 + 8 + 1

abbrev pub rndp_magic : Bytes
rndp_magic = codes "ND01"

abbrev pub redp_magic : Bytes
redp_magic = codes "ED01"

-- strcpy writes the terminating zero too.
unfoldable pub strcpy : Bytes → Bytes → Option Bytes
strcpy buf literal = poke buf 0 (literal ++ (0 ∷ []))

write_locator : Bytes → ℕ → Locator → Option Bytes
write_locator buf off l = do buf' ← poke buf off (net_u16 l.port); poke buf' (off + 2) l.addr

-- The pointer moves on by one locator's size with each write.
unfoldable pub write_locators : Bytes → ℕ → List Locator → Option Bytes
unfolding write_locator
write_locators buf off [] = some buf
write_locators buf off (l ∷ ls) = do
  buf' ← write_locator buf off l
  write_locators buf' (off + locator_wire_size) ls

read_locator : Bytes → ℕ → Option Locator
read_locator buf off = do
  net_port ← peek buf off 2
  addr ← peek buf (off + 2) 4
  some (record { port = host_of_net 0 net_port; addr = addr })

-- `n` locators, the first of them at `off`.
unfoldable pub read_locators : ℕ → Bytes → ℕ → Option (List Locator)
unfolding read_locator
read_locators zero buf off = some []
read_locators (suc n) buf off = do
  l ← read_locator buf off
  ls ← read_locators n buf (off + locator_wire_size)
  some (l ∷ ls)

pub record RndpMessage : Type 0 where
  pub guid : Guid
  pub heartbeat_timeout : ℕ
  pub locators : List Locator
  pub name : Bytes

abbrev pub default_rndp : RndpMessage
default_rndp = record {
  guid = record { full = 0 };
  heartbeat_timeout = 0;
  locators = [];
  name = [];
}

unfoldable pub rndp_serialize : RndpMessage → Option Bytes
unfolding strcpy
rndp_serialize m = do
  let num = length m.locators % 2 ^ 8
  let buf = replicate (rndp_header_size + num * locator_wire_size + 1 + length m.name) 0
  b₁ ← strcpy buf rndp_magic
  b₂ ← poke b₁ 4 (object_bytes 8 m.guid.full)
  b₃ ← poke b₂ (4 + 8) (object_bytes 1 num)
  b₄ ← poke b₃ (4 + 8 + 1) (object_bytes 1 m.heartbeat_timeout)
  b₅ ← write_locators b₄ rndp_header_size m.locators
  let name_size = length m.name % 2 ^ 8
  b₆ ← poke b₅ (rndp_header_size + num * locator_wire_size) (object_bytes 1 name_size)
  poke b₆ (rndp_header_size + num * locator_wire_size + 1) (take name_size m.name)

unfoldable pub rndp_deserialize : Bytes → Option RndpMessage
rndp_deserialize text = do
  magic ← peek text 0 4
  if not (magic =? rndp_magic) then some default_rndp else do
    guid ← peek text 4 8
    num ← peek text (4 + 8) 1
    heartbeat ← peek text (4 + 8 + 1) 1
    let n = object_of_bytes num
    locators ← read_locators n text rndp_header_size
    size ← peek text (rndp_header_size + n * locator_wire_size) 1
    name ← peek text (rndp_header_size + n * locator_wire_size + 1) (object_of_bytes size)
    some (record {
      guid = record { full = object_of_bytes guid };
      heartbeat_timeout = object_of_bytes heartbeat;
      locators = locators;
      name = name;
    })

pub data Action : Type 0 where
  remove add : Action

pub data EndpointType : Type 0 where
  reader writer : EndpointType

pub record RedpMessage : Type 0 where
  pub action : Action
  pub type : EndpointType
  pub endpoint_guid : Guid
  pub port : ℕ
  pub topic : Bytes
  pub msgtype : Bytes

-- The values of the two enumerations, and the casts back from the masked bits.
abbrev pub action_bits : Action → ℕ
action_bits remove = 0
action_bits add = 1

abbrev pub type_bits : EndpointType → ℕ
type_bits reader = 0
type_bits writer = 2

abbrev pub action_of_bits : ℕ → Action
action_of_bits b = if b == 0 then remove else add

abbrev pub type_of_bits : ℕ → EndpointType
type_of_bits b = if b == 0 then reader else writer

abbrev pub default_redp : RedpMessage
default_redp = record {
  action = remove;
  type = reader;
  endpoint_guid = record { full = 0 };
  port = 0;
  topic = [];
  msgtype = [];
}

abbrev pub add_reader : Guid → Bytes → ℕ → Bytes → RedpMessage
add_reader g topic port msgtype = record {
  action = add;
  type = reader;
  endpoint_guid = g;
  port = port;
  topic = topic;
  msgtype = msgtype;
}

abbrev pub add_writer : Guid → Bytes → Bytes → RedpMessage
add_writer g topic msgtype = record (add_reader g topic 0 msgtype) { type = writer }

abbrev pub remove_reader : Guid → Bytes → RedpMessage
remove_reader g topic = record (add_reader g topic 0 []) { action = remove }

abbrev pub remove_writer : Guid → Bytes → RedpMessage
remove_writer g topic = record (remove_reader g topic) { type = writer }

unfoldable pub redp_serialize : RedpMessage → Option Bytes
unfolding strcpy
redp_serialize m = do
  let topic_size = length m.topic % 2 ^ 8
  let msgtype_size = length m.msgtype % 2 ^ 8
  let buf = replicate (redp_header_size + 3 + topic_size + 1 + msgtype_size) 0
  b₁ ← strcpy buf redp_magic
  b₂ ← poke b₁ 4 (object_bytes 8 m.endpoint_guid.full)
  let action_type = bit_or (action_bits m.action) (type_bits m.type)
  b₃ ← poke b₂ (4 + 8) (object_bytes 1 action_type)
  b₄ ← poke b₃ redp_header_size (net_u16 m.port)
  b₅ ← poke b₄ (redp_header_size + 2) (object_bytes 1 topic_size)
  b₆ ← poke b₅ (redp_header_size + 3) (take topic_size m.topic)
  b₇ ← poke b₆ (redp_header_size + 3 + topic_size) (object_bytes 1 msgtype_size)
  poke b₇ (redp_header_size + 3 + topic_size + 1) (take msgtype_size m.msgtype)

-- `action_type & 0b01` is the byte modulo 2, and `action_type & 0b10` its second bit.
unfoldable pub redp_deserialize : Bytes → Option RedpMessage
redp_deserialize text = do
  magic ← peek text 0 4
  if not (magic =? redp_magic) then some default_redp else do
    guid ← peek text 4 8
    action_type ← peek text (4 + 8) 1
    let bits = object_of_bytes action_type
    net_port ← peek text redp_header_size 2
    size ← peek text (redp_header_size + 2) 1
    let topic_size = object_of_bytes size
    topic ← peek text (redp_header_size + 3) topic_size
    size' ← peek text (redp_header_size + 3 + topic_size) 1
    msgtype ← peek text (redp_header_size + 3 + topic_size + 1) (object_of_bytes size')
    some (record {
      action = action_of_bits (bits % 2);
      type = type_of_bits (bits / 2 % 2 * 2);
      endpoint_guid = record { full = object_of_bytes guid };
      port = host_of_net 0 net_port;
      topic = topic;
      msgtype = msgtype;
    })

-- The first locator at the address, or the value-initialised one.
unfoldable pub select_best_locator : Bytes → List Locator → Locator
select_best_locator target_ip [] = no_locator
select_best_locator target_ip (l ∷ ls) =
    if l.addr =? target_ip then l else select_best_locator target_ip ls
