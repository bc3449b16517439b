-- ===== src/Lpss/Node.antt =====
-- modules/lpss/src/node.cpp: the tables of a node, and the bodies of its loops, each as one step. The
-- clock counts nanoseconds. A set of GUIDs is a map to true. The records of discovered writers and of
-- discovered readers differ in what they hold for a GUID. Outer `none`: a read outside of a datagram.
pub mod Tidy
pub mod Clean
pub mod Heartbeat
use rmvl.Prelude.{
  Bool, List, Option, [], false, if◌then◌else◌, length, ltb, none, some, true, ℕ, ◌*◌, ◌++◌, ◌-◌,
  ◌==◌, ◌=?◌, ◌>>=◌, ◌∷◌,
}
use rmvl.Bytes.{Bytes, bytes_eq}
use rmvl.Dict.{Dict, find, put, erase}
use rmvl.Lpss.Guid.{Guid, guid_eq, Locator, no_locator, invalid}
use rmvl.Lpss.Rsd.{
  RndpMessage, RedpMessage, Action, add, remove, EndpointType, reader, writer, rndp_header_size,
  rndp_deserialize, redp_deserialize, select_best_locator, add_reader, add_writer, remove_reader,
  remove_writer,
}
use rmvl.Lpss.Mtp.Capacity.{NetworkInterface}
use rmvl.Lpss.Mtp.Endpoints.{
  erase_node, DataWriter, DataReader, add_reader_endpoint, remove_reader_endpoint,
  add_writer_endpoint, remove_writer_endpoint,
}

pub record NodeStorageInfo : Type 0 where
  pub rndp_msg : RndpMessage
  pub last_alive : ℕ
  pub ctrl_loc : Locator

pub record Discovered (V : Type 0) : Type 0 where
  pub endpoints : Dict Guid V
  pub msgtype : Bytes

abbrev pub Table : Type 0 → Type 0
Table V = Dict Bytes (Discovered V)

module _ {V : Type 0} where
  -- `operator[]`.
  unfoldable pub discovered_at : Bytes → Table V → Discovered V
  discovered_at topic table = elim (find topic table) [
    | none ↦ record { endpoints = []; msgtype = [] }
    | some d ↦ d
  ]

  -- Whether the type of messages agrees, and the table, which has the endpoint either way.
  unfoldable pub add_discovered : Bytes → Bytes → Guid → V → Table V → Bool × Table V
  add_discovered topic msgtype guid v table =
      let d = discovered_at topic table in
      let kept = if d.msgtype =? [] then msgtype else d.msgtype in
      (
        kept =? msgtype,
        put topic (record { endpoints = put guid v d.endpoints; msgtype = kept }) table,
      )

  unfoldable pub remove_discovered : Bytes → Guid → Table V → Table V
  remove_discovered topic guid table =
      let d = discovered_at topic table in
      let left = erase guid d.endpoints in
      if length left == 0
      then erase topic table
      else put topic (record d { endpoints = left }) table

  -- The loop over the table that takes out the endpoints of a node, and the topics without any.
  unfoldable pub clean_discovered : Guid → Table V → Table V
  clean_discovered dead [] = []
  clean_discovered dead ((topic, d) ∷ table) =
      let rest = clean_discovered dead table in
      let left = erase_node dead d.endpoints in
      if length left == 0 then rest else (topic, record d { endpoints = left }) ∷ rest

  unfoldable pub clean_all : List Guid → Table V → Table V
  clean_all [] table = table
  clean_all (dead ∷ guids) table = clean_all guids (clean_discovered dead table)

unfoldable network_locators : ℕ → List Bytes → List Locator
network_locators redp_port [] = []
network_locators redp_port (addr ∷ networks) =
    record { port = redp_port; addr = addr } ∷ network_locators redp_port networks

-- What a node sends of itself, with the addresses of its networks.
unfoldable rndp_message : Guid → ℕ → Bytes → ℕ → List Bytes → RndpMessage
rndp_message uid heartbeat_period name redp_port networks = record {
  guid = uid;
  heartbeat_timeout = heartbeat_period;
  locators = network_locators redp_port networks;
  name = name;
}

-- Whether the time in an entry is longer ago than the timeout, which is in seconds.
unfoldable pub timed_out : ℕ → NodeStorageInfo → Bool
timed_out now info = ltb (info.rndp_msg.heartbeat_timeout * 1000 * 1000000) (now - info.last_alive)

unfoldable pub timeouts : ℕ → Dict Guid NodeStorageInfo → List Guid
timeouts now [] = []
timeouts now ((guid, info) ∷ nodes) =
    let rest = timeouts now nodes in if timed_out now info then guid ∷ rest else rest

unfoldable pub erase_all : List Guid → Dict Guid NodeStorageInfo → Dict Guid NodeStorageInfo
erase_all [] nodes = nodes
erase_all (guid ∷ guids) nodes = erase_all guids (erase guid nodes)

module _ (Shm : Type 0) where
  pub record Node : Type 0 where
    pub uid : Guid
    pub discovered_nodes : Dict Guid NodeStorageInfo
    pub discovered_writers : Table Bool
    pub discovered_readers : Table Locator
    pub local_writers : Dict Bytes (DataWriter Shm)
    pub local_readers : Dict Bytes (DataReader Shm)

  -- The messages for the endpoints of the node.
  unfoldable pub writer_messages : Dict Bytes (DataWriter Shm) → List RedpMessage
  writer_messages [] = []
  writer_messages ((topic, w) ∷ ws) = add_writer w.guid topic w.type ∷ writer_messages ws

  -- The port of a reader's socket is the operating system's.
  unfoldable pub reader_messages :
      (DataReader Shm → ℕ) → Dict Bytes (DataReader Shm) → List RedpMessage
  reader_messages port_of [] = []
  reader_messages port_of ((topic, r) ∷ rs) =
      add_reader r.guid topic (port_of r) r.type ∷ reader_messages port_of rs

  unfoldable pub writer_removals : Dict Bytes (DataWriter Shm) → List RedpMessage
  writer_removals [] = []
  writer_removals ((topic, w) ∷ ws) = remove_writer w.guid topic ∷ writer_removals ws

  unfoldable pub reader_removals : Dict Bytes (DataReader Shm) → List RedpMessage
  reader_removals [] = []
  reader_removals ((topic, r) ∷ rs) = remove_reader r.guid topic ∷ reader_removals rs

  unfoldable pub to_locator : Locator → List RedpMessage → List (Locator × RedpMessage)
  to_locator loc [] = []
  to_locator loc (msg ∷ msgs) = (loc, msg) ∷ to_locator loc msgs

  unfoldable pub to_nodes :
      Dict Guid NodeStorageInfo → List RedpMessage → List (Locator × RedpMessage)
  to_nodes [] msgs = []
  to_nodes ((guid, info) ∷ nodes) msgs = to_locator info.ctrl_loc msgs ++ to_nodes nodes msgs

  -- Node::shutdown: what is sent, and the node after it.
  unfoldable pub shutdown : Node → List (Locator × RedpMessage) × Node
  shutdown node = (
    to_nodes node.discovered_nodes
        (writer_removals node.local_writers ++ reader_removals node.local_readers),
    record node { local_writers = []; local_readers = [] },
  )

  -- A node that is new: its entry, which has the clock's start for the time, and what it is sent.
  unfoldable pub discover :
      (DataReader Shm → ℕ) → RndpMessage → Bytes → Node → List (Locator × RedpMessage) × Node
  discover port_of msg addr node =
      let info : NodeStorageInfo = record {
        rndp_msg = msg;
        last_alive = 0;
        ctrl_loc = no_locator;
      } in
      let ctrl_loc = select_best_locator addr msg.locators in
      if invalid ctrl_loc
      then ([], record node { discovered_nodes = put msg.guid info node.discovered_nodes })
      else (
        to_locator ctrl_loc
            (writer_messages node.local_writers ++ reader_messages port_of node.local_readers),
        record node {
          discovered_nodes =
              put msg.guid (record info { ctrl_loc = ctrl_loc }) node.discovered_nodes;
        },
      )

  -- One message in rndp_listener.
  unfoldable pub rndp_listen :
      (DataReader Shm → ℕ) → ℕ → Bytes → Bytes → Node → Option (List (Locator × RedpMessage) × Node)
  rndp_listen port_of now bytes addr node =
      if ltb (length bytes) rndp_header_size
      then some ([], node)
      else rndp_deserialize bytes >>= λ msg.
          if msg.guid =? node.uid
          then some ([], node)
          else elim (find msg.guid node.discovered_nodes) [
            | none ↦ some (discover port_of msg addr node)
            | some info ↦ some (
              [],
              record node {
                discovered_nodes =
                    put msg.guid (record info { last_alive = now }) node.discovered_nodes;
              },
            )
          ]

  unfoldable pub set_endpoint :
      Action → EndpointType → Bytes → Bytes → Guid → Locator → Node → Bool × Node
  set_endpoint add writer topic msgtype guid loc node =
      let (agrees, table) = add_discovered topic msgtype guid true node.discovered_writers in
      (agrees, record node { discovered_writers = table })
  set_endpoint add reader topic msgtype guid loc node =
      let (agrees, table) = add_discovered topic msgtype guid loc node.discovered_readers in
      (agrees, record node { discovered_readers = table })
  set_endpoint remove writer topic msgtype guid loc node = (
    true,
    record node { discovered_writers = remove_discovered topic guid node.discovered_writers },
  )
  set_endpoint remove reader topic msgtype guid loc node = (
    true,
    record node { discovered_readers = remove_discovered topic guid node.discovered_readers },
  )

  -- The table of the message's kind of endpoint after it, and whether the types of messages agree.
  unfoldable pub set_discovered : RedpMessage → Bytes → Node → Bool × Node
  set_discovered msg addr node =
      set_endpoint msg.action msg.type msg.topic msg.msgtype msg.endpoint_guid
        (record { port = msg.port; addr = addr }) node

  -- Opening a channel and the host's interfaces are the operating system's.
  module _ (create_shm_channel : Bytes → Shm) (interfaces : List NetworkInterface) where
    unfoldable pub update_writer :
        RedpMessage → Bytes → Dict Bytes (DataWriter Shm) → Dict Bytes (DataWriter Shm)
    update_writer msg addr local_writers = elim (find msg.topic local_writers) [
      | none ↦ local_writers
      | some w ↦
          put msg.topic
            (elim msg.action [
              | add ↦
                  add_reader_endpoint Shm create_shm_channel interfaces msg.endpoint_guid
                    (record { port = msg.port; addr = addr }) w
              | remove ↦ remove_reader_endpoint Shm msg.endpoint_guid w
            ])
            local_writers
    ]

    unfoldable pub update_reader :
        RedpMessage → Dict Bytes (DataReader Shm) → Dict Bytes (DataReader Shm)
    update_reader msg local_readers = elim (find msg.topic local_readers) [
      | none ↦ local_readers
      | some r ↦
          put msg.topic
            (elim msg.action [
              | add ↦ add_writer_endpoint Shm create_shm_channel msg.endpoint_guid r
              | remove ↦ remove_writer_endpoint Shm msg.endpoint_guid r
            ])
            local_readers
    ]

    unfoldable pub tell_local : EndpointType → RedpMessage → Bytes → Node → Node
    tell_local reader msg addr node = record node {
      local_writers = update_writer msg addr node.local_writers;
    }
    tell_local writer msg addr node = record node {
      local_readers = update_reader msg node.local_readers;
    }

    -- False is the exception for types of messages that do not agree, after which the local endpoints
    -- are not told.
    unfoldable pub apply_redp : RedpMessage → Bytes → Node → Bool × Node
    apply_redp msg addr node =
        let (agrees, stored) = set_discovered msg addr node in
        if agrees then (true, tell_local msg.type msg addr stored) else (false, stored)

    -- One message in redp_listener.
    unfoldable pub redp_listen : Bytes → Bytes → Node → Option (Bool × Node)
    redp_listen bytes addr node = redp_deserialize bytes >>= λ msg. some (apply_redp msg addr node)

  unfoldable pub forget_readers : Guid → Dict Bytes (DataWriter Shm) → Dict Bytes (DataWriter Shm)
  forget_readers dead [] = []
  forget_readers dead ((topic, w) ∷ ws) =
      (topic, remove_reader_endpoint Shm dead w) ∷ forget_readers dead ws

  unfoldable pub forget_writers : Guid → Dict Bytes (DataReader Shm) → Dict Bytes (DataReader Shm)
  forget_writers dead [] = []
  forget_writers dead ((topic, r) ∷ rs) =
      (topic, remove_writer_endpoint Shm dead r) ∷ forget_writers dead rs

  unfoldable pub forget_all : List Guid → Node → Node
  forget_all [] node = node
  forget_all (dead ∷ guids) node = forget_all guids (record node {
    local_writers = forget_readers dead node.local_writers;
    local_readers = forget_writers dead node.local_readers;
  })

  -- One round of heartbeat_detect.
  unfoldable pub heartbeat_detect : ℕ → Node → Node
  heartbeat_detect now node =
      let dead = timeouts now node.discovered_nodes in
      forget_all dead (record node {
        discovered_nodes = erase_all dead node.discovered_nodes;
        discovered_writers = clean_all dead node.discovered_writers;
        discovered_readers = clean_all dead node.discovered_readers;
      })
