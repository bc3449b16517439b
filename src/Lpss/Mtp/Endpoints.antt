-- ===== src/Lpss/Mtp/Endpoints.antt =====
-- modules/lpss/src/node_rmtp.cpp: DataWriterBase and DataReaderBase. The shared-memory channels are
-- the operating system's: a type of handles, and what opening, writing and reading one returns.
pub mod Names
pub mod Routes
pub mod Reading
use rmvl.Prelude.{
  Bool, List, Option, [], if◌then◌else◌, none, not, some, ℕ, ◌%◌, ◌&&◌, ◌++◌, ◌+◌, ◌==◌, ◌^◌, ◌∷◌,
}
use rmvl.Bytes.{decimal, Bytes, codes}
use rmvl.Dict.{Dict, find, put, erase}
use rmvl.Lpss.Guid.{Guid, guid_eq, host, pid, Locator}
use rmvl.Lpss.Mtp.Header.{mtp_header_size}
use rmvl.Lpss.Mtp.Capacity.{NetworkInterface, outbound_mtu}
use rmvl.Lpss.Mtp.Send.{MtpWriterTarget, Datagram, send_mtp_message}
use rmvl.Lpss.Mtp.Assembly.{Limits, Reassembly, Arrival, accept_fragment}

unfoldable pub same_host : Guid → Guid → Bool
same_host a b = host a == host b

unfoldable pub same_node : Guid → Guid → Bool
same_node a b = host a == host b && pid a == pid b

unfoldable pub shm_channel_name : Guid → Guid → Bytes
shm_channel_name writer reader =
    ((codes "lpss_mtp_" ++ decimal writer.full) ++ codes "_") ++ decimal reader.full

-- The loop over a map that erases the endpoints of one node.
unfoldable pub erase_node {ℓ} : {V : Type ℓ} → Guid → Dict Guid V → Dict Guid V
erase_node guid [] = []
erase_node guid ((g, v) ∷ m) =
    let rest = erase_node guid m in if same_node g guid then rest else (g, v) ∷ rest

unfoldable pub erase_endpoint_or_node {ℓ} : {V : Type ℓ} → Guid → Dict Guid V → Dict Guid V
erase_endpoint_or_node guid m = elim (find guid m) [
  | some _ ↦ erase guid m
  | none ↦ erase_node guid m
]

module _ (Shm : Type 0) where
  pub record MtpShmTarget : Type 0 where
    pub name : Bytes
    pub locator : Locator
    pub shm : Option Shm

  pub record MtpShmSource : Type 0 where
    pub name : Bytes
    pub shm : Option Shm
    pub sequence : ℕ

  pub record DataWriter : Type 0 where
    pub guid : Guid
    pub type : Bytes
    pub topic : Bytes
    pub udpv4_targets : Dict Guid MtpWriterTarget
    pub shm_targets : Dict Guid MtpShmTarget
    pub sequence : ℕ

  pub record DataReader : Type 0 where
    pub guid : Guid
    pub type : Bytes
    pub topic : Bytes
    pub shm_sources : Dict Guid MtpShmSource
    pub cache : Reassembly

  unfoldable pub shm_target : (Bytes → Shm) → Guid → Guid → Locator → MtpShmTarget
  shm_target create_shm_channel writer reader loc =
      let name = shm_channel_name writer reader in
      record { name = name; locator = loc; shm = some (create_shm_channel name) }

  unfoldable pub add_reader_endpoint :
      (Bytes → Shm) → List NetworkInterface → Guid → Locator → DataWriter → DataWriter
  add_reader_endpoint create_shm_channel interfaces guid loc w =
      if same_host w.guid guid
      then record w {
        shm_targets = put guid (shm_target create_shm_channel w.guid guid loc) w.shm_targets;
        udpv4_targets = erase guid w.udpv4_targets;
      }
      else record w {
        udpv4_targets =
            put guid (record { locator = loc; mtu = outbound_mtu interfaces loc }) w.udpv4_targets;
        shm_targets = erase guid w.shm_targets;
      }

  unfoldable pub remove_reader_endpoint : Guid → DataWriter → DataWriter
  remove_reader_endpoint guid w = record w {
    udpv4_targets = erase_endpoint_or_node guid w.udpv4_targets;
    shm_targets = erase_endpoint_or_node guid w.shm_targets;
  }

  unfoldable pub values {ℓ} : {V : Type ℓ} → Dict Guid V → List V
  values [] = []
  values ((g, v) ∷ m) = v ∷ values m

  -- The readers that are woken up: those whose channel took the message.
  unfoldable pub notify : (Shm → Bytes → Bool) → Bytes → List MtpShmTarget → List Locator
  notify write_shm text [] = []
  notify write_shm text (t ∷ ts) =
      let rest = notify write_shm text ts in
      elim t.shm [ none ↦ rest | some shm ↦ if write_shm shm text then t.locator ∷ rest else rest ]

  -- The wake-ups and the datagrams of one message, and the writer after it.
  unfoldable pub write :
      (Shm → Bytes → Bool) → Bytes → DataWriter → List Locator × Option (List Datagram) × DataWriter
  write write_shm text w = (
    notify write_shm text (values w.shm_targets),
    send_mtp_message text w.type w.topic w.sequence (values w.udpv4_targets),
    record w { sequence = (w.sequence + 1) % 2 ^ 16 },
  )

  unfoldable pub add_writer_endpoint : (Bytes → Shm) → Guid → DataReader → DataReader
  add_writer_endpoint create_shm_channel guid r =
      if not (same_host r.guid guid)
      then r
      else let name = shm_channel_name guid r.guid in
        record r {
          shm_sources =
              put guid (record { name = name; shm = some (create_shm_channel name); sequence = 0 })
                r.shm_sources;
        }

  unfoldable pub remove_writer_endpoint : Guid → DataReader → DataReader
  remove_writer_endpoint guid r = record r {
    shm_sources = erase_endpoint_or_node guid r.shm_sources;
  }

  -- What LatestBytesSHM::read returns, and the two values that it may write.
  abbrev pub ReadShm : Type 0
  ReadShm = Shm → ℕ → Bool × Bytes × ℕ

  unfoldable pub read_shm_sources :
      ReadShm → Dict Guid MtpShmSource → Option Bytes × Dict Guid MtpShmSource
  read_shm_sources read_shm [] = (none, [])
  read_shm_sources read_shm ((g, source) ∷ m) =
      let (message, m') = read_shm_sources read_shm m in
      elim source.shm [
        | none ↦ (message, (g, source) ∷ m')
        | some shm ↦
            let (done, text, sequence) = read_shm shm source.sequence in
            let source' = record source { sequence = sequence } in
            if done then (some text, (g, source') ∷ m) else (message, (g, source') ∷ m')
      ]

  -- What one round of the loop of read sees: whether the reader is stopped before it and after the
  -- socket's read, the channels at these two points, and what the socket hands over.
  pub record Round : Type 0 where
    pub stopped : Bool
    pub channels : ReadShm
    pub parts : List Bytes
    pub addr : Bytes
    pub port : ℕ
    pub now : ℕ
    pub stopped_after : Bool
    pub channels_after : ReadShm

  -- The second half of a round. Outer `none`: the loop goes on.
  unfoldable pub take_parts : Limits → Round → DataReader → Option Bytes × DataReader
  take_parts limits i r = elim i.parts [
    | header ∷ payload ∷ [] ↦
        let d : Arrival = record {
          now = i.now;
          addr = i.addr;
          port = i.port;
          header = header;
          payload = payload;
        } in
        let (message, cache) = accept_fragment limits r.type r.topic d r.cache in
        (message, record r { cache = cache })
    | _ ↦ (none, r)
  ]

  unfoldable pub read_round : Limits → Round → DataReader → Option Bytes × DataReader
  read_round limits i r =
      if i.stopped
      then (some [], r)
      else let (early, sources) = read_shm_sources i.channels r.shm_sources in
        let r' = record r { shm_sources = sources } in
        elim early [
          | some message ↦ (some message, r')
          | none ↦
              if i.stopped_after
              then (some [], r')
              else let (late, sources') = read_shm_sources i.channels_after r'.shm_sources in
                let r'' = record r' { shm_sources = sources' } in
                elim late [ some message ↦ (some message, r'') | none ↦ take_parts limits i r'' ]
        ]

  -- The rounds of one call of read; `none` while the call still waits.
  unfoldable pub read : Limits → List Round → DataReader → Option Bytes × DataReader
  read limits [] r = (none, r)
  read limits (i ∷ is) r =
      let (result, r') = read_round limits i r in
      let rest = read limits is r' in
      elim result [ some message ↦ (some message, r') | none ↦ rest ]
