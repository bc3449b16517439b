-- ===== src/Tests/Rsd.antt =====
-- modules/lpss/src/node_rsd.cpp and its identifiers on concrete messages.
use rmvl.Prelude.{[], arith, none, replicate, some, ◌++◌, ◌>>=◌, ◌∷◌, ◌≡◌}
use rmvl.Bytes.{codes}
use rmvl.Lpss.Guid.{
  Locator, host, pid, entity, set_host, set_pid, set_entity, make_guid, guid_parts,
}
use rmvl.Lpss.Rsd.{
  RndpMessage, rndp_serialize, rndp_deserialize, add_reader, redp_serialize, redp_deserialize,
}
use rmvl.Lpss.Rsd.RoundTrip.{rndp_deserialize-serialize}
use rmvl.Lpss.Rsd.Endpoints.{redp_deserialize-serialize}
use rmvl.Lpss.Rsd.Overflow.{rndp_serialize-overflow}

abbrev locator : Locator
locator = record { port = 7000; addr = 10 ∷ 0 ∷ 0 ∷ 2 ∷ [] }

abbrev message : RndpMessage
message = record {
  guid = make_guid 1 2 3;
  heartbeat_timeout = 2;
  locators = locator ∷ [];
  name = codes "node";
}

guid_parts_example :
    (host (make_guid 1 2 3) ≡ 1)
    × (pid (make_guid 1 2 3) ≡ 2)
    × (entity (make_guid 1 2 3) ≡ 3)
    × (set_host 4 (make_guid 1 2 3) ≡ make_guid 4 2 3)
    × (set_pid 5 (make_guid 1 2 3) ≡ make_guid 1 5 3)
    × (set_entity 6 (make_guid 1 2 3) ≡ make_guid 1 2 6)
guid_parts_example = guid_parts 1 2 3 4 5 6 (omega arith) (omega arith) (omega arith) (omega arith)

rndp_deserialize-serialize_example :
    (rndp_serialize message >>= λ text. rndp_deserialize (text ++ (0 ∷ []))) ≡ some message
unfolding make_guid
rndp_deserialize-serialize_example = rndp_deserialize-serialize message (0 ∷ []) (omega arith)

redp_deserialize-serialize_example :
    (redp_serialize (add_reader (make_guid 1 2 3) (codes "t") 7000 (codes "M")) >>= λ text.
    redp_deserialize (text ++ []))
    ≡ some (add_reader (make_guid 1 2 3) (codes "t") 7000 (codes "M"))
unfolding make_guid
redp_deserialize-serialize_example =
    redp_deserialize-serialize (add_reader (make_guid 1 2 3) (codes "t") 7000 (codes "M")) []
      (omega arith)

abbrev crowded : RndpMessage
crowded = record message { locators = replicate 256 locator }

rndp_serialize-overflow_example : rndp_serialize crowded ≡ none
rndp_serialize-overflow_example =
    rndp_serialize-overflow crowded (omega arith) (omega arith) (omega arith)
