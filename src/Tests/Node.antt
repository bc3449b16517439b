-- ===== src/Tests/Node.antt =====
-- modules/lpss/src/node.cpp on a small node.
use rmvl.Prelude.{Bool, [], ap, arith, none, refl, some, sym, true, ℕ, ◌++◌, ◌>>=◌, ◌∙◌, ◌∷◌, ◌≡◌}
use rmvl.Bytes.{Bytes, codes, object_bytes, bytes_eq}
use rmvl.Dict.{Dict, find}
use rmvl.Lpss.Guid.{guid_eq, no_locator}
use rmvl.Lpss.Rsd.{RndpMessage, RedpMessage, add_reader, rndp_deserialize, redp_deserialize}
use rmvl.Lpss.Rsd.Layout.{locator_bytes, rndp_wire, IsRndp, rndp_serialize-wire}
use rmvl.Lpss.Rsd.RoundTrip.{rndp_deserialize-serialize}
use rmvl.Lpss.Rsd.Endpoints.{IsRedp, redp_wire, redp_serialize-wire, redp_deserialize-serialize}
use rmvl.Lpss.Node.{
  NodeStorageInfo, Discovered, timed_out, Node, discover, rndp_listen, apply_redp, redp_listen,
  heartbeat_detect,
}
use rmvl.Lpss.Node.Clean.{IsCleanOf}
use rmvl.Lpss.Node.Heartbeat.{heartbeat_detect_lem, heartbeat_detect-discover}
use rmvl.Lpss.Node.Tidy.{IsTidyNode, redp_listen-IsTidyNode}

abbrev message : RndpMessage
message = record {
  guid = record { full = 7 };
  heartbeat_timeout = 2;
  locators = [];
  name = codes "n";
}

abbrev old : NodeStorageInfo
old = record { rndp_msg = message; last_alive = 5; ctrl_loc = no_locator }

abbrev young : NodeStorageInfo
young = record {
  rndp_msg = record message { guid = record { full = 4294967296 } };
  last_alive = 2999999999;
  ctrl_loc = no_locator;
}

abbrev known : Dict Bytes (Discovered Bool)
known =
    (codes "t", record { endpoints = (record { full = 9 }, true) ∷ []; msgtype = codes "M" }) ∷ []

abbrev node : Node ℕ
node = record {
  uid = record { full = 1 };
  discovered_nodes = (record { full = 7 }, old) ∷ (record { full = 4294967296 }, young) ∷ [];
  discovered_writers = known;
  discovered_readers = [];
  local_writers = [];
  local_readers = [];
}

heartbeat_detect_lem_example :
    let after = heartbeat_detect ℕ 3000000000 node in
    (find (record { full = 4294967296 }) after.discovered_nodes ≡ some young)
    × (IsCleanOf (record { full = 7 }) after.discovered_writers
        × IsCleanOf (record { full = 7 }) after.discovered_readers)
unfolding timed_out find
heartbeat_detect_lem_example =
    heartbeat_detect_lem ℕ 3000000000 node (record { full = 4294967296 }) (record { full = 7 })
      young old (refl, (refl, tt)) refl refl refl

message_fits : IsRndp message
message_fits = omega arith

abbrev text : Bytes
text = rndp_wire message ++ []

text_read : rndp_deserialize text ≡ some message
text_read =
    ap (λ o. o >>= λ t. rndp_deserialize (t ++ [])) (sym (rndp_serialize-wire message message_fits))
    ∙ rndp_deserialize-serialize message [] message_fits

abbrev lonely : Node ℕ
lonely = record node { discovered_nodes = [] }

listened :
    rndp_listen ℕ (λ r. 0) 4000000000 text (10 ∷ 0 ∷ 0 ∷ 2 ∷ []) lonely
    ≡ some (discover ℕ (λ r. 0) message (10 ∷ 0 ∷ 0 ∷ 2 ∷ []) lonely)
unfolding rndp_listen find object_bytes locator_bytes
listened = rw (rndp_listen, text_read) refl

heartbeat_detect-discover_example :
    find
      (record { full = 7 })
      (heartbeat_detect ℕ 4000000001
        (discover ℕ (λ r. 0) message (10 ∷ 0 ∷ 0 ∷ 2 ∷ []) lonely).1).discovered_nodes
    ≡ none
unfolding find object_bytes locator_bytes
heartbeat_detect-discover_example =
    heartbeat_detect-discover ℕ (λ r. 0) 4000000000 4000000001 text (10 ∷ 0 ∷ 0 ∷ 2 ∷ []) message
      lonely _ tt text_read refl refl refl (omega arith) listened

abbrev endpoint : RedpMessage
endpoint = add_reader (record { full = 9 }) (codes "t") 7000 (codes "M")

endpoint_fits : IsRedp endpoint
endpoint_fits = omega arith

abbrev endpoint_text : Bytes
endpoint_text = redp_wire endpoint endpoint_fits ++ []

endpoint_read : redp_deserialize endpoint_text ≡ some endpoint
endpoint_read =
    ap (λ o. o >>= λ t. redp_deserialize (t ++ []))
      (sym (redp_serialize-wire endpoint endpoint_fits))
    ∙ redp_deserialize-serialize endpoint [] endpoint_fits

applied :
    redp_listen ℕ (λ name. 0) [] endpoint_text (10 ∷ 0 ∷ 0 ∷ 2 ∷ []) node
    ≡ some (apply_redp ℕ (λ name. 0) [] endpoint (10 ∷ 0 ∷ 0 ∷ 2 ∷ []) node)
unfolding redp_listen
applied = rw (redp_listen, endpoint_read) refl

redp_listen-IsTidyNode_example :
    IsTidyNode ℕ (apply_redp ℕ (λ name. 0) [] endpoint (10 ∷ 0 ∷ 0 ∷ 2 ∷ []) node).1
    × IsTidyNode ℕ (heartbeat_detect ℕ 3000000000 node)
redp_listen-IsTidyNode_example =
    redp_listen-IsTidyNode ℕ (λ name. 0) [] endpoint_text (10 ∷ 0 ∷ 0 ∷ 2 ∷ []) 3000000000 node _
      (record { writers = (omega arith, tt); readers = tt }) applied
