-- ===== src/Tests/Server.antt =====
-- The service's theorems at a small store.
use msgbus.Prelude.{◌≡◌, ◌≢◌, refl, Option, none, some, List, [], ◌∷◌, map, arith, ◌⊎◌, inl, inr}
use msgbus.Text.{codes, str_eq, trim, contains}
use msgbus.Core.Error.{MsgbusError, ok, err}
use msgbus.Core.Name.{Topic, topic_eq, IsPart}
use msgbus.Core.Node.{NodeId, node_eq}
use msgbus.Core.Message.{NewMessage, StoredMessage}
use msgbus.Redb.Store.{redb_store}
use msgbus.Server.Status.{Status, status_from_error, map_transpose}
use msgbus.Server.Proto.{PbNodeId, PublishRequest, SubscribeRequest, DeleteRangeRequest}
use msgbus.Server.Convert.{core_node, core_message, proto_message}
use msgbus.Server.Service.{Service, publish, delete_range, delete_reply, delete_topic}
use msgbus.Server.Own.{IsRequested, publish_lem, delete_range_lem}
use msgbus.Server.Sync.{PeerSpec, status_box, some_node, check_identity, verify_peer_identity}
use msgbus.Server.Identity.{verify_peer_identity_lem}
use msgbus.Server.Subscribe.{LiveItem, message, lagged, live_loop}
use msgbus.Server.Live.{IsRising, those_of, live_loop-those_of}
use msgbus.Server.Roundtrip.{core_message-proto_message}
use msgbus.Tests.Sample.{sample_deps, events, local}
use msgbus.Tests.Core.{local-IsValid}
use msgbus.Tests.Redb.{one_message, from_peer}

abbrev pub service : Service (redb_store sample_deps)
service = record { store = one_message; published = [] }

abbrev greeting : PublishRequest
greeting = record { topic = codes "events"; origin = none; payload = codes "hello"; headers = [] }

publish_lem_example :
    ((e : Status) × (publish
          (redb_store sample_deps)
          local
          9
          (record { text = codes "id-3" })
          service
          greeting
        ≡ (err e, service)))
    ⊎ ((m : NewMessage) × IsRequested local (record { text = codes "id-3" }) greeting m
        × ((stored : StoredMessage)
            → ((redb_store sample_deps).append_message 9 service.store m).0 ≡ ok stored
            → publish
                (redb_store sample_deps)
                local
                9
                (record { text = codes "id-3" })
                service
                greeting
              ≡ (
                ok (proto_message stored),
                record {
                  store = ((redb_store sample_deps).append_message 9 service.store m).1;
                  published = stored ∷ [];
                },
              ))
        × ((e : MsgbusError)
            → ((redb_store sample_deps).append_message 9 service.store m).0 ≡ err e
            → publish
                (redb_store sample_deps)
                local
                9
                (record { text = codes "id-3" })
                service
                greeting
              ≡ (
                err (status_from_error e),
                record {
                  store = ((redb_store sample_deps).append_message 9 service.store m).1;
                  published = [];
                },
              )))
publish_lem_example =
    publish_lem (redb_store sample_deps) local 9 (record { text = codes "id-3" }) service greeting

abbrev follow : SubscribeRequest
follow = record { topic = codes "events"; origin = none; from_head_id = 0; replay_limit = 0 }

-- A message at a head that the replay has already brought, then an error.
abbrev live : List LiveItem
live = message from_peer ∷ lagged (codes "channel lagged by 3") ∷ []

id-IsPart : IsPart (codes "id-2")
unfolding trim contains
id-IsPart = (refl, refl)

events-IsPart : IsPart (codes "events")
unfolding trim contains
events-IsPart = (refl, refl)

core_message-proto_message_example : core_message (proto_message from_peer) ≡ ok from_peer
core_message-proto_message_example =
    core_message-proto_message from_peer id-IsPart events-IsPart local-IsValid (omega arith) tt

abbrev trim_request : DeleteRangeRequest
trim_request = record { topic = codes "events"; origin = none; from_head_id = 1; to_head_id = 1 }

delete_range_lem_example :
    ((e : Status) × (delete_range
          (redb_store sample_deps)
          local
          9
          9
          (record { text = codes "id-4" })
          service
          trim_request
        ≡ (err e, service)))
    ⊎ ((t : Topic) × (marker : Topic) × (t.text ≢ delete_topic)
        × (delete_range
              (redb_store sample_deps)
              local
              9
              9
              (record { text = codes "id-4" })
              service
              trim_request
            ≡ delete_reply (redb_store sample_deps) service (
                (redb_store sample_deps).tombstone_range_with_marker 9 9
                  (record { text = codes "id-4" })
                  service.store
                  t
                  local
                  1
                  1
                  marker
                  local)))
delete_range_lem_example =
    delete_range_lem (redb_store sample_deps) local 9 9 (record { text = codes "id-4" }) service
      trim_request

abbrev pub remote : NodeId
remote = record { tenant_id = codes "tenant"; bl_name = codes "bl"; device_id = codes "remote" }

abbrev pub peer : PeerSpec
peer = record { endpoint = codes "http://peer:50051"; expected_node = some remote }

abbrev pub health_node : Option PbNodeId
health_node =
    some (record { tenant_id = codes "tenant"; bl_name = codes "bl"; device_id = codes "remote" })

peer_verified : verify_peer_identity local peer health_node ≡ ok tt
unfolding verify_peer_identity status_box map_transpose core_node trim contains some_node
    check_identity node_eq
peer_verified = refl

verify_peer_identity_lem_example :
    (n : NodeId) × (map_transpose core_node health_node ≡ ok (some n))
    × (n ≢ local)
    × ((n' : NodeId) → peer.expected_node ≡ some n' → n ≡ n')
verify_peer_identity_lem_example = verify_peer_identity_lem local peer health_node peer_verified

-- One message of the log, one of another node, and the next of the log.
abbrev channel : List StoredMessage
channel =
    record from_peer { head_id = 2 }
    ∷ record from_peer { origin = record local { device_id = codes "peer" } }
    ∷ record from_peer { head_id = 3 }
    ∷ []

channel-IsRising : IsRising events local 1 channel
unfolding IsRising topic_eq node_eq str_eq
channel-IsRising = inl (refl, omega arith, inr (refl, inl (refl, omega arith, tt)))

live_loop-those_of_example :
    live_loop events local 1 (map message channel) ≡ map ok (those_of events local channel)
live_loop-those_of_example = live_loop-those_of events local 1 channel channel-IsRising
