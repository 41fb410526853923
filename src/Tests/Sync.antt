-- ===== src/Tests/Sync.antt =====
-- The theorems on the replay of markers and on the synchronisation, at a small store and a peer that
-- sends one message.
use msgbus.Prelude.{
  ℕ, ◌+◌, ◌<◌, ◌≡◌, ◌≢◌, refl, ap, subst, true, Option, some, none, List, [], ◌∷◌, arith, ◌⊎◌,
}
use msgbus.Text.{Str, codes, str_eq, trim, contains}
use msgbus.Text.SortedMap.{lookup, range_from, upsert}
use msgbus.Core.Error.{Outcome, ok, err, ok_injective}
use msgbus.Core.Word.{u64_max, saturating_add}
use msgbus.Core.Name.{Topic}
use msgbus.Core.Node.{NodeId, key, from_key}
use msgbus.Core.Message.{Bytes, StoredMessage, TombstoneRange}
use msgbus.Redb.Db.{Db, initialize}
use msgbus.Redb.Keys.{head_key}
use msgbus.Redb.Messages.{append_message, apply_tombstone_markers, current_head_in_txn}
use msgbus.Redb.Store.{redb_store}
use msgbus.Redb.Log.{IsLog}
use msgbus.Redb.Reach.{Reach}
use msgbus.Server.Status.{Reply, map_transpose}
use msgbus.Server.Proto.{PbNodeId, PbTopicHead, MessageEnvelope}
use msgbus.Server.Convert.{core_node, proto_message, proto_topic_head}
use msgbus.Server.Control.{replay_control_messages}
use msgbus.Server.Kept.{Reads64}
use msgbus.Server.Replay.{replay_control_messages_lem}
use msgbus.Server.Sync.{SyncError, SyncResult, PeerSpec, rsplit_once, peer_spec_parse}
use msgbus.Server.Sync.Parsed.{IsSpec, peer_spec_parse-IsSpec}
use msgbus.Server.Sync.World.{World, Responses, Fits64, Sends64}
use msgbus.Server.Sync.Connect.{PeerClientTlsConfig, connect_peer}
use msgbus.Server.Sync.Head.{Pass}
use msgbus.Server.Sync.Pass.{PeerSyncConfig, sync_peer, heads_pass, sync_once}
use msgbus.Server.Sync.Stopped.{passes, spawn_peer_sync-passes}
use msgbus.Server.Sync.Task.{spawn_peer_sync, tick, changed, sync_task}
use msgbus.Server.Sync.Reach.{Reach-Keeps, sync_task-Reach}
use msgbus.Server.Sync.SafePass.{sync_once-Ends}
use msgbus.Server.Sync.Verified.{connect_peer_half, sync_peer_lem}
use msgbus.Tests.Sample.{sample_deps, events, local}
use msgbus.Tests.Redb.{one_message, one-IsLog, from_peer}
use msgbus.Tests.Server.{peer, health_node, service}
use msgbus.Tests.Deletion.{one-Reach}

abbrev parse : Bytes → Outcome Str TombstoneRange
parse payload =
    ok (record {
      topic = events;
      origin = local;
      from_head_id = 1;
      to_head_id = 1;
      created_at_ms = 8;
    })

parse-Reads64 : Reads64 parse
unfolding Reads64
parse-Reads64 b t e = omega (arith, ap (λ (x : TombstoneRange). x.from_head_id) (ok_injective e))

few_messages : (t : Topic) (o : NodeId) → current_head_in_txn sample_deps one_message t o < u64_max
unfolding current_head_in_txn initialize append_message lookup range_from upsert str_eq key
    saturating_add apply_tombstone_markers head_key
few_messages t o = ground arith

replay_control_messages_lem_example :
    (r : Reply (Unit {0})) × (db' : Db sample_deps) × (replay_control_messages
        (redb_store sample_deps)
        parse
        (λ m. 9)
        one_message
      ≡ (some r, db'))
    × IsLog sample_deps db'
replay_control_messages_lem_example =
    replay_control_messages_lem sample_deps parse parse-Reads64 (λ m. 9) one_message one-IsLog
      few_messages

-- The second message of the log.
abbrev sent : StoredMessage
sent = record from_peer { head_id = 2 }

abbrev stream : Responses
stream = ok none ∷ ok (some (proto_message sent)) ∷ []

stream_fits : Fits64 stream
unfolding Fits64 proto_message
stream_fits = (
  λ m e. cc,
  (
    λ m e. omega (
      arith,
      ap {B = ℕ} (λ (x : Option MessageEnvelope). elim x [ none ↦ 2 | some y ↦ y.head_id ]) e,
    ),
    tt,
  ),
)

abbrev world : World
world = record {
  State = ℕ;
  read_file = λ path. ok (codes "pem");
  from_shared = λ endpoint. ok tt;
  tls_config = λ endpoint config. ok tt;
  connect = λ calls endpoint config. (ok tt, calls + 1);
  health = λ calls. (ok health_node, calls + 1);
  list_heads = λ calls. (
    ok (proto_topic_head (record { topic = events; origin = local; head_id = 2 }) ∷ []),
    calls + 1,
  );
  fetch = λ calls request. (ok stream, calls + 1);
  now = λ calls. (calls, calls + 1);
  taken_at = λ calls m. calls;
  status_text = λ e. codes "status";
}

world-Sends64 : Sends64 world
unfolding Sends64
world-Sends64 state request answers e = subst Fits64 (ok_injective e) stream_fits

abbrev config : PeerSyncConfig
config = record {
  local_node = local;
  peers = peer ∷ [];
  interval = 1_000;
  batch_limit = 100;
  tls = none;
}

abbrev pass : Pass (redb_store sample_deps) parse world
pass = (service, 0)

sync_task-Reach_example :
    Reach sample_deps
      (initialize sample_deps)
      (sync_task
        (redb_store sample_deps)
        parse
        world
        config
        (tick ∷ changed (some true) ∷ [])
        pass).0.store
sync_task-Reach_example =
    sync_task-Reach sample_deps parse parse-Reads64 world world-Sends64 (initialize sample_deps)
      config (tick ∷ changed (some true) ∷ []) pass one-Reach

abbrev half : PeerClientTlsConfig
half = record { ca_cert = none; cert = some (codes "cert.pem"); key = none; domain_name = none }

connect_peer_half_example : (e : SyncError) × (connect_peer world 0 peer (some half) ≡ (err e, 0))
connect_peer_half_example = connect_peer_half world 0 peer half (λ e. cc)

-- the outer world after the connection, after the health request and after the list of heads
abbrev connected : ℕ
connected = (connect_peer world 0 peer none).1

abbrev greeted : ℕ
greeted = (world.health connected).1

abbrev heads_listed : ℕ
heads_listed = (world.list_heads greeted).1

sync_peer_lem_example :
    ((e : SyncError) × (state' : ℕ) × (sync_peer
          (redb_store sample_deps)
          parse
          world
          (service, 0)
          local
          peer
          100
          none
        ≡ (some (err e), (service, state'))))
    ⊎ ((response : Option PbNodeId) × (node : NodeId) × (heads : List PbTopicHead) × ((connect_peer
            world 0 peer none).0
          ≡ ok tt)
        × ((world.health connected).0 ≡ ok response)
        × (map_transpose core_node response ≡ ok (some node))
        × (node ≢ local)
        × ((n : NodeId) → peer.expected_node ≡ some n → node ≡ n)
        × ((world.list_heads greeted).0 ≡ ok heads)
        × (sync_peer (redb_store sample_deps) parse world (service, 0) local peer 100 none
            ≡ heads_pass
                (redb_store sample_deps)
                parse
                world
                (service, heads_listed)
                peer
                100
                heads))
sync_peer_lem_example =
    sync_peer_lem (redb_store sample_deps) parse world 0 local peer none service 100

sync_once-Ends_example :
    (r : SyncResult (Unit {0})) × ((sync_once (redb_store sample_deps) parse world config pass).0
      ≡ some r)
    × Reach sample_deps
        (initialize sample_deps)
        (sync_once (redb_store sample_deps) parse world config pass).1.0.store
sync_once-Ends_example =
    sync_once-Ends (redb_store sample_deps) parse parse-Reads64 world world-Sends64
      (Reach sample_deps (initialize sample_deps))
      (Reach-Keeps sample_deps (initialize sample_deps)) config pass one-Reach

spawn_peer_sync-passes_example :
    spawn_peer_sync (redb_store sample_deps) parse world config 1 (tick ∷ tick ∷ []) pass
    ≡ passes (redb_store sample_deps) parse world config 1 pass
spawn_peer_sync-passes_example =
    spawn_peer_sync-passes (redb_store sample_deps) parse world config 1 (tick ∷ tick ∷ []) pass

abbrev pinned : Str
pinned = codes "http://peer:50051=tenant/bl/local"

abbrev pinned_spec : PeerSpec
pinned_spec = record { endpoint = codes "http://peer:50051"; expected_node = some local }

pinned_parsed : peer_spec_parse pinned ≡ ok pinned_spec
unfolding peer_spec_parse rsplit_once from_key trim contains
pinned_parsed = refl

peer_spec_parse-IsSpec_example : IsSpec pinned pinned_spec
peer_spec_parse-IsSpec_example = peer_spec_parse-IsSpec pinned pinned_parsed
