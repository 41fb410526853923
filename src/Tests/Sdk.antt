-- ===== src/Tests/Sdk.antt =====
-- The theorems on the SDK at a daemon that holds five messages of one log, and on the configuration of
-- a daemon.
use msgbus.Prelude.{
  ℕ, ◌+◌, ◌≤◌, ◌<◌, ◌≡◌, refl, ap, Bool, true, false, Option, some, none, List, [], ◌∷◌, map, max,
  leb, is_some, arith,
}
use msgbus.Text.{Str, codes, trim, contains}
use msgbus.Core.Error.{ok, err, ok_injective}
use msgbus.Core.Word.{u64_max}
use msgbus.Core.Node.{node_new}
use msgbus.Server.Proto.{MessageEnvelope}
use msgbus.Server.Convert.{proto_message}
use msgbus.Server.Sync.{SyncResult, peer_spec_parse, store_box}
use msgbus.Sdk.Daemon.{Rpc, RpcStatus, Daemon, other}
use msgbus.Sdk.Client.{status, MsgbusClient, default_options}
use msgbus.Sdk.Resilient.{
  is_retryable, next_message, round, ensure_open, open_stream, subscribe_reconnecting_with_options,
}
use msgbus.Sdk.Order.{IsOrdered}
use msgbus.Sdk.Received.{IsIncreasing, receive, receive-IsIncreasing, next_message-is_retryable}
use msgbus.Msgbusd.{Args, DaemonConfig, redb, daemon_config}
use msgbus.Msgbusd.Checked.{IsPeerTls, IsServerTls, daemon_config_lem}
use msgbus.Tests.Sample.{local}
use msgbus.Tests.Redb.{from_peer}

abbrev envelope_at : ℕ → MessageEnvelope
envelope_at h = proto_message (record from_peer { head_id = h })

-- A stream is the head it brings next. It ends after the fifth message, so the client opens another.
abbrev brought : Bool → ℕ → ℕ → Rpc (Option (Option MessageEnvelope)) × ℕ × ℕ
brought true state next = (ok (some (some (envelope_at next))), next + 1, state)
brought false state next = (ok none, next, state)

abbrev pub refusal : RpcStatus
refusal = record { code = other 13; message = codes "no such call" }

abbrev pub five : Daemon
five = record {
  State = ℕ;
  Stream = ℕ;
  sleep = λ state delay. state + delay;
  health = λ state. (err refusal, state);
  ready = λ state. (err refusal, state);
  publish = λ state request. (err refusal, state);
  fetch = λ state request. (err refusal, state);
  subscribe = λ state request. (ok (max request.from_head_id 1), state);
  message = λ state next. brought (leb next 5) state next;
  get_head = λ state request. (err refusal, state);
  list_heads = λ state. (err refusal, state);
  list_peer_sync_states = λ state. (err refusal, state);
  delete_range = λ state request. (err refusal, state);
  enqueue_fifo = λ state request. (err refusal, state);
  peek_fifo = λ state queue. (err refusal, state);
  ack_fifo = λ state request. (err refusal, state);
  reject_fifo = λ state request. (err refusal, state);
}

abbrev Above : ℕ → ℕ → Type 0
Above h next = h < next

envelope_same :
    (a b : MessageEnvelope)
    → ◌≡◌ {A = Rpc (Option (Option MessageEnvelope))} (ok (some (some a))) (ok (some (some b)))
    → a ≡ b
envelope_same a b e = cc

brings :
    (h state s : ℕ) (m : MessageEnvelope) (more : Bool)
    → leb s 5 ≡ more
    → Above h s
    → (brought more state s).0 ≡ ok (some (some m))
    → (h < m.head_id) × (m.head_id < u64_max) × Above m.head_id (brought more state s).1
unfolding proto_message
brings h state s m true test above e =
    let small : s ≤ 5 = ground arith in
    let head : s ≡ m.head_id =
      ap (λ (x : MessageEnvelope). x.head_id) (envelope_same (envelope_at s) m e) in
    (omega arith, omega arith, omega arith)
brings h state s m false test above e = cc

stays : (h state s : ℕ) (more : Bool) → Above h s → Above h (brought more state s).1
stays h state s true above = omega arith
stays h state s false above = above

five-IsOrdered : IsOrdered five Above
five-IsOrdered = record {
  opens = λ state request s fits e. omega (arith, ok_injective e);
  brings = λ h state s m above e. brings h state s m (leb s 5) refl above e;
  stays = λ h state s above. stays h state s (leb s 5) above;
}

abbrev pub client : MsgbusClient
client = record { default_origin = none }

receive-IsIncreasing_example : IsIncreasing (max 1 1) (
    receive five 9 3
      (subscribe_reconnecting_with_options five client (codes "events") default_options)
      0)
receive-IsIncreasing_example =
    receive-IsIncreasing five Above five-IsOrdered client (codes "events") default_options 9 3 0
      (omega arith)

-- A daemon that refuses every subscription.
abbrev closed : Daemon
closed = record five { subscribe = λ state request. (err refusal, state) }

closed_failed :
    (next_message closed 3
      (subscribe_reconnecting_with_options closed client (codes "events") default_options)
      0).0
    ≡ some (err (status refusal))
unfolding next_message round ensure_open open_stream subscribe_reconnecting_with_options
    is_retryable
closed_failed = refl

next_message-is_retryable_example : is_retryable (status refusal) ≡ false
next_message-is_retryable_example =
    next_message-is_retryable closed 3
      (subscribe_reconnecting_with_options closed client (codes "events") default_options) 0
      (status refusal) closed_failed

abbrev args : Args
args = record {
  listen = codes "127.0.0.1:50051";
  data_path = codes "./msgbus.redb";
  storage = redb;
  peers = codes "http://peer:50051" ∷ [];
  peer_tls_ca = none;
  peer_tls_cert = none;
  peer_tls_key = none;
  peer_tls_domain = none;
  tls_cert = some (codes "cert.pem");
  tls_key = some (codes "key.pem");
  tls_client_ca = some (codes "ca.pem");
  sync_interval_ms = 10;
  sync_batch_limit = 0;
  tenant_id = codes "tenant";
  bl_name = codes "bl";
  device_id = codes "local";
}

abbrev read_pem : Str → SyncResult (List ℕ)
read_pem path = ok path

abbrev config : DaemonConfig
config = record {
  node = local;
  sync = record {
    local_node = local;
    peers = record { endpoint = codes "http://peer:50051"; expected_node = none } ∷ [];
    interval = 100;
    batch_limit = 1;
    tls = none;
  };
  server_tls = some (record {
    identity = (codes "cert.pem", codes "key.pem");
    client_ca_root = some (codes "ca.pem");
  });
}

args_accepted : daemon_config read_pem args ≡ ok config
unfolding daemon_config store_box node_new trim contains
args_accepted = refl

daemon_config_lem_example :
    (node_new args.tenant_id args.bl_name args.device_id ≡ ok config.node)
    × (config.sync.local_node ≡ config.node)
    × (config.sync.interval ≡ max args.sync_interval_ms 100)
    × (config.sync.batch_limit ≡ max args.sync_batch_limit 1)
    × (map peer_spec_parse args.peers ≡ map ok config.sync.peers)
    × (is_some args.peer_tls_cert ≡ is_some args.peer_tls_key)
    × IsPeerTls
        (record {
          ca_cert = args.peer_tls_ca;
          cert = args.peer_tls_cert;
          key = args.peer_tls_key;
          domain_name = args.peer_tls_domain;
        })
        config.sync.tls
    × IsServerTls read_pem args config.server_tls
daemon_config_lem_example = daemon_config_lem read_pem args config args_accepted
