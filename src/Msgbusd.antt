-- ===== src/Msgbusd.antt =====
-- crates/msgbus-server/src/main.rs: what the daemon makes of its arguments, and its start. The parser
-- of the command line (clap), which also fills in defaults, and the reading of files are code of other
-- crates: the arguments and `read_file` are parameters. Paths are texts.
pub mod Checked
use msgbus.Prelude.{
  ℕ, Bool, true, false, Option, none, some, List, [], ◌∷◌, max, is_some, if◌then◌else◌,
}
use msgbus.Text.{Str, codes}
use msgbus.Core.Error.{Outcome, Result, ok, err, ◌>>=◌}
use msgbus.Core.Node.{NodeId, node_new}
use msgbus.Core.Message.{Bytes, StoredMessage, TombstoneRange}
use msgbus.Core.Store.{MsgbusStore}
use msgbus.Server.Status.{Reply}
use msgbus.Server.Control.{replay_control_messages}
use msgbus.Server.Sync.{SyncResult, PeerSpec, peer_spec_parse, text, status_box, store_box}
use msgbus.Server.Sync.Connect.{PeerClientTlsConfig, tls_is_enabled}
use msgbus.Server.Sync.Pass.{PeerSyncConfig, sync_is_enabled}

pub data StorageKind : Type 0 where
  redb sqlite : StorageKind

pub record Args : Type 0 where
  pub listen : Str
  pub data_path : Str
  pub storage : StorageKind
  pub peers : List Str
  pub peer_tls_ca : Option Str
  pub peer_tls_cert : Option Str
  pub peer_tls_key : Option Str
  pub peer_tls_domain : Option Str
  pub tls_cert : Option Str
  pub tls_key : Option Str
  pub tls_client_ca : Option Str
  pub sync_interval_ms : ℕ
  pub sync_batch_limit : ℕ
  pub tenant_id : Str
  pub bl_name : Str
  pub device_id : Str

-- what `server_tls_config` puts into a `ServerTlsConfig`
pub record ServerTls : Type 0 where
  pub identity : Bytes × Bytes
  pub client_ca_root : Option Bytes

-- what `main` has computed before it opens the store
pub record DaemonConfig : Type 0 where
  pub node : NodeId
  pub sync : PeerSyncConfig
  pub server_tls : Option ServerTls

abbrev pub enabled_config : PeerClientTlsConfig → Option PeerClientTlsConfig
enabled_config config = if tls_is_enabled config then some config else none

-- the `match` on the certificate and the key
unfoldable pub peer_pair : Option Str → Option Str → SyncResult (Unit {0})
peer_pair (some cert) (some key) = ok tt
peer_pair none none = ok tt
peer_pair (some cert) none = err (text (codes "peer TLS cert and key must be configured together"))
peer_pair none (some key) = err (text (codes "peer TLS cert and key must be configured together"))

unfoldable pub peer_tls_config : Args → SyncResult (Option PeerClientTlsConfig)
unfolding peer_pair tls_is_enabled
peer_tls_config args = do
  paired ← peer_pair args.peer_tls_cert args.peer_tls_key
  ok (
      enabled_config (record {
        ca_cert = args.peer_tls_ca;
        cert = args.peer_tls_cert;
        key = args.peer_tls_key;
        domain_name = args.peer_tls_domain;
      }))

-- `PeerSpec::parse` of each, up to the first error
unfoldable pub parse_peers : List Str → Result (List PeerSpec)
unfolding peer_spec_parse
parse_peers [] = ok []
parse_peers (value ∷ values) = do
  peer ← peer_spec_parse value
  peers ← parse_peers values
  ok (peer ∷ peers)

module _ (read_file : Str → SyncResult Bytes) where
  unfoldable pub read_client_ca : Option Str → SyncResult (Option Bytes)
  read_client_ca none = ok none
  read_client_ca (some path) = do bytes ← read_file path; ok (some bytes)

  -- the `match` of `server_tls_config`
  unfoldable pub server_pair : Option Str → Option Str → Option Str → SyncResult (Option ServerTls)
  unfolding read_client_ca
  server_pair (some cert) (some key) client_ca = do
    cert_pem ← read_file cert
    key_pem ← read_file key
    root ← read_client_ca client_ca
    ok (some (record { identity = (cert_pem, key_pem); client_ca_root = root }))
  server_pair none none client_ca =
      if is_some client_ca
      then err (text (codes "MSGBUS_TLS_CLIENT_CA requires MSGBUS_TLS_CERT and MSGBUS_TLS_KEY"))
      else ok none
  server_pair (some cert) none client_ca =
      err (text (codes "server TLS cert and key must be configured together"))
  server_pair none (some key) client_ca =
      err (text (codes "server TLS cert and key must be configured together"))

  unfoldable pub server_tls_config : Args → SyncResult (Option ServerTls)
  unfolding server_pair
  server_tls_config args = server_pair args.tls_cert args.tls_key args.tls_client_ca

  -- `main` from the arguments to the configuration
  unfoldable pub daemon_config : Args → SyncResult DaemonConfig
  unfolding store_box parse_peers peer_tls_config server_tls_config
  daemon_config args = do
    node ← store_box (node_new args.tenant_id args.bl_name args.device_id)
    peers ← store_box (parse_peers args.peers)
    peer_tls ← peer_tls_config args
    server_tls ← server_tls_config args
    let sync : PeerSyncConfig = record {
      local_node = node;
      peers = peers;
      interval = max args.sync_interval_ms 100;
      batch_limit = max args.sync_batch_limit 1;
      tls = peer_tls;
    }
    ok (record { node = node; sync = sync; server_tls = server_tls })

-- The head of `serve`: the replay of the markers, and whether the task of the synchronisation is
-- started.
module _ (s : MsgbusStore) (parse : Bytes → Outcome Str TombstoneRange) where
  abbrev pub started : PeerSyncConfig → Option (Reply (Unit {0})) → Option (SyncResult Bool)
  started sync none = none
  started sync (some (ok unit)) = some (ok (sync_is_enabled sync))
  started sync (some (err e)) = some (status_box (err e))

  unfoldable pub start :
      (StoredMessage → ℕ) → s.State → PeerSyncConfig → Option (SyncResult Bool) × s.State
  unfolding replay_control_messages status_box sync_is_enabled
  start clock store sync =
      let (replayed, store') = replay_control_messages s parse clock store in
      (started sync replayed, store')
