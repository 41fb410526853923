-- ===== src/Server/Sync/Connect.antt =====
-- `PeerClientTlsConfig` and `connect_peer`.
use msgbus.Prelude.{Bool, Option, none, some, ◌||◌, is_some, if◌then◌else◌}
use msgbus.Text.{Str, codes}
use msgbus.Core.Error.{ok, err, ◌>>=◌}
use msgbus.Core.Message.{Bytes}
use msgbus.Server.Sync.{SyncResult, PeerSpec, text}
use msgbus.Server.Sync.World.{World, ClientTls}

-- The paths are texts.
pub record PeerClientTlsConfig : Type 0 where
  pub ca_cert : Option Str
  pub cert : Option Str
  pub key : Option Str
  pub domain_name : Option Str

-- `PeerClientTlsConfig::is_enabled`
unfoldable pub tls_is_enabled : PeerClientTlsConfig → Bool
tls_is_enabled tls =
    is_some tls.ca_cert || is_some tls.cert || is_some tls.key || is_some tls.domain_name

module _ (w : World) where
  unfoldable pub read_optional : Option Str → SyncResult (Option Bytes)
  read_optional none = ok none
  read_optional (some path) = do bytes ← w.read_file path; ok (some bytes)

  -- the `match` on the certificate and the key
  unfoldable pub read_identity : Option Str → Option Str → SyncResult (Option (Bytes × Bytes))
  read_identity (some cert) (some key) = do
    cert_pem ← w.read_file cert
    key_pem ← w.read_file key
    ok (some (cert_pem, key_pem))
  read_identity none none = ok none
  read_identity (some cert) none =
      err (text (codes "peer TLS cert and key must be configured together"))
  read_identity none (some key) =
      err (text (codes "peer TLS cert and key must be configured together"))

  unfoldable pub client_tls : Str → PeerClientTlsConfig → SyncResult (Option ClientTls)
  unfolding read_optional read_identity
  client_tls endpoint tls = do
    ca_certificate ← read_optional tls.ca_cert
    identity ← read_identity tls.cert tls.key
    let config : ClientTls = record {
      ca_certificate = ca_certificate;
      identity = identity;
      domain_name = tls.domain_name;
    }
    configured ← w.tls_config endpoint config
    ok (some config)

  -- the `if let` on the configuration
  unfoldable pub endpoint_tls : Str → Option PeerClientTlsConfig → SyncResult (Option ClientTls)
  unfolding client_tls tls_is_enabled
  endpoint_tls endpoint none = ok none
  endpoint_tls endpoint (some tls) = if tls_is_enabled tls then client_tls endpoint tls else ok none

  -- all that is done before the connection is opened
  unfoldable pub endpoint_config : Str → Option PeerClientTlsConfig → SyncResult (Option ClientTls)
  unfolding endpoint_tls
  endpoint_config endpoint tls = do valid ← w.from_shared endpoint; endpoint_tls endpoint tls

  unfoldable pub connect_peer :
      w.State → PeerSpec → Option PeerClientTlsConfig → SyncResult (Unit {0}) × w.State
  unfolding endpoint_config
  connect_peer state peer tls = elim (endpoint_config peer.endpoint tls) [
    | err e ↦ (err e, state)
    | ok config ↦ w.connect state peer.endpoint config
  ]
