-- ===== src/Server/Sync/World.antt =====
-- What a pass of crates/msgbus-server/src/sync.rs meets: files, the transport, the peer and the
-- clock. All of it is code of other crates or another machine; each call may change its state.
use msgbus.Prelude.{ℕ, Option, List, [], ◌∷◌, ◌≤◌, some, ◌≡◌}
use msgbus.Text.{Str}
use msgbus.Core.Error.{ok, err}
use msgbus.Core.Word.{u64_max}
use msgbus.Core.Message.{Bytes, StoredMessage}
use msgbus.Server.Status.{Status, Reply}
use msgbus.Server.Proto.{PbNodeId, PbTopicHead, MessageEnvelope, FetchRequest}
use msgbus.Server.Sync.{SyncResult}

-- what `connect_peer` puts into a `ClientTlsConfig`
pub record ClientTls : Type 0 where
  pub ca_certificate : Option Bytes
  pub identity : Option (Bytes × Bytes)
  pub domain_name : Option Str

-- the answers of a stream of messages
abbrev pub Responses : Type 0
Responses = List (Reply (Option MessageEnvelope))

pub record World : Type 1 where
  pub State : Type 0
  pub read_file : Str → SyncResult Bytes
  pub from_shared : Str → SyncResult (Unit {0})
  pub tls_config : Str → ClientTls → SyncResult (Unit {0})
  pub connect : State → Str → Option ClientTls → SyncResult (Unit {0}) × State
  pub health : State → Reply (Option PbNodeId) × State
  pub list_heads : State → Reply (List PbTopicHead) × State
  pub fetch : State → FetchRequest → Reply Responses × State
  pub now : State → ℕ × State
  pub taken_at : State → StoredMessage → ℕ
  pub status_text : Status → Str

-- The heads on the wire are in the range of u64, which is the type of the field.
unfoldable pub Fits64 : Responses → Type 0
Fits64 [] = Unit
Fits64 (err e ∷ rest) = Fits64 rest
Fits64 (ok r ∷ rest) = ((m : MessageEnvelope) → r ≡ some m → m.head_id ≤ u64_max) × Fits64 rest

unfoldable pub Sends64 : World → Type 0
Sends64 w =
    (state : w.State) (request : FetchRequest) (stream : Responses)
    → (w.fetch state request).0 ≡ ok stream
    → Fits64 stream
