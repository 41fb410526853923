-- ===== src/Server/Proto.antt =====
-- The messages of proto/msgbus/v1/msgbus.proto. A field of a message type can be absent; a map is
-- its list of entries.
use msgbus.Prelude.{ℕ, Bool, Option, List}
use msgbus.Text.{Str}
use msgbus.Core.Message.{Bytes}

pub record PbNodeId : Type 0 where
  pub tenant_id : Str
  pub bl_name : Str
  pub device_id : Str

pub record MessageEnvelope : Type 0 where
  pub id : Str
  pub topic : Str
  pub origin : Option PbNodeId
  pub head_id : ℕ
  pub payload : Bytes
  pub headers : List (Str × Str)
  pub created_at_ms : ℕ
  pub deleted : Bool

pub record PbTopicHead : Type 0 where
  pub topic : Str
  pub origin : Option PbNodeId
  pub head_id : ℕ

pub record PbPeerSyncState : Type 0 where
  pub peer : Str
  pub topic : Str
  pub origin : Option PbNodeId
  pub local_head : ℕ
  pub remote_head : ℕ
  pub last_synced_head : ℕ
  pub last_attempt_at_ms : ℕ
  pub last_success_at_ms : ℕ
  pub consecutive_failures : ℕ
  pub last_error : Str

pub record FifoMessage : Type 0 where
  pub id : Str
  pub queue : Str
  pub topic : Str
  pub source : Option PbNodeId
  pub target : Option PbNodeId
  pub payload : Bytes
  pub headers : List (Str × Str)
  pub created_at_ms : ℕ
  pub sequence : ℕ
  pub attempts : ℕ

pub record PublishRequest : Type 0 where
  pub topic : Str
  pub origin : Option PbNodeId
  pub payload : Bytes
  pub headers : List (Str × Str)

pub record FetchRequest : Type 0 where
  pub topic : Str
  pub origin : Option PbNodeId
  pub from_head_id : ℕ
  pub limit : ℕ

pub record SubscribeRequest : Type 0 where
  pub topic : Str
  pub origin : Option PbNodeId
  pub from_head_id : ℕ
  pub replay_limit : ℕ

pub record GetHeadRequest : Type 0 where
  pub topic : Str
  pub origin : Option PbNodeId

pub record GetHeadResponse : Type 0 where
  pub head_id : ℕ
  pub found : Bool

pub record DeleteRangeRequest : Type 0 where
  pub topic : Str
  pub origin : Option PbNodeId
  pub from_head_id : ℕ
  pub to_head_id : ℕ

pub record EnqueueFifoRequest : Type 0 where
  pub queue : Str
  pub topic : Str
  pub source : Option PbNodeId
  pub target : Option PbNodeId
  pub payload : Bytes
  pub headers : List (Str × Str)

-- AckFifoRequest and RejectFifoRequest have the same fields.
pub record AckFifoRequest : Type 0 where
  pub queue : Str
  pub message_id : Str

pub record HealthResponse : Type 0 where
  pub status : Str
  pub node : Option PbNodeId

pub record ReadyResponse : Type 0 where
  pub ready : Bool
  pub status : Str
  pub error : Str
  pub node : Option PbNodeId
