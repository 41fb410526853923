-- ===== src/Sdk/Daemon.antt =====
-- What the SDK meets: the generated client, whose calls go to a daemon, with the codes of tonic. The
-- calls are code of other crates; each may change the state of the world.
use msgbus.Prelude.{ℕ, Bool, Option, List}
use msgbus.Text.{Str}
use msgbus.Core.Error.{Outcome}
use msgbus.Server.Proto.{
  MessageEnvelope, PbTopicHead, PbPeerSyncState, FifoMessage, PublishRequest, FetchRequest,
  SubscribeRequest, GetHeadRequest, GetHeadResponse, DeleteRangeRequest, EnqueueFifoRequest,
  AckFifoRequest, HealthResponse, ReadyResponse,
}

-- the codes of tonic that the SDK names; `other` is any other code, by its number
pub data Code : Type 0 where
  unavailable deadline_exceeded aborted cancelled : Code
  other : ℕ → Code

pub record RpcStatus : Type 0 where
  pub code : Code
  pub message : Str

-- The result of a call of the generated client.
abbrev pub Rpc : Type 0 → Type 0
Rpc = Outcome RpcStatus

-- A call takes its request and gives the fields of its response. A stream of a fetch is the list of
-- what it brings; a stream of a subscription brings one response at a time.
pub record Daemon : Type 1 where
  pub State : Type 0
  pub Stream : Type 0
  pub sleep : State → ℕ → State
  pub health : State → Rpc HealthResponse × State
  pub ready : State → Rpc ReadyResponse × State
  pub publish : State → PublishRequest → Rpc (Option MessageEnvelope) × State
  pub fetch : State → FetchRequest → Rpc (List (Rpc (Option MessageEnvelope))) × State
  pub subscribe : State → SubscribeRequest → Rpc Stream × State
  pub message : State → Stream → Rpc (Option (Option MessageEnvelope)) × Stream × State
  pub get_head : State → GetHeadRequest → Rpc GetHeadResponse × State
  pub list_heads : State → Rpc (List PbTopicHead) × State
  pub list_peer_sync_states : State → Rpc (List PbPeerSyncState) × State
  pub delete_range : State → DeleteRangeRequest → Rpc ℕ × State
  pub enqueue_fifo : State → EnqueueFifoRequest → Rpc (Option FifoMessage) × State
  pub peek_fifo : State → Str → Rpc (Option FifoMessage) × State
  pub ack_fifo : State → AckFifoRequest → Rpc Bool × State
  pub reject_fifo : State → AckFifoRequest → Rpc Bool × State
