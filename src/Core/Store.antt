-- ===== src/Core/Store.antt =====
-- `MsgbusStore`: what the service asks of a store. An operation that can write gives its result with
-- the state after it; the clock and new identifiers are arguments.
use msgbus.Prelude.{ℕ, Bool, Option, List}
use msgbus.Core.Error.{Result}
use msgbus.Core.Word.{HeadId}
use msgbus.Core.Name.{Topic, QueueName, MessageId}
use msgbus.Core.Node.{NodeId}
use msgbus.Core.Message.{
  NewMessage, StoredMessage, TopicHead, PeerSyncState, ReplicateResult, FetchQuery, NewFifoMessage,
  StoredFifoMessage,
}

pub record MsgbusStore : Type 1 where
  pub State : Type 0
  pub append_message : ℕ → State → NewMessage → Result StoredMessage × State
  pub fetch_messages : State → FetchQuery → Result (List StoredMessage)
  pub get_head : State → Topic → NodeId → Result (Option HeadId)
  pub list_heads : State → Result (List TopicHead)
  pub put_replicated_message : State → StoredMessage → Result ReplicateResult × State
  pub tombstone_range : ℕ → State → Topic → NodeId → HeadId → HeadId → Result ℕ × State
  pub tombstone_range_with_marker :
      ℕ
      → ℕ
      → MessageId
      → State
      → Topic
      → NodeId
      → HeadId
      → HeadId
      → Topic
      → NodeId
      → Result (ℕ × StoredMessage) × State
  pub enqueue_fifo : ℕ → State → NewFifoMessage → Result StoredFifoMessage × State
  pub peek_fifo : State → QueueName → Result (Option StoredFifoMessage)
  pub ack_fifo : State → QueueName → MessageId → Result Bool × State
  pub reject_fifo : State → QueueName → MessageId → Result Bool × State
  pub record_peer_sync_state : State → PeerSyncState → Result (Unit {0}) × State
  pub list_peer_sync_states : State → Result (List PeerSyncState)
