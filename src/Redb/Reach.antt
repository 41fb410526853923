-- ===== src/Redb/Reach.antt =====
-- The databases that the operations of the store can reach. A step is one call of an operation that
-- can write, with any arguments: the numbers of heads are in the range of u64, and no counter is at
-- its end.
pub mod Frame
pub mod Invariant
use msgbus.Prelude.{ℕ, ◌≤◌, ◌<◌}
use msgbus.Core.Word.{HeadId, u64_max}
use msgbus.Core.Name.{Topic, QueueName, MessageId}
use msgbus.Core.Node.{NodeId}
use msgbus.Core.Message.{NewMessage, StoredMessage, PeerSyncState, NewFifoMessage}
use msgbus.Redb.Deps.{Deps}
use msgbus.Redb.Db.{Db}
use msgbus.Redb.Messages.{
  current_head_in_txn, append_message, tombstone_range, tombstone_range_with_marker,
}
use msgbus.Redb.Replicate.{put_replicated_message}
use msgbus.Redb.Fifo.{enqueue_fifo, ack_fifo, reject_fifo}
use msgbus.Redb.PeerSync.{record_peer_sync_state}
use msgbus.Redb.Fifo.Queue.{last}

module _ (d : Deps) where
  pub data Step (db : Db d) : Db d → Type 0 where
    append :
        (now : ℕ) (m : NewMessage)
        → current_head_in_txn d db m.topic m.origin < u64_max
        → Step db (append_message d now db m).1
    replicate :
        (m : StoredMessage) → m.head_id ≤ u64_max → Step db (put_replicated_message d db m).1
    delete :
        (now : ℕ) (t : Topic) (o : NodeId) (from to : HeadId)
        → from ≤ u64_max
        → Step db (tombstone_range d now db t o from to).1
    delete_with_marker :
        (now now' : ℕ) (id : MessageId) (t : Topic) (o : NodeId) (from to : HeadId)
        (marker_topic : Topic) (marker_origin : NodeId)
        → from ≤ u64_max
        → current_head_in_txn d db marker_topic marker_origin < u64_max
        → Step db
            (tombstone_range_with_marker d now now' id db t o from to marker_topic marker_origin).1
    enqueue :
        (now : ℕ) (m : NewFifoMessage)
        → last d db m.queue < u64_max
        → Step db (enqueue_fifo d now db m).1
    acknowledge : (q : QueueName) (id : MessageId) → Step db (ack_fifo d db q id).1
    refuse : (q : QueueName) (id : MessageId) → Step db (reject_fifo d db q id).1
    record_state : (s : PeerSyncState) → Step db (record_peer_sync_state d db s).1

  pub data Reach (start : Db d) : Db d → Type 0 where
    here : Reach start start
    next : {db db' : Db d} → Reach start db → Step db db' → Reach start db'
