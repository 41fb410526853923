-- ===== src/Redb/Store.antt =====
-- `impl MsgbusStore for RedbStore`
use msgbus.Core.Error.{ok}
use msgbus.Core.Store.{MsgbusStore}
use msgbus.Redb.Deps.{Deps}
use msgbus.Redb.Db.{Db}
use msgbus.Redb.Messages.{
  append_message, fetch_messages, get_head, tombstone_range, tombstone_range_with_marker,
}
use msgbus.Redb.Replicate.{put_replicated_message}
use msgbus.Redb.Heads.{list_heads}
use msgbus.Redb.Fifo.{enqueue_fifo, peek_fifo, ack_fifo, reject_fifo}
use msgbus.Redb.PeerSync.{record_peer_sync_state, list_peer_sync_states}

abbrev pub redb_store : Deps → MsgbusStore
redb_store d = record {
  State = Db d;
  append_message = append_message d;
  fetch_messages = fetch_messages d;
  get_head = λ db topic origin. ok (get_head d db topic origin);
  list_heads = list_heads d;
  put_replicated_message = put_replicated_message d;
  tombstone_range = tombstone_range d;
  tombstone_range_with_marker = tombstone_range_with_marker d;
  enqueue_fifo = enqueue_fifo d;
  peek_fifo = peek_fifo d;
  ack_fifo = ack_fifo d;
  reject_fifo = reject_fifo d;
  record_peer_sync_state = record_peer_sync_state d;
  list_peer_sync_states = list_peer_sync_states d;
}
