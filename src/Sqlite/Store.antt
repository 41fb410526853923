-- ===== src/Sqlite/Store.antt =====
-- `impl MsgbusStore for SqliteStore`
use msgbus.Core.Error.{ok}
use msgbus.Core.Store.{MsgbusStore}
use msgbus.Sqlite.Engine.{SqlDeps}
use msgbus.Sqlite.Rows.{SqlDb}
use msgbus.Sqlite.Messages.{append_message, fetch_messages, get_head}
use msgbus.Sqlite.Tombstones.{list_heads, tombstone_range, tombstone_range_with_marker}
use msgbus.Sqlite.Replicate.{put_replicated_message}
use msgbus.Sqlite.Fifo.{enqueue_fifo, peek_fifo, ack_fifo, reject_fifo}
use msgbus.Sqlite.PeerSync.{record_peer_sync_state, list_peer_sync_states}

abbrev pub sqlite_store : SqlDeps → MsgbusStore
sqlite_store d = record {
  State = SqlDb d;
  append_message = append_message d;
  fetch_messages = fetch_messages d;
  get_head = λ db topic origin. ok (get_head d db topic origin);
  list_heads = list_heads d;
  put_replicated_message = put_replicated_message d;
  tombstone_range = tombstone_range d;
  tombstone_range_with_marker = tombstone_range_with_marker d;
  enqueue_fifo = enqueue_fifo d;
  peek_fifo = peek_fifo d;
  ack_fifo = ack_fifo d;
  reject_fifo = reject_fifo d;
  record_peer_sync_state = record_peer_sync_state d;
  list_peer_sync_states = list_peer_sync_states d;
}
