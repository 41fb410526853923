-- ===== src/Sqlite/Rows.antt =====
-- The tables of `initialize`, the columns of their rows, and the conversions. An INTEGER column of a
-- number is a natural number: what the store writes there has passed `u64_to_i64`.
use msgbus.Prelude.{ℕ, ◌-◌, ◌^◌, Bool, ◌++◌, leb, if◌then◌else◌, ◌&&◌, ◌==◌}
use msgbus.Text.{Str, codes, decimal, str_eq}
use msgbus.Core.Error.{Result, ok, err, invalid_argument, storage, ◌>>=◌}
use msgbus.Core.Name.{topic_new, queue_new, message_id_from_string}
use msgbus.Core.Message.{Bytes, StoredMessage, StoredFifoMessage}
use msgbus.Sqlite.Engine.{SqlDeps}

abbrev pub i64_max : ℕ
i64_max = 2 ^ 63 - 1

unfoldable pub u64_to_i64 : ℕ → Result ℕ
u64_to_i64 value =
    if leb value i64_max
    then ok value
    else err (invalid_argument (decimal value ++ codes " exceeds i64"))

pub record HeadRow : Type 0 where
  pub topic : Str
  pub origin_key : Str
  pub head_id : ℕ

pub record MessageRow : Type 0 where
  pub topic : Str
  pub origin_key : Str
  pub origin_json : Bytes
  pub head_id : ℕ
  pub id : Str
  pub payload : Bytes
  pub headers_json : Bytes
  pub created_at_ms : ℕ
  pub deleted : Bool

pub record TombstoneRow : Type 0 where
  pub topic : Str
  pub origin_key : Str
  pub from_head_id : ℕ
  pub to_head_id : ℕ
  pub created_at_ms : ℕ
  pub range_json : Bytes

pub record SequenceRow : Type 0 where
  pub queue : Str
  pub sequence : ℕ

pub record FifoRow : Type 0 where
  pub queue : Str
  pub sequence : ℕ
  pub id : Str
  pub topic : Str
  pub source_json : Bytes
  pub target_json : Bytes
  pub payload : Bytes
  pub headers_json : Bytes
  pub created_at_ms : ℕ
  pub attempts : ℕ

pub record PeerSyncRow : Type 0 where
  pub peer : Str
  pub topic : Str
  pub origin_key : Str
  pub state_json : Bytes

-- `WHERE topic = ?1 AND origin_key = ?2`, and with `AND head_id = ?3`
unfoldable pub of_head : Str → Str → HeadRow → Bool
of_head topic origin_key row = str_eq row.topic topic && str_eq row.origin_key origin_key

unfoldable pub of_log : Str → Str → MessageRow → Bool
of_log topic origin_key row = str_eq row.topic topic && str_eq row.origin_key origin_key

unfoldable pub at_head : Str → Str → ℕ → MessageRow → Bool
unfolding of_log
at_head topic origin_key head_id row = of_log topic origin_key row && row.head_id == head_id

module _ (d : SqlDeps) where
  pub record SqlDb : Type 0 where
    pub heads : d.Table HeadRow
    pub messages : d.Table MessageRow
    pub tombstones : d.Table TombstoneRow
    pub fifo_sequences : d.Table SequenceRow
    pub fifo_messages : d.Table FifoRow
    pub peer_sync_states : d.Table PeerSyncRow

  -- the tables of a new database
  unfoldable pub initialize : SqlDb
  initialize = record {
    heads = d.new_table;
    messages = d.new_table;
    tombstones = d.new_table;
    fifo_sequences = d.new_table;
    fifo_messages = d.new_table;
    peer_sync_states = d.new_table;
  }

  -- A transaction that is dropped before its commit changes nothing.
  abbrev pub SqlTxn : Type 0 → Type 0
  SqlTxn A = Result (A × SqlDb)

  unfoldable pub commit : {A : Type 0} → SqlDb → SqlTxn A → Result A × SqlDb
  commit db (ok (a, db')) = (ok a, db')
  commit db (err e) = (err e, db)

  -- `map_err(sql_from_msgbus)` in a row, and `map_err(storage_err)` on the row
  unfoldable pub column : {A : Type 0} → Result A → Result A
  column (ok a) = ok a
  column (err e) = err (storage (d.conversion_text e))

  unfoldable pub row_to_message : MessageRow → Result StoredMessage
  unfolding column
  row_to_message row = do
    id ← column (message_id_from_string row.id)
    topic ← column (topic_new row.topic)
    origin ← column (d.node_json.decode row.origin_json)
    headers ← column (d.headers_json.decode row.headers_json)
    ok (record {
      id = id;
      topic = topic;
      origin = origin;
      head_id = row.head_id;
      payload = row.payload;
      headers = headers;
      created_at_ms = row.created_at_ms;
      deleted = row.deleted;
    })

  unfoldable pub row_to_fifo : FifoRow → Result StoredFifoMessage
  unfolding column
  row_to_fifo row = do
    id ← column (message_id_from_string row.id)
    queue ← column (queue_new row.queue)
    topic ← column (topic_new row.topic)
    source ← column (d.node_json.decode row.source_json)
    target ← column (d.node_json.decode row.target_json)
    headers ← column (d.headers_json.decode row.headers_json)
    ok (record {
      id = id;
      queue = queue;
      topic = topic;
      source = source;
      target = target;
      payload = row.payload;
      headers = headers;
      created_at_ms = row.created_at_ms;
      sequence = row.sequence;
      attempts = row.attempts;
    })
