-- ===== src/Sqlite/Fifo.antt =====
-- `enqueue_fifo`, `peek_fifo`, `ack_fifo` and `reject_fifo`.
use msgbus.Prelude.{
  ℕ, Bool, true, false, Option, none, some, ◌&&◌, ◌||◌, ◌==◌, if◌then◌else◌, unwrap_or, head?,
  is_some,
}
use msgbus.Text.{Str, str_eq}
use msgbus.Core.Error.{Result, ok, err, storage, ◌>>=◌}
use msgbus.Core.Word.{saturating_add, saturating_add32}
use msgbus.Core.Name.{QueueName, MessageId, message_id_eq}
use msgbus.Core.Message.{NewFifoMessage, StoredFifoMessage}
use msgbus.Redb.Fifo.{FifoFrontAction, ack, reject}
use msgbus.Sqlite.Engine.{SqlDeps}
use msgbus.Sqlite.Rows.{u64_to_i64, SequenceRow, FifoRow, SqlDb, SqlTxn, commit, row_to_fifo}

unfoldable pub of_queue : Str → FifoRow → Bool
of_queue queue row = str_eq row.queue queue

unfoldable pub at_sequence : Str → ℕ → FifoRow → Bool
unfolding of_queue
at_sequence queue sequence row = of_queue queue row && row.sequence == sequence

-- The keys of `fifo_messages`: its primary key, and the index on `id`.
unfoldable pub breaks_fifo_key : FifoRow → FifoRow → Bool
unfolding at_sequence
breaks_fifo_key row other = at_sequence row.queue row.sequence other || str_eq other.id row.id

abbrev pub counts : Str → SequenceRow → Bool
counts queue row = str_eq row.queue queue

module _ (d : SqlDeps) where
  unfoldable pub select_sequence : SqlDb d → Str → Option ℕ
  select_sequence db queue = elim (head? (d.select (counts queue) db.fifo_sequences)) [
    | none ↦ none
    | some row ↦ some row.sequence
  ]

  -- `INSERT INTO fifo_sequences … ON CONFLICT … DO UPDATE`
  unfoldable pub upsert_sequence : SqlDb d → Str → ℕ → SqlDb d
  unfolding select_sequence
  upsert_sequence db queue sequence = elim (select_sequence db queue) [
    | some current ↦ record db {
      fifo_sequences =
          d.update (counts queue) (λ row. record row { sequence = sequence }) db.fifo_sequences;
    }
    | none ↦ record db {
      fifo_sequences = d.insert (record { queue = queue; sequence = sequence }) db.fifo_sequences;
    }
  ]

  -- `INSERT INTO fifo_messages`
  unfoldable pub insert_fifo : SqlDb d → StoredFifoMessage → Result (SqlDb d)
  unfolding u64_to_i64 breaks_fifo_key
  insert_fifo db stored = do
    sequence ← u64_to_i64 stored.sequence
    source_json ← d.node_json.encode stored.source
    target_json ← d.node_json.encode stored.target
    headers_json ← d.headers_json.encode stored.headers
    created_at_ms ← u64_to_i64 stored.created_at_ms
    let row : FifoRow = record {
      queue = stored.queue.text;
      sequence = sequence;
      id = stored.id.text;
      topic = stored.topic.text;
      source_json = source_json;
      target_json = target_json;
      payload = stored.payload;
      headers_json = headers_json;
      created_at_ms = created_at_ms;
      attempts = stored.attempts;
    }
    if is_some (head? (d.select (breaks_fifo_key row) db.fifo_messages))
        then err (storage d.constraint_text)
        else ok (record db { fifo_messages = d.insert row db.fifo_messages })

  unfoldable pub enqueue_in_tx : ℕ → SqlDb d → NewFifoMessage → SqlTxn d StoredFifoMessage
  unfolding select_sequence upsert_sequence insert_fifo saturating_add u64_to_i64
  enqueue_in_tx now db message = do
    let current = unwrap_or (select_sequence db message.queue.text) 0
    let next = saturating_add current 1
    counted ← u64_to_i64 next
    let stored : StoredFifoMessage = record {
      id = message.id;
      queue = message.queue;
      topic = message.topic;
      source = message.source;
      target = message.target;
      payload = message.payload;
      headers = message.headers;
      created_at_ms = now;
      sequence = next;
      attempts = 0;
    }
    db' ← insert_fifo (upsert_sequence db message.queue.text counted) stored
    ok (stored, db')

  unfoldable pub enqueue_fifo : ℕ → SqlDb d → NewFifoMessage → Result StoredFifoMessage × SqlDb d
  unfolding commit enqueue_in_tx
  enqueue_fifo now db message = commit d db (enqueue_in_tx now db message)

  -- `peek_fifo`, and the same query of `update_fifo_front`
  unfoldable pub peek_fifo : SqlDb d → QueueName → Result (Option StoredFifoMessage)
  unfolding of_queue row_to_fifo
  peek_fifo db queue =
      elim (head? (
        d.order_by (λ (row : FifoRow). row.sequence)
          (d.select (of_queue queue.text) db.fifo_messages))) [
            | none ↦ ok none
            | some row ↦ do m ← row_to_fifo d row; ok (some m)
          ]

  -- the `match` on the action
  unfoldable pub act : SqlDb d → QueueName → StoredFifoMessage → FifoFrontAction → Result (SqlDb d)
  unfolding at_sequence u64_to_i64 saturating_add32
  act db queue message ack = do
    sequence ← u64_to_i64 message.sequence
    ok (record db { fifo_messages = d.delete (at_sequence queue.text sequence) db.fifo_messages })
  act db queue message reject = do
    sequence ← u64_to_i64 message.sequence
    let attempts = saturating_add32 message.attempts 1
    ok (record db {
      fifo_messages =
          d.update (at_sequence queue.text sequence) (λ row. record row { attempts = attempts })
            db.fifo_messages;
    })

  -- the `match` on the front
  unfoldable pub act_on :
      SqlDb d → QueueName → MessageId → FifoFrontAction → Option StoredFifoMessage → SqlTxn d Bool
  unfolding act
  act_on db queue id action none = ok (false, db)
  act_on db queue id action (some message) =
      if message_id_eq message.id id
      then (do db' ← act db queue message action; ok (true, db'))
      else ok (false, db)

  unfoldable pub update_fifo_front :
      SqlDb d → QueueName → MessageId → FifoFrontAction → Result Bool × SqlDb d
  unfolding peek_fifo act_on commit
  update_fifo_front db queue id action =
      commit d db (do front ← peek_fifo db queue; act_on db queue id action front)

  unfoldable pub ack_fifo : SqlDb d → QueueName → MessageId → Result Bool × SqlDb d
  unfolding update_fifo_front
  ack_fifo db queue id = update_fifo_front db queue id ack

  unfoldable pub reject_fifo : SqlDb d → QueueName → MessageId → Result Bool × SqlDb d
  unfolding update_fifo_front
  reject_fifo db queue id = update_fifo_front db queue id reject
