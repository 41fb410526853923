-- ===== src/Redb/Fifo.antt =====
-- The queues: `enqueue_fifo`, `peek_fifo`, `ack_fifo` and `reject_fifo`.
pub mod Queue
use msgbus.Prelude.{ℕ, Bool, true, false, Option, none, some, [], ◌∷◌, if◌then◌else◌, unwrap_or}
use msgbus.Text.{Str, starts_with}
use msgbus.Text.SortedMap.{SortedMap}
use msgbus.Core.Error.{Result, ok, ◌>>=◌}
use msgbus.Core.Word.{saturating_add, saturating_add32}
use msgbus.Core.Name.{QueueName, MessageId, message_id_eq}
use msgbus.Core.Message.{Bytes, NewFifoMessage, StoredFifoMessage}
use msgbus.Redb.Deps.{Deps}
use msgbus.Redb.Keys.{fifo_sequence_key, fifo_prefix, fifo_message_key}
use msgbus.Redb.Db.{Db, Txn, commit}

pub data FifoFrontAction : Type 0 where
  ack reject : FifoFrontAction

-- What a message becomes when it is queued.
unfoldable pub queued : ℕ → ℕ → NewFifoMessage → StoredFifoMessage
queued now sequence message = record {
  id = message.id;
  queue = message.queue;
  topic = message.topic;
  source = message.source;
  target = message.target;
  payload = message.payload;
  headers = message.headers;
  created_at_ms = now;
  sequence = sequence;
  attempts = 0;
}

module _ (d : Deps) where
  unfoldable pub enqueue_in_txn : ℕ → Db d → NewFifoMessage → Txn d StoredFifoMessage
  unfolding queued
  enqueue_in_txn now db message = do
    let sequence_key = fifo_sequence_key d.base64 message.queue
    let next = saturating_add (unwrap_or (d.get db.fifo_sequences sequence_key) 0) 1
    let stored = queued now next message
    let key = fifo_message_key d.base64 stored.queue stored.sequence
    value ← d.fifo_json.encode stored
    ok (
      stored,
      record db {
        fifo_sequences = d.insert db.fifo_sequences sequence_key next;
        fifo_messages = d.insert db.fifo_messages key value;
      },
    )

  unfoldable pub enqueue_fifo : ℕ → Db d → NewFifoMessage → Result StoredFifoMessage × Db d
  unfolding commit enqueue_in_txn
  enqueue_fifo now db message = commit d db (enqueue_in_txn now db message)

  -- The first entry of a range, if it has the prefix.
  unfoldable pub front_entry : Str → SortedMap Bytes → Result (Option (Str × StoredFifoMessage))
  front_entry prefix [] = ok none
  front_entry prefix ((key, value) ∷ rest) =
      if starts_with key prefix
      then (do message ← d.fifo_json.decode value; ok (some (key, message)))
      else ok none

  unfoldable pub front : Db d → QueueName → Result (Option (Str × StoredFifoMessage))
  unfolding front_entry
  front db queue =
      let prefix = fifo_prefix d.base64 queue in
      front_entry prefix (d.range db.fifo_messages prefix)

  abbrev pub message_of : Option (Str × StoredFifoMessage) → Option StoredFifoMessage
  message_of none = none
  message_of (some (key, message)) = some message

  unfoldable pub peek_fifo : Db d → QueueName → Result (Option StoredFifoMessage)
  unfolding front
  peek_fifo db queue = do found ← front db queue; ok (message_of found)

  unfoldable pub act : Db d → Str → StoredFifoMessage → FifoFrontAction → Txn d Bool
  act db key message ack = ok (true, record db { fifo_messages = d.remove db.fifo_messages key })
  act db key message reject = do
    value ← d.fifo_json.encode (record message { attempts = saturating_add32 message.attempts 1 })
    ok (true, record db { fifo_messages = d.insert db.fifo_messages key value })

  -- the `match` on the front
  unfoldable pub act_on :
      Db d → MessageId → FifoFrontAction → Option (Str × StoredFifoMessage) → Txn d Bool
  unfolding act
  act_on db message_id action none = ok (false, db)
  act_on db message_id action (some (key, message)) =
      if message_id_eq message.id message_id then act db key message action else ok (false, db)

  unfoldable pub update_fifo_front :
      Db d → QueueName → MessageId → FifoFrontAction → Result Bool × Db d
  unfolding commit front act_on
  update_fifo_front db queue message_id action =
      commit d db (do found ← front db queue; act_on db message_id action found)

  unfoldable pub ack_fifo : Db d → QueueName → MessageId → Result Bool × Db d
  unfolding update_fifo_front
  ack_fifo db queue message_id = update_fifo_front db queue message_id ack

  unfoldable pub reject_fifo : Db d → QueueName → MessageId → Result Bool × Db d
  unfolding update_fifo_front
  reject_fifo db queue message_id = update_fifo_front db queue message_id reject
