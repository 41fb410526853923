-- ===== src/Sqlite/Messages.antt =====
-- `append_message`, `fetch_messages`, `get_head` and `apply_tombstone_markers`.
use msgbus.Prelude.{
  ℕ, Bool, true, false, Option, none, some, List, [], ◌∷◌, leb, if◌then◌else◌, ◌&&◌, ◌||◌, head?,
  unwrap_or, is_some, take,
}
use msgbus.Text.{Str, str_eq}
use msgbus.Core.Error.{Result, ok, err, storage, ◌>>=◌}
use msgbus.Core.Word.{HeadId, saturating_add}
use msgbus.Core.Name.{Topic}
use msgbus.Core.Node.{NodeId, key}
use msgbus.Core.Message.{NewMessage, StoredMessage, FetchQuery}
use msgbus.Redb.Db.{effective_limit}
use msgbus.Sqlite.Engine.{SqlDeps}
use msgbus.Sqlite.Rows.{
  u64_to_i64, MessageRow, TombstoneRow, SqlDb, SqlTxn, commit, row_to_message, of_head, of_log,
  at_head,
}

module _ (d : SqlDeps) where
  -- the rows of a selection, converted up to the first error
  unfoldable pub collect_rows : {R A : Type 0} → (R → Result A) → List R → Result (List A)
  collect_rows f [] = ok []
  collect_rows f (row ∷ rows) = do a ← f row; rest ← collect_rows f rows; ok (a ∷ rest)

  unfoldable pub fetch_messages : SqlDb d → FetchQuery → Result (List StoredMessage)
  unfolding collect_rows row_to_message u64_to_i64 of_log
  fetch_messages db query = do
    from ← u64_to_i64 query.from_head_id
    let wanted =
        λ (row : MessageRow). of_log query.topic.text (key query.origin) row && leb from row.head_id
    let found = d.order_by (λ (row : MessageRow). row.head_id) (d.select wanted db.messages)
    collect_rows (row_to_message d) (take (effective_limit query.limit) found)

  -- `SELECT head_id FROM heads` of a topic and origin
  unfoldable pub select_head : SqlDb d → Str → Str → Option ℕ
  unfolding of_head
  select_head db topic origin_key = elim (head? (d.select (of_head topic origin_key) db.heads)) [
    | none ↦ none
    | some row ↦ some row.head_id
  ]

  unfoldable pub get_head : SqlDb d → Topic → NodeId → Option HeadId
  unfolding select_head
  get_head db topic origin = select_head db topic.text (key origin)

  -- `INSERT INTO heads … ON CONFLICT … DO UPDATE`
  unfoldable pub upsert_head : SqlDb d → Str → Str → ℕ → SqlDb d
  unfolding of_head select_head
  upsert_head db topic origin_key head_id = elim (select_head db topic origin_key) [
    | some current ↦ record db {
      heads =
          d.update (of_head topic origin_key) (λ row. record row { head_id = head_id }) db.heads;
    }
    | none ↦ record db {
      heads =
          d.insert (record { topic = topic; origin_key = origin_key; head_id = head_id }) db.heads;
    }
  ]

  -- the `WHERE` of the tombstones
  unfoldable pub holds : Str → Str → ℕ → TombstoneRow → Bool
  holds topic origin_key head_id row =
      str_eq row.topic topic
      && str_eq row.origin_key origin_key
      && leb row.from_head_id head_id
      && leb head_id row.to_head_id

  unfoldable pub apply_tombstone_markers : SqlDb d → StoredMessage → Result StoredMessage
  unfolding holds u64_to_i64
  apply_tombstone_markers db message = if message.deleted then ok message else do
    head_id ← u64_to_i64 message.head_id
    let found = d.select (holds message.topic.text (key message.origin) head_id) db.tombstones
    ok (if is_some (head? found) then record message { deleted = true } else message)

  -- The keys of `messages`: its primary key, and the index on `id`.
  unfoldable pub breaks_key : MessageRow → MessageRow → Bool
  unfolding at_head
  breaks_key row other =
      at_head row.topic row.origin_key row.head_id other || str_eq other.id row.id

  -- `INSERT INTO messages` of a message
  unfoldable pub insert_message : SqlDb d → StoredMessage → Result (SqlDb d)
  unfolding u64_to_i64 breaks_key
  insert_message db message = do
    origin_json ← d.node_json.encode message.origin
    head_id ← u64_to_i64 message.head_id
    headers_json ← d.headers_json.encode message.headers
    created_at_ms ← u64_to_i64 message.created_at_ms
    let row : MessageRow = record {
      topic = message.topic.text;
      origin_key = key message.origin;
      origin_json = origin_json;
      head_id = head_id;
      id = message.id.text;
      payload = message.payload;
      headers_json = headers_json;
      created_at_ms = created_at_ms;
      deleted = message.deleted;
    }
    if is_some (head? (d.select (breaks_key row) db.messages))
        then err (storage d.constraint_text)
        else ok (record db { messages = d.insert row db.messages })

  unfoldable pub append_message_in_tx : ℕ → SqlDb d → NewMessage → SqlTxn d StoredMessage
  unfolding select_head upsert_head apply_tombstone_markers insert_message saturating_add u64_to_i64
  append_message_in_tx now db message = do
    let current = unwrap_or (select_head db message.topic.text (key message.origin)) 0
    let next = saturating_add current 1
    head_id ← u64_to_i64 next
    let db₁ = upsert_head db message.topic.text (key message.origin) head_id
    stored ← apply_tombstone_markers db₁ (record {
      id = message.id;
      topic = message.topic;
      origin = message.origin;
      head_id = next;
      payload = message.payload;
      headers = message.headers;
      created_at_ms = now;
      deleted = false;
    })
    db₂ ← insert_message db₁ stored
    ok (stored, db₂)

  unfoldable pub append_message : ℕ → SqlDb d → NewMessage → Result StoredMessage × SqlDb d
  unfolding commit append_message_in_tx
  append_message now db message = commit d db (append_message_in_tx now db message)
