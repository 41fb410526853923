-- ===== src/Sqlite/Tombstones.antt =====
-- `tombstone_range`, `tombstone_range_with_marker` and `list_heads`.
use msgbus.Prelude.{
  ℕ, Bool, true, List, [], ◌∷◌, ◌++◌, map, leb, ltb, if◌then◌else◌, ◌&&◌, ◌==◌, not, head?, is_some,
  length,
}
use msgbus.Text.{Str, codes, str_eq}
use msgbus.Core.Error.{Result, ok, err, invalid_argument, ◌>>=◌}
use msgbus.Core.Word.{HeadId}
use msgbus.Core.Name.{Topic, MessageId, topic_new}
use msgbus.Core.Node.{NodeId, key}
use msgbus.Core.Message.{StoredMessage, TopicHead, TombstoneRange}
use msgbus.Sqlite.Engine.{SqlDeps}
use msgbus.Sqlite.Rows.{
  u64_to_i64, HeadRow, MessageRow, TombstoneRow, SqlDb, SqlTxn, commit, column, of_log, at_head,
}
use msgbus.Sqlite.Messages.{collect_rows, append_message_in_tx}

-- the `WHERE` of the update
unfoldable pub live_in_range : Str → Str → ℕ → ℕ → MessageRow → Bool
unfolding of_log
live_in_range topic origin_key from to row =
    of_log topic origin_key row && leb from row.head_id && leb row.head_id to && not row.deleted

-- the primary key of `tombstones`
unfoldable pub same_range : TombstoneRow → TombstoneRow → Bool
same_range row other =
    str_eq other.topic row.topic
    && str_eq other.origin_key row.origin_key
    && other.from_head_id == row.from_head_id
    && other.to_head_id == row.to_head_id

unfoldable pub range_of : ℕ → Topic → NodeId → HeadId → HeadId → TombstoneRange
range_of created_at_ms topic origin from to = record {
  topic = topic;
  origin = origin;
  from_head_id = from;
  to_head_id = to;
  created_at_ms = created_at_ms;
}

module _ (d : SqlDeps) where
  -- `INSERT OR IGNORE INTO tombstones`
  unfoldable pub insert_tombstone : SqlDb d → TombstoneRow → SqlDb d
  unfolding same_range
  insert_tombstone db row =
      if is_some (head? (d.select (same_range row) db.tombstones))
      then db
      else record db { tombstones = d.insert row db.tombstones }

  unfoldable pub tombstone_range_in_tx : ℕ → SqlDb d → Topic → NodeId → HeadId → HeadId → SqlTxn d ℕ
  unfolding u64_to_i64 live_in_range range_of insert_tombstone
  tombstone_range_in_tx created_at_ms db topic origin from to = do
    first ← u64_to_i64 from
    last ← u64_to_i64 to
    let wanted = live_in_range topic.text (key origin) first last
    let changed = length (d.select wanted db.messages)
    let db₁ : SqlDb d = record db {
      messages = d.update wanted (λ row. record row { deleted = true }) db.messages;
    }
    created ← u64_to_i64 created_at_ms
    range_json ← d.range_json.encode (range_of created_at_ms topic origin from to)
    ok (
      changed,
      insert_tombstone db₁ (record {
        topic = topic.text;
        origin_key = key origin;
        from_head_id = first;
        to_head_id = last;
        created_at_ms = created;
        range_json = range_json;
      }),
    )

  unfoldable pub tombstone_range :
      ℕ → SqlDb d → Topic → NodeId → HeadId → HeadId → Result ℕ × SqlDb d
  unfolding tombstone_range_in_tx commit
  tombstone_range now db topic origin from to =
      if ltb to from
      then (err (invalid_argument (codes "from_head_id must be <= to_head_id")), db)
      else commit d db (tombstone_range_in_tx now db topic origin from to)

  unfoldable pub tombstone_range_with_marker :
      ℕ
      → ℕ
      → MessageId
      → SqlDb d
      → Topic
      → NodeId
      → HeadId
      → HeadId
      → Topic
      → NodeId
      → Result (ℕ × StoredMessage) × SqlDb d
  unfolding tombstone_range_in_tx range_of append_message_in_tx commit
  tombstone_range_with_marker now now' id db topic origin from to marker_topic marker_origin =
      if ltb to from
      then (err (invalid_argument (codes "from_head_id must be <= to_head_id")), db)
      else commit d db (do
        (changed, db₁) ← tombstone_range_in_tx now db topic origin from to
        payload ← d.range_json.encode (range_of now topic origin from to)
        (marker, db₂) ← append_message_in_tx d now' db₁ (record {
          id = id;
          topic = marker_topic;
          origin = marker_origin;
          payload = payload;
          headers = [];
        })
        ok ((changed, marker), db₂))

  -- the rows of `heads` joined with the messages at their heads
  unfoldable pub join_heads : SqlDb d → List HeadRow → List (HeadRow × MessageRow)
  unfolding at_head
  join_heads db [] = []
  join_heads db (h ∷ heads) =
      map (λ m. (h, m)) (d.select (at_head h.topic h.origin_key h.head_id) db.messages)
      ++ join_heads db heads

  unfoldable pub row_to_head : HeadRow × MessageRow → Result TopicHead
  unfolding column
  row_to_head (h, m) = do
    topic ← column d (topic_new h.topic)
    origin ← column d (d.node_json.decode m.origin_json)
    ok (record { topic = topic; origin = origin; head_id = h.head_id })

  unfoldable pub list_heads : SqlDb d → Result (List TopicHead)
  unfolding join_heads row_to_head collect_rows
  list_heads db = collect_rows d row_to_head (
      d.order_by_texts (λ (row : HeadRow × MessageRow). row.0.topic ∷ row.0.origin_key ∷ [])
        (join_heads db (d.select (λ row. true) db.heads)))
