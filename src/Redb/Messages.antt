-- ===== src/Redb/Messages.antt =====
-- `append_message`, `fetch_messages`, `get_head`, `tombstone_range` and
-- `tombstone_range_with_marker`, with the helpers that run inside a transaction. A clock reading is
-- an argument, one for each call of `now_ms`.
use msgbus.Prelude.{
  ℕ, Bool, true, false, Option, List, [], ◌∷◌, ◌++◌, ◌&&◌, ltb, leb, if◌then◌else◌, length,
  unwrap_or,
}
use msgbus.Text.{Str, codes, starts_with}
use msgbus.Text.SortedMap.{SortedMap}
use msgbus.Core.Error.{Result, ok, err, invalid_argument, ◌>>=◌}
use msgbus.Core.Word.{HeadId, saturating_add}
use msgbus.Core.Name.{Topic, MessageId}
use msgbus.Core.Node.{NodeId}
use msgbus.Core.Message.{Bytes, NewMessage, StoredMessage, FetchQuery, TombstoneRange}
use msgbus.Redb.Deps.{Deps}
use msgbus.Redb.Keys.{message_prefix, message_key, head_key, tombstone_prefix, tombstone_key}
use msgbus.Redb.Db.{Db, Txn, commit, effective_limit}

-- Does the range hold the head?
unfoldable pub covers : TombstoneRange → HeadId → Bool
covers t h = leb t.from_head_id h && leb h t.to_head_id

module _ (d : Deps) where
  unfoldable pub current_head_in_txn : Db d → Topic → NodeId → ℕ
  current_head_in_txn db topic origin =
      unwrap_or (d.get db.heads (head_key d.base64 topic origin)) 0

  -- the `for` loop of `apply_tombstone_markers`
  unfoldable pub marker_loop : Str → SortedMap Bytes → StoredMessage → Result StoredMessage
  unfolding covers
  marker_loop prefix [] message = ok message
  marker_loop prefix ((key, value) ∷ rest) message =
      let later = marker_loop prefix rest message in
      if starts_with key prefix
      then (do
        tombstone ← d.tombstone_json.decode value
        if covers tombstone message.head_id then ok (record message { deleted = true }) else later)
      else ok message

  unfoldable pub apply_tombstone_markers : Db d → StoredMessage → Result StoredMessage
  unfolding marker_loop
  apply_tombstone_markers db message =
      if message.deleted
      then ok message
      else let prefix = tombstone_prefix d.base64 message.topic message.origin in
        marker_loop prefix (d.range db.tombstones prefix) message

  unfoldable pub append_message_in_txn : ℕ → Db d → NewMessage → Txn d StoredMessage
  append_message_in_txn now db message = do
    let head = head_key d.base64 message.topic message.origin
    let next = saturating_add (unwrap_or (d.get db.heads head) 0) 1
    let db₁ : Db d = record db { heads = d.insert db.heads head next }
    let fresh : StoredMessage = record {
      id = message.id;
      topic = message.topic;
      origin = message.origin;
      head_id = next;
      payload = message.payload;
      headers = message.headers;
      created_at_ms = now;
      deleted = false;
    }
    stored ← apply_tombstone_markers db₁ fresh
    let key = message_key d.base64 stored.topic stored.origin stored.head_id
    encoded ← d.message_json.encode stored
    ok (stored, record db₁ { messages = d.insert db₁.messages key encoded })

  unfoldable pub append_message : ℕ → Db d → NewMessage → Result StoredMessage × Db d
  unfolding commit append_message_in_txn
  append_message now db message = commit d db (append_message_in_txn now db message)

  -- the `for` loop of `fetch_messages`
  unfoldable pub fetch_loop :
      Str → ℕ → List StoredMessage → SortedMap Bytes → Result (List StoredMessage)
  fetch_loop prefix limit out [] = ok out
  fetch_loop prefix limit out ((key, value) ∷ rest) = elim (starts_with key prefix) [
    | false ↦ ok out
    | true ↦ do
      message ← d.message_json.decode value
      let out' = out ++ message ∷ []
      elim (leb limit (length out')) [ true ↦ ok out' | false ↦ fetch_loop prefix limit out' rest ]
  ]

  unfoldable pub fetch_messages : Db d → FetchQuery → Result (List StoredMessage)
  unfolding fetch_loop
  fetch_messages db query =
      let prefix = message_prefix d.base64 query.topic query.origin in
      let start = message_key d.base64 query.topic query.origin query.from_head_id in
      fetch_loop prefix (effective_limit query.limit) [] (d.range db.messages start)

  unfoldable pub get_head : Db d → Topic → NodeId → Option HeadId
  get_head db topic origin = d.get db.heads (head_key d.base64 topic origin)

  -- the first `for` loop of `tombstone_range_in_txn`: the entries that become deleted
  unfoldable pub update_loop :
      Str → HeadId → SortedMap Bytes → SortedMap Bytes → Result (SortedMap Bytes)
  update_loop prefix to updates [] = ok updates
  update_loop prefix to updates ((key, value) ∷ rest) = elim (starts_with key prefix) [
    | false ↦ ok updates
    | true ↦ do
      message ← d.message_json.decode value
      elim (ltb to message.head_id) [
        | true ↦ ok updates
        | false ↦ elim message.deleted [
          | true ↦ update_loop prefix to updates rest
          | false ↦ do
            encoded ← d.message_json.encode (record message { deleted = true })
            update_loop prefix to (updates ++ (key, encoded) ∷ []) rest
        ]
      ]
  ]

  -- the second loop: the writes, and how many
  unfoldable pub write_loop : d.Table Bytes → ℕ → SortedMap Bytes → ℕ × d.Table Bytes
  write_loop messages changed [] = (changed, messages)
  write_loop messages changed ((key, value) ∷ updates) =
      write_loop (d.insert messages key value) (saturating_add changed 1) updates

  unfoldable pub tombstone_range_in_txn : ℕ → Db d → Topic → NodeId → HeadId → HeadId → Txn d ℕ
  tombstone_range_in_txn created_at_ms db topic origin from to = do
    let prefix = message_prefix d.base64 topic origin
    let start = message_key d.base64 topic origin from
    updates ← update_loop prefix to [] (d.range db.messages start)
    let written = write_loop db.messages 0 updates
    let tombstone : TombstoneRange = record {
      topic = topic;
      origin = origin;
      from_head_id = from;
      to_head_id = to;
      created_at_ms = created_at_ms;
    }
    value ← d.tombstone_json.encode tombstone
    let key = tombstone_key d.base64 topic origin from to
    ok (
      written.0,
      record db { messages = written.1; tombstones = d.insert db.tombstones key value },
    )

  unfoldable pub tombstone_range : ℕ → Db d → Topic → NodeId → HeadId → HeadId → Result ℕ × Db d
  unfolding commit
  tombstone_range now db topic origin from to =
      if ltb to from
      then (err (invalid_argument (codes "from_head_id must be <= to_head_id")), db)
      else commit d db (tombstone_range_in_txn now db topic origin from to)

  -- `now` is read for the tombstone, `now'` for the marker, whose identifier is `marker_id`
  unfoldable pub tombstone_range_with_marker :
      ℕ
      → ℕ
      → MessageId
      → Db d
      → Topic
      → NodeId
      → HeadId
      → HeadId
      → Topic
      → NodeId
      → Result (ℕ × StoredMessage) × Db d
  unfolding commit
  tombstone_range_with_marker now now' marker_id db topic origin from to marker_topic
        marker_origin =
      if ltb to from
      then (err (invalid_argument (codes "from_head_id must be <= to_head_id")), db)
      else commit d db (do
        (changed, db₁) ← tombstone_range_in_txn now db topic origin from to
        let tombstone : TombstoneRange = record {
          topic = topic;
          origin = origin;
          from_head_id = from;
          to_head_id = to;
          created_at_ms = now;
        }
        payload ← d.tombstone_json.encode tombstone
        let new_marker : NewMessage = record {
          id = marker_id;
          topic = marker_topic;
          origin = marker_origin;
          payload = payload;
          headers = [];
        }
        (marker, db₂) ← append_message_in_txn now' db₁ new_marker
        ok ((changed, marker), db₂))
