-- ===== src/Sqlite/Replicate.antt =====
-- `put_replicated_message`.
use msgbus.Prelude.{
  ℕ, true, Option, none, some, ◌&&◌, ltb, ◌==◌, if◌then◌else◌, unwrap_or, head?, List,
}
use msgbus.Text.{codes}
use msgbus.Core.Error.{Result, ok, err, invalid_argument, conflict, ◌>>=◌}
use msgbus.Core.Word.{saturating_add}
use msgbus.Core.Node.{key}
use msgbus.Core.Message.{
  StoredMessage, ReplicateResult, inserted, already_present, message_eq,
  same_message_except_deleted,
}
use msgbus.Redb.Replicate.{conflict_text, gap_text}
use msgbus.Sqlite.Engine.{SqlDeps}
use msgbus.Sqlite.Rows.{u64_to_i64, MessageRow, SqlDb, SqlTxn, commit, row_to_message, at_head}
use msgbus.Sqlite.Messages.{apply_tombstone_markers, select_head, upsert_head, insert_message}

module _ (d : SqlDeps) where
  -- `query_row(…, row_to_message).optional()`
  unfoldable pub first_message : List MessageRow → Result (Option StoredMessage)
  unfolding row_to_message
  first_message rows = elim (head? rows) [
    | none ↦ ok none
    | some row ↦ do m ← row_to_message d row; ok (some m)
  ]

  -- `UPDATE messages SET deleted = TRUE` at one head
  unfoldable pub mark_deleted : SqlDb d → StoredMessage → ℕ → SqlDb d
  unfolding at_head
  mark_deleted db m head_id = record db {
    messages =
        d.update (at_head m.topic.text (key m.origin) head_id)
          (λ row. record row { deleted = true }) db.messages;
  }

  -- what follows the query, by the message that is stored at the head
  unfoldable pub merge_message :
      SqlDb d → ℕ → Option StoredMessage → StoredMessage → SqlTxn d ReplicateResult
  unfolding mark_deleted select_head upsert_head insert_message saturating_add
  merge_message db head_id (some existing) m =
      if message_eq existing m
      then ok (already_present, db)
      else if same_message_except_deleted existing m && m.deleted
      then ok (inserted, mark_deleted db m head_id)
      else err (conflict (conflict_text m))
  merge_message db head_id none m =
      let current = unwrap_or (select_head d db m.topic.text (key m.origin)) 0 in
      if ltb (saturating_add current 1) m.head_id
      then err (invalid_argument (gap_text m current))
      else do
        db₁ ← insert_message d db m
        ok (
          inserted,
          (if ltb current m.head_id
              then upsert_head d db₁ m.topic.text (key m.origin) head_id
              else db₁),
        )

  unfoldable pub put_replicated_in_tx : SqlDb d → StoredMessage → SqlTxn d ReplicateResult
  unfolding apply_tombstone_markers u64_to_i64 first_message merge_message
  put_replicated_in_tx db message = do
    m ← apply_tombstone_markers d db message
    head_id ← u64_to_i64 m.head_id
    existing ← first_message (d.select (at_head m.topic.text (key m.origin) head_id) db.messages)
    merge_message db head_id existing m

  unfoldable pub put_replicated_message : SqlDb d → StoredMessage → Result ReplicateResult × SqlDb d
  unfolding commit put_replicated_in_tx
  put_replicated_message db message =
      if message.head_id == 0
      then (
        err (invalid_argument (codes "replicated message head_id must be greater than zero")),
        db,
      )
      else commit d db (put_replicated_in_tx db message)
