-- ===== src/Sqlite/Range.antt =====
-- Heads that are out of the range of SQLite's integers.
use msgbus.Prelude.{
  ℕ, ◌+◌, ◌<◌, ◌≡◌, refl, some, ◌==◌, leb, arith, Bool-cases, inl, inr, ◌++◌, false,
}
use msgbus.Text.{codes, decimal}
use msgbus.Core.Error.{MsgbusError, err, invalid_argument}
use msgbus.Core.Node.{key}
use msgbus.Core.Message.{NewMessage, StoredMessage}
use msgbus.Sqlite.Engine.{SqlDeps}
use msgbus.Sqlite.Rows.{i64_max, SqlDb, commit}
use msgbus.Sqlite.Messages.{
  select_head, apply_tombstone_markers, append_message_in_tx, append_message,
}
use msgbus.Sqlite.Replicate.{put_replicated_in_tx, put_replicated_message}

module _ (d : SqlDeps) where
  -- At the greatest of SQLite's integers as the head of its topic and origin, an append fails and
  -- changes nothing: no message is overwritten.
  pub append_message_full :
      (now : ℕ) (db : SqlDb d) (m : NewMessage)
      → select_head d db m.topic.text (key m.origin) ≡ some i64_max
      → (e : MsgbusError) × (append_message d now db m ≡ (err e, db))
  unfolding append_message append_message_in_tx commit
  append_message_full now db m full =
      (invalid_argument (decimal (i64_max + 1) ++ codes " exceeds i64"), rw full refl)

  -- A message of a peer at a head above SQLite's integers is refused, and changes nothing.
  pub put_replicated_message_full :
      (db : SqlDb d) (m : StoredMessage)
      → i64_max < m.head_id
      → (e : MsgbusError) × (put_replicated_message d db m ≡ (err e, db))
  unfolding put_replicated_message put_replicated_in_tx apply_tombstone_markers commit
  put_replicated_message_full db m big =
      let some_head : (m.head_id == 0) ≡ false = ground arith in
      let over : leb m.head_id i64_max ≡ false = ground arith in
      (
        invalid_argument (decimal m.head_id ++ codes " exceeds i64"),
        elim (Bool-cases m.deleted) [
          | inl gone ↦ rw (some_head, gone, over) refl
          | inr live ↦ rw (some_head, live, over) refl
        ],
      )
