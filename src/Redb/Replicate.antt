-- ===== src/Redb/Replicate.antt =====
-- `put_replicated_message`: a message of a peer's log is written at its own head.
use msgbus.Prelude.{ℕ, Option, none, some, ◌++◌, ◌&&◌, ltb, ◌==◌, if◌then◌else◌, unwrap_or}
use msgbus.Text.{Str, codes, decimal}
use msgbus.Core.Error.{Result, ok, err, invalid_argument, conflict, ◌>>=◌}
use msgbus.Core.Word.{saturating_add}
use msgbus.Core.Node.{key}
use msgbus.Core.Message.{
  StoredMessage, ReplicateResult, inserted, already_present, message_eq,
  same_message_except_deleted,
}
use msgbus.Redb.Deps.{Deps}
use msgbus.Redb.Keys.{message_key, head_key}
use msgbus.Redb.Db.{Db, Txn, commit, transpose_decode}
use msgbus.Redb.Messages.{apply_tombstone_markers, current_head_in_txn}

unfoldable pub conflict_text : StoredMessage → Str
conflict_text m =
    codes "message conflict at topic="
    ++ (m.topic.text
        ++ (codes " origin=" ++ (key m.origin ++ (codes " head_id=" ++ decimal m.head_id))))

unfoldable pub gap_text : StoredMessage → ℕ → Str
gap_text m current_head =
    codes "replicated message would create a gap at topic="
    ++ (m.topic.text
        ++ (codes " origin="
            ++ (key m.origin
                ++ (codes " local_head="
                    ++ (decimal current_head ++ (codes " incoming_head=" ++ decimal m.head_id))))))

module _ (d : Deps) where
  -- `messages.insert(message_key, encode(message))`
  unfoldable pub write_message : Db d → StoredMessage → Result (Db d)
  write_message db m = do
    encoded ← d.message_json.encode m
    let at = message_key d.base64 m.topic m.origin m.head_id
    ok (record db { messages = d.insert db.messages at encoded })

  -- the block over HEADS: a head only grows
  unfoldable pub raise_head : Db d → StoredMessage → Db d
  raise_head db m =
      let at = head_key d.base64 m.topic m.origin in
      let current = unwrap_or (d.get db.heads at) 0 in
      if ltb current m.head_id then record db { heads = d.insert db.heads at m.head_id } else db

  -- the write, then the head
  unfoldable pub insert_message : Db d → StoredMessage → Txn d ReplicateResult
  unfolding write_message raise_head
  insert_message db m = do db' ← write_message db m; ok (inserted, raise_head db' m)

  -- The block over MESSAGES, by what is stored at the key. Nothing is written before the early
  -- return of `AlreadyPresent`, so the transaction that it drops leaves the database as it was.
  unfoldable pub merge_message :
      Db d → ℕ → Option StoredMessage → StoredMessage → Txn d ReplicateResult
  unfolding insert_message
  merge_message db current_head (some existing) m =
      if message_eq existing m
      then ok (already_present, db)
      else if same_message_except_deleted existing m && m.deleted
      then insert_message db m
      else err (conflict (conflict_text m))
  merge_message db current_head none m =
      if ltb (saturating_add current_head 1) m.head_id
      then err (invalid_argument (gap_text m current_head))
      else insert_message db m

  unfoldable pub put_replicated_in_txn : Db d → StoredMessage → Txn d ReplicateResult
  unfolding merge_message
  put_replicated_in_txn db message = do
    m ← apply_tombstone_markers d db message
    let at = message_key d.base64 m.topic m.origin m.head_id
    let current_head = current_head_in_txn d db m.topic m.origin
    existing ← transpose_decode d.message_json.decode (d.get db.messages at)
    merge_message db current_head existing m

  unfoldable pub put_replicated_message : Db d → StoredMessage → Result ReplicateResult × Db d
  unfolding put_replicated_in_txn commit
  put_replicated_message db message =
      if message.head_id == 0
      then (
        err (invalid_argument (codes "replicated message head_id must be greater than zero")),
        db,
      )
      else commit d db (put_replicated_in_txn db message)
