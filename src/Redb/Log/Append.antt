-- ===== src/Redb/Log/Append.antt =====
-- `append_message` on a log.
use msgbus.Prelude.{ℕ, ◌+◌, ◌<◌, ◌≡◌, true, false, arith, ltb, lt→ltb}
use msgbus.Core.Error.{ok}
use msgbus.Core.Word.{u64_max, saturating_add, saturating_add_exact}
use msgbus.Core.Message.{Bytes, NewMessage, StoredMessage}
use msgbus.Redb.Deps.{Deps}
use msgbus.Redb.Keys.{head_key}
use msgbus.Redb.Db.{Db, commit}
use msgbus.Redb.Messages.{
  current_head_in_txn, apply_tombstone_markers, append_message, append_message_in_txn,
}
use msgbus.Redb.Replicate.{raise_head}
use msgbus.Redb.Markers.{is_marked, apply_tombstone_markers_lem}
use msgbus.Redb.Log.{IsLog, log_write}
use msgbus.Redb.Log.Write.{log_write-IsLog}

module _ (d : Deps) where
  -- The message as `append_message` stores it: at the next head, and deleted if a tombstone was
  -- there first.
  unfoldable pub appended : ℕ → Db d → NewMessage → StoredMessage
  appended now db m =
      let next = current_head_in_txn d db m.topic m.origin + 1 in
      record {
        id = m.id;
        topic = m.topic;
        origin = m.origin;
        head_id = next;
        payload = m.payload;
        headers = m.headers;
        created_at_ms = now;
        deleted = is_marked d db m.topic m.origin next;
      }

  pub append_message_in_txn_lem :
      (now : ℕ) (db : Db d) (m : NewMessage)
      → IsLog d db
      → current_head_in_txn d db m.topic m.origin < u64_max
      → (b : Bytes) × (d.message_json.encode (appended now db m) ≡ ok b)
        × (append_message_in_txn d now db m
            ≡ ok (appended now db m, log_write d db (appended now db m) b))
  unfolding append_message_in_txn appended raise_head current_head_in_txn is_marked
  append_message_in_txn_lem now db m log room =
      let (b, e) = d.message_json.encode_total (appended now db m) in
      let next : saturating_add (current_head_in_txn d db m.topic m.origin) 1
          ≡ current_head_in_txn d db m.topic m.origin + 1 =
        saturating_add_exact _ 1 (omega arith) in
      let raised : ltb (current_head_in_txn d db m.topic m.origin)
            (current_head_in_txn d db m.topic m.origin + 1)
          ≡ true =
        lt→ltb _ _ (omega arith) in
      let db₁ : Db d = record db {
        heads =
            d.insert db.heads (head_key d.base64 m.topic m.origin)
              (current_head_in_txn d db m.topic m.origin + 1);
      } in
      let fresh : StoredMessage = record (appended now db m) { deleted = false } in
      let marks : apply_tombstone_markers d db₁ fresh ≡ ok (appended now db m) =
        apply_tombstone_markers_lem d db₁ fresh log.readable in
      (b, e, rw (next, marks, e, raised))

  -- On a log with room, an append stores the message at the next head of its topic and origin,
  -- marked as deleted exactly if a tombstone held that head, and returns what it stored.
  pub append_message_lem :
      (now : ℕ) (db : Db d) (m : NewMessage)
      → IsLog d db
      → current_head_in_txn d db m.topic m.origin < u64_max
      → (b : Bytes) × (d.message_json.encode (appended now db m) ≡ ok b)
        × (append_message d now db m
            ≡ (ok (appended now db m), log_write d db (appended now db m) b))
  unfolding append_message commit
  append_message_lem now db m log room =
      let (b, e, h) = append_message_in_txn_lem now db m log room in (b, e, rw h)

  pub appended-IsLog :
      (now : ℕ) (db : Db d) (m : NewMessage) (b : Bytes)
      → IsLog d db
      → current_head_in_txn d db m.topic m.origin < u64_max
      → d.message_json.encode (appended now db m) ≡ ok b
      → IsLog d (log_write d db (appended now db m) b)
  unfolding appended
  appended-IsLog now db m b log room e =
      log_write-IsLog d db (appended now db m) b log (omega arith) (omega arith) (omega arith)
        (d.message_json.decode-encode (appended now db m) e)

  -- On a log whose topic and origin have room below the maximum of u64, an append leaves a log: the
  -- heads of each topic and origin are 1, 2, … without a gap, each with a message that can be read.
  pub append_message-IsLog :
      (now : ℕ) (db : Db d) (m : NewMessage)
      → IsLog d db
      → current_head_in_txn d db m.topic m.origin < u64_max
      → IsLog d (append_message d now db m).1
  append_message-IsLog now db m log room =
      let (b, e, h) = append_message_lem now db m log room in
      rw h (appended-IsLog now db m b log room e)
