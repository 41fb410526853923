-- ===== src/Redb/Log/Replicate.antt =====
-- `put_replicated_message` on a log.
use msgbus.Prelude.{
  ℕ, ◌+◌, ◌≤◌, ◌≡◌, sym, ◌∙◌, ap, subst, false, Option, none, some, arith, ltb, ◌||◌, ◌&&◌, ◌==◌,
  Bool-cases, Option-cases, inl, inr,
}
use msgbus.Text.Order.{str_eq_refl}
use msgbus.Core.Error.{MsgbusError, Result, ok, err, ◌>>=◌, >>=-eq-ok}
use msgbus.Core.Word.{u64_max, saturating_add}
use msgbus.Core.Message.{
  Bytes, StoredMessage, ReplicateResult, inserted, already_present, message_eq, message_eq_refl,
  same_message_except_deleted,
}
use msgbus.Redb.Deps.{Deps}
use msgbus.Redb.Keys.{message_key, message_key_injective}
use msgbus.Redb.Db.{Db, Txn, commit, transpose_decode}
use msgbus.Redb.Messages.{current_head_in_txn}
use msgbus.Redb.Replicate.{
  insert_message, write_message, merge_message, put_replicated_in_txn, put_replicated_message,
}
use msgbus.Redb.Markers.{is_marked, apply_tombstone_markers_lem}
use msgbus.Redb.Log.{IsLog, log_write, get-log_write, raise_head-tombstones, head_cong}
use msgbus.Redb.Log.Write.{log_write-IsLog}

module _ (d : Deps) where
  -- The message of a peer, marked as deleted if a tombstone holds its head here.
  pub with_marker : Db d → StoredMessage → StoredMessage
  with_marker db m = record m { deleted = m.deleted || is_marked d db m.topic m.origin m.head_id }

  insert_message_lem :
      (db : Db d) (m : StoredMessage) (b : Bytes)
      → d.message_json.encode m ≡ ok b
      → insert_message d db m ≡ ok (inserted, log_write d db m b)
  unfolding insert_message write_message
  insert_message_lem db m b e = rw e

  put_in_txn_unmarked :
      (db : Db d) (m : StoredMessage)
      → IsLog d db
      → put_replicated_in_txn d db m ≡ (
          transpose_decode d.message_json.decode
            (d.get db.messages (message_key d.base64 m.topic m.origin m.head_id))
          >>= λ existing.
              merge_message d db
                (current_head_in_txn d db m.topic m.origin)
                existing
                (with_marker db m))
  unfolding put_replicated_in_txn with_marker
  put_in_txn_unmarked db m log = rw (apply_tombstone_markers_lem d db m log.readable)

  -- What a transaction leaves is a log.
  abbrev Keeps : Txn d ReplicateResult → Type 0
  Keeps (ok (r, db')) = IsLog d db'
  Keeps (err e) = Unit

  insert-Keeps :
      (db : Db d) (m : StoredMessage)
      → IsLog d db
      → 1 ≤ m.head_id
      → m.head_id ≤ current_head_in_txn d db m.topic m.origin + 1
      → m.head_id ≤ u64_max
      → Keeps (insert_message d db m)
  insert-Keeps db m log lo next fits =
      let (b, e) = d.message_json.encode_total m in
      rw (insert_message_lem db m b e)
        (log_write-IsLog d db m b log lo next fits (d.message_json.decode-encode m e))

  merge_some-Keeps :
      (db : Db d) (existing m : StoredMessage)
      → IsLog d db
      → 1 ≤ m.head_id
      → m.head_id ≤ current_head_in_txn d db m.topic m.origin
      → m.head_id ≤ u64_max
      → Keeps (merge_message d db (current_head_in_txn d db m.topic m.origin) (some existing) m)
  unfolding merge_message
  merge_some-Keeps db existing m log lo hi fits = elim (Bool-cases (message_eq existing m)) [
    | inl same ↦ rw same log
    | inr differ ↦ elim (Bool-cases (same_message_except_deleted existing m && m.deleted)) [
      | inl marks ↦ rw (differ, marks) (insert-Keeps db m log lo (omega arith) fits)
      | inr other ↦ rw (differ, other) tt
    ]
  ]

  merge_none-Keeps :
      (db : Db d) (m : StoredMessage)
      → IsLog d db
      → 1 ≤ m.head_id
      → m.head_id ≤ u64_max
      → Keeps (merge_message d db (current_head_in_txn d db m.topic m.origin) none m)
  unfolding merge_message saturating_add
  merge_none-Keeps db m log lo fits =
      elim (Bool-cases
        (ltb (saturating_add (current_head_in_txn d db m.topic m.origin) 1) m.head_id)) [
          | inl gap ↦ rw gap tt
          | inr near ↦
              let next : m.head_id ≤ current_head_in_txn d db m.topic m.origin + 1 = ground arith in
              rw near (insert-Keeps db m log lo next fits)
        ]

  -- A key of the log is that of a head up to the head.
  placed_head :
      (db : Db d) (m : StoredMessage) (b : Bytes)
      → IsLog d db
      → m.head_id ≤ u64_max
      → d.get db.messages (message_key d.base64 m.topic m.origin m.head_id) ≡ some b
      → m.head_id ≤ current_head_in_txn d db m.topic m.origin
  placed_head db m b log fits found =
      let p = log.placed _ b found in
      let (et, eo, ei) =
        message_key_injective d.base64 m.topic p.message.topic m.origin p.message.origin m.head_id
          p.message.head_id (omega arith)
          (omega (arith, p.high, log.bounded p.message.topic p.message.origin)) p.keyed in
      omega
        (arith, p.high, ei, head_cong d db m.topic p.message.topic m.origin p.message.origin et eo)

  decode_stored :
      (o : Option Bytes) (b : Bytes) (e : StoredMessage)
      → o ≡ some b
      → d.message_json.decode b ≡ ok e
      → transpose_decode d.message_json.decode o ≡ ok (some e)
  unfolding transpose_decode
  decode_stored o b e found decoded = ground arith

  decode_missing :
      (o : Option Bytes) → o ≡ none → transpose_decode d.message_json.decode o ≡ ok none
  unfolding transpose_decode
  decode_missing o nothing = ground arith

  put_in_txn-Keeps :
      (db : Db d) (m : StoredMessage)
      → IsLog d db
      → 1 ≤ m.head_id
      → m.head_id ≤ u64_max
      → Keeps (put_replicated_in_txn d db m)
  unfolding with_marker
  put_in_txn-Keeps db m log lo fits =
      rw (put_in_txn_unmarked db m log)
        (elim (Option-cases (d.get db.messages (message_key d.base64 m.topic m.origin m.head_id))) [
          | inl nothing ↦
              rw (decode_missing _ nothing) (merge_none-Keeps db (with_marker db m) log lo fits)
          | inr (b, found) ↦
              let p = log.placed _ b found in
              rw (decode_stored _ b p.message found p.decoded) (
                merge_some-Keeps db p.message (with_marker db m) log lo
                  (placed_head db m b log fits found) fits)
        ])

  commit-IsLog :
      (db : Db d) (r : Txn d ReplicateResult) → IsLog d db → Keeps r → IsLog d (commit d db r).1
  unfolding commit
  commit-IsLog db (ok (r, db')) log k = k
  commit-IsLog db (err e) log k = log

  -- Whatever message with a head in the range of u64 a peer sends to a store that is a log, and
  -- whether it is written, present already or refused, the store is a log afterwards: the heads of
  -- each topic and origin are 1, 2, … without a gap, each with a message that can be read.
  pub put_replicated_message-IsLog :
      (db : Db d) (m : StoredMessage)
      → IsLog d db
      → m.head_id ≤ u64_max
      → IsLog d (put_replicated_message d db m).1
  unfolding put_replicated_message
  put_replicated_message-IsLog db m log fits = elim (Bool-cases (m.head_id == 0)) [
    | inl zero ↦ rw zero log
    | inr pos ↦ rw pos (
        commit-IsLog db (put_replicated_in_txn d db m) log
          (put_in_txn-Keeps db m log (ground arith) fits))
  ]

  merge_inserted :
      (db db' : Db d) (h : ℕ) (o : Option StoredMessage) (m : StoredMessage)
      → merge_message d db h o m ≡ ok (inserted, db')
      → insert_message d db m ≡ ok (inserted, db')
  unfolding merge_message
  merge_inserted db db' h none m e = ground arith
  merge_inserted db db' h (some existing) m e = ground arith

  txn_inserted :
      (db db' : Db d) (m : StoredMessage)
      → IsLog d db
      → put_replicated_in_txn d db m ≡ ok (inserted, db')
      → insert_message d db (with_marker db m) ≡ ok (inserted, db')
  txn_inserted db db' m log e =
      let (o, read, merged) =
        >>=-eq-ok
          (transpose_decode d.message_json.decode
            (d.get db.messages (message_key d.base64 m.topic m.origin m.head_id)))
          (λ existing.
            merge_message d db (current_head_in_txn d db m.topic m.origin) existing
              (with_marker db m))
          (sym (put_in_txn_unmarked db m log) ∙ e) in
      merge_inserted db db' _ o (with_marker db m) merged

  unwritten :
      (db db' : Db d) (e : MsgbusError)
      → ◌≡◌ {A = Result ReplicateResult × Db d} (err e, db) (ok inserted, db')
      → ⊥
  unwritten db db' e h = cc

  committed :
      (db db' : Db d) (r : Txn d ReplicateResult)
      → commit d db r ≡ (ok inserted, db')
      → r ≡ ok (inserted, db')
  unfolding commit
  committed db db' (ok (r, db₁)) h = cc
  committed db db' (err e) h = cc

  -- A message that is reported as inserted was written, with its marker, at its own key.
  pub put_inserted :
      (db db' : Db d) (m : StoredMessage)
      → IsLog d db
      → put_replicated_message d db m ≡ (ok inserted, db')
      → ((m.head_id == 0) ≡ false)
        × (b : Bytes) × (d.message_json.encode (with_marker db m) ≡ ok b)
        × (db' ≡ log_write d db (with_marker db m) b)
  unfolding put_replicated_message
  put_inserted db db' m log h = elim (Bool-cases (m.head_id == 0)) [
    | inl zero ↦ absurd (unwritten db db' _ (rw zero at h))
    | inr pos ↦
        let (b, e) = d.message_json.encode_total (with_marker db m) in
        let done = committed db db' (put_replicated_in_txn d db m) (rw pos at h) in
        let written = insert_message_lem db (with_marker db m) b e in
        (pos, b, e, cc (txn_inserted db db' m log done, written))
  ]

  is_marked_cong :
      (db db' : Db d) (m : StoredMessage)
      → db'.tombstones ≡ db.tombstones
      → with_marker db' m ≡ with_marker db m
  unfolding with_marker is_marked
  is_marked_cong db db' m e = rw e

  -- A message that is stored with its marker is found again.
  put_present :
      (db : Db d) (m : StoredMessage) (b : Bytes)
      → IsLog d db
      → (m.head_id == 0) ≡ false
      → d.get db.messages (message_key d.base64 m.topic m.origin m.head_id) ≡ some b
      → d.message_json.decode b ≡ ok (with_marker db m)
      → put_replicated_message d db m ≡ (ok already_present, db)
  unfolding put_replicated_message commit merge_message
  put_present db m b log pos found read = rw (
    pos,
    put_in_txn_unmarked db m log,
    decode_stored _ b (with_marker db m) found read,
    message_eq_refl (with_marker db m),
  )

  stored_self :
      (db : Db d) (m : StoredMessage) (b : Bytes)
      → d.get
          (log_write d db (with_marker db m) b).messages
          (message_key d.base64 m.topic m.origin m.head_id)
        ≡ some b
  unfolding with_marker
  stored_self db m b =
      get-log_write d db (with_marker db m) b (message_key d.base64 m.topic m.origin m.head_id)
      ∙ rw (str_eq_refl (message_key d.base64 m.topic m.origin m.head_id))

  -- If a log inserted a message from a peer, whose head is in the range of u64, then the same
  -- message sent again is already present, and nothing changes.
  pub put_replicated_again :
      (db db' : Db d) (m : StoredMessage)
      → IsLog d db
      → m.head_id ≤ u64_max
      → put_replicated_message d db m ≡ (ok inserted, db')
      → put_replicated_message d db' m ≡ (ok already_present, db')
  put_replicated_again db db' m log fits h =
      let (pos, b, e, written) = put_inserted db db' m log h in
      let log' : IsLog d db' =
        subst (λ (r : Result ReplicateResult × Db d). IsLog d r.1) h
          (put_replicated_message-IsLog db m log fits) in
      let stones : db'.tombstones ≡ db.tombstones =
        ap (λ (x : Db d). x.tombstones) written ∙ raise_head-tombstones d _ (with_marker db m) in
      let same = is_marked_cong db db' m stones in
      put_present db' m b log' pos
        (ap (λ (x : Db d). d.get x.messages (message_key d.base64 m.topic m.origin m.head_id))
            written
          ∙ stored_self db m b)
        (d.message_json.decode-encode (with_marker db m) e ∙ ap ok (sym same))
