-- ===== src/Redb/Log/Marker.antt =====
-- `tombstone_range_with_marker` on a log, and appends after a deletion.
use msgbus.Prelude.{
  ℕ, ◌+◌, ◌≤◌, ◌<◌, ◌≡◌, refl, sym, ap, subst, true, false, arith, Bool-cases, inl, inr, ltb, [],
}
use msgbus.Core.Error.{Result, ok}
use msgbus.Core.Word.{HeadId, u64_max}
use msgbus.Core.Name.{Topic, MessageId}
use msgbus.Core.Node.{NodeId}
use msgbus.Core.Message.{Bytes, NewMessage, StoredMessage}
use msgbus.Redb.Deps.{Deps}
use msgbus.Redb.Db.{Db, commit}
use msgbus.Redb.Messages.{
  current_head_in_txn, append_message, tombstone_range, tombstone_range_with_marker, write_loop,
}
use msgbus.Redb.Log.{IsLog, log_write}
use msgbus.Redb.Log.Entries.{read_message, read_message-log_write}
use msgbus.Redb.Log.Append.{appended, appended-IsLog, append_message_in_txn_lem, append_message_lem}
use msgbus.Redb.Log.Tombstone.{after, after-IsLog, tombstone_of, tombstone_range_in_txn_lem}
use msgbus.Redb.Log.Deleted.{tombstone_range_lem}

module _ (d : Deps) (now now' : ℕ) (id : MessageId) (db : Db d) (t : Topic) (o : NodeId)
    (from to : HeadId) (marker_topic : Topic) (marker_origin : NodeId) where
  -- The marker that is appended, given its payload.
  abbrev pub marker_of : Bytes → NewMessage
  marker_of payload = record {
    id = id;
    topic = marker_topic;
    origin = marker_origin;
    payload = payload;
    headers = [];
  }

  -- On a log whose marker topic has room, for a range `from ≤ to` whose first head is in the range of
  -- u64, the range and the marker are written in one step: the database is what `tombstone_range`
  -- leaves, with the marker appended to it: what is stored is the encoded marker, whose payload reads
  -- back as the range.
  pub tombstone_range_with_marker_lem :
      IsLog d db
      → from ≤ to
      → from ≤ u64_max
      → current_head_in_txn d db marker_topic marker_origin < u64_max
      → (changed : ℕ) × (db₁ : Db d) × (payload : Bytes) × (b : Bytes) × (tombstone_range d now db t
            o from to
          ≡ (ok changed, db₁))
        × (d.tombstone_json.decode payload ≡ ok (tombstone_of now t o from to))
        × (d.message_json.encode (appended d now' db₁ (marker_of payload)) ≡ ok b)
        × (tombstone_range_with_marker d now now' id db t o from to marker_topic marker_origin ≡ (
          ok (changed, appended d now' db₁ (marker_of payload)),
          log_write d db₁ (appended d now' db₁ (marker_of payload)) b,
        ))
        × IsLog d (log_write d db₁ (appended d now' db₁ (marker_of payload)) b)
  unfolding tombstone_range_with_marker tombstone_range commit current_head_in_txn
  tombstone_range_with_marker_lem log ordered fits room =
      let (updates, v, r) = tombstone_range_in_txn_lem d now db log t o from to fits in
      let db₁ : Db d = after d now db log t o from to updates v in
      let log₁ : IsLog d db₁ = after-IsLog d now db log t o from to updates v r in
      let inside : ltb to from ≡ false = ground arith in
      let (b, enc, appends) = append_message_in_txn_lem d now' db₁ (marker_of v) log₁ room in
      (
        (write_loop d db.messages 0 updates).0,
        db₁,
        v,
        b,
        rw (inside, r.run) refl,
        d.tombstone_json.decode-encode (tombstone_of now t o from to) r.encoded,
        enc,
        rw (inside, r.run, r.encoded, appends) refl,
        appended-IsLog d now' db₁ (marker_of v) b log₁ room enc,
      )

  -- Whatever the range, `tombstone_range_with_marker` keeps a log.
  pub tombstone_range_with_marker-IsLog :
      IsLog d db
      → from ≤ u64_max
      → current_head_in_txn d db marker_topic marker_origin < u64_max
      → IsLog d
          (tombstone_range_with_marker d now now' id db t o from to marker_topic marker_origin).1
  unfolding tombstone_range_with_marker
  tombstone_range_with_marker-IsLog log fits room = elim (Bool-cases (ltb to from)) [
    | inl empty ↦ rw empty log
    | inr ordered ↦
        let (changed, db₁, payload, b, ranged, reads, enc, run, log₂) =
          tombstone_range_with_marker_lem log (ground arith) fits room in
        subst (IsLog d) (sym (ap (λ (x : Result (ℕ × StoredMessage) × Db d). x.1) run)) log₂
  ]

module _ (d : Deps) (now now' : ℕ) (db : Db d) (m : NewMessage) (from to : HeadId) where
  -- If a range that is deleted on a log starts at the next head or before and reaches past the head,
  -- in the range of u64, then the next append to that topic and origin is stored as deleted, with its
  -- payload and headers: that is what it returns, and what is read at the next head afterwards.
  pub append_message-tombstone_range :
      IsLog d db
      → from ≤ current_head_in_txn d db m.topic m.origin + 1
      → current_head_in_txn d db m.topic m.origin < to
      → to ≤ u64_max
      → let db₁ = (tombstone_range d now db m.topic m.origin from to).1 in
        (x : StoredMessage) × ((append_message d now' db₁ m).0 ≡ ok x)
        × (x.deleted ≡ true)
        × (x.head_id ≡ current_head_in_txn d db m.topic m.origin + 1)
        × (x.id ≡ m.id)
        × (x.payload ≡ m.payload)
        × (x.headers ≡ m.headers)
        × (read_message d (append_message d now' db₁ m).1 m.topic m.origin x.head_id ≡ ok x)
  unfolding appended current_head_in_txn
  append_message-tombstone_range log reached past fits =
      let h = current_head_in_txn d db m.topic m.origin in
      let (changed, db₁, run, log₁, deleted, other, marks, heads) =
        tombstone_range_lem d now db m.topic m.origin from to log (omega arith) (omega arith) in
      let same : current_head_in_txn d db₁ m.topic m.origin ≡ h = rw heads refl in
      let (b, enc, appends) = append_message_lem d now' db₁ m log₁ (omega arith) in
      let after_run : (tombstone_range d now db m.topic m.origin from to).1 ≡ db₁ =
        ap (λ (x : Result ℕ × Db d). x.1) run in
      rw after_run (
        appended d now' db₁ m,
        ap (λ (x : Result StoredMessage × Db d). x.0) appends,
        rw same (marks (h + 1) reached (omega arith)),
        omega arith,
        refl,
        refl,
        refl,
        rw appends (read_message-log_write d db₁ (appended d now' db₁ m) b enc),
      )
