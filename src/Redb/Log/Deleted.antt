-- ===== src/Redb/Log/Deleted.antt =====
-- What can be read of a log after `tombstone_range`, and which appends it marks.
use msgbus.Prelude.{
  ℕ, ◌≤◌, max, ◌≡◌, ◌≢◌, refl, sym, ◌∙◌, ap, subst, true, false, some, [], ◌∷◌, arith, Bool-cases,
  inl, inr, ltb, Option-cases,
}
use msgbus.Text.{Str, starts_with}
use msgbus.Text.Order.{str_eq_sound}
use msgbus.Text.Prefix.{starts_with-append}
use msgbus.Text.SortedMap.{SortedMap, lookup}
use msgbus.Core.Error.{Result, ok, ok_injective}
use msgbus.Core.Word.{HeadId, u64_max}
use msgbus.Core.Name.{Topic}
use msgbus.Core.Node.{NodeId}
use msgbus.Core.Message.{Bytes, StoredMessage}
use msgbus.Redb.Deps.{Deps}
use msgbus.Redb.Keys.{message_key, message_key_injective, tombstone_key, tombstone_prefix}
use msgbus.Redb.Tables.{get-insert_self}
use msgbus.Redb.Db.{Db, commit}
use msgbus.Redb.Messages.{current_head_in_txn, write_loop, tombstone_range}
use msgbus.Redb.Markers.{is_marked, marked, value_covers}
use msgbus.Redb.Log.{IsLog}
use msgbus.Redb.Log.Entries.{head, read_message, decode_at}
use msgbus.Redb.Log.Updates.{get-write_loop, get-write_loop-Hit, get-write_loop_kept}
use msgbus.Redb.Log.Collect.{IsUpdate}
use msgbus.Redb.Log.Tombstone.{
  IsRange, after, after-IsLog, tombstone_of, tombstone_range_in_txn_lem,
}

module _ (d : Deps) where
  -- A tombstone that is in the table marks the heads that it holds.
  marked-lookup :
      (p : Str) (h : HeadId) (m : SortedMap Bytes) (k : Str) (v : Bytes)
      → lookup k m ≡ some v
      → starts_with k p ≡ true
      → value_covers d v h ≡ true
      → marked d p h m ≡ true
  unfolding marked lookup
  marked-lookup p h [] k v e under holds = cc
  marked-lookup p h ((j, w) ∷ m) k v e under holds =
      ground (arith, str_eq_sound j k, marked-lookup p h m k v)

  deleted_same : (m : StoredMessage) → m.deleted ≡ true → m ≡ record m { deleted = true }
  deleted_same m e = ap (λ b. record m { deleted = b }) e

  read_found :
      (db : Db d) (t : Topic) (o : NodeId) (i : HeadId) (b : Bytes)
      → d.get db.messages (message_key d.base64 t o i) ≡ some b
      → read_message d db t o i ≡ d.message_json.decode b
  unfolding read_message decode_at
  read_found db t o i b e = rw e

module _ (d : Deps) (now : ℕ) (db : Db d) (log : IsLog d db) (t : Topic) (o : NodeId)
    (from to : HeadId) (updates : SortedMap Bytes) (v : Bytes)
    (r : IsRange d now db log t o from to updates v) where
  abbrev db' : Db d
  db' = after d now db log t o from to updates v

  abbrev P : Str × Bytes → Type 0
  P = IsUpdate d db log t o from to

  -- An update of a message is that message, as deleted.
  update_at :
      (j : HeadId) (m : StoredMessage) (b : Bytes)
      → j ≤ head d db log t o
      → read_message d db t o j ≡ ok m
      → P (message_key d.base64 t o j, b)
      → d.message_json.decode b ≡ ok (record m { deleted = true })
  update_at j m b hi read u =
      let (et, eo, at) =
        message_key_injective d.base64 t t o o j u.at (omega (arith, log.bounded t o))
          (omega (arith, log.bounded t o, u.within)) u.keyed in
      let same = ok_injective (sym read ∙ ap (read_message d db t o) at ∙ u.old) in
      u.decoded ∙ ap (λ (x : StoredMessage). ok (record x { deleted = true })) (sym same)

  in_range :
      (j : HeadId) (m : StoredMessage)
      → 1 ≤ j
      → from ≤ j
      → j ≤ to
      → j ≤ head d db log t o
      → read_message d db t o j ≡ ok m
      → read_message d db' t o j ≡ ok (record m { deleted = true })
  in_range j m lo after_from le hi read =
      let k = message_key d.base64 t o j in
      elim (Bool-cases m.deleted) [
        | inl old ↦
            let (b, found) = log.stored t o j lo hi in
            let (b', found') = get-write_loop_kept d db.messages 0 updates k b found in
            read_found d db' t o j b' found'
            ∙ elim (get-write_loop d P db.messages 0 updates r.collected.good k b' found') [
              | inl u ↦ update_at j m b' hi read u
              | inr unchanged ↦
                  sym (read_found d db t o j b' unchanged) ∙ read ∙ ap ok (deleted_same d m old)
            ]
        | inr live ↦
            let (b, found, u) =
              get-write_loop-Hit d P db.messages 0 updates r.collected.good k
                (inl (r.collected.hit j m (omega arith) (omega arith) le read live)) in
            read_found d db' t o j b found ∙ update_at j m b hi read u
      ]

  outside :
      (k : Str)
      → ((i : HeadId) → from ≤ i → i ≤ to → k ≢ message_key d.base64 t o i)
      → d.get db'.messages k ≡ d.get db.messages k
  outside k other = elim (Option-cases (d.get db'.messages k)) [
    | inl gone ↦ elim (Option-cases (d.get db.messages k)) [
      | inl none_there ↦ gone ∙ sym none_there
      | inr (b, found) ↦
          let (b', found') = get-write_loop_kept d db.messages 0 updates k b found in cc
    ]
    | inr (b, found) ↦ elim (get-write_loop d P db.messages 0 updates r.collected.good k b found) [
      | inl u ↦ absurd (other u.at u.from_le u.le_to u.keyed)
      | inr unchanged ↦ found ∙ sym unchanged
    ]
  ]

  now_marked : (j : HeadId) → from ≤ j → j ≤ to → is_marked d db' t o j ≡ true
  unfolding is_marked tombstone_key value_covers
  now_marked j lo hi =
      marked-lookup d (tombstone_prefix d.base64 t o) j (d.entries db'.tombstones)
        (tombstone_key d.base64 t o from to) v
        (sym (d.get_lem db'.tombstones (tombstone_key d.base64 t o from to))
          ∙ get-insert_self d.tables db.tombstones (tombstone_key d.base64 t o from to) v)
        (starts_with-append (tombstone_prefix d.base64 t o) _)
        (rw (d.tombstone_json.decode-encode (tombstone_of now t o from to) r.encoded, value_covers)
          (ground arith))

module _ (d : Deps) (now : ℕ) (db : Db d) (t : Topic) (o : NodeId) (from to : HeadId) where
  -- On a log, for a range `from ≤ to` whose first head is in the range of u64, `tombstone_range`
  -- succeeds and leaves a log. Each message of the topic and origin in the range is what it was, but
  -- deleted; what is stored at any other key is as it was; and the range holds every head in it, also
  -- those that are not there yet.
  pub tombstone_range_lem :
      IsLog d db
      → from ≤ to
      → from ≤ u64_max
      → (changed : ℕ) × (db' : Db d) × (tombstone_range d now db t o from to ≡ (ok changed, db'))
        × IsLog d db'
        × ((j : HeadId) (m : StoredMessage)
            → max 1 from ≤ j
            → j ≤ to
            → j ≤ current_head_in_txn d db t o
            → read_message d db t o j ≡ ok m
            → read_message d db' t o j ≡ ok (record m { deleted = true }))
        × ((k : Str)
            → ((i : HeadId) → from ≤ i → i ≤ to → k ≢ message_key d.base64 t o i)
            → d.get db'.messages k ≡ d.get db.messages k)
        × ((j : HeadId) → from ≤ j → j ≤ to → is_marked d db' t o j ≡ true)
        × (db'.heads ≡ db.heads)
  unfolding tombstone_range commit
  tombstone_range_lem log ordered fits =
      let (updates, v, r) = tombstone_range_in_txn_lem d now db log t o from to fits in
      let inside : ltb to from ≡ false = ground arith in
      (
        (write_loop d db.messages 0 updates).0,
        db' d now db log t o from to updates v r,
        rw (inside, r.run) refl,
        after-IsLog d now db log t o from to updates v r,
        λ j m lo hi within read.
            in_range d now db log t o from to updates v r j m (omega arith) (omega arith) hi within
              read,
        outside d now db log t o from to updates v r,
        now_marked d now db log t o from to updates v r,
        refl,
      )

  -- Whatever the range, `tombstone_range` keeps a log.
  pub tombstone_range-IsLog :
      IsLog d db → from ≤ u64_max → IsLog d (tombstone_range d now db t o from to).1
  unfolding tombstone_range
  tombstone_range-IsLog log fits = elim (Bool-cases (ltb to from)) [
    | inl empty ↦ rw empty log
    | inr ordered ↦
        let (changed, db₁, run, log₁, deleted, other, marks, heads) =
          tombstone_range_lem log (ground arith) fits in
        subst (IsLog d) (sym (ap (λ (x : Result ℕ × Db d). x.1) run)) log₁
  ]
