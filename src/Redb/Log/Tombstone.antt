-- ===== src/Redb/Log/Tombstone.antt =====
-- `tombstone_range` on a log.
use msgbus.Prelude.{
  ℕ, ◌+◌, ◌-◌, ◌≤◌, max, ◌≡◌, refl, sym, ◌∙◌, ap, true, [], arith, Bool-cases, inl, inr,
}
use msgbus.Text.{Str, str_eq}
use msgbus.Text.SortedMap.{SortedMap}
use msgbus.Core.Error.{ok, ok_injective}
use msgbus.Core.Word.{HeadId, u64_max}
use msgbus.Core.Name.{Topic}
use msgbus.Core.Node.{NodeId, key}
use msgbus.Core.Message.{Bytes, StoredMessage, TombstoneRange}
use msgbus.Redb.Deps.{Deps}
use msgbus.Redb.Keys.{message_key, message_prefix_cong, tombstone_key}
use msgbus.Redb.Tables.{get-insert}
use msgbus.Redb.Db.{Db}
use msgbus.Redb.Messages.{current_head_in_txn, update_loop, write_loop, tombstone_range_in_txn}
use msgbus.Redb.Log.{IsLog, IsPlaced, head_cong}
use msgbus.Redb.Log.Entries.{log-Entry, log_listing, head, prefix}
use msgbus.Redb.Log.Updates.{get-write_loop, get-write_loop_kept, update_loop-prefix_run}
use msgbus.Redb.Log.Collect.{IsUpdate, Collected, update_loop-listing, entry_read}

abbrev pub tombstone_of : ℕ → Topic → NodeId → HeadId → HeadId → TombstoneRange
tombstone_of now t o from to = record {
  topic = t;
  origin = o;
  from_head_id = from;
  to_head_id = to;
  created_at_ms = now;
}

module _ (d : Deps) (now : ℕ) (db : Db d) (log : IsLog d db) (t : Topic) (o : NodeId)
    (from to : HeadId) where
  -- The database after the two loops and the tombstone.
  abbrev pub after : SortedMap Bytes → Bytes → Db d
  after updates v = record db {
    messages = (write_loop d db.messages 0 updates).1;
    tombstones = d.insert db.tombstones (tombstone_key d.base64 t o from to) v;
  }

  pub record IsRange (updates : SortedMap Bytes) (v : Bytes) : Type 0 where
    pub encoded : d.tombstone_json.encode (tombstone_of now t o from to) ≡ ok v
    pub collected :
        Collected d db log t o from to [] (max 1 from) (head d db log t o + 1 - max 1 from) updates
    pub run :
        tombstone_range_in_txn d now db t o from to
        ≡ ok ((write_loop d db.messages 0 updates).0, after updates v)

  pub tombstone_range_in_txn_lem :
      from ≤ u64_max → (updates : SortedMap Bytes) × (v : Bytes) × IsRange updates v
  unfolding tombstone_range_in_txn
  tombstone_range_in_txn_lem fits =
      let p = prefix d db log t o in
      let (updates, run, c) =
        update_loop-listing d db log t o from to [] (max 1 from)
          (head d db log t o + 1 - max 1 from) (omega arith) (omega arith) (omega arith) tt in
      let (v, enc) = d.tombstone_json.encode_total (tombstone_of now t o from to) in
      let range = d.range db.messages (message_key d.base64 t o from) in
      let collect : update_loop d p to [] range ≡ ok updates =
        update_loop-prefix_run d p to [] range
        ∙ ap (update_loop d p to []) (log_listing d db log t o from fits)
        ∙ run in
      (updates, v, record { encoded = enc; collected = c; run = rw (collect, enc) refl })

  module _ (updates : SortedMap Bytes) (v : Bytes) (r : IsRange updates v) where
    abbrev db' : Db d
    db' = after updates v

    pub head_same :
        (t' : Topic) (o' : NodeId)
        → current_head_in_txn d db' t' o' ≡ current_head_in_txn d db t' o'
    unfolding current_head_in_txn
    head_same t' o' = refl

    same-IsPlaced : (k : Str) (b : Bytes) → IsPlaced d db k b → IsPlaced d db' k b
    unfolding current_head_in_txn
    same-IsPlaced k b p = record {
      message = p.message;
      decoded = p.decoded;
      keyed = p.keyed;
      low = p.low;
      high = p.high;
    }

    key_at :
        (m : StoredMessage) (i : HeadId)
        → m.topic ≡ t
        → key m.origin ≡ key o
        → m.head_id ≡ i
        → message_key d.base64 t o i ≡ message_key d.base64 m.topic m.origin m.head_id
    unfolding message_key
    key_at m i et eo ei = cc (message_prefix_cong d.base64 t o m.origin (sym eo))

    update-IsPlaced :
        (k : Str) (b : Bytes) → IsUpdate d db log t o from to (k, b) → IsPlaced d db k b
    update-IsPlaced k b u =
        let e = log-Entry d db log t o u.at u.low u.within in
        let same = ok_injective (sym (entry_read d db log t o from to u.at e) ∙ u.old) in
        let et : u.message.topic ≡ t = ap (λ (x : StoredMessage). x.topic) (sym same) ∙ e.topic in
        let eo : key u.message.origin ≡ key o =
          ap (λ (x : StoredMessage). key x.origin) (sym same) ∙ e.origin in
        let ei : u.message.head_id ≡ u.at =
          ap (λ (x : StoredMessage). x.head_id) (sym same) ∙ e.head_id in
        record {
          message = record u.message { deleted = true };
          decoded = u.decoded;
          keyed = u.keyed ∙ key_at u.message u.at et eo ei;
          low = omega (arith, u.low, ei);
          high =
              omega
                (arith, u.within, ei, head_cong d db u.message.topic t u.message.origin o et eo);
        }

    pub after-IsLog : IsLog d db'
    after-IsLog = record {
      bounded = λ t' o'. omega (arith, log.bounded t' o', head_same t' o');
      stored = λ t' o' i lo hi.
          let (b, found) = log.stored t' o' i lo (omega (arith, head_same t' o')) in
          get-write_loop_kept d db.messages 0 updates (message_key d.base64 t' o' i) b found;
      placed = λ k b found.
          same-IsPlaced k b
            (elim (get-write_loop d (IsUpdate d db log t o from to) db.messages 0 updates
              r.collected.good k b found) [
                | inl u ↦ update-IsPlaced k b u
                | inr old ↦ log.placed k b old
              ]);
      headed = λ k h e. log.headed k h e;
      readable = λ k b e. elim (Bool-cases (str_eq (tombstone_key d.base64 t o from to) k)) [
        | inl same ↦
            let value : v ≡ b =
              ground (
                arith,
                get-insert d.tables db.tombstones (tombstone_key d.base64 t o from to) k v,
              ) in
            (
              tombstone_of now t o from to,
              rw (← value)
                  (d.tombstone_json.decode-encode (tombstone_of now t o from to) r.encoded),
            )
        | inr differ ↦ log.readable k b (
            ground
              (arith, get-insert d.tables db.tombstones (tombstone_key d.base64 t o from to) k v))
      ];
    }
