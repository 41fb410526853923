-- ===== src/Redb/Reach/Frame.antt =====
-- What each operation leaves alone: the log's operations the queues, and the queues' the log.
use msgbus.Prelude.{
  ℕ, ◌≡◌, refl, Bool-cases, inl, inr, arith, ltb, Option, none, some, ◌==◌, ◌∙◌, [],
}
use msgbus.Text.{Str}
use msgbus.Core.Error.{Result, ok, err, ◌>>=◌}
use msgbus.Core.Word.{HeadId}
use msgbus.Core.Name.{Topic, QueueName, MessageId}
use msgbus.Core.Node.{NodeId}
use msgbus.Core.Message.{
  NewMessage, StoredMessage, PeerSyncState, NewFifoMessage, StoredFifoMessage, ReplicateResult,
}
use msgbus.Redb.Deps.{Deps}
use msgbus.Redb.Db.{Db, Txn, commit, transpose_decode}
use msgbus.Redb.Keys.{message_key}
use msgbus.Redb.Messages.{
  current_head_in_txn, apply_tombstone_markers, append_message_in_txn, append_message,
  tombstone_range_in_txn, tombstone_range, tombstone_range_with_marker,
}
use msgbus.Redb.Replicate.{
  write_message, raise_head, insert_message, merge_message, put_replicated_in_txn,
  put_replicated_message,
}
use msgbus.Redb.Fifo.{
  FifoFrontAction, ack, reject, enqueue_in_txn, enqueue_fifo, act, act_on, front, update_fifo_front,
}
use msgbus.Redb.PeerSync.{record_in_txn, record_peer_sync_state}

module _ (d : Deps) where
  abbrev pub SameQueues : Db d → Db d → Type 0
  SameQueues db db' =
      (db'.fifo_messages ≡ db.fifo_messages) × (db'.fifo_sequences ≡ db.fifo_sequences)

  abbrev pub SameLog : Db d → Db d → Type 0
  SameLog db db' =
      (db'.messages ≡ db.messages) × (db'.heads ≡ db.heads) × (db'.tombstones ≡ db.tombstones)

  -- What holds of every database that a transaction may leave.
  abbrev pub Leaves : {A : Type 0} → (Db d → Type 0) → Txn d A → Type 0
  Leaves P (ok (a, db')) = P db'
  Leaves P (err e) = Unit

  commit-Leaves :
      {A : Type 0} (P : Db d → Type 0) (db : Db d) (r : Txn d A)
      → P db
      → Leaves P r
      → P (commit d db r).1
  unfolding commit
  commit-Leaves P db (ok (a, db')) h l = l
  commit-Leaves P db (err e) h l = h

  append-Leaves :
      (now : ℕ) (db : Db d) (m : NewMessage)
      → Leaves (SameQueues db) (append_message_in_txn d now db m)
  unfolding append_message_in_txn
  append-Leaves now db m = ground arith

  pub append_message-SameQueues :
      (now : ℕ) (db : Db d) (m : NewMessage) → SameQueues db (append_message d now db m).1
  unfolding append_message
  append_message-SameQueues now db m =
      commit-Leaves (SameQueues db) db (append_message_in_txn d now db m) (refl, refl)
        (append-Leaves now db m)

  insert-Leaves : (db : Db d) (m : StoredMessage) → Leaves (SameQueues db) (insert_message d db m)
  unfolding insert_message write_message raise_head
  insert-Leaves db m = ground arith

  merge-Leaves :
      (db : Db d) (h : ℕ) (o : Option StoredMessage) (m : StoredMessage)
      → Leaves (SameQueues db) (merge_message d db h o m)
  unfolding merge_message
  merge-Leaves db h none m = ground (arith, insert-Leaves db m)
  merge-Leaves db h (some existing) m = ground (arith, insert-Leaves db m)

  bind-Leaves :
      {A B : Type 0} (P : Db d → Type 0) (r : Result A) (f : A → Txn d B)
      → ((a : A) → Leaves P (f a))
      → Leaves P (r >>= f)
  bind-Leaves P (ok a) f l = l a
  bind-Leaves P (err e) f l = tt

  then-Leaves :
      {A B : Type 0} (P Q : Db d → Type 0) (r : Txn d A) (f : A × Db d → Txn d B)
      → Leaves P r
      → ((a : A) (db' : Db d) → P db' → Leaves Q (f (a, db')))
      → Leaves Q (r >>= f)
  then-Leaves P Q (ok (a, db')) f l next = next a db' l
  then-Leaves P Q (err e) f l next = tt

  put-Leaves :
      (db : Db d) (m : StoredMessage) → Leaves (SameQueues db) (put_replicated_in_txn d db m)
  unfolding put_replicated_in_txn
  put-Leaves db m =
      let stored = λ (x : StoredMessage).
        transpose_decode d.message_json.decode
          (d.get db.messages (message_key d.base64 x.topic x.origin x.head_id)) in
      let merge = λ (x : StoredMessage) (e : Option StoredMessage).
        merge_message d db (current_head_in_txn d db x.topic x.origin) e x in
      bind-Leaves {B = ReplicateResult} (SameQueues db) (apply_tombstone_markers d db m)
        (λ x. stored x >>= merge x)
        (λ x.
          bind-Leaves {B = ReplicateResult} (SameQueues db) (stored x) (merge x)
            (λ e. merge-Leaves db (current_head_in_txn d db x.topic x.origin) e x))

  pub put_replicated_message-SameQueues :
      (db : Db d) (m : StoredMessage) → SameQueues db (put_replicated_message d db m).1
  unfolding put_replicated_message
  put_replicated_message-SameQueues db m = elim (Bool-cases (m.head_id == 0)) [
    | inl zero_head ↦ rw zero_head (refl, refl)
    | inr positive ↦ rw positive (
        commit-Leaves (SameQueues db) db (put_replicated_in_txn d db m) (refl, refl)
          (put-Leaves db m))
  ]

  range-Leaves :
      (now : ℕ) (db : Db d) (t : Topic) (o : NodeId) (from to : HeadId)
      → Leaves (SameQueues db) (tombstone_range_in_txn d now db t o from to)
  unfolding tombstone_range_in_txn
  range-Leaves now db t o from to = ground arith

  pub tombstone_range-SameQueues :
      (now : ℕ) (db : Db d) (t : Topic) (o : NodeId) (from to : HeadId)
      → SameQueues db (tombstone_range d now db t o from to).1
  unfolding tombstone_range
  tombstone_range-SameQueues now db t o from to = ground (
    arith,
    commit-Leaves (SameQueues db) db (tombstone_range_in_txn d now db t o from to) (refl, refl)
        (range-Leaves now db t o from to),
  )

  pub tombstone_range_with_marker-SameQueues :
      (now now' : ℕ) (id : MessageId) (db : Db d) (t : Topic) (o : NodeId) (from to : HeadId)
      (mt : Topic) (mo : NodeId)
      → SameQueues db (tombstone_range_with_marker d now now' id db t o from to mt mo).1
  unfolding tombstone_range_with_marker
  tombstone_range_with_marker-SameQueues now now' id db t o from to mt mo =
      elim (Bool-cases (ltb to from)) [
        | inl empty ↦ rw empty (refl, refl)
        | inr ordered ↦ rw ordered (
            commit-Leaves (SameQueues db) db _ (refl, refl)
              (then-Leaves (SameQueues db) (SameQueues db)
                (tombstone_range_in_txn d now db t o from to) _ (range-Leaves now db t o from to)
                (λ changed db₁ same. bind-Leaves (SameQueues db) _ _ (λ payload.
                  then-Leaves (SameQueues db₁) (SameQueues db)
                    (append_message_in_txn d now' db₁ (record {
                      id = id;
                      topic = mt;
                      origin = mo;
                      payload = payload;
                      headers = [];
                    }))
                    _ (append-Leaves now' db₁ _)
                    (λ marker db₂ same'. (same'.0 ∙ same.0, same'.1 ∙ same.1))))))
      ]

  enqueue-Leaves :
      (now : ℕ) (db : Db d) (m : NewFifoMessage) → Leaves (SameLog db) (enqueue_in_txn d now db m)
  unfolding enqueue_in_txn
  enqueue-Leaves now db m = ground arith

  pub enqueue_fifo-SameLog :
      (now : ℕ) (db : Db d) (m : NewFifoMessage) → SameLog db (enqueue_fifo d now db m).1
  unfolding enqueue_fifo
  enqueue_fifo-SameLog now db m =
      commit-Leaves (SameLog db) db (enqueue_in_txn d now db m) (refl, refl, refl)
        (enqueue-Leaves now db m)

  act-Leaves :
      (db : Db d) (id : MessageId) (action : FifoFrontAction)
      (found : Option (Str × StoredFifoMessage))
      → Leaves (SameLog db) (act_on d db id action found)
  unfolding act_on act
  act-Leaves db id action none = (refl, refl, refl)
  act-Leaves db id ack (some (k, m)) = ground arith
  act-Leaves db id reject (some (k, m)) = ground arith

  pub update_fifo_front-SameLog :
      (db : Db d) (q : QueueName) (id : MessageId) (action : FifoFrontAction)
      → SameLog db (update_fifo_front d db q id action).1
  unfolding update_fifo_front
  update_fifo_front-SameLog db q id action =
      commit-Leaves (SameLog db) db _ (refl, refl, refl)
        (bind-Leaves (SameLog db) (front d db q) _ (act-Leaves db id action))

  abbrev pub Same : Db d → Db d → Type 0
  Same db db' = SameLog db db' × SameQueues db db'

  record-Leaves : (db : Db d) (s : PeerSyncState) → Leaves (Same db) (record_in_txn d db s)
  unfolding record_in_txn
  record-Leaves db s = ground arith

  pub record_peer_sync_state-Same :
      (db : Db d) (s : PeerSyncState) → Same db (record_peer_sync_state d db s).1
  unfolding record_peer_sync_state
  record_peer_sync_state-Same db s =
      commit-Leaves (Same db) db (record_in_txn d db s) ((refl, refl, refl), (refl, refl))
        (record-Leaves db s)
