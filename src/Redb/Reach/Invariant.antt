-- ===== src/Redb/Reach/Invariant.antt =====
-- What holds of every database that can be reached.
use msgbus.Prelude.{
  ℕ, ◌≡◌, ◌≢◌, sym, ap, subst, Bool-cases, inl, inr, some, head?, List, [], ◌∷◌, Bool,
}
use msgbus.Core.Error.{Result, ok}
use msgbus.Core.Name.{QueueName, MessageId, message_id_eq, message_id_eq_sound, message_id_eq_refl}
use msgbus.Core.Message.{StoredFifoMessage}
use msgbus.Redb.Deps.{Deps}
use msgbus.Redb.Db.{Db, initialize}
use msgbus.Redb.Messages.{current_head_in_txn}
use msgbus.Redb.Fifo.{FifoFrontAction, ack, reject, update_fifo_front, ack_fifo, reject_fifo}
use msgbus.Redb.Log.{IsLog}
use msgbus.Redb.Log.Fresh.{initialize-IsLog}
use msgbus.Redb.Log.Append.{append_message-IsLog}
use msgbus.Redb.Log.Replicate.{put_replicated_message-IsLog}
use msgbus.Redb.Log.Deleted.{tombstone_range-IsLog}
use msgbus.Redb.Log.Marker.{tombstone_range_with_marker-IsLog}
use msgbus.Redb.Fifo.Queue.{last, IsFifo, contents, contents_total}
use msgbus.Redb.Fifo.Queue.Fresh.{initialize-IsFifo, enqueue_fifo-IsFifo}
use msgbus.Redb.Fifo.Queue.Front.{update_fifo_front_other}
use msgbus.Redb.Fifo.Queue.Ack.{ack_fifo-contents, advance}
use msgbus.Redb.Fifo.Queue.Reject.{reject_fifo-contents}
use msgbus.Redb.Reach.Frame.{
  SameQueues, SameLog, append_message-SameQueues, put_replicated_message-SameQueues,
  tombstone_range-SameQueues, tombstone_range_with_marker-SameQueues, enqueue_fifo-SameLog,
  update_fifo_front-SameLog, record_peer_sync_state-Same,
}
use msgbus.Redb.Reach.{
  Step, append, replicate, delete, delete_with_marker, enqueue, acknowledge, refuse, record_state,
  Reach, here, next,
}

module _ (d : Deps) where
  part-IsLog :
      (db db' : Db d)
      → IsLog d db
      → IsLog d
          (record db' { messages = db.messages; heads = db.heads; tombstones = db.tombstones })
  unfolding current_head_in_txn
  part-IsLog db db' log = record {
    bounded = log.bounded;
    stored = log.stored;
    placed = λ k b e.
        let p = log.placed k b e in
        record {
          message = p.message;
          decoded = p.decoded;
          keyed = p.keyed;
          low = p.low;
          high = p.high;
        };
    headed = log.headed;
    readable = log.readable;
  }

  SameLog-IsLog : (db db' : Db d) → SameLog d db db' → IsLog d db → IsLog d db'
  SameLog-IsLog db db' (messages, heads, tombstones) log =
      subst (IsLog d)
        (λ i. record db' {
          messages = sym messages i;
          heads = sym heads i;
          tombstones = sym tombstones i;
        })
        (part-IsLog db db' log)

  queue_part :
      (first : QueueName → ℕ) (db db' : Db d)
      → IsFifo d first db
      → IsFifo d first
          (record db' { fifo_messages = db.fifo_messages; fifo_sequences = db.fifo_sequences })
  unfolding last
  queue_part first db db' fifo = record {
    bounded = fifo.bounded;
    within = fifo.within;
    stored = fifo.stored;
    placed = λ k b e.
        let p = fifo.placed k b e in
        record {
          message = p.message;
          decoded = p.decoded;
          keyed = p.keyed;
          low = p.low;
          high = p.high;
        };
  }

  SameQueues-IsFifo :
      (first : QueueName → ℕ) (db db' : Db d)
      → SameQueues d db db'
      → IsFifo d first db
      → IsFifo d first db'
  SameQueues-IsFifo first db db' (messages, sequences) fifo =
      subst (IsFifo d first)
        (λ i. record db' { fifo_messages = sym messages i; fifo_sequences = sym sequences i })
        (queue_part first db db' fifo)

  -- The log has no gap, and neither has any queue.
  pub record IsStore (db : Db d) : Type 0 where
    pub log : IsLog d db
    pub first : QueueName → ℕ
    pub fifo : IsFifo d first db

  -- An ack or a reject of any identifier, on well-formed queues.
  update_fifo_front-IsFifo :
      (first : QueueName → ℕ) (db : Db d) (q : QueueName) (id : MessageId)
      (action : FifoFrontAction)
      → IsFifo d first db
      → (first' : QueueName → ℕ) × IsFifo d first' (update_fifo_front d db q id action).1
  unfolding ack_fifo reject_fifo
  update_fifo_front-IsFifo first db q id action fifo =
      let (ms, whole, len, numbered) = contents_total d first db fifo q in front_of ms whole action
    where
      unchanged :
          (ms : List StoredFifoMessage) (a : FifoFrontAction)
          → contents d db q ≡ ok ms
          → ((m : StoredFifoMessage) → head? ms ≡ some m → m.id ≢ id)
          → (first' : QueueName → ℕ) × IsFifo d first' (update_fifo_front d db q id a).1
      unchanged ms a whole other =
          let run = update_fifo_front_other d first db fifo q ms id a whole other in
          (first, subst (IsFifo d first) (sym (ap (λ (x : Result Bool × Db d). x.1) run)) fifo)

      changed :
          (a : FifoFrontAction) (m : StoredFifoMessage) (ms : List StoredFifoMessage)
          → contents d db q ≡ ok (m ∷ ms)
          → m.id ≡ id
          → (first' : QueueName → ℕ) × IsFifo d first' (update_fifo_front d db q id a).1
      changed ack m ms whole same =
          let (db', run, kept, own, others) = ack_fifo-contents d first db q m ms fifo whole in
          (
            advance q first,
            subst (IsFifo d (advance q first))
                (sym (ap (λ (x : Result Bool × Db d). x.1) (rw same at run))) kept,
          )
      changed reject m ms whole same =
          let (db', run, kept, own, others) = reject_fifo-contents d first db q m ms fifo whole in
          (
            first,
            subst (IsFifo d first) (sym (ap (λ (x : Result Bool × Db d). x.1) (rw same at run)))
                kept,
          )

      front_of :
          (ms : List StoredFifoMessage)
          → contents d db q ≡ ok ms
          → (a : FifoFrontAction)
          → (first' : QueueName → ℕ) × IsFifo d first' (update_fifo_front d db q id a).1
      front_of [] whole a = unchanged [] a whole (λ m e. cc)
      front_of (m ∷ ms) whole a = elim (Bool-cases (message_id_eq m.id id)) [
        | inl same ↦ changed a m ms whole (message_id_eq_sound m.id id same)
        | inr differ ↦ unchanged (m ∷ ms) a whole (λ m' e e'. cc (message_id_eq_refl id))
      ]

  front-IsStore :
      (db : Db d) (q : QueueName) (id : MessageId) (action : FifoFrontAction)
      → IsStore db
      → IsStore (update_fifo_front d db q id action).1
  front-IsStore db q id action s =
      let (first', fifo') = update_fifo_front-IsFifo s.first db q id action s.fifo in
      record {
        log = SameLog-IsLog db _ (update_fifo_front-SameLog d db q id action) s.log;
        first = first';
        fifo = fifo';
      }

  -- A step keeps both invariants.
  Step-IsStore : {db db' : Db d} → IsStore db → Step d db db' → IsStore db'
  unfolding ack_fifo reject_fifo
  Step-IsStore {db} s (append now m room) = record {
    log = append_message-IsLog d now db m s.log room;
    first = s.first;
    fifo = SameQueues-IsFifo s.first db _ (append_message-SameQueues d now db m) s.fifo;
  }
  Step-IsStore {db} s (replicate m fits) = record {
    log = put_replicated_message-IsLog d db m s.log fits;
    first = s.first;
    fifo = SameQueues-IsFifo s.first db _ (put_replicated_message-SameQueues d db m) s.fifo;
  }
  Step-IsStore {db} s (delete now t o from to fits) = record {
    log = tombstone_range-IsLog d now db t o from to s.log fits;
    first = s.first;
    fifo = SameQueues-IsFifo s.first db _ (tombstone_range-SameQueues d now db t o from to) s.fifo;
  }
  Step-IsStore {db} s (delete_with_marker now now' id t o from to mt mo fits room) = record {
    log = tombstone_range_with_marker-IsLog d now now' id db t o from to mt mo s.log fits room;
    first = s.first;
    fifo =
        SameQueues-IsFifo s.first db _
          (tombstone_range_with_marker-SameQueues d now now' id db t o from to mt mo) s.fifo;
  }
  Step-IsStore {db} s (enqueue now m room) = record {
    log = SameLog-IsLog db _ (enqueue_fifo-SameLog d now db m) s.log;
    first = s.first;
    fifo = enqueue_fifo-IsFifo d now s.first db m s.fifo room;
  }
  Step-IsStore {db} s (acknowledge q id) = front-IsStore db q id ack s
  Step-IsStore {db} s (refuse q id) = front-IsStore db q id reject s
  Step-IsStore {db} s (record_state state) =
      let (log_same, queues_same) = record_peer_sync_state-Same d db state in
      record {
        log = SameLog-IsLog db _ log_same s.log;
        first = s.first;
        fifo = SameQueues-IsFifo s.first db _ queues_same s.fifo;
      }

  -- Every database that the operations reach from a new one, by any calls in any order whose heads
  -- are in the range of u64 and whose counters are not at their end, is a log in which the heads of
  -- each topic and origin are 1, 2, … without a gap, and each of its queues is numbered without a gap.
  pub Reach-IsStore : {db : Db d} → Reach d (initialize d) db → IsStore db
  Reach-IsStore here = record {
    log = initialize-IsLog d;
    first = λ _. 1;
    fifo = initialize-IsFifo d;
  }
  Reach-IsStore (next before step) = Step-IsStore (Reach-IsStore before) step
