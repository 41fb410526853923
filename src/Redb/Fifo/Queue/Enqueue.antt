-- ===== src/Redb/Fifo/Queue/Enqueue.antt =====
-- `enqueue_fifo` on the queue as a list.
use native.Mathlib.Decide.{dec_le}
use msgbus.Prelude.{
  ℕ, suc, ◌+◌, ◌-◌, ◌≤◌, ◌<◌, ◌≡◌, ◌≢◌, ◌⊎◌, refl, sym, ◌∙◌, ap, false, some, List, [], ◌∷◌, ◌++◌,
  arith, if◌then◌else◌, Bool-cases, inl, inr,
}
use msgbus.Text.{Str, str_eq}
use msgbus.Text.Order.{str_eq_sound, str_eq_refl}
use msgbus.Text.SortedMap.{SortedMap}
use msgbus.Text.Window.{listing, listing_cong, listing_snoc}
use msgbus.Core.Error.{ok, >>=-eq-ok}
use msgbus.Core.Word.{u64_max, saturating_add, saturating_add_exact}
use msgbus.Core.Name.{QueueName}
use msgbus.Core.Message.{Bytes, NewFifoMessage, StoredFifoMessage}
use msgbus.Redb.Deps.{Deps}
use msgbus.Redb.Tables.{get-insert}
use msgbus.Redb.Keys.{
  fifo_prefix, fifo_message_key, fifo_sequence_key, fifo_sequence_key_injective,
  fifo_message_key_injective,
}
use msgbus.Redb.Db.{Db, commit}
use msgbus.Redb.Fifo.{queued, enqueue_in_txn, enqueue_fifo}
use msgbus.Redb.Fifo.Queue.{
  last, IsFifo, IsQueued, contents, decode_values, value_at, contents-listing,
}

module _ (d : Deps) where
  -- A message written behind its queue, with the counter moved on.
  abbrev pub queue_write : Db d → StoredFifoMessage → Bytes → Db d
  queue_write db m b = record db {
    fifo_sequences = d.insert db.fifo_sequences (fifo_sequence_key d.base64 m.queue) m.sequence;
    fifo_messages = d.insert db.fifo_messages (fifo_message_key d.base64 m.queue m.sequence) b;
  }

  -- The message as `enqueue_fifo` stores it.
  pub enqueued : ℕ → Db d → NewFifoMessage → StoredFifoMessage
  enqueued now db m = queued now (last d db m.queue + 1) m

  -- An enqueue with room in the counter stores the message under the next number and returns it.
  pub enqueue_fifo_lem :
      (now : ℕ) (db : Db d) (m : NewFifoMessage)
      → last d db m.queue < u64_max
      → (b : Bytes) × (d.fifo_json.encode (enqueued now db m) ≡ ok b)
        × (enqueue_fifo d now db m ≡ (ok (enqueued now db m), queue_write db (enqueued now db m) b))
  unfolding enqueue_fifo enqueue_in_txn commit enqueued queued last
  enqueue_fifo_lem now db m room =
      let (b, e) = d.fifo_json.encode_total (enqueued now db m) in
      let next : saturating_add (last d db m.queue) 1 ≡ last d db m.queue + 1 =
        saturating_add_exact (last d db m.queue) 1 (omega arith) in
      (b, e, rw (next, e))

  decode_values-snoc :
      (l : SortedMap Bytes) (k : Str) (v : Bytes) (ms : List StoredFifoMessage)
      (m : StoredFifoMessage)
      → decode_values d l ≡ ok ms
      → d.fifo_json.decode v ≡ ok m
      → decode_values d (l ++ (k, v) ∷ []) ≡ ok (ms ++ m ∷ [])
  unfolding decode_values
  decode_values-snoc [] k v ms m h read = rw read (cc)
  decode_values-snoc ((j, w) ∷ l) k v ms m h read =
      let (x, first, rest) = >>=-eq-ok (d.fifo_json.decode w) _ h in
      let (xs, later, whole) = >>=-eq-ok (decode_values d l) _ rest in
      let ih = decode_values-snoc l k v xs m later read in rw (first, ih) (cc)

  module _ (db : Db d) (m : StoredFifoMessage) (b : Bytes) where
    abbrev db' : Db d
    db' = queue_write db m b

    last-queue_write :
        (q : QueueName)
        → last d db' q ≡ (
            if str_eq (fifo_sequence_key d.base64 m.queue) (fifo_sequence_key d.base64 q)
            then m.sequence
            else last d db q)
    unfolding last
    last-queue_write q = ground (
      arith,
      get-insert d.tables db.fifo_sequences (fifo_sequence_key d.base64 m.queue)
          (fifo_sequence_key d.base64 q) m.sequence,
    )

    -- The counter of a queue is its old one, or the queue is that of the message.
    moved :
        (q : QueueName)
        → (last d db' q ≡ last d db q) ⊎ ((m.queue ≡ q) × (last d db' q ≡ m.sequence))
    moved q =
        elim (Bool-cases
          (str_eq (fifo_sequence_key d.base64 m.queue) (fifo_sequence_key d.base64 q))) [
            | inl same ↦ inr (
              fifo_sequence_key_injective d.base64 m.queue q (str_eq_sound _ _ same),
              last-queue_write q ∙ rw same,
            )
            | inr differ ↦ inl (last-queue_write q ∙ rw differ)
          ]

    last_own : last d db' m.queue ≡ m.sequence
    last_own = last-queue_write m.queue ∙ rw (str_eq_refl (fifo_sequence_key d.base64 m.queue))

    module _ (first : QueueName → ℕ) (fifo : IsFifo d first db)
        (next : m.sequence ≡ last d db m.queue + 1) (fits : m.sequence ≤ u64_max)
        (decoded : d.fifo_json.decode b ≡ ok m) where
      last-le : (q : QueueName) → last d db q ≤ last d db' q
      last-le q = elim (moved q) [
        | inl e ↦ omega arith
        | inr (eq, e) ↦ omega (arith, ap (last d db) eq)
      ]

      stored :
          (q : QueueName) (i : ℕ)
          → first q ≤ i
          → i ≤ last d db' q
          → (b' : Bytes) × (d.get db'.fifo_messages (fifo_message_key d.base64 q i) ≡ some b')
      stored q i lo hi =
          let got =
            get-insert d.tables db.fifo_messages (fifo_message_key d.base64 m.queue m.sequence)
              (fifo_message_key d.base64 q i) b in
          elim (Bool-cases (
            str_eq (fifo_message_key d.base64 m.queue m.sequence)
              (fifo_message_key d.base64 q i))) [
                | inl same ↦ (b, got ∙ rw same)
                | inr differ ↦
                    let (b', found) = fifo.stored q i lo (below differ) in
                    (b', got ∙ rw differ found)
              ]
        where
          below :
              str_eq (fifo_message_key d.base64 m.queue m.sequence) (fifo_message_key d.base64 q i)
                ≡ false
              → i ≤ last d db q
          below differ = elim (moved q) [
            | inl e ↦ omega arith
            | inr (eq, e) ↦ elim (dec_le i (last d db q)) [
              | yes old ↦ old
              | no new ↦
                  let at : m.sequence ≡ i = omega (arith, ap (last d db) eq) in
                  cc (str_eq_refl (fifo_message_key d.base64 q i))
            ]
          ]

      placed :
          (k : Str) (b' : Bytes) → d.get db'.fifo_messages k ≡ some b' → IsQueued d first db' k b'
      placed k b' h =
          let got =
            get-insert d.tables db.fifo_messages (fifo_message_key d.base64 m.queue m.sequence) k
              b in
          elim (Bool-cases (str_eq (fifo_message_key d.base64 m.queue m.sequence) k)) [
            | inl same ↦
                let e : b ≡ b' = ground (arith, got) in
                record {
                  message = m;
                  decoded = rw (← e) decoded;
                  keyed = sym (str_eq_sound _ k same);
                  low = omega (arith, fifo.within m.queue);
                  high = omega (arith, last_own);
                }
            | inr differ ↦
                let old : IsQueued d first db k b' = fifo.placed k b' (ground (arith, got)) in
                record {
                  message = old.message;
                  decoded = old.decoded;
                  keyed = old.keyed;
                  low = old.low;
                  high = omega (arith, old.high, last-le old.message.queue);
                }
          ]

      pub queue_write-IsFifo : IsFifo d first db'
      queue_write-IsFifo = record {
        bounded = λ q. elim (moved q) [
          | inl e ↦ omega (arith, fifo.bounded q)
          | inr (eq, e) ↦ omega arith
        ];
        within = λ q. omega (arith, fifo.within q, last-le q);
        stored = stored;
        placed = placed;
      }

      -- Any other number of any queue reads as before.
      value_at_other :
          (q : QueueName) (j : ℕ) → j ≤ last d db q → value_at d db q j ≡ value_at d db' q j
      unfolding value_at
      value_at_other q j hi =
          let got =
            get-insert d.tables db.fifo_messages (fifo_message_key d.base64 m.queue m.sequence)
              (fifo_message_key d.base64 q j) b in
          elim (Bool-cases (
            str_eq (fifo_message_key d.base64 m.queue m.sequence)
              (fifo_message_key d.base64 q j))) [
                | inl same ↦
                    let (eq, ei) =
                      fifo_message_key_injective d.base64 m.queue q m.sequence j (omega arith)
                        (omega (arith, fifo.bounded q)) (str_eq_sound _ _ same) in
                    absurd (omega (arith, ap (last d db) eq))
                | inr differ ↦ rw (got, differ)
              ]

      value_at_new : value_at d db' m.queue m.sequence ≡ b
      unfolding value_at
      value_at_new = rw (
        get-insert d.tables db.fifo_messages (fifo_message_key d.base64 m.queue m.sequence)
            (fifo_message_key d.base64 m.queue m.sequence) b,
        str_eq_refl (fifo_message_key d.base64 m.queue m.sequence),
      )

      -- The queue as a list has the message at its end.
      pub contents-queue_write :
          (ms : List StoredFifoMessage)
          → contents d db m.queue ≡ ok ms
          → contents d db' m.queue ≡ ok (ms ++ m ∷ [])
      contents-queue_write ms h =
          let q = m.queue in
          let p = fifo_prefix d.base64 q in
          let i = first q in
          let n = last d db q + 1 - i in
          let size : last d db' q + 1 - i ≡ suc n = omega (arith, last_own, fifo.within q) in
          let end : i + n ≡ m.sequence = omega (arith, fifo.within q) in
          let same =
            listing_cong (value_at d db q) (value_at d db' q) p i n
              (λ j lo hi. value_at_other q j (omega (arith, fifo.within q))) in
          contents-listing d first db' queue_write-IsFifo q
          ∙ ap (λ k. decode_values d (listing (value_at d db' q) p i k)) size
          ∙ ap (decode_values d) (listing_snoc (value_at d db' q) p i n)
          ∙ decode_values-snoc (listing (value_at d db' q) p i n) _ _ ms m
              (ap (decode_values d) (sym same) ∙ sym (contents-listing d first db fifo q) ∙ h)
              (ap (λ k. d.fifo_json.decode (value_at d db' q k)) end
                ∙ ap d.fifo_json.decode value_at_new
                ∙ decoded)

      -- Every other queue is as it was.
      pub contents-queue_write_other :
          (q : QueueName) → m.queue ≢ q → contents d db' q ≡ contents d db q
      contents-queue_write_other q other =
          let p = fifo_prefix d.base64 q in
          let i = first q in
          let size : last d db' q ≡ last d db q = elim (moved q) [
            | inl e ↦ e
            | inr (eq, e) ↦ absurd (other eq)
          ] in
          contents-listing d first db' queue_write-IsFifo q
          ∙ ap (λ k. decode_values d (listing (value_at d db' q) p i (k + 1 - i))) size
          ∙ ap (decode_values d) (
              sym (
                listing_cong (value_at d db q) (value_at d db' q) p i (last d db q + 1 - i)
                  (λ j lo hi. value_at_other q j (omega (arith, fifo.within q)))))
          ∙ sym (contents-listing d first db fifo q)

  -- On well-formed queues, with room in the counter below the maximum of u64, an enqueue returns the message that it stored; the queue as a list
  -- has it at its end, every other queue is as it was, and the invariant holds.
  pub enqueue_fifo-contents :
      (now : ℕ) (first : QueueName → ℕ) (db : Db d) (m : NewFifoMessage)
      (ms : List StoredFifoMessage)
      → IsFifo d first db
      → last d db m.queue < u64_max
      → contents d db m.queue ≡ ok ms
      → (db' : Db d) × (enqueue_fifo d now db m ≡ (ok (enqueued now db m), db'))
        × IsFifo d first db'
        × (contents d db' m.queue ≡ ok (ms ++ enqueued now db m ∷ []))
        × ((q : QueueName) → m.queue ≢ q → contents d db' q ≡ contents d db q)
  unfolding enqueued queued
  enqueue_fifo-contents now first db m ms fifo room h =
      let (b, e, run) = enqueue_fifo_lem now db m room in
      let x = enqueued now db m in
      let decoded = d.fifo_json.decode-encode x e in
      (
        queue_write db x b,
        run,
        queue_write-IsFifo db x b first fifo refl (omega arith) decoded,
        contents-queue_write db x b first fifo refl (omega arith) decoded ms h,
        contents-queue_write_other db x b first fifo refl (omega arith) decoded,
      )
