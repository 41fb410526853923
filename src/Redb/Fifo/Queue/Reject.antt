-- ===== src/Redb/Fifo/Queue/Reject.antt =====
-- `reject_fifo` of the front of a queue.
use msgbus.Prelude.{
  ℕ, suc, ◌+◌, ◌-◌, ◌≤◌, ◌≡◌, ◌≢◌, sym, ◌∙◌, ap, true, some, List, ◌∷◌, arith, if◌then◌else◌,
  Bool-cases, inl, inr,
}
use msgbus.Text.{Str, str_eq}
use msgbus.Text.Order.{str_eq_sound, str_eq_refl}
use msgbus.Text.Window.{listing, listing_cong}
use msgbus.Core.Error.{ok}
use msgbus.Core.Word.{saturating_add32}
use msgbus.Core.Name.{QueueName, message_id_eq_refl}
use msgbus.Core.Message.{Bytes, StoredFifoMessage}
use msgbus.Redb.Deps.{Deps}
use msgbus.Redb.Tables.{get-insert}
use msgbus.Redb.Keys.{fifo_prefix, fifo_message_key, fifo_message_key_injective}
use msgbus.Redb.Db.{Db, commit}
use msgbus.Redb.Fifo.{act_on, act, update_fifo_front, reject_fifo}
use msgbus.Redb.Fifo.Queue.{
  last, IsFifo, IsQueued, contents, decode_values, value_at, contents-listing,
}
use msgbus.Redb.Fifo.Queue.Front.{front_lem, front_facts}

-- The message with one attempt more.
pub counted : StoredFifoMessage → StoredFifoMessage
counted m = record m { attempts = saturating_add32 m.attempts 1 }

module _ (d : Deps) (first : QueueName → ℕ) (db : Db d) (fifo : IsFifo d first db) (q : QueueName)
    (left : first q ≤ last d db q) (m : StoredFifoMessage) (b : Bytes) (own : m.queue ≡ q)
    (at : m.sequence ≡ first q) (decoded : d.fifo_json.decode b ≡ ok m) where
  abbrev db' : Db d
  db' = record db {
    fifo_messages = d.insert db.fifo_messages (fifo_message_key d.base64 q (first q)) b;
  }

  got :
      (k : Str)
      → d.get db'.fifo_messages k ≡ (
          if str_eq (fifo_message_key d.base64 q (first q)) k
          then some b
          else d.get db.fifo_messages k)
  got k = get-insert d.tables db.fifo_messages (fifo_message_key d.base64 q (first q)) k b

  placed : (k : Str) (b' : Bytes) → d.get db'.fifo_messages k ≡ some b' → IsQueued d first db' k b'
  unfolding last
  placed k b' h = elim (Bool-cases (str_eq (fifo_message_key d.base64 q (first q)) k)) [
    | inl same ↦
        let e : b ≡ b' = ground (arith, got k) in
        record {
          message = m;
          decoded = rw (← e) decoded;
          keyed =
              sym (str_eq_sound _ k same)
              ∙ ap (λ x. fifo_message_key d.base64 x (first q)) (sym own)
              ∙ ap (fifo_message_key d.base64 m.queue) (sym at);
          low = omega (arith, ap first own);
          high = omega (arith, ap (last d db) own);
        }
    | inr differ ↦
        let old : IsQueued d first db k b' = fifo.placed k b' (ground (arith, got k)) in
        record {
          message = old.message;
          decoded = old.decoded;
          keyed = old.keyed;
          low = old.low;
          high = old.high;
        }
  ]

  rewritten-IsFifo : IsFifo d first db'
  unfolding last
  rewritten-IsFifo = record {
    bounded = fifo.bounded;
    within = fifo.within;
    stored = λ q' i lo hi.
        let (b', found) = fifo.stored q' i lo hi in
        elim (Bool-cases
          (str_eq (fifo_message_key d.base64 q (first q)) (fifo_message_key d.base64 q' i))) [
            | inl same ↦ (b, got (fifo_message_key d.base64 q' i) ∙ rw same)
            | inr differ ↦ (b', got (fifo_message_key d.base64 q' i) ∙ rw differ found)
          ];
    placed = placed;
  }

  value_at_front : value_at d db' q (first q) ≡ b
  unfolding value_at
  value_at_front = rw (
    got (fifo_message_key d.base64 q (first q)),
    str_eq_refl (fifo_message_key d.base64 q (first q)),
  )

  value_at_kept :
      (q' : QueueName) (i : ℕ)
      → i ≤ last d db q'
      → (q ≡ q' → first q ≢ i)
      → value_at d db' q' i ≡ value_at d db q' i
  unfolding value_at
  value_at_kept q' i hi apart =
      elim (Bool-cases
        (str_eq (fifo_message_key d.base64 q (first q)) (fifo_message_key d.base64 q' i))) [
          | inl same ↦
              let (eq, ei) =
                fifo_message_key_injective d.base64 q q' (first q) i (omega (arith, fifo.bounded q))
                  (omega (arith, fifo.bounded q')) (str_eq_sound _ _ same) in
              absurd (apart eq ei)
          | inr differ ↦ rw (got (fifo_message_key d.base64 q' i), differ)
        ]

  contents-rewritten :
      (q' : QueueName)
      → contents d db' q'
        ≡ decode_values d (
            listing
              (value_at d db' q')
              (fifo_prefix d.base64 q')
              (first q')
              (last d db q' + 1 - first q'))
  unfolding last
  contents-rewritten q' = contents-listing d first db' rewritten-IsFifo q'

  contents_other : (q' : QueueName) → q ≢ q' → contents d db' q' ≡ contents d db q'
  contents_other q' other =
      contents-rewritten q'
      ∙ ap (decode_values d) (
          listing_cong (value_at d db' q') (value_at d db q') (fifo_prefix d.base64 q') (first q')
            (last d db q' + 1 - first q')
            (λ j lo hi. value_at_kept q' j (omega (arith, fifo.within q')) (λ e. absurd (other e))))
      ∙ sym (contents-listing d first db fifo q')

  contents_own :
      (ms : List StoredFifoMessage)
      → decode_values d (
          listing
            (value_at d db q)
            (fifo_prefix d.base64 q)
            (suc (first q))
            (last d db q + 1 - suc (first q)))
        ≡ ok ms
      → contents d db' q ≡ ok (m ∷ ms)
  unfolding decode_values listing
  contents_own ms rest =
      let size : last d db q + 1 - first q ≡ suc (last d db q + 1 - suc (first q)) = omega arith in
      let n = last d db q + 1 - suc (first q) in
      let p = fifo_prefix d.base64 q in
      let tail : listing (value_at d db' q) p (suc (first q)) n
          ≡ listing (value_at d db q) p (suc (first q)) n =
        listing_cong (value_at d db' q) (value_at d db q) p (suc (first q)) n
          (λ j lo hi. value_at_kept q j (omega (arith, fifo.within q)) (λ e. omega arith)) in
      contents-rewritten q
      ∙ ap (λ k. decode_values d (listing (value_at d db' q) p (first q) k)) size
      ∙ rw (value_at_front, decoded, tail, rest)

module _ (d : Deps) where
  -- On well-formed queues a reject of the front message returns true; the queue as a list has the same messages, the
  -- front with one attempt more, every other queue is as it was, and the invariant holds.
  pub reject_fifo-contents :
      (first : QueueName → ℕ) (db : Db d) (q : QueueName) (m : StoredFifoMessage)
      (ms : List StoredFifoMessage)
      → IsFifo d first db
      → contents d db q ≡ ok (m ∷ ms)
      → (db' : Db d) × (reject_fifo d db q m.id ≡ (ok true, db'))
        × IsFifo d first db'
        × (contents d db' q ≡ ok (counted m ∷ ms))
        × ((q' : QueueName) → q ≢ q' → contents d db' q' ≡ contents d db q')
  unfolding reject_fifo update_fifo_front commit act_on act counted
  reject_fifo-contents first db q m ms fifo h =
      let (left, eq, ei, read, rest) = front_facts d first db fifo q m ms h in
      let (b, e) = d.fifo_json.encode_total (counted m) in
      let decoded = d.fifo_json.decode-encode (counted m) e in
      (
        record db {
          fifo_messages = d.insert db.fifo_messages (fifo_message_key d.base64 q (first q)) b;
        },
        rw (front_lem d first db fifo q (m ∷ ms) h, message_id_eq_refl m.id, e),
        rewritten-IsFifo d first db fifo q left (counted m) b eq ei decoded,
        contents_own d first db fifo q left (counted m) b eq ei decoded ms rest,
        contents_other d first db fifo q left (counted m) b eq ei decoded,
      )
