-- ===== src/Redb/Fifo/Queue/Ack.antt =====
-- `ack_fifo` of the front of a queue.
use native.Mathlib.Decide.{dec_lt}
use msgbus.Prelude.{
  ◌⊎◌, ℕ, ◌+◌, ◌-◌, ◌≤◌, ◌≡◌, ◌≢◌, sym, ◌∙◌, ap, true, false, none, some, List, ◌∷◌, arith,
  if◌then◌else◌, Bool-cases, inl, inr,
}
use msgbus.Text.{Str, str_eq}
use msgbus.Text.Order.{str_eq_sound, str_eq_refl}
use msgbus.Text.Window.{listing, listing_cong}
use msgbus.Core.Error.{ok}
use msgbus.Core.Name.{QueueName, message_id_eq_refl}
use msgbus.Core.Message.{Bytes, StoredFifoMessage}
use msgbus.Redb.Deps.{Deps}
use msgbus.Redb.Tables.{get-remove}
use msgbus.Redb.Keys.{fifo_prefix, fifo_message_key, fifo_message_key_injective}
use msgbus.Redb.Db.{Db, commit}
use msgbus.Redb.Fifo.{act_on, act, update_fifo_front, ack_fifo}
use msgbus.Redb.Fifo.Queue.{
  last, IsFifo, IsQueued, contents, decode_values, value_at, contents-listing,
}
use msgbus.Redb.Fifo.Queue.Front.{front_lem, front_facts}

-- The first numbers after the front of `q` is gone.
abbrev pub advance : QueueName → (QueueName → ℕ) → QueueName → ℕ
advance q first q' = if str_eq q.text q'.text then first q' + 1 else first q'

advance_own : (q : QueueName) (first : QueueName → ℕ) → advance q first q ≡ first q + 1
advance_own q first = rw (str_eq_refl q.text)

advance_cases :
    (q q' : QueueName) (first : QueueName → ℕ) → (q ≡ q') ⊎ (advance q first q' ≡ first q')
advance_cases q q' first = elim (Bool-cases (str_eq q.text q'.text)) [
  | inl same ↦ inl (λ i. record { text = str_eq_sound q.text q'.text same i })
  | inr differ ↦ inr (rw differ)
]

advance_other : (q q' : QueueName) (first : QueueName → ℕ) → q ≢ q' → advance q first q' ≡ first q'
advance_other q q' first other = elim (advance_cases q q' first) [
  | inl e ↦ absurd (other e)
  | inr e ↦ e
]

module _ (d : Deps) (first : QueueName → ℕ) (db : Db d) (fifo : IsFifo d first db) (q : QueueName)
    (left : first q ≤ last d db q) where
  abbrev db' : Db d
  db' = record db {
    fifo_messages = d.remove db.fifo_messages (fifo_message_key d.base64 q (first q));
  }

  abbrev first' : QueueName → ℕ
  first' = advance q first

  get-removed :
      (k : Str)
      → d.get db'.fifo_messages k ≡ (
          if str_eq (fifo_message_key d.base64 q (first q)) k
          then none
          else d.get db.fifo_messages k)
  get-removed k = get-remove d.tables db.fifo_messages (fifo_message_key d.base64 q (first q)) k

  -- A number that is still in its queue has a key of its own.
  kept :
      (q' : QueueName) (i : ℕ)
      → first' q' ≤ i
      → i ≤ last d db q'
      → str_eq (fifo_message_key d.base64 q (first q)) (fifo_message_key d.base64 q' i) ≡ false
  kept q' i lo hi =
      elim (Bool-cases
        (str_eq (fifo_message_key d.base64 q (first q)) (fifo_message_key d.base64 q' i))) [
          | inr differ ↦ differ
          | inl same ↦
              let (eq, ei) =
                fifo_message_key_injective d.base64 q q' (first q) i (omega (arith, fifo.bounded q))
                  (omega (arith, fifo.bounded q')) (str_eq_sound _ _ same) in
              absurd (omega (arith, advance_own q first, ap first' eq))
        ]

  first'-le : (q' : QueueName) → first' q' ≤ last d db q' + 1
  first'-le q' = elim (advance_cases q q' first) [
    | inl e ↦ omega (arith, ap first' e, advance_own q first, ap (last d db) e)
    | inr e ↦ omega (arith, fifo.within q')
  ]

  le-first' : (q' : QueueName) → first q' ≤ first' q'
  le-first' q' = ground arith

  placed : (k : Str) (b : Bytes) → d.get db'.fifo_messages k ≡ some b → IsQueued d first' db' k b
  unfolding last
  placed k b h = elim (Bool-cases (str_eq (fifo_message_key d.base64 q (first q)) k)) [
    | inl same ↦ absurd (cc (get-removed k))
    | inr differ ↦
        let old : IsQueued d first db k b = fifo.placed k b (ground (arith, get-removed k)) in
        record {
          message = old.message;
          decoded = old.decoded;
          keyed = old.keyed;
          low = elim (advance_cases q old.message.queue first) [
            | inr e ↦ omega (arith, old.low)
            | inl e ↦ elim (dec_lt (first q) old.message.sequence) [
              | yes later ↦ omega (arith, ap first' e, advance_own q first)
              | no not_later ↦
                  let at : first q ≡ old.message.sequence = omega (arith, old.low, ap first e) in
                  absurd (
                    cc (
                      str_eq_refl k,
                      old.keyed,
                      ap (λ x. fifo_message_key d.base64 x (first q)) e,
                      ap (fifo_message_key d.base64 old.message.queue) at,
                    ))
            ]
          ];
          high = old.high;
        }
  ]

  removed-IsFifo : IsFifo d first' db'
  unfolding last
  removed-IsFifo = record {
    bounded = fifo.bounded;
    within = first'-le;
    stored = λ q' i lo hi.
        let (b, found) = fifo.stored q' i (omega (arith, le-first' q')) hi in
        (b, get-removed (fifo_message_key d.base64 q' i) ∙ rw (kept q' i lo hi) found);
    placed = placed;
  }

  value_at_kept :
      (q' : QueueName) (i : ℕ)
      → first' q' ≤ i
      → i ≤ last d db q'
      → value_at d db' q' i ≡ value_at d db q' i
  unfolding value_at
  value_at_kept q' i lo hi = rw (get-removed (fifo_message_key d.base64 q' i), kept q' i lo hi)

  contents-removed :
      (q' : QueueName)
      → contents d db' q'
        ≡ decode_values d (
            listing
              (value_at d db q')
              (fifo_prefix d.base64 q')
              (first' q')
              (last d db q' + 1 - first' q'))
  unfolding last
  contents-removed q' =
      contents-listing d first' db' removed-IsFifo q'
      ∙ ap (decode_values d) (
          listing_cong (value_at d db' q') (value_at d db q') (fifo_prefix d.base64 q') (first' q')
            (last d db q' + 1 - first' q')
            (λ j lo hi. value_at_kept q' j lo (omega (arith, first'-le q'))))

module _ (d : Deps) where
  -- On well-formed queues an ack of the front message returns true and removes it: the queue as a list loses its head,
  -- every other queue is as it was, and the invariant holds.
  pub ack_fifo-contents :
      (first : QueueName → ℕ) (db : Db d) (q : QueueName) (m : StoredFifoMessage)
      (ms : List StoredFifoMessage)
      → IsFifo d first db
      → contents d db q ≡ ok (m ∷ ms)
      → (db' : Db d) × (ack_fifo d db q m.id ≡ (ok true, db'))
        × IsFifo d (advance q first) db'
        × (contents d db' q ≡ ok ms)
        × ((q' : QueueName) → q ≢ q' → contents d db' q' ≡ contents d db q')
  unfolding ack_fifo update_fifo_front commit act_on act
  ack_fifo-contents first db q m ms fifo h =
      let (left, eq, ei, read, rest) = front_facts d first db fifo q m ms h in
      (
        record db {
          fifo_messages = d.remove db.fifo_messages (fifo_message_key d.base64 q (first q));
        },
        rw (front_lem d first db fifo q (m ∷ ms) h, message_id_eq_refl m.id),
        removed-IsFifo d first db fifo q left,
        contents-removed d first db fifo q left q
            ∙ ap
                (λ i.
                  decode_values d
                    (listing (value_at d db q) (fifo_prefix d.base64 q) i (last d db q + 1 - i)))
                (advance_own q first ∙ omega arith)
            ∙ rest,
        λ q' other.
            contents-removed d first db fifo q left q'
            ∙ ap
                (λ i.
                  decode_values d
                    (listing (value_at d db q') (fifo_prefix d.base64 q') i (last d db q' + 1 - i)))
                (advance_other q q' first other)
            ∙ sym (contents-listing d first db fifo q'),
      )
