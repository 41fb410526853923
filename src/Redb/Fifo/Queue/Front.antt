-- ===== src/Redb/Fifo/Queue/Front.antt =====
-- `peek_fifo`, `ack_fifo` and `reject_fifo` on the front of the queue as a list.
use native.Mathlib.Decide.{dec_le}
use msgbus.Prelude.{
  ℕ, zero, suc, ◌+◌, ◌-◌, ◌≤◌, ◌≡◌, ◌≢◌, refl, sym, ◌∙◌, ap, false, Option, none, some, List, [],
  ◌∷◌, arith, Bool-cases, inl, inr, head?,
}
use msgbus.Text.{Str}
use msgbus.Text.SortedMap.{SortedMap}
use msgbus.Text.Window.{slot-starts_with, prefix_run, listing}
use msgbus.Core.Error.{Result, ok, >>=-eq-ok}
use msgbus.Core.Name.{QueueName, MessageId, message_id_eq, message_id_eq_sound}
use msgbus.Core.Message.{Bytes, StoredFifoMessage}
use msgbus.Redb.Deps.{Deps}
use msgbus.Redb.Keys.{fifo_prefix, fifo_message_key}
use msgbus.Redb.Db.{Db, commit}
use msgbus.Redb.Fifo.{FifoFrontAction, front_entry, front, peek_fifo, act_on, update_fifo_front}
use msgbus.Redb.Fifo.Queue.{
  last, IsFifo, contents, decode_values, value_at, contents-listing, fifo_listing, entry_at,
}

module _ (d : Deps) where
  -- The front of a list, with its key.
  abbrev pub keyed_head :
      Db d → QueueName → ℕ → List StoredFifoMessage → Option (Str × StoredFifoMessage)
  keyed_head db q i [] = none
  keyed_head db q i (m ∷ ms) = some (fifo_message_key d.base64 q i, m)

  front_entry-prefix_run :
      (p : Str) (l : SortedMap Bytes) → front_entry d p l ≡ front_entry d p (prefix_run p l)
  unfolding front_entry prefix_run
  front_entry-prefix_run p [] = refl
  front_entry-prefix_run p ((k, v) ∷ l) = ground arith

  -- What the front of a listing decodes to is the front of what the listing decodes to.
  front_entry-listing :
      (db : Db d) (q : QueueName) (val : ℕ → Bytes) (i n : ℕ) (ms : List StoredFifoMessage)
      → decode_values d (listing val (fifo_prefix d.base64 q) i n) ≡ ok ms
      → front_entry d (fifo_prefix d.base64 q) (listing val (fifo_prefix d.base64 q) i n)
        ≡ ok (keyed_head db q i ms)
  unfolding front_entry listing decode_values fifo_message_key
  front_entry-listing db q val i zero [] h = refl
  front_entry-listing db q val i zero (m ∷ ms) h = cc
  front_entry-listing db q val i (suc n) ms h =
      let (x, read, rest) = >>=-eq-ok (d.fifo_json.decode (val i)) _ h in
      let (xs, later, whole) = >>=-eq-ok (decode_values d (listing val _ (suc i) n)) _ rest in
      let split : x ∷ xs ≡ ms = cc in
      rw (slot-starts_with (fifo_prefix d.base64 q) i, read)
        (ap (λ l. ok (keyed_head db q i l)) split)

  ok_injective :
      {x y : StoredFifoMessage} → ◌≡◌ {A = Result StoredFifoMessage} (ok x) (ok y) → x ≡ y
  ok_injective h = cc

  decode_values_empty :
      (m : StoredFifoMessage) (ms : List StoredFifoMessage) → decode_values d [] ≡ ok (m ∷ ms) → ⊥
  unfolding decode_values
  decode_values_empty m ms h = cc

  decode_values_cons :
      (k : Str) (v : Bytes) (l : SortedMap Bytes) (m : StoredFifoMessage)
      (ms : List StoredFifoMessage)
      → decode_values d ((k, v) ∷ l) ≡ ok (m ∷ ms)
      → (d.fifo_json.decode v ≡ ok m) × (decode_values d l ≡ ok ms)
  unfolding decode_values
  decode_values_cons k v l m ms h =
      let (x, read, rest) = >>=-eq-ok (d.fifo_json.decode v) _ h in
      let (xs, later, same) = >>=-eq-ok (decode_values d l) _ rest in
      let (ex, exs) = cons_injective x m xs ms same in (read ∙ ap ok ex, later ∙ ap ok exs)
    where
      cons_injective :
          (x y : StoredFifoMessage) (xs ys : List StoredFifoMessage)
          → ◌≡◌ {A = Result (List StoredFifoMessage)} (ok (x ∷ xs)) (ok (y ∷ ys))
          → (x ≡ y) × (xs ≡ ys)
      cons_injective x y xs ys e = (cc, cc)

  module _ (first : QueueName → ℕ) (db : Db d) (fifo : IsFifo d first db) (q : QueueName) where
    pub front_lem :
        (ms : List StoredFifoMessage)
        → contents d db q ≡ ok ms
        → front d db q ≡ ok (keyed_head db q (first q) ms)
    unfolding front
    front_lem ms h =
        let p = fifo_prefix d.base64 q in
        front_entry-prefix_run p (d.range db.fifo_messages p)
        ∙ ap (front_entry d p) (fifo_listing d first db fifo q)
        ∙ front_entry-listing db q (value_at d db q) (first q) (last d db q + 1 - first q) ms
            (sym (contents-listing d first db fifo q) ∙ h)

    -- On a well-formed queue a peek returns the front of the list, or nothing if it is empty.
    pub peek_fifo_lem :
        (ms : List StoredFifoMessage) → contents d db q ≡ ok ms → peek_fifo d db q ≡ ok (head? ms)
    unfolding peek_fifo
    peek_fifo_lem [] h = rw (front_lem [] h)
    peek_fifo_lem (m ∷ ms) h = rw (front_lem (m ∷ ms) h)

    -- On a well-formed queue without a front, or with an identifier that is not the front's, an ack
    -- or a reject returns false and changes nothing.
    pub update_fifo_front_other :
        (ms : List StoredFifoMessage) (id : MessageId) (action : FifoFrontAction)
        → contents d db q ≡ ok ms
        → ((m : StoredFifoMessage) → head? ms ≡ some m → m.id ≢ id)
        → update_fifo_front d db q id action ≡ (ok false, db)
    unfolding update_fifo_front commit act_on
    update_fifo_front_other [] id action h other = rw (front_lem [] h)
    update_fifo_front_other (m ∷ ms) id action h other = elim (Bool-cases (message_id_eq m.id id)) [
      | inl same ↦ absurd (other m refl (message_id_eq_sound m.id id same))
      | inr differ ↦ rw (front_lem (m ∷ ms) h, differ)
    ]

    -- What is known of a front: its number, its value and what is behind it.
    pub front_facts :
        (m : StoredFifoMessage) (ms : List StoredFifoMessage)
        → contents d db q ≡ ok (m ∷ ms)
        → (first q ≤ last d db q)
          × (m.queue ≡ q)
          × (m.sequence ≡ first q)
          × (d.fifo_json.decode (value_at d db q (first q)) ≡ ok m)
          × (decode_values d (
                listing
                  (value_at d db q)
                  (fifo_prefix d.base64 q)
                  (suc (first q))
                  (last d db q + 1 - suc (first q)))
              ≡ ok ms)
    unfolding listing
    front_facts m ms h = elim (dec_le (first q) (last d db q)) [
      | no empty ↦
          let size : last d db q + 1 - first q ≡ 0 = omega arith in
          absurd (
            decode_values_empty m ms (
              sym (
                ap
                  (λ n.
                    decode_values d
                      (listing (value_at d db q) (fifo_prefix d.base64 q) (first q) n))
                  size)
              ∙ sym (contents-listing d first db fifo q)
              ∙ h))
      | yes some_left ↦
          let size : last d db q + 1 - first q ≡ suc (last d db q + 1 - suc (first q)) =
            omega arith in
          let whole =
            sym (
              ap
                (λ n.
                  decode_values d (listing (value_at d db q) (fifo_prefix d.base64 q) (first q) n))
                size)
            ∙ sym (contents-listing d first db fifo q)
            ∙ h in
          let (read, rest) = decode_values_cons _ (value_at d db q (first q)) _ m ms whole in
          let (y, read', eq, ei) = entry_at d first db fifo q (first q) (omega arith) some_left in
          let is_entry : y ≡ m = ok_injective (sym read' ∙ read) in
          (
            some_left,
            ap (λ (z : StoredFifoMessage). z.queue) (sym is_entry) ∙ eq,
            ap (λ (z : StoredFifoMessage). z.sequence) (sym is_entry) ∙ ei,
            read,
            rest,
          )
    ]
