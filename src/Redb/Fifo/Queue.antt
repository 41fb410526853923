-- ===== src/Redb/Fifo/Queue.antt =====
-- The invariant of a queue's table: the numbers of a queue's messages are an interval that ends at
-- the counter, and each value is a message at its own key. `contents` is the queue as a list.
pub mod Enqueue
pub mod Front
pub mod Ack
pub mod Reject
pub mod Fresh
use msgbus.Prelude.{
  ℕ, zero, suc, ◌+◌, ◌-◌, ◌^◌, ◌≤◌, ◌<◌, ◌≡◌, refl, sym, ◌∙◌, ap, subst, true, false, Option, none,
  some, List, [], ◌∷◌, ◌++◌, arith, ltb, if◌then◌else◌, unwrap_or, head?, length,
}
use msgbus.Text.{Str, starts_with, zero_padded}
use msgbus.Text.Order.{str_lt_irrefl}
use msgbus.Text.Prefix.{str_lt-prefix}
use msgbus.Text.SortedMap.{SortedMap, lookup}
use msgbus.Text.Window.{slot, slot-starts_with, prefix_run, listing, IsInterval, run-range_from}
use msgbus.Core.Error.{Result, ok, err, ◌>>=◌}
use msgbus.Core.Word.{u64_max}
use msgbus.Core.Name.{QueueName}
use msgbus.Core.Message.{Bytes, StoredFifoMessage}
use msgbus.Redb.Deps.{Deps}
use msgbus.Redb.Keys.{
  fifo_prefix, fifo_message_key, fifo_sequence_key, fifo_message_key-prefix,
  fifo_message_key_injective,
}
use msgbus.Redb.Db.{Db}
use msgbus.Redb.Fifo.{front_entry, front, peek_fifo, message_of}

module _ (d : Deps) where
  -- The last number that the queue gave out.
  unfoldable pub last : Db d → QueueName → ℕ
  last db q = unwrap_or (d.get db.fifo_sequences (fifo_sequence_key d.base64 q)) 0

  pub record IsQueued (first : QueueName → ℕ) (db : Db d) (k : Str) (b : Bytes) : Type 0 where
    pub message : StoredFifoMessage
    pub decoded : d.fifo_json.decode b ≡ ok message
    pub keyed : k ≡ fifo_message_key d.base64 message.queue message.sequence
    pub low : first message.queue ≤ message.sequence
    pub high : message.sequence ≤ last db message.queue

  -- Each queue holds the numbers from its first one up to its counter.
  pub record IsFifo (first : QueueName → ℕ) (db : Db d) : Type 0 where
    pub bounded : (q : QueueName) → last db q ≤ u64_max
    pub within : (q : QueueName) → first q ≤ last db q + 1
    pub stored :
        (q : QueueName) (i : ℕ)
        → first q ≤ i
        → i ≤ last db q
        → (b : Bytes) × (d.get db.fifo_messages (fifo_message_key d.base64 q i) ≡ some b)
    pub placed : (k : Str) (b : Bytes) → d.get db.fifo_messages k ≡ some b → IsQueued first db k b

  unfoldable pub decode_values : SortedMap Bytes → Result (List StoredFifoMessage)
  decode_values [] = ok []
  decode_values ((k, v) ∷ m) = do
    message ← d.fifo_json.decode v
    rest ← decode_values m
    ok (message ∷ rest)

  -- The queue as a list: every message under its prefix, in the order of the keys.
  unfoldable pub contents : Db d → QueueName → Result (List StoredFifoMessage)
  unfolding decode_values
  contents db q =
      let p = fifo_prefix d.base64 q in decode_values (prefix_run p (d.range db.fifo_messages p))

  -- The messages are of the queue and have the numbers `i`, `i + 1`, ….
  pub IsNumbered : QueueName → ℕ → List StoredFifoMessage → Type 0
  IsNumbered q i [] = Unit
  IsNumbered q i (m ∷ ms) = (m.queue ≡ q) × (m.sequence ≡ i) × IsNumbered q (suc i) ms

  unfoldable pub value_at : Db d → QueueName → ℕ → Bytes
  value_at db q i = unwrap_or (d.get db.fifo_messages (fifo_message_key d.base64 q i)) []

  module _ (first : QueueName → ℕ) (db : Db d) (fifo : IsFifo first db) (q : QueueName) where
    abbrev prefix : Str
    prefix = fifo_prefix d.base64 q

    queued_slot :
        (k : Str) (b : Bytes)
        → IsQueued first db k b
        → starts_with k prefix ≡ true
        → (j : ℕ) × (first q ≤ j) × (j < last db q + 1) × (k ≡ slot prefix j)
    unfolding fifo_message_key
    queued_slot k b p under =
        let m = p.message in
        let same : m.queue ≡ q =
          fifo_message_key-prefix d.base64 m.queue q m.sequence (rw (← p.keyed) under) in
        (
          m.sequence,
          subst (λ x. first x ≤ m.sequence) same p.low,
          omega (arith, subst (λ x. m.sequence ≤ last db x) same p.high),
          p.keyed ∙ ap (λ x. slot (fifo_prefix d.base64 x) m.sequence) same,
        )

    pub fifo_listing :
        prefix_run prefix (d.range db.fifo_messages prefix)
        ≡ listing (value_at db q) prefix (first q) (last db q + 1 - first q)
    unfolding fifo_message_key value_at
    fifo_listing = rw (d.range_lem db.fifo_messages prefix) (
        run-range_from (value_at db q) prefix prefix (first q) (first q) (last db q + 1 - first q)
          (d.entries db.fifo_messages) (omega arith)
          (record {
            sorted = d.entries-IsSorted db.fifo_messages;
            bound = omega (arith, fifo.bounded q, fifo.within q);
            found = λ j lo hi.
                let (b, e) = fifo.stored q j lo (omega (arith, fifo.within q)) in
                sym (d.get_lem db.fifo_messages (slot prefix j)) ∙ rw e;
            only = λ k v h under.
                let (j, lo, hi, e) =
                  queued_slot k v (fifo.placed k v (d.get_lem db.fifo_messages k ∙ h)) under in
                (j, lo, omega (arith, fifo.within q), e);
          })
          (str_lt_irrefl prefix)
          (λ j lo hi. unfold slot in str_lt-prefix prefix (zero_padded 20 j) ∙ sym (reached j lo)))
      where
        reached : (j : ℕ) → first q ≤ j → ltb j (first q) ≡ false
        reached j lo = ground arith

    -- On a well-formed queue, `contents` is the list of its messages and cannot fail.
    pub contents-listing :
        contents db q
        ≡ decode_values (listing (value_at db q) prefix (first q) (last db q + 1 - first q))
    unfolding contents
    contents-listing = ap decode_values fifo_listing

    -- Each number of the queue is that of a message of the queue.
    pub entry_at :
        (i : ℕ)
        → first q ≤ i
        → i ≤ last db q
        → (m : StoredFifoMessage) × (d.fifo_json.decode (value_at db q i) ≡ ok m)
          × (m.queue ≡ q)
          × (m.sequence ≡ i)
    unfolding value_at
    entry_at i lo hi =
        let (b, e) = fifo.stored q i lo hi in
        let p = fifo.placed _ b e in
        let (eq, ei) =
          fifo_message_key_injective d.base64 q p.message.queue i p.message.sequence
            (omega (arith, fifo.bounded q)) (omega (arith, p.high, fifo.bounded p.message.queue))
            p.keyed in
        (p.message, rw e p.decoded, sym eq, sym ei)

    listing_total :
        (i n : ℕ)
        → first q ≤ i
        → n ≤ last db q + 1 - i
        → (ms : List StoredFifoMessage) × (decode_values (listing (value_at db q) prefix i n)
            ≡ ok ms)
          × (length ms ≡ n)
          × IsNumbered q i ms
    unfolding decode_values listing IsNumbered
    listing_total i zero lo hi = ([], refl, refl, tt)
    listing_total i (suc n) lo hi =
        let (m, read, eq, ei) = entry_at i lo (omega arith) in
        let (ms, rest, len, numbered) = listing_total (suc i) n (omega arith) (omega arith) in
        (m ∷ ms, rw (read, rest), omega arith, (eq, ei, numbered))

    -- A well-formed queue can be read whole: its messages are numbered from the first number up to
    -- the counter, without a gap.
    pub contents_total :
        (ms : List StoredFifoMessage) × (contents db q ≡ ok ms)
        × (length ms ≡ last db q + 1 - first q)
        × IsNumbered q (first q) ms
    contents_total =
        let (ms, e, len, numbered) =
          listing_total (first q) (last db q + 1 - first q) (omega arith) (omega arith) in
        (ms, contents-listing ∙ e, len, numbered)
