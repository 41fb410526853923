-- ===== src/Redb/Log/Entries.antt =====
-- What a log holds under the invariant: the message at each head, and the page of keys from a
-- head on. `read_message` and `read_run` read it one head at a time.
use native.Mathlib.Decide.{dec_le}
use msgbus.Prelude.{
  ℕ, zero, suc, ◌+◌, ◌-◌, ◌≤◌, ◌<◌, max, ◌≡◌, sym, ◌∙◌, ap, subst, true, Option, none, some, List,
  [], ◌∷◌, arith, ltb, unwrap_or,
}
use msgbus.Text.{Str, starts_with, zero_padded}
use msgbus.Text.Prefix.{str_lt-prefix}
use msgbus.Text.Window.{slot, str_lt-slot-ltb, prefix_run, listing, IsInterval, run-range_from}
use msgbus.Core.Error.{Result, ok, err, not_found, ◌>>=◌}
use msgbus.Core.Word.{HeadId, u64_max}
use msgbus.Core.Name.{Topic}
use msgbus.Core.Node.{NodeId, key}
use msgbus.Core.Message.{Bytes, StoredMessage}
use msgbus.Redb.Deps.{Deps}
use msgbus.Redb.Keys.{
  message_prefix, message_key, message_key-prefix, message_prefix_cong, head_key_cong,
  message_key_injective,
}
use msgbus.Redb.Db.{Db}
use msgbus.Redb.Messages.{current_head_in_txn}
use msgbus.Redb.Log.{IsLog, IsPlaced, log_write, get-log_write}
use msgbus.Text.Order.{str_eq_refl}

module _ (d : Deps) where
  unfoldable pub decode_at : Option Bytes → Result StoredMessage
  decode_at none = err (not_found [])
  decode_at (some b) = d.message_json.decode b

  -- The reference: one lookup of one head.
  unfoldable pub read_message : Db d → Topic → NodeId → HeadId → Result StoredMessage
  read_message db t o i = decode_at (d.get db.messages (message_key d.base64 t o i))

  pub read_message-log_write :
      (db : Db d) (m : StoredMessage) (b : Bytes)
      → d.message_json.encode m ≡ ok b
      → read_message (log_write d db m b) m.topic m.origin m.head_id ≡ ok m
  unfolding read_message decode_at
  read_message-log_write db m b enc =
      let k = message_key d.base64 m.topic m.origin m.head_id in
      rw (get-log_write d db m b k, str_eq_refl k) (d.message_json.decode-encode m enc)

  -- The reference for a page: `n` lookups from the head `i` on.
  unfoldable pub read_run : Db d → Topic → NodeId → HeadId → ℕ → Result (List StoredMessage)
  read_run db t o i zero = ok []
  read_run db t o i (suc n) = do
    m ← read_message db t o i
    ms ← read_run db t o (suc i) n
    ok (m ∷ ms)

  -- What is stored at a head of a log.
  pub record Entry (db : Db d) (t : Topic) (o : NodeId) (i : HeadId) : Type 0 where
    pub bytes : Bytes
    pub message : StoredMessage
    pub found : d.get db.messages (message_key d.base64 t o i) ≡ some bytes
    pub decoded : d.message_json.decode bytes ≡ ok message
    pub topic : message.topic ≡ t
    pub origin : key message.origin ≡ key o
    pub head_id : message.head_id ≡ i

  module _ (db : Db d) (log : IsLog d db) (t : Topic) (o : NodeId) where
    abbrev pub head : ℕ
    head = current_head_in_txn d db t o

    abbrev pub prefix : Str
    prefix = message_prefix d.base64 t o

    head_of_key :
        (t' : Topic) (o' : NodeId) → t' ≡ t → key o' ≡ key o → current_head_in_txn d db t' o' ≡ head
    unfolding current_head_in_txn
    head_of_key t' o' et eo = cc (head_key_cong d.base64 t' o' o eo)

    pub log-Entry : (i : HeadId) → 1 ≤ i → i ≤ head → Entry db t o i
    log-Entry i lo hi =
        let (b, found) = log.stored t o i lo hi in
        let p = log.placed (message_key d.base64 t o i) b found in
        let same =
          message_key_injective d.base64 t p.message.topic o p.message.origin i p.message.head_id
            (omega (arith, log.bounded t o))
            (omega (arith, p.high, log.bounded p.message.topic p.message.origin)) p.keyed in
        record {
          bytes = b;
          message = p.message;
          found = found;
          decoded = p.decoded;
          topic = sym same.0;
          origin = sym same.1;
          head_id = sym same.2;
        }

    pub value_at : ℕ → Bytes
    value_at i = unwrap_or (d.get db.messages (message_key d.base64 t o i)) []

    pub value_at_found :
        (i : ℕ)
        → 1 ≤ i
        → i ≤ head
        → d.get db.messages (message_key d.base64 t o i) ≡ some (value_at i)
    unfolding value_at
    value_at_found i lo hi = let e = log-Entry i lo hi in rw e.found

    placed_slot :
        (k : Str) (b : Bytes)
        → IsPlaced d db k b
        → starts_with k prefix ≡ true
        → (j : ℕ) × (1 ≤ j) × (j < head + 1) × (k ≡ slot prefix j)
    unfolding message_key
    placed_slot k b p under =
        let m = p.message in
        let own : starts_with (message_key d.base64 m.topic m.origin m.head_id) prefix ≡ true =
          rw (← p.keyed) under in
        let (et, eo) = message_key-prefix d.base64 m.topic m.origin m.head_id t o own in
        let at = head_of_key m.topic m.origin et eo in
        (
          m.head_id,
          p.low,
          omega (arith, p.high),
          p.keyed
              ∙ ap (λ q. slot q m.head_id)
                  (message_prefix_cong d.base64 m.topic m.origin o eo
                    ∙ ap (λ x. message_prefix d.base64 x o) et),
        )

    log-IsInterval : IsInterval value_at prefix 1 (head + 1) (d.entries db.messages)
    unfolding message_key
    log-IsInterval = record {
      sorted = d.entries-IsSorted db.messages;
      bound = omega (arith, log.bounded t o);
      found = λ j lo hi.
          sym (d.get_lem db.messages (slot prefix j)) ∙ value_at_found j lo (omega arith);
      only = λ k v h under. placed_slot k v (log.placed k v (d.get_lem db.messages k ∙ h)) under;
    }

    -- The page of a query starts at its head, but not below 1.
    pub log_listing :
        (from : HeadId)
        → from ≤ u64_max
        → prefix_run prefix (d.range db.messages (message_key d.base64 t o from))
          ≡ listing value_at prefix (max 1 from) (head + 1 - max 1 from)
    unfolding message_key listing
    log_listing from fits = elim (dec_le from (head + 1)) [
      | yes within ↦ rw (d.range_lem db.messages (slot prefix from)) (
          run-range_from value_at prefix (slot prefix from) 1 (max 1 from) (head + 1 - max 1 from)
            (d.entries db.messages) (omega arith)
            (subst (λ end. IsInterval value_at prefix 1 end (d.entries db.messages)) (omega arith)
              log-IsInterval)
            (unfold slot in str_lt-prefix prefix (zero_padded 20 from))
            (λ j lo hi.
              str_lt-slot-ltb prefix j from (omega (arith, log.bounded t o)) (omega arith)
              ∙ from_one j lo))
      | no beyond ↦
          rw (d.range_lem db.messages (slot prefix from), none_left beyond)
            (run-range_from value_at prefix (slot prefix from) 1 (head + 1) 0
              (d.entries db.messages) (omega arith)
              (subst (λ end. IsInterval value_at prefix 1 end (d.entries db.messages)) (omega arith)
                log-IsInterval)
              (unfold slot in str_lt-prefix prefix (zero_padded 20 from))
              (λ j lo hi.
                str_lt-slot-ltb prefix j from (omega (arith, log.bounded t o)) (omega arith)
                ∙ all_below j beyond hi))
    ]
      where
        from_one : (j : ℕ) → 1 ≤ j → ltb j from ≡ ltb j (max 1 from)
        from_one j lo = ground arith

        all_below : (j : ℕ) → ¬ (from ≤ head + 1) → j < head + 1 + 0 → ltb j from ≡ ltb j (head + 1)
        all_below j beyond hi = ground arith

        none_left : ¬ (from ≤ head + 1) → head + 1 - max 1 from ≡ 0
        none_left beyond = omega arith
