-- ===== src/Redb/Log/Write.antt =====
-- A message written to a log at the next head, or at one that is there.
use native.Mathlib.Decide.{dec_le}
use msgbus.Prelude.{ℕ, ◌+◌, ◌≤◌, ◌≡◌, ◌⊎◌, sym, ap, false, some, arith, Bool-cases, inl, inr}
use msgbus.Text.{Str, str_eq}
use msgbus.Text.Order.{str_eq_sound, str_eq_refl}
use msgbus.Core.Error.{ok}
use msgbus.Core.Word.{HeadId, u64_max}
use msgbus.Core.Name.{Topic}
use msgbus.Core.Node.{NodeId}
use msgbus.Core.Message.{Bytes, StoredMessage}
use msgbus.Redb.Deps.{Deps}
use msgbus.Redb.Tables.{get-insert}
use msgbus.Redb.Keys.{message_key, head_key, head_key_injective, message_prefix_cong}
use msgbus.Redb.Db.{Db}
use msgbus.Redb.Messages.{current_head_in_txn}
use msgbus.Redb.Replicate.{raise_head}
use msgbus.Redb.Log.{
  IsLog, IsPlaced, log_write, get-log_write, head-log_write, raise_head-tombstones,
}

module _ (d : Deps) (db : Db d) (m : StoredMessage) (b : Bytes) where
  abbrev head : Topic → NodeId → ℕ
  head = current_head_in_txn d db

  abbrev head' : Topic → NodeId → ℕ
  head' = current_head_in_txn d (log_write d db m b)

  head-le-head' : (t : Topic) (o : NodeId) → head t o ≤ head' t o
  head-le-head' t o = ground (arith, head-log_write d db m b t o)

  own_head : m.head_id ≤ head' m.topic m.origin
  own_head = ground (
    arith,
    head-log_write d db m b m.topic m.origin,
    str_eq_refl (head_key d.base64 m.topic m.origin),
  )

  -- Where the head moved, the message is of that log.
  moved :
      (t : Topic) (o : NodeId) (i : ℕ)
      → i ≤ head' t o
      → (i ≤ head t o)
        ⊎ ((i ≤ m.head_id) × (head_key d.base64 m.topic m.origin ≡ head_key d.base64 t o))
  moved t o i h = ground (
    arith,
    head-log_write d db m b t o,
    str_eq_sound (head_key d.base64 m.topic m.origin) (head_key d.base64 t o),
  )

  head_of_key :
      (t t' : Topic) (o o' : NodeId)
      → head_key d.base64 t o ≡ head_key d.base64 t' o'
      → head t o ≡ head t' o'
  unfolding current_head_in_txn
  head_of_key t t' o o' e = cc

  message_key_of_head :
      (t t' : Topic) (o o' : NodeId) (i : ℕ)
      → head_key d.base64 t o ≡ head_key d.base64 t' o'
      → message_key d.base64 t o i ≡ message_key d.base64 t' o' i
  unfolding message_key
  message_key_of_head t t' o o' i e =
      let (et, eo) = head_key_injective d.base64 t t' o o' e in
      cc (message_prefix_cong d.base64 t o o' eo)

  -- An entry of HEADS is an old one, or the head of the message.
  heads_of :
      (k : Str) (h : ℕ)
      → d.get (log_write d db m b).heads k ≡ some h
      → (d.get db.heads k ≡ some h) ⊎ ((k ≡ head_key d.base64 m.topic m.origin) × (h ≡ m.head_id))
  unfolding raise_head
  heads_of k h e = ground (
    arith,
    get-insert d.tables db.heads (head_key d.base64 m.topic m.origin) k m.head_id,
    str_eq_sound (head_key d.base64 m.topic m.origin) k,
  )

  module _ (log : IsLog d db) (low : 1 ≤ m.head_id) (next : m.head_id ≤ head m.topic m.origin + 1)
      (fits : m.head_id ≤ u64_max) (decoded : d.message_json.decode b ≡ ok m) where
    bounded : (t : Topic) (o : NodeId) → head' t o ≤ u64_max
    bounded t o = ground (arith, head-log_write d db m b t o, log.bounded t o)

    stored :
        (t : Topic) (o : NodeId) (i : HeadId)
        → 1 ≤ i
        → i ≤ head' t o
        → (b' : Bytes) × (d.get (log_write d db m b).messages (message_key d.base64 t o i)
            ≡ some b')
    stored t o i lo hi =
        elim (Bool-cases
          (str_eq (message_key d.base64 m.topic m.origin m.head_id) (message_key d.base64 t o i))) [
            | inl same ↦ (b, rw (get-log_write d db m b (message_key d.base64 t o i), same))
            | inr differ ↦
                let (b', found) = log.stored t o i lo (below differ) in
                (b', rw (get-log_write d db m b (message_key d.base64 t o i), differ) found)
          ]
      where
        below :
            str_eq (message_key d.base64 m.topic m.origin m.head_id) (message_key d.base64 t o i)
              ≡ false
            → i ≤ head t o
        below differ = elim (moved t o i hi) [
          | inl old ↦ old
          | inr (le, e) ↦ elim (dec_le i (head t o)) [
            | yes old ↦ old
            | no new ↦
                let at : m.head_id ≡ i = omega (arith, head_of_key m.topic t m.origin o e) in
                cc (
                  str_eq_refl (message_key d.base64 t o i),
                  message_key_of_head m.topic t m.origin o i e,
                  ap (message_key d.base64 m.topic m.origin) at,
                )
          ]
        ]

    placed :
        (k : Str) (b' : Bytes)
        → d.get (log_write d db m b).messages k ≡ some b'
        → IsPlaced d (log_write d db m b) k b'
    placed k b' h =
        let got = get-log_write d db m b k in
        elim (Bool-cases (str_eq (message_key d.base64 m.topic m.origin m.head_id) k)) [
          | inl same ↦
              let e : b ≡ b' = ground (arith, got) in
              record {
                message = m;
                decoded = rw (← e) decoded;
                keyed = sym (str_eq_sound _ k same);
                low = low;
                high = own_head;
              }
          | inr differ ↦
              let old : IsPlaced d db k b' = log.placed k b' (ground (arith, got)) in
              record {
                message = old.message;
                decoded = old.decoded;
                keyed = old.keyed;
                low = old.low;
                high = omega (arith, old.high, head-le-head' old.message.topic old.message.origin);
              }
        ]

    headed :
        (k : Str) (h : ℕ)
        → d.get (log_write d db m b).heads k ≡ some h
        → (t : Topic) × (o : NodeId) × (k ≡ head_key d.base64 t o) × (1 ≤ h)
    headed k h e = elim (heads_of k h e) [
      | inl old ↦ log.headed k h old
      | inr (at, value) ↦ (m.topic, m.origin, at, rw value low)
    ]

    pub log_write-IsLog : IsLog d (log_write d db m b)
    log_write-IsLog = record {
      bounded = bounded;
      stored = stored;
      placed = placed;
      headed = headed;
      readable = λ k v e. log.readable k v (rw (raise_head-tombstones d _ m) at e);
    }
