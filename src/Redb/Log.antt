-- ===== src/Redb/Log.antt =====
-- The invariant of the tables MESSAGES and HEADS: for every topic and origin the stored heads are
-- exactly 1 up to the head, every value is a message at its own key, and every tombstone can be
-- read.
pub mod Write
pub mod Append
pub mod Entries
pub mod Fetch
pub mod Fresh
pub mod Replicate
pub mod Updates
pub mod Collect
pub mod Tombstone
pub mod Deleted
pub mod Marker
pub mod Heads
use msgbus.Prelude.{
  ℕ, ◌+◌, ◌≤◌, ◌<◌, max, ◌≡◌, refl, sym, ◌∙◌, true, false, some, arith, ltb, if◌then◌else◌,
  unwrap_or, Bool-cases, inl, inr,
}
use msgbus.Text.{Str, str_eq}
use msgbus.Text.Order.{str_eq_sound, str_eq_refl}
use msgbus.Core.Error.{ok}
use msgbus.Core.Word.{HeadId, u64_max}
use msgbus.Core.Name.{Topic}
use msgbus.Core.Node.{NodeId, key}
use msgbus.Core.Message.{Bytes, StoredMessage, TombstoneRange}
use msgbus.Redb.Deps.{Deps}
use msgbus.Redb.Tables.{get-insert, get-insert_self}
use msgbus.Redb.Keys.{
  message_key, head_key, message_key_injective, head_key_injective, head_key_cong,
}
use msgbus.Redb.Db.{Db}
use msgbus.Redb.Messages.{current_head_in_txn}
use msgbus.Redb.Replicate.{raise_head}

module _ (d : Deps) where
  -- The value is a message of the log at its own key.
  pub record IsPlaced (db : Db d) (k : Str) (b : Bytes) : Type 0 where
    pub message : StoredMessage
    pub decoded : d.message_json.decode b ≡ ok message
    pub keyed : k ≡ message_key d.base64 message.topic message.origin message.head_id
    pub low : 1 ≤ message.head_id
    pub high : message.head_id ≤ current_head_in_txn d db message.topic message.origin

  pub record IsLog (db : Db d) : Type 0 where
    pub bounded : (t : Topic) (o : NodeId) → current_head_in_txn d db t o ≤ u64_max
    pub stored :
        (t : Topic) (o : NodeId) (i : HeadId)
        → 1 ≤ i
        → i ≤ current_head_in_txn d db t o
        → (b : Bytes) × (d.get db.messages (message_key d.base64 t o i) ≡ some b)
    pub placed : (k : Str) (b : Bytes) → d.get db.messages k ≡ some b → IsPlaced db k b
    pub headed :
        (k : Str) (h : ℕ)
        → d.get db.heads k ≡ some h
        → (t : Topic) × (o : NodeId) × (k ≡ head_key d.base64 t o) × (1 ≤ h)
    pub readable :
        (k : Str) (b : Bytes)
        → d.get db.tombstones k ≡ some b
        → (t : TombstoneRange) × (d.tombstone_json.decode b ≡ ok t)

  pub head-raise_head :
      (db : Db d) (m : StoredMessage) (t : Topic) (o : NodeId)
      → current_head_in_txn d (raise_head d db m) t o ≡ (
          if str_eq (head_key d.base64 m.topic m.origin) (head_key d.base64 t o)
          then max (current_head_in_txn d db t o) m.head_id
          else current_head_in_txn d db t o)
  unfolding current_head_in_txn raise_head
  head-raise_head db m t o = ground (
    arith,
    get-insert d.tables db.heads (head_key d.base64 m.topic m.origin) (head_key d.base64 t o)
        m.head_id,
    str_eq_sound (head_key d.base64 m.topic m.origin) (head_key d.base64 t o),
  )

  pub raise_head-messages :
      (db : Db d) (m : StoredMessage) → (raise_head d db m).messages ≡ db.messages
  unfolding raise_head
  raise_head-messages db m = ground arith

  pub raise_head-tombstones :
      (db : Db d) (m : StoredMessage) → (raise_head d db m).tombstones ≡ db.tombstones
  unfolding raise_head
  raise_head-tombstones db m = ground arith

  -- A message written at its key, and the head raised to it.
  abbrev pub log_write : Db d → StoredMessage → Bytes → Db d
  log_write db m b =
      raise_head d
        (record db {
          messages = d.insert db.messages (message_key d.base64 m.topic m.origin m.head_id) b;
        })
        m

  pub get-log_write :
      (db : Db d) (m : StoredMessage) (b : Bytes) (k : Str)
      → d.get (log_write db m b).messages k ≡ (
          if str_eq (message_key d.base64 m.topic m.origin m.head_id) k
          then some b
          else d.get db.messages k)
  get-log_write db m b k =
      rw
        (raise_head-messages
          (record db {
            messages = d.insert db.messages (message_key d.base64 m.topic m.origin m.head_id) b;
          })
          m)
        (get-insert d.tables db.messages (message_key d.base64 m.topic m.origin m.head_id) k b)

  pub head-log_write :
      (db : Db d) (m : StoredMessage) (b : Bytes) (t : Topic) (o : NodeId)
      → current_head_in_txn d (log_write db m b) t o ≡ (
          if str_eq (head_key d.base64 m.topic m.origin) (head_key d.base64 t o)
          then max (current_head_in_txn d db t o) m.head_id
          else current_head_in_txn d db t o)
  unfolding current_head_in_txn
  head-log_write db m b t o =
      head-raise_head
        (record db {
          messages = d.insert db.messages (message_key d.base64 m.topic m.origin m.head_id) b;
        })
        m t o

  -- The head depends on the topic and on the key of the origin.
  pub head_cong :
      (db : Db d) (t t' : Topic) (o o' : NodeId)
      → t ≡ t'
      → key o ≡ key o'
      → current_head_in_txn d db t o ≡ current_head_in_txn d db t' o'
  unfolding current_head_in_txn
  head_cong db t t' o o' et eo = cc (head_key_cong d.base64 t o o' eo)
