-- ===== src/Redb/Deps.antt =====
-- What the store takes from other crates: the tables of redb, base64 and serde_json, each with the
-- behaviour that its documentation states and that the store relies on.
use msgbus.Prelude.{◌≡◌, false, Option, []}
use msgbus.Text.{Str, contains}
use msgbus.Text.SortedMap.{SortedMap, IsSorted, lookup, upsert, delete, range_from}
use msgbus.Core.Error.{Result, ok}
use msgbus.Core.Node.{slash}
use msgbus.Core.Message.{Bytes, StoredMessage, StoredFifoMessage, TombstoneRange, PeerSyncState}

-- A table of redb is a map in the order of its keys.
pub record Tables : Type 1 where
  pub Table : Type 0 → Type 0
  pub new_table : {V : Type 0} → Table V
  pub get : {V : Type 0} → Table V → Str → Option V
  pub insert : {V : Type 0} → Table V → Str → V → Table V
  pub remove : {V : Type 0} → Table V → Str → Table V
  -- `range(start..)`
  pub range : {V : Type 0} → Table V → Str → SortedMap V
  -- what the table holds, in order
  pub entries : {V : Type 0} → Table V → SortedMap V
  pub entries-IsSorted : {V : Type 0} (t : Table V) → IsSorted (entries t)
  pub entries-new_table : {V : Type 0} → entries (new_table {V = V}) ≡ []
  pub get_lem : {V : Type 0} (t : Table V) (k : Str) → get t k ≡ lookup k (entries t)
  pub range_lem : {V : Type 0} (t : Table V) (k : Str) → range t k ≡ range_from k (entries t)
  pub entries-insert :
      {V : Type 0} (t : Table V) (k : Str) (v : V) → entries (insert t k v) ≡ upsert k v (entries t)
  pub entries-remove :
      {V : Type 0} (t : Table V) (k : Str) → entries (remove t k) ≡ delete k (entries t)

-- serde_json at one type: it writes every value of these types, and reads back what it wrote.
pub record Json (A : Type 0) : Type 0 where
  pub encode : A → Result Bytes
  pub decode : Bytes → Result A
  pub encode_total : (a : A) → (b : Bytes) × (encode a ≡ ok b)
  pub decode-encode : (a : A) {b : Bytes} → encode a ≡ ok b → decode b ≡ ok a

-- base64 with the alphabet that is safe in URLs, which has no slash.
pub record Base64 : Type 0 where
  pub enc : Str → Str
  pub enc_injective : (a b : Str) → enc a ≡ enc b → a ≡ b
  pub enc-slash : (a : Str) → contains (enc a) slash ≡ false

pub record Deps : Type 1 where
  pub tables : Tables
  pub open tables use *
  pub base64 : Base64
  pub open base64 use *
  pub message_json : Json StoredMessage
  pub fifo_json : Json StoredFifoMessage
  pub tombstone_json : Json TombstoneRange
  pub peer_json : Json PeerSyncState
