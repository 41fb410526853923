-- ===== src/Core/Message.antt =====
-- The messages, heads, tombstones, queue entries and sync states that the stores keep. The headers
-- are a `BTreeMap`, payloads are bytes.
use msgbus.Prelude.{ℕ, ◌≡◌, refl, Bool, true, false, Option, List, [], ◌∷◌, ◌&&◌, arith, ◌==◌}
use msgbus.Text.{Str, str_eq}
use msgbus.Text.Order.{str_eq_sound, str_eq_refl}
use msgbus.Text.SortedMap.{SortedMap, upsert}
use msgbus.Core.Word.{HeadId}
use msgbus.Core.Node.{NodeId, node_eq, node_eq_sound, node_eq_refl}
use msgbus.Core.Name.{
  Topic, QueueName, MessageId, topic_eq, message_id_eq, topic_eq_sound, topic_eq_refl,
  message_id_eq_sound, message_id_eq_refl,
}

abbrev pub Bytes : Type 0
Bytes = List ℕ

abbrev pub Headers : Type 0
Headers = SortedMap Str

-- `NewMessage::new`: the identifier that `MessageId::new` draws is an argument
pub record NewMessage : Type 0 where
  pub id : MessageId
  pub topic : Topic
  pub origin : NodeId
  pub payload : Bytes
  pub headers : Headers

pub record StoredMessage : Type 0 where
  pub id : MessageId
  pub topic : Topic
  pub origin : NodeId
  pub head_id : HeadId
  pub payload : Bytes
  pub headers : Headers
  pub created_at_ms : ℕ
  pub deleted : Bool

pub record TopicHead : Type 0 where
  pub topic : Topic
  pub origin : NodeId
  pub head_id : HeadId

pub record PeerSyncState : Type 0 where
  pub peer : Str
  pub topic : Option Topic
  pub origin : Option NodeId
  pub local_head : HeadId
  pub remote_head : HeadId
  pub last_synced_head : HeadId
  pub last_attempt_at_ms : ℕ
  pub last_success_at_ms : ℕ
  pub consecutive_failures : ℕ
  pub last_error : Option Str

pub data ReplicateResult : Type 0 where
  inserted already_present : ReplicateResult

pub record FetchQuery : Type 0 where
  pub topic : Topic
  pub origin : NodeId
  pub from_head_id : HeadId
  pub limit : ℕ

pub record TombstoneRange : Type 0 where
  pub topic : Topic
  pub origin : NodeId
  pub from_head_id : HeadId
  pub to_head_id : HeadId
  pub created_at_ms : ℕ

pub record NewFifoMessage : Type 0 where
  pub id : MessageId
  pub queue : QueueName
  pub topic : Topic
  pub source : NodeId
  pub target : NodeId
  pub payload : Bytes
  pub headers : Headers

pub record StoredFifoMessage : Type 0 where
  pub id : MessageId
  pub queue : QueueName
  pub topic : Topic
  pub source : NodeId
  pub target : NodeId
  pub payload : Bytes
  pub headers : Headers
  pub created_at_ms : ℕ
  pub sequence : ℕ
  pub attempts : ℕ

unfoldable pub headers_eq : Headers → Headers → Bool
unfolding str_eq
headers_eq [] [] = true
headers_eq [] ((k, v) ∷ b) = false
headers_eq ((k, v) ∷ a) [] = false
headers_eq ((k, v) ∷ a) ((j, w) ∷ b) = str_eq k j && str_eq v w && headers_eq a b

unfoldable pub bool_eq : Bool → Bool → Bool
bool_eq true b = b
bool_eq false true = false
bool_eq false false = true

-- The derived `==` of `StoredMessage`, without its last field: what both stores also spell out as
-- `same_message_except_deleted`. Payloads are compared like texts.
unfoldable pub same_message_except_deleted : StoredMessage → StoredMessage → Bool
unfolding message_id_eq topic_eq node_eq headers_eq
same_message_except_deleted a b =
    message_id_eq a.id b.id
    && topic_eq a.topic b.topic
    && node_eq a.origin b.origin
    && a.head_id == b.head_id
    && str_eq a.payload b.payload
    && headers_eq a.headers b.headers
    && a.created_at_ms == b.created_at_ms

-- The derived `==` of `StoredMessage`.
unfoldable pub message_eq : StoredMessage → StoredMessage → Bool
unfolding same_message_except_deleted bool_eq
message_eq a b = same_message_except_deleted a b && bool_eq a.deleted b.deleted

unfoldable pub insert_headers : Headers → List (Str × Str) → Headers
unfolding upsert
insert_headers m [] = m
insert_headers m ((k, v) ∷ r) = insert_headers (upsert k v m) r

-- `into_iter().collect()` of a request's headers into a `BTreeMap`
unfoldable pub collect_headers : List (Str × Str) → Headers
unfolding insert_headers
collect_headers = insert_headers []

headers_eq_sound : (a b : Headers) → headers_eq a b ≡ true → a ≡ b
unfolding headers_eq
headers_eq_sound [] [] h = refl
headers_eq_sound [] ((k, v) ∷ b) h = cc
headers_eq_sound ((k, v) ∷ a) [] h = cc
headers_eq_sound ((k, v) ∷ a) ((j, w) ∷ b) h =
    ground (arith, str_eq_sound k j, str_eq_sound v w, headers_eq_sound a b)

headers_eq_refl : (a : Headers) → headers_eq a a ≡ true
unfolding headers_eq
headers_eq_refl [] = refl
headers_eq_refl ((k, v) ∷ a) = rw (str_eq_refl k, str_eq_refl v, headers_eq_refl a)

pub same_message_except_deleted_sound :
    (a b : StoredMessage)
    → same_message_except_deleted a b ≡ true
    → a ≡ record b { deleted = a.deleted }
unfolding same_message_except_deleted
same_message_except_deleted_sound a b h = ground (
  arith,
  message_id_eq_sound a.id b.id,
  topic_eq_sound a.topic b.topic,
  node_eq_sound a.origin b.origin,
  str_eq_sound a.payload b.payload,
  headers_eq_sound a.headers b.headers,
)

pub same_message_except_deleted_refl :
    (a : StoredMessage) (d e : Bool)
    → same_message_except_deleted (record a { deleted = d }) (record a { deleted = e }) ≡ true
unfolding same_message_except_deleted
same_message_except_deleted_refl a d e = ground (
  arith,
  message_id_eq_refl a.id,
  topic_eq_refl a.topic,
  node_eq_refl a.origin,
  str_eq_refl a.payload,
  headers_eq_refl a.headers,
)

pub message_eq_sound : (a b : StoredMessage) → message_eq a b ≡ true → a ≡ b
unfolding message_eq bool_eq
message_eq_sound a b h = ground (arith, same_message_except_deleted_sound a b)

pub message_eq_refl : (a : StoredMessage) → message_eq a a ≡ true
unfolding message_eq bool_eq
message_eq_refl a = ground (arith, same_message_except_deleted_refl a a.deleted a.deleted)
