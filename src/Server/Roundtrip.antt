-- ===== src/Server/Roundtrip.antt =====
-- A message on its way to a peer: `proto_message`, then `core_message`.
use mathlib.Core.List.{append_assoc, append-nil}
use msgbus.Prelude.{
  ◌≤◌, ◌≡◌, refl, sym, ◌∙◌, subst, true, false, some, List, [], ◌∷◌, ◌++◌, arith, All, ◌==◌,
}
use msgbus.Text.{Str, codes, str_lt}
use msgbus.Text.Order.{str_eq_sound, str_lt_irrefl, str_lt_asymm}
use msgbus.Text.SortedMap.{IsSorted, upsert}
use msgbus.Core.Error.{ok}
use msgbus.Core.Name.{Topic, MessageId, IsPart, topic_new, message_id_from_string, validate_part}
use msgbus.Core.Node.{NodeId}
use msgbus.Core.Node.Keys.{IsValid, node_new_of-IsValid}
use msgbus.Core.Message.{StoredMessage, Headers, insert_headers, collect_headers}
use msgbus.Server.Status.{Reply, or_status, map_transpose, ok_or}
use msgbus.Server.Convert.{core_node, proto_node, required_node, proto_message, core_message}

All-middle :
    {A : Type 0} (P : A → Type 0) (m : List A) (x : A) (r : List A) → All P (m ++ x ∷ r) → P x
All-middle P [] x r h = h.0
All-middle P (y ∷ m) x r h = All-middle P m x r h.1

upsert-last :
    (m : Headers) (k v : Str) (r : Headers)
    → IsSorted (m ++ (k, v) ∷ r)
    → upsert k v m ≡ m ++ (k, v) ∷ []
unfolding upsert
upsert-last [] k v r s = refl
upsert-last ((j, w) ∷ m) k v r s =
    let below : str_lt j k ≡ true = All-middle (λ e. str_lt j e.0 ≡ true) m (k, v) r s.0 in
    ground (
      arith,
      below,
      str_eq_sound j k,
      str_lt_irrefl k,
      str_lt_asymm j k below,
      upsert-last m k v r s.1,
    )

insert_headers-append : (m r : Headers) → IsSorted (m ++ r) → insert_headers m r ≡ m ++ r
unfolding insert_headers
insert_headers-append m [] s = sym (append-nil m)
insert_headers-append m ((k, v) ∷ r) s =
    let whole : (m ++ (k, v) ∷ []) ++ r ≡ m ++ (k, v) ∷ r = simp append_assoc in
    rw (upsert-last m k v r s)
      (insert_headers-append (m ++ (k, v) ∷ []) r (subst IsSorted (sym whole) s) ∙ whole)

core_node-proto_node : (n : NodeId) → IsValid n → core_node (proto_node n) ≡ ok n
unfolding core_node proto_node
core_node-proto_node n valid = ground (arith, node_new_of-IsValid n valid)

map_transpose-some :
    {A B : Type 0} (f : A → Reply B) (a : A) (b : B)
    → f a ≡ ok b
    → map_transpose f (some a) ≡ ok (some b)
unfolding map_transpose
map_transpose-some f a b h = rw (h, map_transpose) refl

required_node-proto_node :
    (n : NodeId) (text : Str) → IsValid n → required_node (some (proto_node n)) text ≡ ok n
unfolding required_node ok_or
required_node-proto_node n text valid =
    rw (map_transpose-some core_node (proto_node n) n (core_node-proto_node n valid)) refl

topic_new-IsPart : (t : Topic) → IsPart t.text → or_status (topic_new t.text) ≡ ok t
unfolding or_status topic_new validate_part
topic_new-IsPart t part = ground arith

message_id-IsPart :
    (id : MessageId) → IsPart id.text → or_status (message_id_from_string id.text) ≡ ok id
unfolding or_status message_id_from_string validate_part
message_id-IsPart id part = ground arith

collect_headers-IsSorted : (m : Headers) → IsSorted m → collect_headers m ≡ m
unfolding collect_headers
collect_headers-IsSorted m s = insert_headers-append [] m s

-- A message whose identifier and topic pass validation, whose node is valid, whose head is at least 1
-- and whose headers are in the order of their keys goes over the wire unchanged.
pub core_message-proto_message :
    (m : StoredMessage)
    → IsPart m.id.text
    → IsPart m.topic.text
    → IsValid m.origin
    → 1 ≤ m.head_id
    → IsSorted m.headers
    → core_message (proto_message m) ≡ ok m
unfolding core_message proto_message
core_message-proto_message m id topic origin head headers =
    let positive : (m.head_id == 0) ≡ false = ground arith in
    rw
      (
        required_node-proto_node m.origin (codes "message origin is required") origin,
        positive,
        message_id-IsPart m.id id,
        topic_new-IsPart m.topic topic,
        collect_headers-IsSorted m.headers headers,
      )
      refl
