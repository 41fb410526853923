-- ===== src/Redb/Heads.antt =====
-- `list_heads` and the parser of head keys.
use msgbus.Prelude.{ℕ, Option, none, some, List, [], ◌∷◌, ◌++◌}
use msgbus.Text.{Str, codes, split, strip_prefix}
use msgbus.Text.SortedMap.{SortedMap}
use msgbus.Core.Error.{Result, ok, err, storage, ◌>>=◌}
use msgbus.Core.Node.{slash}
use msgbus.Core.Message.{StoredMessage, TopicHead}
use msgbus.Redb.Deps.{Deps}
use msgbus.Redb.Keys.{raw_message_key}
use msgbus.Redb.Db.{Db}

-- `storage_err(format!("invalid head key: {key}"))`
unfoldable pub invalid_head_key : {A : Type 0} → Str → Result A
invalid_head_key key = err (storage (codes "invalid head key: " ++ key))

-- the calls of `parts.next()`
unfoldable pub head_parts : Str → List Str → Result (Str × Str)
unfolding invalid_head_key
head_parts key [] = invalid_head_key key
head_parts key (topic ∷ []) = invalid_head_key key
head_parts key (topic ∷ origin ∷ []) = ok (topic, origin)
head_parts key (topic ∷ origin ∷ more ∷ rest) = invalid_head_key key

unfoldable pub rest_parts : Str → Option Str → Result (Str × Str)
unfolding head_parts
rest_parts key none = invalid_head_key key
rest_parts key (some rest) = head_parts key (split slash rest)

unfoldable pub head_key_parts : Str → Result (Str × Str)
unfolding rest_parts
head_key_parts key = rest_parts key (strip_prefix key (codes "head/"))

module _ (d : Deps) where
  -- `.ok_or_else(…).and_then(|value| decode(value.value()))`
  unfoldable pub decode_head : Str → Option (List ℕ) → Result StoredMessage
  decode_head key none = err (storage (codes "head entry has no message: " ++ key))
  decode_head key (some value) = d.message_json.decode value

  unfoldable pub head_entry : Db d → Str → ℕ → Result TopicHead
  unfolding decode_head
  head_entry db key head_id = do
    (topic_part, origin_part) ← head_key_parts key
    let at = raw_message_key d.base64 topic_part origin_part head_id
    message ← decode_head key (d.get db.messages at)
    ok (record { topic = message.topic; origin = message.origin; head_id = head_id })

  unfoldable pub heads_loop : Db d → List TopicHead → SortedMap ℕ → Result (List TopicHead)
  heads_loop db out [] = ok out
  heads_loop db out ((key, head_id) ∷ rest) = do
    head ← head_entry db key head_id
    heads_loop db (out ++ head ∷ []) rest

  unfoldable pub list_heads : Db d → Result (List TopicHead)
  unfolding heads_loop
  list_heads db = heads_loop db [] (d.range db.heads [])
