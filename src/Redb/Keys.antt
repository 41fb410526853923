-- ===== src/Redb/Keys.antt =====
-- The keys of the tables, and how they tell topics, origins and numbers apart.
use mathlib.Core.List.{append_assoc}
use msgbus.Prelude.{ℕ, ◌^◌, ◌<◌, ◌≡◌, refl, true, false, Option, none, some, [], ◌∷◌, ◌++◌}
use msgbus.Text.{Str, codes, contains, starts_with, zero_padded}
use msgbus.Text.Prefix.{starts_with-rest, append_cancel_left, part_unique}
use msgbus.Text.Window.{slot, slot_injective, slot-starts_with}
use msgbus.Core.Word.{HeadId}
use msgbus.Core.Name.{Topic, QueueName}
use msgbus.Core.Node.{NodeId, key, slash}
use msgbus.Core.Message.{PeerSyncState}
use msgbus.Redb.Deps.{Base64}

-- `format!("{tag}{a}/{b}/")`
unfoldable pub pair_prefix : Str → Str → Str → Str
pair_prefix tag a b = tag ++ (a ++ slash ∷ (b ++ slash ∷ []))

-- A key under one prefix has no other prefix of the same kind.
pub pair_prefix_unique :
    (tag a b a' b' s : Str)
    → contains a slash ≡ false
    → contains b slash ≡ false
    → contains a' slash ≡ false
    → contains b' slash ≡ false
    → starts_with (pair_prefix tag a b ++ s) (pair_prefix tag a' b') ≡ true
    → (a ≡ a') × (b ≡ b')
unfolding pair_prefix
pair_prefix_unique tag a b a' b' s ha hb ha' hb' h =
    let (r, e) = starts_with-rest (pair_prefix tag a b ++ s) (pair_prefix tag a' b') h in
    let whole : tag ++ (a ++ slash ∷ (b ++ slash ∷ s)) ≡ tag ++ (a' ++ slash ∷ (b' ++ slash ∷ r)) =
      simp append_assoc at e in
    let (ea, rest) =
      part_unique slash a a' (b ++ slash ∷ s) (b' ++ slash ∷ r) ha ha'
        (append_cancel_left tag _ _ whole) in
    let (eb, _) = part_unique slash b b' s r hb hb' rest in (ea, eb)

module _ (b : Base64) where
  open b use {enc, enc_injective, enc-slash}

  unfoldable pub message_prefix : Topic → NodeId → Str
  unfolding pair_prefix
  message_prefix topic origin = pair_prefix (codes "msg/") (enc topic.text) (enc (key origin))

  unfoldable pub message_key : Topic → NodeId → HeadId → Str
  message_key topic origin head_id = slot (message_prefix topic origin) head_id

  unfoldable pub raw_message_key : Str → Str → HeadId → Str
  unfolding pair_prefix
  raw_message_key topic_part origin_part head_id =
      pair_prefix (codes "msg/") topic_part origin_part ++ zero_padded 20 head_id

  unfoldable pub head_key : Topic → NodeId → Str
  head_key topic origin = codes "head/" ++ (enc topic.text ++ slash ∷ enc (key origin))

  unfoldable pub tombstone_prefix : Topic → NodeId → Str
  unfolding pair_prefix
  tombstone_prefix topic origin =
      pair_prefix (codes "tombstone/") (enc topic.text) (enc (key origin))

  unfoldable pub tombstone_key : Topic → NodeId → HeadId → HeadId → Str
  unfolding tombstone_prefix zero_padded
  tombstone_key topic origin from to =
      tombstone_prefix topic origin ++ (zero_padded 20 from ++ b'-' ∷ zero_padded 20 to)

  unfoldable pub fifo_sequence_key : QueueName → Str
  fifo_sequence_key queue = codes "fifo-seq/" ++ enc queue.text

  unfoldable pub fifo_prefix : QueueName → Str
  fifo_prefix queue = codes "fifo/" ++ (enc queue.text ++ slash ∷ [])

  unfoldable pub fifo_message_key : QueueName → ℕ → Str
  fifo_message_key queue sequence = slot (fifo_prefix queue) sequence

  unfoldable pub peer_topic : Option Topic → Str
  peer_topic none = codes "-"
  peer_topic (some topic) = topic.text

  unfoldable pub peer_origin : Option NodeId → Str
  peer_origin none = codes "-"
  peer_origin (some origin) = key origin

  unfoldable pub peer_sync_key : PeerSyncState → Str
  unfolding peer_topic peer_origin
  peer_sync_key state =
      codes "peer-sync/"
      ++ (enc state.peer
          ++ slash ∷ (enc (peer_topic state.topic) ++ slash ∷ enc (peer_origin state.origin)))

  topic_of_enc : (t t' : Topic) → enc t.text ≡ enc t'.text → t ≡ t'
  topic_of_enc t t' e = λ i. record { text = enc_injective t.text t'.text e i }

  -- A message key has the prefix of its own topic and origin key only.
  pub message_key-prefix :
      (t : Topic) (o : NodeId) (i : HeadId) (t' : Topic) (o' : NodeId)
      → starts_with (message_key t o i) (message_prefix t' o') ≡ true
      → (t ≡ t') × (key o ≡ key o')
  unfolding message_key message_prefix slot
  message_key-prefix t o i t' o' h =
      let (et, eo) =
        pair_prefix_unique (codes "msg/") (enc t.text) (enc (key o)) (enc t'.text) (enc (key o'))
          (zero_padded 20 i) (enc-slash t.text) (enc-slash (key o)) (enc-slash t'.text)
          (enc-slash (key o')) h in
      (topic_of_enc t t' et, enc_injective (key o) (key o') eo)

  pub message_key_injective :
      (t t' : Topic) (o o' : NodeId) (i j : HeadId)
      → i < 10 ^ 20
      → j < 10 ^ 20
      → message_key t o i ≡ message_key t' o' j
      → (t ≡ t') × (key o ≡ key o') × (i ≡ j)
  unfolding message_key message_prefix
  message_key_injective t t' o o' i j hi hj e =
      let under : starts_with (message_key t o i) (message_prefix t' o') ≡ true =
        rw e (slot-starts_with (message_prefix t' o') j) in
      let (et, eo) = message_key-prefix t o i t' o' under in
      let same : slot (message_prefix t' o') i ≡ slot (message_prefix t' o') j = cc in
      (et, eo, slot_injective (message_prefix t' o') i j hi hj same)

  pub head_key_injective :
      (t t' : Topic) (o o' : NodeId) → head_key t o ≡ head_key t' o' → (t ≡ t') × (key o ≡ key o')
  unfolding head_key
  head_key_injective t t' o o' e =
      let (et, eo) =
        part_unique slash (enc t.text) (enc t'.text) (enc (key o)) (enc (key o')) (enc-slash t.text)
          (enc-slash t'.text) (append_cancel_left (codes "head/") _ _ e) in
      (topic_of_enc t t' et, enc_injective (key o) (key o') eo)

  -- Keys depend on the topic and on the key of the origin.
  pub message_prefix_cong :
      (t : Topic) (o o' : NodeId) → key o ≡ key o' → message_prefix t o ≡ message_prefix t o'
  unfolding message_prefix
  message_prefix_cong t o o' e = cc

  pub head_key_cong : (t : Topic) (o o' : NodeId) → key o ≡ key o' → head_key t o ≡ head_key t o'
  unfolding head_key
  head_key_cong t o o' e = cc

  pub raw_message_key_lem :
      (t : Topic) (o : NodeId) (i : HeadId)
      → raw_message_key (enc t.text) (enc (key o)) i ≡ message_key t o i
  unfolding raw_message_key message_key message_prefix slot
  raw_message_key_lem t o i = refl

  queue_of_enc : (q q' : QueueName) → enc q.text ≡ enc q'.text → q ≡ q'
  queue_of_enc q q' e = λ i. record { text = enc_injective q.text q'.text e i }

  -- A key of a queue's message has the prefix of that queue only.
  pub fifo_message_key-prefix :
      (q q' : QueueName) (i : ℕ)
      → starts_with (fifo_message_key q i) (fifo_prefix q') ≡ true
      → q ≡ q'
  unfolding fifo_message_key fifo_prefix slot
  fifo_message_key-prefix q q' i h =
      let (r, e) = starts_with-rest _ _ h in
      let whole : codes "fifo/" ++ (enc q.text ++ slash ∷ zero_padded 20 i)
          ≡ codes "fifo/" ++ (enc q'.text ++ slash ∷ r) =
        simp append_assoc at e in
      queue_of_enc q q'
        (part_unique slash (enc q.text) (enc q'.text) (zero_padded 20 i) r (enc-slash q.text)
          (enc-slash q'.text) (append_cancel_left (codes "fifo/") _ _ whole)).0

  pub fifo_sequence_key_injective :
      (q q' : QueueName) → fifo_sequence_key q ≡ fifo_sequence_key q' → q ≡ q'
  unfolding fifo_sequence_key
  fifo_sequence_key_injective q q' e =
      queue_of_enc q q' (append_cancel_left (codes "fifo-seq/") _ _ e)

  pub fifo_message_key_injective :
      (q q' : QueueName) (i j : ℕ)
      → i < 10 ^ 20
      → j < 10 ^ 20
      → fifo_message_key q i ≡ fifo_message_key q' j
      → (q ≡ q') × (i ≡ j)
  unfolding fifo_message_key
  fifo_message_key_injective q q' i j hi hj e =
      let under : starts_with (fifo_message_key q i) (fifo_prefix q') ≡ true =
        rw e (slot-starts_with (fifo_prefix q') j) in
      let eq = fifo_message_key-prefix q q' i under in
      let same : slot (fifo_prefix q') i ≡ slot (fifo_prefix q') j = cc in
      (eq, slot_injective (fifo_prefix q') i j hi hj same)
