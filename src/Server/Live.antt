-- ===== src/Server/Live.antt =====
-- What a subscriber gets of the broadcast channel.
use msgbus.Prelude.{
  ◌<◌, ◌≡◌, refl, ap, Bool, true, false, List, [], ◌∷◌, map, if◌then◌else◌, ◌&&◌, inl, inr, ◌⊎◌,
  arith,
}
use msgbus.Core.Error.{ok}
use msgbus.Core.Word.{HeadId}
use msgbus.Core.Name.{Topic, topic_eq}
use msgbus.Core.Node.{NodeId, node_eq}
use msgbus.Core.Message.{StoredMessage}
use msgbus.Server.Subscribe.{message, wanted, live_loop}

-- a message of the topic and the node
abbrev pub is_of : Topic → NodeId → StoredMessage → Bool
is_of t o m = topic_eq m.topic t && node_eq m.origin o

-- the messages of the topic and the node, in their order
unfoldable pub those_of : Topic → NodeId → List StoredMessage → List StoredMessage
those_of t o [] = []
those_of t o (m ∷ ms) = let rest = those_of t o ms in if is_of t o m then m ∷ rest else rest

-- The messages of the topic and the node are at heads above `h`, each above the one before it; others
-- may be among them.
unfoldable pub IsRising : Topic → NodeId → HeadId → List StoredMessage → Type 0
IsRising t o h [] = Unit
IsRising t o h (m ∷ ms) =
    ((is_of t o m ≡ true) × (h < m.head_id) × IsRising t o m.head_id ms)
    ⊎ ((is_of t o m ≡ false) × IsRising t o h ms)

-- If the channel brings only messages, and those of the topic and the node at heads that grow from
-- above the last one sent, then the subscriber gets all of these in their order, and nothing else.
pub live_loop-those_of :
    (t : Topic) (o : NodeId) (h : HeadId) (ms : List StoredMessage)
    → IsRising t o h ms
    → live_loop t o h (map message ms) ≡ map ok (those_of t o ms)
unfolding live_loop wanted IsRising those_of
live_loop-those_of t o h [] r = refl
live_loop-those_of t o h (m ∷ ms) (inl (own, above, r)) =
    let taken : wanted t o h m ≡ true = ground arith in
    rw (taken, live_loop, those_of, own)
      (ap (λ s. ok m ∷ s) (live_loop-those_of t o m.head_id ms r))
live_loop-those_of t o h (m ∷ ms) (inr (other, r)) =
    let left : wanted t o h m ≡ false = ground arith in
    rw (left, live_loop, those_of, other) (live_loop-those_of t o h ms r)
