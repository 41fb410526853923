-- ===== src/Server/Subscribe.antt =====
-- `subscribe`: a replay from the store, then the messages of the broadcast channel. The stream that
-- the client gets is the list of what the spawned task sends, for a client that does not hang up.
use msgbus.Prelude.{
  ℕ, ◌-◌, Bool, true, false, List, [], ◌∷◌, ◌++◌, map, max, ◌&&◌, ◌==◌, ltb, if◌then◌else◌,
}
use msgbus.Text.{Str, codes}
use msgbus.Core.Error.{ok, err, ◌>>=◌}
use msgbus.Core.Name.{Topic, topic_new, topic_eq}
use msgbus.Core.Node.{NodeId, node_eq}
use msgbus.Core.Message.{StoredMessage, FetchQuery}
use msgbus.Core.Store.{MsgbusStore}
use msgbus.Server.Status.{Reply, unavailable, or_status}
use msgbus.Server.Proto.{MessageEnvelope, SubscribeRequest}
use msgbus.Server.Convert.{proto_message}
use msgbus.Server.Service.{Service, request_origin}

-- what the receiver of the broadcast channel yields: a message, or that it fell behind
pub data LiveItem : Type 0 where
  message : StoredMessage → LiveItem
  lagged : Str → LiveItem

unfoldable pub wanted : Topic → NodeId → ℕ → StoredMessage → Bool
wanted topic origin last_sent m =
    topic_eq m.topic topic && node_eq m.origin origin && ltb last_sent m.head_id

-- the `while let` over the channel
unfoldable pub live_loop : Topic → NodeId → ℕ → List LiveItem → List (Reply StoredMessage)
live_loop topic origin last_sent [] = []
live_loop topic origin last_sent (lagged text ∷ live) =
    err (unavailable (codes "subscription lagged: " ++ text)) ∷ []
live_loop topic origin last_sent (message m ∷ live) = elim (wanted topic origin last_sent m) [
  | true ↦ ok m ∷ live_loop topic origin m.head_id live
  | false ↦ live_loop topic origin last_sent live
]

-- the `for` over the replay, then the loop over the channel
unfoldable pub replay_loop :
    Topic → NodeId → ℕ → List StoredMessage → List LiveItem → List (Reply StoredMessage)
unfolding live_loop
replay_loop topic origin last_sent [] live = live_loop topic origin last_sent live
replay_loop topic origin last_sent (m ∷ replay) live =
    ok m ∷ replay_loop topic origin (max last_sent m.head_id) replay live

-- `DEFAULT_REPLAY_LIMIT`
unfoldable pub effective_replay_limit : ℕ → ℕ
effective_replay_limit limit = if limit == 0 then 100 else limit

unfoldable pub envelope : Reply StoredMessage → Reply MessageEnvelope
unfolding proto_message
envelope reply = do m ← reply; ok (proto_message m)

module _ (s : MsgbusStore) where
  -- `live` is what the channel brings after the call.
  unfoldable pub subscribe :
      NodeId → Service s → SubscribeRequest → List LiveItem → Reply (List (Reply MessageEnvelope))
  unfolding replay_loop effective_replay_limit request_origin or_status
  subscribe local service request live = do
    topic ← or_status (topic_new request.topic)
    origin ← request_origin local request.origin
    let from_head_id = max request.from_head_id 1
    let query : FetchQuery = record {
      topic = topic;
      origin = origin;
      from_head_id = from_head_id;
      limit = effective_replay_limit request.replay_limit;
    }
    replay ← or_status (s.fetch_messages service.store query)
    ok (map envelope (replay_loop topic origin (from_head_id - 1) replay live))
