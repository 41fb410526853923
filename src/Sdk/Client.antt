-- ===== src/Sdk/Client.antt =====
-- `MsgbusClient`, `SubscribeOptions` and the helpers. The channel to the daemon is the state of
-- `Daemon`, so a client is its default origin.
use msgbus.Prelude.{ℕ, Bool, true, false, Option, none, some, List, [], ◌∷◌, ◌++◌}
use msgbus.Text.{Str, codes}
use msgbus.Core.Error.{Outcome, ok, err}
use msgbus.Core.Message.{Bytes}
use msgbus.Server.Proto.{
  PbNodeId, MessageEnvelope, PbTopicHead, PbPeerSyncState, FifoMessage, GetHeadResponse,
  HealthResponse, ReadyResponse,
}
use msgbus.Sdk.Daemon.{
  Code, other, cancelled, deadline_exceeded, aborted, unavailable, RpcStatus, Rpc, Daemon,
}

pub data SdkError : Type 0 where
  transport : Str → SdkError
  status : RpcStatus → SdkError
  protocol : Str → SdkError

abbrev pub SdkResult : Type 0 → Type 0
SdkResult = Outcome SdkError

-- `required`
unfoldable pub required : {A : Type 0} → Option A → Str → SdkResult A
required none text = err (protocol text)
required (some a) text = ok a

-- `retryable_status`
unfoldable pub retryable_status : Code → Bool
retryable_status unavailable = true
retryable_status deadline_exceeded = true
retryable_status aborted = true
retryable_status cancelled = true
retryable_status (other code) = false

-- `?` on a status
unfoldable pub or_sdk : {A : Type 0} → Rpc A → SdkResult A
or_sdk (ok a) = ok a
or_sdk (err e) = err (status e)

-- `?` on a call, and then `f` on the response
unfoldable pub reply {ℓ} :
    {A B : Type 0} {S : Type ℓ} → (A → SdkResult B) → Rpc A × S → SdkResult B × S
reply f (ok a, state) = (f a, state)
reply f (err e, state) = (err (status e), state)

pub record SubscribeOptions : Type 0 where
  pub origin : Option PbNodeId
  pub from_head_id : ℕ
  pub replay_limit : ℕ
  -- in milliseconds
  pub reconnect_delay : ℕ

-- `SubscribeOptions::default`
abbrev pub default_options : SubscribeOptions
default_options = record {
  origin = none;
  from_head_id = 1;
  replay_limit = 100;
  reconnect_delay = 250;
}

pub record MsgbusClient : Type 0 where
  pub default_origin : Option PbNodeId

-- `with_default_origin`
unfoldable pub with_default_origin : MsgbusClient → PbNodeId → MsgbusClient
with_default_origin client origin = record client { default_origin = some origin }

-- `origin.or_else(|| self.default_origin.clone())`
unfoldable pub or_default : MsgbusClient → Option PbNodeId → Option PbNodeId
or_default client none = client.default_origin
or_default client (some origin) = some origin

module _ (d : Daemon) where
  unfoldable pub health : MsgbusClient → d.State → SdkResult Str × d.State
  unfolding reply
  health client state = reply (λ (r : HealthResponse). ok r.status) (d.health state)

  unfoldable pub ready : MsgbusClient → d.State → SdkResult ReadyResponse × d.State
  unfolding reply
  ready client state = reply (λ r. ok r) (d.ready state)

  unfoldable pub publish_with_headers :
      MsgbusClient → d.State → Str → Bytes → List (Str × Str) → SdkResult MessageEnvelope × d.State
  unfolding reply required
  publish_with_headers client state topic payload headers =
      reply (λ r. required r (codes "server returned empty publish response"))
        (d.publish state (record {
          topic = topic;
          origin = client.default_origin;
          payload = payload;
          headers = headers;
        }))

  unfoldable pub publish :
      MsgbusClient → d.State → Str → Bytes → SdkResult MessageEnvelope × d.State
  unfolding publish_with_headers
  publish client state topic payload = publish_with_headers client state topic payload []

  -- the `while let` over the stream
  unfoldable pub collect_loop :
      List MessageEnvelope → List (Rpc (Option MessageEnvelope)) → SdkResult (List MessageEnvelope)
  collect_loop messages [] = ok messages
  collect_loop messages (err e ∷ stream) = err (status e)
  collect_loop messages (ok none ∷ stream) = collect_loop messages stream
  collect_loop messages (ok (some message) ∷ stream) =
      collect_loop (messages ++ message ∷ []) stream

  unfoldable pub fetch :
      MsgbusClient
      → d.State
      → Str
      → Option PbNodeId
      → ℕ
      → ℕ
      → SdkResult (List MessageEnvelope) × d.State
  unfolding reply collect_loop or_default
  fetch client state topic origin from_head_id limit = reply (collect_loop []) (
      d.fetch state (record {
        topic = topic;
        origin = or_default client origin;
        from_head_id = from_head_id;
        limit = limit;
      }))

  unfoldable pub subscribe_with_options :
      MsgbusClient → d.State → Str → SubscribeOptions → SdkResult d.Stream × d.State
  unfolding reply or_default
  subscribe_with_options client state topic options =
      reply (λ s. ok s)
        (d.subscribe state (record {
          topic = topic;
          origin = or_default client options.origin;
          from_head_id = options.from_head_id;
          replay_limit = options.replay_limit;
        }))

  unfoldable pub subscribe :
      MsgbusClient → d.State → Str → Option PbNodeId → ℕ → SdkResult d.Stream × d.State
  unfolding subscribe_with_options
  subscribe client state topic origin from_head_id =
      subscribe_with_options client state topic
        (record default_options { origin = origin; from_head_id = from_head_id })

  unfoldable pub get_head :
      MsgbusClient → d.State → Str → Option PbNodeId → SdkResult GetHeadResponse × d.State
  unfolding reply or_default
  get_head client state topic origin =
      reply (λ r. ok r)
        (d.get_head state (record { topic = topic; origin = or_default client origin }))

  unfoldable pub list_heads : MsgbusClient → d.State → SdkResult (List PbTopicHead) × d.State
  unfolding reply
  list_heads client state = reply (λ r. ok r) (d.list_heads state)

  unfoldable pub list_peer_sync_states :
      MsgbusClient → d.State → SdkResult (List PbPeerSyncState) × d.State
  unfolding reply
  list_peer_sync_states client state = reply (λ r. ok r) (d.list_peer_sync_states state)

  unfoldable pub delete_range :
      MsgbusClient → d.State → Str → Option PbNodeId → ℕ → ℕ → SdkResult ℕ × d.State
  unfolding reply or_default
  delete_range client state topic origin from_head_id to_head_id =
      reply (λ r. ok r)
        (d.delete_range state (record {
          topic = topic;
          origin = or_default client origin;
          from_head_id = from_head_id;
          to_head_id = to_head_id;
        }))

  unfoldable pub enqueue_fifo_with_headers :
      MsgbusClient
      → d.State
      → Str
      → Str
      → PbNodeId
      → Bytes
      → List (Str × Str)
      → SdkResult FifoMessage × d.State
  unfolding reply required
  enqueue_fifo_with_headers client state queue topic target payload headers =
      reply (λ r. required r (codes "server returned empty fifo response"))
        (d.enqueue_fifo state (record {
          queue = queue;
          topic = topic;
          source = client.default_origin;
          target = some target;
          payload = payload;
          headers = headers;
        }))

  unfoldable pub enqueue_fifo :
      MsgbusClient → d.State → Str → Str → PbNodeId → Bytes → SdkResult FifoMessage × d.State
  unfolding enqueue_fifo_with_headers
  enqueue_fifo client state queue topic target payload =
      enqueue_fifo_with_headers client state queue topic target payload []

  unfoldable pub peek_fifo : MsgbusClient → d.State → Str → SdkResult FifoMessage × d.State
  unfolding reply required
  peek_fifo client state queue =
      reply (λ r. required r (codes "server returned empty fifo response"))
        (d.peek_fifo state queue)

  unfoldable pub ack_fifo : MsgbusClient → d.State → Str → Str → SdkResult Bool × d.State
  unfolding reply
  ack_fifo client state queue message_id =
      reply (λ r. ok r) (d.ack_fifo state (record { queue = queue; message_id = message_id }))

  unfoldable pub reject_fifo : MsgbusClient → d.State → Str → Str → SdkResult Bool × d.State
  unfolding reply
  reject_fifo client state queue message_id =
      reply (λ r. ok r) (d.reject_fifo state (record { queue = queue; message_id = message_id }))
