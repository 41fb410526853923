-- ===== src/Sdk/Resilient.antt =====
-- `ResilientSubscription`.
use msgbus.Prelude.{ℕ, zero, suc, Bool, true, false, Option, none, some, max}
use msgbus.Text.{Str, codes}
use msgbus.Core.Error.{ok, err}
use msgbus.Core.Word.{saturating_add}
use msgbus.Server.Proto.{PbNodeId, MessageEnvelope}
use msgbus.Sdk.Daemon.{Rpc, Daemon}
use msgbus.Sdk.Client.{
  SdkError, SdkResult, transport, status, protocol, required, retryable_status, SubscribeOptions,
  default_options, MsgbusClient, or_default,
}

-- the errors after which the loop tries again
unfoldable pub is_retryable : SdkError → Bool
unfolding retryable_status
is_retryable (status e) = retryable_status e.code
is_retryable (transport e) = false
is_retryable (protocol e) = false

module _ (d : Daemon) where
  pub record ResilientSubscription : Type 0 where
    pub topic : Str
    pub origin : Option PbNodeId
    pub next_head_id : ℕ
    pub replay_limit : ℕ
    pub reconnect_delay : ℕ
    pub stream : Option d.Stream

  unfoldable pub subscribe_reconnecting_with_options :
      MsgbusClient → Str → SubscribeOptions → ResilientSubscription
  unfolding or_default
  subscribe_reconnecting_with_options client topic options = record {
    topic = topic;
    origin = or_default client options.origin;
    next_head_id = max options.from_head_id 1;
    replay_limit = options.replay_limit;
    reconnect_delay = options.reconnect_delay;
    stream = none;
  }

  unfoldable pub subscribe_reconnecting :
      MsgbusClient → Str → Option PbNodeId → ℕ → ResilientSubscription
  unfolding subscribe_reconnecting_with_options
  subscribe_reconnecting client topic origin from_head_id =
      subscribe_reconnecting_with_options client topic
        (record default_options { origin = origin; from_head_id = from_head_id })

  unfoldable pub open_stream :
      ResilientSubscription → d.State → SdkResult (Unit {0}) × ResilientSubscription × d.State
  open_stream sub state =
      let (answer, state') = d.subscribe state (record {
        topic = sub.topic;
        origin = sub.origin;
        from_head_id = sub.next_head_id;
        replay_limit = sub.replay_limit;
      }) in
      elim answer [
        | err e ↦ (err (status e), sub, state')
        | ok s ↦ (ok tt, record sub { stream = some s }, state')
      ]

  -- the `if` at the head of the loop
  unfoldable pub ensure_open :
      ResilientSubscription → d.State → SdkResult (Unit {0}) × ResilientSubscription × d.State
  unfolding open_stream
  ensure_open sub state = elim sub.stream [
    | none ↦ open_stream sub state
    | some s ↦ (ok tt, sub, state)
  ]

  -- a round of the loop: `none` is another round
  abbrev pub Round : Type 0
  Round = Option (SdkResult MessageEnvelope) × ResilientSubscription × d.State

  unfoldable pub close_and_sleep : ResilientSubscription → d.State → Round
  close_and_sleep sub state =
      (none, record sub { stream = none }, d.sleep state sub.reconnect_delay)

  -- the `match` on what the stream brings
  unfoldable pub take_response :
      ResilientSubscription → d.State → Rpc (Option (Option MessageEnvelope)) → Round
  unfolding close_and_sleep required retryable_status saturating_add
  take_response sub state (ok none) = close_and_sleep sub state
  take_response sub state (ok (some response)) =
      elim (required response (codes "server returned empty subscribe response")) [
        | err e ↦ (some (err e), sub, state)
        | ok message ↦ (
          some (ok message),
          record sub { next_head_id = saturating_add message.head_id 1 },
          state,
        )
      ]
  take_response sub state (err e) = elim (retryable_status e.code) [
    | true ↦ close_and_sleep sub state
    | false ↦ (some (err (status e)), sub, state)
  ]

  unfoldable pub read_stream : ResilientSubscription → d.State → Option d.Stream → Round
  unfolding take_response
  read_stream sub state none =
      (some (err (protocol (codes "subscription stream was not opened"))), sub, state)
  read_stream sub state (some s) =
      let (answer, s', state') = d.message state s in
      take_response (record sub { stream = some s' }) state' answer

  unfoldable pub round : ResilientSubscription → d.State → Round
  unfolding ensure_open read_stream is_retryable
  round sub state =
      let (opened, sub', state') = ensure_open sub state in
      elim opened [
        | ok unit ↦ read_stream sub' state' sub'.stream
        | err e ↦ elim (is_retryable e) [
          | true ↦ (none, sub', d.sleep state' sub'.reconnect_delay)
          | false ↦ (some (err e), sub', state')
        ]
      ]

  -- The loop; `none` is fuel that ran out, while the loop of the source goes on.
  unfoldable pub next_message : ℕ → ResilientSubscription → d.State → Round
  unfolding round
  next_message zero sub state = (none, sub, state)
  next_message (suc fuel) sub state =
      let (taken, sub', state') = round sub state in
      elim taken [
        | none ↦ next_message fuel sub' state'
        | some result ↦ (some result, sub', state')
      ]
