-- ===== src/Sdk/Received.antt =====
-- What a caller of `next_message` gets, over any number of reconnections.
use msgbus.Prelude.{
  ℕ, zero, suc, ◌+◌, ◌≤◌, ◌<◌, ◌≡◌, refl, ◌∙◌, ap, false, Option, none, some, List, [], ◌∷◌, max,
  arith, Bool-cases, Option-cases, inl, inr, subst,
}
use msgbus.Text.{Str}
use msgbus.Core.Word.{u64_max, saturating_add, saturating_add_exact}
use msgbus.Core.Error.{outcome, ok, err}
use msgbus.Server.Proto.{MessageEnvelope}
use msgbus.Sdk.Daemon.{Rpc, Daemon}
use msgbus.Sdk.Client.{
  SdkError, SdkResult, status, required, retryable_status, SubscribeOptions, MsgbusClient,
}
use msgbus.Sdk.Order.{
  IsOrdered, IsSequenced, IsBeyond, IsOrdered-IsSequenced, IsResumed, Advances, round-Advances,
}
use msgbus.Sdk.Resilient.{
  ResilientSubscription, subscribe_reconnecting_with_options, ensure_open, close_and_sleep,
  take_response, read_stream, round, next_message, is_retryable,
}

-- Each head is at or above the bound, and above the heads before it.
unfoldable pub IsIncreasing : ℕ → List MessageEnvelope → Type 0
IsIncreasing bound [] = Unit
IsIncreasing bound (m ∷ messages) = (bound ≤ m.head_id) × IsIncreasing (m.head_id + 1) messages

-- Each head is at or above the bound, and above the heads before it that are below the maximum of
-- u64, and `Q` holds for it.
unfoldable pub IsGrowing : (ℕ → Type 0) → ℕ → List MessageEnvelope → Type 0
IsGrowing Q bound [] = Unit
IsGrowing Q bound (m ∷ messages) =
    (bound ≤ m.head_id) × Q m.head_id × IsGrowing Q (saturating_add m.head_id 1) messages

IsGrowing-IsIncreasing :
    (bound : ℕ) (messages : List MessageEnvelope)
    → IsGrowing (λ h. h < u64_max) bound messages
    → IsIncreasing bound messages
unfolding IsGrowing IsIncreasing
IsGrowing-IsIncreasing bound [] all = tt
IsGrowing-IsIncreasing bound (m ∷ messages) (low, below, all) = (
  low,
  IsGrowing-IsIncreasing (m.head_id + 1) messages (
      subst (λ h. IsGrowing (λ h. h < u64_max) h messages)
        (saturating_add_exact m.head_id 1 (omega arith)) all),
)

module _ (d : Daemon) where
  -- The messages of a number of calls of `next_message`; a call that fails brings none.
  unfoldable pub receive : ℕ → ℕ → ResilientSubscription d → d.State → List MessageEnvelope
  receive zero fuel sub state = []
  receive (suc calls) fuel sub state =
      let (taken, sub', state') = next_message d fuel sub state in
      elim taken [
        | some (ok m) ↦ m ∷ receive calls fuel sub' state'
        | some (err e) ↦ receive calls fuel sub' state'
        | none ↦ receive calls fuel sub' state'
      ]

  module _ (Q : ℕ → Type 0) (Above : ℕ → d.Stream → Type 0) (o : IsSequenced d Q Above) where
    lower :
        (h h' : ℕ)
        → h ≤ h'
        → (messages : List MessageEnvelope) → IsGrowing Q h' messages
        → IsGrowing Q h messages
    unfolding IsGrowing
    lower h h' le [] all = tt
    lower h h' le (m ∷ messages) (low, holds, all) = (omega arith, holds, all)

    next_message-Advances :
        (fuel : ℕ) (sub : ResilientSubscription d) (state : d.State)
        → IsResumed d Q Above o sub
        → Advances d Q Above o sub (next_message d fuel sub state)
    unfolding next_message
    next_message-Advances zero sub state i = record {
      resumed = i;
      kept = omega arith;
      taken = λ m e. cc;
    }
    next_message-Advances (suc fuel) sub state i =
        let call = round d sub state in
        let step = round-Advances d Q Above o sub state i in
        elim (Option-cases call.0) [
          | inl again ↦
              let rest = next_message-Advances fuel call.1 call.2 step.resumed in
              rw (again, next_message)
                (record {
                  resumed = rest.resumed;
                  kept = omega (arith, rest.kept, step.kept);
                  taken = λ m e.
                      let (low, holds, at) = rest.taken m e in
                      (omega (arith, step.kept), holds, at);
                })
          | inr (result, brought) ↦
              rw (brought, next_message)
                (record {
                  resumed = step.resumed;
                  kept = step.kept;
                  taken = λ m e. step.taken m (brought ∙ e);
                })
        ]

    receive_all :
        (calls fuel : ℕ) (sub : ResilientSubscription d) (state : d.State)
        → IsResumed d Q Above o sub
        → IsGrowing Q sub.next_head_id (receive calls fuel sub state)
    unfolding receive IsGrowing
    receive_all zero fuel sub state i = tt
    receive_all (suc calls) fuel sub state i =
        let call = next_message d fuel sub state in
        let step = next_message-Advances fuel sub state i in
        let rest = receive_all calls fuel call.1 call.2 step.resumed in
        elim (Option-cases call.0) [
          | inl out ↦ rw (out, receive) (lower _ _ step.kept _ rest)
          | inr (result, brought) ↦ elim (outcome result) [
            | inl (e, failed) ↦ rw (brought ∙ ap some failed, receive) (lower _ _ step.kept _ rest)
            | inr (m, taken) ↦
                let (low, holds, at) = step.taken m (brought ∙ ap some taken) in
                rw (brought ∙ ap some taken, receive)
                  (
                    low,
                    holds,
                    subst (λ h. IsGrowing Q h (receive calls fuel call.1 call.2)) at rest,
                  )
          ]
        ]

    pub receive-IsGrowing :
        (client : MsgbusClient) (topic : Str) (options : SubscribeOptions) (calls fuel : ℕ)
        (state : d.State)
        → options.from_head_id ≤ u64_max
        → IsGrowing Q
            (max options.from_head_id 1)
            (receive calls fuel (subscribe_reconnecting_with_options d client topic options) state)
    unfolding subscribe_reconnecting_with_options
    receive-IsGrowing client topic options calls fuel state fits =
        receive_all calls fuel (subscribe_reconnecting_with_options d client topic options) state
          (record { low = omega arith; high = omega arith; above = λ s e. cc })

  module _ (Above : ℕ → d.Stream → Type 0) (o : IsOrdered d Above) where
    -- Let the streams of a daemon bring messages in the order of their heads, from the head that was
    -- asked for on, all below the maximum of u64. Then the messages that a caller of a reconnecting
    -- subscription from a head in the range of u64 gets, over any number of calls and reconnections,
    -- start at the head it asked for or above, and each is above the one before it: none comes twice.
    pub receive-IsIncreasing :
        (client : MsgbusClient) (topic : Str) (options : SubscribeOptions) (calls fuel : ℕ)
        (state : d.State)
        → options.from_head_id ≤ u64_max
        → IsIncreasing
            (max options.from_head_id 1)
            (receive calls fuel (subscribe_reconnecting_with_options d client topic options) state)
    receive-IsIncreasing client topic options calls fuel state fits =
        IsGrowing-IsIncreasing (max options.from_head_id 1)
          (receive calls fuel (subscribe_reconnecting_with_options d client topic options) state)
          (receive-IsGrowing (λ h. h < u64_max) (IsBeyond Above) (IsOrdered-IsSequenced d Above o)
            client topic options calls fuel state fits)

  error_same :
      (e e' : SdkError)
      → ◌≡◌ {A = Option (SdkResult MessageEnvelope)} (some (err e)) (some (err e'))
      → e ≡ e'
  error_same e e' h = cc

  final_response :
      (sub : ResilientSubscription d) (state : d.State)
      (answer : Rpc (Option (Option MessageEnvelope))) (e : SdkError)
      → (take_response d sub state answer).0 ≡ some (err e)
      → is_retryable e ≡ false
  unfolding take_response close_and_sleep required is_retryable
  final_response sub state (ok none) e failed = cc
  final_response sub state (ok (some none)) e failed =
      subst (λ x. is_retryable x ≡ false) (error_same _ e failed) refl
  final_response sub state (ok (some (some m))) e failed = cc
  final_response sub state (err code) e failed = elim (Bool-cases (retryable_status code.code)) [
    | inl again ↦ absurd (cc (rw (again, take_response) at failed))
    | inr final ↦
        subst (λ x. is_retryable x ≡ false)
          (error_same (status code) e (rw (final, take_response) at failed)) final
  ]

  final_read :
      (sub : ResilientSubscription d) (state : d.State) (s : Option d.Stream) (e : SdkError)
      → (read_stream d sub state s).0 ≡ some (err e)
      → is_retryable e ≡ false
  unfolding read_stream is_retryable
  final_read sub state none e failed =
      subst (λ x. is_retryable x ≡ false) (error_same _ e failed) refl
  final_read sub state (some s) e failed =
      let call = d.message state s in
      final_response (record sub { stream = some call.1 }) call.2 call.0 e failed

  final_round :
      (sub : ResilientSubscription d) (state : d.State) (e : SdkError)
      → (round d sub state).0 ≡ some (err e)
      → is_retryable e ≡ false
  unfolding round
  final_round sub state e failed =
      let call = ensure_open d sub state in
      elim (outcome call.0) [
        | inr (u, opened) ↦ final_read call.1 call.2 call.1.stream e (rw (opened, round) at failed)
        | inl (e', refused) ↦ elim (Bool-cases (is_retryable e')) [
          | inl again ↦ absurd (cc (rw (refused, round, again) at failed))
          | inr final ↦
              subst (λ x. is_retryable x ≡ false)
                (error_same e' e (rw (refused, round, final) at failed)) final
        ]
      ]

  -- A call fails only with an error that is not one to try again after.
  pub next_message-is_retryable :
      (fuel : ℕ) (sub : ResilientSubscription d) (state : d.State) (e : SdkError)
      → (next_message d fuel sub state).0 ≡ some (err e)
      → is_retryable e ≡ false
  unfolding next_message
  next_message-is_retryable zero sub state e failed = cc
  next_message-is_retryable (suc fuel) sub state e failed =
      let call = round d sub state in
      elim (Option-cases call.0) [
        | inl again ↦
            next_message-is_retryable fuel call.1 call.2 e (rw (again, next_message) at failed)
        | inr (result, brought) ↦
            final_round sub state e (brought ∙ rw (brought, next_message) at failed)
      ]
