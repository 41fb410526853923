-- ===== src/Sdk/Order.antt =====
-- A round of the loop of `next_message` on a daemon whose streams are in order.
use msgbus.Prelude.{
  ℕ, ◌-◌, ◌≤◌, ◌<◌, ◌≡◌, refl, ap, Option, none, some, max, arith, Bool-cases, Option-cases, inl,
  inr, subst,
}
use msgbus.Core.Error.{outcome, ok, err}
use msgbus.Core.Word.{u64_max, saturating_add}
use msgbus.Server.Proto.{MessageEnvelope, SubscribeRequest}
use msgbus.Sdk.Daemon.{Rpc, Daemon}
use msgbus.Sdk.Client.{SdkError, SdkResult, status, required, retryable_status}
use msgbus.Sdk.Resilient.{
  ResilientSubscription, open_stream, ensure_open, Round, close_and_sleep, take_response,
  read_stream, round, is_retryable,
}

-- What a daemon promises of its streams. `Above h s`: each message that the stream brings from now on
-- is at a head above `h`, in order.
pub record IsOrdered (d : Daemon) (Above : ℕ → d.Stream → Type 0) : Type 0 where
  pub opens :
      (state : d.State) (request : SubscribeRequest) (s : d.Stream)
      → request.from_head_id ≤ u64_max
      → (d.subscribe state request).0 ≡ ok s
      → Above (max request.from_head_id 1 - 1) s
  pub brings :
      (h : ℕ) (state : d.State) (s : d.Stream) (m : MessageEnvelope)
      → Above h s
      → (d.message state s).0 ≡ ok (some (some m))
      → (h < m.head_id) × (m.head_id < u64_max) × Above m.head_id (d.message state s).1
  pub stays : (h : ℕ) (state : d.State) (s : d.Stream) → Above h s → Above h (d.message state s).1

-- The same of heads for which `Q` holds, if what is above a head is above each head below it.
pub record IsSequenced (d : Daemon) (Q : ℕ → Type 0) (Above : ℕ → d.Stream → Type 0) : Type 0 where
  pub opens :
      (state : d.State) (request : SubscribeRequest) (s : d.Stream)
      → request.from_head_id ≤ u64_max
      → (d.subscribe state request).0 ≡ ok s
      → Above (max request.from_head_id 1 - 1) s
  pub brings :
      (h : ℕ) (state : d.State) (s : d.Stream) (m : MessageEnvelope)
      → Above h s
      → (d.message state s).0 ≡ ok (some (some m))
      → (h < m.head_id) × Q m.head_id × Above m.head_id (d.message state s).1
  pub stays : (h : ℕ) (state : d.State) (s : d.Stream) → Above h s → Above h (d.message state s).1
  pub lowers : (h h' : ℕ) (s : d.Stream) → h ≤ h' → Above h' s → Above h s

-- above a head at or above `h`
unfoldable pub IsBeyond : {Stream : Type 0} → (ℕ → Stream → Type 0) → ℕ → Stream → Type 0
IsBeyond Above h s = (h' : ℕ) × (h ≤ h') × Above h' s

pub IsOrdered-IsSequenced :
    (d : Daemon) (Above : ℕ → d.Stream → Type 0)
    → IsOrdered d Above
    → IsSequenced d (λ h. h < u64_max) (IsBeyond Above)
unfolding IsBeyond
IsOrdered-IsSequenced d Above o = record {
  opens = λ state request s fits opened.
      (max request.from_head_id 1 - 1, omega arith, o.opens state request s fits opened);
  brings = λ h state s m (h', le, above) e.
      let (up, high, later) = o.brings h' state s m above e in
      (omega arith, high, (m.head_id, omega arith, later));
  stays = λ h state s (h', le, above). (h', le, o.stays h' state s above);
  lowers = λ h h' s le (h'', le', above). (h'', omega arith, above);
}

module _ (d : Daemon) where
  module _ (Q : ℕ → Type 0) (Above : ℕ → d.Stream → Type 0) (o : IsSequenced d Q Above) where
    pub record IsResumed (sub : ResilientSubscription d) : Type 0 where
      pub low : 1 ≤ sub.next_head_id
      pub high : sub.next_head_id ≤ u64_max
      pub above : (s : d.Stream) → sub.stream ≡ some s → Above (sub.next_head_id - 1) s

    -- A round from a subscription: a message is at or above the next head, which moves past it.
    pub record Advances (sub : ResilientSubscription d) (r : Round d) : Type 0 where
      pub resumed : IsResumed r.1
      pub kept : sub.next_head_id ≤ r.1.next_head_id
      pub taken :
          (m : MessageEnvelope)
          → r.0 ≡ some (ok m)
          → (sub.next_head_id ≤ m.head_id)
            × Q m.head_id
            × (r.1.next_head_id ≡ saturating_add m.head_id 1)

    closed :
        (sub : ResilientSubscription d) (state : d.State)
        → IsResumed sub
        → Advances sub (close_and_sleep d sub state)
    unfolding close_and_sleep
    closed sub state i = record {
      resumed = record { low = i.low; high = i.high; above = λ s e. cc };
      kept = omega arith;
      taken = λ m e. cc;
    }

    failed_round :
        (sub : ResilientSubscription d) (state : d.State) (e : SdkError)
        → IsResumed sub
        → Advances sub (some (err e), sub, state)
    failed_round sub state e i = record { resumed = i; kept = omega arith; taken = λ m e'. cc }

    same_stream : (s s' : d.Stream) → ◌≡◌ {A = Option d.Stream} (some s) (some s') → s ≡ s'
    same_stream s s' e = cc

    taken_message :
        (m m' : MessageEnvelope)
        → ◌≡◌ {A = Option (SdkResult MessageEnvelope)} (some (ok m)) (some (ok m'))
        → m ≡ m'
    taken_message m m' e = cc

    take_response-Advances :
        (sub : ResilientSubscription d) (state : d.State)
        (answer : Rpc (Option (Option MessageEnvelope)))
        → IsResumed sub
        → ((m : MessageEnvelope)
            → answer ≡ ok (some (some m))
            → (sub.next_head_id ≤ m.head_id)
              × Q m.head_id
              × ((s : d.Stream) → sub.stream ≡ some s → Above m.head_id s))
        → Advances sub (take_response d sub state answer)
    unfolding take_response required saturating_add
    take_response-Advances sub state (ok none) i next = closed sub state i
    take_response-Advances sub state (ok (some none)) i next = failed_round sub state _ i
    take_response-Advances sub state (ok (some (some m))) i next =
        let (low, holds, above) = next m refl in
        record {
          resumed = record {
            low = omega arith;
            high = omega arith;
            above = λ s e.
                o.lowers (saturating_add m.head_id 1 - 1) m.head_id s (omega arith) (above s e);
          };
          kept = omega (arith, i.high);
          taken = λ m' e.
              let same = taken_message m m' e in
              (
                subst (λ (x : MessageEnvelope). sub.next_head_id ≤ x.head_id) same low,
                subst (λ (x : MessageEnvelope). Q x.head_id) same holds,
                ap (λ (x : MessageEnvelope). saturating_add x.head_id 1) same,
              );
        }
    take_response-Advances sub state (err e) i next = elim (Bool-cases (retryable_status e.code)) [
      | inl again ↦ rw (again, take_response) (closed sub state i)
      | inr final ↦ rw (final, take_response) (failed_round sub state (status e) i)
    ]

    read_stream-Advances :
        (sub : ResilientSubscription d) (state : d.State) (s : Option d.Stream)
        → IsResumed sub
        → sub.stream ≡ s
        → Advances sub (read_stream d sub state s)
    unfolding read_stream
    read_stream-Advances sub state none i at = failed_round sub state _ i
    read_stream-Advances sub state (some s) i at =
        let h = sub.next_head_id - 1 in
        let above : Above h s = i.above s at in
        let call = d.message state s in
        let read : ResilientSubscription d = record sub { stream = some call.1 } in
        let step =
          take_response-Advances read call.2 call.0
            (record {
              low = i.low;
              high = i.high;
              above = λ s' e. subst (Above h) (same_stream call.1 s' e) (o.stays h state s above);
            })
            (λ m e.
              let (up, holds, later) = o.brings h state s m above e in
              (
                omega (arith, i.low),
                holds,
                λ s' e'. subst (Above m.head_id) (same_stream call.1 s' e') later,
              )) in
        record { resumed = step.resumed; kept = step.kept; taken = step.taken }

    -- the part of a round that opens the stream
    ensure_open-IsResumed :
        (sub : ResilientSubscription d) (state : d.State)
        → IsResumed sub
        → IsResumed (ensure_open d sub state).1
          × ((ensure_open d sub state).1.next_head_id ≡ sub.next_head_id)
    unfolding ensure_open open_stream
    ensure_open-IsResumed sub state i = elim (Option-cases sub.stream) [
      | inr (s, is_open) ↦ rw (is_open, ensure_open) (i, refl)
      | inl shut ↦
          let request : SubscribeRequest = record {
            topic = sub.topic;
            origin = sub.origin;
            from_head_id = sub.next_head_id;
            replay_limit = sub.replay_limit;
          } in
          let call = d.subscribe state request in
          elim (outcome call.0) [
            | inl (e, failed) ↦ rw (shut, ensure_open, open_stream, failed) (i, refl)
            | inr (s, opened) ↦
                rw (shut, ensure_open, open_stream, opened)
                  (
                    record {
                      low = i.low;
                      high = i.high;
                      above = λ s' e. subst (Above (sub.next_head_id - 1)) (same_stream s s' e) (
                          subst (λ h. Above h s) (omega (arith, i.low))
                            (o.opens state request s i.high opened));
                    },
                    refl,
                  )
          ]
    ]

    pub round-Advances :
        (sub : ResilientSubscription d) (state : d.State)
        → IsResumed sub
        → Advances sub (round d sub state)
    unfolding round
    round-Advances sub state i =
        let (i', same) = ensure_open-IsResumed sub state i in
        let call = ensure_open d sub state in
        elim (outcome call.0) [
          | inr (u, opened) ↦
              let step = read_stream-Advances call.1 call.2 call.1.stream i' refl in
              rw (opened, round)
                (record {
                  resumed = step.resumed;
                  kept = omega (arith, step.kept);
                  taken = λ m e. let (low, holds, at) = step.taken m e in (omega arith, holds, at);
                })
          | inl (e, failed) ↦ elim (Bool-cases (is_retryable e)) [
            | inl again ↦
                rw (failed, round, again)
                  (record { resumed = i'; kept = omega arith; taken = λ m e'. cc })
            | inr final ↦
                rw (failed, round, final)
                  (record { resumed = i'; kept = omega arith; taken = λ m e'. cc })
          ]
        ]
