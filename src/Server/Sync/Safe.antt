-- ===== src/Server/Sync/Safe.antt =====
-- What a pass over a peer's stream keeps of the store, whatever the peer sends.
use msgbus.Prelude.{
  ℕ, ◌≤◌, ◌≡◌, refl, sym, ap, none, some, [], ◌∷◌, max, ◌&&◌, ◌==◌, arith, Bool-cases, inl, inr,
}
use msgbus.Text.{Str, codes}
use msgbus.Core.Error.{outcome, Outcome, Result, ok, err, ok_injective, >>=-eq-ok}
use msgbus.Core.Word.{u64_max, saturating_add32}
use msgbus.Core.Name.{topic_eq, topic_new, message_id_from_string}
use msgbus.Core.Node.{node_eq}
use msgbus.Core.Message.{
  Bytes, StoredMessage, TombstoneRange, TopicHead, PeerSyncState, ReplicateResult, inserted,
  already_present,
}
use msgbus.Core.Store.{MsgbusStore}
use msgbus.Server.Status.{or_status}
use msgbus.Server.Proto.{MessageEnvelope}
use msgbus.Server.Convert.{required_node, core_message}
use msgbus.Server.Service.{Service, send}
use msgbus.Server.Control.{apply_control_message}
use msgbus.Server.Kept.{Reads64, DeletesKeep, apply_control_message-kept}
use msgbus.Server.Sync.{PeerSpec, apply_replicated, take_message, stream_loop}
use msgbus.Server.Sync.World.{Responses, Fits64}

-- A property of the store's state that the calls of a pass keep.
pub record Keeps (s : MsgbusStore) (P : s.State → Type 0) : Type 0 where
  pub replicate :
      (m : StoredMessage) (st : s.State)
      → m.head_id ≤ u64_max
      → P st
      → P (s.put_replicated_message st m).1
  pub delete : DeletesKeep s P
  pub note : (st : s.State) (state : PeerSyncState) → P st → P (s.record_peer_sync_state st state).1

core_message-head :
    (e : MessageEnvelope) {m : StoredMessage} → core_message e ≡ ok m → m.head_id ≡ e.head_id
unfolding core_message
core_message-head e h =
    let (origin, named, rest) =
      >>=-eq-ok (required_node e.origin (codes "message origin is required")) _ h in
    elim (Bool-cases (e.head_id == 0)) [
      | inl none_yet ↦ cc (none_yet, rest)
      | inr some_head ↦
          let rest' = rw some_head at rest in
          let (id, identified, rest'') =
            >>=-eq-ok (or_status (message_id_from_string e.id)) _ rest' in
          let (topic, titled, last) = >>=-eq-ok (or_status (topic_new e.topic)) _ rest'' in
          ap (λ (x : StoredMessage). x.head_id) (sym (ok_injective last))
    ]

module _ (s : MsgbusStore) (parse : Bytes → Outcome Str TombstoneRange) (reads : Reads64 parse)
    (P : s.State → Type 0) (k : Keeps s P) where
  apply_replicated-Keeps :
      (now : ℕ) (service : Service s) (m : StoredMessage) (r : Result ReplicateResult × s.State)
      → P r.1
      → P (apply_replicated s parse now service m r).1.store
  unfolding apply_replicated send
  apply_replicated-Keeps now service m (err e, st) p = p
  apply_replicated-Keeps now service m (ok already_present, st) p =
      apply_control_message-kept s parse reads P k.delete now st m p
  apply_replicated-Keeps now service m (ok inserted, st) p =
      let kept = apply_control_message-kept s parse reads P k.delete now st m p in
      elim (outcome (apply_control_message s parse now st m).0) [
        | inl (e, failed) ↦ rw (failed, apply_replicated) kept
        | inr (done, applied) ↦ rw (applied, apply_replicated) kept
      ]

  take_message-Keeps :
      (now : ℕ) (service : Service s) (peer : PeerSpec) (head : TopicHead) (m : StoredMessage)
      → m.head_id ≤ u64_max
      → P service.store
      → P (take_message s parse now service peer head m).1.store
  unfolding take_message
  take_message-Keeps now service peer head m fits p =
      elim (Bool-cases (topic_eq m.topic head.topic && node_eq m.origin head.origin)) [
        | inl wanted ↦ rw wanted (
            apply_replicated-Keeps now service m (s.put_replicated_message service.store m)
              (k.replicate m service.store fits p))
        | inr other ↦ rw other p
      ]

  -- A stream keeps the property, and brings the head that is reached no lower.
  pub stream_loop-Keeps :
      (clock : StoredMessage → ℕ) (service : Service s) (peer : PeerSpec) (head : TopicHead)
      (local_head fetched : ℕ) (stream : Responses)
      → Fits64 stream
      → P service.store
      → P (stream_loop s parse clock service peer head local_head fetched stream).1.store
        × ((reached taken : ℕ)
            → (stream_loop s parse clock service peer head local_head fetched stream).0
              ≡ ok (reached, taken)
            → local_head ≤ reached)
  unfolding stream_loop Fits64
  stream_loop-Keeps clock service peer head local_head fetched [] fits p =
      (p, λ r t e. omega (arith, ap (λ (x : ℕ × ℕ). x.0) (ok_injective e)))
  stream_loop-Keeps clock service peer head local_head fetched (err e ∷ rest) fits p =
      (p, λ r t e. cc)
  stream_loop-Keeps clock service peer head local_head fetched (ok none ∷ rest) (fit, fits) p =
      stream_loop-Keeps clock service peer head local_head fetched rest fits p
  stream_loop-Keeps clock service peer head local_head fetched (ok (some envelope) ∷ rest)
        (fit, fits) p =
      elim (outcome (core_message envelope)) [
        | inl (e, failed) ↦ rw (failed, stream_loop) (p, λ r t e'. cc)
        | inr (m, read) ↦
            let small : m.head_id ≤ u64_max =
              omega (arith, fit envelope refl, core_message-head envelope read) in
            let kept = take_message-Keeps (clock m) service peer head m small p in
            let call = take_message s parse (clock m) service peer head m in
            elim (outcome call.0) [
              | inl (e, failed) ↦ rw (read, stream_loop, failed) (kept, λ r t e'. cc)
              | inr (done, taken) ↦
                  let (kept', later) =
                    stream_loop-Keeps clock call.1 peer head (max local_head m.head_id)
                      (saturating_add32 fetched 1) rest fits kept in
                  rw (read, stream_loop, taken) (kept', λ r t e. omega (arith, later r t e))
            ]
      ]
