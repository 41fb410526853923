-- ===== src/Server/Sync/SafeHead.antt =====
-- The windows of one log of a peer end, and what they keep of the store.
use msgbus.Prelude.{
  ℕ, zero, suc, ◌+◌, ◌≤◌, ◌<◌, ◌≡◌, refl, none, some, Option, ◌||◌, ◌==◌, ltb, arith, Bool-cases,
  inl, inr, unwrap_or,
}
use msgbus.Text.{Str}
use msgbus.Core.Error.{outcome, Outcome, ok, err}
use msgbus.Core.Name.{Topic}
use msgbus.Core.Node.{NodeId}
use msgbus.Core.Message.{Bytes, TopicHead, TombstoneRange}
use msgbus.Core.Store.{MsgbusStore}
use msgbus.Server.Kept.{Reads64}
use msgbus.Server.Sync.{
  SyncError, SyncResult, PeerSpec, status_box, record_peer_sync_success, record_peer_sync_failure,
  success_state, failure_state, stream_loop,
}
use msgbus.Server.Sync.World.{World, Sends64}
use msgbus.Server.Sync.Head.{
  Pass, note_success, fetch_request, fetch_window, head_loop, finish_head, sync_head,
}
use msgbus.Server.Sync.Pass.{note_failure}
use msgbus.Server.Sync.Safe.{Keeps, stream_loop-Keeps}

module _ (s : MsgbusStore) (parse : Bytes → Outcome Str TombstoneRange) (reads : Reads64 parse)
    (w : World) (sends : Sends64 w) (P : s.State → Type 0) (k : Keeps s P) where
  -- the program gives a result, and the store has the property after it
  abbrev pub Ends : {R : Type 0} → Option R × Pass s parse w → Type 0
  Ends {R} x = (r : R) × (x.0 ≡ some r) × P x.1.0.store

  pub note_success-Keeps :
      (pass : Pass s parse w) (peer : PeerSpec) (t : Option Topic) (o : Option NodeId)
      (l h last : ℕ)
      → P pass.0.store
      → P (note_success s parse w pass peer t o l h last).1.0.store
  unfolding note_success record_peer_sync_success
  note_success-Keeps (service, state) peer t o l h last p = k.note service.store _ p

  pub note_failure-Keeps :
      (pass : Pass s parse w) (peer : PeerSpec) (t : Option Topic) (o : Option NodeId) (l h : ℕ)
      (e : Str)
      → P pass.0.store
      → P (note_failure s parse w pass peer t o l h e).1.0.store
  unfolding note_failure record_peer_sync_failure
  note_failure-Keeps (service, state) peer t o l h e p = k.note service.store _ p

  fetch_window-Keeps :
      (pass : Pass s parse w) (peer : PeerSpec) (head : TopicHead) (batch local_head : ℕ)
      → P pass.0.store
      → P (fetch_window s parse w pass peer head batch local_head).1.0.store
        × ((reached fetched : ℕ)
            → (fetch_window s parse w pass peer head batch local_head).0 ≡ ok (reached, fetched)
            → local_head ≤ reached)
  unfolding fetch_window Sends64
  fetch_window-Keeps (service, state) peer head batch local_head p =
      let call = w.fetch state (fetch_request head local_head batch) in
      elim (outcome call.0) [
        | inl (e, failed) ↦ rw (failed, fetch_window) (p, λ r f e'. cc)
        | inr (stream, answered) ↦
            rw (answered, fetch_window)
              (stream_loop-Keeps s parse reads P k (w.taken_at call.1) service peer head local_head
                0 stream (sends state (fetch_request head local_head batch) stream answered) p)
      ]

  head_loop-Ends :
      (fuel : ℕ) (pass : Pass s parse w) (peer : PeerSpec) (head : TopicHead) (batch local_head : ℕ)
      → 1 ≤ fuel
      → head.head_id + 1 ≤ fuel + local_head
      → P pass.0.store
      → Ends (head_loop s parse w fuel pass peer head batch local_head)
  unfolding head_loop
  head_loop-Ends zero pass peer head batch local_head some_fuel enough p = absurd (omega arith)
  head_loop-Ends (suc fuel) pass peer head batch local_head some_fuel enough p =
      elim (Bool-cases (ltb local_head head.head_id)) [
        | inr done ↦ rw (done, head_loop) (ok local_head, refl, p)
        | inl more ↦
            let (kept, later) = fetch_window-Keeps pass peer head batch local_head p in
            let window = fetch_window s parse w pass peer head batch local_head in
            elim (outcome window.0) [
              | inl (e, failed) ↦ rw (more, head_loop, failed) (err e, refl, kept)
              | inr ((reached, fetched), answered) ↦
                  let noted =
                    note_success s parse w window.1 peer (some head.topic) (some head.origin)
                      reached head.head_id reached in
                  let kept' =
                    note_success-Keeps window.1 peer (some head.topic) (some head.origin) reached
                      head.head_id reached kept in
                  elim (outcome noted.0) [
                    | inl (e, failed) ↦ rw (more, head_loop, answered, failed) (err e, refl, kept')
                    | inr (u, written) ↦ elim (Bool-cases (fetched == 0 || reached == local_head)) [
                      | inl last ↦
                          rw (more, head_loop, answered, written, last) (ok reached, refl, kept')
                      | inr again ↦
                          let le = later reached fetched answered in
                          let below : local_head < head.head_id = ground arith in
                          let moved : local_head < reached = ground arith in
                          rw (more, head_loop, answered, written, again)
                            (head_loop-Ends fuel noted.1 peer head batch reached (omega arith)
                              (omega arith) kept')
                    ]
                  ]
            ]
      ]

  finish_head-Ends :
      (peer : PeerSpec) (head : TopicHead) (x : Option (SyncResult ℕ) × Pass s parse w)
      → Ends x
      → Ends (finish_head s parse w peer head x)
  unfolding finish_head
  finish_head-Ends peer head (none, pass) (r, e, p) = cc
  finish_head-Ends peer head (some (err e), pass) (r, ended, p) = (err e, refl, p)
  finish_head-Ends peer head (some (ok l), pass) (r, ended, p) =
      elim (Bool-cases (ltb l head.head_id)) [
        | inl behind ↦ rw (behind, finish_head) (ok tt, refl, p)
        | inr done ↦
            rw (done, finish_head)
              (
                (note_success s parse w pass peer (some head.topic) (some head.origin) l
                    head.head_id l).0,
                refl,
                note_success-Keeps pass peer (some head.topic) (some head.origin) l head.head_id l
                    p,
              )
      ]

  pub sync_head-Ends :
      (pass : Pass s parse w) (peer : PeerSpec) (head : TopicHead) (batch : ℕ)
      → P pass.0.store
      → Ends (sync_head s parse w pass peer head batch)
  unfolding sync_head
  sync_head-Ends (service, state) peer head batch p =
      elim (outcome (s.get_head service.store head.topic head.origin)) [
        | inl (e, failed) ↦ rw (failed, sync_head) (err (msgbus.Server.Sync.store e), refl, p)
        | inr (found, answered) ↦
            rw (answered, sync_head)
              (finish_head-Ends peer head _ (
                head_loop-Ends (suc head.head_id) (service, state) peer head batch
                  (unwrap_or found 0) (omega arith) (omega arith) p))
      ]
