-- ===== src/Server/Sync/SafePass.antt =====
-- A pass of synchronisation ends, and what it keeps of the store.
use msgbus.Prelude.{ℕ, ◌≡◌, refl, ◌∙◌, ap, none, some, Option, List, [], ◌∷◌, inl, inr, unwrap_or}
use msgbus.Text.{Str}
use msgbus.Core.Error.{outcome, Outcome, err}
use msgbus.Core.Node.{NodeId}
use msgbus.Core.Message.{Bytes, TopicHead, TombstoneRange}
use msgbus.Core.Store.{MsgbusStore}
use msgbus.Server.Proto.{PbTopicHead}
use msgbus.Server.Convert.{core_topic_head}
use msgbus.Server.Kept.{Reads64}
use msgbus.Server.Sync.{SyncError, SyncResult, PeerSpec, status_box}
use msgbus.Server.Sync.World.{World, Sends64}
use msgbus.Server.Sync.Connect.{PeerClientTlsConfig}
use msgbus.Server.Sync.Head.{Pass, note_success, sync_head}
use msgbus.Server.Sync.Pass.{
  PeerSyncConfig, note_failure, failed_head, heads_pass, open_peer, sync_peer, peers_loop, first_of,
  error_message, once_result, sync_once,
}
use msgbus.Server.Sync.Safe.{Keeps}
use msgbus.Server.Sync.SafeHead.{Ends, note_success-Keeps, note_failure-Keeps, sync_head-Ends}

module _ (s : MsgbusStore) (parse : Bytes → Outcome Str TombstoneRange) (reads : Reads64 parse)
    (w : World) (sends : Sends64 w) (P : s.State → Type 0) (k : Keeps s P) where
  failed_head-Keeps :
      (pass : Pass s parse w) (peer : PeerSpec) (head : TopicHead) (error : SyncError)
      → P pass.0.store
      → P (failed_head s parse w pass peer head error).1.0.store
  unfolding failed_head
  failed_head-Keeps (service, state) peer head error p =
      elim (outcome (s.get_head service.store head.topic head.origin)) [
        | inl (e, failed) ↦ rw (failed, failed_head) p
        | inr (found, answered) ↦
            let noted =
              note_failure s parse w (service, state) peer (some head.topic) (some head.origin)
                (unwrap_or found 0) head.head_id (error_message s parse w error) in
            let kept =
              note_failure-Keeps s parse reads w sends P k (service, state) peer (some head.topic)
                (some head.origin) (unwrap_or found 0) head.head_id (error_message s parse w error)
                p in
            elim (outcome noted.0) [
              | inl (e, failed) ↦ rw (answered, failed_head, failed) kept
              | inr (u, written) ↦ rw (answered, failed_head, written) kept
            ]
      ]

  heads_pass-Ends :
      (pass : Pass s parse w) (peer : PeerSpec) (batch : ℕ) (heads : List PbTopicHead)
      → P pass.0.store
      → Ends s parse reads w sends P k (heads_pass s parse w pass peer batch heads)
  unfolding heads_pass
  heads_pass-Ends pass peer batch [] p = (
    (note_success s parse w pass peer none none 0 0 0).0,
    refl,
    note_success-Keeps s parse reads w sends P k pass peer none none 0 0 0 p,
  )
  heads_pass-Ends pass peer batch (h ∷ heads) p = elim (outcome (status_box (core_topic_head h))) [
    | inl (e, failed) ↦ rw (failed, heads_pass) (err e, refl, p)
    | inr (head, read) ↦
        let call = sync_head s parse w pass peer head batch in
        let (r, ended, kept) = sync_head-Ends s parse reads w sends P k pass peer head batch p in
        elim (outcome r) [
          | inl (e, failed) ↦
              rw (read, heads_pass, ended ∙ ap some failed)
                (
                  (failed_head s parse w call.1 peer head e).0,
                  refl,
                  failed_head-Keeps call.1 peer head e kept,
                )
          | inr (u, synced) ↦
              rw (read, heads_pass, ended ∙ ap some synced)
                (heads_pass-Ends call.1 peer batch heads kept)
        ]
  ]

  sync_peer-Ends :
      (pass : Pass s parse w) (local : NodeId) (peer : PeerSpec) (batch : ℕ)
      (tls : Option PeerClientTlsConfig)
      → P pass.0.store
      → Ends s parse reads w sends P k (sync_peer s parse w pass local peer batch tls)
  unfolding sync_peer
  sync_peer-Ends (service, state) local peer batch tls p =
      let opened = open_peer s parse w state local peer tls in
      elim (outcome opened.0) [
        | inl (e, failed) ↦ rw (failed, sync_peer) (err e, refl, p)
        | inr (heads, listed) ↦
            rw (listed, sync_peer) (heads_pass-Ends (service, opened.1) peer batch heads p)
      ]

  peers_loop-Ends :
      (config : PeerSyncConfig) (pass : Pass s parse w) (peers : List PeerSpec) (first : Option Str)
      → P pass.0.store
      → Ends s parse reads w sends P k (peers_loop s parse w config pass peers first)
  unfolding peers_loop
  peers_loop-Ends config pass [] first p = (first, refl, p)
  peers_loop-Ends config pass (peer ∷ peers) first p =
      let call = sync_peer s parse w pass config.local_node peer config.batch_limit config.tls in
      let (r, ended, kept) =
        sync_peer-Ends pass config.local_node peer config.batch_limit config.tls p in
      elim (outcome r) [
        | inl (e, failed) ↦
            rw (ended ∙ ap some failed, peers_loop)
              (let text = error_message s parse w e in
                peers_loop-Ends config (note_failure s parse w call.1 peer none none 0 0 text).1
                  peers (first_of first text)
                  (note_failure-Keeps s parse reads w sends P k call.1 peer none none 0 0 text
                    kept))
        | inr (u, synced) ↦
            rw (ended ∙ ap some synced, peers_loop) (peers_loop-Ends config call.1 peers first kept)
      ]

  -- For every store and every peer that sends heads in the range of u64, a pass over the peers ends
  -- with a result within its fuel; and what the calls of the store for replicated messages, deleted
  -- ranges and states of the synchronisation keep of the store holds after it, if it held before.
  pub sync_once-Ends :
      (config : PeerSyncConfig) (pass : Pass s parse w)
      → P pass.0.store
      → (r : SyncResult (Unit {0})) × ((sync_once s parse w config pass).0 ≡ some r)
        × P (sync_once s parse w config pass).1.0.store
  unfolding sync_once
  sync_once-Ends config pass p =
      let (first, ended, kept) = peers_loop-Ends config pass config.peers none p in
      rw (ended, sync_once) (once_result s parse w first, refl, kept)
