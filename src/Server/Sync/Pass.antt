-- ===== src/Server/Sync/Pass.antt =====
-- `sync_peer` and `sync_once`: one pass over the peers.
use msgbus.Prelude.{ℕ, Bool, true, false, Option, none, some, List, [], ◌∷◌, unwrap_or}
use msgbus.Text.{Str}
use msgbus.Core.Error.{Outcome, ok, err, to_string, ◌>>=◌}
use msgbus.Core.Name.{Topic}
use msgbus.Core.Node.{NodeId}
use msgbus.Core.Message.{Bytes, TopicHead, TombstoneRange}
use msgbus.Core.Store.{MsgbusStore}
use msgbus.Server.Proto.{PbTopicHead}
use msgbus.Server.Convert.{core_topic_head}
use msgbus.Server.Sync.{
  SyncError, SyncResult, PeerSpec, text, status, store, status_box, verify_peer_identity,
  record_peer_sync_failure,
}
use msgbus.Server.Sync.World.{World}
use msgbus.Server.Sync.Connect.{PeerClientTlsConfig, connect_peer}
use msgbus.Server.Sync.Head.{Pass, note_success, sync_head}

-- The interval is in milliseconds.
pub record PeerSyncConfig : Type 0 where
  pub local_node : NodeId
  pub peers : List PeerSpec
  pub interval : ℕ
  pub batch_limit : ℕ
  pub tls : Option PeerClientTlsConfig

-- `PeerSyncConfig::disabled`
unfoldable pub sync_disabled : NodeId → PeerSyncConfig
sync_disabled local_node = record {
  local_node = local_node;
  peers = [];
  interval = 1_000;
  batch_limit = 100;
  tls = none;
}

-- `PeerSyncConfig::is_enabled`
unfoldable pub sync_is_enabled : PeerSyncConfig → Bool
sync_is_enabled config = elim config.peers [ [] ↦ false | p ∷ ps ↦ true ]

-- the first error is kept
unfoldable pub first_of : Option Str → Str → Option Str
first_of none error = some error
first_of (some first) error = some first

module _ (s : MsgbusStore) (parse : Bytes → Outcome Str TombstoneRange) (w : World) where
  unfoldable pub error_message : SyncError → Str
  unfolding to_string
  error_message (text e) = e
  error_message (status e) = w.status_text e
  error_message (store e) = to_string e

  -- `record_peer_sync_failure` with its read of the clock
  unfoldable pub note_failure :
      Pass s parse w
      → PeerSpec
      → Option Topic
      → Option NodeId
      → ℕ
      → ℕ
      → Str
      → SyncResult (Unit {0}) × Pass s parse w
  unfolding record_peer_sync_failure
  note_failure (service, state) peer topic origin local_head remote_head error =
      let (now, state') = w.now state in
      let (done, st) =
        record_peer_sync_failure s parse service.store now peer topic origin local_head remote_head
          error in
      (done, (record service { store = st }, state'))

  -- what follows an error of `sync_head`
  unfoldable pub failed_head :
      Pass s parse w → PeerSpec → TopicHead → SyncError → SyncResult (Unit {0}) × Pass s parse w
  unfolding note_failure error_message
  failed_head (service, state) peer head error =
      elim (s.get_head service.store head.topic head.origin) [
        | err e ↦ (err (store e), (service, state))
        | ok found ↦
            let (noted, pass) =
              note_failure (service, state) peer (some head.topic) (some head.origin)
                (unwrap_or found 0) head.head_id (error_message error) in
            elim noted [ err e ↦ (err e, pass) | ok unit ↦ (err error, pass) ]
      ]

  -- the `for` over the heads of the peer, and the note after it
  unfoldable pub heads_pass :
      Pass s parse w
      → PeerSpec
      → ℕ
      → List PbTopicHead
      → Option (SyncResult (Unit {0})) × Pass s parse w
  unfolding status_box core_topic_head sync_head failed_head note_success
  heads_pass pass peer batch_limit [] =
      let (noted, pass') = note_success s parse w pass peer none none 0 0 0 in (some noted, pass')
  heads_pass pass peer batch_limit (h ∷ heads) = elim (status_box (core_topic_head h)) [
    | err e ↦ (some (err e), pass)
    | ok head ↦
        let (synced, pass') = sync_head s parse w pass peer head batch_limit in
        elim synced [
          | none ↦ (none, pass')
          | some (err e) ↦
              let (failed, pass'') = failed_head pass' peer head e in (some failed, pass'')
          | some (ok unit) ↦ heads_pass pass' peer batch_limit heads
        ]
  ]

  -- the health request and `verify_peer_identity`
  unfoldable pub identify : w.State → NodeId → PeerSpec → SyncResult (Unit {0}) × w.State
  unfolding status_box verify_peer_identity
  identify state local peer =
      let (answer, state') = w.health state in
      ((do node ← status_box answer; verify_peer_identity local peer node), state')

  -- all that `sync_peer` does before it looks at the heads: the list of the heads
  unfoldable pub open_peer :
      w.State
      → NodeId
      → PeerSpec
      → Option PeerClientTlsConfig
      → SyncResult (List PbTopicHead) × w.State
  unfolding connect_peer identify status_box
  open_peer state local peer tls =
      let (connected, state') = connect_peer w state peer tls in
      elim connected [
        | err e ↦ (err e, state')
        | ok unit ↦
            let (verified, state'') = identify state' local peer in
            elim verified [
              | err e ↦ (err e, state'')
              | ok unit' ↦
                  let (heads, state''') = w.list_heads state'' in (status_box heads, state''')
            ]
      ]

  unfoldable pub sync_peer :
      Pass s parse w
      → NodeId
      → PeerSpec
      → ℕ
      → Option PeerClientTlsConfig
      → Option (SyncResult (Unit {0})) × Pass s parse w
  unfolding open_peer heads_pass
  sync_peer (service, state) local peer batch_limit tls =
      let (opened, state') = open_peer state local peer tls in
      elim opened [
        | err e ↦ (some (err e), (service, state'))
        | ok heads ↦ heads_pass (service, state') peer batch_limit heads
      ]

  -- The `for` over the peers, with the first error. A failure to note a failure is only logged.
  unfoldable pub peers_loop :
      PeerSyncConfig
      → Pass s parse w
      → List PeerSpec
      → Option Str
      → Option (Option Str) × Pass s parse w
  unfolding sync_peer note_failure error_message first_of
  peers_loop config pass [] first_error = (some first_error, pass)
  peers_loop config pass (peer ∷ peers) first_error =
      let (synced, pass') = sync_peer pass config.local_node peer config.batch_limit config.tls in
      elim synced [
        | none ↦ (none, pass')
        | some (ok unit) ↦ peers_loop config pass' peers first_error
        | some (err e) ↦
            let (noted, pass'') = note_failure pass' peer none none 0 0 (error_message e) in
            peers_loop config pass'' peers (first_of first_error (error_message e))
      ]

  unfoldable pub once_result : Option Str → SyncResult (Unit {0})
  once_result none = ok tt
  once_result (some error) = err (text error)

  unfoldable pub sync_once :
      PeerSyncConfig → Pass s parse w → Option (SyncResult (Unit {0})) × Pass s parse w
  unfolding peers_loop once_result
  sync_once config pass =
      let (first_error, pass') = peers_loop config pass config.peers none in
      elim first_error [ none ↦ (none, pass') | some error ↦ (some (once_result error), pass') ]
