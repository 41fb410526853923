-- ===== src/Server/Sync/Head.antt =====
-- `sync_head`: the windows of one log of a peer.
use msgbus.Prelude.{ℕ, zero, suc, true, false, Option, none, some, max, ◌||◌, ◌==◌, ltb, unwrap_or}
use msgbus.Text.{Str}
use msgbus.Core.Error.{Outcome, ok, err}
use msgbus.Core.Word.{saturating_add}
use msgbus.Core.Name.{Topic}
use msgbus.Core.Node.{NodeId}
use msgbus.Core.Message.{Bytes, TopicHead, TombstoneRange}
use msgbus.Core.Store.{MsgbusStore}
use msgbus.Server.Proto.{FetchRequest}
use msgbus.Server.Convert.{proto_node}
use msgbus.Server.Service.{Service}
use msgbus.Server.Sync.{SyncResult, PeerSpec, status, store, record_peer_sync_success, stream_loop}
use msgbus.Server.Sync.World.{World}

unfoldable pub fetch_request : TopicHead → ℕ → ℕ → FetchRequest
unfolding proto_node saturating_add
fetch_request head local_head batch_limit = record {
  topic = head.topic.text;
  origin = some (proto_node head.origin);
  from_head_id = saturating_add local_head 1;
  limit = max batch_limit 1;
}

module _ (s : MsgbusStore) (parse : Bytes → Outcome Str TombstoneRange) (w : World) where
  -- the service and the outer world between two steps
  abbrev pub Pass : Type 0
  Pass = Service s × w.State

  -- `record_peer_sync_success` with its two reads of the clock
  unfoldable pub note_success :
      Pass → PeerSpec → Option Topic → Option NodeId → ℕ → ℕ → ℕ → SyncResult (Unit {0}) × Pass
  unfolding record_peer_sync_success
  note_success (service, state) peer topic origin local_head remote_head last =
      let (now, state') = w.now state in
      let (now', state'') = w.now state' in
      let (done, st) =
        record_peer_sync_success s parse service.store now now' peer topic origin local_head
          remote_head last in
      (done, (record service { store = st }, state''))

  -- a fetch and its stream: the head that is reached and the number of messages taken
  unfoldable pub fetch_window : Pass → PeerSpec → TopicHead → ℕ → ℕ → SyncResult (ℕ × ℕ) × Pass
  unfolding fetch_request stream_loop
  fetch_window (service, state) peer head batch_limit local_head =
      let (answer, state') = w.fetch state (fetch_request head local_head batch_limit) in
      elim answer [
        | err e ↦ (err (status e), (service, state'))
        | ok stream ↦
            let (taken, service') =
              stream_loop s parse (w.taken_at state') service peer head local_head 0 stream in
            (taken, (service', state'))
      ]

  -- The `while` over the windows, with the head that is reached; `none` is fuel that ran out.
  unfoldable pub head_loop : ℕ → Pass → PeerSpec → TopicHead → ℕ → ℕ → Option (SyncResult ℕ) × Pass
  unfolding note_success fetch_window
  head_loop zero pass peer head batch_limit local_head = (none, pass)
  head_loop (suc fuel) pass peer head batch_limit local_head = elim (ltb local_head head.head_id) [
    | false ↦ (some (ok local_head), pass)
    | true ↦
        let (window, pass') = fetch_window pass peer head batch_limit local_head in
        elim window [
          | err e ↦ (some (err e), pass')
          | ok (reached, fetched) ↦
              let (noted, pass'') =
                note_success pass' peer (some head.topic) (some head.origin) reached head.head_id
                  reached in
              elim noted [
                | err e ↦ (some (err e), pass'')
                | ok unit ↦ elim (fetched == 0 || reached == local_head) [
                  | true ↦ (some (ok reached), pass'')
                  | false ↦ head_loop fuel pass'' peer head batch_limit reached
                ]
              ]
        ]
  ]

  -- the note after the loop
  unfoldable pub finish_head :
      PeerSpec → TopicHead → Option (SyncResult ℕ) × Pass → Option (SyncResult (Unit {0})) × Pass
  unfolding note_success
  finish_head peer head (none, pass) = (none, pass)
  finish_head peer head (some (err e), pass) = (some (err e), pass)
  finish_head peer head (some (ok local_head), pass) = elim (ltb local_head head.head_id) [
    | true ↦ (some (ok tt), pass)
    | false ↦
        let (noted, pass') =
          note_success pass peer (some head.topic) (some head.origin) local_head head.head_id
            local_head in
        (some noted, pass')
  ]

  -- A round of the loop for each head of the peer, and one to see that it is done, are the fuel.
  unfoldable pub sync_head : Pass → PeerSpec → TopicHead → ℕ → Option (SyncResult (Unit {0})) × Pass
  unfolding finish_head head_loop
  sync_head (service, state) peer head batch_limit =
      elim (s.get_head service.store head.topic head.origin) [
        | err e ↦ (some (err (store e)), (service, state))
        | ok found ↦ finish_head peer head (
            head_loop (suc head.head_id) (service, state) peer head batch_limit (unwrap_or found 0))
      ]
