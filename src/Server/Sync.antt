-- ===== src/Server/Sync.antt =====
-- crates/msgbus-server/src/sync.rs: the specification of a peer, the check of its identity, the
-- states that are recorded, and one window of messages of one log. The calls of the client are code
-- of other crates: what they bring is an argument.
pub mod World
pub mod Connect
pub mod Head
pub mod Pass
pub mod Task
pub mod Safe
pub mod SafeHead
pub mod SafePass
pub mod Reach
pub mod Parsed
pub mod Verified
pub mod Stopped
use msgbus.Prelude.{
  ℕ, Bool, true, Option, none, some, List, [], ◌∷◌, ◌++◌, max, ◌&&◌, ◌==◌, if◌then◌else◌,
}
use msgbus.Text.{Str, codes, is_empty, trim}
use msgbus.Core.Error.{MsgbusError, Outcome, Result, ok, err, invalid_argument, ◌>>=◌}
use msgbus.Core.Word.{saturating_add32}
use msgbus.Core.Name.{Topic, topic_eq}
use msgbus.Core.Node.{NodeId, key, from_key, node_eq}
use msgbus.Core.Message.{
  Bytes, StoredMessage, TopicHead, PeerSyncState, TombstoneRange, ReplicateResult, inserted,
  already_present,
}
use msgbus.Core.Store.{MsgbusStore}
use msgbus.Server.Status.{Status, Reply, map_transpose}
use msgbus.Server.Proto.{PbNodeId, MessageEnvelope}
use msgbus.Server.Convert.{core_node, core_message}
use msgbus.Server.Service.{Service, send}
use msgbus.Server.Control.{apply_control_message}

-- what a `Box<dyn Error>` of this file holds
pub data SyncError : Type 0 where
  text : Str → SyncError
  status : Status → SyncError
  store : MsgbusError → SyncError

abbrev pub SyncResult : Type 0 → Type 0
SyncResult = Outcome SyncError

unfoldable pub status_box : {A : Type 0} → Reply A → SyncResult A
status_box (ok a) = ok a
status_box (err e) = err (status e)

unfoldable pub store_box : {A : Type 0} → Result A → SyncResult A
store_box (ok a) = ok a
store_box (err e) = err (store e)

pub record PeerSpec : Type 0 where
  pub endpoint : Str
  pub expected_node : Option NodeId

-- `str::rsplit_once`: the texts around the last occurrence
unfoldable pub rsplit_once : ℕ → Str → Option (Str × Str)
rsplit_once c [] = none
rsplit_once c (x ∷ s) = elim (rsplit_once c s) [
  | some (before, after) ↦ some (x ∷ before, after)
  | none ↦ if x == c then some ([], s) else none
]

-- the `if let` on the split
unfoldable pub parse_parts : Str → Option (Str × Str) → Result PeerSpec
parse_parts value none = ok (record { endpoint = value; expected_node = none })
parse_parts value (some (endpoint, node_key)) =
    if is_empty (trim endpoint)
    then err (invalid_argument (codes "peer endpoint is empty"))
    else do node ← from_key node_key; ok (record { endpoint = endpoint; expected_node = some node })

-- `PeerSpec::parse`
unfoldable pub peer_spec_parse : Str → Result PeerSpec
unfolding rsplit_once parse_parts
peer_spec_parse value =
    if is_empty (trim value)
    then err (invalid_argument (codes "peer is empty"))
    else parse_parts value (rsplit_once b'=' value)

unfoldable pub is_expected : Option NodeId → NodeId → Bool
is_expected none remote = true
is_expected (some expected) remote = node_eq remote expected

unfoldable pub expected_key : Option NodeId → Str
expected_key none = []
expected_key (some expected) = key expected

-- `verify_peer_identity`, given the node of the health response
unfoldable pub check_identity : NodeId → PeerSpec → NodeId → SyncResult (Unit {0})
unfolding is_expected expected_key
check_identity local peer remote =
    if node_eq remote local
    then err (text (codes "peer " ++ (peer.endpoint ++ codes " reports the local node identity")))
    else if is_expected peer.expected_node remote
    then ok tt
    else err (
        text (
          codes "peer "
          ++ (peer.endpoint
              ++ (codes " identity mismatch: expected "
                  ++ (expected_key peer.expected_node ++ (codes ", got " ++ key remote))))))

unfoldable pub some_node : PeerSpec → Option NodeId → SyncResult NodeId
some_node peer none =
    err (text (codes "peer " ++ (peer.endpoint ++ codes " health response has no node")))
some_node peer (some node) = ok node

unfoldable pub verify_peer_identity : NodeId → PeerSpec → Option PbNodeId → SyncResult (Unit {0})
verify_peer_identity local peer response = do
  node ← status_box (map_transpose core_node response)
  remote ← some_node peer node
  check_identity local peer remote

-- `now` and `now'` are the two reads of the clock.
unfoldable pub success_state :
    ℕ → ℕ → PeerSpec → Option Topic → Option NodeId → ℕ → ℕ → ℕ → PeerSyncState
success_state now now' peer topic origin local_head remote_head last_synced_head = record {
  peer = peer.endpoint;
  topic = topic;
  origin = origin;
  local_head = local_head;
  remote_head = remote_head;
  last_synced_head = last_synced_head;
  last_attempt_at_ms = now;
  last_success_at_ms = now';
  consecutive_failures = 0;
  last_error = none;
}

unfoldable pub failure_state :
    ℕ → PeerSpec → Option Topic → Option NodeId → ℕ → ℕ → Str → PeerSyncState
failure_state now peer topic origin local_head remote_head error = record {
  peer = peer.endpoint;
  topic = topic;
  origin = origin;
  local_head = local_head;
  remote_head = remote_head;
  last_synced_head = local_head;
  last_attempt_at_ms = now;
  last_success_at_ms = 0;
  consecutive_failures = 0;
  last_error = some error;
}

module _ (s : MsgbusStore) (parse : Bytes → Outcome Str TombstoneRange) where
  unfoldable pub record_peer_sync_success :
      s.State
      → ℕ
      → ℕ
      → PeerSpec
      → Option Topic
      → Option NodeId
      → ℕ
      → ℕ
      → ℕ
      → SyncResult (Unit {0}) × s.State
  unfolding success_state store_box
  record_peer_sync_success st now now' peer topic origin local_head remote_head last =
      let (result, st') =
        s.record_peer_sync_state st
          (success_state now now' peer topic origin local_head remote_head last) in
      (store_box result, st')

  unfoldable pub record_peer_sync_failure :
      s.State
      → ℕ
      → PeerSpec
      → Option Topic
      → Option NodeId
      → ℕ
      → ℕ
      → Str
      → SyncResult (Unit {0}) × s.State
  unfolding failure_state store_box
  record_peer_sync_failure st now peer topic origin local_head remote_head error =
      let (result, st') =
        s.record_peer_sync_state st
          (failure_state now peer topic origin local_head remote_head error) in
      (store_box result, st')

  -- the control message after a replication; only an inserted message is sent on the channel
  unfoldable pub apply_replicated :
      ℕ
      → Service s
      → StoredMessage
      → Result ReplicateResult × s.State
      → SyncResult (Unit {0}) × Service s
  unfolding status_box
  apply_replicated now service m (err e, st) = (err (store e), record service { store = st })
  apply_replicated now service m (ok inserted, st) =
      let (applied, st') = apply_control_message s parse now st m in
      let service' : Service s = record service { store = st' } in
      elim applied [ ok unit ↦ (ok tt, send s service' m) | err e ↦ (err (status e), service') ]
  apply_replicated now service m (ok already_present, st) =
      let (applied, st') = apply_control_message s parse now st m in
      (status_box applied, record service { store = st' })

  unfoldable pub mismatch_text : PeerSpec → TopicHead → Str
  mismatch_text peer head =
      codes "peer "
      ++ (peer.endpoint
          ++ (codes " returned mismatched message for topic="
              ++ (head.topic.text ++ (codes " origin=" ++ key head.origin))))

  -- the body of the `while let` over the stream, after the message has been read
  unfoldable pub take_message :
      ℕ → Service s → PeerSpec → TopicHead → StoredMessage → SyncResult (Unit {0}) × Service s
  unfolding apply_replicated mismatch_text
  take_message now service peer head m =
      if topic_eq m.topic head.topic && node_eq m.origin head.origin
      then apply_replicated now service m (s.put_replicated_message service.store m)
      else (err (text (mismatch_text peer head)), service)

  -- The `while let` over the stream of one fetch: the head that is reached and the number of messages
  -- taken. `clock` is the time at which a message is taken; a response without a message is skipped.
  unfoldable pub stream_loop :
      (StoredMessage → ℕ)
      → Service s
      → PeerSpec
      → TopicHead
      → ℕ
      → ℕ
      → List (Reply (Option MessageEnvelope))
      → SyncResult (ℕ × ℕ) × Service s
  unfolding take_message status_box core_message
  stream_loop clock service peer head local_head fetched [] = (ok (local_head, fetched), service)
  stream_loop clock service peer head local_head fetched (err e ∷ rest) = (err (status e), service)
  stream_loop clock service peer head local_head fetched (ok none ∷ rest) =
      stream_loop clock service peer head local_head fetched rest
  stream_loop clock service peer head local_head fetched (ok (some envelope) ∷ rest) =
      elim (core_message envelope) [
        | err e ↦ (err (status e), service)
        | ok m ↦
            let (done, service') = take_message (clock m) service peer head m in
            elim done [
              | err e ↦ (err e, service')
              | ok unit ↦
                  stream_loop clock service' peer head (max local_head m.head_id)
                    (saturating_add32 fetched 1) rest
            ]
      ]
