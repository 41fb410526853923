-- ===== src/Redb/PeerSync.antt =====
-- `record_peer_sync_state` and `list_peer_sync_states`.
pub mod Failures
use msgbus.Prelude.{Option, none, some, List, [], ◌∷◌, ◌++◌, ◌==◌, if◌then◌else◌}
use msgbus.Text.SortedMap.{SortedMap}
use msgbus.Text.{Str}
use msgbus.Core.Error.{Result, ok, ◌>>=◌}
use msgbus.Core.Word.{saturating_add32}
use msgbus.Core.Message.{Bytes, PeerSyncState}
use msgbus.Redb.Deps.{Deps}
use msgbus.Redb.Keys.{peer_sync_key}
use msgbus.Redb.Db.{Db, Txn, commit, transpose_decode}

-- The counter of failures, by the error that is reported and the state that was stored. A failure
-- keeps the time of the last success.
unfoldable pub count_failures : PeerSyncState → Option Str → Option PeerSyncState → PeerSyncState
count_failures state none previous = record state { consecutive_failures = 0 }
count_failures state (some error) none = record state { consecutive_failures = 1 }
count_failures state (some error) (some previous) = record state {
  last_success_at_ms =
      if state.last_success_at_ms == 0
      then previous.last_success_at_ms
      else state.last_success_at_ms;
  consecutive_failures = saturating_add32 previous.consecutive_failures 1;
}

module _ (d : Deps) where
  unfoldable pub record_in_txn : Db d → PeerSyncState → Txn d (Unit {0})
  unfolding count_failures
  record_in_txn db state = do
    let key = peer_sync_key d.base64 state
    previous ← transpose_decode d.peer_json.decode (d.get db.peer_sync key)
    encoded ← d.peer_json.encode (count_failures state state.last_error previous)
    ok (tt, record db { peer_sync = d.insert db.peer_sync key encoded })

  unfoldable pub record_peer_sync_state : Db d → PeerSyncState → Result (Unit {0}) × Db d
  unfolding commit record_in_txn
  record_peer_sync_state db state = commit d db (record_in_txn db state)

  unfoldable pub states_loop : List PeerSyncState → SortedMap Bytes → Result (List PeerSyncState)
  states_loop states [] = ok states
  states_loop states ((key, value) ∷ rest) = do
    state ← d.peer_json.decode value
    states_loop (states ++ state ∷ []) rest

  unfoldable pub list_peer_sync_states : Db d → Result (List PeerSyncState)
  unfolding states_loop
  list_peer_sync_states db = states_loop [] (d.range db.peer_sync [])
