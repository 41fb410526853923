-- ===== src/Sqlite/PeerSync.antt =====
-- `record_peer_sync_state` and `list_peer_sync_states`. The counter of failures is that of the redb
-- store, `count_failures`.
use msgbus.Prelude.{Bool, true, Option, none, some, List, [], ◌∷◌, ◌&&◌, head?}
use msgbus.Text.{Str, str_eq}
use msgbus.Core.Error.{Result, ok, ◌>>=◌}
use msgbus.Core.Name.{Topic}
use msgbus.Core.Node.{NodeId, key}
use msgbus.Core.Message.{PeerSyncState}
use msgbus.Redb.PeerSync.{count_failures}
use msgbus.Sqlite.Engine.{SqlDeps}
use msgbus.Sqlite.Rows.{PeerSyncRow, SqlDb, SqlTxn, commit, column}
use msgbus.Sqlite.Messages.{collect_rows}

unfoldable pub topic_text : Option Topic → Str
topic_text none = []
topic_text (some topic) = topic.text

unfoldable pub origin_text : Option NodeId → Str
origin_text none = []
origin_text (some origin) = key origin

unfoldable pub peer_sync_keys : PeerSyncState → Str × Str
unfolding topic_text origin_text
peer_sync_keys state = (topic_text state.topic, origin_text state.origin)

unfoldable pub of_peer : PeerSyncState → PeerSyncRow → Bool
unfolding peer_sync_keys
of_peer state row =
    str_eq row.peer state.peer
    && str_eq row.topic (peer_sync_keys state).0
    && str_eq row.origin_key (peer_sync_keys state).1

module _ (d : SqlDeps) where
  -- the stored state, if there is one, decoded
  unfoldable pub previous_state : Option PeerSyncRow → Result (Option PeerSyncState)
  previous_state none = ok none
  previous_state (some row) = do state ← d.peer_json.decode row.state_json; ok (some state)

  -- `INSERT … ON CONFLICT … DO UPDATE`
  unfoldable pub upsert_state : SqlDb d → PeerSyncState → PeerSyncRow → Option PeerSyncRow → SqlDb d
  unfolding of_peer
  upsert_state db state row none = record db { peer_sync_states = d.insert row db.peer_sync_states }
  upsert_state db state row (some stored) = record db {
    peer_sync_states =
        d.update (of_peer state) (λ r. record r { state_json = row.state_json })
          db.peer_sync_states;
  }

  unfoldable pub record_in_tx : SqlDb d → PeerSyncState → SqlTxn d (Unit {0})
  unfolding of_peer previous_state upsert_state count_failures peer_sync_keys
  record_in_tx db state = do
    let stored = head? (d.select (of_peer state) db.peer_sync_states)
    previous ← previous_state stored
    state_json ← d.peer_json.encode (count_failures state state.last_error previous)
    let row : PeerSyncRow = record {
      peer = state.peer;
      topic = (peer_sync_keys state).0;
      origin_key = (peer_sync_keys state).1;
      state_json = state_json;
    }
    ok (tt, upsert_state db state row stored)

  unfoldable pub record_peer_sync_state : SqlDb d → PeerSyncState → Result (Unit {0}) × SqlDb d
  unfolding commit record_in_tx
  record_peer_sync_state db state = commit d db (record_in_tx db state)

  unfoldable pub list_peer_sync_states : SqlDb d → Result (List PeerSyncState)
  unfolding collect_rows column
  list_peer_sync_states db =
      collect_rows d (λ (row : PeerSyncRow). column d (d.peer_json.decode row.state_json))
        (d.order_by_texts (λ (row : PeerSyncRow). row.peer ∷ row.topic ∷ row.origin_key ∷ [])
          (d.select (λ row. true) db.peer_sync_states))
