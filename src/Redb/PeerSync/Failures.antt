-- ===== src/Redb/PeerSync/Failures.antt =====
-- The counter of failures of a peer in the store.
use msgbus.Prelude.{
  ◌+◌, ◌≤◌, ◌≡◌, refl, ◌∙◌, subst, Option, none, some, List, [], ◌∷◌, All, length, min, arith,
}
use msgbus.Text.{Str}
use msgbus.Core.Error.{ok}
use msgbus.Core.Word.{u32_max, saturating_add32}
use msgbus.Core.Message.{Bytes, PeerSyncState}
use msgbus.Redb.Deps.{Deps}
use msgbus.Redb.Keys.{peer_sync_key}
use msgbus.Redb.Db.{Db, commit, transpose_decode}
use msgbus.Redb.Tables.{get-insert_self}
use msgbus.Redb.PeerSync.{count_failures, record_in_txn, record_peer_sync_state}

module _ (d : Deps) where
  -- The state that is stored for the peer, topic and origin of a state.
  unfoldable pub Holds : Db d → PeerSyncState → PeerSyncState → Type 0
  Holds db at stored =
      (b : Bytes) × (d.get db.peer_sync (peer_sync_key d.base64 at) ≡ some b)
      × (d.peer_json.decode b ≡ ok stored)

  -- the states of several attempts, recorded in order
  unfoldable pub record_all : Db d → List PeerSyncState → Db d
  record_all db [] = db
  record_all db (state ∷ states) = record_all (record_peer_sync_state d db state).1 states

  recorded :
      (db : Db d) (at state : PeerSyncState) (previous : Option PeerSyncState)
      → peer_sync_key d.base64 state ≡ peer_sync_key d.base64 at
      → transpose_decode d.peer_json.decode (d.get db.peer_sync (peer_sync_key d.base64 at))
        ≡ ok previous
      → Holds
          (record_peer_sync_state d db state).1
          at
          (count_failures state state.last_error previous)
  unfolding Holds record_peer_sync_state record_in_txn commit
  recorded db at state previous same known =
      let (b, written) =
        d.peer_json.encode_total (count_failures state state.last_error previous) in
      (
        b,
        rw (same, known, written, record_in_txn)
            (get-insert_self d.tables db.peer_sync (peer_sync_key d.base64 at) b),
        d.peer_json.decode-encode _ written,
      )

  -- A failure of the same peer, topic and origin, as the synchronisation reports one.
  pub record IsFailureOf (at state : PeerSyncState) : Type 0 where
    pub keyed : peer_sync_key d.base64 state ≡ peer_sync_key d.base64 at
    pub no_success : state.last_success_at_ms ≡ 0
    pub error : Str
    pub reported : state.last_error ≡ some error

  failure_lem :
      (at state previous : PeerSyncState)
      → IsFailureOf at state
      → let next = count_failures state state.last_error (some previous) in
        (next.consecutive_failures ≡ saturating_add32 previous.consecutive_failures 1)
        × (next.last_success_at_ms ≡ previous.last_success_at_ms)
  unfolding count_failures
  failure_lem at state previous f = rw (f.reported, f.no_success) (refl, refl)

  next_failure :
      (db : Db d) (at state previous : PeerSyncState)
      → IsFailureOf at state
      → Holds db at previous
      → (stored : PeerSyncState) × Holds (record_peer_sync_state d db state).1 at stored
        × (stored.consecutive_failures ≡ saturating_add32 previous.consecutive_failures 1)
        × (stored.last_success_at_ms ≡ previous.last_success_at_ms)
  unfolding Holds transpose_decode
  next_failure db at state previous f (b, found, read) =
      let (counted, kept) = failure_lem at state previous f in
      (
        count_failures state state.last_error (some previous),
        recorded db at state (some previous) f.keyed (rw (found, read, transpose_decode) refl),
        counted,
        kept,
      )

  run_of_failures :
      (db : Db d) (at previous : PeerSyncState) (states : List PeerSyncState)
      → All (IsFailureOf at) states
      → previous.consecutive_failures ≤ u32_max
      → Holds db at previous
      → (stored : PeerSyncState) × Holds (record_all db states) at stored
        × (stored.consecutive_failures
            ≡ min (previous.consecutive_failures + length states) u32_max)
        × (stored.last_success_at_ms ≡ previous.last_success_at_ms)
  unfolding record_all saturating_add32
  run_of_failures db at previous [] fs small held = (previous, held, omega arith, refl)
  run_of_failures db at previous (state ∷ states) (f, fs) small held =
      let (stored, held', counted, kept) = next_failure db at state previous f held in
      let (last, held'', total, kept') =
        run_of_failures (record_peer_sync_state d db state).1 at stored states fs (omega arith)
          held' in
      (last, held'', omega arith, kept' ∙ kept)

  -- After a success, and then any number of failures of the same peer, topic and origin, the stored
  -- state counts the failures, up to the maximum of u32, and has the time of that success. What was
  -- stored before, if anything, can be read.
  pub record_all-failures :
      (db : Db d) (success : PeerSyncState) (previous : Option PeerSyncState)
      (failures : List PeerSyncState)
      → transpose_decode d.peer_json.decode (d.get db.peer_sync (peer_sync_key d.base64 success))
        ≡ ok previous
      → success.last_error ≡ none
      → All (IsFailureOf success) failures
      → (stored : PeerSyncState) × Holds (record_all db (success ∷ failures)) success stored
        × (stored.consecutive_failures ≡ min (length failures) u32_max)
        × (stored.last_success_at_ms ≡ success.last_success_at_ms)
  unfolding record_all count_failures
  record_all-failures db success previous failures known fine fs =
      let held = recorded db success success previous refl known in
      let (stored, held', counted, kept) =
        run_of_failures (record_peer_sync_state d db success).1 success
          (record success { consecutive_failures = 0 }) failures fs (omega arith)
          (subst
            (λ e.
              Holds (record_peer_sync_state d db success).1 success
                (count_failures success e previous))
            fine held) in
      (stored, held', omega (arith, counted), kept)
