-- ===== src/Tests/Deletion.antt =====
-- The theorems on deletions, lists of heads and reachable databases at a small database.
use msgbus.Prelude.{
  ℕ, ◌+◌, ◌≤◌, ◌≡◌, ◌≢◌, refl, true, some, none, List, [], ◌∷◌, max, min, length, All, arith,
}
use msgbus.Text.{Str, codes, str_eq}
use msgbus.Text.SortedMap.{lookup, range_from, upsert}
use msgbus.Core.Error.{ok}
use msgbus.Core.Word.{HeadId, u32_max, saturating_add}
use msgbus.Core.Name.{Topic, MessageId}
use msgbus.Core.Node.{NodeId, key}
use msgbus.Core.Message.{Bytes, StoredMessage, TopicHead, PeerSyncState}
use msgbus.Redb.Db.{Db, initialize, transpose_decode}
use msgbus.Redb.Keys.{message_key, head_key, peer_sync_key}
use msgbus.Redb.Messages.{
  apply_tombstone_markers, append_message, current_head_in_txn, tombstone_range,
  tombstone_range_with_marker,
}
use msgbus.Redb.Heads.{list_heads}
use msgbus.Redb.Log.{IsLog, log_write}
use msgbus.Redb.Log.Entries.{read_message}
use msgbus.Redb.Log.Entries.{read_message}
use msgbus.Redb.Log.Append.{appended}
use msgbus.Redb.Log.Tombstone.{tombstone_of}
use msgbus.Redb.Log.Deleted.{tombstone_range_lem}
use msgbus.Redb.Log.Marker.{
  marker_of, tombstone_range_with_marker_lem, append_message-tombstone_range,
}
use msgbus.Redb.Log.Heads.{Has, list_heads_lem}
use msgbus.Redb.Markers.{is_marked}
use msgbus.Redb.PeerSync.Failures.{Holds, record_all, IsFailureOf, record_all-failures}
use msgbus.Redb.Reach.{Reach, here, next, append, delete}
use msgbus.Redb.Reach.Invariant.{IsStore, Reach-IsStore}
use msgbus.Tests.Sample.{sample_deps, events, local}
use msgbus.Tests.Redb.{hello, empty_head, one_message, one_head, one-IsLog}

tombstone_range_lem_example :
    (changed : ℕ) × (db' : Db sample_deps) × (tombstone_range sample_deps 8 one_message events local
        1 5
      ≡ (ok changed, db'))
    × IsLog sample_deps db'
    × ((j : HeadId) (m : StoredMessage)
        → max 1 1 ≤ j
        → j ≤ 5
        → j ≤ current_head_in_txn sample_deps one_message events local
        → read_message sample_deps one_message events local j ≡ ok m
        → read_message sample_deps db' events local j ≡ ok (record m { deleted = true }))
    × ((k : Str)
        → ((i : HeadId) → 1 ≤ i → i ≤ 5 → k ≢ message_key sample_deps.base64 events local i)
        → sample_deps.get db'.messages k ≡ sample_deps.get one_message.messages k)
    × ((j : HeadId) → 1 ≤ j → j ≤ 5 → is_marked sample_deps db' events local j ≡ true)
    × (db'.heads ≡ one_message.heads)
tombstone_range_lem_example =
    tombstone_range_lem sample_deps 8 one_message events local 1 5 one-IsLog (omega arith)
      (omega arith)

abbrev markers : Topic
markers = record { text = codes "$msgbus.delete" }

abbrev marker_id : MessageId
marker_id = record { text = codes "id-5" }

pub no_markers : current_head_in_txn sample_deps one_message markers local ≡ 0
unfolding current_head_in_txn initialize append_message lookup range_from upsert str_eq key
    saturating_add apply_tombstone_markers head_key
no_markers = refl

tombstone_range_with_marker_lem_example :
    (changed : ℕ) × (db₁ : Db sample_deps) × (payload : Bytes) × (b : Bytes) × (tombstone_range
        sample_deps 8 one_message events local 1 5
      ≡ (ok changed, db₁))
    × (sample_deps.tombstone_json.decode payload ≡ ok (tombstone_of 8 events local 1 5))
    × (sample_deps.message_json.encode (
          appended sample_deps 9 db₁ (
            marker_of sample_deps 8 9 marker_id one_message events local 1 5 markers local payload))
        ≡ ok b)
    × (tombstone_range_with_marker sample_deps 8 9 marker_id one_message events local 1 5 markers
          local
        ≡ (
          ok (
            changed,
            appended sample_deps 9 db₁ (
                marker_of sample_deps 8 9 marker_id one_message events local 1 5 markers local
                  payload),
          ),
          log_write sample_deps db₁
              (appended sample_deps 9 db₁ (
                marker_of sample_deps 8 9 marker_id one_message events local 1 5 markers local
                  payload))
              b,
        ))
    × IsLog sample_deps (
        log_write sample_deps db₁
          (appended sample_deps 9 db₁ (
            marker_of sample_deps 8 9 marker_id one_message events local 1 5 markers local payload))
          b)
tombstone_range_with_marker_lem_example =
    tombstone_range_with_marker_lem sample_deps 8 9 marker_id one_message events local 1 5 markers
      local one-IsLog (omega arith) (omega arith) (omega (arith, no_markers))

append_message-tombstone_range_example :
    (x : StoredMessage) × ((append_message sample_deps 9
        (tombstone_range sample_deps 8 one_message events local 1 5).1
        hello).0
      ≡ ok x)
    × (x.deleted ≡ true)
    × (x.head_id ≡ current_head_in_txn sample_deps one_message events local + 1)
    × (x.id ≡ hello.id)
    × (x.payload ≡ hello.payload)
    × (x.headers ≡ hello.headers)
    × (read_message sample_deps
          (append_message sample_deps 9
            (tombstone_range sample_deps 8 one_message events local 1 5).1
            hello).1
          events
          local
          x.head_id
        ≡ ok x)
append_message-tombstone_range_example =
    append_message-tombstone_range sample_deps 8 9 one_message hello 1 5 one-IsLog
      (omega (arith, one_head)) (omega (arith, one_head)) (omega arith)

list_heads_lem_example :
    (hs : List TopicHead) × (list_heads sample_deps one_message ≡ ok hs)
    × All
        (λ x.
          (x.head_id ≡ current_head_in_txn sample_deps one_message x.topic x.origin)
          × (1 ≤ x.head_id))
        hs
    × ((t : Topic) (o : NodeId)
        → 1 ≤ current_head_in_txn sample_deps one_message t o
        → Has sample_deps
            (λ x.
              (x.topic ≡ t)
              × (key x.origin ≡ key o)
              × (x.head_id ≡ current_head_in_txn sample_deps one_message t o))
            hs)
list_heads_lem_example = list_heads_lem sample_deps one_message one-IsLog

pub one-Reach : Reach sample_deps (initialize sample_deps) one_message
one-Reach = next here (append 7 hello (omega (arith, empty_head)))

Reach-IsStore_example :
    IsStore sample_deps (tombstone_range sample_deps 8 one_message events local 1 5).1
Reach-IsStore_example =
    Reach-IsStore sample_deps (next one-Reach (delete 8 events local 1 5 (omega arith)))

abbrev success : PeerSyncState
success = record {
  peer = codes "http://peer:50051";
  topic = some events;
  origin = some local;
  local_head = 1;
  remote_head = 1;
  last_synced_head = 1;
  last_attempt_at_ms = 20;
  last_success_at_ms = 20;
  consecutive_failures = 0;
  last_error = none;
}

abbrev failure : PeerSyncState
failure = record success {
  last_attempt_at_ms = 30;
  last_success_at_ms = 0;
  last_error = some (codes "unavailable");
}

failure-IsFailureOf : IsFailureOf sample_deps success failure
unfolding peer_sync_key
failure-IsFailureOf = record {
  keyed = refl;
  no_success = refl;
  error = codes "unavailable";
  reported = refl;
}

nothing_stored :
    transpose_decode sample_deps.peer_json.decode
      (sample_deps.get one_message.peer_sync (peer_sync_key sample_deps.base64 success))
    ≡ ok none
unfolding transpose_decode append_message initialize lookup apply_tombstone_markers range_from
nothing_stored = refl

record_all-failures_example :
    (stored : PeerSyncState) × Holds sample_deps
      (record_all sample_deps one_message (success ∷ failure ∷ failure ∷ []))
      success
      stored
    × (stored.consecutive_failures ≡ min (length (failure ∷ failure ∷ [])) u32_max)
    × (stored.last_success_at_ms ≡ success.last_success_at_ms)
record_all-failures_example =
    record_all-failures sample_deps one_message success none (failure ∷ failure ∷ []) nothing_stored
      refl (failure-IsFailureOf, (failure-IsFailureOf, tt))
