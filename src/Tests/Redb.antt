-- ===== src/Tests/Redb.antt =====
-- The store's theorems at a small database.
use msgbus.Prelude.{◌+◌, ◌-◌, ◌≡◌, refl, min, max, false, List, [], ◌||◌, arith, length}
use msgbus.Text.{codes, str_eq}
use msgbus.Text.SortedMap.{lookup, range_from, upsert}
use msgbus.Core.Node.{key}
use msgbus.Redb.Keys.{head_key}
use msgbus.Core.Error.{ok}
use msgbus.Core.Word.{saturating_add}
use msgbus.Core.Message.{Bytes, NewMessage, StoredMessage, FetchQuery, inserted, already_present}
use msgbus.Redb.Db.{Db, initialize, effective_limit, transpose_decode}
use msgbus.Redb.Messages.{
  append_message, current_head_in_txn, fetch_messages, apply_tombstone_markers,
}
use msgbus.Redb.Replicate.{put_replicated_message}
use msgbus.Redb.Log.{IsLog, log_write}
use msgbus.Redb.Log.Fresh.{initialize-IsLog}
use msgbus.Redb.Log.Append.{append_message-IsLog, append_message_lem, appended}
use msgbus.Redb.Log.Fetch.{fetch_messages_lem, IsRun}
use msgbus.Redb.Log.Replicate.{put_replicated_message-IsLog, put_replicated_again}
use msgbus.Redb.Markers.{is_marked, apply_tombstone_markers_lem}
use msgbus.Tests.Sample.{sample_deps, events, local}

abbrev pub hello : NewMessage
hello = record {
  id = record { text = codes "id-1" };
  topic = events;
  origin = local;
  payload = codes "hello";
  headers = [];
}

abbrev pub empty_db : Db sample_deps
empty_db = initialize sample_deps

abbrev pub one_message : Db sample_deps
one_message = (append_message sample_deps 7 empty_db hello).1

pub empty_head : current_head_in_txn sample_deps empty_db events local ≡ 0
unfolding current_head_in_txn initialize lookup
empty_head = refl

pub one_head : current_head_in_txn sample_deps one_message events local ≡ 1
unfolding current_head_in_txn initialize append_message lookup apply_tombstone_markers range_from
    upsert str_eq head_key key saturating_add
one_head = refl

pub empty-IsLog : IsLog sample_deps empty_db
empty-IsLog = initialize-IsLog sample_deps

append_message_lem_example :
    (b : Bytes) × (sample_deps.message_json.encode (appended sample_deps 7 empty_db hello) ≡ ok b)
    × (append_message sample_deps 7 empty_db hello ≡ (
      ok (appended sample_deps 7 empty_db hello),
      log_write sample_deps empty_db (appended sample_deps 7 empty_db hello) b,
    ))
append_message_lem_example =
    append_message_lem sample_deps 7 empty_db hello (initialize-IsLog sample_deps)
      (omega (arith, empty_head))

append_message-IsLog_example : IsLog sample_deps (append_message sample_deps 7 empty_db hello).1
append_message-IsLog_example =
    append_message-IsLog sample_deps 7 empty_db hello empty-IsLog (omega (arith, empty_head))

pub one-IsLog : IsLog sample_deps one_message
one-IsLog =
    append_message-IsLog sample_deps 7 empty_db hello empty-IsLog (omega (arith, empty_head))

abbrev from_start : FetchQuery
from_start = record { topic = events; origin = local; from_head_id = 0; limit = 10 }

fetch_messages_lem_example :
    (ms : List StoredMessage) × (fetch_messages sample_deps one_message from_start ≡ ok ms)
    × (length ms
        ≡ min
            (current_head_in_txn sample_deps one_message events local + 1 - max 1 0)
            (effective_limit 10))
    × IsRun sample_deps one_message events local (max 1 0) ms
fetch_messages_lem_example =
    fetch_messages_lem sample_deps one_message from_start one-IsLog (omega arith)

-- The next message of a peer's copy of the log.
abbrev pub from_peer : StoredMessage
from_peer = record {
  id = record { text = codes "id-2" };
  topic = events;
  origin = local;
  head_id = 1;
  payload = codes "again";
  headers = [];
  created_at_ms = 8;
  deleted = false;
}

put_replicated_message-IsLog_example :
    IsLog sample_deps (put_replicated_message sample_deps one_message from_peer).1
put_replicated_message-IsLog_example =
    put_replicated_message-IsLog sample_deps one_message from_peer one-IsLog (omega arith)

abbrev peer_db : Db sample_deps
peer_db = (put_replicated_message sample_deps empty_db from_peer).1

peer_inserted : put_replicated_message sample_deps empty_db from_peer ≡ (ok inserted, peer_db)
unfolding put_replicated_message apply_tombstone_markers range_from initialize transpose_decode
    lookup saturating_add current_head_in_txn
peer_inserted = refl

put_replicated_again_example :
    put_replicated_message sample_deps peer_db from_peer ≡ (ok already_present, peer_db)
put_replicated_again_example =
    put_replicated_again sample_deps empty_db peer_db from_peer empty-IsLog (omega arith)
      peer_inserted

apply_tombstone_markers_lem_example :
    apply_tombstone_markers sample_deps one_message from_peer
    ≡ ok (record from_peer {
      deleted = from_peer.deleted || is_marked sample_deps one_message events local 1;
    })
apply_tombstone_markers_lem_example =
    apply_tombstone_markers_lem sample_deps one_message from_peer one-IsLog.readable
