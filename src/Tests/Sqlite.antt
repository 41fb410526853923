-- ===== src/Tests/Sqlite.antt =====
-- The theorems on the SQLite store at a small database: a table as a list of rows.
use msgbus.Prelude.{
  ◌+◌, ◌≡◌, refl, Bool, true, false, some, List, [], ◌∷◌, map, ltb, if◌then◌else◌, not, arith,
}
use msgbus.Text.{Str, codes, str_eq, str_lt}
use msgbus.Core.Error.{MsgbusError, err, to_string}
use msgbus.Core.Node.{key}
use msgbus.Core.Message.{StoredMessage}
use msgbus.Sqlite.Engine.{Engine, SqlDeps}
use msgbus.Sqlite.Rows.{i64_max, SqlDb, initialize, of_head}
use msgbus.Sqlite.Messages.{append_message, select_head}
use msgbus.Sqlite.Replicate.{put_replicated_message}
use msgbus.Sqlite.Range.{append_message_full, put_replicated_message_full}
use msgbus.Tests.Wire.{json}
use msgbus.Tests.Sample.{node, headers, tombstone, peer_state, events, local}
use msgbus.Tests.Redb.{hello, from_peer}

keep : {R : Type 0} → (R → Bool) → List R → List R
keep p [] = []
keep p (r ∷ rows) = if p r then r ∷ keep p rows else keep p rows

place : {R : Type 0} → (R → R → Bool) → R → List R → List R
place before r [] = r ∷ []
place before r (x ∷ rows) = if before r x then r ∷ x ∷ rows else x ∷ place before r rows

sort : {R : Type 0} → (R → R → Bool) → List R → List R
sort before [] = []
sort before (r ∷ rows) = place before r (sort before rows)

texts_before : List Str → List Str → Bool
texts_before [] ks = true
texts_before (k ∷ js) [] = false
texts_before (j ∷ js) (k ∷ ks) = if str_eq j k then texts_before js ks else str_lt j k

abbrev list_engine : Engine
list_engine = record {
  Table = λ R. List R;
  new_table = [];
  select = keep;
  order_by = λ f. sort (λ a b. ltb (f a) (f b));
  order_by_texts = λ f. sort (λ a b. texts_before (f a) (f b));
  insert = λ r rows. r ∷ rows;
  update = λ p f. map (λ r. if p r then f r else r);
  delete = λ p. keep (λ r. not (p r));
  constraint_text = codes "UNIQUE constraint failed";
  conversion_text = to_string;
}

abbrev sql_deps : SqlDeps
sql_deps = record {
  engine = list_engine;
  node_json = json node;
  headers_json = json headers;
  peer_json = json peer_state;
  range_json = json tombstone;
}

abbrev no_rows : SqlDb sql_deps
no_rows = initialize sql_deps

abbrev full_db : SqlDb sql_deps
full_db = record no_rows {
  heads = record { topic = codes "events"; origin_key = key local; head_id = i64_max } ∷ [];
}

full_head : select_head sql_deps full_db events.text (key local) ≡ some i64_max
unfolding select_head keep of_head str_eq key
full_head = refl

append_message_full_example :
    (e : MsgbusError) × (append_message sql_deps 7 full_db hello ≡ (err e, full_db))
append_message_full_example = append_message_full sql_deps 7 full_db hello full_head

abbrev far : StoredMessage
far = record from_peer { head_id = i64_max + 1 }

put_replicated_message_full_example :
    (e : MsgbusError) × (put_replicated_message sql_deps no_rows far ≡ (err e, no_rows))
put_replicated_message_full_example = put_replicated_message_full sql_deps no_rows far (omega arith)
