-- ===== src/Tests/Sample.antt =====
-- A database as a sorted list, an encoding of names that avoids the slash, and a serialisation of
-- each record: values at which the theorems' assumptions hold.
use msgbus.Prelude.{◌+◌, ◌≡◌, refl, false, [], ◌∷◌, arith, List}
use msgbus.Text.{Str, codes, contains}
use msgbus.Text.SortedMap.{
  SortedMap, IsSorted, lookup, upsert, delete, range_from, upsert-IsSorted, delete-IsSorted,
}
use msgbus.Core.Name.{Topic, QueueName, MessageId}
use msgbus.Core.Node.{NodeId, slash}
use msgbus.Core.Message.{StoredMessage, StoredFifoMessage, TombstoneRange, PeerSyncState}
use msgbus.Redb.Deps.{Tables, Base64, Deps}
use msgbus.Tests.Wire.{Wire, number, image, pair, many, optional, json, flag}

pub record SortedTable (V : Type 0) : Type 0 where
  pub entries : SortedMap V
  pub sorted : IsSorted entries

abbrev pub list_tables : Tables
list_tables = record {
  Table = SortedTable;
  new_table = record { entries = []; sorted = tt };
  get = λ t k. lookup k t.entries;
  insert = λ t k v. record {
    entries = upsert k v t.entries;
    sorted = upsert-IsSorted k v t.entries t.sorted;
  };
  remove =
      λ t k. record { entries = delete k t.entries; sorted = delete-IsSorted k t.entries t.sorted };
  range = λ t k. range_from k t.entries;
  entries = λ t. t.entries;
  entries-IsSorted = λ t. t.sorted;
  entries-new_table = refl;
  get_lem = λ t k. refl;
  range_lem = λ t k. refl;
  entries-insert = λ t k v. refl;
  entries-remove = λ t k. refl;
}

-- Every character is moved past the slash.
abbrev pub shift : Str → Str
shift [] = []
shift (c ∷ s) = (c + 48) ∷ shift s

pub shift_injective : (a b : Str) → shift a ≡ shift b → a ≡ b
shift_injective [] [] e = refl
shift_injective [] (y ∷ b) e = cc
shift_injective (x ∷ a) [] e = cc
shift_injective (x ∷ a) (y ∷ b) e = ground (arith, shift_injective a b)

pub shift-slash : (a : Str) → contains (shift a) slash ≡ false
unfolding contains
shift-slash [] = refl
shift-slash (x ∷ a) = ground (arith, shift-slash a)

abbrev pub shift_encoding : Base64
shift_encoding = record { enc = shift; enc_injective = shift_injective; enc-slash = shift-slash }

abbrev pub text : Wire Str
text = many number

abbrev pub topic : Wire Topic
topic = image (λ s. record { text = s }) (λ t. t.text) (λ t. refl) text

abbrev pub queue : Wire QueueName
queue = image (λ s. record { text = s }) (λ t. t.text) (λ t. refl) text

abbrev pub message_id : Wire MessageId
message_id = image (λ s. record { text = s }) (λ t. t.text) (λ t. refl) text

abbrev pub node : Wire NodeId
node =
    image (λ p. record { tenant_id = p.0; bl_name = p.1.0; device_id = p.1.1 })
      (λ n. (n.tenant_id, (n.bl_name, n.device_id))) (λ n. refl) (pair text (pair text text))

abbrev pub headers : Wire (List (Str × Str))
headers = many (pair text text)

abbrev pub message : Wire StoredMessage
message =
    image
      (λ p. record {
        id = p.0.0;
        topic = p.0.1.0;
        origin = p.0.1.1.0;
        head_id = p.0.1.1.1;
        payload = p.1.0;
        headers = p.1.1.0;
        created_at_ms = p.1.1.1.0;
        deleted = p.1.1.1.1;
      })
      (λ m. (
        (m.id, (m.topic, (m.origin, m.head_id))),
        (m.payload, (m.headers, (m.created_at_ms, m.deleted))),
      ))
      (λ m. refl)
      (pair (pair message_id (pair topic (pair node number)))
        (pair text (pair headers (pair number flag))))

abbrev pub fifo_message : Wire StoredFifoMessage
fifo_message =
    image
      (λ p. record {
        id = p.0.0;
        queue = p.0.1.0;
        topic = p.0.1.1.0;
        source = p.0.1.1.1.0;
        target = p.0.1.1.1.1;
        payload = p.1.0;
        headers = p.1.1.0;
        created_at_ms = p.1.1.1.0;
        sequence = p.1.1.1.1.0;
        attempts = p.1.1.1.1.1;
      })
      (λ m. (
        (m.id, (m.queue, (m.topic, (m.source, m.target)))),
        (m.payload, (m.headers, (m.created_at_ms, (m.sequence, m.attempts)))),
      ))
      (λ m. refl)
      (pair (pair message_id (pair queue (pair topic (pair node node))))
        (pair text (pair headers (pair number (pair number number)))))

abbrev pub tombstone : Wire TombstoneRange
tombstone =
    image
      (λ p. record {
        topic = p.0.0;
        origin = p.0.1;
        from_head_id = p.1.0;
        to_head_id = p.1.1.0;
        created_at_ms = p.1.1.1;
      })
      (λ t. ((t.topic, t.origin), (t.from_head_id, (t.to_head_id, t.created_at_ms)))) (λ t. refl)
      (pair (pair topic node) (pair number (pair number number)))

abbrev pub peer_state : Wire PeerSyncState
peer_state =
    image
      (λ p. record {
        peer = p.0.0;
        topic = p.0.1.0;
        origin = p.0.1.1.0;
        local_head = p.0.1.1.1.0;
        remote_head = p.0.1.1.1.1;
        last_synced_head = p.1.0;
        last_attempt_at_ms = p.1.1.0;
        last_success_at_ms = p.1.1.1.0;
        consecutive_failures = p.1.1.1.1.0;
        last_error = p.1.1.1.1.1;
      })
      (λ s. (
        (s.peer, (s.topic, (s.origin, (s.local_head, s.remote_head)))),
        (
          s.last_synced_head,
          (s.last_attempt_at_ms, (s.last_success_at_ms, (s.consecutive_failures, s.last_error))),
        ),
      ))
      (λ s. refl)
      (pair (pair text (pair (optional topic) (pair (optional node) (pair number number))))
        (pair number (pair number (pair number (pair number (optional text))))))

abbrev pub sample_deps : Deps
sample_deps = record {
  tables = list_tables;
  base64 = shift_encoding;
  message_json = json message;
  fifo_json = json fifo_message;
  tombstone_json = json tombstone;
  peer_json = json peer_state;
}

abbrev pub events : Topic
events = record { text = codes "events" }

abbrev pub local : NodeId
local = record { tenant_id = codes "tenant"; bl_name = codes "bl"; device_id = codes "local" }
