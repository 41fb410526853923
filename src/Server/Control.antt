-- ===== src/Server/Control.antt =====
-- `apply_control_message` and `replay_control_messages`. The parser of a payload of a marker,
-- serde_json, is an argument.
use msgbus.Prelude.{
  ℕ, zero, suc, Bool, true, false, Option, none, some, List, [], ◌∷◌, ◌++◌, ◌||◌, not, leb,
  if◌then◌else◌,
}
use msgbus.Text.{Str, codes, str_eq}
use msgbus.Core.Error.{Outcome, Result, ok, err}
use msgbus.Core.Word.{saturating_add}
use msgbus.Core.Node.{node_eq}
use msgbus.Core.Message.{Bytes, StoredMessage, TombstoneRange, TopicHead, FetchQuery}
use msgbus.Core.Store.{MsgbusStore}
use msgbus.Server.Status.{Reply, invalid, denied, status_from_error, or_status}
use msgbus.Server.Service.{delete_topic}

abbrev pub is_nil : {A : Type 0} → List A → Bool
is_nil [] = true
is_nil (x ∷ xs) = false

module _ (s : MsgbusStore) (parse : Bytes → Outcome Str TombstoneRange) where
  -- the call of `tombstone_range`, of which only an error matters
  unfoldable pub discard_count : Result ℕ × s.State → Reply (Unit {0}) × s.State
  unfolding status_from_error
  discard_count (ok count, store) = (ok tt, store)
  discard_count (err e, store) = (err (status_from_error e), store)

  unfoldable pub apply_tombstone :
      ℕ → s.State → StoredMessage → Outcome Str TombstoneRange → Reply (Unit {0}) × s.State
  unfolding discard_count
  apply_tombstone now store m (err e) =
      (err (invalid (codes "invalid tombstone payload: " ++ e)), store)
  apply_tombstone now store m (ok t) =
      if node_eq m.origin t.origin
      then discard_count (s.tombstone_range now store t.topic t.origin t.from_head_id t.to_head_id)
      else (err (denied (codes "delete marker origin must match tombstone origin")), store)

  unfoldable pub apply_control_message : ℕ → s.State → StoredMessage → Reply (Unit {0}) × s.State
  unfolding apply_tombstone
  apply_control_message now store m =
      if not (str_eq m.topic.text delete_topic) || m.deleted
      then (ok tt, store)
      else apply_tombstone now store m (parse m.payload)

  -- The `for` over one window of messages: where the next window starts. `clock` is the time at which
  -- a message is applied.
  unfoldable pub apply_window :
      (StoredMessage → ℕ) → s.State → ℕ → List StoredMessage → Reply ℕ × s.State
  unfolding saturating_add
  apply_window clock store from [] = (ok from, store)
  apply_window clock store from (m ∷ messages) =
      let (done, store') = apply_control_message (clock m) store m in
      elim done [
        | ok unit ↦ apply_window clock store' (saturating_add m.head_id 1) messages
        | err status ↦ (err status, store')
      ]

  -- the query of one window
  abbrev pub window_query : TopicHead → ℕ → FetchQuery
  window_query head from = record {
    topic = head.topic;
    origin = head.origin;
    from_head_id = from;
    limit = 1_000;
  }

  -- The `while` over the windows of one log; `none` is fuel that ran out.
  unfoldable pub replay_head :
      (StoredMessage → ℕ) → ℕ → s.State → TopicHead → ℕ → Option (Reply (Unit {0})) × s.State
  unfolding or_status
  replay_head clock zero store head from = (none, store)
  replay_head clock (suc fuel) store head from = elim (leb from head.head_id) [
    | false ↦ (some (ok tt), store)
    | true ↦ elim (or_status (s.fetch_messages store (window_query head from))) [
      | err status ↦ (some (err status), store)
      | ok messages ↦ elim (is_nil messages) [
        | true ↦ (some (ok tt), store)
        | false ↦
            let (reached, store') = apply_window clock store from messages in
            elim reached [
              | err status ↦ (some (err status), store')
              | ok from' ↦ replay_head clock fuel store' head from'
            ]
      ]
    ]
  ]

  -- The `for` over the heads of the topic of delete markers. A round of the `while` for each head of
  -- the log, and one to see that it is done, are the fuel.
  unfoldable pub replay_heads :
      (StoredMessage → ℕ) → s.State → List TopicHead → Option (Reply (Unit {0})) × s.State
  replay_heads clock store [] = (some (ok tt), store)
  replay_heads clock store (head ∷ heads) = elim (str_eq head.topic.text delete_topic) [
    | false ↦ replay_heads clock store heads
    | true ↦
        let (replayed, store') = replay_head clock (suc head.head_id) store head 1 in
        elim replayed [
          | none ↦ (none, store')
          | some (err status) ↦ (some (err status), store')
          | some (ok unit) ↦ replay_heads clock store' heads
        ]
  ]

  unfoldable pub replay_control_messages :
      (StoredMessage → ℕ) → s.State → Option (Reply (Unit {0})) × s.State
  unfolding or_status
  replay_control_messages clock store = elim (or_status (s.list_heads store)) [
    | err status ↦ (some (err status), store)
    | ok heads ↦ replay_heads clock store heads
  ]
