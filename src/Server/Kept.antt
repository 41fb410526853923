-- ===== src/Server/Kept.antt =====
-- What a marker keeps of a store: the one call of the store is `tombstone_range`.
use msgbus.Prelude.{ℕ, ◌≤◌, ◌≡◌, refl, ◌||◌, not, Bool-cases, inl, inr}
use msgbus.Text.{Str, str_eq}
use msgbus.Core.Error.{Outcome, Result, ok, err}
use msgbus.Core.Word.{HeadId, u64_max}
use msgbus.Core.Name.{Topic}
use msgbus.Core.Node.{NodeId, node_eq}
use msgbus.Core.Message.{Bytes, StoredMessage, TombstoneRange}
use msgbus.Core.Store.{MsgbusStore}
use msgbus.Server.Service.{delete_topic}
use msgbus.Server.Control.{discard_count, apply_tombstone, apply_control_message}

-- A parser of tombstones reads heads that are in the range of u64.
unfoldable pub Reads64 : (Bytes → Outcome Str TombstoneRange) → Type 0
Reads64 parse = (b : Bytes) (t : TombstoneRange) → parse b ≡ ok t → t.from_head_id ≤ u64_max

-- The calls of `tombstone_range` with a first head in the range of u64 keep a property of the state.
abbrev pub DeletesKeep : (s : MsgbusStore) → (s.State → Type 0) → Type 0
DeletesKeep s P =
    (now : ℕ) (st : s.State) (t : Topic) (o : NodeId) (from to : HeadId)
    → from ≤ u64_max
    → P st
    → P (s.tombstone_range now st t o from to).1

module _ (s : MsgbusStore) (parse : Bytes → Outcome Str TombstoneRange) (reads : Reads64 parse)
    (P : s.State → Type 0) (delete : DeletesKeep s P) where
  discard_count-kept : (r : Result ℕ × s.State) → P r.1 → P (discard_count s parse r).1
  unfolding discard_count
  discard_count-kept (ok n, st) p = p
  discard_count-kept (err e, st) p = p

  apply_tombstone-kept :
      (now : ℕ) (st : s.State) (m : StoredMessage) (r : Outcome Str TombstoneRange)
      → ((t : TombstoneRange) → r ≡ ok t → t.from_head_id ≤ u64_max)
      → P st
      → P (apply_tombstone s parse now st m r).1
  unfolding apply_tombstone
  apply_tombstone-kept now st m (err e) fits p = p
  apply_tombstone-kept now st m (ok t) fits p = elim (Bool-cases (node_eq m.origin t.origin)) [
    | inl own ↦ rw own (
        discard_count-kept (s.tombstone_range now st t.topic t.origin t.from_head_id t.to_head_id)
          (delete now st t.topic t.origin t.from_head_id t.to_head_id (fits t refl) p))
    | inr other ↦ rw other p
  ]

  pub apply_control_message-kept :
      (now : ℕ) (st : s.State) (m : StoredMessage)
      → P st
      → P (apply_control_message s parse now st m).1
  unfolding apply_control_message Reads64
  apply_control_message-kept now st m p =
      elim (Bool-cases (not (str_eq m.topic.text delete_topic) || m.deleted)) [
        | inl skipped ↦ rw skipped p
        | inr marker ↦
            rw marker (apply_tombstone-kept now st m (parse m.payload) (reads m.payload) p)
      ]
