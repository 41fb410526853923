-- ===== src/Redb/Markers.antt =====
-- Tombstones as a set, beside the scan of `apply_tombstone_markers`.
use msgbus.Prelude.{
  ◌≡◌, refl, ◌∙◌, Bool, true, false, [], ◌∷◌, ◌&&◌, ◌||◌, arith, All, Bool-cases, inl, inr, some,
}
use msgbus.Text.{Str, str_lt, starts_with}
use msgbus.Text.Order.{str_lt_asymm}
use msgbus.Text.Prefix.{starts_with_between, starts_with-rest, str_lt-prefix}
use msgbus.Text.SortedMap.{
  SortedMap, IsSorted, Above, range_from, lookup-All, range_from-IsSorted, range_from-All,
  All-range_from,
}
use msgbus.Core.Error.{ok, err}
use msgbus.Core.Word.{HeadId}
use msgbus.Core.Name.{Topic}
use msgbus.Core.Node.{NodeId}
use msgbus.Core.Message.{Bytes, StoredMessage, TombstoneRange}
use msgbus.Redb.Deps.{Deps}
use msgbus.Redb.Keys.{tombstone_prefix}
use msgbus.Redb.Db.{Db}
use msgbus.Redb.Messages.{covers, marker_loop, apply_tombstone_markers}

-- A sorted map whose front has lost the prefix holds no entry with the prefix.
gone :
    {V : Type 0} (p k : Str) (m : SortedMap V)
    → starts_with k p ≡ false
    → str_lt k p ≡ false
    → Above k m
    → All (λ e. starts_with e.0 p ≡ false) m
gone p k [] other floor a = tt
gone p k ((j, v) ∷ m) other floor a = (
  elim (Bool-cases (starts_with j p)) [
    | inl under ↦
        let (r, e) = starts_with-rest j p under in
        let between : starts_with k p ≡ true =
          starts_with_between p r k floor (rw (← e) (str_lt_asymm k j a.0)) in
        cc
    | inr fine ↦ fine
  ],
  gone p k m other floor a.1,
)

below : (k p : Str) → str_lt k p ≡ true → starts_with k p ≡ false
below k p low = elim (Bool-cases (starts_with k p)) [
  | inl under ↦ let (r, e) = starts_with-rest k p under in cc (str_lt-prefix p r)
  | inr fine ↦ fine
]

module _ (d : Deps) where
  -- The value is a tombstone that holds the head.
  unfoldable pub value_covers : Bytes → HeadId → Bool
  unfolding covers
  value_covers b h = elim (d.tombstone_json.decode b) [ ok t ↦ covers t h | err e ↦ false ]

  unfoldable pub marked : Str → HeadId → SortedMap Bytes → Bool
  marked p h [] = false
  marked p h ((k, v) ∷ m) = (starts_with k p && value_covers v h) || marked p h m

  -- Some tombstone of the topic and the origin holds the head.
  unfoldable pub is_marked : Db d → Topic → NodeId → HeadId → Bool
  is_marked db t o h = marked (tombstone_prefix d.base64 t o) h (d.entries db.tombstones)

  abbrev IsReadable : Str × Bytes → Type 0
  IsReadable e = (t : TombstoneRange) × (d.tombstone_json.decode e.1 ≡ ok t)

  marked_gone :
      (p : Str) (h : HeadId) (m : SortedMap Bytes)
      → All (λ e. starts_with e.0 p ≡ false) m
      → marked p h m ≡ false
  unfolding marked
  marked_gone p h [] a = refl
  marked_gone p h ((k, v) ∷ m) a = rw (a.0, marked_gone p h m a.1)

  marker_loop-marked :
      (p : Str) (m : SortedMap Bytes) (message : StoredMessage)
      → IsSorted m
      → All (λ e. str_lt e.0 p ≡ false) m
      → All IsReadable m
      → message.deleted ≡ false
      → marker_loop d p m message ≡ ok (record message { deleted = marked p message.head_id m })
  unfolding marker_loop marked value_covers
  marker_loop-marked p [] message s f r e = rw (← e) refl
  marker_loop-marked p ((k, v) ∷ m) message s f r e =
      let ih = marker_loop-marked p m message s.1 f.1 r.1 e in
      let (t, read) = r.0 in
      elim (Bool-cases (starts_with k p)) [
        | inl under ↦ ground (arith, ih, read)
        | inr other ↦
            rw (other, marked_gone p message.head_id m (gone p k m other f.0 s.0), ← e) refl
      ]

  marked-range_from :
      (p : Str) (h : HeadId) (m : SortedMap Bytes) → marked p h (range_from p m) ≡ marked p h m
  unfolding marked range_from
  marked-range_from p h [] = refl
  marked-range_from p h ((k, v) ∷ m) = elim (Bool-cases (str_lt k p)) [
    | inl low ↦ rw (low, below k p low, marked-range_from p h m)
    | inr high ↦ rw (high, ← marked-range_from p h m)
  ]

  -- If every tombstone in the table can be decoded, the scan of `apply_tombstone_markers` marks
  -- exactly the messages that some tombstone of their topic and origin holds, and changes nothing
  -- else.
  pub apply_tombstone_markers_lem :
      (db : Db d) (m : StoredMessage)
      → ((k : Str) (b : Bytes)
          → d.get db.tombstones k ≡ some b
          → (t : TombstoneRange) × (d.tombstone_json.decode b ≡ ok t))
      → apply_tombstone_markers d db m
        ≡ ok (record m { deleted = m.deleted || is_marked db m.topic m.origin m.head_id })
  unfolding apply_tombstone_markers is_marked
  apply_tombstone_markers_lem db m readable = elim (Bool-cases m.deleted) [
    | inl old ↦ ground arith
    | inr fresh ↦
        let p = tombstone_prefix d.base64 m.topic m.origin in
        let all : SortedMap Bytes = d.entries db.tombstones in
        let sorted = d.entries-IsSorted db.tombstones in
        let read : All IsReadable all =
          lookup-All IsReadable all sorted
            (λ k b e. readable k b (d.get_lem db.tombstones k ∙ e)) in
        let scanned =
          marker_loop-marked p (range_from p all) m (range_from-IsSorted p all sorted)
            (range_from-All p all) (All-range_from IsReadable p all read) fresh in
        ground (arith, scanned, d.range_lem db.tombstones p, marked-range_from p m.head_id all)
  ]
