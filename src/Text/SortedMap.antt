-- ===== src/Text/SortedMap.antt =====
-- Sorted association lists with text keys: `BTreeMap<String, _>`, and the contents of a table of
-- the database crate.
use msgbus.Prelude.{
  ◌≡◌, refl, true, false, Option, none, some, List, [], ◌∷◌, arith, if◌then◌else◌, All, Bool-cases,
  inl, inr,
}
use msgbus.Text.{Str, str_eq, str_lt}
use msgbus.Text.Order.{str_eq_sound, str_eq_refl, str_lt_trans, str_lt_total, str_lt_irrefl}

abbrev pub SortedMap : Type 0 → Type 0
SortedMap V = List (Str × V)

module _ {V : Type 0} where
  unfoldable pub lookup : Str → SortedMap V → Option V
  lookup k [] = none
  lookup k ((j, v) ∷ m) = if str_eq j k then some v else lookup k m

  unfoldable pub upsert : Str → V → SortedMap V → SortedMap V
  upsert k v [] = (k, v) ∷ []
  upsert k v ((j, w) ∷ m) =
      if str_eq j k
      then (k, v) ∷ m
      else if str_lt k j
      then (k, v) ∷ (j, w) ∷ m
      else (j, w) ∷ upsert k v m

  unfoldable pub delete : Str → SortedMap V → SortedMap V
  delete k [] = []
  delete k ((j, w) ∷ m) = let rest = delete k m in if str_eq j k then rest else (j, w) ∷ rest

  -- the entries whose key is not below `k`
  unfoldable pub range_from : Str → SortedMap V → SortedMap V
  range_from k [] = []
  range_from k ((j, w) ∷ m) =
      let rest = range_from k m in if str_lt j k then rest else (j, w) ∷ rest

  -- every key is above `k`
  abbrev pub Above : Str → SortedMap V → Type 0
  Above k m = All (λ e. str_lt k e.0 ≡ true) m

  abbrev pub IsSorted : SortedMap V → Type 0
  IsSorted [] = Unit
  IsSorted ((k, v) ∷ m) = Above k m × IsSorted m

  pub lookup-upsert :
      (k j : Str) (v : V) (m : SortedMap V)
      → lookup j (upsert k v m) ≡ (if str_eq k j then some v else lookup j m)
  unfolding lookup upsert
  lookup-upsert k j v [] = refl
  lookup-upsert k j v ((i, w) ∷ m) = ground (
    arith,
    lookup-upsert k j v m,
    str_eq_sound k j,
    str_eq_sound i j,
    str_eq_sound i k,
    str_eq_refl j,
    str_eq_refl i,
    str_eq_refl k,
  )

  pub lookup-delete :
      (k j : Str) (m : SortedMap V)
      → lookup j (delete k m) ≡ (if str_eq k j then none else lookup j m)
  unfolding lookup delete
  lookup-delete k j [] = ground arith
  lookup-delete k j ((i, w) ∷ m) = ground (
    arith,
    lookup-delete k j m,
    str_eq_sound k j,
    str_eq_sound i j,
    str_eq_sound i k,
    str_eq_refl j,
    str_eq_refl i,
    str_eq_refl k,
  )

  pub lookup-range_from :
      (k j : Str) (m : SortedMap V)
      → lookup j (range_from k m) ≡ (if str_lt j k then none else lookup j m)
  unfolding lookup range_from
  lookup-range_from k j [] = ground arith
  lookup-range_from k j ((i, w) ∷ m) = ground (arith, lookup-range_from k j m, str_eq_sound i j)

  pub Above-trans : (i k : Str) (m : SortedMap V) → str_lt i k ≡ true → Above k m → Above i m
  Above-trans i k [] h a = tt
  Above-trans i k ((j, v) ∷ m) h a = (str_lt_trans i k j h a.0, Above-trans i k m h a.1)

  Above-upsert :
      (i k : Str) (v : V) (m : SortedMap V) → str_lt i k ≡ true → Above i m → Above i (upsert k v m)
  unfolding upsert
  Above-upsert i k v [] h a = (h, tt)
  Above-upsert i k v ((j, w) ∷ m) h a = ground (arith, Above-upsert i k v m)

  pub upsert-IsSorted : (k : Str) (v : V) (m : SortedMap V) → IsSorted m → IsSorted (upsert k v m)
  unfolding upsert
  upsert-IsSorted k v [] s = (tt, tt)
  upsert-IsSorted k v ((j, w) ∷ m) s = elim (Bool-cases (str_eq j k)) [
    | inl same ↦ rw same (rw (str_eq_sound j k same) at s)
    | inr differ ↦ elim (Bool-cases (str_lt k j)) [
      | inl below ↦ rw (differ, below) ((below, Above-trans k j m below s.0), s)
      | inr above ↦
          let order : str_lt j k ≡ true = elim (Bool-cases (str_lt j k)) [
            | inl h ↦ h
            | inr h ↦ cc (str_lt_total j k h above, str_eq_refl j)
          ] in
          rw (differ, above) (Above-upsert j k v m order s.0, upsert-IsSorted k v m s.1)
    ]
  ]

  Above-delete : (i k : Str) (m : SortedMap V) → Above i m → Above i (delete k m)
  unfolding delete
  Above-delete i k [] a = tt
  Above-delete i k ((j, w) ∷ m) a = ground (arith, Above-delete i k m)

  pub delete-IsSorted : (k : Str) (m : SortedMap V) → IsSorted m → IsSorted (delete k m)
  unfolding delete
  delete-IsSorted k [] s = tt
  delete-IsSorted k ((j, w) ∷ m) s = ground (arith, delete-IsSorted k m, Above-delete j k m)

  Above-range_from : (i k : Str) (m : SortedMap V) → Above i m → Above i (range_from k m)
  unfolding range_from
  Above-range_from i k [] a = tt
  Above-range_from i k ((j, w) ∷ m) a = ground (arith, Above-range_from i k m)

  pub range_from-IsSorted : (k : Str) (m : SortedMap V) → IsSorted m → IsSorted (range_from k m)
  unfolding range_from
  range_from-IsSorted k [] s = tt
  range_from-IsSorted k ((j, w) ∷ m) s =
      ground (arith, range_from-IsSorted k m, Above-range_from j k m)

  pub lookup-Above : (k : Str) (m : SortedMap V) → Above k m → lookup k m ≡ none
  unfolding lookup
  lookup-Above k [] a = refl
  lookup-Above k ((j, v) ∷ m) a =
      ground (arith, lookup-Above k m, str_eq_sound j k, str_lt_irrefl k)

  -- a key that is found is above a bound of all keys
  pub lookup-gt :
      (k j : Str) (m : SortedMap V) {v : V} → Above k m → lookup j m ≡ some v → str_lt k j ≡ true
  unfolding lookup
  lookup-gt k j [] a h = cc
  lookup-gt k j ((i, w) ∷ m) {v} a h = elim (Bool-cases (str_eq i j)) [
    | inl same ↦ rw (str_eq_sound i j same) at a.0
    | inr differ ↦ lookup-gt k j m a.1 (rw differ at h)
  ]

  -- what the rest of a sorted map holds, the map holds
  pub lookup_tail :
      (k j : Str) (w : V) (m : SortedMap V) {v : V}
      → Above k m
      → lookup j m ≡ some v
      → lookup j ((k, w) ∷ m) ≡ some v
  unfolding lookup
  lookup_tail k j w m a h = elim (Bool-cases (str_eq k j)) [
    | inl same ↦ cc (str_lt_irrefl k, str_eq_sound k j same, lookup-gt k j m a h)
    | inr differ ↦ rw differ h
  ]

  -- What holds of every entry that can be looked up holds of every entry.
  pub lookup-All :
      (P : Str × V → Type 0) (m : SortedMap V)
      → IsSorted m
      → ((k : Str) (v : V) → lookup k m ≡ some v → P (k, v))
      → All P m
  unfolding lookup
  lookup-All P [] s h = tt
  lookup-All P ((k, v) ∷ m) s h =
      (h k v (rw (str_eq_refl k)), lookup-All P m s.1 (λ j w e. h j w (lookup_tail k j v m s.0 e)))

  -- No key of a range is below its start.
  pub range_from-All :
      (k : Str) (m : SortedMap V) → All (λ e. str_lt e.0 k ≡ false) (range_from k m)
  unfolding range_from
  range_from-All k [] = tt
  range_from-All k ((j, v) ∷ m) = ground (arith, range_from-All k m)

  pub All-range_from :
      (P : Str × V → Type 0) (k : Str) (m : SortedMap V) → All P m → All P (range_from k m)
  unfolding range_from
  All-range_from P k [] a = tt
  All-range_from P k ((j, v) ∷ m) a = ground (arith, All-range_from P k m)
