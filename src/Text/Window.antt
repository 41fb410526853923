-- ===== src/Text/Window.antt =====
-- The entries of a sorted map under one prefix, when their keys are the prefix with a zero-padded
-- number behind it and the numbers are an interval.
use native.Mathlib.Decide.{dec_lt}
use msgbus.Prelude.{
  ℕ, zero, suc, ◌+◌, ◌^◌, ◌≤◌, ◌<◌, ◌≡◌, refl, sym, ◌∙◌, ap, subst, true, false, some, [], ◌∷◌,
  ◌++◌, arith, if◌then◌else◌, Bool-cases, inl, inr, ltb, lt→ltb,
}
use msgbus.Text.{Str, str_eq, str_lt, starts_with, zero_padded}
use msgbus.Text.Order.{
  str_eq_sound, str_eq_refl, str_lt-append_left, str_lt_irrefl, str_lt_asymm, str_le_trans,
}
use msgbus.Text.Prefix.{starts_with-append, starts_with_between, append_cancel_left}
use msgbus.Text.Decimal.{str_lt-zero_padded, zero_padded_injective}
use msgbus.Text.SortedMap.{
  SortedMap, IsSorted, lookup, range_from, lookup-gt, lookup_tail, lookup-range_from,
  range_from-IsSorted,
}

-- `format!("{prefix}{:020}", i)`
unfoldable pub slot : Str → ℕ → Str
unfolding zero_padded
slot p i = p ++ zero_padded 20 i

pub str_lt-slot : (p : Str) (i j : ℕ) → i < j → j < 10 ^ 20 → str_lt (slot p i) (slot p j) ≡ true
unfolding slot
str_lt-slot p i j h b = rw (str_lt-append_left p (zero_padded 20 i)) (str_lt-zero_padded 20 i j h b)

pub slot_injective : (p : Str) (i j : ℕ) → i < 10 ^ 20 → j < 10 ^ 20 → slot p i ≡ slot p j → i ≡ j
unfolding slot
slot_injective p i j hi hj e =
    zero_padded_injective 20 i j hi hj
      (append_cancel_left p (zero_padded 20 i) (zero_padded 20 j) e)

apart :
    (p : Str) (k : Str) (i j : ℕ) → k ≡ slot p i → i < j → j < 10 ^ 20 → str_eq k (slot p j) ≡ false
apart p k i j e h b = elim (Bool-cases (str_eq k (slot p j))) [
  | inl same ↦
      absurd
        (cc (str_lt-slot p i j h b, str_lt_irrefl (slot p i), str_eq_sound k (slot p j) same, e))
  | inr differ ↦ differ
]

lt→ltb_false : (i j : ℕ) → i ≤ j → ltb j i ≡ false
lt→ltb_false i j h = ground arith

-- The order of the keys is the order of the numbers.
pub str_lt-slot-ltb :
    (p : Str) (i j : ℕ) → i < 10 ^ 20 → j < 10 ^ 20 → str_lt (slot p i) (slot p j) ≡ ltb i j
str_lt-slot-ltb p i j hi hj = elim (dec_lt i j) [
  | yes lower ↦ str_lt-slot p i j lower hj ∙ sym (lt→ltb i j lower)
  | no not_lower ↦ elim (dec_lt j i) [
    | yes higher ↦
        str_lt_asymm (slot p j) (slot p i) (str_lt-slot p j i higher hi)
        ∙ sym (lt→ltb_false j i (omega arith))
    | no not_higher ↦
        let same : i ≡ j = omega arith in
        rw same (str_lt_irrefl (slot p j) ∙ sym (lt→ltb_false j j (omega arith)))
  ]
]

pub slot-starts_with : (p : Str) (i : ℕ) → starts_with (slot p i) p ≡ true
unfolding slot
slot-starts_with p i = starts_with-append p (zero_padded 20 i)

ltb_false→le : (i j : ℕ) → ltb j i ≡ false → i ≤ j
ltb_false→le i j h = ground arith

module _ {V : Type 0} where
  -- the entries at the front whose keys have the prefix
  unfoldable pub prefix_run : Str → SortedMap V → SortedMap V
  prefix_run p [] = []
  prefix_run p ((k, v) ∷ m) =
      let rest = prefix_run p m in if starts_with k p then (k, v) ∷ rest else []

  -- `n` entries, numbered from `i`
  unfoldable pub listing : (ℕ → V) → Str → ℕ → ℕ → SortedMap V
  listing val p i zero = []
  listing val p i (suc n) = (slot p i, val i) ∷ listing val p (suc i) n

  -- Under the prefix the map holds the entries `lo ≤ j < end`, and nothing else.
  pub record IsInterval (val : ℕ → V) (p : Str) (lo end : ℕ) (m : SortedMap V) : Type 0 where
    pub sorted : IsSorted m
    pub bound : end ≤ 10 ^ 20
    pub found : (j : ℕ) → lo ≤ j → j < end → lookup (slot p j) m ≡ some (val j)
    pub only :
        (k : Str) (v : V)
        → lookup k m ≡ some v
        → starts_with k p ≡ true
        → (j : ℕ) × (lo ≤ j) × (j < end) × (k ≡ slot p j)

  -- No key of the map is below the prefix.
  abbrev HasFloor : Str → SortedMap V → Type 0
  HasFloor p m = (k : Str) (v : V) → lookup k m ≡ some v → str_lt k p ≡ false

  lookup_head : (k : Str) (v : V) (m : SortedMap V) → lookup k ((k, v) ∷ m) ≡ some v
  unfolding lookup
  lookup_head k v m = rw (str_eq_refl k)

  lookup_past :
      (k j : Str) (v : V) (m : SortedMap V)
      → str_eq k j ≡ false
      → lookup j ((k, v) ∷ m) ≡ lookup j m
  unfolding lookup
  lookup_past k j v m e = rw e

  -- The first key of the map is the first of the interval.
  first_key :
      (val : ℕ → V) (p : Str) (i end : ℕ) (k : Str) (v : V) (m : SortedMap V)
      → i < end
      → IsInterval val p i end ((k, v) ∷ m)
      → HasFloor p ((k, v) ∷ m)
      → k ≡ slot p i
  first_key val p i end k v m h w floor = elim (Bool-cases (str_eq k (slot p i))) [
    | inl same ↦ str_eq_sound k (slot p i) same
    | inr differ ↦
        let below : str_lt k (slot p i) ≡ true =
          lookup-gt k (slot p i) m w.sorted.0
            (sym (lookup_past k (slot p i) v m differ) ∙ w.found i (omega arith) h) in
        let under : starts_with k p ≡ true =
          starts_with_between p (zero_padded 20 i) k (floor k v (lookup_head k v m))
            (unfold slot in str_lt_asymm k (slot p i) below) in
        let (j, le, lt, e) = w.only k v (lookup_head k v m) under in
        elim (dec_lt i j) [
          | yes later ↦
              absurd
                (clash k (slot p i) below (rw e (str_lt-slot p i j later (omega (arith, w.bound)))))
          | no not_later ↦ let same : j ≡ i = omega arith in rw (← same) e
        ]
  ]
    where
      clash : (a b : Str) → str_lt a b ≡ true → str_lt b a ≡ true → ⊥
      clash a b h g = cc (str_lt_asymm a b h)

  tail-IsInterval :
      (val : ℕ → V) (p : Str) (i end : ℕ) (k : Str) (v : V) (m : SortedMap V)
      → k ≡ slot p i
      → IsInterval val p i end ((k, v) ∷ m)
      → IsInterval val p (suc i) end m
  tail-IsInterval val p i end k v m e w = record {
    sorted = w.sorted.1;
    bound = w.bound;
    found = λ j lo hi.
        sym (lookup_past k (slot p j) v m (apart p k i j e lo (omega (arith, w.bound))))
        ∙ w.found j (omega arith) hi;
    only = λ k' v' h under.
        let (j, le, lt, e') = w.only k' v' (lookup_tail k k' v m w.sorted.0 h) under in
        let above : str_lt k k' ≡ true = lookup-gt k k' m w.sorted.0 h in
        (
          j,
          elim (dec_lt i j) [
            | yes later ↦ later
            | no not_later ↦
                let same : j ≡ i = omega arith in
                absurd (cc (above, e, e', ap (slot p) same, str_lt_irrefl k))
          ],
          lt,
          e',
        );
  }

  first_value :
      (s k : Str) (v : V) (m : SortedMap V) {w : V} → k ≡ s → lookup s ((k, v) ∷ m) ≡ some w → v ≡ w
  unfolding lookup
  first_value s k v m e h = cc (str_eq_refl k, ap (str_eq k) e)

  -- What a range holds lies in the range, and the map holds it.
  in_range :
      (s k : Str) (m : SortedMap V) {v : V}
      → lookup k (range_from s m) ≡ some v
      → (str_lt k s ≡ false) × (lookup k m ≡ some v)
  in_range s k m h = ground (arith, lookup-range_from s k m)

  -- The run of the prefix is the interval, entry by entry.
  run-listing :
      (val : ℕ → V) (p : Str) (i n : ℕ) (m : SortedMap V)
      → IsInterval val p i (i + n) m
      → HasFloor p m
      → prefix_run p m ≡ listing val p i n
  unfolding prefix_run listing
  run-listing val p i zero [] w floor = refl
  run-listing val p i zero ((k, v) ∷ m) w floor = elim (Bool-cases (starts_with k p)) [
    | inl under ↦ let (j, le, lt, e) = w.only k v (lookup_head k v m) under in absurd (omega arith)
    | inr other ↦ rw other
  ]
  run-listing val p i (suc n) [] w floor =
      absurd (unfold lookup in cc (w.found i (omega arith) (omega arith)))
  run-listing val p i (suc n) ((k, v) ∷ m) w floor =
      let e : k ≡ slot p i = first_key val p i (i + suc n) k v m (omega arith) w floor in
      let same : v ≡ val i =
        first_value (slot p i) k v m e (w.found i (omega arith) (omega arith)) in
      let rest : IsInterval val p (suc i) (suc i + n) m =
        subst (λ end. IsInterval val p (suc i) end m) (omega arith)
          (tail-IsInterval val p i (i + suc n) k v m e w) in
      let ih : prefix_run p m ≡ listing val p (suc i) n =
        run-listing val p (suc i) n m rest
          (λ k' v' h. floor k' v' (lookup_tail k k' v m w.sorted.0 h)) in
      rw (e, slot-starts_with p i, same, ih)

  -- A range that starts within the interval or at the prefix runs over the rest of the interval.
  pub run-range_from :
      (val : ℕ → V) (p s : Str) (lo i n : ℕ) (m : SortedMap V)
      → lo ≤ i
      → IsInterval val p lo (i + n) m
      → str_lt s p ≡ false
      → ((j : ℕ) → lo ≤ j → j < i + n → str_lt (slot p j) s ≡ ltb j i)
      → prefix_run p (range_from s m) ≡ listing val p i n
  run-range_from val p s lo i n m below w over cut =
      run-listing val p i n (range_from s m)
        (record {
          sorted = range_from-IsSorted s m w.sorted;
          bound = w.bound;
          found = λ j le lt.
              lookup-range_from s (slot p j) m
              ∙ rw (cut j (omega arith) lt, lt→ltb_false i j le) (w.found j (omega arith) lt);
          only = λ k v h under.
              let (j, le, lt, e) = w.only k v (in_range s k m h).1 under in
              (j, ltb_false→le i j (sym (cut j le lt) ∙ rw (← e) (in_range s k m h).0), lt, e);
        })
        (λ k v h. str_le_trans p s k over (in_range s k m h).0)

  -- A listing reads its values at its own numbers.
  pub listing_cong :
      (val val' : ℕ → V) (p : Str) (i n : ℕ)
      → ((j : ℕ) → i ≤ j → j < i + n → val j ≡ val' j)
      → listing val p i n ≡ listing val' p i n
  unfolding listing
  listing_cong val val' p i zero same = refl
  listing_cong val val' p i (suc n) same = rw (
    same i (omega arith) (omega arith),
    listing_cong val val' p (suc i) n (λ j lo hi. same j (omega arith) (omega arith)),
  )

  -- One entry more is an entry at the end.
  pub listing_snoc :
      (val : ℕ → V) (p : Str) (i n : ℕ)
      → listing val p i (suc n) ≡ listing val p i n ++ (slot p (i + n), val (i + n)) ∷ []
  unfolding listing
  listing_snoc val p i zero = let e : i + 0 ≡ i = omega arith in rw e
  listing_snoc val p i (suc n) =
      let e : suc i + n ≡ i + suc n = omega arith in
      ap (λ m. (slot p i, val i) ∷ m) (listing_snoc val p (suc i) n) ∙ rw e
