-- ===== src/Redb/Log/Updates.antt =====
-- The two loops of `tombstone_range`: the updates that the first collects, and the table that the
-- second leaves.
use msgbus.Prelude.{
  ℕ, ◌≡◌, ◌⊎◌, refl, ◌∙◌, subst, true, false, some, List, [], ◌∷◌, ◌++◌, arith, All, Bool-cases,
  inl, inr, ltb,
}
use msgbus.Text.{Str, str_eq, starts_with}
use msgbus.Text.Order.{str_eq_sound, str_eq_refl}
use msgbus.Text.SortedMap.{SortedMap}
use msgbus.Text.Window.{prefix_run}
use msgbus.Core.Error.{Result, ok, err, ◌>>=◌}
use msgbus.Core.Word.{HeadId, saturating_add}
use msgbus.Core.Message.{Bytes, StoredMessage}
use msgbus.Redb.Deps.{Deps}
use msgbus.Redb.Tables.{get-insert}
use msgbus.Redb.Messages.{update_loop, write_loop}

-- The key is that of an update.
abbrev pub Hit : Str → SortedMap Bytes → Type 0
Hit k [] = ⊥
Hit k ((j, v) ∷ updates) = (j ≡ k) ⊎ Hit k updates

pub Hit-snoc : (k j : Str) (v : Bytes) (u : SortedMap Bytes) → Hit k u → Hit k (u ++ (j, v) ∷ [])
Hit-snoc k j v [] h = elim h [ ]
Hit-snoc k j v ((i, w) ∷ u) (inl e) = inl e
Hit-snoc k j v ((i, w) ∷ u) (inr h) = inr (Hit-snoc k j v u h)

pub Hit-snoc_last : (k : Str) (v : Bytes) (u : SortedMap Bytes) → Hit k (u ++ (k, v) ∷ [])
Hit-snoc_last k v [] = inl refl
Hit-snoc_last k v ((i, w) ∷ u) = inr (Hit-snoc_last k v u)

pub All-snoc :
    {A : Type 0} (P : A → Type 0) (u : List A) (x : A) → All P u → P x → All P (u ++ x ∷ [])
All-snoc P [] x a h = (h, tt)
All-snoc P (y ∷ u) x a h = (a.0, All-snoc P u x a.1 h)

module _ (d : Deps) where
  -- A value after the writes is that of an update, or was there before.
  pub get-write_loop :
      (P : Str × Bytes → Type 0) (t : d.Table Bytes) (c : ℕ) (u : SortedMap Bytes)
      → All P u
      → (k : Str) (b : Bytes) → d.get (write_loop d t c u).1 k ≡ some b
      → P (k, b) ⊎ (d.get t k ≡ some b)
  unfolding write_loop
  get-write_loop P t c [] a k b h = inr h
  get-write_loop P t c ((j, v) ∷ u) a k b h =
      elim (get-write_loop P (d.insert t j v) (saturating_add c 1) u a.1 k b h) [
        | inl update ↦ inl update
        | inr found ↦ elim (Bool-cases (str_eq j k)) [
          | inl same ↦
              let value : v ≡ b = ground (arith, get-insert d.tables t j k v) in
              inl (subst P (cc (str_eq_sound j k same)) a.0)
          | inr differ ↦ inr (ground (arith, get-insert d.tables t j k v))
        ]
      ]

  -- A key of an update holds an update after the writes.
  pub get-write_loop-Hit :
      (P : Str × Bytes → Type 0) (t : d.Table Bytes) (c : ℕ) (u : SortedMap Bytes)
      → All P u
      → (k : Str) → Hit k u ⊎ ((b : Bytes) × (d.get t k ≡ some b) × P (k, b))
      → (b : Bytes) × (d.get (write_loop d t c u).1 k ≡ some b) × P (k, b)
  unfolding write_loop
  get-write_loop-Hit P t c [] a k (inl h) = elim h [ ]
  get-write_loop-Hit P t c [] a k (inr there) = there
  get-write_loop-Hit P t c ((j, v) ∷ u) a k (inl (inl e)) =
      get-write_loop-Hit P (d.insert t j v) (saturating_add c 1) u a.1 k
        (inr (v, rw e (get-insert d.tables t k k v ∙ rw (str_eq_refl k)), rw (← e) a.0))
  get-write_loop-Hit P t c ((j, v) ∷ u) a k (inl (inr h)) =
      get-write_loop-Hit P (d.insert t j v) (saturating_add c 1) u a.1 k (inl h)
  get-write_loop-Hit P t c ((j, v) ∷ u) a k (inr (b, found, good)) =
      get-write_loop-Hit P (d.insert t j v) (saturating_add c 1) u a.1 k (
        inr (elim (Bool-cases (str_eq j k)) [
          | inl same ↦
              (v, get-insert d.tables t j k v ∙ rw same, subst P (cc (str_eq_sound j k same)) a.0)
          | inr differ ↦ (b, get-insert d.tables t j k v ∙ rw differ found, good)
        ]))

  -- What was there is still there, if only with another value.
  pub get-write_loop_kept :
      (t : d.Table Bytes) (c : ℕ) (u : SortedMap Bytes) (k : Str) (b : Bytes)
      → d.get t k ≡ some b
      → (b' : Bytes) × (d.get (write_loop d t c u).1 k ≡ some b')
  unfolding write_loop
  get-write_loop_kept t c [] k b h = (b, h)
  get-write_loop_kept t c ((j, v) ∷ u) k b h = elim (Bool-cases (str_eq j k)) [
    | inl same ↦
        get-write_loop_kept (d.insert t j v) (saturating_add c 1) u k v
          (get-insert d.tables t j k v ∙ rw same)
    | inr differ ↦
        get-write_loop_kept (d.insert t j v) (saturating_add c 1) u k b
          (get-insert d.tables t j k v ∙ rw differ h)
  ]

  -- The first loop reads no more of its range than the run of the prefix.
  pub update_loop-prefix_run :
      (p : Str) (to : HeadId) (u m : SortedMap Bytes)
      → update_loop d p to u m ≡ update_loop d p to u (prefix_run p m)
  unfolding update_loop prefix_run
  update_loop-prefix_run p to u [] = refl
  update_loop-prefix_run p to u ((k, v) ∷ m) = elim (Bool-cases (starts_with k p)) [
    | inl under ↦
        after under (d.message_json.decode v) refl (λ u'. update_loop-prefix_run p to u' m)
    | inr other ↦ ground arith
  ]
    where
      encoded :
          (message : StoredMessage) (r : Result Bytes)
          → ((u' : SortedMap Bytes)
              → update_loop d p to u' m ≡ update_loop d p to u' (prefix_run p m))
          → (r >>= λ b. update_loop d p to (u ++ (k, b) ∷ []) m)
            ≡ (r >>= λ b. update_loop d p to (u ++ (k, b) ∷ []) (prefix_run p m))
      encoded message (err e) ih = refl
      encoded message (ok b) ih = ih (u ++ (k, b) ∷ [])

      after :
          starts_with k p ≡ true
          → (r : Result StoredMessage) → d.message_json.decode v ≡ r
          → ((u' : SortedMap Bytes)
              → update_loop d p to u' m ≡ update_loop d p to u' (prefix_run p m))
          → update_loop d p to u ((k, v) ∷ m) ≡ update_loop d p to u (prefix_run p ((k, v) ∷ m))
      after under (err e) read ih = ground arith
      after under (ok message) read ih = ground (
        arith,
        ih u,
        encoded message (d.message_json.encode (record message { deleted = true })) ih,
      )

  -- One round of the first loop, by what its entry holds.
  module _ (p : Str) (to : HeadId) (u : SortedMap Bytes) (k : Str) (v : Bytes)
      (rest : SortedMap Bytes) (m : StoredMessage) (under : starts_with k p ≡ true)
      (read : d.message_json.decode v ≡ ok m) where
    pub update_loop_past : ltb to m.head_id ≡ true → update_loop d p to u ((k, v) ∷ rest) ≡ ok u
    unfolding update_loop
    update_loop_past past = ground arith

    pub update_loop_old :
        ltb to m.head_id ≡ false
        → m.deleted ≡ true
        → update_loop d p to u ((k, v) ∷ rest) ≡ update_loop d p to u rest
    unfolding update_loop
    update_loop_old inside old = ground arith

    pub update_loop_live :
        (b : Bytes)
        → ltb to m.head_id ≡ false
        → m.deleted ≡ false
        → d.message_json.encode (record m { deleted = true }) ≡ ok b
        → update_loop d p to u ((k, v) ∷ rest) ≡ update_loop d p to (u ++ (k, b) ∷ []) rest
    unfolding update_loop
    update_loop_live b inside live enc = ground arith
