-- ===== src/Redb/Log/Heads.antt =====
-- `list_heads` on a log.
use mathlib.Core.List.{append_assoc, append-nil}
use msgbus.Prelude.{
  All-map, ℕ, ◌≤◌, ◌≡◌, ◌⊎◌, refl, sym, ◌∙◌, ap, some, List, [], ◌∷◌, ◌++◌, arith, All, inl, inr,
  unwrap_or, Bool-cases, Option-cases, subst,
}
use msgbus.Text.{Str, str_eq, codes, str_lt, strip_prefix}
use msgbus.Text.Order.{str_eq_sound}
use msgbus.Text.Split.{split-part, split-last}
use msgbus.Text.SortedMap.{SortedMap, lookup, range_from, lookup-All}
use msgbus.Core.Error.{ok}
use msgbus.Core.Name.{Topic}
use msgbus.Core.Node.{NodeId, key, slash}
use msgbus.Core.Message.{TopicHead}
use msgbus.Redb.Deps.{Deps}
use msgbus.Redb.Keys.{head_key, raw_message_key_lem, head_key_injective, head_key_cong}
use msgbus.Redb.Db.{Db}
use msgbus.Redb.Messages.{current_head_in_txn}
use msgbus.Redb.Heads.{head_key_parts, rest_parts, decode_head, head_entry, heads_loop, list_heads}
use msgbus.Redb.Log.{IsLog, head_cong}
use msgbus.Redb.Log.Entries.{log-Entry}

strip_prefix-append : (p s : Str) → strip_prefix (p ++ s) p ≡ some s
unfolding strip_prefix
strip_prefix-append [] s = refl
strip_prefix-append (c ∷ p) s = ground (arith, strip_prefix-append p s)

range_from_start : {V : Type 0} (m : SortedMap V) → range_from [] m ≡ m
unfolding range_from str_lt
range_from_start [] = refl
range_from_start (([], v) ∷ m) = ap (λ r. ([], v) ∷ r) (range_from_start m)
range_from_start ((c ∷ k, v) ∷ m) = ap (λ r. (c ∷ k, v) ∷ r) (range_from_start m)

module _ (d : Deps) where
  head_key_parts-head_key :
      (t : Topic) (o : NodeId)
      → head_key_parts (head_key d.base64 t o) ≡ ok (d.enc t.text, d.enc (key o))
  unfolding head_key_parts head_key rest_parts
  head_key_parts-head_key t o =
      rw
        (
          strip_prefix-append (codes "head/") (d.enc t.text ++ slash ∷ d.enc (key o)),
          split-part slash (d.enc t.text) (d.enc (key o)) (d.enc-slash t.text),
          split-last slash (d.enc (key o)) (d.enc-slash (key o)),
        )
        refl

  -- The entry of the head table that an element of the list stands for.
  pub record IsHeadOf (db : Db d) (e : Str × ℕ) (x : TopicHead) : Type 0 where
    pub keyed : e.0 ≡ head_key d.base64 x.topic x.origin
    pub head : x.head_id ≡ current_head_in_txn d db x.topic x.origin
    pub low : 1 ≤ x.head_id
    pub value : x.head_id ≡ e.1

  abbrev pub Has : {A : Type 0} → (A → Type 0) → List A → Type 0
  Has P [] = ⊥
  Has P (x ∷ xs) = P x ⊎ Has P xs

  value_at_key :
      (db : Db d) (k : Str) (h : ℕ) (t : Topic) (o : NodeId)
      → d.get db.heads k ≡ some h
      → k ≡ head_key d.base64 t o
      → current_head_in_txn d db t o ≡ h
  unfolding current_head_in_txn
  value_at_key db k h t o found at = rw (← at, found) refl

  module _ (db : Db d) (log : IsLog d db) where
    head_entry_lem :
        (k : Str) (h : ℕ)
        → d.get db.heads k ≡ some h
        → (x : TopicHead) × (head_entry d db k h ≡ ok x) × IsHeadOf db (k, h) x
    unfolding head_entry
    head_entry_lem k h found =
        let (t, o, at, low) = log.headed k h found in
        let value : current_head_in_txn d db t o ≡ h = value_at_key db k h t o found at in
        let e = log-Entry d db log t o h low (omega (arith, value)) in
        let topic : head_key d.base64 t o ≡ head_key d.base64 e.message.topic o =
          ap (λ x. head_key d.base64 x o) (sym e.topic) in
        (
          record { topic = e.message.topic; origin = e.message.origin; head_id = h },
          rw
              (
                at,
                head_key_parts-head_key t o,
                raw_message_key_lem d.base64 t o h,
                e.found,
                decode_head,
                e.decoded,
              )
              refl,
          record {
            keyed =
                at
                ∙ topic
                ∙ head_key_cong d.base64 e.message.topic o e.message.origin (sym e.origin);
            head =
                sym value
                ∙ head_cong d db t e.message.topic o e.message.origin (sym e.topic) (sym e.origin);
            low = low;
            value = refl;
          },
        )

    -- The list of the loop: each entry read is one element, in order.
    record Lists (m : SortedMap ℕ) (xs : List TopicHead) : Type 0 where
      sound : All (λ x. (e : Str × ℕ) × IsHeadOf db e x) xs
      complete : (k : Str) (h : ℕ) → lookup k m ≡ some h → Has (IsHeadOf db (k, h)) xs

    heads_loop_lem :
        (out : List TopicHead) (m : SortedMap ℕ)
        → All (λ e. d.get db.heads e.0 ≡ some e.1) m
        → (xs : List TopicHead) × (heads_loop d db out m ≡ ok (out ++ xs)) × Lists m xs
    unfolding heads_loop lookup
    heads_loop_lem out [] a =
        ([], ap ok (sym (append-nil out)), record { sound = tt; complete = λ k h e. cc })
    heads_loop_lem out ((k, h) ∷ m) a =
        let (x, entry, of) = head_entry_lem k h a.0 in
        let (xs, run, l) = heads_loop_lem (out ++ x ∷ []) m a.1 in
        (
          x ∷ xs,
          rw (entry, heads_loop) (run ∙ ap ok (append_assoc out (x ∷ []) xs)),
          record {
            sound = (((k, h), of), l.sound);
            complete = λ k' h' e. elim (Bool-cases (str_eq k k')) [
              | inl same ↦
                  let value : h ≡ h' = ground arith in
                  inl (subst (λ y. IsHeadOf db y x) (cc (str_eq_sound k k' same)) of)
              | inr differ ↦ inr (l.complete k' h' (rw differ at e))
            ];
          },
        )

  Has-map :
      {A : Type 0} (P Q : A → Type 0) (xs : List A) → ((x : A) → P x → Q x) → Has P xs → Has Q xs
  Has-map P Q [] f h = elim h [ ]
  Has-map P Q (x ∷ xs) f (inl p) = inl (f x p)
  Has-map P Q (x ∷ xs) f (inr h) = inr (Has-map P Q xs f h)

  head_found :
      (db : Db d) (t : Topic) (o : NodeId)
      → 1 ≤ current_head_in_txn d db t o
      → d.get db.heads (head_key d.base64 t o) ≡ some (current_head_in_txn d db t o)
  unfolding current_head_in_txn
  head_found db t o low = elim (Option-cases (d.get db.heads (head_key d.base64 t o))) [
    | inl gone ↦ absurd (omega (arith, ap (λ x. unwrap_or x 0) gone))
    | inr (h, found) ↦ rw found refl
  ]

  -- On a log `list_heads` succeeds. Each element is the current head of its topic and origin, which is
  -- at least 1; and each topic and origin with a message is listed, with its current head and an
  -- origin of the same key.
  pub list_heads_lem :
      (db : Db d)
      → IsLog d db
      → (hs : List TopicHead) × (list_heads d db ≡ ok hs)
        × All (λ x. (x.head_id ≡ current_head_in_txn d db x.topic x.origin) × (1 ≤ x.head_id)) hs
        × ((t : Topic) (o : NodeId)
            → 1 ≤ current_head_in_txn d db t o
            → Has
                (λ x.
                  (x.topic ≡ t)
                  × (key x.origin ≡ key o)
                  × (x.head_id ≡ current_head_in_txn d db t o))
                hs)
  unfolding list_heads
  list_heads_lem db log =
      let (hs, run, l) = heads_loop_lem db log [] (d.entries db.heads) (
        lookup-All (λ e. d.get db.heads e.0 ≡ some e.1) (d.entries db.heads)
          (d.entries-IsSorted db.heads) (λ k h e. d.get_lem db.heads k ∙ e)) in
      (
        hs,
        ap (heads_loop d db []) (d.range_lem db.heads [] ∙ range_from_start (d.entries db.heads))
            ∙ run,
        All-map _ _ hs (λ x s. (s.1.head, s.1.low)) l.sound,
        λ t o low.
            Has-map (IsHeadOf db (head_key d.base64 t o, current_head_in_txn d db t o)) _ hs
              (λ x of.
                let (et, eo) = head_key_injective d.base64 t x.topic o x.origin of.keyed in
                (sym et, sym eo, of.value))
              (l.complete (head_key d.base64 t o) (current_head_in_txn d db t o)
                (sym (d.get_lem db.heads (head_key d.base64 t o)) ∙ head_found db t o low)),
      )
