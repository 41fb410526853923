-- ===== src/Redb/Log/Collect.antt =====
-- The updates that the first loop of `tombstone_range` collects from a log.
use native.Mathlib.Decide.{dec_le}
use msgbus.Prelude.{
  ℕ, zero, suc, ◌+◌, ◌≤◌, ◌<◌, max, ◌≡◌, ◌⊎◌, refl, sym, ◌∙◌, ap, subst, true, false, [], ◌∷◌, ◌++◌,
  arith, All, Bool-cases, inl, inr, ltb,
}
use msgbus.Text.{Str}
use msgbus.Text.SortedMap.{SortedMap}
use msgbus.Text.Window.{slot-starts_with, listing}
use msgbus.Core.Error.{ok}
use msgbus.Core.Word.{HeadId}
use msgbus.Core.Name.{Topic}
use msgbus.Core.Node.{NodeId}
use msgbus.Core.Message.{Bytes, StoredMessage}
use msgbus.Redb.Deps.{Deps}
use msgbus.Redb.Keys.{message_key}
use msgbus.Redb.Db.{Db}
use msgbus.Redb.Messages.{update_loop}
use msgbus.Redb.Log.{IsLog}
use msgbus.Redb.Log.Entries.{
  Entry, log-Entry, value_at, value_at_found, head, prefix, read_message, decode_at,
}
use msgbus.Redb.Log.Updates.{
  Hit, Hit-snoc, Hit-snoc_last, All-snoc, update_loop_past, update_loop_old, update_loop_live,
}

ltb_cases : (a b : ℕ) → ((ltb a b ≡ true) × (a < b)) ⊎ ((ltb a b ≡ false) × (b ≤ a))
ltb_cases a b = elim (Bool-cases (ltb a b)) [
  | inl h ↦ inl (h, ground arith)
  | inr h ↦ inr (h, ground arith)
]

module _ (d : Deps) (db : Db d) (log : IsLog d db) (t : Topic) (o : NodeId) (from to : HeadId) where
  -- What the updates are: messages of the range that were live, as deleted.
  pub record IsUpdate (e : Str × Bytes) : Type 0 where
    pub at : HeadId
    pub low : 1 ≤ at
    pub from_le : from ≤ at
    pub le_to : at ≤ to
    pub within : at ≤ head d db log t o
    pub keyed : e.0 ≡ message_key d.base64 t o at
    pub message : StoredMessage
    pub old : read_message d db t o at ≡ ok message
    pub decoded : d.message_json.decode e.1 ≡ ok (record message { deleted = true })

  abbrev pub val : ℕ → Bytes
  val = value_at d db log t o

  value_decoded :
      (i : HeadId) (lo : 1 ≤ i) (hi : i ≤ head d db log t o)
      → d.message_json.decode (val i) ≡ ok (log-Entry d db log t o i lo hi).message
  value_decoded i lo hi =
      let e = log-Entry d db log t o i lo hi in
      let same : val i ≡ e.bytes = cc (value_at_found d db log t o i lo hi, e.found) in
      ap d.message_json.decode same ∙ e.decoded

  pub entry_read : (i : HeadId) (e : Entry d db t o i) → read_message d db t o i ≡ ok e.message
  unfolding read_message decode_at
  entry_read i e = rw (e.found, e.decoded)

  -- What the first loop collects from a page of the log.
  pub record Collected (updates : SortedMap Bytes) (i n : ℕ) (updates' : SortedMap Bytes)
      : Type 0 where
    pub good : All IsUpdate updates'
    pub kept : (k : Str) → Hit k updates → Hit k updates'
    pub hit :
        (j : HeadId) (m : StoredMessage)
        → i ≤ j
        → j < i + n
        → j ≤ to
        → read_message d db t o j ≡ ok m
        → m.deleted ≡ false
        → Hit (message_key d.base64 t o j) updates'

  Collected-none :
      (updates : SortedMap Bytes) (i n : ℕ)
      → All IsUpdate updates
      → (n ≡ 0) ⊎ (to < i)
      → Collected updates i n updates
  Collected-none updates i n good none_left = record {
    good = good;
    kept = λ k h. h;
    hit = λ j m lo hi le read live. absurd (beyond j lo hi le);
  }
    where
      beyond : (j : ℕ) → i ≤ j → j < i + n → j ≤ to → ⊥
      beyond j lo hi le = elim none_left [ inl none ↦ omega arith | inr past ↦ omega arith ]

  Collected-next :
      (updates updates₁ updates' : SortedMap Bytes) (i n : ℕ) (e : Entry d db t o i)
      → ((k : Str) → Hit k updates → Hit k updates₁)
      → (e.message.deleted ≡ false → Hit (message_key d.base64 t o i) updates₁)
      → Collected updates₁ (suc i) n updates'
      → Collected updates i (suc n) updates'
  Collected-next updates updates₁ updates' i n e grown own rest = record {
    good = rest.good;
    kept = λ k h. rest.kept k (grown k h);
    hit = λ j m lo hi le read live. elim (dec_le j i) [
      | yes last ↦
          let at : i ≡ j = omega arith in
          let same : ok e.message ≡ ok m = sym (entry_read i e) ∙ rw at read in
          rest.kept (message_key d.base64 t o j)
            (subst (λ x. Hit (message_key d.base64 t o x) updates₁) at (own (cc)))
      | no later ↦ rest.hit j m (omega arith) (omega arith) le read live
    ];
  }

  pub update_loop-listing :
      (updates : SortedMap Bytes) (i n : ℕ)
      → 1 ≤ i
      → from ≤ i
      → i + n ≤ max i (head d db log t o + 1)
      → All IsUpdate updates
      → (updates' : SortedMap Bytes) × (update_loop d
            (prefix d db log t o)
            to
            updates
            (listing val (prefix d db log t o) i n)
          ≡ ok updates')
        × Collected updates i n updates'
  unfolding listing message_key update_loop
  update_loop-listing updates i zero lo after hi good =
      (updates, refl, Collected-none updates i zero good (inl refl))
  update_loop-listing updates i (suc n) lo after hi good =
      let p = prefix d db log t o in
      let k = message_key d.base64 t o i in
      let rest = listing val p (suc i) n in
      let e = log-Entry d db log t o i lo (omega arith) in
      let read = value_decoded i lo (omega arith) in
      let under = slot-starts_with p i in
      let at : ltb to e.message.head_id ≡ ltb to i = ap (ltb to) e.head_id in
      elim (ltb_cases to i) [
        | inl (past, gt) ↦ (
          updates,
          update_loop_past d p to updates k (val i) rest e.message under read (at ∙ past),
          Collected-none updates i (suc n) good (inr gt),
        )
        | inr (inside, le) ↦ elim (Bool-cases e.message.deleted) [
          | inl old ↦
              let (u, run, c) =
                update_loop-listing updates (suc i) n (omega arith) (omega arith) (omega arith)
                  good in
              (
                u,
                update_loop_old d p to updates k (val i) rest e.message under read (at ∙ inside) old
                    ∙ run,
                Collected-next updates updates u i n e (λ k h. h) (λ live. cc) c,
              )
          | inr live ↦
              let (b, enc) = d.message_json.encode_total (record e.message { deleted = true }) in
              let update : IsUpdate (k, b) = record {
                at = i;
                low = lo;
                from_le = after;
                le_to = le;
                within = omega arith;
                keyed = refl;
                message = e.message;
                old = entry_read i e;
                decoded = d.message_json.decode-encode (record e.message { deleted = true }) enc;
              } in
              let (u, run, c) =
                update_loop-listing (updates ++ (k, b) ∷ []) (suc i) n (omega arith) (omega arith)
                  (omega arith) (All-snoc IsUpdate updates (k, b) good update) in
              (
                u,
                update_loop_live d p to updates k (val i) rest e.message under read b (at ∙ inside)
                      live enc
                    ∙ run,
                Collected-next updates (updates ++ (k, b) ∷ []) u i n e
                    (λ j h. Hit-snoc j k b updates h) (λ l. Hit-snoc_last k b updates) c,
              )
        ]
      ]
