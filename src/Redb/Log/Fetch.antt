-- ===== src/Redb/Log/Fetch.antt =====
-- `fetch_messages` on a log: the scan of a range of keys, and single reads.
use mathlib.Core.List.{append-nil, append_assoc}
use msgbus.Prelude.{
  ℕ, zero, suc, ◌+◌, ◌-◌, ◌≤◌, ◌<◌, min, max, ◌≡◌, refl, sym, ◌∙◌, ap, true, false, List, [], ◌∷◌,
  ◌++◌, arith, leb, leb→le, Bool-cases, inl, inr, length, length-append,
}
use msgbus.Text.{Str, starts_with}
use msgbus.Text.SortedMap.{SortedMap}
use msgbus.Text.Window.{slot-starts_with, prefix_run, listing}
use msgbus.Core.Error.{Result, ok, err, ◌>>=◌}
use msgbus.Core.Word.{HeadId, u64_max}
use msgbus.Core.Name.{Topic}
use msgbus.Core.Node.{NodeId, key}
use msgbus.Core.Message.{Bytes, StoredMessage, FetchQuery}
use msgbus.Redb.Deps.{Deps}
use msgbus.Redb.Keys.{message_prefix, message_key}
use msgbus.Redb.Db.{Db, effective_limit, effective_limit_bounds}
use msgbus.Redb.Messages.{current_head_in_txn, fetch_loop, fetch_messages}
use msgbus.Redb.Log.{IsLog}
use msgbus.Redb.Log.Entries.{
  read_message, read_run, decode_at, Entry, log-Entry, value_at, value_at_found, log_listing, head,
}

leb_false→lt : (a b : ℕ) → leb a b ≡ false → b < a
leb_false→lt a b h = ground arith

module _ (d : Deps) where
  -- The loop reads no more of its range than the run of the prefix.
  fetch_loop-prefix_run :
      (p : Str) (limit : ℕ) (out : List StoredMessage) (m : SortedMap Bytes)
      → fetch_loop d p limit out m ≡ fetch_loop d p limit out (prefix_run p m)
  unfolding fetch_loop prefix_run
  fetch_loop-prefix_run p limit out [] = refl
  fetch_loop-prefix_run p limit out ((k, v) ∷ m) = elim (Bool-cases (starts_with k p)) [
    | inl under ↦
        after under (d.message_json.decode v) refl (λ out'. fetch_loop-prefix_run p limit out' m)
    | inr other ↦ ground arith
  ]
    where
      after :
          starts_with k p ≡ true
          → (r : Result StoredMessage) → d.message_json.decode v ≡ r
          → ((out' : List StoredMessage)
              → fetch_loop d p limit out' m ≡ fetch_loop d p limit out' (prefix_run p m))
          → fetch_loop d p limit out ((k, v) ∷ m)
            ≡ fetch_loop d p limit out (prefix_run p ((k, v) ∷ m))
      after under (err e) read ih = ground arith
      after under (ok message) read ih = ground (arith, ih (out ++ message ∷ []))

  bind_regroup :
      (out : List StoredMessage) (m : StoredMessage) (r : Result (List StoredMessage))
      → ((r >>= λ ms. ok (m ∷ ms)) >>= λ ms. ok (out ++ ms))
        ≡ (r >>= λ ms. ok ((out ++ m ∷ []) ++ ms))
  bind_regroup out m (ok ms) = ap ok (sym (append_assoc out (m ∷ []) ms))
  bind_regroup out m (err e) = refl

  -- Over a listing whose values are read by `read_message`, the loop is a run of single reads.
  fetch_loop-listing :
      (db : Db d) (t : Topic) (o : NodeId) (val : ℕ → Bytes) (p : Str) (limit : ℕ)
      (out : List StoredMessage) (i n : ℕ)
      → ((j : ℕ) → i ≤ j → j < i + n → read_message d db t o j ≡ d.message_json.decode (val j))
      → length out < limit
      → fetch_loop d p limit out (listing val p i n)
        ≡ (read_run d db t o i (min n (limit - length out)) >>= λ ms. ok (out ++ ms))
  unfolding fetch_loop listing read_run
  fetch_loop-listing db t o val p limit out i zero reads room =
      let none_left : min 0 (limit - length out) ≡ 0 = omega arith in rw (none_left, append-nil)
  fetch_loop-listing db t o val p limit out i (suc n) reads room =
      rw (slot-starts_with p i, fetch_loop)
        (after (d.message_json.decode (val i)) (reads i (omega arith) (omega arith)) (λ out'.
          fetch_loop-listing db t o val p limit out' (suc i) n
            (λ j lo hi. reads j (omega arith) (omega arith))))
    where
      next :
          (message : StoredMessage)
          → read_message d db t o i ≡ ok message
          → (length (out ++ message ∷ []) < limit
              → fetch_loop d p limit (out ++ message ∷ []) (listing val p (suc i) n) ≡ (
                  read_run d db t o (suc i) (min n (limit - length (out ++ message ∷ []))) >>= λ ms.
                  ok ((out ++ message ∷ []) ++ ms)))
          → elim (leb limit (length (out ++ message ∷ []))) as (λ b. Result (List StoredMessage)) [
            | true ↦ ok (out ++ message ∷ [])
            | false ↦ fetch_loop d p limit (out ++ message ∷ []) (listing val p (suc i) n)
          ]
            ≡ (read_run d db t o i (min (suc n) (limit - length out)) >>= λ ms. ok (out ++ ms))
      next message read ih =
          let longer = length-append out (message ∷ []) in
          elim (Bool-cases (leb limit (length (out ++ message ∷ [])))) [
            | inl full ↦
                let one : min (suc n) (limit - length out) ≡ 1 =
                  omega (arith, leb→le limit (length (out ++ message ∷ [])) full, longer) in
                rw (full, one, read)
            | inr more ↦
                let short : length (out ++ message ∷ []) < limit = leb_false→lt _ _ more in
                let step : min (suc n) (limit - length out)
                    ≡ suc (min n (limit - length (out ++ message ∷ []))) =
                  omega (arith, longer) in
                rw (more, step, read)
                  (ih short
                    ∙ sym (
                        bind_regroup out message (
                          read_run d db t o (suc i)
                            (min n (limit - length (out ++ message ∷ []))))))
          ]

      after :
          (r : Result StoredMessage)
          → read_message d db t o i ≡ r
          → ((out' : List StoredMessage)
              → length out' < limit
              → fetch_loop d p limit out' (listing val p (suc i) n) ≡ (
                  read_run d db t o (suc i) (min n (limit - length out')) >>= λ ms.
                  ok (out' ++ ms)))
          → (r >>= λ message. elim (leb limit (length (out ++ message ∷ []))) [
            | true ↦ ok (out ++ message ∷ [])
            | false ↦ fetch_loop d p limit (out ++ message ∷ []) (listing val p (suc i) n)
          ])
            ≡ (read_run d db t o i (min (suc n) (limit - length out)) >>= λ ms. ok (out ++ ms))
      after (err e) read ih =
          let more : min (suc n) (limit - length out) ≡ suc (min (suc n) (limit - length out) - 1) =
            omega arith in
          rw (more, read)
      after (ok message) read ih = next message read (ih (out ++ message ∷ []))

  -- The messages are those at the heads `i`, `i + 1`, … of the topic and the origin.
  unfoldable pub IsRun : Db d → Topic → NodeId → HeadId → List StoredMessage → Type 0
  IsRun db t o i [] = Unit
  IsRun db t o i (m ∷ ms) =
      (read_message d db t o i ≡ ok m)
      × (m.topic ≡ t)
      × (key m.origin ≡ key o)
      × (m.head_id ≡ i)
      × IsRun db t o (suc i) ms

  module _ (db : Db d) (log : IsLog d db) (t : Topic) (o : NodeId) where
    read-Entry : (i : HeadId) (e : Entry d db t o i) → read_message d db t o i ≡ ok e.message
    unfolding read_message decode_at
    read-Entry i e = rw (e.found, e.decoded)

    read_value :
        (i : HeadId)
        → 1 ≤ i
        → i ≤ head d db log t o
        → read_message d db t o i ≡ d.message_json.decode (value_at d db log t o i)
    unfolding read_message decode_at
    read_value i lo hi = rw (value_at_found d db log t o i lo hi)

    -- Within the log every single read succeeds.
    read_run_total :
        (i n : ℕ)
        → 1 ≤ i
        → n ≤ head d db log t o + 1 - i
        → (ms : List StoredMessage) × (read_run d db t o i n ≡ ok ms)
          × (length ms ≡ n)
          × IsRun db t o i ms
    unfolding read_run IsRun
    read_run_total i zero lo hi = ([], refl, refl, tt)
    read_run_total i (suc n) lo hi =
        let e = log-Entry d db log t o i lo (omega arith) in
        let read = read-Entry i e in
        let (ms, run, len, is_run) = read_run_total (suc i) n (omega arith) (omega arith) in
        (e.message ∷ ms, rw (read, run), omega arith, (read, e.topic, e.origin, e.head_id, is_run))

  bind_ok : (r : Result (List StoredMessage)) → (r >>= λ ms. ok ([] ++ ms)) ≡ r
  bind_ok (ok ms) = refl
  bind_ok (err e) = refl

  -- On a log, and for a first head in the range of u64, the scan of `fetch_messages` gives what
  -- reading the consecutive heads one by one gives, from the one asked for (or 1) on, as many as the
  -- limit and the head allow.
  pub fetch_messages-read_run :
      (db : Db d) (q : FetchQuery)
      → IsLog d db
      → q.from_head_id ≤ u64_max
      → fetch_messages d db q
        ≡ read_run d db q.topic q.origin (max 1 q.from_head_id) (
            min
              (current_head_in_txn d db q.topic q.origin + 1 - max 1 q.from_head_id)
              (effective_limit q.limit))
  unfolding fetch_messages
  fetch_messages-read_run db q log fits =
      let t = q.topic in
      let o = q.origin in
      let first = max 1 q.from_head_id in
      let n = head d db log t o + 1 - first in
      let limit = effective_limit q.limit in
      let p = message_prefix d.base64 t o in
      let whole : limit - 0 ≡ limit = omega arith in
      fetch_loop-prefix_run p limit []
        (d.range db.messages (message_key d.base64 t o q.from_head_id))
      ∙ ap (fetch_loop d p limit []) (log_listing d db log t o q.from_head_id fits)
      ∙ fetch_loop-listing db t o (value_at d db log t o) p limit [] first n
          (λ j lo hi. read_value db log t o j (omega arith) (omega arith))
          (omega (arith, effective_limit_bounds q.limit))
      ∙ bind_ok (read_run d db t o first (min n (limit - 0)))
      ∙ ap (λ k. read_run d db t o first (min n k)) whole

  -- On a log, and for a first head in the range of u64, `fetch_messages` succeeds and returns the
  -- messages at consecutive heads from the one asked for (or 1) on, as many as the limit and the
  -- head allow.
  pub fetch_messages_lem :
      (db : Db d) (q : FetchQuery)
      → IsLog d db
      → q.from_head_id ≤ u64_max
      → (ms : List StoredMessage) × (fetch_messages d db q ≡ ok ms)
        × (length ms
            ≡ min
                (current_head_in_txn d db q.topic q.origin + 1 - max 1 q.from_head_id)
                (effective_limit q.limit))
        × IsRun db q.topic q.origin (max 1 q.from_head_id) ms
  fetch_messages_lem db q log fits =
      let first = max 1 q.from_head_id in
      let n = head d db log q.topic q.origin + 1 - first in
      let (ms, run, len, is_run) =
        read_run_total db log q.topic q.origin first (min n (effective_limit q.limit)) (omega arith)
          (omega arith) in
      (ms, fetch_messages-read_run db q log fits ∙ run, len, is_run)
