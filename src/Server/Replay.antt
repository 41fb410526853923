-- ===== src/Server/Replay.antt =====
-- `replay_control_messages` over a redb store that is a log.
use msgbus.Prelude.{
  All-map, ℕ, zero, suc, ◌+◌, ◌≤◌, ◌<◌, max, min, ◌≡◌, refl, ap, subst, false, some, List, [], ◌∷◌,
  leb, arith, Bool-cases, inl, inr, All,
}
use msgbus.Text.{Str, str_eq}
use msgbus.Core.Error.{outcome, Outcome, ok, err, ok_injective}
use msgbus.Core.Word.{u64_max, saturating_add}
use msgbus.Core.Name.{Topic}
use msgbus.Core.Node.{NodeId}
use msgbus.Core.Message.{Bytes, StoredMessage, TombstoneRange, TopicHead}
use msgbus.Redb.Deps.{Deps}
use msgbus.Redb.Db.{Db}
use msgbus.Redb.Messages.{current_head_in_txn}
use msgbus.Redb.Store.{redb_store}
use msgbus.Redb.Log.{IsLog}
use msgbus.Redb.Log.Fetch.{IsRun, fetch_messages_lem}
use msgbus.Redb.Log.Deleted.{tombstone_range-IsLog}
use msgbus.Redb.Log.Heads.{list_heads_lem}
use msgbus.Server.Kept.{Reads64, apply_control_message-kept}
use msgbus.Server.Status.{Reply}
use msgbus.Server.Service.{delete_topic}
use msgbus.Server.Control.{
  is_nil, apply_control_message, apply_window, replay_head, replay_heads, replay_control_messages,
  window_query,
}

advanced : (h i : ℕ) → h ≡ i → saturating_add h 1 ≡ min (suc i) u64_max
unfolding saturating_add
advanced h i e = omega arith

module _ (d : Deps) (parse : Bytes → Outcome Str TombstoneRange) (reads : Reads64 parse) where
  control-IsLog :
      (now : ℕ) (db : Db d) (m : StoredMessage)
      → IsLog d db
      → IsLog d (apply_control_message (redb_store d) parse now db m).1
  control-IsLog =
      apply_control_message-kept (redb_store d) parse reads (IsLog d)
        (λ now db t o from to fits log. tombstone_range-IsLog d now db t o from to log fits)

  -- After the window the next one starts no lower.
  apply_window_lem :
      (clock : StoredMessage → ℕ) (db₀ : Db d) (t : Topic) (o : NodeId) (i from : ℕ)
      (ms : List StoredMessage) (db : Db d)
      → IsRun d db₀ t o i ms
      → from ≡ min i u64_max
      → IsLog d db
      → IsLog d (apply_window (redb_store d) parse clock db from ms).1
        × ((next : ℕ)
            → (apply_window (redb_store d) parse clock db from ms).0 ≡ ok next
            → (from ≤ next) × (is_nil ms ≡ false → min (suc i) u64_max ≤ next))
  unfolding apply_window IsRun
  apply_window_lem clock db₀ t o i from [] db run at log =
      (log, λ next e. (omega (arith, ok_injective e), λ some_left. cc))
  apply_window_lem clock db₀ t o i from (m ∷ ms) db (read, topic, origin, head, run) at log =
      let log' = control-IsLog (clock m) db m log in
      let call = apply_control_message (redb_store d) parse (clock m) db m in
      elim (outcome call.0) [
        | inl (e, failed) ↦ rw (failed, apply_window) (log', λ next e. cc)
        | inr (done, applied) ↦
            let (kept, later) =
              apply_window_lem clock db₀ t o (suc i) (saturating_add m.head_id 1) ms call.1 run
                (advanced (m.head_id) i head) log' in
            rw (applied, apply_window)
              (
                kept,
                λ next e. (
                  omega (arith, later next e, advanced m.head_id i head),
                  λ some_left. omega (arith, later next e, advanced m.head_id i head),
                ),
              )
      ]

  -- The windows of one log of which the head is below the maximum of u64 end within the fuel, and
  -- leave a log.
  replay_head_lem :
      (clock : StoredMessage → ℕ) (fuel : ℕ) (db : Db d) (head : TopicHead) (from : ℕ)
      → IsLog d db
      → head.head_id < u64_max
      → 1 ≤ from
      → 1 ≤ fuel
      → head.head_id + 1 < fuel + from
      → (r : Reply (Unit {0})) × (db' : Db d) × (replay_head
            (redb_store d)
            parse
            clock
            fuel
            db
            head
            from
          ≡ (some r, db'))
        × IsLog d db'
  unfolding replay_head
  replay_head_lem clock zero db head from log below low some_fuel enough = absurd (omega arith)
  replay_head_lem clock (suc fuel) db head from log below low some_fuel enough =
      elim (Bool-cases (leb from head.head_id)) [
        | inr past ↦ (ok tt, db, rw (past, replay_head) refl, log)
        | inl more ↦
            let le : from ≤ head.head_id = ground arith in
            let (ms, fetched, len, run) =
              fetch_messages_lem d db (window_query (redb_store d) parse head from) log
                (omega arith) in
            elim (Bool-cases (is_nil ms)) [
              | inl empty ↦ (ok tt, db, rw (more, replay_head, fetched, empty) refl, log)
              | inr some_left ↦
                  let first : max 1 from ≡ from = omega arith in
                  let (kept, later) =
                    apply_window_lem clock db head.topic head.origin from from ms db
                      (subst (λ i. IsRun d db head.topic head.origin i ms) first run) (omega arith)
                      log in
                  let window = apply_window (redb_store d) parse clock db from ms in
                  elim (outcome window.0) [
                    | inl (e, failed) ↦ (
                      err e,
                      window.1,
                      rw (more, replay_head, fetched, some_left, failed) refl,
                      kept,
                    )
                    | inr (from', reached) ↦
                        let (r, db', rest, log') =
                          replay_head_lem clock fuel window.1 head from' kept below
                            (omega (arith, later from' reached)) (omega arith)
                            (omega (arith, (later from' reached).1 some_left)) in
                        (r, db', rw (more, replay_head, fetched, some_left, reached) rest, log')
                  ]
            ]
      ]

  replay_heads_lem :
      (clock : StoredMessage → ℕ) (db : Db d) (heads : List TopicHead)
      → IsLog d db
      → All (λ x. x.head_id < u64_max) heads
      → (r : Reply (Unit {0})) × (db' : Db d) × (replay_heads (redb_store d) parse clock db heads
          ≡ (some r, db'))
        × IsLog d db'
  unfolding replay_heads
  replay_heads_lem clock db [] log below = (ok tt, db, refl, log)
  replay_heads_lem clock db (head ∷ heads) log (low, below) =
      elim (Bool-cases (str_eq head.topic.text delete_topic)) [
        | inr other ↦ rw (other, replay_heads) (replay_heads_lem clock db heads log below)
        | inl control ↦
            let (r, db', run, kept) =
              replay_head_lem clock (suc head.head_id) db head 1 log low (omega arith) (omega arith)
                (omega arith) in
            elim (outcome r) [
              | inl (e, failed) ↦ (
                err e,
                db',
                rw (control, replay_heads, ap (λ x. x.0) run, failed, ap (λ x. x.1) run) refl,
                kept,
              )
              | inr (done, ended) ↦
                  let (r', db₂, rest, kept') = replay_heads_lem clock db' heads kept below in
                  (
                    r',
                    db₂,
                    rw (control, replay_heads, ap (λ x. x.0) run, ended, ap (λ x. x.1) run) rest,
                    kept',
                  )
            ]
      ]

  -- On a redb store that is a log with every current head below the maximum of u64, for any parser of
  -- markers whose heads are in the range of u64, the replay of the delete markers ends within its
  -- fuel, with success or with an error, and leaves a log.
  pub replay_control_messages_lem :
      (clock : StoredMessage → ℕ) (db : Db d)
      → IsLog d db
      → ((t : Topic) (o : NodeId) → current_head_in_txn d db t o < u64_max)
      → (r : Reply (Unit {0})) × (db' : Db d) × (replay_control_messages
            (redb_store d)
            parse
            clock
            db
          ≡ (some r, db'))
        × IsLog d db'
  unfolding replay_control_messages
  replay_control_messages_lem clock db log below =
      let (hs, listed, sound, complete) = list_heads_lem d db log in
      rw (replay_control_messages, listed)
        (replay_heads_lem clock db hs log (
          All-map _ _ hs
            (λ x (s : (x.head_id ≡ current_head_in_txn d db x.topic x.origin) × (1 ≤ x.head_id)).
              omega (arith, s.0, below x.topic x.origin))
            sound))
