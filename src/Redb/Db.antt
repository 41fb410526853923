-- ===== src/Redb/Db.antt =====
-- The database, its transactions, and the helpers that the operations share.
use msgbus.Prelude.{ℕ, Option, none, some, ◌==◌, if◌then◌else◌, min, ◌≤◌, arith}
use msgbus.Core.Error.{Result, ok, err}
use msgbus.Core.Message.{Bytes}
use msgbus.Redb.Deps.{Deps}

module _ (d : Deps) where
  -- The tables MESSAGES, HEADS, FIFO_MESSAGES, FIFO_SEQUENCES, TOMBSTONES and PEER_SYNC.
  pub record Db : Type 0 where
    pub messages : d.Table Bytes
    pub heads : d.Table ℕ
    pub fifo_messages : d.Table Bytes
    pub fifo_sequences : d.Table ℕ
    pub tombstones : d.Table Bytes
    pub peer_sync : d.Table Bytes

  -- `RedbStore::open` of a new file: `initialize` opens every table, which creates it.
  unfoldable pub initialize : Db
  initialize = record {
    messages = d.new_table;
    heads = d.new_table;
    fifo_messages = d.new_table;
    fifo_sequences = d.new_table;
    tombstones = d.new_table;
    peer_sync = d.new_table;
  }

  -- A write transaction: its result with the tables that it wrote. `?` leaves it early.
  abbrev pub Txn : Type 0 → Type 0
  Txn A = Result (A × Db)

  -- The end of an operation. A transaction that is dropped without a commit changes nothing.
  unfoldable pub commit : {A : Type 0} → Db → Txn A → Result A × Db
  commit db (ok (a, db')) = (ok a, db')
  commit db (err e) = (err e, db)

-- `.map(|value| decode(value.value())).transpose()`
unfoldable pub transpose_decode :
    {A : Type 0} → (Bytes → Result A) → Option Bytes → Result (Option A)
transpose_decode decode none = ok none
transpose_decode decode (some b) = elim (decode b) [ ok a ↦ ok (some a) | err e ↦ err e ]

unfoldable pub effective_limit : ℕ → ℕ
effective_limit limit = if limit == 0 then 100 else min limit 10_000

pub effective_limit_bounds :
    (limit : ℕ) → (1 ≤ effective_limit limit) × (effective_limit limit ≤ 10_000)
unfolding effective_limit
effective_limit_bounds limit = ground arith
