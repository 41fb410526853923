-- ===== src/Redb/Log/Fresh.antt =====
-- The log of a new database.
use msgbus.Prelude.{ℕ, ◌≡◌, arith}
use msgbus.Core.Name.{Topic}
use msgbus.Core.Node.{NodeId}
use msgbus.Redb.Deps.{Deps}
use msgbus.Redb.Tables.{get-new_table}
use msgbus.Redb.Keys.{head_key}
use msgbus.Redb.Db.{initialize}
use msgbus.Redb.Messages.{current_head_in_txn}
use msgbus.Redb.Log.{IsLog}

module _ (d : Deps) where
  head-initialize : (t : Topic) (o : NodeId) → current_head_in_txn d (initialize d) t o ≡ 0
  unfolding current_head_in_txn initialize
  head-initialize t o = rw (get-new_table d.tables {V = ℕ} (head_key d.base64 t o))

  -- A new database meets the invariant.
  pub initialize-IsLog : IsLog d (initialize d)
  unfolding initialize
  initialize-IsLog = record {
    bounded = λ t o. omega (arith, head-initialize t o);
    stored = λ t o i lo hi. absurd (omega (arith, head-initialize t o));
    placed = λ k b h. absurd (cc (get-new_table d.tables {V = _} k));
    headed = λ k b h. absurd (cc (get-new_table d.tables {V = _} k));
    readable = λ k b h. absurd (cc (get-new_table d.tables {V = _} k));
  }
