-- ===== src/Sqlite/Engine.antt =====
-- What the store takes from other crates: the tables and statements of SQLite by way of rusqlite, and
-- serde_json.
use msgbus.Prelude.{ℕ, Bool, List}
use msgbus.Text.{Str}
use msgbus.Core.Error.{MsgbusError}
use msgbus.Core.Node.{NodeId}
use msgbus.Core.Message.{Headers, PeerSyncState, TombstoneRange}
use msgbus.Redb.Deps.{Json}

pub record Engine : Type 1 where
  -- a table of rows of one type
  pub Table : Type 0 → Type 0
  pub new_table : {R : Type 0} → Table R
  -- `SELECT … WHERE`, in the order in which SQLite finds the rows
  pub select : {R : Type 0} → (R → Bool) → Table R → List R
  -- `ORDER BY` an integer column
  pub order_by : {R : Type 0} → (R → ℕ) → List R → List R
  -- `ORDER BY` text columns
  pub order_by_texts : {R : Type 0} → (R → List Str) → List R → List R
  pub insert : {R : Type 0} → R → Table R → Table R
  -- `UPDATE … SET … WHERE`
  pub update : {R : Type 0} → (R → Bool) → (R → R) → Table R → Table R
  -- `DELETE … WHERE`
  pub delete : {R : Type 0} → (R → Bool) → Table R → Table R
  -- the text of the error of an `INSERT` that breaks a key
  pub constraint_text : Str
  -- the text of the error of rusqlite for a column that does not convert
  pub conversion_text : MsgbusError → Str

pub record SqlDeps : Type 1 where
  pub engine : Engine
  pub open engine use *
  pub node_json : Json NodeId
  pub headers_json : Json Headers
  pub peer_json : Json PeerSyncState
  pub range_json : Json TombstoneRange
