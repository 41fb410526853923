-- ===== src/Server/Sync/Reach.antt =====
-- The task of synchronisation over a redb store.
use msgbus.Prelude.{List, [], ◌∷◌, Bool-cases, inl, inr}
use msgbus.Text.{Str}
use msgbus.Core.Error.{Outcome}
use msgbus.Core.Message.{Bytes, TombstoneRange}
use msgbus.Redb.Deps.{Deps}
use msgbus.Redb.Db.{Db}
use msgbus.Redb.Store.{redb_store}
use msgbus.Redb.Reach.{Reach, next, replicate, delete, record_state}
use msgbus.Server.Kept.{Reads64}
use msgbus.Server.Sync.World.{World, Sends64}
use msgbus.Server.Sync.Head.{Pass}
use msgbus.Server.Sync.Pass.{PeerSyncConfig}
use msgbus.Server.Sync.Task.{Wake, tick, changed, stops, wake, sync_task}
use msgbus.Server.Sync.Safe.{Keeps}
use msgbus.Server.Sync.SafePass.{sync_once-Ends}

module _ (d : Deps) where
  pub Reach-Keeps : (start : Db d) → Keeps (redb_store d) (Reach d start)
  Reach-Keeps start = record {
    replicate = λ m db fits before. next before (replicate m fits);
    delete = λ now db t o from to fits before. next before (delete now t o from to fits);
    note = λ db state before. next before (record_state state);
  }

  module _ (parse : Bytes → Outcome Str TombstoneRange) (reads : Reads64 parse) (w : World)
      (sends : Sends64 w) where
    wake-Reach :
        (start : Db d) (config : PeerSyncConfig) (event : Wake) (pass : Pass (redb_store d) parse w)
        → Reach d start pass.0.store
        → Reach d start (wake (redb_store d) parse w config event pass).0.store
    unfolding wake
    wake-Reach start config tick pass before =
        (sync_once-Ends (redb_store d) parse reads w sends (Reach d start) (Reach-Keeps start)
          config pass before).2
    wake-Reach start config (changed value) pass before = before

    -- Whatever peers are configured, whatever they send with heads in the range of u64, and whatever
    -- wakes the task: the database after it can be reached by calls of the operations of the store.
    pub sync_task-Reach :
        (start : Db d) (config : PeerSyncConfig) (events : List Wake)
        (pass : Pass (redb_store d) parse w)
        → Reach d start pass.0.store
        → Reach d start (sync_task (redb_store d) parse w config events pass).0.store
    unfolding sync_task
    sync_task-Reach start config [] pass before = before
    sync_task-Reach start config (event ∷ events) pass before = elim (Bool-cases (stops event)) [
      | inl stopped ↦ rw (stopped, sync_task) before
      | inr woken ↦
          rw (woken, sync_task)
            (sync_task-Reach start config events (wake (redb_store d) parse w config event pass)
              (wake-Reach start config event pass before))
    ]
