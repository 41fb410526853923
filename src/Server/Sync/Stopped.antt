-- ===== src/Server/Sync/Stopped.antt =====
-- How long the task of `spawn_peer_sync` runs.
use msgbus.Prelude.{ℕ, zero, suc, ◌≡◌, refl, List}
use msgbus.Text.{Str}
use msgbus.Core.Error.{Outcome}
use msgbus.Core.Message.{Bytes, TombstoneRange}
use msgbus.Core.Store.{MsgbusStore}
use msgbus.Server.Sync.World.{World}
use msgbus.Server.Sync.Head.{Pass}
use msgbus.Server.Sync.Pass.{PeerSyncConfig, sync_once}
use msgbus.Server.Sync.Task.{Wake, stops, wake, sync_task, ticks, spawn_peer_sync}

module _ (s : MsgbusStore) (parse : Bytes → Outcome Str TombstoneRange) (w : World) where
  -- a number of passes, each from where the one before it left
  unfoldable pub passes : PeerSyncConfig → ℕ → Pass s parse w → Pass s parse w
  passes config zero pass = pass
  passes config (suc n) pass = passes config n (sync_once s parse w config pass).1

  -- The task of `spawn_peer_sync` makes just the passes whose ticks come before it notices that the
  -- channel is closed, and nothing that would wake it later has an effect.
  pub spawn_peer_sync-passes :
      (config : PeerSyncConfig) (early : ℕ) (later : List Wake) (pass : Pass s parse w)
      → spawn_peer_sync s parse w config early later pass ≡ passes config early pass
  unfolding spawn_peer_sync passes sync_task ticks wake stops
  spawn_peer_sync-passes config zero later pass = refl
  spawn_peer_sync-passes config (suc n) later pass =
      spawn_peer_sync-passes config n later (sync_once s parse w config pass).1
