-- ===== src/Server/Sync/Task.antt =====
-- `spawn_peer_sync_with_shutdown`: the task that repeats the pass, as a function of what wakes it.
use msgbus.Prelude.{ℕ, zero, suc, Bool, true, false, Option, none, some, List, [], ◌∷◌, ◌++◌}
use msgbus.Text.{Str}
use msgbus.Core.Error.{Outcome}
use msgbus.Core.Message.{Bytes, TombstoneRange}
use msgbus.Core.Store.{MsgbusStore}
use msgbus.Server.Sync.World.{World}
use msgbus.Server.Sync.Head.{Pass}
use msgbus.Server.Sync.Pass.{PeerSyncConfig, sync_once}

-- the arms of the `select!`: `changed` brings the value of the channel, or nothing if its sender is
-- gone
pub data Wake : Type 0 where
  tick : Wake
  changed : Option Bool → Wake

unfoldable pub stops : Wake → Bool
stops tick = false
stops (changed none) = true
stops (changed (some stop)) = stop

module _ (s : MsgbusStore) (parse : Bytes → Outcome Str TombstoneRange) (w : World) where
  -- an error of a pass is only logged
  unfoldable pub wake : PeerSyncConfig → Wake → Pass s parse w → Pass s parse w
  unfolding sync_once
  wake config tick pass = (sync_once s parse w config pass).1
  wake config (changed value) pass = pass

  unfoldable pub sync_task : PeerSyncConfig → List Wake → Pass s parse w → Pass s parse w
  unfolding wake stops
  sync_task config [] pass = pass
  sync_task config (event ∷ events) pass = elim (stops event) [
    | true ↦ pass
    | false ↦ sync_task config events (wake config event pass)
  ]

  unfoldable pub ticks : ℕ → List Wake
  ticks zero = []
  ticks (suc n) = tick ∷ ticks n

  -- `spawn_peer_sync` drops the sender of the channel when it returns, so `changed` comes without a
  -- value; `early` ticks win against it, and `later` would follow.
  unfoldable pub spawn_peer_sync : PeerSyncConfig → ℕ → List Wake → Pass s parse w → Pass s parse w
  unfolding sync_task ticks
  spawn_peer_sync config early later pass =
      sync_task config (ticks early ++ changed none ∷ later) pass
