-- ===== src/Updater/Watch.antt =====
-- tools/update_helper.py: `watch_transaction`, the process that waits for the health of the service, and
-- marks the transaction. What `_health_matches` answers is a parameter.
use rocket_cat_shell_linux.Base.{ℕ, Bool, true, false, Option, none, some, []}
use rocket_cat_shell_linux.Updater.{
  active, Marker, marker, garbled, completed, rolled_back, rollback_pending, recovery_required,
  completed_stage, rolled_back_stage, target_health_failed, rollback_health_failed, Transaction,
  Act, pure, throw, look, ◌>>=◌, attempt,
}
use rocket_cat_shell_linux.Updater.Transact.{write_transaction, write_runtime, other_effect}

-- `mode`, of the process.
pub data WatchMode : Type 0 where
  watch_target watch_rollback : WatchMode

unfoldable pub healthy_status : WatchMode → Transaction → Transaction
healthy_status watch_target t = record t { status = completed; stage = completed_stage }
healthy_status watch_rollback t = record t { status = rolled_back; stage = rolled_back_stage }

unfoldable pub unhealthy_status : WatchMode → Transaction → Transaction
unhealthy_status watch_target t = record t {
  status = rollback_pending;
  stage = target_health_failed;
}
unhealthy_status watch_rollback t = record t {
  status = recovery_required;
  stage = rollback_health_failed;
}

-- The runtime marker, without the transaction.
unfoldable pub settle : Option Marker → Act Unit
unfolding throw write_runtime
settle none = throw
settle (some garbled) = throw
settle (some (marker r)) = write_runtime (record r { active_transaction = []; mode = active })

-- The signals to the container's first process.
unfoldable pub stop : WatchMode → Act Unit
unfolding pure other_effect
stop watch_target = other_effect
stop watch_rollback = pure tt

-- By the answer of `_health_matches`.
unfoldable pub conclude : WatchMode → Bool → Transaction → Option Marker → Act ℕ
unfolding pure ◌>>=◌ settle write_transaction healthy_status unhealthy_status stop
conclude w true t m = do
  settled ← settle m
  written ← write_transaction (healthy_status w t)
  pure 0
conclude w false t m = do
  written ← write_transaction (unhealthy_status w t)
  stopped ← stop w
  pure 1

-- `watch_transaction`
unfoldable pub watch_transaction : WatchMode → Bool → Act ℕ
unfolding pure look ◌>>=◌ attempt conclude
watch_transaction w healthy =
    attempt (do t ← look (λ s. s.transaction); m ← look (λ s. s.runtime); conclude w healthy t m)
      (pure 1)
