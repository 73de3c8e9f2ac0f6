-- ===== src/Updater/Transact.antt =====
-- tools/update_helper.py: `apply_transaction`, and `recover_transactions`, which runs before the
-- application starts. There is one transaction, and reading does not fail. What changes none of the modelled files, the checks of
-- the context and of the candidate, the dependencies, the watchdog and the start, is `other_effect`.
use rocket_cat_shell_linux.Base.{ℕ, Bool, true, false, Option, none, some}
use rocket_cat_shell_linux.Base.Text.{Text, or_else}
use rocket_cat_shell_linux.Updater.{
  managed_paths, Runtime, target_monitoring, rollback_monitoring, Marker, marker, garbled,
  UpdateStatus, prepared, applying, monitoring, completed, failed_status, rolling_back, rolled_back,
  recovery_required, Stage, prepared_stage, waiting_for_shutdown, preparing_dependencies,
  backing_up, backup_done, replacing, starting_target, monitoring_target,
  apply_failed_before_replacement, apply_interrupted, interrupted_before_replacement,
  backup_incomplete, restoring_backup, monitoring_rollback, restore_failed, Transaction, Act, pure,
  throw, look, ◌>>=◌, attempt, atomic,
}
use rocket_cat_shell_linux.Updater.Helper.{
  backup_all, backup_complete, require_candidate, replace_paths, ensure_that, restore,
}

unfoldable pub other_effect : Act Unit
other_effect = atomic (λ s. s)

-- `_update_transaction` on the disk only, and with the result held as `payload`.
unfoldable pub write_transaction : Transaction → Act Unit
write_transaction t = atomic (λ s. record s { transaction = t })

unfoldable pub update_payload : (Transaction → Transaction) → Option Transaction → Act Unit
unfolding throw
update_payload change none = throw
update_payload change (some t) =
    atomic (λ s. record s { transaction = change t; payload = some (change t) })

unfoldable pub update : (Transaction → Transaction) → Act Unit
unfolding look ◌>>=◌ update_payload
update change = do payload ← look (λ s. s.payload); update_payload change payload

unfoldable pub clear_pending : Act Unit
clear_pending = atomic (λ s. record s { pending = false })

unfoldable pub write_runtime : Runtime → Act Unit
write_runtime r = atomic (λ s. record s { runtime = some (marker r) })

unfoldable pub is_ready : UpdateStatus → Stage → Bool
is_ready prepared waiting_for_shutdown = true
is_ready _ _ = false

-- Up to the backup.
unfoldable pub prepare : Text → Act Unit
unfolding look ◌>>=◌ ensure_that is_ready other_effect update
prepare python = do
  context ← atomic (λ s. record s { payload = some s.transaction })
  t ← look (λ s. s.transaction)
  ready ← ensure_that (is_ready t.status t.stage)
  valid ← other_effect
  preparing ← update (λ u. record u { status = applying; stage = preparing_dependencies })
  dependencies ← other_effect
  update (λ u. record u { stage = backing_up; target_python = python })

unfoldable pub target_runtime : Transaction → Runtime
target_runtime t = record {
  runtime_version = t.target_version;
  python = t.target_python;
  image_version = or_else t.image_version t.current_version;
  active_transaction = t.transaction_id;
  mode = target_monitoring;
}

-- `_update_transaction` whose result is not held.
unfoldable pub announce : Option Transaction → Act Unit
unfolding throw write_transaction
announce none = throw
announce (some t) = write_transaction (record t { status = monitoring; stage = monitoring_target })

unfoldable pub mark_target : Option Transaction → Act Unit
unfolding throw write_runtime
mark_target none = throw
mark_target (some t) = write_runtime (target_runtime t)

-- From the backup on.
unfoldable pub install_target : Act ℕ
unfolding pure look ◌>>=◌ update require_candidate replace_paths mark_target clear_pending
    other_effect announce
install_target = do
  saved ← update (λ u. record u { stage = backup_done })
  begun ← update (λ u. record u { stage = replacing })
  candidate ← require_candidate managed_paths
  replaced ← replace_paths managed_paths
  payload ← look (λ s. s.payload)
  marked ← mark_target payload
  cleared ← clear_pending
  starting ← update (λ u. record u { status = monitoring; stage = starting_target })
  spawned ← other_effect
  held ← look (λ s. s.payload)
  announced ← announce held
  started ← other_effect
  pure 0

unfoldable pub apply_body : Text → Act ℕ
unfolding ◌>>=◌ prepare backup_all install_target
apply_body python = do ready ← prepare python; saved ← backup_all; install_target

-- What the handler writes, by the stage it holds.
unfoldable pub report : Stage → Transaction → Act ℕ
unfolding pure ◌>>=◌ clear_pending write_transaction
report preparing_dependencies t = do
  cleared ← clear_pending
  written ←
      write_transaction
        (record t { status = failed_status; stage = apply_failed_before_replacement })
  pure 1
report backing_up t = do
  cleared ← clear_pending
  written ←
      write_transaction
        (record t { status = failed_status; stage = apply_failed_before_replacement })
  pure 1
report _ t = do
  written ← write_transaction (record t { status = recovery_required; stage = apply_interrupted })
  pure 1

unfoldable pub report_payload : Option Transaction → Act ℕ
unfolding pure attempt report
report_payload none = pure 1
report_payload (some t) = attempt (report t.stage t) (pure 1)

-- `apply_transaction`
unfoldable pub apply_transaction : Text → Act ℕ
unfolding look ◌>>=◌ attempt apply_body report_payload
apply_transaction python =
    attempt (apply_body python) (do payload ← look (λ s. s.payload); report_payload payload)

unfoldable pub is_terminal : UpdateStatus → Bool
is_terminal completed = true
is_terminal failed_status = true
is_terminal rolled_back = true
is_terminal _ = false

unfoldable pub is_before_replacement : Stage → Bool
is_before_replacement prepared_stage = true
is_before_replacement waiting_for_shutdown = true
is_before_replacement preparing_dependencies = true
is_before_replacement backing_up = true
is_before_replacement apply_failed_before_replacement = true
is_before_replacement _ = false

-- The interpreter and the image of a marker that was restored.
unfoldable pub former_runtime : Transaction → Option Marker → Act Runtime
unfolding pure throw
former_runtime t (some garbled) = throw
former_runtime t none = pure (record {
  runtime_version = t.current_version;
  python = t.old_python;
  image_version = or_else t.image_version t.current_version;
  active_transaction = t.transaction_id;
  mode = rollback_monitoring;
})
former_runtime t (some (marker r)) = pure (record {
  runtime_version = t.current_version;
  python = or_else r.python t.old_python;
  image_version = or_else r.image_version (or_else t.image_version t.current_version);
  active_transaction = t.transaction_id;
  mode = rollback_monitoring;
})

-- `_restore_for_recovery`, by whether the backup is complete; 0 stands for `True`.
unfoldable pub restore_if : Bool → Transaction → Act ℕ
unfolding pure look ◌>>=◌ write_transaction restore former_runtime write_runtime clear_pending
    other_effect
restore_if false t = do
  context ← other_effect
  written ← write_transaction (record t { status = recovery_required; stage = backup_incomplete })
  pure 1
restore_if true t = do
  context ← other_effect
  begun ← write_transaction (record t { status = rolling_back; stage = restoring_backup })
  restored ← restore
  marked ← look (λ s. s.runtime)
  runtime ← former_runtime t marked
  written ← write_runtime runtime
  cleared ← clear_pending
  watched ← write_transaction (record t { status = rolling_back; stage = monitoring_rollback })
  spawned ← other_effect
  pure 0

unfoldable pub fail_early : Transaction → Act ℕ
unfolding pure ◌>>=◌ clear_pending write_transaction
fail_early t = do
  cleared ← clear_pending
  written ←
      write_transaction
        (record t { status = failed_status; stage = interrupted_before_replacement })
  pure 0

unfoldable pub report_recovery : Transaction → Act ℕ
unfolding pure ◌>>=◌ attempt write_transaction
report_recovery t =
    attempt
      (do
        written ←
            write_transaction (record t { status = recovery_required; stage = restore_failed })
        pure 1)
      (pure 1)

-- `recover_transactions`, by whether the transaction is over and whether it stopped before the replacement.
unfoldable pub recover_if : Bool → Bool → Bool → Transaction → Act ℕ
unfolding pure attempt fail_early restore_if report_recovery
recover_if true early complete t = pure 0
recover_if false true complete t = attempt (fail_early t) (report_recovery t)
recover_if false false complete t = attempt (restore_if complete t) (report_recovery t)

unfoldable pub recover_transactions : Act ℕ
unfolding look ◌>>=◌ is_terminal is_before_replacement backup_complete recover_if
recover_transactions = do
  t ← look (λ s. s.transaction)
  backup ← look (λ s. s.backup)
  recover_if (is_terminal t.status) (is_before_replacement t.stage) (backup_complete backup) t
