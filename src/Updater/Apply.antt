-- ===== src/Updater/Apply.antt =====
-- `apply_transaction` leaves a state that can be recovered, wherever it is cut off.
use rocket_cat_shell_linux.Base.{
  ℕ, String, string_key, ◌≡◌, refl, ap, true, false, Option, none, some, inl, inr,
}
use rocket_cat_shell_linux.Base.Dict.{Dict, get}
use rocket_cat_shell_linux.Base.Text.{Text}
use rocket_cat_shell_linux.Updater.{
  Node, Marker, failed_status, recovery_required, Stage, preparing_dependencies, backing_up,
  prepared_stage, waiting_for_shutdown, backup_done, replacing, starting_target, monitoring_target,
  apply_failed_before_replacement, apply_interrupted, interrupted_before_replacement,
  backup_incomplete, restoring_backup, monitoring_rollback, restore_failed, other_stage,
  completed_stage, rolled_back_stage, target_health_failed, rollback_health_failed, Transaction,
  Backup, Installation, pure, ◌>>=◌,
}
use rocket_cat_shell_linux.Updater.Rules.{
  Does, pure-Does, look-Does, effect-Does, bind-Does, attempt-Does, weaken-Does, given-Does,
  exists-Does,
}
use rocket_cat_shell_linux.Updater.Helper.{backup_all, backup_complete}
use rocket_cat_shell_linux.Updater.Transact.{
  write_transaction, clear_pending, apply_body, report, report_payload, apply_transaction,
  is_terminal, is_before_replacement,
}
use rocket_cat_shell_linux.Updater.Saved.{Same}
use rocket_cat_shell_linux.Updater.Stored.{IsFresh, backup_all-Does}
use rocket_cat_shell_linux.Updater.Recover.{
  IsRecoverable, IsWhole, IsWhole-IsRecoverable, late_write,
}
use rocket_cat_shell_linux.Updater.Payload.{Holds, IsLive}
use rocket_cat_shell_linux.Updater.Phases.{
  IsUntouched, IsKept, IsSafe, prepare-Does, install_target-Does,
}

pub not_complete : (b : Backup) → b.complete ≡ none → backup_complete b ≡ false
unfolding backup_complete
not_complete b e = ap (λ c. backup_complete (record b { complete = c })) e

module _ (original : Dict String Node) (m0 : Option Marker) where
  -- Nothing is replaced, and there is no complete backup.
  clean-IsSafe :
      (s : Installation) → s.source ≡ original → s.backup.complete ≡ none → IsSafe original m0 s
  clean-IsSafe s e c =
      let same : Same original m0 s = λ p m. ap (λ d. get d p) e in
      (inl (not_complete s.backup c, same), λ t f b. same)

  backup_held :
      Does Unit
        (λ s. IsUntouched original m0 s × Holds IsLive s)
        backup_all
        (λ v s. IsKept original m0 s × Holds IsLive s)
        (IsSafe original m0)
  backup_held =
      weaken-Does {P = λ s. (t : Transaction) × (IsFresh original m0 (some t) s × IsLive t)}
        (λ n. n) (λ s w. (w.1.0, (((w.0.0, w.0.1, w.0.2, w.1.1), w.0.3, w.0.4), w.1.2)))
        (λ v s w. w) (λ s w. w)
        (exists-Does (λ t. given-Does (λ live.
          weaken-Does (λ n. n) (λ s w. w) (λ v s w. ((w.0, w.1), (t, w.2, live)))
            (λ s w. clean-IsSafe s w.0 w.2) (backup_all-Does original m0 (some t)))))

  apply_body-Does :
      (python : Text)
      → Does Unit
          (IsUntouched original m0)
          (apply_body python)
          (λ v. IsSafe original m0)
          (IsSafe original m0)
  unfolding apply_body
  apply_body-Does python =
      bind-Does
        (weaken-Does (λ n. n) (λ s w. w) (λ v s w. w) (λ s w. clean-IsSafe s w.0 w.2)
          (prepare-Does original m0 python))
        (λ ready. bind-Does backup_held (λ saved. install_target-Does original m0))

  -- What the handler does of a stage before the replacement, and of any other.
  early_report :
      (t : Transaction) (stage : Stage)
      → Does Unit
          (IsWhole original m0)
          (clear_pending >>= λ c.
            write_transaction (record t { status = failed_status; stage = stage }) >>= λ w.
            pure {A = ℕ} 1)
          (λ v. IsRecoverable original m0)
          (IsRecoverable original m0)
  unfolding clear_pending write_transaction
  early_report t stage =
      weaken-Does (λ n. n) (λ s w. w) (λ v. IsWhole-IsRecoverable original m0)
        (IsWhole-IsRecoverable original m0)
        (bind-Does {R = λ v. IsWhole original m0} (effect-Does _ _ (λ s w. w) (λ s cut w. w)) (λ v.
          bind-Does {R = λ v. IsWhole original m0} (effect-Does _ _ (λ s w. w) (λ s cut w. w))
            (λ u. pure-Does 1 (λ s w. w))))

  late_report :
      (t : Transaction)
      → Does Unit
          (IsRecoverable original m0)
          (write_transaction (record t { status = recovery_required; stage = apply_interrupted })
            >>= λ w. pure {A = ℕ} 1)
          (λ v. IsRecoverable original m0)
          (IsRecoverable original m0)
  unfolding is_terminal is_before_replacement
  late_report t =
      bind-Does
        (late_write original m0 (record t { status = recovery_required; stage = apply_interrupted })
          (refl, refl))
        (λ v. pure-Does 1 (λ s w. w))

  -- A state that can be recovered and, if the stage is one before the replacement, has the old paths.
  Reports : Stage → Installation → Type 0
  Reports stage s =
      IsRecoverable original m0 s × (is_before_replacement stage ≡ true → Same original m0 s)

  whole :
      (s : Installation) → IsRecoverable original m0 s → Same original m0 s → IsWhole original m0 s
  whole s r same = (elim r [ inl u ↦ inl u.0 | inr b ↦ inr b.0 ], same)

  report-Does :
      (stage : Stage) (t : Transaction)
      → Does Unit
          (Reports stage)
          (report stage t)
          (λ v. IsRecoverable original m0)
          (IsRecoverable original m0)
  unfolding report Reports is_before_replacement
  report-Does preparing_dependencies t =
      weaken-Does (λ n. n) (λ s w. whole s w.0 (w.1 refl)) (λ v s w. w) (λ s w. w)
        (early_report t apply_failed_before_replacement)
  report-Does backing_up t =
      weaken-Does (λ n. n) (λ s w. whole s w.0 (w.1 refl)) (λ v s w. w) (λ s w. w)
        (early_report t apply_failed_before_replacement)
  report-Does prepared_stage t =
      weaken-Does (λ n. n) (λ s w. w.0) (λ v s w. w) (λ s w. w) (late_report t)
  report-Does waiting_for_shutdown t =
      weaken-Does (λ n. n) (λ s w. w.0) (λ v s w. w) (λ s w. w) (late_report t)
  report-Does backup_done t =
      weaken-Does (λ n. n) (λ s w. w.0) (λ v s w. w) (λ s w. w) (late_report t)
  report-Does replacing t =
      weaken-Does (λ n. n) (λ s w. w.0) (λ v s w. w) (λ s w. w) (late_report t)
  report-Does starting_target t =
      weaken-Does (λ n. n) (λ s w. w.0) (λ v s w. w) (λ s w. w) (late_report t)
  report-Does monitoring_target t =
      weaken-Does (λ n. n) (λ s w. w.0) (λ v s w. w) (λ s w. w) (late_report t)
  report-Does apply_failed_before_replacement t =
      weaken-Does (λ n. n) (λ s w. w.0) (λ v s w. w) (λ s w. w) (late_report t)
  report-Does apply_interrupted t =
      weaken-Does (λ n. n) (λ s w. w.0) (λ v s w. w) (λ s w. w) (late_report t)
  report-Does interrupted_before_replacement t =
      weaken-Does (λ n. n) (λ s w. w.0) (λ v s w. w) (λ s w. w) (late_report t)
  report-Does backup_incomplete t =
      weaken-Does (λ n. n) (λ s w. w.0) (λ v s w. w) (λ s w. w) (late_report t)
  report-Does restoring_backup t =
      weaken-Does (λ n. n) (λ s w. w.0) (λ v s w. w) (λ s w. w) (late_report t)
  report-Does monitoring_rollback t =
      weaken-Does (λ n. n) (λ s w. w.0) (λ v s w. w) (λ s w. w) (late_report t)
  report-Does restore_failed t =
      weaken-Does (λ n. n) (λ s w. w.0) (λ v s w. w) (λ s w. w) (late_report t)
  report-Does other_stage t =
      weaken-Does (λ n. n) (λ s w. w.0) (λ v s w. w) (λ s w. w) (late_report t)
  report-Does completed_stage t =
      weaken-Does (λ n. n) (λ s w. w.0) (λ v s w. w) (λ s w. w) (late_report t)
  report-Does rolled_back_stage t =
      weaken-Does (λ n. n) (λ s w. w.0) (λ v s w. w) (λ s w. w) (late_report t)
  report-Does target_health_failed t =
      weaken-Does (λ n. n) (λ s w. w.0) (λ v s w. w) (λ s w. w) (late_report t)
  report-Does rollback_health_failed t =
      weaken-Does (λ n. n) (λ s w. w.0) (λ v s w. w) (λ s w. w) (late_report t)

  report_payload-Does :
      (o : Option Transaction)
      → Does Unit
          (λ s. IsSafe original m0 s × (s.payload ≡ o))
          (report_payload o)
          (λ v. IsRecoverable original m0)
          (IsRecoverable original m0)
  unfolding report_payload Reports
  report_payload-Does none = pure-Does 1 (λ s w. w.0.0)
  report_payload-Does (some t) =
      attempt-Does (IsRecoverable original m0) (λ s w. w)
        (weaken-Does (λ n. n) (λ s w. (w.0.0, w.0.1 t w.1)) (λ v s w. w) (λ s w. w)
          (report-Does t.stage t))
        (pure-Does 1 (λ s w. w))

  pub apply_transaction-Does :
      (python : Text)
      → Does Unit
          (IsUntouched original m0)
          (apply_transaction python)
          (λ v. IsRecoverable original m0)
          (IsRecoverable original m0)
  unfolding apply_transaction
  apply_transaction-Does python =
      attempt-Does (IsSafe original m0) (λ s w. w.0)
        (weaken-Does (λ n. n) (λ s w. w) (λ v s w. w.0) (λ s w. w) (apply_body-Does python))
        (bind-Does {R = λ o s. IsSafe original m0 s × (s.payload ≡ o)}
          (look-Does (λ s. s.payload) (λ s w. (w, refl))) (λ o. report_payload-Does o))
