-- ===== src/Updater/Tests.antt =====
-- An update that is killed while it replaces, and instances of the theorems about it.
use rocket_cat_shell_linux.Base.{
  ℕ, ◌≡◌, ◌≢◌, refl, string_key, true, false, none, some, List, [], ◌∷◌, ◌++◌, map,
}
use rocket_cat_shell_linux.Base.Dict.{get, put, remove}
use rocket_cat_shell_linux.Updater.{
  managed_paths, Node, file, garbled, prepared, waiting_for_shutdown, Installation, Fate, returned,
  passes, raises, is_killed, pure, throw, look, effect, ◌>>=◌, attempt,
}
use rocket_cat_shell_linux.Updater.Rules.{Returns}
use rocket_cat_shell_linux.Updater.Helper.{
  copy_to_backup, copy_to_source, remove_exact, backup_path, backup_paths, write_presence,
  backup_runtime, write_complete, make_backup_root, backup_all, covers, among, within,
  backup_complete, require_node, require_candidate, copy_node, replace_paths, restore_path,
  restore_paths, restore_runtime, restore_present, ensure_that, restore,
}
use rocket_cat_shell_linux.Updater.Transact.{
  other_effect, write_transaction, update_payload, update, clear_pending, write_runtime, is_ready,
  prepare, target_runtime, announce, mark_target, install_target, apply_body, report,
  report_payload, apply_transaction, is_terminal, is_before_replacement, former_runtime, restore_if,
  fail_early, report_recovery, recover_if, recover_transactions,
}
use rocket_cat_shell_linux.Updater.Crash.{after, recovers, is_unhealthy, events, recover-apply}
use rocket_cat_shell_linux.Updater.Watch.{
  watch_target, watch_transaction, conclude, settle, healthy_status, unhealthy_status, stop,
}
use rocket_cat_shell_linux.Updater.Refused.{undisturbed_recoveries, ready, recover-refused}

program : Unit {0}
unfolding get put remove pure throw look effect ◌>>=◌ attempt copy_to_backup copy_to_source
    remove_exact backup_path backup_paths write_presence backup_runtime write_complete
    make_backup_root backup_all covers among within backup_complete require_node require_candidate
    copy_node replace_paths restore_path restore_paths restore_runtime restore_present ensure_that
    restore other_effect write_transaction update_payload update clear_pending write_runtime
    is_ready prepare target_runtime announce mark_target install_target apply_body report
    report_payload apply_transaction is_terminal is_before_replacement former_runtime restore_if
    fail_early report_recovery recover_if recover_transactions after events watch_transaction
    conclude settle healthy_status unhealthy_status stop
program = tt

abbrev old_license : Node
old_license = file (1 ∷ [])

abbrev new_file : Node
new_file = file (2 ∷ [])

abbrev before : Installation
before = record {
  source = ("LICENSE", old_license) ∷ [];
  candidate = map (λ p. (p, new_file)) managed_paths;
  backup = record { exists = false; files = []; presence = none; runtime = none; complete = none };
  runtime = none;
  pending = true;
  transaction = record {
    transaction_id = 7 ∷ [];
    status = prepared;
    stage = waiting_for_shutdown;
    current_version = 1 ∷ [];
    target_version = 2 ∷ [];
    old_python = 3 ∷ [];
    target_python = [];
    image_version = [];
  };
  payload = none;
}

abbrev few_pass : List Fate
few_pass = passes ∷ passes ∷ passes ∷ passes ∷ passes ∷ passes ∷ passes ∷ passes ∷ []

-- the copy of the second managed path is cut off
abbrev fates : List Fate
fates = few_pass ++ (passes ∷ passes ∷ passes ∷ passes ∷ passes ∷ is_killed (some new_file) ∷ [])

replaced : get (after (apply_transaction (4 ∷ [])) [] before).source "LICENSE" ≡ some new_file
unfolding program
replaced = refl

cut_off :
    get (after (apply_transaction (4 ∷ [])) fates before).source "rocketcat_shell" ≡ some new_file
unfolding program
cut_off = refl

put_back :
    get
      (after recover_transactions [] (after (apply_transaction (4 ∷ [])) fates before)).source
      "rocketcat_shell"
    ≡ none
unfolding program
put_back = refl

no_marker : none ≢ some garbled
no_marker e = absurd cc

license_managed : among "LICENSE" managed_paths ≡ true
unfolding among
license_managed = refl

recover-apply_example :
    Returns {A = ℕ}
      (λ v t. get t.source "LICENSE" ≡ get before.source "LICENSE")
      (recover_transactions [] (
        events
          (is_unhealthy watch_target [] ∷ recovers (passes ∷ raises none ∷ []) ∷ [])
          (after (apply_transaction (4 ∷ [])) fates before)))
recover-apply_example =
    recover-apply (4 ∷ []) fates
      (is_unhealthy watch_target [] ∷ recovers (passes ∷ raises none ∷ []) ∷ []) before "LICENSE"
      (no_marker, refl, refl, refl) license_managed

recover-refused_example :
    ((recover_transactions [] (
        events (undisturbed_recoveries 2) (
          after
            (apply_transaction (4 ∷ []))
            (passes ∷ raises none ∷ [])
            (ready before.transaction before)))).0
      ≡ returned 1)
    × ((recover_transactions [] (
          events (undisturbed_recoveries 2) (
            after
              (apply_transaction (4 ∷ []))
              (passes ∷ raises none ∷ [])
              (ready before.transaction before)))).1.source
        ≡ before.source)
recover-refused_example = recover-refused (4 ∷ []) none 2 before.transaction before refl
