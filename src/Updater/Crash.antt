-- ===== src/Updater/Crash.antt =====
-- An update that is cut off anywhere, and what comes after it.
use rocket_cat_shell_linux.Base.{
  ℕ, String, string_key, ◌≡◌, ◌≢◌, refl, false, Option, none, some, List, [], ◌∷◌,
}
use rocket_cat_shell_linux.Base.Dict.{Dict, get}
use rocket_cat_shell_linux.Base.Text.{Text}
use rocket_cat_shell_linux.Updater.{
  Node, Marker, garbled, Transaction, Installation, Fate, Ending, returned, raised, killed, Act,
}
use rocket_cat_shell_linux.Updater.Rules.{
  Ends, Does, Returns, attempt-Does, bind-Does, look-Does, effect-Does, pure-Does,
}
use rocket_cat_shell_linux.Updater.Watch.{
  WatchMode, watch_target, watch_rollback, unhealthy_status, stop, conclude, watch_transaction,
}
use rocket_cat_shell_linux.Updater.Restored.{IsLate}
use rocket_cat_shell_linux.Updater.Transact.{
  apply_transaction, recover_transactions, other_effect, is_terminal, is_before_replacement,
}
use rocket_cat_shell_linux.Updater.Saved.{IsManaged, Same}
use rocket_cat_shell_linux.Updater.Recover.{IsRecoverable, late_write, recover_transactions-Does}
use rocket_cat_shell_linux.Updater.Calm.{recover_transactions-Returns}
use rocket_cat_shell_linux.Updater.Phases.{IsUntouched}
use rocket_cat_shell_linux.Updater.Apply.{apply_transaction-Does}

-- What a run leaves, with any fates of its effects.
unfoldable pub after : Act ℕ → List Fate → Installation → Installation
after m fates s = (m fates s).1

-- What may come after an update: a recovery, and a service that is found not to be healthy.
pub data Event : Type 0 where
  recovers : List Fate → Event
  is_unhealthy : WatchMode → List Fate → Event

unfoldable pub events : List Event → Installation → Installation
unfolding after recover_transactions watch_transaction
events [] s = s
events (recovers fates ∷ l) s = events l (after recover_transactions fates s)
events (is_unhealthy w fates ∷ l) s = events l (after (watch_transaction w false) fates s)

after-Does :
    (P R : Installation → Type 0) (m : Act ℕ) (fates : List Fate) (s : Installation)
    → Does Unit P m (λ v. R) R
    → P s
    → R (after m fates s)
unfolding after
after-Does P R m fates s h p = go (m fates s) (h.runs fates s p)
  where
    go : (r : Ending ℕ × Installation × List Fate) → Ends Unit (λ v. R) R fates r → R r.1
    go (returned v, t, l) e = e.0
    go (raised, t, l) e = e.0
    go (killed, t, l) e = e.0

stop-Does :
    (original : Dict String Node) (m0 : Option Marker) (w : WatchMode)
    → Does Unit
        (IsRecoverable original m0)
        (stop w)
        (λ v. IsRecoverable original m0)
        (IsRecoverable original m0)
unfolding stop other_effect
stop-Does original m0 watch_target = effect-Does _ _ (λ s r. r) (λ s cut r. r)
stop-Does original m0 watch_rollback = pure-Does tt (λ s r. r)

watch_transaction-Does :
    (original : Dict String Node) (m0 : Option Marker) (w : WatchMode)
    → Does Unit
        (IsRecoverable original m0)
        (watch_transaction w false)
        (λ v. IsRecoverable original m0)
        (IsRecoverable original m0)
unfolding watch_transaction conclude unhealthy_status is_terminal is_before_replacement
watch_transaction-Does original m0 w =
    attempt-Does (IsRecoverable original m0) (λ s r. r)
      (bind-Does {R = λ (t : Transaction). IsRecoverable original m0}
        (look-Does (λ s. s.transaction) (λ s r. r))
        (λ t.
          bind-Does {R = λ (m : Option Marker). IsRecoverable original m0}
            (look-Does (λ s. s.runtime) (λ s r. r))
            (λ m. bind-Does (late_write original m0 (unhealthy_status w t) (late w t)) (λ written.
              bind-Does (stop-Does original m0 w) (λ stopped. pure-Does 1 (λ s r. r))))))
      (pure-Does 1 (λ s r. r))
  where
    late : (w : WatchMode) (t : Transaction) → IsLate (unhealthy_status w t)
    late watch_target t = (refl, refl)
    late watch_rollback t = (refl, refl)

events-IsRecoverable :
    (original : Dict String Node) (m0 : Option Marker)
    → m0 ≢ some garbled
    → (l : List Event) (s : Installation) → IsRecoverable original m0 s
    → IsRecoverable original m0 (events l s)
unfolding events
events-IsRecoverable original m0 clear [] s w = w
events-IsRecoverable original m0 clear (recovers fates ∷ l) s w =
    events-IsRecoverable original m0 clear l (after recover_transactions fates s) (
      after-Does (IsRecoverable original m0) (IsRecoverable original m0) recover_transactions fates
        s (recover_transactions-Does original m0 clear) w)
events-IsRecoverable original m0 clear (is_unhealthy mode fates ∷ l) s w =
    events-IsRecoverable original m0 clear l (after (watch_transaction mode false) fates s) (
      after-Does (IsRecoverable original m0) (IsRecoverable original m0)
        (watch_transaction mode false) fates s (watch_transaction-Does original m0 mode) w)

-- The disk before the update: there is no backup yet, and the runtime marker is no broken file.
abbrev pub IsBefore : Installation → Type 0
IsBefore s =
    (s.runtime ≢ some garbled)
    × (s.backup.complete ≡ none)
    × (s.backup.files ≡ [])
    × (s.backup.runtime ≡ none)

Returns-put :
    {A : Type 0} (Q R : A → Installation → Type 0) (r : Ending A × Installation × List Fate)
    → ((v : A) (s : Installation) → Q v s → R v s)
    → Returns Q r
    → Returns R r
Returns-put Q R (returned v, s, l) f h = (f v s h.0, h.1)
Returns-put Q R (raised, s, l) f h = h
Returns-put Q R (killed, s, l) f h = h

-- The update is cut off anywhere, or not at all, and any number of recoveries and of health checks that
-- fail come after it and are cut off anywhere; then a recovery is not cut off: it returns, and a managed
-- path has what it had before the update.
pub recover-apply :
    (python : Text) (fates : List Fate) (l : List Event) (s : Installation) (p : String)
    → IsBefore s
    → IsManaged p
    → Returns
        (λ v t. get t.source p ≡ get s.source p)
        (recover_transactions [] (events l (after (apply_transaction python) fates s)))
recover-apply python fates l s p before managed =
    let applied =
      after-Does (IsUntouched s.source s.runtime) (IsRecoverable s.source s.runtime)
        (apply_transaction python) fates s (apply_transaction-Does s.source s.runtime python)
        (refl, refl, before.1, before.2, before.3) in
    Returns-put (λ v. Same s.source s.runtime) (λ v t. get t.source p ≡ get s.source p) _
      (λ v t same. same p managed)
      (recover_transactions-Returns s.source s.runtime before.0 _ (
        events-IsRecoverable s.source s.runtime before.0 l
          (after (apply_transaction python) fates s) applied))
