-- ===== src/Updater/Refused.antt =====
-- An update that fails before it has begun.
use rocket_cat_shell_linux.Base.{
  ℕ, zero, suc, String, ◌≡◌, refl, Bool, true, false, Option, none, List, [], ◌∷◌,
}
use rocket_cat_shell_linux.Base.Dict.{Dict}
use rocket_cat_shell_linux.Base.Text.{Text}
use rocket_cat_shell_linux.Updater.{
  Node, prepared, waiting_for_shutdown, Transaction, Installation, Fate, passes, raises, Ending,
  returned, pure, throw, look, effect, ◌>>=◌, attempt,
}
use rocket_cat_shell_linux.Updater.Helper.{backup_complete, ensure_that}
use rocket_cat_shell_linux.Updater.Transact.{
  other_effect, write_transaction, is_ready, prepare, apply_body, report, report_payload,
  apply_transaction, is_terminal, is_before_replacement, restore_if, recover_if,
  recover_transactions,
}
use rocket_cat_shell_linux.Updater.Apply.{not_complete}
use rocket_cat_shell_linux.Updater.Crash.{after, Event, recovers, events}

-- What a recovery takes for a replacement that it cannot undo, although nothing is replaced.
abbrev IsStuck : Dict String Node → Installation → Type 0
IsStuck original s =
    (is_terminal s.transaction.status ≡ false)
    × (is_before_replacement s.transaction.stage ≡ false)
    × (backup_complete s.backup ≡ false)
    × (s.source ≡ original)

Refuses : Dict String Node → Ending ℕ × Installation × List Fate → Type 0
Refuses original r = (r.0 ≡ returned 1) × IsStuck original r.1

recover_if-Refuses :
    (original : Dict String Node) (terminal early complete : Bool) (t : Transaction)
    (s : Installation)
    → terminal ≡ false
    → early ≡ false
    → complete ≡ false
    → backup_complete s.backup ≡ false
    → s.source ≡ original
    → Refuses original (recover_if terminal early complete t [] s)
unfolding Refuses recover_if restore_if attempt write_transaction other_effect effect pure ◌>>=◌
    is_terminal is_before_replacement
recover_if-Refuses original false false false t s a b c d e = (refl, (refl, refl, d, e))
recover_if-Refuses original false false true t s a b c d e = absurd cc
recover_if-Refuses original false true complete t s a b c d e = absurd cc
recover_if-Refuses original true early complete t s a b c d e = absurd cc

recover_transactions-Refuses :
    (original : Dict String Node) (s : Installation)
    → IsStuck original s
    → Refuses original (recover_transactions [] s)
unfolding recover_transactions look ◌>>=◌
recover_transactions-Refuses original s w =
    recover_if-Refuses original (is_terminal s.transaction.status)
      (is_before_replacement s.transaction.stage) (backup_complete s.backup) s.transaction s w.0 w.1
      w.2 w.2 w.3

-- Recoveries that nothing disturbs.
abbrev pub undisturbed_recoveries : ℕ → List Event
undisturbed_recoveries zero = []
undisturbed_recoveries (suc n) = recovers [] ∷ undisturbed_recoveries n

events-IsStuck :
    (original : Dict String Node) (n : ℕ) (s : Installation)
    → IsStuck original s
    → IsStuck original (events (undisturbed_recoveries n) s)
unfolding events after Refuses
events-IsStuck original zero s w = w
events-IsStuck original (suc n) s w =
    events-IsStuck original n (after recover_transactions [] s)
      (recover_transactions-Refuses original s w).1

-- A transaction that is ready to be applied.
abbrev pub ready : Transaction → Installation → Installation
ready t s = record s { transaction = record t { status = prepared; stage = waiting_for_shutdown } }

apply-IsStuck :
    (python : Text) (cut : Option Node) (t : Transaction) (s : Installation)
    → s.backup.complete ≡ none
    → IsStuck s.source (after (apply_transaction python) (passes ∷ raises cut ∷ []) (ready t s))
unfolding after apply_transaction apply_body prepare attempt look effect pure throw ◌>>=◌
    other_effect ensure_that is_ready report_payload report write_transaction is_terminal
    is_before_replacement
apply-IsStuck python cut t s h = (refl, refl, not_complete s.backup h, refl)

-- If the check of the candidate fails when there is no backup, every recovery that follows answers 1,
-- however often it is repeated, although the installation is as it was.
pub recover-refused :
    (python : Text) (cut : Option Node) (n : ℕ) (t : Transaction) (s : Installation)
    → s.backup.complete ≡ none
    → ((recover_transactions [] (
          events
            (undisturbed_recoveries n)
            (after (apply_transaction python) (passes ∷ raises cut ∷ []) (ready t s)))).0
        ≡ returned 1)
      × ((recover_transactions [] (
            events
              (undisturbed_recoveries n)
              (after (apply_transaction python) (passes ∷ raises cut ∷ []) (ready t s)))).1.source
          ≡ s.source)
unfolding Refuses
recover-refused python cut n t s h =
    let refuses = recover_transactions-Refuses s.source _ (
      events-IsStuck s.source n
        (after (apply_transaction python) (passes ∷ raises cut ∷ []) (ready t s))
        (apply-IsStuck python cut t s h)) in
    (refuses.0, refuses.1.3)
