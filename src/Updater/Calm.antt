-- ===== src/Updater/Calm.antt =====
-- A recovery that is not cut off puts every managed path back.
use rocket_cat_shell_linux.Base.{
  ℕ, String, ◌≡◌, ◌≢◌, refl, Bool, true, false, Option, some, List, [], inl, inr,
}
use rocket_cat_shell_linux.Base.Dict.{Dict}
use rocket_cat_shell_linux.Updater.{
  Node, Marker, garbled, Transaction, Installation, Act, Fate, Ending, returned, raised, killed,
  pure, look, ◌>>=◌, attempt, caught,
}
use rocket_cat_shell_linux.Updater.Rules.{weaken-Does, Returns, undisturbed}
use rocket_cat_shell_linux.Updater.Helper.{backup_complete}
use rocket_cat_shell_linux.Updater.Transact.{
  is_terminal, is_before_replacement, restore_if, fail_early, report_recovery, recover_if,
  recover_transactions,
}
use rocket_cat_shell_linux.Updater.Saved.{Same}
use rocket_cat_shell_linux.Updater.Recover.{
  IsRecoverable, early-IsWhole, fail_early-Does, restore_if-Does, restore_without-Does, no_both,
}

caught-Returns :
    {A : Type 0} (Q : A → Installation → Type 0) (handler : Act A)
    (r : Ending A × Installation × List Fate)
    → Returns Q r
    → Returns Q (caught handler r)
caught-Returns Q handler (returned v, s, l) h = h
caught-Returns Q handler (raised, s, l) h = absurd h
caught-Returns Q handler (killed, s, l) h = absurd h

module _ (original : Dict String Node) (m0 : Option Marker) (clear : m0 ≢ some garbled) where
  recover_if-Returns :
      (terminal early complete : Bool) (t : Transaction) (s : Installation)
      → IsRecoverable original m0 s
      → is_terminal s.transaction.status ≡ terminal
      → is_before_replacement s.transaction.stage ≡ early
      → backup_complete s.backup ≡ complete
      → Returns {A = ℕ} (λ v. Same original m0) (recover_if terminal early complete t [] s)
  unfolding recover_if pure attempt
  recover_if-Returns true early complete t s (inl u) a b c = (u.1, refl)
  recover_if-Returns true early complete t s (inr (saved, inl same)) a b c = (same, refl)
  recover_if-Returns true early complete t s (inr (saved, inr late)) a b c = absurd cc
  recover_if-Returns false true complete t s w a b c =
      caught-Returns {A = ℕ} (λ v. Same original m0) (report_recovery t) (fail_early t [] s)
        (undisturbed s
          (weaken-Does (λ n. n) (λ s w. w) (λ v s w. w.1) (λ s w. w)
            (fail_early-Does original m0 ⊥ t))
          (early-IsWhole original m0 s a b w))
  recover_if-Returns false false false t s (inl u) a b c =
      caught-Returns {A = ℕ} (λ v. Same original m0) (report_recovery t) (restore_if false t [] s)
        (undisturbed s
          (weaken-Does (λ n. n) (λ s w. w) (λ v s w. w.1) (λ s w. w)
            (restore_without-Does original m0 ⊥ t))
          u)
  recover_if-Returns false false false t s (inr w) a b c = absurd (no_both s c w.0.complete)
  recover_if-Returns false false true t s (inl u) a b c = absurd (no_both s u.0 c)
  recover_if-Returns false false true t s (inr w) a b c =
      caught-Returns {A = ℕ} (λ v. Same original m0) (report_recovery t) (restore_if true t [] s)
        (undisturbed s
          (weaken-Does (λ n. n) (λ s w. w) (λ v s w. w.0.1) (λ s w. w)
            (restore_if-Does original m0 t clear))
          w)

  pub recover_transactions-Returns :
      (s : Installation)
      → IsRecoverable original m0 s
      → Returns {A = ℕ} (λ v. Same original m0) (recover_transactions [] s)
  unfolding recover_transactions look ◌>>=◌
  recover_transactions-Returns s w =
      recover_if-Returns (is_terminal s.transaction.status)
        (is_before_replacement s.transaction.stage) (backup_complete s.backup) s.transaction s w
        refl refl refl
