-- ===== src/Updater/Recover.antt =====
-- `recover_transactions` keeps what a recovery needs wherever it is cut off, and puts the managed paths
-- back when it is not.
use rocket_cat_shell_linux.Base.{
  String, ◌≡◌, ◌≢◌, refl, sym, ap, ◌∙◌, Bool, true, false, Option, none, some, ◌⊎◌, inl, inr,
}
use rocket_cat_shell_linux.Base.Dict.{Dict}
use rocket_cat_shell_linux.Updater.{
  Node, Runtime, Marker, marker, garbled, rolling_back, recovery_required, restoring_backup,
  monitoring_rollback, restore_failed, Transaction, Installation,
}
use rocket_cat_shell_linux.Updater.Rules.{
  Does, pure-Does, look-Does, effect-Does, bind-Does, attempt-Does, weaken-Does, given-Does,
}
use rocket_cat_shell_linux.Updater.Helper.{backup_complete}
use rocket_cat_shell_linux.Updater.Transact.{
  write_transaction, clear_pending, write_runtime, other_effect, is_terminal, is_before_replacement,
  former_runtime, restore_if, fail_early, report_recovery, recover_if, recover_transactions,
}
use rocket_cat_shell_linux.Updater.Saved.{Same, IsSaved}
use rocket_cat_shell_linux.Updater.Restored.{IsLate, IsHeld, restore-Does}

pub no_both :
    (s : Installation) → backup_complete s.backup ≡ false → backup_complete s.backup ≡ true → ⊥
no_both s a b = absurd cc

module _ (original : Dict String Node) (m0 : Option Marker) where
  -- No complete backup, and the managed paths have what they had; or the complete backup of them, and they
  -- have what they had unless the transaction says that the replacement may have begun.
  abbrev pub IsUnsaved : Installation → Type 0
  IsUnsaved s = (backup_complete s.backup ≡ false) × Same original m0 s

  abbrev pub IsBacked : Installation → Type 0
  IsBacked s = IsSaved original m0 s.backup × (Same original m0 s ⊎ IsLate s.transaction)

  abbrev pub IsRecoverable : Installation → Type 0
  IsRecoverable s = IsUnsaved s ⊎ IsBacked s

  abbrev pub IsRestored : Installation → Type 0
  IsRestored s = IsHeld original m0 s × Same original m0 s

  IsHeld-IsBacked : (s : Installation) → IsHeld original m0 s → IsBacked s
  IsHeld-IsBacked s h = (h.0, inr h.1)

  former_runtime-Does :
      (t : Transaction) (m : Option Marker)
      → m ≢ some garbled
      → Does ⊥ IsRestored (former_runtime t m) (λ r. IsRestored) IsBacked
  unfolding former_runtime
  former_runtime-Does t none h = pure-Does _ (λ s w. w)
  former_runtime-Does t (some (marker r)) h = pure-Does _ (λ s w. w)
  former_runtime-Does t (some garbled) h = absurd (h refl)

  -- What follows the restoring.
  write_runtime-Does :
      (r : Runtime) → Does ⊥ IsRestored (write_runtime r) (λ v. IsRestored) IsBacked
  unfolding write_runtime
  write_runtime-Does r = effect-Does _ _ (λ s w. w) (λ s cut w. IsHeld-IsBacked s w.0)

  clear_pending-Does : Does ⊥ IsRestored clear_pending (λ v. IsRestored) IsBacked
  unfolding clear_pending
  clear_pending-Does = effect-Does _ _ (λ s w. w) (λ s cut w. IsHeld-IsBacked s w.0)

  other_effect-Does : Does ⊥ IsRestored other_effect (λ v. IsRestored) IsBacked
  unfolding other_effect
  other_effect-Does = effect-Does _ _ (λ s w. w) (λ s cut w. IsHeld-IsBacked s w.0)

  watched-Does :
      (t : Transaction)
      → IsLate t
      → Does ⊥ IsRestored (write_transaction t) (λ v. IsRestored) IsBacked
  unfolding write_transaction
  watched-Does t late =
      effect-Does _ _ (λ s w. ((w.0.0, late), w.1)) (λ s cut w. IsHeld-IsBacked s w.0)

  context-Does : Does ⊥ IsBacked other_effect (λ v. IsBacked) IsBacked
  unfolding other_effect
  context-Does = effect-Does _ _ (λ s w. w) (λ s cut w. w)

  begun-Does :
      (t : Transaction)
      → IsLate t
      → Does ⊥ IsBacked (write_transaction t) (λ v. IsHeld original m0) IsBacked
  unfolding write_transaction
  begun-Does t late = effect-Does _ _ (λ s w. (w.0, late)) (λ s cut w. w)

  pub restore_if-Does :
      (t : Transaction)
      → m0 ≢ some garbled
      → Does ⊥ IsBacked (restore_if true t) (λ v s. IsRestored s × (v ≡ 0)) IsBacked
  unfolding restore_if is_terminal is_before_replacement
  restore_if-Does t clear = bind-Does context-Does (λ context.
      bind-Does
        (begun-Does (record t { status = rolling_back; stage = restoring_backup }) (refl, refl))
        (λ begun.
          bind-Does
            (weaken-Does (λ n. n) (λ s w. w) (λ v s w. w) IsHeld-IsBacked
              (restore-Does original m0))
            (λ restored.
              bind-Does {R = λ m s. IsRestored s × (m ≡ m0)}
                (look-Does _ (λ s w. ((w.0, w.1), w.2)))
                (λ m. given-Does (λ e.
                  bind-Does (former_runtime-Does t m (λ g. clear (sym e ∙ g))) (λ r.
                    bind-Does (write_runtime-Does r) (λ written.
                      bind-Does clear_pending-Does (λ cleared.
                        bind-Does
                          (watched-Does
                            (record t { status = rolling_back; stage = monitoring_rollback })
                            (refl, refl))
                          (λ watched.
                            bind-Does other_effect-Does
                              (λ spawned. pure-Does 0 (λ s w. (w, refl))))))))))))

  pub restore_without-Does :
      (N : Type 0) (t : Transaction)
      → Does N IsUnsaved (restore_if false t) (λ v. IsUnsaved) IsUnsaved
  unfolding restore_if write_transaction other_effect
  restore_without-Does N t =
      bind-Does {R = λ v. IsUnsaved} (effect-Does _ _ (λ s w. w) (λ s cut w. w)) (λ c.
        bind-Does {R = λ v. IsUnsaved} (effect-Does _ _ (λ s w. w) (λ s cut w. w))
          (λ v. pure-Does 1 (λ s w. w)))

  -- Nothing was replaced.
  abbrev pub IsWhole : Installation → Type 0
  IsWhole s =
      ((backup_complete s.backup ≡ false) ⊎ IsSaved original m0 s.backup) × Same original m0 s

  pub IsWhole-IsRecoverable : (s : Installation) → IsWhole s → IsRecoverable s
  IsWhole-IsRecoverable s w = elim w.0 [ inl h ↦ inl (h, w.1) | inr b ↦ inr (b, inl w.1) ]

  pub fail_early-Does :
      (N : Type 0) (t : Transaction) → Does N IsWhole (fail_early t) (λ v. IsWhole) IsWhole
  unfolding fail_early clear_pending write_transaction
  fail_early-Does N t =
      bind-Does {R = λ v. IsWhole} (effect-Does _ _ (λ s w. w) (λ s cut w. w)) (λ v.
        bind-Does {R = λ v. IsWhole} (effect-Does _ _ (λ s w. w) (λ s cut w. w))
          (λ u. pure-Does 0 (λ s w. w)))

  pub late_write :
      (t : Transaction)
      → IsLate t
      → Does Unit IsRecoverable (write_transaction t) (λ v. IsRecoverable) IsRecoverable
  unfolding write_transaction
  late_write t late =
      effect-Does _ _ (λ s w. elim w [ inl u ↦ inl u | inr b ↦ inr (b.0, inr late) ]) (λ s cut w. w)

  report_recovery-Does :
      (t : Transaction)
      → Does Unit IsRecoverable (report_recovery t) (λ v. IsRecoverable) IsRecoverable
  unfolding report_recovery is_terminal is_before_replacement
  report_recovery-Does t =
      attempt-Does IsRecoverable (λ s w. w)
        (bind-Does
          (late_write (record t { status = recovery_required; stage = restore_failed })
            (refl, refl))
          (λ v. pure-Does 1 (λ s w. w)))
        (pure-Does 1 (λ s w. w))

  -- Early, the managed paths have what they had.
  pub early-IsWhole :
      (s : Installation)
      → is_terminal s.transaction.status ≡ false
      → is_before_replacement s.transaction.stage ≡ true
      → IsRecoverable s
      → IsWhole s
  early-IsWhole s n e (inl u) = (inl u.0, u.1)
  early-IsWhole s n e (inr (b, inl same)) = (inr b, same)
  early-IsWhole s n e (inr (b, inr late)) = absurd cc

  -- A recovery keeps what the next recovery needs.
  recover_if-Does :
      (terminal early complete : Bool) (t : Transaction)
      → m0 ≢ some garbled
      → Does Unit
          (λ s.
            IsRecoverable s
            × (is_terminal s.transaction.status ≡ terminal)
            × (is_before_replacement s.transaction.stage ≡ early)
            × (backup_complete s.backup ≡ complete))
          (recover_if terminal early complete t)
          (λ v. IsRecoverable)
          IsRecoverable
  unfolding recover_if
  recover_if-Does true early complete t clear = pure-Does 0 (λ s w. w.0)
  recover_if-Does false true complete t clear =
      attempt-Does IsRecoverable (λ s w. w)
        (weaken-Does (λ n. n) (λ s w. early-IsWhole s w.1 w.2 w.0) (λ v. IsWhole-IsRecoverable)
          IsWhole-IsRecoverable (fail_early-Does Unit t))
        (report_recovery-Does t)
  recover_if-Does false false false t clear =
      attempt-Does IsRecoverable (λ s w. w)
        (weaken-Does (λ n. n)
          (λ s w. elim w.0 [ inl u ↦ u | inr b ↦ absurd (no_both s w.3 b.0.complete) ])
          (λ v s w. inl w) (λ s w. inl w) (restore_without-Does Unit t))
        (report_recovery-Does t)
  recover_if-Does false false true t clear =
      attempt-Does IsRecoverable (λ s w. w)
        (weaken-Does (λ n. tt) (λ s w. elim w.0 [ inl u ↦ absurd (no_both s u.0 w.3) | inr b ↦ b ])
          (λ v s w. inr (IsHeld-IsBacked s w.0.0)) (λ s w. inr w) (restore_if-Does t clear))
        (report_recovery-Does t)

  pub recover_transactions-Does :
      m0 ≢ some garbled
      → Does Unit IsRecoverable recover_transactions (λ v. IsRecoverable) IsRecoverable
  unfolding recover_transactions
  recover_transactions-Does clear =
      bind-Does {R = λ t s. IsRecoverable s × (s.transaction ≡ t)} (look-Does _ (λ s w. (w, refl)))
        (λ t.
          bind-Does {R = λ b s. IsRecoverable s × (s.transaction ≡ t) × (s.backup ≡ b)}
            (look-Does _ (λ s w. (w.0, w.1, refl)))
            (λ b.
              weaken-Does (λ n. n)
                (λ s w. (
                  w.0,
                  ap (λ u. is_terminal u.status) w.1,
                  ap (λ u. is_before_replacement u.stage) w.1,
                  ap backup_complete w.2,
                ))
                (λ v s w. w) (λ s w. w)
                (recover_if-Does (is_terminal t.status) (is_before_replacement t.stage)
                  (backup_complete b) t clear)))
