-- ===== src/Updater/Phases.antt =====
-- What the parts of `apply_transaction` keep wherever they are cut off.
use rocket_cat_shell_linux.Base.{
  String, string_key, ◌≡◌, refl, sym, ap, ◌∙◌, Bool, true, false, Option, none, some, List, [], ◌∷◌,
  inl, inr,
}
use mathlib.Core.Path.{subst}
use rocket_cat_shell_linux.Base.Dict.{Dict, get}
use rocket_cat_shell_linux.Base.Text.{Text}
use rocket_cat_shell_linux.Updater.{
  managed_paths, Node, Marker, applying, monitoring, preparing_dependencies, backing_up,
  backup_done, replacing, starting_target, Transaction, Installation, Act,
}
use rocket_cat_shell_linux.Updater.Rules.{
  Does, pure-Does, throw-Does, look-Does, effect-Does, bind-Does, weaken-Does,
}
use rocket_cat_shell_linux.Updater.Helper.{
  place_node, copy_to_source, remove_exact, require_node, require_candidate, ensure_that, copy_node,
  replace_paths,
}
use rocket_cat_shell_linux.Updater.Transact.{
  other_effect, write_transaction, update, clear_pending, write_runtime, is_ready, prepare,
  mark_target, announce, install_target, is_terminal, is_before_replacement,
}
use rocket_cat_shell_linux.Updater.Saved.{Same, IsSaved}
use rocket_cat_shell_linux.Updater.Restored.{IsLate}
use rocket_cat_shell_linux.Updater.Recover.{IsRecoverable}
use rocket_cat_shell_linux.Updater.Payload.{Holds, IsLive, update-Does}

module _ (original : Dict String Node) (m0 : Option Marker) where
  -- Before the backup.
  abbrev pub IsUntouched : Installation → Type 0
  IsUntouched s =
      (s.source ≡ original)
      × (s.runtime ≡ m0)
      × (s.backup.complete ≡ none)
      × (s.backup.files ≡ [])
      × (s.backup.runtime ≡ none)

  -- Between the backup and the replacement.
  abbrev pub IsKept : Installation → Type 0
  IsKept s = (s.source ≡ original) × IsSaved original m0 s.backup

  -- From the replacement on.
  abbrev pub IsBusy : Installation → Type 0
  IsBusy s = IsSaved original m0 s.backup × IsLate s.transaction

  ensure_that-Does : (P : Installation → Type 0) (b : Bool) → Does Unit P (ensure_that b) (λ v. P) P
  unfolding ensure_that
  ensure_that-Does P true = pure-Does tt (λ s w. w)
  ensure_that-Does P false = throw-Does (λ s w. (w, tt))

  other_effect-Does : (P : Installation → Type 0) → Does Unit P other_effect (λ v. P) P
  unfolding other_effect
  other_effect-Does P = effect-Does _ _ (λ s w. w) (λ s cut w. w)

  -- What is cut off forgets the payload.
  loose :
      {A : Type 0} {P : Installation → Type 0} {Q : A → Installation → Type 0} {m : Act A}
      (J : Transaction → Type 0)
      → Does Unit P m Q (λ s. IsUntouched s × Holds J s)
      → Does Unit P m Q IsUntouched
  loose J h = weaken-Does (λ n. n) (λ s w. w) (λ v s w. w) (λ s w. w.0) h

  abbrev Anything : Transaction → Type 0
  Anything t = Unit

  -- Afterwards the payload is held, and is not over.
  pub prepare-Does :
      (python : Text)
      → Does Unit IsUntouched (prepare python) (λ v s. IsUntouched s × Holds IsLive s) IsUntouched
  unfolding prepare is_terminal
  prepare-Does python =
      bind-Does {R = λ v s. IsUntouched s × Holds Anything s}
        (effect-Does _ _ (λ s w. (w, (s.transaction, refl, tt))) (λ s cut w. w))
        (λ context.
          bind-Does {R = λ (t : Transaction) s. IsUntouched s × Holds Anything s}
            (look-Does (λ s. s.transaction) (λ s w. w))
            (λ t.
              bind-Does (loose Anything (ensure_that-Does _ (is_ready t.status t.stage))) (λ ready.
                bind-Does (loose Anything (other_effect-Does _)) (λ valid.
                  bind-Does
                    (loose Anything (
                      update-Does IsUntouched IsUntouched Anything IsLive
                        (λ u. record u { status = applying; stage = preparing_dependencies })
                        (λ s u w j. (w, refl)) (λ a b e j. j)))
                    (λ preparing. bind-Does (loose IsLive (other_effect-Does _)) (λ dependencies.
                      loose IsLive (
                        update-Does IsUntouched IsUntouched IsLive IsLive
                          (λ u. record u { stage = backing_up; target_python = python })
                          (λ s u w j. (w, j)) (λ a b e j. subst IsLive e j))))))))

  -- A state that can be recovered, in which the handler of `apply_transaction` knows what it has to report.
  abbrev pub IsSafe : Installation → Type 0
  IsSafe s =
      IsRecoverable original m0 s
      × ((t : Transaction)
          → s.payload ≡ some t
          → is_before_replacement t.stage ≡ true
          → Same original m0 s)

  abbrev Replacing : Installation → Type 0
  Replacing s = IsBusy s × Holds IsLate s

  pub IsKept-IsSafe : (s : Installation) → IsKept s → IsSafe s
  IsKept-IsSafe s w =
      let same : Same original m0 s = λ p m. ap (λ d. get d p) w.0 in
      (inr (w.1, inl same), λ t e b. same)

  Replacing-IsSafe : (s : Installation) → Replacing s → IsSafe s
  Replacing-IsSafe s w = (
    inr (w.0.0, inr w.0.1),
    λ t e b.
        let same : Path (Option Transaction) (some w.1.0) (some t) = sym w.1.1 ∙ e in
        let transaction : w.1.0 ≡ t = cc same in
        let late : IsLate t = subst IsLate transaction w.1.2 in absurd (no_both_stages t late.1 b),
  )
    where
      no_both_stages :
          (t : Transaction)
          → is_before_replacement t.stage ≡ false
          → is_before_replacement t.stage ≡ true
          → ⊥
      no_both_stages t a b = absurd cc

  -- Copies and removals at the managed paths of the installation, and what only reads.
  require_node-Does :
      (o : Option Node) → Does Unit Replacing (require_node o) (λ v. Replacing) Replacing
  unfolding require_node
  require_node-Does none = throw-Does (λ s w. (w, tt))
  require_node-Does (some node) = pure-Does tt (λ s w. w)

  require_candidate-Does :
      (l : List String) → Does Unit Replacing (require_candidate l) (λ v. Replacing) Replacing
  unfolding require_candidate
  require_candidate-Does [] = pure-Does tt (λ s w. w)
  require_candidate-Does (path ∷ l) =
      bind-Does {R = λ o. Replacing} (look-Does _ (λ s w. w))
        (λ o. bind-Does (require_node-Does o) (λ found. require_candidate-Does l))

  remove_exact-Does :
      (path : String) → Does Unit Replacing (remove_exact path) (λ v. Replacing) Replacing
  unfolding remove_exact
  remove_exact-Does path =
      effect-Does (place_node path) (place_node path none) (λ s w. w) (λ s cut w. w)

  copy_node-Does :
      (path : String) (o : Option Node)
      → Does Unit Replacing (copy_node path o) (λ v. Replacing) Replacing
  unfolding copy_node copy_to_source
  copy_node-Does path none = throw-Does (λ s w. (w, tt))
  copy_node-Does path (some node) =
      effect-Does (place_node path) (place_node path (some node)) (λ s w. w) (λ s cut w. w)

  replace_paths-Does :
      (l : List String) → Does Unit Replacing (replace_paths l) (λ v. Replacing) Replacing
  unfolding replace_paths
  replace_paths-Does [] = pure-Does tt (λ s w. w)
  replace_paths-Does (path ∷ l) = bind-Does (remove_exact-Does path) (λ removed.
      bind-Does {R = λ o. Replacing} (look-Does _ (λ s w. w))
        (λ o. bind-Does (copy_node-Does path o) (λ copied. replace_paths-Does l)))

  mark_target-Does :
      (o : Option Transaction) → Does Unit Replacing (mark_target o) (λ v. Replacing) Replacing
  unfolding mark_target write_runtime
  mark_target-Does none = throw-Does (λ s w. (w, tt))
  mark_target-Does (some t) = effect-Does _ _ (λ s w. w) (λ s cut w. w)

  announce-Does :
      (o : Option Transaction) → Does Unit Replacing (announce o) (λ v. Replacing) Replacing
  unfolding announce write_transaction is_terminal is_before_replacement
  announce-Does none = throw-Does (λ s w. (w, tt))
  announce-Does (some t) = effect-Does _ _ (λ s w. ((w.0.0, (refl, refl)), w.1)) (λ s cut w. w)

  clear_pending-Does : Does Unit Replacing clear_pending (λ v. Replacing) Replacing
  unfolding clear_pending
  clear_pending-Does = effect-Does _ _ (λ s w. w) (λ s cut w. w)

  -- What is cut off leaves a safe state.
  busy :
      {A : Type 0} {Q : A → Installation → Type 0} {m : Act A}
      → Does Unit Replacing m Q Replacing
      → Does Unit Replacing m Q IsSafe
  busy h = weaken-Does (λ n. n) (λ s w. w) (λ v s w. w) Replacing-IsSafe h

  kept :
      {A : Type 0} {Q : A → Installation → Type 0} {m : Act A}
      → Does Unit (λ s. IsKept s × Holds IsLive s) m Q (λ s. IsKept s × Holds IsLive s)
      → Does Unit (λ s. IsKept s × Holds IsLive s) m Q IsSafe
  kept h = weaken-Does (λ n. n) (λ s w. w) (λ v s w. w) (λ s w. IsKept-IsSafe s w.0) h

  starting-Does :
      Does Unit Replacing
        (update (λ u. record u { status = monitoring; stage = starting_target }))
        (λ v. Replacing)
        Replacing
  unfolding is_terminal is_before_replacement
  starting-Does =
      update-Does IsBusy IsBusy IsLate IsLate
        (λ u. record u { status = monitoring; stage = starting_target })
        (λ s t w j. ((w.0, (refl, refl)), (refl, refl))) (λ a b e j. subst IsLate e j)

  pub install_target-Does :
      Does Unit (λ s. IsKept s × Holds IsLive s) install_target (λ v. IsSafe) IsSafe
  unfolding install_target is_before_replacement
  install_target-Does =
      bind-Does
        (kept (
          update-Does IsKept IsKept IsLive IsLive (λ u. record u { stage = backup_done })
            (λ s t w j. (w, j)) (λ a b e j. subst IsLive e j)))
        (λ saved.
          bind-Does
            (kept (
              update-Does IsKept IsBusy IsLive IsLate (λ u. record u { stage = replacing })
                (λ s t w j. ((w.1, (j, refl)), (j, refl))) (λ a b e j. subst IsLive e j)))
            (λ begun. bind-Does (busy (require_candidate-Does managed_paths)) (λ candidate.
              bind-Does (busy (replace_paths-Does managed_paths)) (λ replaced.
                bind-Does {R = λ (o : Option Transaction). Replacing}
                  (look-Does (λ s. s.payload) (λ s w. w))
                  (λ o. bind-Does (busy (mark_target-Does o)) (λ marked.
                    bind-Does (busy clear_pending-Does) (λ cleared.
                      bind-Does (busy starting-Does) (λ starting.
                        bind-Does (busy (other_effect-Does Replacing)) (λ spawned.
                          bind-Does {R = λ (h : Option Transaction). Replacing}
                            (look-Does (λ s. s.payload) (λ s w. w))
                            (λ h. bind-Does (busy (announce-Does h)) (λ announced.
                              bind-Does (busy (other_effect-Does Replacing))
                                (λ started. pure-Does 0 Replacing-IsSafe))))))))))))
