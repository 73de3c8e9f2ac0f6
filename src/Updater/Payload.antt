-- ===== src/Updater/Payload.antt =====
-- What an update of the transaction does, of which the process holds a copy.
use rocket_cat_shell_linux.Base.{◌≡◌, refl, sym, ◌∙◌, false, Option, none, some}
use rocket_cat_shell_linux.Updater.{Transaction, Installation}
use rocket_cat_shell_linux.Updater.Rules.{Does, throw-Does, look-Does, effect-Does, bind-Does}
use rocket_cat_shell_linux.Updater.Transact.{update_payload, update, is_terminal}

-- The payload that is held.
abbrev pub Holds : (Transaction → Type 0) → Installation → Type 0
Holds J s = (t : Transaction) × (s.payload ≡ some t) × J t

abbrev pub IsLive : Transaction → Type 0
IsLive t = is_terminal t.status ≡ false

-- An update of the payload that is held.
module _ (C C' : Installation → Type 0) (J K : Transaction → Type 0)
    (change : Transaction → Transaction)
    (turns : (s : Installation) (t : Transaction)
      → C s
      → J t
      → C' (record s { transaction = change t; payload = some (change t) }) × K (change t))
    (moves : (t u : Transaction) → t ≡ u → J t → J u) where
  update_payload-Does :
      (o : Option Transaction)
      → Does Unit
          (λ s. (C s × Holds J s) × (s.payload ≡ o))
          (update_payload change o)
          (λ v s. C' s × Holds K s)
          (λ s. C s × Holds J s)
  unfolding update_payload
  update_payload-Does none = throw-Does (λ s w. (w.0, tt))
  update_payload-Does (some t) =
      effect-Does _ _
        (λ s w.
          let same : Path (Option Transaction) (some w.0.1.0) (some t) = sym w.0.1.1 ∙ w.1 in
          let done = turns s t w.0.0 (moves w.0.1.0 t (cc same) w.0.1.2) in
          (done.0, (change t, refl, done.1)))
        (λ s cut w. w.0)

  pub update-Does :
      Does Unit
        (λ s. C s × Holds J s)
        (update change)
        (λ v s. C' s × Holds K s)
        (λ s. C s × Holds J s)
  unfolding update
  update-Does =
      bind-Does {R = λ o s. (C s × Holds J s) × (s.payload ≡ o)} (look-Does _ (λ s w. (w, refl)))
        (λ o. update_payload-Does o)
