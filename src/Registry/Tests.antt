-- ===== src/Registry/Tests.antt =====
-- A save whose second write fails, and the theorem at it.
use rocket_cat_shell_linux.Base.{
  ◌≡◌, ◌≢◌, refl, ap, true, false, some, [], ◌∷◌, ◌++◌, if◌then◌else◌, ◌==◌,
}
use rocket_cat_shell_linux.Base.Dict.{get, put, remove}
use rocket_cat_shell_linux.Base.Text.{Text, text_key, text_beq, codes}
use rocket_cat_shell_linux.Registry.{Files, no_fault, at_replace, save}
use rocket_cat_shell_linux.Registry.Atomic.{save-all_or_nothing}

abbrev with_tmp : Text → Text
with_tmp t = t ++ codes ".tmp"

abbrev bots : Text
bots = codes "bots.json"

abbrev onebot_transports : Text
onebot_transports = codes "onebot_transports.json"

abbrev stored : Files
stored = (bots, codes "old") ∷ []

failed_save :
    save with_tmp bots onebot_transports no_fault at_replace (codes "new") (codes "{}") stored
    ≡ (true, (bots, codes "old") ∷ (with_tmp onebot_transports, codes "{}") ∷ [])
unfolding save get put remove text_beq
failed_save = refl

bots_not_temporary : with_tmp bots ≢ bots
bots_not_temporary h = cc

transports_not_temporary : with_tmp onebot_transports ≢ bots
unfolding text_beq
transports_not_temporary h = let e : false ≡ true = ap (λ t. t == bots) h in cc

save-all_or_nothing_example :
    get
      (save with_tmp bots onebot_transports no_fault at_replace (codes "new") (codes "{}") stored).1
      bots
    ≡ (if (save with_tmp bots onebot_transports no_fault at_replace
          (codes "new")
          (codes "{}")
          stored).0
        then get stored bots
        else if onebot_transports == bots
        then some (codes "{}")
        else if bots == bots
        then some (codes "new")
        else get stored bots)
save-all_or_nothing_example =
    save-all_or_nothing with_tmp bots onebot_transports no_fault at_replace (codes "new")
      (codes "{}") stored bots bots_not_temporary transports_not_temporary
