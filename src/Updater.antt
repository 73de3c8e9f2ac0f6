-- ===== src/Updater.antt =====
-- tools/update_helper.py: the transaction that replaces the managed paths of an installation. The disk
-- and the process are a state, and what is done to the disk is a sequence of effects: any of them may
-- raise, or be the last one before the process is killed. A copy or a removal that is cut off leaves
-- anything at its path; `_atomic_write_json` writes all or nothing.
mod Rules
pub mod Helper
pub mod Transact
pub mod Watch
mod Saved
mod Stored
mod Restored
mod Payload
mod Phases
mod Apply
mod Crash
mod Refused
mod Recover
mod Calm
mod Tests
use rocket_cat_shell_linux.Base.{
  String, string_key, ◌==◌, Bool, true, false, Option, none, some, List, [], ◌∷◌, ◌||◌,
}
use rocket_cat_shell_linux.Base.Dict.{Dict, put, remove}
use rocket_cat_shell_linux.Base.Text.{Text}

abbrev pub managed_paths : List String
managed_paths =
    "rocketcat_shell" ∷ "data/plugins/rocketcat_plugin_adapt_iamthinking"
    ∷ "data/plugins/rocketcat_plugin_built_in_command" ∷ "LICENSE" ∷ "README.md" ∷ "CHANGELOG.md"
    ∷ "requirements.txt" ∷ "tools/check_requirements.py" ∷ "tools/migrate_user_identity.py"
    ∷ "tools/update_helper.py" ∷ []

-- What is at a path, but for links and special files.
pub data Node : Type 0 where
  directory : Dict String Text → Node
  file : Text → Node

-- `presence.json`
pub data Kind : Type 0 where
  a_directory a_file missing : Kind

pub data Mode : Type 0 where
  active target_monitoring rollback_monitoring : Mode

pub record Runtime : Type 0 where
  pub runtime_version : Text
  pub python : Text
  pub image_version : Text
  pub active_transaction : Text
  pub mode : Mode

-- `runtime.json`; a copy of it that is cut off is no JSON.
pub data Marker : Type 0 where
  marker : Runtime → Marker
  garbled : Marker

pub data UpdateStatus : Type 0 where
  prepared applying monitoring completed failed_status rollback_pending rolling_back rolled_back :
      UpdateStatus
  recovery_required : UpdateStatus

pub data Stage : Type 0 where
  prepared_stage waiting_for_shutdown preparing_dependencies backing_up backup_done replacing :
      Stage
  starting_target monitoring_target apply_failed_before_replacement apply_interrupted : Stage
  interrupted_before_replacement backup_incomplete restoring_backup monitoring_rollback : Stage
  restore_failed completed_stage rolled_back_stage target_health_failed rollback_health_failed :
      Stage
  other_stage : Stage

pub record Transaction : Type 0 where
  pub transaction_id : Text
  pub status : UpdateStatus
  pub stage : Stage
  pub current_version : Text
  pub target_version : Text
  pub old_python : Text
  pub target_python : Text
  pub image_version : Text

pub record Backup : Type 0 where
  pub exists : Bool
  pub files : Dict String Node
  pub presence : Option (Dict String Kind)
  pub runtime : Option Marker
  -- `complete.json` with `runtime_present`
  pub complete : Option Bool

-- The disk, and `payload`, which `apply_transaction` holds.
pub record Installation : Type 0 where
  pub source : Dict String Node
  pub candidate : Dict String Node
  pub backup : Backup
  pub runtime : Option Marker
  pub pending : Bool
  pub transaction : Transaction
  pub payload : Option Transaction

-- What happens to an effect, and what is left at the path when it is cut off.
pub data Fate : Type 0 where
  passes : Fate
  raises : Option Node → Fate
  is_killed : Option Node → Fate

pub data Ending (A : Type 0) : Type 0 where
  returned : A → Ending A
  raised : Ending A
  killed : Ending A

-- Code that uses up the fates of its effects; once there are none, all effects pass.
abbrev pub Act : Type 0 → Type 0
Act A = List Fate → Installation → Ending A × Installation × List Fate

unfoldable pub pure : {A : Type 0} → A → Act A
pure v l s = (returned v, s, l)

unfoldable pub throw : {A : Type 0} → Act A
throw l s = (raised, s, l)

unfoldable pub look : {A : Type 0} → (Installation → A) → Act A
look f l s = (returned (f s), s, l)

unfoldable pub effect :
    (Option Node → Installation → Installation) → (Installation → Installation) → Act Unit
effect cut f [] s = (returned tt, f s, [])
effect cut f (passes ∷ l) s = (returned tt, f s, l)
effect cut f (raises node ∷ l) s = (raised, cut node s, l)
effect cut f (is_killed node ∷ l) s = (killed, cut node s, l)

abbrev pub proceed :
    {A B : Type 0}
    → (A → Act B)
    → Ending A × Installation × List Fate
    → Ending B × Installation × List Fate
proceed rest (returned v, s, l) = rest v l s
proceed rest (raised, s, l) = (raised, s, l)
proceed rest (killed, s, l) = (killed, s, l)

infixl 5 ◌>>=◌
unfoldable pub ◌>>=◌ : {A B : Type 0} → Act A → (A → Act B) → Act B
◌>>=◌ m rest l s = proceed rest (m l s)

abbrev pub caught :
    {A : Type 0} → Act A → Ending A × Installation × List Fate → Ending A × Installation × List Fate
caught handler (returned v, s, l) = (returned v, s, l)
caught handler (raised, s, l) = handler l s
caught handler (killed, s, l) = (killed, s, l)

-- `try` with `except Exception`
unfoldable pub attempt : {A : Type 0} → Act A → Act A → Act A
attempt m handler l s = caught handler (m l s)

-- An effect that is cut off before it has changed anything.
abbrev pub atomic : (Installation → Installation) → Act Unit
atomic f = effect (λ node s. s) f

abbrev pub set_node : String → Option Node → Dict String Node → Dict String Node
set_node path none d = remove d path
set_node path (some node) d = put d path node
