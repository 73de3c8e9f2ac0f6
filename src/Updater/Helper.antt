-- ===== src/Updater/Helper.antt =====
-- tools/update_helper.py: `_backup`, `_install`, `_restore`, `apply_transaction`, `recover_transactions`.
-- The checks of the paths, of the candidate's files and of the environment, which change no managed path,
-- are effects that may raise; there is one transaction.
use rocket_cat_shell_linux.Base.{
  String, string_key, ◌==◌, Bool, true, false, ◌&&◌, Option, none, some, List, [], ◌∷◌,
}
use rocket_cat_shell_linux.Base.Dict.{Dict, get, put}
use rocket_cat_shell_linux.Updater.{
  managed_paths, Node, directory, file, Kind, a_directory, a_file, missing, Marker, garbled, Backup,
  Installation, Act, pure, throw, look, effect, ◌>>=◌, atomic, set_node,
}

abbrev pub kind_of : Option Node → Kind
kind_of none = missing
kind_of (some (directory d)) = a_directory
kind_of (some (file t)) = a_file

abbrev pub save_node : String → Option Node → Installation → Installation
save_node path o s = record s {
  backup = record s.backup { files = set_node path o s.backup.files };
}

abbrev pub place_node : String → Option Node → Installation → Installation
place_node path o s = record s { source = set_node path o s.source }

-- A copy to a path of the backup, and to a path of the installation.
unfoldable pub copy_to_backup : String → Node → Act Unit
copy_to_backup path node = effect (save_node path) (save_node path (some node))

unfoldable pub copy_to_source : String → Node → Act Unit
copy_to_source path node = effect (place_node path) (place_node path (some node))

-- `_remove_exact`
unfoldable pub remove_exact : String → Act Unit
remove_exact path = effect (place_node path) (place_node path none)

-- A path of `_backup`, by what is there.
unfoldable pub backup_path : String → Option Node → Act Unit
unfolding pure copy_to_backup
backup_path path none = pure tt
backup_path path (some node) = copy_to_backup path node

-- The loop of `_backup`; it gives the presence of the paths.
unfoldable pub backup_paths : List String → Dict String Kind → Act (Dict String Kind)
unfolding pure look ◌>>=◌ backup_path
backup_paths [] presence = pure presence
backup_paths (path ∷ l) presence = do
  node ← look (λ s. get s.source path)
  copied ← backup_path path node
  backup_paths l (put presence path (kind_of node))

unfoldable pub write_presence : Dict String Kind → Act Unit
write_presence presence =
    atomic (λ s. record s { backup = record s.backup { presence = some presence } })

abbrev pub save_runtime : Marker → Installation → Installation
save_runtime m s = record s { backup = record s.backup { runtime = some m } }

-- The copy of the runtime marker, if there is one, and the mark that the backup is complete.
unfoldable pub backup_runtime : Option Marker → Act Bool
unfolding pure effect ◌>>=◌
backup_runtime none = pure false
backup_runtime (some m) = do
  copied ← effect (λ cut s. save_runtime garbled s) (λ s. save_runtime m s)
  pure true

unfoldable pub write_complete : Bool → Act Unit
write_complete runtime_present =
    atomic (λ s. record s { backup = record s.backup { complete = some runtime_present } })

unfoldable pub make_backup_root : Bool → Act Unit
unfolding throw effect
make_backup_root true = throw
make_backup_root false = atomic (λ s. record s { backup = record s.backup { exists = true } })

-- `_backup`
unfoldable pub backup_all : Act Unit
unfolding look ◌>>=◌ make_backup_root backup_paths write_presence backup_runtime write_complete
backup_all = do
  exists ← look (λ s. s.backup.exists)
  made ← make_backup_root exists
  presence ← backup_paths managed_paths []
  written ← write_presence presence
  runtime ← look (λ s. s.runtime)
  present ← backup_runtime runtime
  write_complete present

-- Every path has a presence, and only the paths have one.
unfoldable pub covers : List String → Dict String Kind → Bool
unfolding get
covers [] d = true
covers (path ∷ l) d = present (get d path) && covers l d
  where
    present : Option Kind → Bool
    present none = false
    present (some k) = true

unfoldable pub among : String → List String → Bool
among path [] = false
among path (q ∷ l) = let rest = among path l in elim (q == path) [ true ↦ true | false ↦ rest ]

unfoldable pub within : Dict String Kind → List String → Bool
unfolding among
within [] l = true
within ((path, k) ∷ d) l = among path l && within d l

-- `_backup_complete`
unfoldable pub backup_complete : Backup → Bool
unfolding covers within
backup_complete b = go b.complete b.presence
  where
    go : Option Bool → Option (Dict String Kind) → Bool
    go none presence = false
    go (some c) none = false
    go (some c) (some d) = covers managed_paths d && within d managed_paths

unfoldable pub require_node : Option Node → Act Unit
unfolding pure throw
require_node none = throw
require_node (some node) = pure tt

-- The first loop of `_install`.
unfoldable pub require_candidate : List String → Act Unit
unfolding pure look ◌>>=◌ require_node
require_candidate [] = pure tt
require_candidate (path ∷ l) = do
  node ← look (λ s. get s.candidate path)
  found ← require_node node
  require_candidate l

-- A copy of what may be there.
unfoldable pub copy_node : String → Option Node → Act Unit
unfolding throw copy_to_source
copy_node path none = throw
copy_node path (some node) = copy_to_source path node

-- The second loop of `_install`.
unfoldable pub replace_paths : List String → Act Unit
unfolding pure look ◌>>=◌ remove_exact copy_node
replace_paths [] = pure tt
replace_paths (path ∷ l) = do
  removed ← remove_exact path
  node ← look (λ s. get s.candidate path)
  copied ← copy_node path node
  replace_paths l

-- What is put back at a path, by its presence.
unfoldable pub restore_path : String → Option Kind → Act Unit
unfolding pure throw look ◌>>=◌ remove_exact copy_node
restore_path path none = throw
restore_path path (some missing) = remove_exact path
restore_path path (some a_directory) = do
  removed ← remove_exact path
  node ← look (λ s. get s.backup.files path)
  copy_node path node
restore_path path (some a_file) = do
  removed ← remove_exact path
  node ← look (λ s. get s.backup.files path)
  copy_node path node

unfoldable pub restore_paths : List String → Dict String Kind → Act Unit
unfolding pure ◌>>=◌ restore_path get
restore_paths [] presence = pure tt
restore_paths (path ∷ l) presence = do
  restored ← restore_path path (get presence path)
  restore_paths l presence

-- The runtime marker, by what `complete.json` says of it.
unfoldable pub restore_runtime : Option Bool → Option Marker → Act Unit
unfolding throw effect
restore_runtime (some true) (some m) =
    effect (λ cut s. record s { runtime = some garbled }) (λ s. record s { runtime = some m })
restore_runtime (some true) none = throw
restore_runtime (some false) m = atomic (λ s. record s { runtime = none })
restore_runtime none m = atomic (λ s. record s { runtime = none })

unfoldable pub restore_present : Option (Dict String Kind) → Act Unit
unfolding throw restore_paths
restore_present none = throw
restore_present (some presence) = restore_paths managed_paths presence

unfoldable pub ensure_that : Bool → Act Unit
unfolding pure throw
ensure_that true = pure tt
ensure_that false = throw

-- `_restore`
unfoldable pub restore : Act Unit
unfolding look ◌>>=◌ ensure_that backup_complete restore_present restore_runtime
restore = do
  backup ← look (λ s. s.backup)
  complete ← ensure_that (backup_complete backup)
  restored ← restore_present backup.presence
  restore_runtime backup.complete backup.runtime
