-- ===== src/Manifest.antt =====
-- rocketcat_shell/update_manifest.py: what may stand in a release. This file has the paths, its child
-- Check the manifest.
pub mod Check
mod Paths
mod Accepted
mod Declares
mod Contract
mod Release
mod Tests
use rocket_cat_shell_linux.Base.{
  ℕ, ◌+◌, Bool, true, false, ◌&&◌, ◌||◌, not, List, [], ◌∷◌, ◌++◌, ltb, nat_beq, if◌then◌else◌,
  ◌==◌,
}
use rocket_cat_shell_linux.Base.Result.{Result, ok, raise, ◌>>=◌}
use rocket_cat_shell_linux.Base.Text.{Text, text_key, codes, starts_with, is_empty}
use rocket_cat_shell_linux.Tags.{
  UpdatePackageError, unsafe_path, unsafe_component, protected_path, unknown_path, split_on,
}

-- `MANAGED_DIRECTORIES`
abbrev pub managed_directories : List Text
managed_directories =
    codes "rocketcat_shell"
    ∷ codes "data/plugins/rocketcat_plugin_adapt_iamthinking"
    ∷ codes "data/plugins/rocketcat_plugin_built_in_command"
    ∷ []

-- `MANAGED_FILES`
abbrev pub managed_files : List Text
managed_files =
    codes "LICENSE"
    ∷ codes "README.md"
    ∷ codes "CHANGELOG.md"
    ∷ codes "requirements.txt"
    ∷ codes "tools/check_requirements.py"
    ∷ codes "tools/migrate_user_identity.py"
    ∷ codes "tools/update_helper.py"
    ∷ []

-- `IMAGE_DEPLOYMENT_FILES`
abbrev pub image_deployment_files : List Text
image_deployment_files =
    codes ".dockerignore"
    ∷ codes ".env.example"
    ∷ codes "Dockerfile"
    ∷ codes "docker-compose.yml"
    ∷ codes "launcher.sh"
    ∷ codes "docker/entrypoint.sh"
    ∷ codes "docker/examples/shell.json.example"
    ∷ []

-- `PROTECTED_TOP_LEVEL`
abbrev pub protected_top_level : List Text
protected_top_level =
    codes ".git"
    ∷ codes ".venv"
    ∷ codes "backups"
    ∷ codes "config"
    ∷ codes "data"
    ∷ codes "logs"
    ∷ codes "specs"
    ∷ codes "tests"
    ∷ []

unfoldable pub contains : Text → List Text → Bool
contains t [] = false
contains t (u ∷ l) = u == t || contains t l

-- `relative == directory or relative.startswith(directory + "/")`, for any of the directories
unfoldable pub in_directories : Text → List Text → Bool
in_directories t [] = false
in_directories t (d ∷ l) = d == t || starts_with t (d ++ codes "/") || in_directories t l

unfoldable pub is_managed_path : Text → Bool
unfolding contains in_directories
is_managed_path t = contains t managed_files || in_directories t managed_directories

unfoldable pub is_packaged_path : Text → Bool
unfolding is_managed_path
is_packaged_path t = is_managed_path t || contains t image_deployment_files

-- `if condition: raise error`
unfoldable pub raise_if : Bool → UpdatePackageError → Result UpdatePackageError Unit
raise_if condition error = if condition then raise error else ok tt

unfoldable pub has_char : ℕ → Text → Bool
has_char c [] = false
has_char c (d ∷ s) = nat_beq d c || has_char c s

-- `any(ord(char) < 32 for char in component)`
unfoldable pub has_control : Text → Bool
has_control [] = false
has_control (c ∷ s) = ltb c 32 || has_control s

-- `component[-1:] in {" ", "."}`
unfoldable pub has_bad_end : Text → Bool
has_bad_end [] = false
has_bad_end (c ∷ []) = nat_beq c b' ' || nat_beq c b'.'
has_bad_end (c ∷ d ∷ s) = has_bad_end (d ∷ s)

unfoldable pub validate_component : Text → Result UpdatePackageError Unit
unfolding raise_if has_control has_bad_end
validate_component t = do
  safe ← raise_if (is_empty t || t == codes "." || t == codes "..") unsafe_path
  raise_if (has_bad_end t || has_control t) unsafe_component

unfoldable pub validate_components : List Text → Result UpdatePackageError Unit
unfolding validate_component
validate_components [] = ok tt
validate_components (t ∷ l) = do safe ← validate_component t; validate_components l

-- The parts that `PurePosixPath` keeps.
unfoldable pub keep_parts : List Text → List Text
keep_parts [] = []
keep_parts (t ∷ l) =
    let rest = keep_parts l in if is_empty t || t == codes "." then rest else t ∷ rest

-- `PurePosixPath(text).parts` of a path that is not absolute
unfoldable pub parts : Text → List Text
unfolding keep_parts split_on
parts t = let pieces = split_on b'/' t in keep_parts (pieces.0 ∷ pieces.1)

-- `as_posix()` of one or more parts
unfoldable pub as_posix : List Text → Text
as_posix [] = []
as_posix (t ∷ []) = t
as_posix (t ∷ u ∷ l) = t ++ (b'/' ∷ as_posix (u ∷ l))

abbrev pub first_part : List Text → Text
first_part [] = []
first_part (t ∷ l) = t

abbrev pub has_none : List Text → Bool
has_none [] = true
has_none (t ∷ l) = false

-- Nothing, an absolute path, a path with `..`, or one without parts.
unfoldable pub is_no_relative : Text → Bool
unfolding contains parts
is_no_relative t =
    is_empty t || starts_with t (codes "/") || contains (codes "..") (parts t) || has_none (parts t)

-- `str.casefold` is Python's.
module _ (casefold : Text → Text) where
  -- The end of it, from the parts.
  unfoldable pub packaged : List Text → Result UpdatePackageError Text
  unfolding contains as_posix is_packaged_path
  packaged l =
      if is_packaged_path (as_posix l)
      then ok (as_posix l)
      else if contains (casefold (first_part l)) protected_top_level
      then raise protected_path
      else raise unknown_path

  -- The text of the path.
  unfoldable pub validated_relative_path : Text → Result UpdatePackageError Text
  unfolding raise_if has_char is_no_relative parts validate_components packaged
  validated_relative_path t = do
    no_separator ← raise_if (has_char b'\\' t || has_char b':' t) unsafe_path
    is_relative ← raise_if (is_no_relative t) unsafe_path
    all_safe ← validate_components (parts t)
    packaged (parts t)
