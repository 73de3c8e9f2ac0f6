-- ===== src/Manifest/Tests.antt =====
-- A manifest and a release that are accepted, and the theorems at them.
use rocket_cat_shell_linux.Base.{
  ℕ, zero, suc, ◌-◌, ◌≡◌, refl, true, false, ◌&&◌, Option, none, some, List, [], ◌∷◌, ◌++◌, map,
  leb, if◌then◌else◌,
}
use rocket_cat_shell_linux.Base.Int.{pos}
use rocket_cat_shell_linux.Base.Result.{ok, raise}
use rocket_cat_shell_linux.Base.Text.{Text, codes, starts_with, text_beq}
use rocket_cat_shell_linux.Tags.{TagKey, parse_tag, unsafe_path, protected_path, duplicate_paths}
use rocket_cat_shell_linux.Manifest.{
  managed_directories, managed_files, image_deployment_files, contains, parts,
  validated_relative_path,
}
use rocket_cat_shell_linux.Manifest.Check.{
  FileEntry, Candidate, Declared, Manifest, none_declared, min_update_tag, source_maximum_exclusive,
  add_entries, validate_source_compatibility, validate_manifest,
}
use rocket_cat_shell_linux.Manifest.Paths.{validated-idempotent}
use rocket_cat_shell_linux.Manifest.Contract.{IsCompatible, switch-IsCompatible}
use rocket_cat_shell_linux.Manifest.Release.{IsRelease, validate_manifest-IsRelease}

abbrev digit_value : ℕ → Option ℕ
digit_value c = if leb 48 c && leb c 57 then some (c - 48) else none

abbrev unchanged : Text → Text
unchanged t = t

abbrev letters : ℕ → Text
letters zero = []
letters (suc n) = 97 ∷ letters n

abbrev file_of : Text → Option FileEntry
file_of t = some (record { path = t; size = some (pos 3); sha256 = letters 64 })

abbrev all_files : List Text
all_files = managed_files ++ image_deployment_files

abbrev checkout : Candidate
checkout = record {
  is_regular = λ t. true;
  size_of = λ t. 3;
  sha256_of = λ t. letters 64;
  is_directory = λ t. true;
  files = all_files;
  runtime_version = some (codes "v0.2.5");
}

abbrev complete : Manifest
complete = record {
  manifest_format = some 1;
  product = some (codes "RocketCatShell");
  platform = some (codes "linux");
  version = some (codes "v0.2.5");
  tag_name = some (codes "v0.2.5");
  root_directory = some (codes "RocketCatShell-linux");
  container_runtime_generation = some 1;
  directories = managed_directories;
  top_files = managed_files;
  image_files = image_deployment_files;
  python_implementation = some (codes "cpython");
  python_minimum = some (codes "3.11");
  source_range = record { minimum = min_update_tag; maximum_exclusive = source_maximum_exclusive };
  config_schema = some (1, 1);
  runtime_snapshot = some (1, 1);
  identity_registry = some (1, 1);
  entries = map file_of all_files;
}

complete_passes :
    validate_manifest digit_value unchanged unchanged true
      (some checkout)
      (codes "v0.2.5")
      (codes "v0.2.4")
      (some complete)
    ≡ ok complete
unfolding validate_manifest starts_with text_beq
complete_passes = refl

validate_manifest-IsRelease_example :
    (complete ≡ complete) × IsRelease unchanged unchanged checkout complete (codes "v0.2.5")
validate_manifest-IsRelease_example =
    validate_manifest-IsRelease unchanged unchanged checkout digit_value true (codes "v0.2.5")
      (codes "v0.2.4") complete complete complete_passes

abbrev two_entries : List (Option FileEntry)
two_entries = map file_of (codes "LICENSE" ∷ codes "rocketcat_shell//./models.py" ∷ [])

abbrev two_declared : Declared
two_declared = record {
  declared = codes "rocketcat_shell/models.py" ∷ codes "LICENSE" ∷ [];
  folded_paths = codes "rocketcat_shell/models.py" ∷ codes "LICENSE" ∷ [];
  total_size = 6;
}

two_pass :
    add_entries unchanged unchanged (some checkout) two_entries none_declared ≡ ok two_declared
unfolding add_entries starts_with text_beq
two_pass = refl

abbrev untidy : Text
untidy = codes "rocketcat_shell//./models.py"

abbrev tidy : Text
tidy = codes "rocketcat_shell/models.py"

untidy_passes : validated_relative_path unchanged untidy ≡ ok tidy
unfolding validated_relative_path starts_with text_beq
untidy_passes = refl

validated-idempotent_example :
    (parts tidy ≡ parts untidy)
    × (contains (codes "..") (parts tidy) ≡ false)
    × (validated_relative_path unchanged tidy ≡ ok tidy)
validated-idempotent_example = validated-idempotent unchanged untidy tidy untidy_passes

duplicates_raise :
    add_entries unchanged unchanged none
      (map file_of (codes "LICENSE" ∷ codes "./LICENSE" ∷ []))
      none_declared
    ≡ raise duplicate_paths
unfolding add_entries starts_with text_beq
duplicates_raise = refl

parent_raises :
    validated_relative_path unchanged (codes "rocketcat_shell/../data") ≡ raise unsafe_path
unfolding validated_relative_path starts_with text_beq
parent_raises = refl

protected_raises :
    validated_relative_path unchanged (codes "config/shell.json") ≡ raise protected_path
unfolding validated_relative_path starts_with text_beq
protected_raises = refl

abbrev current_key : TagKey
current_key = record { major = 0; minor = 2; patch = 4; prerelease = none }

current-parsed : parse_tag digit_value (codes "v0.2.4") ≡ ok current_key
unfolding parse_tag
current-parsed = refl

current_switches :
    validate_source_compatibility digit_value complete.source_range (codes "v0.2.4") ≡ ok tt
unfolding validate_source_compatibility starts_with text_beq
current_switches = refl

switch-IsCompatible_example : IsCompatible current_key
switch-IsCompatible_example =
    switch-IsCompatible digit_value refl complete.source_range (codes "v0.2.4") current_key tt
      current-parsed current_switches
