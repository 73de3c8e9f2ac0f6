-- ===== src/Manifest/Check.antt =====
-- rocketcat_shell/update_manifest.py: `validate_manifest` with its loop over the files. A field of the
-- manifest whose value is of another type than `build_manifest` writes, or that is missing, is `none`
-- or an empty list. The running Python, `str.casefold`, `str.lower`, and what `\d` stands for are
-- parameters; so are the files of the release that is checked.
use rocket_cat_shell_linux.Base.{
  ℕ, ◌+◌, Bool, true, false, ◌&&◌, ◌||◌, not, Option, none, some, List, [], ◌∷◌, ltb, leb, nat_beq,
  length, ◌==◌,
}
use rocket_cat_shell_linux.Base.Int.{ℤ, pos, negsuc}
use rocket_cat_shell_linux.Base.Result.{Result, ok, raise, ◌>>=◌}
use rocket_cat_shell_linux.Base.Text.{Text, text_key, codes}
use rocket_cat_shell_linux.Tags.{
  UpdatePackageError, no_object, not_compatible, unsupported_format, wrong_product, wrong_version,
  wrong_root, wrong_generation, wrong_directories, wrong_files, wrong_image_files, wrong_python,
  old_python, wrong_range, cannot_switch, wrong_schema, wrong_count, wrong_entry, duplicate_paths,
  wrong_size, wrong_digest, too_large, missing_file, failed_verification, missing_required,
  missing_directory, list_mismatch, wrong_runtime, Comparison, less, equal, greater, compare_tags,
}
use rocket_cat_shell_linux.Manifest.{
  contains, raise_if, managed_directories, managed_files, image_deployment_files,
  validated_relative_path,
}

-- An entry of `files`: `str(entry.get(key) or "")` of the path and the digest; `none` is a size that
-- is a bool or no integer.
pub record FileEntry : Type 0 where
  pub path : Text
  pub size : Option ℤ
  pub sha256 : Text

-- A range of versions, or of the numbers of a schema.
pub record TagRange : Type 0 where
  pub minimum : Text
  pub maximum_exclusive : Text

-- `none`: a bound is missing, or no number. A bound below 0 is 0 here.
abbrev pub SchemaRange : Type 0
SchemaRange = Option (ℕ × ℕ)

pub record Manifest : Type 0 where
  pub manifest_format : Option ℕ
  pub product : Option Text
  pub platform : Option Text
  pub version : Option Text
  pub tag_name : Option Text
  pub root_directory : Option Text
  pub container_runtime_generation : Option ℕ
  pub directories : List Text
  pub top_files : List Text
  pub image_files : List Text
  pub python_implementation : Option Text
  pub python_minimum : Option Text
  pub source_range : TagRange
  pub config_schema : SchemaRange
  pub runtime_snapshot : SchemaRange
  pub identity_registry : SchemaRange
  pub entries : List (Option FileEntry)

-- `candidate_root`: what is asked of its files. `files` is what it has but the manifest.
pub record Candidate : Type 0 where
  pub is_regular : Text → Bool
  pub size_of : Text → ℕ
  pub sha256_of : Text → Text
  pub is_directory : Text → Bool
  pub files : List Text
  pub runtime_version : Option Text

-- The variables of the loop.
pub record Declared : Type 0 where
  pub declared : List Text
  pub folded_paths : List Text
  pub total_size : ℕ

abbrev pub none_declared : Declared
none_declared = record { declared = []; folded_paths = []; total_size = 0 }

abbrev pub max_release_bytes : ℕ
max_release_bytes = 536870912

abbrev pub max_release_files : ℕ
max_release_files = 10000

abbrev pub is_hex : ℕ → Bool
is_hex c = leb 48 c && leb c 57 || leb 97 c && leb c 102

abbrev pub all_hex : Text → Bool
all_hex [] = true
all_hex (c ∷ s) = is_hex c && all_hex s

-- `SHA256_PATTERN.fullmatch`
abbrev pub is_sha256 : Text → Bool
is_sha256 s = nat_beq (length s) 64 && all_hex s

unfoldable pub checked_size : Option ℤ → Result UpdatePackageError ℕ
checked_size (some (pos n)) = ok n
checked_size (some (negsuc n)) = raise wrong_size
checked_size none = raise wrong_size

-- The file of an entry, where there is a release to check.
unfoldable pub check_file : Option Candidate → Text → ℕ → Text → Result UpdatePackageError Unit
unfolding raise_if
check_file none relative size digest = ok tt
check_file (some candidate) relative size digest = do
  regular ← raise_if (not (candidate.is_regular relative)) missing_file
  raise_if
      (not (nat_beq (candidate.size_of relative) size)
        || not (digest == candidate.sha256_of relative))
      failed_verification

unfoldable pub all_contained : List Text → List Text → Bool
unfolding contains
all_contained [] l = true
all_contained (t ∷ s) l = contains t l && all_contained s l

module _ (casefold lower : Text → Text) (candidate : Option Candidate) where
  -- The body of the loop; `none` is an entry that is no dict.
  unfoldable pub add_entry : Option FileEntry → Declared → Result UpdatePackageError Declared
  unfolding validated_relative_path contains raise_if checked_size check_file
  add_entry none d = raise wrong_entry
  add_entry (some entry) d = do
    relative ← validated_relative_path casefold entry.path
    fresh ←
        raise_if (contains relative d.declared || contains (casefold relative) d.folded_paths)
          duplicate_paths
    size ← checked_size entry.size
    digest ← raise_if (not (is_sha256 (lower entry.sha256))) wrong_digest
    fits ← raise_if (ltb max_release_bytes (d.total_size + size)) too_large
    verified ← check_file candidate relative size (lower entry.sha256)
    ok (record {
      declared = relative ∷ d.declared;
      folded_paths = casefold relative ∷ d.folded_paths;
      total_size = d.total_size + size;
    })

  unfoldable pub add_entries :
      List (Option FileEntry) → Declared → Result UpdatePackageError Declared
  unfolding add_entry
  add_entries [] d = ok d
  add_entries (entry ∷ l) d = do next ← add_entry entry d; add_entries l next

abbrev pub min_update_tag : Text
min_update_tag = codes "v0.2.2"

abbrev pub source_maximum_exclusive : Text
source_maximum_exclusive = codes "v0.3.0"

-- `value != constant`
unfoldable pub differs : Option Text → Text → Bool
differs none constant = true
differs (some t) constant = not (t == constant)

unfoldable pub differs_number : Option ℕ → ℕ → Bool
differs_number none constant = true
differs_number (some n) constant = not (nat_beq n constant)

unfoldable pub differs_list : List Text → List Text → Bool
differs_list [] [] = false
differs_list [] (u ∷ m) = true
differs_list (t ∷ l) [] = true
differs_list (t ∷ l) (u ∷ m) = not (t == u) || differs_list l m

-- An iteration of `_validate_persistent_compatibility`; every schema has the number 1.
unfoldable pub validate_schema : SchemaRange → Result UpdatePackageError Unit
unfolding raise_if
validate_schema none = raise wrong_range
validate_schema (some (minimum, maximum)) =
    raise_if (not (leb minimum 1 && leb 1 maximum)) wrong_schema

unfoldable pub validate_persistent_compatibility : Manifest → Result UpdatePackageError Unit
unfolding validate_schema
validate_persistent_compatibility m = do
  config ← validate_schema m.config_schema
  snapshot ← validate_schema m.runtime_snapshot
  validate_schema m.identity_registry

unfoldable pub all_directories : Candidate → List Text → Bool
all_directories candidate [] = true
all_directories candidate (t ∷ l) = candidate.is_directory t && all_directories candidate l

-- What is asked of a whole release.
unfoldable pub check_candidate :
    Option Candidate → List Text → Text → Result UpdatePackageError Unit
unfolding raise_if all_directories all_contained differs
check_candidate none declared expected_tag = ok tt
check_candidate (some candidate) declared expected_tag = do
  directories ← raise_if (not (all_directories candidate managed_directories)) missing_directory
  same_files ←
      raise_if
        (not (all_contained candidate.files declared && all_contained declared candidate.files))
        list_mismatch
  raise_if (differs candidate.runtime_version expected_tag) wrong_runtime

abbrev pub is_less : Comparison → Bool
is_less less = true
is_less equal = false
is_less greater = false

-- The fields from `manifest_format` to `python`.
unfoldable pub check_header : Bool → Text → Manifest → Result UpdatePackageError Unit
unfolding raise_if differs differs_number differs_list
check_header python_runs expected_tag m = do
  format ← raise_if (differs_number m.manifest_format 1) unsupported_format
  product ←
      raise_if (differs m.product (codes "RocketCatShell") || differs m.platform (codes "linux"))
        wrong_product
  tag ← raise_if (differs m.tag_name expected_tag || differs m.version expected_tag) wrong_version
  root ← raise_if (differs m.root_directory (codes "RocketCatShell-linux")) wrong_root
  generation ← raise_if (differs_number m.container_runtime_generation 1) wrong_generation
  directories ← raise_if (differs_list m.directories managed_directories) wrong_directories
  top_files ← raise_if (differs_list m.top_files managed_files) wrong_files
  image_files ← raise_if (differs_list m.image_files image_deployment_files) wrong_image_files
  python ←
      raise_if
        (differs m.python_implementation (codes "cpython")
          || differs m.python_minimum (codes "3.11"))
        wrong_python
  raise_if (not python_runs) old_python

module _ (digit : ℕ → Option ℕ) where
  unfoldable pub validate_source_compatibility : TagRange → Text → Result UpdatePackageError Unit
  unfolding raise_if compare_tags
  validate_source_compatibility range current_tag = do
    contract ←
        raise_if
          (not (range.minimum == min_update_tag)
            || not (range.maximum_exclusive == source_maximum_exclusive))
          wrong_range
    low ← compare_tags digit current_tag range.minimum
    from_low ← raise_if (is_less low) cannot_switch
    high ← compare_tags digit current_tag range.maximum_exclusive
    raise_if (not (is_less high)) cannot_switch

  unfoldable pub validate_manifest :
      (Text → Text)
      → (Text → Text)
      → Bool
      → Option Candidate
      → Text
      → Text
      → Option Manifest
      → Result UpdatePackageError Manifest
  unfolding compare_tags raise_if check_header validate_source_compatibility
      validate_persistent_compatibility add_entries all_contained check_candidate
  validate_manifest casefold lower python_runs candidate expected_tag current_tag none =
      raise no_object
  validate_manifest casefold lower python_runs candidate expected_tag current_tag (some m) = do
    age ← compare_tags digit expected_tag min_update_tag
    compatible ← raise_if (is_less age) not_compatible
    header ← check_header python_runs expected_tag m
    source ← validate_source_compatibility m.source_range current_tag
    persistent ← validate_persistent_compatibility m
    count ←
        raise_if (nat_beq (length m.entries) 0 || ltb max_release_files (length m.entries))
          wrong_count
    d ← add_entries casefold lower candidate m.entries none_declared
    required ←
        raise_if
          (not (
            all_contained managed_files d.declared
            && all_contained image_deployment_files d.declared))
          missing_required
    release ← check_candidate candidate d.declared expected_tag
    ok m
