-- ===== src/Tags.antt =====
-- rocketcat_shell/update_manifest.py: `parse_tag` and `compare_tags`, the versions of releases.
-- What `\d` stands for beyond the ten digits, and its value, is Python's.
mod Parse
mod Tests
use rocket_cat_shell_linux.Base.{
  ℕ, zero, suc, ◌+◌, ◌-◌, ◌*◌, Bool, true, false, ◌&&◌, ◌||◌, not, Option, none, some, List, [],
  ◌∷◌, ◌++◌, ltb, leb, nat_beq, length, if◌then◌else◌,
}
use rocket_cat_shell_linux.Base.Result.{Result, ok, raise, ◌>>=◌}
use rocket_cat_shell_linux.Base.Text.{Text}

-- `UpdatePackageError`, by what its messages say.
pub data UpdatePackageError : Type 0 where
  invalid_tag unsafe_path unsafe_component protected_path unknown_path : UpdatePackageError
  no_object not_compatible unsupported_format wrong_product wrong_version wrong_root :
      UpdatePackageError
  wrong_generation wrong_directories wrong_files wrong_image_files : UpdatePackageError
  wrong_python old_python wrong_range cannot_switch wrong_schema : UpdatePackageError
  wrong_count wrong_entry duplicate_paths wrong_size wrong_digest too_large : UpdatePackageError
  missing_file failed_verification missing_required missing_directory : UpdatePackageError
  list_mismatch wrong_runtime : UpdatePackageError

-- An identifier of a prerelease: `(0, int(part))` or `(1, part.lower())`.
pub data Part : Type 0 where
  number : ℕ → Part
  name : Text → Part

-- The key of a version. The last place is `none` for `((1, ""),)`, or has the parts that follow
-- `(0, "")`.
pub record TagKey : Type 0 where
  pub major : ℕ
  pub minor : ℕ
  pub patch : ℕ
  pub prerelease : Option (List Part)

-- The order of Python's tuples: of the first places that differ.
pub data Comparison : Type 0 where
  less equal greater : Comparison

unfoldable pub and_then : Comparison → Comparison → Comparison
and_then less c = less
and_then equal c = c
and_then greater c = greater

unfoldable pub compare_nat : ℕ → ℕ → Comparison
compare_nat a b = if ltb a b then less else if ltb b a then greater else equal

module _ {A : Type 0} (cmp : A → A → Comparison) where
  unfoldable pub compare_lists : List A → List A → Comparison
  unfolding and_then
  compare_lists [] [] = equal
  compare_lists [] (b ∷ t) = less
  compare_lists (a ∷ s) [] = greater
  compare_lists (a ∷ s) (b ∷ t) = and_then (cmp a b) (compare_lists s t)

unfoldable pub compare_parts : Part → Part → Comparison
unfolding compare_nat compare_lists
compare_parts (number a) (number b) = compare_nat a b
compare_parts (number a) (name t) = less
compare_parts (name s) (number b) = greater
compare_parts (name s) (name t) = compare_lists compare_nat s t

unfoldable pub compare_prereleases : Option (List Part) → Option (List Part) → Comparison
unfolding compare_lists compare_parts
compare_prereleases none none = equal
compare_prereleases none (some b) = greater
compare_prereleases (some a) none = less
compare_prereleases (some a) (some b) = compare_lists compare_parts a b

unfoldable pub compare_keys : TagKey → TagKey → Comparison
unfolding compare_nat and_then compare_prereleases
compare_keys v w = and_then (compare_nat v.major w.major) (
    and_then (compare_nat v.minor w.minor)
      (and_then (compare_nat v.patch w.patch) (compare_prereleases v.prerelease w.prerelease)))

abbrev pub is_ascii_digit : ℕ → Bool
is_ascii_digit c = leb 48 c && leb c 57

abbrev pub is_upper : ℕ → Bool
is_upper c = leb 65 c && leb c 90

-- `[0-9A-Za-z-]`
abbrev pub is_identifier_char : ℕ → Bool
is_identifier_char c = is_ascii_digit c || is_upper c || (leb 97 c && leb c 122) || nat_beq c 45

abbrev pub all_chars : (ℕ → Bool) → Text → Bool
all_chars test [] = true
all_chars test (c ∷ s) = test c && all_chars test s

-- Of an identifier, whose characters are all of `[0-9A-Za-z-]`.
abbrev pub lower : Text → Text
lower [] = []
lower (c ∷ s) = (if is_upper c then c + 32 else c) ∷ lower s

abbrev pub decimal_from : ℕ → Text → ℕ
decimal_from n [] = n
decimal_from n (c ∷ s) = decimal_from (n * 10 + (c - 48)) s

abbrev pub has_leading_zero : Text → Bool
has_leading_zero [] = false
has_leading_zero (c ∷ []) = false
has_leading_zero (c ∷ d ∷ s) = nat_beq c 48

-- The body of the loop over the parts, for a part that the pattern admits.
unfoldable pub part_key : Text → Result UpdatePackageError Part
part_key [] = raise invalid_tag
part_key (c ∷ s) =
    if not (all_chars is_identifier_char (c ∷ s))
    then raise invalid_tag
    else if all_chars is_ascii_digit (c ∷ s)
    then if has_leading_zero (c ∷ s)
      then raise invalid_tag
      else ok (number (decimal_from 0 (c ∷ s)))
    else ok (name (lower (c ∷ s)))

-- s.split(sep): the first piece, and the others.
unfoldable pub split_on : ℕ → Text → Text × List Text
split_on sep [] = ([], [])
split_on sep (c ∷ s) =
    let rest = split_on sep s in
    if nat_beq c sep then ([], rest.0 ∷ rest.1) else (c ∷ rest.0, rest.1)

unfoldable pub part_keys : List Text → Result UpdatePackageError (List Part)
unfolding part_key
part_keys [] = ok []
part_keys (p ∷ l) = do first ← part_key p; rest ← part_keys l; ok (first ∷ rest)

module _ (digit : ℕ → Option ℕ) where
  -- `\d*`, from the value that was read so far
  unfoldable pub digits_from : ℕ → Text → ℕ × Text
  digits_from n [] = (n, [])
  digits_from n (c ∷ s) = elim (digit c) [ none ↦ (n, c ∷ s) | some d ↦ digits_from (n * 10 + d) s ]

  -- `(0|[1-9]\d*)`
  unfoldable pub numeral : Text → Result UpdatePackageError (ℕ × Text)
  unfolding digits_from
  numeral [] = raise invalid_tag
  numeral (c ∷ s) =
      if nat_beq c 48
      then ok (0, s)
      else if leb 49 c && leb c 57
      then ok (digits_from (c - 48) s)
      else raise invalid_tag

  unfoldable pub after_char : ℕ → Text → Result UpdatePackageError Text
  after_char sep [] = raise invalid_tag
  after_char sep (c ∷ s) = if nat_beq c sep then ok s else raise invalid_tag

  -- What follows the patch number: the end, or a hyphen and parts between dots.
  unfoldable pub prerelease_of : Text → Result UpdatePackageError (Option (List Part))
  unfolding split_on part_keys
  prerelease_of [] = ok none
  prerelease_of (c ∷ s) =
      let pieces = split_on b'.' s in
      if nat_beq c b'-'
      then (do parts ← part_keys (pieces.0 ∷ pieces.1); ok (some parts))
      else raise invalid_tag

  unfoldable pub parse_tag : Text → Result UpdatePackageError TagKey
  unfolding numeral after_char prerelease_of
  parse_tag tag = do
    s ← after_char b'v' tag
    major ← numeral s
    s ← after_char b'.' major.1
    minor ← numeral s
    s ← after_char b'.' minor.1
    patch ← numeral s
    prerelease ← prerelease_of patch.1
    ok (record { major = major.0; minor = minor.0; patch = patch.0; prerelease = prerelease })

  unfoldable pub compare_tags : Text → Text → Result UpdatePackageError Comparison
  unfolding parse_tag compare_keys
  compare_tags left right = do
    left_key ← parse_tag left
    right_key ← parse_tag right
    ok (compare_keys left_key right_key)
