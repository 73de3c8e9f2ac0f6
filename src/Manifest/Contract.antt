-- ===== src/Manifest/Contract.antt =====
-- Which running versions may take a release, and what an accepted manifest says.
use rocket_cat_shell_linux.Base.{
  ℕ, ◌<◌, ◌≤◌, ◌≡◌, refl, sym, ap, ◌∙◌, ◌⊎◌, inl, inr, true, false, ◌||◌, not, Option, none, some,
  List, ◌∷◌, ◌==◌, arith,
}
use rocket_cat_shell_linux.Base.Result.{Result, ok, ◌>>=◌, bind-eq-ok, bind-ok, ok-injective}
use rocket_cat_shell_linux.Base.Text.{Text, text_key, text_beq_iff, codes}
use rocket_cat_shell_linux.Tags.{
  Part, TagKey, Comparison, less, equal, and_then, UpdatePackageError, wrong_range, cannot_switch,
  compare_nat, compare_prereleases, compare_keys, compare_tags, parse_tag, numeral, digits_from,
  after_char, prerelease_of,
}
use rocket_cat_shell_linux.Manifest.{raise_if}
use rocket_cat_shell_linux.Manifest.Check.{
  TagRange, min_update_tag, source_maximum_exclusive, is_less, validate_source_compatibility,
}
use rocket_cat_shell_linux.Manifest.Accepted.{raise_if-ok, or-false, not-false}

abbrev minimum_key : TagKey
minimum_key = record { major = 0; minor = 2; patch = 2; prerelease = none }

abbrev maximum_key : TagKey
maximum_key = record { major = 0; minor = 3; patch = 0; prerelease = none }

-- From 0.2.2 on, and before the release 0.3.0.
abbrev pub IsCompatible : TagKey → Type 0
IsCompatible key =
    (key.major ≡ 0)
    × (((key.minor ≡ 2) × (2 ≤ key.patch) × (key.prerelease ≡ none))
        ⊎ ((key.minor ≡ 2) × (2 < key.patch))
        ⊎ ((key.minor ≡ 3) × (key.patch ≡ 0) × (l : List Part) × (key.prerelease ≡ some l)))

-- The numbers of a release, and of a prerelease, in the range.
release_range :
    (a b c : ℕ)
    → is_less
        (and_then (compare_nat a 0) (and_then (compare_nat b 2) (and_then (compare_nat c 2) equal)))
      ≡ false
    → is_less
        (and_then (compare_nat a 0) (and_then (compare_nat b 3) (and_then (compare_nat c 0) equal)))
      ≡ true
    → (a ≡ 0) × ((b ≡ 2) × (2 ≤ c))
unfolding compare_nat and_then
release_range a b c low high = ground arith

prerelease_range :
    (a b c : ℕ)
    → is_less
        (and_then (compare_nat a 0) (and_then (compare_nat b 2) (and_then (compare_nat c 2) less)))
      ≡ false
    → is_less
        (and_then (compare_nat a 0) (and_then (compare_nat b 3) (and_then (compare_nat c 0) less)))
      ≡ true
    → (a ≡ 0) × (((b ≡ 2) × (2 < c)) ⊎ ((b ≡ 3) × (c ≡ 0)))
unfolding compare_nat and_then
prerelease_range a b c low high = ground arith

from_minimum :
    (key : TagKey)
    → is_less (compare_keys key minimum_key) ≡ false
    → is_less (compare_keys key maximum_key) ≡ true
    → IsCompatible key
unfolding compare_keys compare_nat and_then compare_prereleases
from_minimum key low high = go key.prerelease refl low high
  where
    go :
        (o : Option (List Part))
        → key.prerelease ≡ o
        → is_less (
            and_then (compare_nat key.major 0) (
              and_then
                (compare_nat key.minor 2)
                (and_then (compare_nat key.patch 2) (compare_prereleases o none))))
          ≡ false
        → is_less (
            and_then (compare_nat key.major 0) (
              and_then
                (compare_nat key.minor 3)
                (and_then (compare_nat key.patch 0) (compare_prereleases o none))))
          ≡ true
        → IsCompatible key
    go none e low high =
        let r = release_range key.major key.minor key.patch low high in (r.0, inl (r.1.0, r.1.1, e))
    go (some l) e low high =
        let r = prerelease_range key.major key.minor key.patch low high in
        (r.0, elim r.1 [ inl p ↦ inr (inl p) | inr p ↦ inr (inr (p.0, p.1, l, e)) ])

module _ (digit : ℕ → Option ℕ) (dot : digit b'.' ≡ none) where
  digits_from-dot : (n : ℕ) (s : Text) → digits_from digit n (b'.' ∷ s) ≡ (n, b'.' ∷ s)
  unfolding digits_from
  digits_from-dot n s = simp (digits_from, dot) refl

  -- The rest of the parsing, from the minor number and what follows it.
  from_minor : ℕ × Text → Result UpdatePackageError TagKey
  unfolding after_char numeral prerelease_of
  from_minor r = do
    s ← after_char digit b'.' r.1
    patch ← numeral digit s
    o ← prerelease_of digit patch.1
    ok (record { major = 0; minor = r.0; patch = patch.0; prerelease = o })

  minimum-parsed : parse_tag digit min_update_tag ≡ ok minimum_key
  unfolding parse_tag from_minor
  minimum-parsed = ap from_minor (digits_from-dot 2 (codes "2"))

  maximum-parsed : parse_tag digit source_maximum_exclusive ≡ ok maximum_key
  unfolding parse_tag from_minor
  maximum-parsed = ap from_minor (digits_from-dot 3 (codes "0"))

  -- A comparison that succeeds is that of the keys.
  compare_tags-ok :
      (left right : Text) (key other : TagKey) (c : Comparison)
      → parse_tag digit left ≡ ok key
      → parse_tag digit right ≡ ok other
      → compare_tags digit left right ≡ ok c
      → c ≡ compare_keys key other
  unfolding compare_tags
  compare_tags-ok left right key other c h k e =
      ok-injective (sym e ∙ bind-ok _ h (bind-ok _ k refl))

  -- A running version that may switch is one from 0.2.2 on and before the release 0.3.0: the range is
  -- the one of this code, whatever the release says, and a prerelease of 0.3.0 belongs to it.
  pub switch-IsCompatible :
      (range : TagRange) (current_tag : Text) (key : TagKey) (v : Unit)
      → parse_tag digit current_tag ≡ ok key
      → validate_source_compatibility digit range current_tag ≡ ok v
      → IsCompatible key
  unfolding validate_source_compatibility
  switch-IsCompatible range current_tag key v parsed h =
      let contract =
        bind-eq-ok
          (raise_if
            (not (range.minimum == min_update_tag)
              || not (range.maximum_exclusive == source_maximum_exclusive))
            wrong_range)
          _ h in
      let ends =
        or-false (not (range.minimum == min_update_tag)) _ (raise_if-ok _ wrong_range contract.1) in
      let from : range.minimum ≡ min_update_tag =
        (text_beq_iff range.minimum min_update_tag).0 (not-false _ ends.0) in
      let to : range.maximum_exclusive ≡ source_maximum_exclusive =
        (text_beq_iff range.maximum_exclusive source_maximum_exclusive).0 (not-false _ ends.1) in
      let low = bind-eq-ok (compare_tags digit current_tag range.minimum) _ contract.2 in
      let from_low = bind-eq-ok (raise_if (is_less low.0) cannot_switch) _ low.2 in
      let high = bind-eq-ok (compare_tags digit current_tag range.maximum_exclusive) _ from_low.2 in
      from_minimum key
        (ap is_less (
            sym (
              compare_tags-ok current_tag range.minimum key minimum_key low.0 parsed
                (ap (parse_tag digit) from ∙ minimum-parsed) low.1))
          ∙ raise_if-ok _ cannot_switch from_low.1)
        (ap is_less (
            sym (
              compare_tags-ok current_tag range.maximum_exclusive key maximum_key high.0 parsed
                (ap (parse_tag digit) to ∙ maximum-parsed) high.1))
          ∙ not-false _ (raise_if-ok _ cannot_switch high.2))
