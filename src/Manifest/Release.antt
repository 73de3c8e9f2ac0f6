-- ===== src/Manifest/Release.antt =====
-- What an accepted manifest says of the release that was checked with it.
use rocket_cat_shell_linux.Base.{
  ℕ, ◌≡◌, refl, sym, ap, ◌∙◌, inl, inr, Bool, true, false, ◌||◌, ◌&&◌, not, Option, none, some,
  List, [], ◌∷◌, ltb, nat_beq, length, ◌==◌, All, arith, Bool-cases,
}
use rocket_cat_shell_linux.Base.Result.{ok, bind-eq-ok, ok-injective}
use rocket_cat_shell_linux.Base.Text.{Text, text_key, text_beq_iff, codes}
use rocket_cat_shell_linux.Tags.{
  not_compatible, unsupported_format, wrong_product, wrong_version, wrong_count, missing_required,
  missing_directory, list_mismatch, wrong_runtime, compare_tags,
}
use rocket_cat_shell_linux.Manifest.{
  contains, raise_if, managed_directories, managed_files, image_deployment_files,
}
use rocket_cat_shell_linux.Manifest.Check.{
  Manifest, Candidate, Declared, none_declared, min_update_tag, max_release_files, is_less, differs,
  differs_number, all_contained, all_directories, check_header, check_candidate, add_entries,
  validate_source_compatibility, validate_persistent_compatibility, validate_manifest,
}
use rocket_cat_shell_linux.Manifest.Declares.{Declares, add_entries-Declares}
use rocket_cat_shell_linux.Manifest.Accepted.{
  raise_if-ok, or-false, not-false, IsAccepted, accepted, IsVerified, accepted-IsVerified,
}

and-true : (a b : Bool) → (a && b) ≡ true → (a ≡ true) × (b ≡ true)
and-true a b h = ground arith

same_truth : (a b : Bool) → (a ≡ true → b ≡ true) → (b ≡ true → a ≡ true) → a ≡ b
same_truth true b f g = sym (f refl)
same_truth false true f g = g refl
same_truth false false f g = refl

contains-all_contained :
    (t : Text) (s l : List Text)
    → all_contained s l ≡ true
    → contains t s ≡ true
    → contains t l ≡ true
unfolding all_contained contains
contains-all_contained t [] l h k = absurd cc
contains-all_contained t (u ∷ s) l h k =
    let both = and-true (contains u l) (all_contained s l) h in
    elim (Bool-cases (u == t)) [
      | inl y ↦ ap (λ x. contains x l) (sym ((text_beq_iff u t).0 y)) ∙ both.0
      | inr n ↦ contains-all_contained t s l both.1 (sym (ap (λ b. b || contains t s) n) ∙ k)
    ]

differs-false : (o : Option Text) (t : Text) → differs o t ≡ false → o ≡ some t
unfolding differs
differs-false none t h = absurd cc
differs-false (some u) t h = ap some ((text_beq_iff u t).0 (not-false _ h))

-- The tags that the header was compared with.
check_header-tags :
    (python_runs : Bool) (expected_tag : Text) (m : Manifest) (v : Unit)
    → check_header python_runs expected_tag m ≡ ok v
    → (m.tag_name ≡ some expected_tag) × (m.version ≡ some expected_tag)
unfolding check_header
check_header-tags python_runs expected_tag m v h =
    let format =
      bind-eq-ok (raise_if (differs_number m.manifest_format 1) unsupported_format) _ h in
    let product =
      bind-eq-ok
        (raise_if (differs m.product (codes "RocketCatShell") || differs m.platform (codes "linux"))
          wrong_product)
        _ format.2 in
    let tag =
      bind-eq-ok
        (raise_if (differs m.tag_name expected_tag || differs m.version expected_tag) wrong_version)
        _ product.2 in
    let tags = or-false _ _ (raise_if-ok _ wrong_version tag.1) in
    (differs-false m.tag_name expected_tag tags.0, differs-false m.version expected_tag tags.1)

module _ (casefold lower : Text → Text) (candidate : Candidate) where
  -- The files of the release are those that are declared, the running version is the expected one, and
  -- the managed directories are there.
  abbrev pub IsComplete : List Text → Text → Type 0
  IsComplete declared expected_tag =
      (all_directories candidate managed_directories ≡ true)
      × ((t : Text) → contains t candidate.files ≡ contains t declared)
      × (candidate.runtime_version ≡ some expected_tag)

  check_candidate-IsComplete :
      (declared : List Text) (expected_tag : Text) (v : Unit)
      → check_candidate (some candidate) declared expected_tag ≡ ok v
      → IsComplete declared expected_tag
  unfolding check_candidate
  check_candidate-IsComplete declared expected_tag v h =
      let directories =
        bind-eq-ok
          (raise_if (not (all_directories candidate managed_directories)) missing_directory) _ h in
      let lists =
        bind-eq-ok
          (raise_if
            (not (all_contained candidate.files declared && all_contained declared candidate.files))
            list_mismatch)
          _ directories.2 in
      let both = and-true _ _ (not-false _ (raise_if-ok _ list_mismatch lists.1)) in
      (
        not-false _ (raise_if-ok _ missing_directory directories.1),
        (λ t.
            same_truth _ _ (contains-all_contained t candidate.files declared both.0)
              (contains-all_contained t declared candidate.files both.1)),
        differs-false candidate.runtime_version expected_tag (raise_if-ok _ wrong_runtime lists.2),
      )

  -- What an accepted manifest and the release that was checked with it are.
  abbrev pub IsRelease : Manifest → Text → Type 0
  IsRelease m expected_tag =
      (m.tag_name ≡ some expected_tag)
      × (m.version ≡ some expected_tag)
      × All (IsVerified casefold lower candidate) m.entries
      × ((d : Declared) × Declares casefold m.entries none_declared d
          × IsAccepted casefold lower (some candidate) d
          × (all_contained managed_files d.declared ≡ true)
          × (all_contained image_deployment_files d.declared ≡ true)
          × IsComplete d.declared expected_tag)

  -- A manifest that validate_manifest accepts, together with the release of its files, has the expected
  -- tag as its tag and its version. Every entry has a regular file of its size and digest. The paths
  -- that the entries declare differ in more than case, may all be packaged, have the required files
  -- among them, and are the files that the release has; the sizes that the entries declare are
  -- together within the limit.
  pub validate_manifest-IsRelease :
      (digit : ℕ → Option ℕ) (python_runs : Bool) (expected_tag current_tag : Text)
      (m result : Manifest)
      → validate_manifest digit casefold lower python_runs
          (some candidate)
          expected_tag
          current_tag
          (some m)
        ≡ ok result
      → (result ≡ m) × IsRelease m expected_tag
  unfolding validate_manifest
  validate_manifest-IsRelease digit python_runs expected_tag current_tag m result h =
      let age = bind-eq-ok (compare_tags digit expected_tag min_update_tag) _ h in
      let compatible = bind-eq-ok (raise_if (is_less age.0) not_compatible) _ age.2 in
      let header = bind-eq-ok (check_header python_runs expected_tag m) _ compatible.2 in
      let source =
        bind-eq-ok (validate_source_compatibility digit m.source_range current_tag) _ header.2 in
      let persistent = bind-eq-ok (validate_persistent_compatibility m) _ source.2 in
      let count =
        bind-eq-ok
          (raise_if (nat_beq (length m.entries) 0 || ltb max_release_files (length m.entries))
            wrong_count)
          _ persistent.2 in
      let d =
        bind-eq-ok (add_entries casefold lower (some candidate) m.entries none_declared) _
          count.2 in
      let required =
        bind-eq-ok
          (raise_if
            (not (
              all_contained managed_files d.0.declared
              && all_contained image_deployment_files d.0.declared))
            missing_required)
          _ d.2 in
      let release =
        bind-eq-ok (check_candidate (some candidate) d.0.declared expected_tag) _ required.2 in
      let tags = check_header-tags python_runs expected_tag m header.0 header.1 in
      let files = and-true _ _ (not-false _ (raise_if-ok _ missing_required required.1)) in
      (
        sym (ok-injective release.2),
        (
          tags.0,
          tags.1,
          accepted-IsVerified casefold lower candidate m.entries none_declared d.0 d.1,
          (
            d.0,
            add_entries-Declares casefold lower (some candidate) m.entries none_declared d.0 d.1,
            accepted casefold lower (some candidate) m.entries d.0 d.1,
            files.0,
            files.1,
            check_candidate-IsComplete d.0.declared expected_tag release.0 release.1,
          ),
        ),
      )
