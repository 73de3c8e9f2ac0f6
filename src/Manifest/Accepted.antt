-- ===== src/Manifest/Accepted.antt =====
-- What holds of the files of a manifest whose loop raises nothing.
use rocket_cat_shell_linux.Base.{
  ℕ, ◌+◌, ◌≤◌, ◌≡◌, refl, sym, ap, ◌∙◌, Bool, true, false, ◌||◌, not, Option, none, some, List, [],
  ◌∷◌, ltb, nat_beq, nat_beq_iff, if◌then◌else◌, ◌==◌, All, arith,
}
use rocket_cat_shell_linux.Base.Int.{ℤ, pos, negsuc}
use rocket_cat_shell_linux.Base.Result.{ok, raise, bind-eq-ok, ok-injective}
use rocket_cat_shell_linux.Base.Text.{text_key, Text, text_beq_iff}
use rocket_cat_shell_linux.Tags.{
  UpdatePackageError, unsafe_path, protected_path, unknown_path, duplicate_paths, wrong_digest,
  too_large, missing_file, failed_verification,
}
use rocket_cat_shell_linux.Manifest.{
  contains, raise_if, has_char, is_packaged_path, is_no_relative, parts, as_posix,
  validate_components, packaged, validated_relative_path,
}
use rocket_cat_shell_linux.Manifest.Check.{
  FileEntry, Candidate, Declared, none_declared, max_release_bytes, is_sha256, checked_size,
  check_file, add_entry, add_entries,
}

-- A guard that did not raise.
pub raise_if-ok :
    (condition : Bool) (error : UpdatePackageError) {v : Unit}
    → raise_if condition error ≡ ok v
    → condition ≡ false
unfolding raise_if
raise_if-ok true error h = absurd cc
raise_if-ok false error h = refl

pub or-false : (a b : Bool) → (a || b) ≡ false → (a ≡ false) × (b ≡ false)
or-false a b h = ground arith

pub not-false : (a : Bool) → not a ≡ false → a ≡ true
not-false a h = ground arith

leb-of : (n : ℕ) → ltb max_release_bytes n ≡ false → n ≤ max_release_bytes
leb-of n h = ground arith

pub checked_size-ok : (size : Option ℤ) (n : ℕ) → checked_size size ≡ ok n → size ≡ some (pos n)
unfolding checked_size
checked_size-ok (some (pos m)) n h = ap (λ (k : ℕ). some (pos k)) (ok-injective h)
checked_size-ok (some (negsuc m)) n h = absurd cc
checked_size-ok none n h = absurd cc

module _ (casefold lower : Text → Text) (candidate : Option Candidate) where
  -- No path stands twice, whatever the case of its letters; all of them may be packaged, and the sizes
  -- are no more than the limit.
  abbrev AreDistinct : List Text → Type 0
  AreDistinct [] = Unit
  AreDistinct (t ∷ l) = (contains t l ≡ false) × AreDistinct l

  abbrev pub IsAccepted : Declared → Type 0
  IsAccepted d =
      AreDistinct d.folded_paths
      × AreDistinct d.declared
      × All (λ (t : Text). is_packaged_path t ≡ true) d.declared
      × (d.total_size ≤ max_release_bytes)

  packaged-is_packaged :
      (l : List Text) (t : Text) → packaged casefold l ≡ ok t → is_packaged_path t ≡ true
  unfolding packaged
  packaged-is_packaged l t h = go (is_packaged_path (as_posix l)) _ refl h
    where
      go :
          (b is_protected : Bool)
          → is_packaged_path (as_posix l) ≡ b
          → (if b
              then ok (as_posix l)
              else if is_protected
              then raise protected_path
              else raise unknown_path)
            ≡ ok t
          → is_packaged_path t ≡ true
      go true is_protected e h = ap is_packaged_path (sym (ok-injective h)) ∙ e
      go false true e h = absurd cc
      go false false e h = absurd cc

  validated-is_packaged :
      (text t : Text) → validated_relative_path casefold text ≡ ok t → is_packaged_path t ≡ true
  unfolding validated_relative_path
  validated-is_packaged text t h =
      let separators =
        bind-eq-ok (raise_if (has_char b'\\' text || has_char b':' text) unsafe_path) _ h in
      let relative = bind-eq-ok (raise_if (is_no_relative text) unsafe_path) _ separators.2 in
      let components = bind-eq-ok (validate_components (parts text)) _ relative.2 in
      packaged-is_packaged (parts text) t components.2

  -- What the entry passed, with the path and the size it is found to have.
  abbrev pub Passed : FileEntry → Declared → Declared → Type 0
  Passed entry d next =
      (t : Text) × (n : ℕ) × (validated_relative_path casefold entry.path ≡ ok t)
      × (contains t d.declared ≡ false)
      × (contains (casefold t) d.folded_paths ≡ false)
      × (checked_size entry.size ≡ ok n)
      × (d.total_size + n ≤ max_release_bytes)
      × (check_file candidate t n (lower entry.sha256) ≡ ok tt)
      × (record {
        declared = t ∷ d.declared;
        folded_paths = casefold t ∷ d.folded_paths;
        total_size = d.total_size + n;
      }
          ≡ next)

  pub add_entry-Passed :
      (entry : FileEntry) (d next : Declared)
      → add_entry casefold lower candidate (some entry) d ≡ ok next
      → Passed entry d next
  unfolding add_entry
  add_entry-Passed entry d next h =
      let relative = bind-eq-ok (validated_relative_path casefold entry.path) _ h in
      let t = relative.0 in
      let fresh =
        bind-eq-ok
          (raise_if (contains t d.declared || contains (casefold t) d.folded_paths) duplicate_paths)
          _ relative.2 in
      let size = bind-eq-ok (checked_size entry.size) _ fresh.2 in
      let digest =
        bind-eq-ok (raise_if (not (is_sha256 (lower entry.sha256))) wrong_digest) _ size.2 in
      let fits =
        bind-eq-ok (raise_if (ltb max_release_bytes (d.total_size + size.0)) too_large) _
          digest.2 in
      let verified = bind-eq-ok (check_file candidate t size.0 (lower entry.sha256)) _ fits.2 in
      let is_new = or-false (contains t d.declared) _ (raise_if-ok _ duplicate_paths fresh.1) in
      let within : d.total_size + size.0 ≤ max_release_bytes =
        leb-of (d.total_size + size.0) (raise_if-ok _ too_large fits.1) in
      (
        t,
        size.0,
        relative.1,
        is_new.0,
        is_new.1,
        size.1,
        within,
        verified.1,
        ok-injective verified.2,
      )

  add_entry-IsAccepted :
      (entry : Option FileEntry) (d next : Declared)
      → add_entry casefold lower candidate entry d ≡ ok next
      → IsAccepted d
      → IsAccepted next
  unfolding add_entry
  add_entry-IsAccepted none d next h p = absurd cc
  add_entry-IsAccepted (some entry) d next h (folded, distinct, packaged_all, small) =
      let q = add_entry-Passed entry d next h in
      rw (sym q.8) (
        (q.4, folded),
        (q.3, distinct),
        (validated-is_packaged entry.path q.0 q.2, packaged_all),
        q.6,
      )

  add_entries-IsAccepted :
      (l : List (Option FileEntry)) (d last : Declared)
      → add_entries casefold lower candidate l d ≡ ok last
      → IsAccepted d
      → IsAccepted last
  unfolding add_entries
  add_entries-IsAccepted [] d last h p = rw (sym (ok-injective h)) p
  add_entries-IsAccepted (entry ∷ l) d last h p =
      let next = bind-eq-ok (add_entry casefold lower candidate entry d) _ h in
      add_entries-IsAccepted l next.0 last next.2 (add_entry-IsAccepted entry d next.0 next.1 p)

  -- The entries that the loop accepts have paths that differ, even when the case of their letters is
  -- folded, that may all be packaged, and sizes that are together within the limit.
  pub accepted :
      (l : List (Option FileEntry)) (d : Declared)
      → add_entries casefold lower candidate l none_declared ≡ ok d
      → IsAccepted d
  accepted l d h = add_entries-IsAccepted l none_declared d h (tt, tt, tt, ground arith)

module _ (casefold lower : Text → Text) (candidate : Candidate) where
  -- The file of the entry is there, with the size and the digest of the entry.
  abbrev pub IsVerified : Option FileEntry → Type 0
  IsVerified none = ⊥
  IsVerified (some entry) =
      (t : Text) × (validated_relative_path casefold entry.path ≡ ok t)
      × (candidate.is_regular t ≡ true)
      × (entry.size ≡ some (pos (candidate.size_of t)))
      × (lower entry.sha256 ≡ candidate.sha256_of t)

  check_file-ok :
      (t : Text) (n : ℕ) (digest : Text)
      → check_file (some candidate) t n digest ≡ ok tt
      → (candidate.is_regular t ≡ true)
        × (candidate.size_of t ≡ n)
        × (digest ≡ candidate.sha256_of t)
  unfolding check_file
  check_file-ok t n digest h =
      let regular = bind-eq-ok (raise_if (not (candidate.is_regular t)) missing_file) _ h in
      let both =
        or-false (not (nat_beq (candidate.size_of t) n)) (not (digest == candidate.sha256_of t))
          (raise_if-ok _ failed_verification regular.2) in
      (
        not-false (candidate.is_regular t) (raise_if-ok _ missing_file regular.1),
        (nat_beq_iff (candidate.size_of t) n).0 (not-false _ both.0),
        (text_beq_iff digest (candidate.sha256_of t)).0 (not-false _ both.1),
      )

  add_entry-IsVerified :
      (entry : Option FileEntry) (d next : Declared)
      → add_entry casefold lower (some candidate) entry d ≡ ok next
      → IsVerified entry
  unfolding add_entry
  add_entry-IsVerified none d next h = absurd cc
  add_entry-IsVerified (some entry) d next h =
      let q = add_entry-Passed casefold lower (some candidate) entry d next h in
      let file = check_file-ok q.0 q.1 (lower entry.sha256) q.7 in
      (
        q.0,
        q.2,
        file.0,
        checked_size-ok entry.size q.1 q.5 ∙ ap (λ (k : ℕ). some (pos k)) (sym file.1),
        file.2,
      )

  -- Where there is a release to check, every entry of an accepted list is one whose file is there, is
  -- regular, and has the size and the digest of the entry.
  pub accepted-IsVerified :
      (l : List (Option FileEntry)) (d last : Declared)
      → add_entries casefold lower (some candidate) l d ≡ ok last
      → All IsVerified l
  unfolding add_entries
  accepted-IsVerified [] d last h = tt
  accepted-IsVerified (entry ∷ l) d last h =
      let next = bind-eq-ok (add_entry casefold lower (some candidate) entry d) _ h in
      (add_entry-IsVerified entry d next.0 next.1, accepted-IsVerified l next.0 last next.2)
