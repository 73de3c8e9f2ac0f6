-- ===== src/Tags/Parse.antt =====
-- A prerelease of a version is less than the version.
use rocket_cat_shell_linux.Base.{
  ℕ, ◌+◌, ◌-◌, ◌*◌, ◌≡◌, refl, sym, ap, ap₂, ◌≢◌, ◌∙◌, inl, inr, Option-cases, Bool, true, false,
  ◌&&◌, Option, none, some, List, [], ◌∷◌, ◌++◌, leb, nat_beq, if◌then◌else◌, arith,
}
use rocket_cat_shell_linux.Base.Result.{Result, ok, raise, ◌>>=◌, bind-eq-ok, bind-ok, ok-injective}
use rocket_cat_shell_linux.Base.Text.{Text}
use rocket_cat_shell_linux.Tags.{
  Part, TagKey, less, equal, and_then, UpdatePackageError, invalid_tag, compare_prereleases,
  compare_keys, digits_from, numeral, part_keys, split_on, after_char, prerelease_of, parse_tag,
  compare_nat, compare_tags,
}

-- The numbers are the same, and what is a prerelease is less than what is not.
compare_keys-prerelease :
    (release : TagKey) (l : List Part)
    → release.prerelease ≡ none
    → compare_keys (record release { prerelease = some l }) release ≡ less
unfolding compare_keys compare_nat and_then compare_prereleases
compare_keys-prerelease release l h = ap₂ and_then (itself release.major) (
    ap₂ and_then (itself release.minor)
      (ap₂ and_then (itself release.patch) (ap (compare_prereleases (some l)) h)))
  where
    itself : (n : ℕ) → compare_nat n n ≡ equal
    itself n = ground arith

module _ (digit : ℕ → Option ℕ) (hyphen : digit b'-' ≡ none) where
  digits_from-append :
      (n : ℕ) (s t : Text)
      → digits_from digit n (s ++ (b'-' ∷ t))
        ≡ ((digits_from digit n s).0, (digits_from digit n s).1 ++ (b'-' ∷ t))
  unfolding digits_from
  digits_from-append n [] t = simp (digits_from, hyphen) refl
  digits_from-append n (c ∷ s) t = elim (Option-cases (digit c)) [
    | inl e ↦ simp (digits_from, e) refl
    | inr (d, e) ↦ simp (digits_from, e) (digits_from-append (n * 10 + d) s t)
  ]

  numeral-append :
      (s t : Text) (r : ℕ × Text)
      → numeral digit s ≡ ok r
      → numeral digit (s ++ (b'-' ∷ t)) ≡ ok (r.0, r.1 ++ (b'-' ∷ t))
  unfolding numeral
  numeral-append [] t r h = absurd cc
  numeral-append (c ∷ s) t r h = go (nat_beq c 48) (leb 49 c && leb c 57) h
    where
      found : ℕ → Text → Result UpdatePackageError (ℕ × Text)
      found n rest = ok (n, rest)

      go :
          (zero_first other : Bool)
          → (if zero_first
              then ok (0, s)
              else if other
              then ok (digits_from digit (c - 48) s)
              else raise invalid_tag)
            ≡ ok r
          → (if zero_first
              then ok (0, s ++ (b'-' ∷ t))
              else if other
              then ok (digits_from digit (c - 48) (s ++ (b'-' ∷ t)))
              else raise invalid_tag)
            ≡ ok (r.0, r.1 ++ (b'-' ∷ t))
      go true other h = ap (λ (v : ℕ × Text). found v.0 (v.1 ++ (b'-' ∷ t))) (ok-injective h)
      go false true h =
          ap (λ (v : ℕ × Text). found v.0 v.1) (digits_from-append (c - 48) s t)
          ∙ ap (λ (v : ℕ × Text). found v.0 (v.1 ++ (b'-' ∷ t))) (ok-injective h)
      go false false h = absurd cc

  after_char-append :
      (sep : ℕ) (s t r : Text)
      → after_char digit sep s ≡ ok r
      → after_char digit sep (s ++ t) ≡ ok (r ++ t)
  unfolding after_char
  after_char-append sep [] t r h = absurd cc
  after_char-append sep (c ∷ s) t r h = go (nat_beq c sep) h
    where
      go :
          (b : Bool)
          → (if b then ok s else raise invalid_tag) ≡ ok r
          → (if b then ok (s ++ t) else raise invalid_tag) ≡ ok (r ++ t)
      go true h = ap (λ (v : Text). ok (v ++ t)) (ok-injective h)
      go false h = absurd cc

  some-none : (l : List Part) → some l ≢ none
  some-none l e = cc

  -- Nothing follows the patch number of a version that is not a prerelease.
  prerelease_of-none : (s : Text) → prerelease_of digit s ≡ ok none → s ≡ []
  unfolding prerelease_of
  prerelease_of-none [] h = refl
  prerelease_of-none (c ∷ s) h = go (nat_beq c b'-') h
    where
      go :
          (b : Bool)
          → (if b
              then (do
                parts ← part_keys ((split_on b'.' s).0 ∷ (split_on b'.' s).1)
                ok (some parts))
              else raise invalid_tag)
            ≡ ok none
          → c ∷ s ≡ []
      go true h =
          let last = bind-eq-ok (part_keys ((split_on b'.' s).0 ∷ (split_on b'.' s).1)) _ h in
          absurd (some-none last.0 (ok-injective last.2))
      go false h = absurd cc

  prerelease_of-some :
      (s : Text) (o : Option (List Part))
      → prerelease_of digit (b'-' ∷ s) ≡ ok o
      → (l : List Part) × (o ≡ some l)
  unfolding prerelease_of
  prerelease_of-some s o h =
      let last = bind-eq-ok (part_keys ((split_on b'.' s).0 ∷ (split_on b'.' s).1)) _ h in
      (last.0, sym (ok-injective last.2))

  -- A version with a prerelease at its end is parsed to the same numbers.
  parse_tag-append :
      (tag s : Text) (key : TagKey)
      → parse_tag digit tag ≡ ok key
      → key.prerelease ≡ none
      → parse_tag digit (tag ++ (b'-' ∷ s))
        ≡ (do o ← prerelease_of digit (b'-' ∷ s); ok (record key { prerelease = o }))
  unfolding parse_tag
  parse_tag-append tag s key h is_release =
      let a = bind-eq-ok (after_char digit b'v' tag) _ h in
      let major = bind-eq-ok (numeral digit a.0) _ a.2 in
      let b = bind-eq-ok (after_char digit b'.' major.0.1) _ major.2 in
      let minor = bind-eq-ok (numeral digit b.0) _ b.2 in
      let c = bind-eq-ok (after_char digit b'.' minor.0.1) _ minor.2 in
      let patch = bind-eq-ok (numeral digit c.0) _ c.2 in
      let last = bind-eq-ok (prerelease_of digit patch.0.1) _ patch.2 in
      let same_key = ok-injective last.2 in
      let at_end : patch.0.1 ≡ [] =
        prerelease_of-none patch.0.1
          (last.1 ∙ ap ok (ap (λ (k : TagKey). k.prerelease) same_key ∙ is_release)) in
      bind-ok _ (after_char-append b'v' tag (b'-' ∷ s) a.0 a.1) (
        bind-ok _ (numeral-append a.0 s major.0 major.1) (
          bind-ok _ (after_char-append b'.' major.0.1 (b'-' ∷ s) b.0 b.1) (
            bind-ok _ (numeral-append b.0 s minor.0 minor.1) (
              bind-ok _ (after_char-append b'.' minor.0.1 (b'-' ∷ s) c.0 c.1) (
                bind-ok _ (numeral-append c.0 s patch.0 patch.1) (
                  ap₂
                    (λ (r : Text) (k : TagKey). (do
                      o ← prerelease_of digit (r ++ (b'-' ∷ s))
                      ok (record k { prerelease = o })))
                    at_end same_key))))))

  -- A tag that is a version without a prerelease, and the tag that has a hyphen and a prerelease after
  -- it, if that is a version too: the second is less than the first.
  pub prerelease-less :
      (tag s : Text) (release key : TagKey)
      → parse_tag digit tag ≡ ok release
      → release.prerelease ≡ none
      → parse_tag digit (tag ++ (b'-' ∷ s)) ≡ ok key
      → compare_tags digit (tag ++ (b'-' ∷ s)) tag ≡ ok less
  unfolding compare_tags compare_keys compare_prereleases and_then
  prerelease-less tag s release key h is_release k =
      let last =
        bind-eq-ok (prerelease_of digit (b'-' ∷ s)) _
          (sym (parse_tag-append tag s release h is_release) ∙ k) in
      let found = prerelease_of-some s last.0 last.1 in
      bind-ok _ k (
        bind-ok _ h (
          ap ok (
            ap (λ (v : TagKey). compare_keys v release)
              (sym (ok-injective last.2) ∙ ap (λ o. record release { prerelease = o }) found.1)
            ∙ compare_keys-prerelease release found.0 is_release)))
