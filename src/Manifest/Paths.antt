-- ===== src/Manifest/Paths.antt =====
-- A path that is accepted stays inside the release, and is accepted as it is written down.
use rocket_cat_shell_linux.Base.{
  ℕ, ◌≡◌, refl, sym, ap, ap₂, ◌∙◌, inl, inr, Bool, true, false, ◌||◌, ◌&&◌, List, [], ◌∷◌, ◌++◌,
  nat_beq, if◌then◌else◌, ◌==◌, All, All-map, Bool-cases,
}
use rocket_cat_shell_linux.Base.Result.{ok, raise, bind-eq-ok, bind-ok, ok-injective}
use rocket_cat_shell_linux.Base.Text.{Text, text_key, codes, starts_with, is_empty}
use rocket_cat_shell_linux.Tags.{unsafe_path, protected_path, unknown_path, split_on}
use rocket_cat_shell_linux.Manifest.{
  contains, raise_if, has_char, is_no_relative, keep_parts, parts, as_posix, has_none,
  validate_components, packaged, is_packaged_path, validated_relative_path,
}
use rocket_cat_shell_linux.Manifest.Accepted.{raise_if-ok, or-false}

abbrev pieces : Text → List Text
pieces s = (split_on b'/' s).0 ∷ (split_on b'/' s).1

abbrev Lacks : ℕ → Text → Type 0
Lacks c t = has_char c t ≡ false

Lacks-own_pieces : (s : Text) → All (Lacks b'/') (pieces s)
unfolding split_on has_char
Lacks-own_pieces [] = (refl, tt)
Lacks-own_pieces (c ∷ s) = elim (Bool-cases (nat_beq c b'/')) [
  | inl y ↦ simp (split_on, y) (refl, Lacks-own_pieces s)
  | inr n ↦ simp (split_on, n) ((Lacks-own_pieces s).0, (Lacks-own_pieces s).1)
]

Lacks-pieces : (x : ℕ) (s : Text) → Lacks x s → All (Lacks x) (pieces s)
unfolding split_on has_char
Lacks-pieces x [] h = (refl, tt)
Lacks-pieces x (c ∷ s) h =
    let both = or-false (nat_beq c x) (has_char x s) h in
    let rest = Lacks-pieces x s both.1 in
    elim (Bool-cases (nat_beq c b'/')) [
      | inl y ↦ simp (split_on, y) (refl, rest)
      | inr n ↦ simp (split_on, n) (simp (has_char, both.0) rest.0, rest.1)
    ]

-- What `PurePosixPath` keeps: a part is not empty, no dot, and has no slash.
abbrev IsPart : Text → Type 0
IsPart t = (is_empty t || t == codes "." ≡ false) × Lacks b'/' t

All-keep_parts :
    (P : Text → Type 0) (l : List Text)
    → All P l
    → All (λ (t : Text). (is_empty t || t == codes "." ≡ false) × P t) (keep_parts l)
unfolding keep_parts
All-keep_parts P [] h = tt
All-keep_parts P (t ∷ l) h = elim (Bool-cases (is_empty t || t == codes ".")) [
  | inl y ↦ simp (keep_parts, y) (All-keep_parts P l h.1)
  | inr n ↦ simp (keep_parts, n) ((refl, h.0), All-keep_parts P l h.1)
]

keep_parts_self : (l : List Text) → All IsPart l → keep_parts l ≡ l
unfolding keep_parts
keep_parts_self [] h = refl
keep_parts_self (t ∷ l) h = simp (keep_parts, h.0.0) (ap (◌∷◌ t) (keep_parts_self l h.1))

pieces-one : (t : Text) → Lacks b'/' t → split_on b'/' t ≡ (t, [])
unfolding split_on has_char
pieces-one [] h = refl
pieces-one (c ∷ t) h =
    let both = or-false (nat_beq c b'/') (has_char b'/' t) h in
    simp (split_on, both.0, pieces-one t both.1) refl

pieces-append : (t s : Text) → Lacks b'/' t → split_on b'/' (t ++ (b'/' ∷ s)) ≡ (t, pieces s)
unfolding split_on has_char
pieces-append [] s h = refl
pieces-append (c ∷ t) s h =
    let both = or-false (nat_beq c b'/') (has_char b'/' t) h in
    simp (split_on, both.0, pieces-append t s both.1) refl

pieces-as_posix :
    (t : Text) (l : List Text) → All IsPart (t ∷ l) → pieces (as_posix (t ∷ l)) ≡ t ∷ l
unfolding as_posix
pieces-as_posix t [] h = ap (λ (p : Text × List Text). p.0 ∷ p.1) (pieces-one t h.0.1)
pieces-as_posix t (u ∷ l) h =
    ap (λ (p : Text × List Text). p.0 ∷ p.1) (pieces-append t (as_posix (u ∷ l)) h.0.1)
    ∙ ap (◌∷◌ t) (pieces-as_posix u l h.1)

has_char-append : (x : ℕ) (s t : Text) → Lacks x s → Lacks x t → Lacks x (s ++ t)
unfolding has_char
has_char-append x [] t h k = k
has_char-append x (c ∷ s) t h k =
    let both = or-false (nat_beq c x) (has_char x s) h in
    simp both.0 (has_char-append x s t both.1 k)

Lacks-as_posix :
    (x : ℕ) (l : List Text) → nat_beq b'/' x ≡ false → All (Lacks x) l → Lacks x (as_posix l)
unfolding as_posix has_char
Lacks-as_posix x [] n h = refl
Lacks-as_posix x (t ∷ []) n h = h.0
Lacks-as_posix x (t ∷ u ∷ l) n h =
    has_char-append x t (b'/' ∷ as_posix (u ∷ l)) h.0
      (simp (has_char, n) (Lacks-as_posix x (u ∷ l) n h.1))

-- A path of parts does not begin with a slash, and is not empty.
as_posix-relative :
    (t : Text) (l : List Text)
    → IsPart t
    → (is_empty (as_posix (t ∷ l)) ≡ false) × (starts_with (as_posix (t ∷ l)) (codes "/") ≡ false)
unfolding as_posix has_char starts_with
as_posix-relative [] l h = let e : true ≡ false = h.0 in absurd cc
as_posix-relative (c ∷ t) [] h = (refl, ap (λ b. b && true) (or-false (nat_beq c b'/') _ h.1).0)
as_posix-relative (c ∷ t) (u ∷ l) h =
    (refl, ap (λ b. b && true) (or-false (nat_beq c b'/') _ h.1).0)

module _ (casefold : Text → Text) where
  packaged-as_posix : (l : List Text) (t : Text) → packaged casefold l ≡ ok t → as_posix l ≡ t
  unfolding packaged
  packaged-as_posix l t h = go (is_packaged_path (as_posix l)) _ h
    where
      go :
          (b is_protected : Bool)
          → (if b
              then ok (as_posix l)
              else if is_protected
              then raise protected_path
              else raise unknown_path)
            ≡ ok t
          → as_posix l ≡ t
      go true is_protected h = ok-injective h
      go false true h = absurd cc
      go false false h = absurd cc

  -- The parts of what is written down are the parts again.
  parts-as_posix :
      (t : Text) (l : List Text) → All IsPart (t ∷ l) → parts (as_posix (t ∷ l)) ≡ t ∷ l
  unfolding parts
  parts-as_posix t l h = ap keep_parts (pieces-as_posix t l h) ∙ keep_parts_self (t ∷ l) h

  validated-as_posix :
      (l : List Text) (t : Text) (v : Unit)
      → has_none l ≡ false
      → All IsPart l
      → All (Lacks b'\\') l
      → All (Lacks b':') l
      → contains (codes "..") l ≡ false
      → validate_components l ≡ ok v
      → packaged casefold l ≡ ok t
      → (parts (as_posix l) ≡ l) × (validated_relative_path casefold (as_posix l) ≡ ok t)
  unfolding validated_relative_path raise_if is_no_relative
  validated-as_posix [] t v some_part h back colon dots components p = absurd cc
  validated-as_posix (u ∷ l) t v some_part h back colon dots components p =
      let same_parts = parts-as_posix u l h in
      let relative = as_posix-relative u l h.0 in
      (
        same_parts,
        bind-ok _
            (ap (λ b. raise_if b unsafe_path)
              (ap₂ ◌||◌ (Lacks-as_posix b'\\' (u ∷ l) refl back)
                (Lacks-as_posix b':' (u ∷ l) refl colon)))
            (bind-ok _
              (ap (λ b. raise_if b unsafe_path)
                (ap₂ ◌||◌
                  (ap₂ ◌||◌ (ap₂ ◌||◌ relative.0 relative.1)
                    (ap (contains (codes "..")) same_parts ∙ dots))
                  (ap has_none same_parts)))
              (bind-ok _ (ap validate_components same_parts ∙ components)
                (ap (packaged casefold) same_parts ∙ p))),
      )

  parts-Lacks : (x : ℕ) (text : Text) → Lacks x text → All (Lacks x) (parts text)
  unfolding parts
  parts-Lacks x text h =
      All-map _ (Lacks x) (λ t q. q.1) (parts text)
        (All-keep_parts (Lacks x) (pieces text) (Lacks-pieces x text h))

  -- A path that is accepted, for a text, has the parts of the text, and none of them is the parent
  -- directory. Accepting the path again gives the same path.
  pub validated-idempotent :
      (text t : Text)
      → validated_relative_path casefold text ≡ ok t
      → (parts t ≡ parts text)
        × (contains (codes "..") (parts t) ≡ false)
        × (validated_relative_path casefold t ≡ ok t)
  unfolding validated_relative_path is_no_relative parts
  validated-idempotent text t h =
      let separators =
        bind-eq-ok (raise_if (has_char b'\\' text || has_char b':' text) unsafe_path) _ h in
      let relative = bind-eq-ok (raise_if (is_no_relative text) unsafe_path) _ separators.2 in
      let components = bind-eq-ok (validate_components (parts text)) _ relative.2 in
      let chars = or-false _ _ (raise_if-ok _ unsafe_path separators.1) in
      let some_part = or-false _ (has_none (parts text)) (raise_if-ok _ unsafe_path relative.1) in
      let inside = or-false _ (contains (codes "..") (parts text)) some_part.0 in
      let written = packaged-as_posix (parts text) t components.2 in
      let again =
        validated-as_posix (parts text) t components.0 some_part.1
          (All-keep_parts (Lacks b'/') (pieces text) (Lacks-own_pieces text))
          (parts-Lacks b'\\' text chars.0) (parts-Lacks b':' text chars.1) inside.1 components.1
          components.2 in
      let same_parts : parts t ≡ parts text = ap parts (sym written) ∙ again.0 in
      (
        same_parts,
        ap (contains (codes "..")) same_parts ∙ inside.1,
        ap (validated_relative_path casefold) (sym written) ∙ again.1,
      )
