-- ===== src/Media/Names.antt =====
-- The names under which files are published.
use rocket_cat_shell_linux.Base.{
  ℕ, ◌≡◌, refl, Bool, true, false, [], ◌∷◌, All, arith, Bool-cases, inl, inr, ◌&&◌,
}
use rocket_cat_shell_linux.Base.Text.{
  Text, codes, is_empty, or_else, strip_chars, lstrip_chars, rstrip_chars,
}
use rocket_cat_shell_linux.Media.{
  Library, is_unsafe, is_space_or_dot, replace_unsafe, safe_filename,
}

-- A character that does not separate paths and is no control character.
abbrev pub IsSafe : ℕ → Type 0
IsSafe c = is_unsafe c ≡ false

-- The last character, if there is one, passes no test `p`.
abbrev pub EndsOutside : (ℕ → Bool) → Text → Type 0
EndsOutside p [] = Unit
EndsOutside p (c ∷ []) = p c ≡ false
EndsOutside p (c ∷ d ∷ s) = EndsOutside p (d ∷ s)

abbrev pub StartsOutside : (ℕ → Bool) → Text → Type 0
StartsOutside p [] = Unit
StartsOutside p (c ∷ s) = p c ≡ false

-- What a published name is made of: it is not empty, has safe characters only, and neither starts
-- nor ends with a dot or a space.
pub record IsPublishable (t : Text) : Type 0 where
  pub some_text : is_empty t ≡ false
  pub safe : All IsSafe t
  pub start : StartsOutside is_space_or_dot t
  pub end : EndsOutside is_space_or_dot t

replace_unsafe-IsSafe : (run : Bool) (s : Text) → All IsSafe (replace_unsafe run s)
unfolding replace_unsafe
replace_unsafe-IsSafe run [] = tt
replace_unsafe-IsSafe run (c ∷ s) =
    ground (arith, replace_unsafe-IsSafe true s, replace_unsafe-IsSafe false s)

lstrip-All : (P : ℕ → Type 0) (p : ℕ → Bool) (s : Text) → All P s → All P (lstrip_chars p s)
unfolding lstrip_chars
lstrip-All P p [] h = tt
lstrip-All P p (c ∷ s) h = ground (arith, lstrip-All P p s)

rstrip-All : (P : ℕ → Type 0) (p : ℕ → Bool) (s : Text) → All P s → All P (rstrip_chars p s)
unfolding rstrip_chars
rstrip-All P p [] h = tt
rstrip-All P p (c ∷ s) h = ground (arith, rstrip-All P p s)

lstrip-StartsOutside : (p : ℕ → Bool) (s : Text) → StartsOutside p (lstrip_chars p s)
unfolding lstrip_chars
lstrip-StartsOutside p [] = tt
lstrip-StartsOutside p (c ∷ s) = ground (arith, lstrip-StartsOutside p s)

lstrip-EndsOutside : (p : ℕ → Bool) (s : Text) → EndsOutside p s → EndsOutside p (lstrip_chars p s)
unfolding lstrip_chars
lstrip-EndsOutside p [] h = tt
lstrip-EndsOutside p (c ∷ []) h = ground arith
lstrip-EndsOutside p (c ∷ d ∷ s) h = elim (Bool-cases (p c)) [
  | inl y ↦ rw y (lstrip-EndsOutside p (d ∷ s) h)
  | inr n ↦ rw n h
]

EndsOutside-cons :
    (p : ℕ → Bool) (c : ℕ) (s : Text)
    → EndsOutside p s
    → (p c && is_empty s) ≡ false
    → EndsOutside p (c ∷ s)
EndsOutside-cons p c [] h q = ground arith
EndsOutside-cons p c (d ∷ s) h q = h

rstrip-EndsOutside : (p : ℕ → Bool) (s : Text) → EndsOutside p (rstrip_chars p s)
unfolding rstrip_chars
rstrip-EndsOutside p [] = tt
rstrip-EndsOutside p (c ∷ s) = elim (Bool-cases (p c && is_empty (rstrip_chars p s))) [
  | inl y ↦ rw y tt
  | inr n ↦ rw n (EndsOutside-cons p c (rstrip_chars p s) (rstrip-EndsOutside p s) n)
]

or_media :
    (t : Text)
    → All IsSafe t
    → StartsOutside is_space_or_dot t
    → EndsOutside is_space_or_dot t
    → IsPublishable (or_else t (codes "media"))
or_media [] s a b = record { some_text = refl; safe = ground arith; start = refl; end = refl }
or_media (c ∷ t) s a b = record { some_text = refl; safe = s; start = a; end = b }

-- Every name that `_safe_filename` makes is publishable, whatever `os.path.basename` returns.
pub safe_filename-IsPublishable :
    (lib : Library) (value : Text) → IsPublishable (safe_filename lib value)
unfolding safe_filename strip_chars
safe_filename-IsPublishable lib value =
    let clean : Text = replace_unsafe false (or_else (lib.basename value) (codes "media")) in
    let right : Text = rstrip_chars is_space_or_dot clean in
    or_media (lstrip_chars is_space_or_dot right)
      (lstrip-All IsSafe is_space_or_dot right (
        rstrip-All IsSafe is_space_or_dot clean
          (replace_unsafe-IsSafe false (or_else (lib.basename value) (codes "media")))))
      (lstrip-StartsOutside is_space_or_dot right)
      (lstrip-EndsOutside is_space_or_dot right (rstrip-EndsOutside is_space_or_dot clean))

-- A publishable name is kept as it is, where `os.path.basename` keeps texts without a slash.
replace_unsafe-keeps : (run : Bool) (s : Text) → All IsSafe s → replace_unsafe run s ≡ s
unfolding replace_unsafe
replace_unsafe-keeps run [] h = refl
replace_unsafe-keeps run (c ∷ s) h = ground (arith, replace_unsafe-keeps false s)

rstrip-keeps : (p : ℕ → Bool) (s : Text) → EndsOutside p s → rstrip_chars p s ≡ s
unfolding rstrip_chars
rstrip-keeps p [] h = refl
rstrip-keeps p (c ∷ []) h = ground arith
rstrip-keeps p (c ∷ d ∷ s) h = ground (arith, rstrip-keeps p (d ∷ s) h)

lstrip-keeps : (p : ℕ → Bool) (s : Text) → StartsOutside p s → lstrip_chars p s ≡ s
unfolding lstrip_chars
lstrip-keeps p [] h = refl
lstrip-keeps p (c ∷ s) h = ground arith

pub safe_filename-keeps :
    (lib : Library) (t : Text)
    → ((s : Text) → All IsSafe s → lib.basename s ≡ s)
    → IsPublishable t
    → safe_filename lib t ≡ t
unfolding safe_filename strip_chars
safe_filename-keeps lib (c ∷ t) keep q = rw (keep (c ∷ t) q.safe) (
    rw (replace_unsafe-keeps false (c ∷ t) q.safe) (
      rw (rstrip-keeps is_space_or_dot (c ∷ t) q.end)
        (rw (lstrip-keeps is_space_or_dot (c ∷ t) q.start) refl)))
safe_filename-keeps lib [] keep q = cc
