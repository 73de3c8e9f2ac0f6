-- ===== src/Codec/Escape.antt =====
-- `_unescape` undoes `_escape_text` and `_escape_param`.
use rocket_cat_shell_linux.Base.{
  ℕ, ◌≡◌, refl, Bool, true, false, ◌&&◌, [], ◌∷◌, ◌++◌, if◌then◌else◌, nat_beq, arith, All,
}
use rocket_cat_shell_linux.Base.Text.{Text, codes, replace}
use rocket_cat_shell_linux.Codec.{escape_text, escape_param, unescape, is_empty, in_type}
use rocket_cat_shell_linux.Codec.Match.{NoBracket}

-- A character in a text where `&`, `[`, `]` and `,` are entities, those of them whose flag is set.
abbrev piece : Bool → Bool → Bool → Bool → ℕ → Text
piece amp left right comma c =
    if amp && nat_beq c 38
    then codes "&amp;"
    else if left && nat_beq c 91
    then codes "&#91;"
    else if right && nat_beq c 93
    then codes "&#93;"
    else if comma && nat_beq c 44
    then codes "&#44;"
    else c ∷ []

abbrev written : Bool → Bool → Bool → Bool → Text → Text
written amp left right comma [] = []
written amp left right comma (c ∷ t) =
    piece amp left right comma c ++ written amp left right comma t

write_amp : (t : Text) → replace t (codes "&") (codes "&amp;") ≡ written true false false false t
unfolding replace
write_amp [] = refl
write_amp (c ∷ t) = ground (arith, write_amp t)

write_left :
    (t : Text)
    → replace (written true false false false t) (codes "[") (codes "&#91;")
      ≡ written true true false false t
unfolding replace
write_left [] = refl
write_left (c ∷ t) = ground (arith, write_left t)

write_right :
    (t : Text)
    → replace (written true true false false t) (codes "]") (codes "&#93;")
      ≡ written true true true false t
unfolding replace
write_right [] = refl
write_right (c ∷ t) = ground (arith, write_right t)

write_comma :
    (t : Text)
    → replace (written true true true false t) (codes ",") (codes "&#44;")
      ≡ written true true true true t
unfolding replace
write_comma [] = refl
write_comma (c ∷ t) = ground (arith, write_comma t)

read_comma :
    (comma : Bool) (t : Text)
    → replace (written true true true comma t) (codes "&#44;") (codes ",")
      ≡ written true true true false t
unfolding replace
read_comma comma [] = refl
read_comma comma (c ∷ t) = ground (arith, read_comma comma t)

read_left :
    (t : Text)
    → replace (written true true true false t) (codes "&#91;") (codes "[")
      ≡ written true false true false t
unfolding replace
read_left [] = refl
read_left (c ∷ t) = ground (arith, read_left t)

read_right :
    (t : Text)
    → replace (written true false true false t) (codes "&#93;") (codes "]")
      ≡ written true false false false t
unfolding replace
read_right [] = refl
read_right (c ∷ t) = ground (arith, read_right t)

read_amp : (t : Text) → replace (written true false false false t) (codes "&amp;") (codes "&") ≡ t
unfolding replace
read_amp [] = refl
read_amp (c ∷ t) = ground (arith, read_amp t)

escape_text-written : (t : Text) → escape_text t ≡ written true true true false t
unfolding escape_text
escape_text-written t = rw (write_amp t, write_left t, write_right t)

escape_param-written : (t : Text) → escape_param t ≡ written true true true true t
unfolding escape_param
escape_param-written t = rw (write_amp t, write_left t, write_right t, write_comma t)

unescape-written : (comma : Bool) (t : Text) → unescape (written true true true comma t) ≡ t
unfolding unescape
unescape-written comma t = rw (read_comma comma t, read_left t, read_right t, read_amp t)

pub unescape-escape_text : (t : Text) → unescape (escape_text t) ≡ t
unescape-escape_text t = rw (escape_text-written t) (unescape-written false t)

pub unescape-escape_param : (t : Text) → unescape (escape_param t) ≡ t
unescape-escape_param t = rw (escape_param-written t) (unescape-written true t)

-- Reading an escaped text, or an escaped parameter, gives the text back.
pub unescape_inverts : (t : Text) → (unescape (escape_text t) ≡ t) × (unescape (escape_param t) ≡ t)
unescape_inverts t = (unescape-escape_text t, unescape-escape_param t)

-- An escaped text has no bracket that could open a CQ code.
pub escape_text-NoBracket : (t : Text) → NoBracket (escape_text t)
escape_text-NoBracket t = rw (escape_text-written t) (go t)
  where
    go : (u : Text) → NoBracket (written true true true false u)
    go [] = tt
    go (c ∷ u) = ground (arith, go u)

-- An escaped parameter has neither a comma nor a closing bracket.
pub escape_param-in_type : (t : Text) → All (λ c. in_type c ≡ true) (escape_param t)
escape_param-in_type t = rw (escape_param-written t) (go t)
  where
    go : (u : Text) → All (λ c. in_type c ≡ true) (written true true true true u)
    go [] = tt
    go (c ∷ u) = ground (arith, go u)

-- A text that is not empty stays so.
pub is_empty-escape_text : (t : Text) → is_empty t ≡ false → is_empty (escape_text t) ≡ false
is_empty-escape_text [] h = cc
is_empty-escape_text (c ∷ t) h = rw (escape_text-written (c ∷ t)) (ground arith)
