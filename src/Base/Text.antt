-- ===== src/Base/Text.antt =====
-- Texts as lists of code points, and what the program uses of Python's `str`.
use rocket_cat_shell_linux.Base.Tests.{Key, nat_beq, if◌then◌else◌}
use rocket_cat_shell_linux.Base.Lists.{length}
use Prim.Native.Char.{code}
use Prim.Native.Nat.{ℕ, zero, suc, ◌-◌}
use Prim.Native.String.{String}
use mathlib.Core.Bool.{Bool, true, false, ◌&&◌}
use mathlib.Core.List.{List, [], ◌∷◌, ◌++◌}
use mathlib.Core.Logic.{◌↔◌}
use mathlib.Core.Path.{◌≡◌, refl}
use native.Mathlib.Omega.{arith}

abbrev pub Text : Type 0
Text = List ℕ

abbrev pub codes : String → Text
codes String.[] = []
codes (String.◌∷◌ c s) = code c ∷ codes s

unfoldable pub text_beq : Text → Text → Bool
text_beq [] [] = true
text_beq (a ∷ s) (b ∷ t) = nat_beq a b && text_beq s t
text_beq _ _ = false

pub text_beq_iff : (s t : Text) → (text_beq s t ≡ true) ↔ (s ≡ t)
unfolding text_beq
text_beq_iff [] [] = ((λ h. refl), (λ h. refl))
text_beq_iff [] (b ∷ t) = ((λ h. cc), (λ h. cc))
text_beq_iff (a ∷ s) [] = ((λ h. cc), (λ h. cc))
text_beq_iff (a ∷ s) (b ∷ t) = ground (arith, text_beq_iff s t)

instance abbrev pub text_key : Key Text
text_key = record { same = text_beq; same_iff = text_beq_iff }

-- s.startswith(pattern)
unfoldable pub starts_with : Text → Text → Bool
starts_with s [] = true
starts_with [] (p ∷ ps) = false
starts_with (c ∷ s) (p ∷ ps) = nat_beq c p && starts_with s ps

-- The scan of `str.replace`: the number says how many characters of a match are still to be skipped.
unfoldable pub replace_from : ℕ → Text → Text → Text → Text
unfolding starts_with
replace_from skip pattern new [] = []
replace_from (suc skip) pattern new (c ∷ s) = replace_from skip pattern new s
replace_from zero pattern new (c ∷ s) =
    let found = starts_with (c ∷ s) pattern in
    let rest = replace_from (if found then length pattern - 1 else 0) pattern new s in
    if found then new ++ rest else c ∷ rest

-- s.replace(pattern, new), for a pattern that is not empty
unfoldable pub replace : Text → Text → Text → Text
unfolding replace_from
replace s pattern new = replace_from 0 pattern new s

abbrev pub is_empty : Text → Bool
is_empty [] = true
is_empty (c ∷ s) = false

-- `value or other`
abbrev pub or_else : Text → Text → Text
or_else [] other = other
or_else (c ∷ s) other = c ∷ s

-- `lstrip`, `rstrip` and `strip` of the characters that pass a test.
unfoldable pub lstrip_chars : (ℕ → Bool) → Text → Text
lstrip_chars p [] = []
lstrip_chars p (c ∷ s) = let rest = lstrip_chars p s in if p c then rest else c ∷ s

unfoldable pub rstrip_chars : (ℕ → Bool) → Text → Text
rstrip_chars p [] = []
rstrip_chars p (c ∷ s) =
    let rest = rstrip_chars p s in if p c && is_empty rest then [] else c ∷ rest

unfoldable pub strip_chars : (ℕ → Bool) → Text → Text
unfolding lstrip_chars rstrip_chars
strip_chars p s = lstrip_chars p (rstrip_chars p s)

-- `s.split(sep, 1)[0]`
unfoldable pub before_char : ℕ → Text → Text
before_char sep [] = []
before_char sep (c ∷ s) = let rest = before_char sep s in if nat_beq c sep then [] else c ∷ rest
