-- ===== src/Codec/Match.antt =====
-- What the scan for CQ codes does at plain text and at a code.
use rocket_cat_shell_linux.Base.{
  ℕ, suc, ◌+◌, ◌≡◌, refl, ap, ◌∙◌, Bool, true, false, none, some, [], ◌∷◌, ◌++◌, nat_beq, length,
  All,
}
use rocket_cat_shell_linux.Base.Text.{Text, codes}
use rocket_cat_shell_linux.Codec.{
  is_empty, span, in_type, in_params, CqMatch, match_params, match_type, cq_match, suffix, scan,
  flush, parse_params,
}
use native.Mathlib.Nat.{suc-add, zero-add}
use mathlib.Core.List.{append_assoc, append-nil}

abbrev pub NoBracket : Text → Type 0
NoBracket = All (λ c. nat_beq c b'[' ≡ false)

span_stop :
    (p : ℕ → Bool) (u : Text) (c : ℕ) (s : Text)
    → All (λ x. p x ≡ true) u
    → p c ≡ false
    → span p (u ++ c ∷ s) ≡ (u, c ∷ s)
unfolding span
span_stop p [] c s a h = rw h
span_stop p (x ∷ u) c s a h = rw (a.0, span_stop p u c s a.1 h)

cq_match_plain : (c : ℕ) (s : Text) → nat_beq c b'[' ≡ false → cq_match (c ∷ s) ≡ none
unfolding cq_match
cq_match_plain a [] h = refl
cq_match_plain a (b ∷ []) h = refl
cq_match_plain a (b ∷ c ∷ []) h = refl
cq_match_plain a (b ∷ c ∷ d ∷ s) h = rw h

-- Plain text goes to what is pending.
pub scan_plain :
    (fuel : ℕ) (pending u s : Text)
    → NoBracket u
    → scan (length u + fuel) pending (u ++ s) ≡ scan fuel (pending ++ u) s
unfolding scan
scan_plain fuel pending [] s a = rw (zero-add, append-nil)
scan_plain fuel pending (c ∷ u) s a =
    rw (suc-add, cq_match_plain c (u ++ s) a.0, scan)
      (scan_plain fuel (pending ++ c ∷ []) u s a.1
        ∙ ap (λ (q : Text). scan fuel q s) (append_assoc pending (c ∷ []) u))

match_suffix :
    (type params s : Text)
    → All (λ c. in_params c ≡ true) params
    → match_params type (suffix params ++ b']' ∷ s)
      ≡ some (record { type = type; params = suffix params; rest = s })
unfolding match_params
match_suffix type [] s a = refl
match_suffix type (c ∷ params) s a =
    rw (span_stop in_params (c ∷ params) b']' s a refl, match_params)

span_type :
    (type params s : Text)
    → All (λ c. in_type c ≡ true) type
    → span in_type (type ++ (suffix params ++ b']' ∷ s)) ≡ (type, suffix params ++ b']' ∷ s)
span_type type [] s a = span_stop in_type type b']' s a refl
span_type type (c ∷ params) s a = span_stop in_type type b',' (c ∷ params ++ b']' ∷ s) a refl

-- The pattern matches what `segment_to_cq` writes.
pub cq_match_code :
    (type params s : Text)
    → is_empty type ≡ false
    → All (λ c. in_type c ≡ true) type
    → All (λ c. in_params c ≡ true) params
    → cq_match (codes "[CQ:" ++ (type ++ (suffix params ++ b']' ∷ s)))
      ≡ some (record { type = type; params = suffix params; rest = s })
unfolding cq_match
cq_match_code type params s full a b =
    rw (span_type type params s a, match_type) (rw full (match_suffix type params s b))

-- A match ends the pending text and is one segment.
pub scan_match :
    (fuel : ℕ) (pending : Text) (c : ℕ) (s : Text) (m : CqMatch)
    → cq_match (c ∷ s) ≡ some m
    → scan (suc fuel) pending (c ∷ s)
      ≡ flush pending
        ++ record { type = m.type; payload = parse_params m.params } ∷ scan fuel [] m.rest
unfolding scan
scan_match fuel pending c s m h = rw (h, scan)
