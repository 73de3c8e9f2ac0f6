-- ===== src/Codec/RoundTrip.antt =====
-- `cq_to_segments` reads back what `segments_to_cq` has written.
use rocket_cat_shell_linux.Base.{
  ℕ, suc, zero, ◌+◌, ◌-◌, ◌≤◌, ◌≡◌, refl, sym, ap, ◌∙◌, Bool, true, false, ◌⊎◌, inl, inr, Option,
  some, List, [], ◌∷◌, ◌++◌, length, length-append, All, arith, map, ◌==◌, same_refl,
}
use rocket_cat_shell_linux.Base.Dict.{Dict, get, HasUniqueKeys}
use rocket_cat_shell_linux.Base.Text.{Text, codes, text_key}
use rocket_cat_shell_linux.Codec.{
  is_empty, in_type, escape_text, Segment, RawSegment, segment, suffix, join_commas, param_items,
  segment_to_cq, segments_to_cq, flush, scan, cq_to_segments, or_one_text,
}
use rocket_cat_shell_linux.Codec.Escape.{
  unescape-escape_text, escape_text-NoBracket, is_empty-escape_text,
}
use rocket_cat_shell_linux.Codec.Match.{scan_plain, cq_match_code, scan_match}
use rocket_cat_shell_linux.Codec.Params.{
  present, AreParamKeys, parse_params-present, in_params-present,
}
use mathlib.Core.List.{append_assoc, append-nil}

-- A segment of a message: text, or a code with a type and data.
pub data Part : Type 0 where
  text : Text → Part
  code : Text → Dict Text (Option Text) → Part

-- The dict that stands for it.
abbrev pub raw : Part → RawSegment
raw (text t) = segment (some (codes "text")) ((codes "text", some t) ∷ [])
raw (code type fields) = segment (some type) fields

-- What is read: entries without a value are gone.
abbrev pub read : Part → Segment
read (text t) = record { type = codes "text"; payload = (codes "text", t) ∷ [] }
read (code type fields) = record { type = type; payload = present fields }

-- Texts are not empty, types and keys have no character that ends them, keys are distinct.
abbrev pub IsClean : Part → Type 0
IsClean (text t) = is_empty t ≡ false
IsClean (code type fields) =
    (is_empty type ≡ false)
    × ((type == codes "text") ≡ false)
    × All (λ c. in_type c ≡ true) type
    × HasUniqueKeys (present fields)
    × AreParamKeys (present fields)

abbrev pub starts_text : List Part → Bool
starts_text (text t ∷ l) = true
starts_text _ = false

-- No two texts stand side by side: these would be read as one.
abbrev pub AreSeparated : List Part → Type 0
AreSeparated [] = Unit
AreSeparated (text t ∷ l) = (starts_text l ≡ false) × AreSeparated l
AreSeparated (code type fields ∷ l) = AreSeparated l

abbrev cq : List Part → Text
cq l = segments_to_cq (map raw l)

segment_to_cq-text : (t : Text) → segment_to_cq (raw (text t)) ≡ escape_text t
unfolding segment_to_cq
segment_to_cq-text t = rw (same_refl (codes "text"), segment_to_cq, get)

segment_to_cq-code :
    (type : Text) (fields : Dict Text (Option Text)) (s : Text)
    → is_empty type ≡ false
    → (type == codes "text") ≡ false
    → segment_to_cq (raw (code type fields)) ++ s
      ≡ codes "[CQ:" ++ (type ++ (suffix (join_commas (param_items fields)) ++ b']' ∷ s))
unfolding segment_to_cq
segment_to_cq-code type fields s full other =
    rw (full, other, segment_to_cq)
      (ap (λ (q : Text). codes "[CQ:" ++ q)
        (append_assoc type (suffix (join_commas (param_items fields)) ++ codes "]") s
          ∙ ap (λ (q : Text). type ++ q)
              (append_assoc (suffix (join_commas (param_items fields))) (codes "]") s)))

cq-text : (t : Text) (l : List Part) → cq (text t ∷ l) ≡ escape_text t ++ cq l
unfolding segments_to_cq
cq-text t l = ap (λ (q : Text). q ++ cq l) (segment_to_cq-text t)

cq-code :
    (type : Text) (fields : Dict Text (Option Text)) (l : List Part)
    → IsClean (code type fields)
    → cq (code type fields ∷ l)
      ≡ codes "[CQ:" ++ (type ++ (suffix (join_commas (param_items fields)) ++ b']' ∷ cq l))
unfolding segments_to_cq
cq-code type fields l clean = segment_to_cq-code type fields (cq l) clean.0 clean.1

scan_text :
    (t s : Text) (fuel : ℕ)
    → length (escape_text t ++ s) ≤ fuel
    → scan fuel [] (escape_text t ++ s) ≡ scan (fuel - length (escape_text t)) (escape_text t) s
scan_text t s fuel enough =
    let n = length (escape_text t) in
    let split : fuel ≡ n + (fuel - n) = omega (arith, length-append (escape_text t) s) in
    ap (λ (f : ℕ). scan f [] (escape_text t ++ s)) split
    ∙ scan_plain (fuel - n) [] (escape_text t) s (escape_text-NoBracket t)

flush-escape_text : (t : Text) → is_empty t ≡ false → flush (escape_text t) ≡ read (text t) ∷ []
flush-escape_text t full = rw (is_empty-escape_text t full, unescape-escape_text t)

scan_code :
    (type : Text) (fields : Dict Text (Option Text)) (s pending : Text) (fuel : ℕ)
    → IsClean (code type fields)
    → scan
        (suc fuel)
        pending
        (codes "[CQ:" ++ (type ++ (suffix (join_commas (param_items fields)) ++ b']' ∷ s)))
      ≡ flush pending ++ read (code type fields) ∷ scan fuel [] s
scan_code type fields s pending fuel clean =
    scan_match fuel pending b'[' _ _ (
      cq_match_code type (join_commas (param_items fields)) s clean.0 clean.2
        (in_params-present fields clean.4))
    ∙ rw (parse_params-present fields clean.3 clean.4)

scan-parts :
    (l : List Part) (fuel : ℕ) (pending : Text)
    → All IsClean l
    → AreSeparated l
    → (pending ≡ []) ⊎ (starts_text l ≡ false)
    → length (cq l) ≤ fuel
    → scan fuel pending (cq l) ≡ flush pending ++ map read l
scan-parts [] fuel pending clean apart start enough =
    unfold scan segments_to_cq in sym (append-nil (flush pending))
scan-parts (text t ∷ l) fuel pending clean apart (inr started) enough = cc
scan-parts (text t ∷ l) fuel pending clean apart (inl none_pending) enough = rw none_pending (
    ap (λ (q : Text). scan fuel [] q) (cq-text t l)
    ∙ scan_text t (cq l) fuel (rw cq-text at enough)
    ∙ scan-parts l (fuel - length (escape_text t)) (escape_text t) clean.1 apart.1 (inr apart.0) (
        omega
          (arith, ap (λ (q : Text). length q) (cq-text t l), length-append (escape_text t) (cq l)))
    ∙ rw (flush-escape_text t clean.0))
scan-parts (code type fields ∷ l) zero pending clean apart start enough =
    absurd (omega (arith, ap (λ (q : Text). length q) (cq-code type fields l clean.0)))
scan-parts (code type fields ∷ l) (suc fuel) pending clean apart start enough =
    ap (λ (q : Text). scan (suc fuel) pending q) (cq-code type fields l clean.0)
    ∙ scan_code type fields (cq l) pending fuel clean.0
    ∙ rw (
        scan-parts l fuel [] clean.1 apart (inl refl) (
          omega (
            arith,
            ap (λ (q : Text). length q) (cq-code type fields l clean.0),
            length-append type (suffix (join_commas (param_items fields)) ++ b']' ∷ cq l),
            length-append (suffix (join_commas (param_items fields))) (b']' ∷ cq l),
          )))

-- A message of clean parts, no two texts side by side and at least one part, is read back as it was
-- written; data entries without a value are left out.
pub cq_to_segments-segments_to_cq :
    (p : Part) (l : List Part)
    → All IsClean (p ∷ l)
    → AreSeparated (p ∷ l)
    → cq_to_segments (segments_to_cq (map raw (p ∷ l))) ≡ map read (p ∷ l)
cq_to_segments-segments_to_cq p l clean apart =
    let source = cq (p ∷ l) in
    let h = scan-parts (p ∷ l) (length source) [] clean apart (inl refl) (omega arith) in
    unfold cq_to_segments in ap (or_one_text source) h
