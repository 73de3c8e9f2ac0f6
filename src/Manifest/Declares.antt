-- ===== src/Manifest/Declares.antt =====
-- What the entries of a manifest declare, and that the loop finds it.
use rocket_cat_shell_linux.Base.{ℕ, ◌+◌, ◌≡◌, sym, Option, none, some, List, [], ◌∷◌}
use rocket_cat_shell_linux.Base.Int.{pos}
use rocket_cat_shell_linux.Base.Result.{ok, bind-eq-ok, ok-injective}
use rocket_cat_shell_linux.Base.Text.{Text}
use rocket_cat_shell_linux.Manifest.{validated_relative_path}
use rocket_cat_shell_linux.Manifest.Check.{FileEntry, Candidate, Declared, add_entry, add_entries}
use rocket_cat_shell_linux.Manifest.Accepted.{checked_size-ok, add_entry-Passed}
use mathlib.Core.Path.{subst}

module _ (casefold : Text → Text) where
  -- What the entries declare, one after the other: each its path, the path with its case folded, and
  -- its size.
  abbrev pub Declares : List (Option FileEntry) → Declared → Declared → Type 0
  Declares [] d last = d ≡ last
  Declares (none ∷ l) d last = ⊥
  Declares (some entry ∷ l) d last =
      (t : Text) × (n : ℕ) × (validated_relative_path casefold entry.path ≡ ok t)
      × (entry.size ≡ some (pos n))
      × Declares l
          (record {
            declared = t ∷ d.declared;
            folded_paths = casefold t ∷ d.folded_paths;
            total_size = d.total_size + n;
          })
          last

module _ (casefold lower : Text → Text) (candidate : Option Candidate) where
  -- What the loop has found is what the entries declare.
  pub add_entries-Declares :
      (l : List (Option FileEntry)) (d last : Declared)
      → add_entries casefold lower candidate l d ≡ ok last
      → Declares casefold l d last
  unfolding add_entries add_entry
  add_entries-Declares [] d last h = ok-injective h
  add_entries-Declares (none ∷ l) d last h = absurd cc
  add_entries-Declares (some entry ∷ l) d last h =
      let next = bind-eq-ok (add_entry casefold lower candidate (some entry) d) _ h in
      let q = add_entry-Passed casefold lower candidate entry d next.0 next.1 in
      (
        q.0,
        q.1,
        q.2,
        checked_size-ok entry.size q.1 q.5,
        subst (λ (e : Declared). Declares casefold l e last) (sym q.8)
            (add_entries-Declares l next.0 last next.2),
      )
