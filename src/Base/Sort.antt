-- ===== src/Base/Sort.antt =====
-- Python's `sorted(d.items(), key=…)` over numeric keys, and what it does to a `dict`.
use rocket_cat_shell_linux.Base.Tests.{leb, nat_key, if◌then◌else◌}
use rocket_cat_shell_linux.Base.Lists.{length}
use rocket_cat_shell_linux.Base.Dict.{Dict, get, HasUniqueKeys}
use Prim.Native.Nat.{ℕ, ◌+◌, ◌≤◌, ◌<◌}
use mathlib.Core.Path.{◌≡◌, refl, ◌∙◌}
use mathlib.Core.Option.{none}
use mathlib.Core.List.{[], ◌∷◌}
use native.Mathlib.Omega.{arith}

module _ {V : Type 0} where
  -- Behind the entries with a smaller key, before those with the same one: the sort is stable.
  unfoldable pub insert_item : ℕ × V → Dict ℕ V → Dict ℕ V
  insert_item p [] = p ∷ []
  insert_item p (q ∷ l) = if leb p.0 q.0 then p ∷ q ∷ l else q ∷ insert_item p l

  unfoldable pub sort_items : Dict ℕ V → Dict ℕ V
  unfolding insert_item
  sort_items [] = []
  sort_items (p ∷ l) = insert_item p (sort_items l)

  -- Every key of the list is above `k`.
  abbrev pub Above : ℕ → Dict ℕ V → Type 0
  Above k [] = Unit
  Above k (q ∷ l) = (k < q.0) × Above k l

  abbrev pub IsSorted : Dict ℕ V → Type 0
  IsSorted [] = Unit
  IsSorted (q ∷ l) = Above q.0 l × IsSorted l

  -- Keys in the list are at most `m`.
  abbrev pub Below : ℕ → Dict ℕ V → Type 0
  Below m [] = Unit
  Below m (q ∷ l) = (q.0 ≤ m) × Below m l

  pub get-insert_item :
      (p : ℕ × V) (l : Dict ℕ V) (j : ℕ)
      → get l p.0 ≡ none
      → get (insert_item p l) j ≡ get (p ∷ l) j
  unfolding insert_item get
  get-insert_item p [] j h = refl
  get-insert_item p (q ∷ l) j h = ground (arith, get-insert_item p l j)

  -- Sorting keeps what every key maps to.
  pub get-sort_items : (l : Dict ℕ V) (j : ℕ) → HasUniqueKeys l → get (sort_items l) j ≡ get l j
  unfolding sort_items get
  get-sort_items [] j u = refl
  get-sort_items (p ∷ l) j u =
      ground (
        arith,
        get-insert_item p (sort_items l) j,
        get-sort_items l j u.1,
        get-sort_items l p.0 u.1,
      )

  pub length-insert_item : (p : ℕ × V) (l : Dict ℕ V) → length (insert_item p l) ≡ length l + 1
  unfolding insert_item
  length-insert_item p [] = refl
  length-insert_item p (q ∷ l) = ground (arith, length-insert_item p l)

  pub length-sort_items : (l : Dict ℕ V) → length (sort_items l) ≡ length l
  unfolding sort_items
  length-sort_items [] = refl
  length-sort_items (p ∷ l) =
      omega (arith, length-insert_item p (sort_items l), length-sort_items l)

  Above-insert_item :
      (k : ℕ) (p : ℕ × V) (l : Dict ℕ V) → k < p.0 → Above k l → Above k (insert_item p l)
  unfolding insert_item
  Above-insert_item k p [] h a = (h, tt)
  Above-insert_item k p (q ∷ l) h a = ground (arith, Above-insert_item k p l)

  Above-mono : (j k : ℕ) (l : Dict ℕ V) → j ≤ k → Above k l → Above j l
  Above-mono j k [] h a = tt
  Above-mono j k (q ∷ l) h a = (omega arith, Above-mono j k l h a.1)

  insert_item-IsSorted :
      (p : ℕ × V) (l : Dict ℕ V) → get l p.0 ≡ none → IsSorted l → IsSorted (insert_item p l)
  unfolding insert_item get
  insert_item-IsSorted p [] h s = (tt, tt)
  insert_item-IsSorted p (q ∷ l) h s =
      ground (arith, insert_item-IsSorted p l, Above-insert_item q.0 p l, Above-mono p.0 q.0 l)

  pub sort_items-IsSorted : (l : Dict ℕ V) → HasUniqueKeys l → IsSorted (sort_items l)
  unfolding sort_items
  sort_items-IsSorted [] u = tt
  sort_items-IsSorted (p ∷ l) u =
      insert_item-IsSorted p (sort_items l) (get-sort_items l p.0 u.1 ∙ u.0)
        (sort_items-IsSorted l u.1)
