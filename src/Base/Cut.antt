-- ===== src/Base/Cut.antt =====
-- The first entries of a sorted `dict`: which keys they hold.
use rocket_cat_shell_linux.Base.Tests.{nat_key, same_refl}
use rocket_cat_shell_linux.Base.Lists.{length, take}
use rocket_cat_shell_linux.Base.Dict.{Dict, get, HasUniqueKeys}
use rocket_cat_shell_linux.Base.Sort.{Above, Below, IsSorted}
use Prim.Native.Nat.{ℕ, zero, suc, ◌≤◌, ◌<◌}
use mathlib.Core.Path.{◌≡◌, refl}
use mathlib.Core.Option.{none, some}
use mathlib.Core.List.{[], ◌∷◌}
use native.Mathlib.Omega.{arith}

module _ {V : Type 0} where
  -- a key of the list is above what all are above
  pub Above-get : (k : ℕ) (l : Dict ℕ V) (j : ℕ) (v : V) → Above k l → get l j ≡ some v → k < j
  unfolding get
  Above-get k [] j v a h = cc
  Above-get k (q ∷ l) j v a h = ground (arith, Above-get k l j v)

  Above-absent : (k : ℕ) (l : Dict ℕ V) → Above k l → get l k ≡ none
  unfolding get
  Above-absent k [] a = refl
  Above-absent k (q ∷ l) a = ground (arith, Above-absent k l)

  pub IsSorted-HasUniqueKeys : (l : Dict ℕ V) → IsSorted l → HasUniqueKeys l
  IsSorted-HasUniqueKeys [] s = tt
  IsSorted-HasUniqueKeys (q ∷ l) s = (Above-absent q.0 l s.0, IsSorted-HasUniqueKeys l s.1)

  pub get-take :
      (n : ℕ) (l : Dict ℕ V) (j : ℕ) (v : V) → get (take n l) j ≡ some v → get l j ≡ some v
  unfolding get
  get-take zero l j v h = cc
  get-take (suc n) [] j v h = h
  get-take (suc n) (q ∷ l) j v h = ground (arith, get-take n l j v)

  take_absent : (n : ℕ) (l : Dict ℕ V) (j : ℕ) → get l j ≡ none → get (take n l) j ≡ none
  unfolding get
  take_absent zero l j h = refl
  take_absent (suc n) [] j h = refl
  take_absent (suc n) (q ∷ l) j h = ground (arith, take_absent n l j)

  pub take-HasUniqueKeys : (n : ℕ) (l : Dict ℕ V) → HasUniqueKeys l → HasUniqueKeys (take n l)
  take-HasUniqueKeys zero l u = tt
  take-HasUniqueKeys (suc n) [] u = tt
  take-HasUniqueKeys (suc n) (q ∷ l) u = (take_absent n l q.0 u.0, take-HasUniqueKeys n l u.1)

  pub Below-get :
      (m : ℕ) (l : Dict ℕ V)
      → HasUniqueKeys l
      → ((j : ℕ) (v : V) → get l j ≡ some v → j ≤ m)
      → Below m l
  unfolding get
  Below-get m [] u h = tt
  Below-get m (q ∷ l) u h =
      (h q.0 q.1 (rw (same_refl q.0)), Below-get m l u.1 (λ j v p. h j v (ground (arith, u.0, p))))

  -- The greatest key is not among the first entries, unless these are all.
  pub greatest_kept :
      (n : ℕ) (l : Dict ℕ V) (m : ℕ)
      → IsSorted l
      → Below m l
      → n < length l
      → get (take n l) m ≡ none
  unfolding get
  greatest_kept zero l m s b h = refl
  greatest_kept (suc n) (q ∷ []) m s b h = absurd (omega arith)
  greatest_kept (suc n) (q ∷ r ∷ l) m s b h = ground (arith, greatest_kept n (r ∷ l) m s.1 b.1)
  greatest_kept (suc n) [] m s b h = absurd (omega arith)

  -- The first entries have the smaller keys.
  pub take_smaller :
      (n : ℕ) (l : Dict ℕ V) (i j : ℕ) (v w : V)
      → IsSorted l
      → get (take n l) i ≡ some v
      → get (take n l) j ≡ none
      → get l j ≡ some w
      → i < j
  unfolding get
  take_smaller zero l i j v w s hi hn hj = cc
  take_smaller (suc n) [] i j v w s hi hn hj = cc
  take_smaller (suc n) (q ∷ l) i j v w s hi hn hj =
      ground (arith, take_smaller n l i j v w, Above-get q.0 l j w)
