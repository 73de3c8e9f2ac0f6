-- ===== src/Base/Dict/Unique.antt =====
-- No key stands twice in a `dict`.
use rocket_cat_shell_linux.Base.Tests.{Key, same_refl}
use rocket_cat_shell_linux.Base.Lists.{length}
use rocket_cat_shell_linux.Base.Dict.Defs.{
  Dict, get, put, remove, get-put, get-remove, remove_absent,
}
use Prim.Native.Nat.{◌+◌}
use mathlib.Core.Path.{◌≡◌, refl}
use mathlib.Core.Option.{none, some}
use mathlib.Core.List.{[], ◌∷◌, ◌++◌}
use native.Mathlib.Omega.{arith}

module _ {ℓ} {K V : Type ℓ} ⦃key : Key K⦄ where
  abbrev pub HasUniqueKeys : Dict K V → Type ℓ
  HasUniqueKeys [] = Unit
  HasUniqueKeys ((k, v) ∷ d) = (get d k ≡ none) × HasUniqueKeys d

  pub put-HasUniqueKeys :
      (d : Dict K V) (k : K) (v : V) → HasUniqueKeys d → HasUniqueKeys (put d k v)
  unfolding put get
  put-HasUniqueKeys [] k v h = (refl, tt)
  put-HasUniqueKeys ((i, w) ∷ d) k v h =
      ground (arith, put-HasUniqueKeys d k v, get-put d k i v, key.same_iff i k, key.same_iff k i)

  pub remove-HasUniqueKeys : (d : Dict K V) (k : K) → HasUniqueKeys d → HasUniqueKeys (remove d k)
  unfolding remove
  remove-HasUniqueKeys [] k h = tt
  remove-HasUniqueKeys ((i, w) ∷ d) k h = ground (arith, remove-HasUniqueKeys d k, get-remove d k i)

  pub length-remove :
      (d : Dict K V) (k : K) (v : V)
      → HasUniqueKeys d
      → get d k ≡ some v
      → length (remove d k) + 1 ≡ length d
  unfolding get remove
  length-remove [] k v h p = cc
  length-remove ((i, w) ∷ d) k v h p =
      ground (arith, length-remove d k v, remove_absent d k, key.same_iff i k)

  -- a new key stands at the end
  pub put-append : (d : Dict K V) (k : K) (v : V) → get d k ≡ none → put d k v ≡ d ++ (k, v) ∷ []
  unfolding put get
  put-append [] k v h = refl
  put-append ((i, w) ∷ d) k v h = ground (arith, put-append d k v)

  get-append :
      (d r : Dict K V) (k : K)
      → get (d ++ r) k ≡ (elim (get d k) [ none ↦ get r k | some v ↦ some v ])
  unfolding get
  get-append [] r k = refl
  get-append ((i, w) ∷ d) r k = ground (arith, get-append d r k)

  -- what stands before an entry has other keys
  pub before-absent :
      (d : Dict K V) (k : K) (v : V) (r : Dict K V)
      → HasUniqueKeys (d ++ (k, v) ∷ r)
      → get d k ≡ none
  unfolding get
  before-absent [] k v r u = refl
  before-absent ((i, w) ∷ d) k v r u = ground (
    arith,
    before-absent d k v r u.1,
    get-append d ((k, v) ∷ r) i,
    u.0,
    key.same_iff i k,
    same_refl i,
  )
