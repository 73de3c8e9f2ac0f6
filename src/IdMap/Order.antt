-- ===== src/IdMap/Order.antt =====
-- The place of a source among the sources in the order of their numbers.
use rocket_cat_shell_linux.Base.{
  ℕ, ◌+◌, ◌-◌, ◌<◌, String, ◌≡◌, Option, none, some, List, [], ◌∷◌, map, if◌then◌else◌, ◌==◌,
  nat_key, string_key, arith, same_refl, Bool-cases, Option-cases, inl, inr,
}
use rocket_cat_shell_linux.Base.Cut.{Above-get}
use rocket_cat_shell_linux.Base.Dict.{Dict, get, HasUniqueKeys}
use rocket_cat_shell_linux.Base.Sort.{IsSorted}
use text.Mathlib.TextEquality.{eq_iff}

unfoldable pub position : List String → String → Option ℕ
position [] s = none
position (r ∷ l) s =
    if r == s then some 0 else elim (position l s) [ none ↦ none | some k ↦ some (k + 1) ]

abbrev pub Distinct : List String → Type 0
Distinct [] = Unit
Distinct (r ∷ l) = (position l r ≡ none) × Distinct l

abbrev pub sources : Dict ℕ String → List String
sources d = map (λ item. item.1) d

-- No text stands under two numbers.
abbrev pub IsInjective : Dict ℕ String → Type 0
IsInjective d = (i j : ℕ) (s : String) → get d i ≡ some s → get d j ≡ some s → i ≡ j

tail-IsInjective :
    (q : ℕ × String) (d : Dict ℕ String)
    → HasUniqueKeys (q ∷ d)
    → IsInjective (q ∷ d)
    → IsInjective d
unfolding get
tail-IsInjective q d u inj i j s hi hj = inj i j s (ground (arith, u.0)) (ground (arith, u.0))

pub position-get :
    (d : Dict ℕ String) (s : String) (k : ℕ)
    → HasUniqueKeys d
    → position (sources d) s ≡ some k
    → (i : ℕ) × (get d i ≡ some s)
unfolding position get
position-get [] s k u h = cc
position-get (q ∷ d) s k u h = elim (Bool-cases (q.1 == s)) [
  | inl e ↦ (q.0, rw (same_refl q.0) (ground (arith, eq_iff q.1 s)))
  | inr n ↦ elim (Option-cases (position (sources d) s)) [
    | inl absent ↦ absurd (ground arith)
    | inr (m, there) ↦ let (i, found) = position-get d s m u.1 there in (i, ground (arith, u.0))
  ]
]

-- A source that has a number has a place.
pub get-position :
    (d : Dict ℕ String) (i : ℕ) (s : String)
    → get d i ≡ some s
    → (k : ℕ) × (position (sources d) s ≡ some k)
unfolding position get
get-position [] i s h = cc
get-position (q ∷ d) i s h = elim (Bool-cases (q.1 == s)) [
  | inl e ↦ (0, rw e)
  | inr n ↦
      let (k, there) = get-position d i s (ground (arith, eq_iff q.1 s)) in (k + 1, rw (n, there))
]

pub sources-Distinct : (d : Dict ℕ String) → HasUniqueKeys d → IsInjective d → Distinct (sources d)
unfolding position get
sources-Distinct [] u inj = tt
sources-Distinct (q ∷ d) u inj = (
  elim (Option-cases (position (sources d) q.1)) [
    | inl absent ↦ absent
    | inr (k, there) ↦
        let (i, found) = position-get d q.1 k u.1 there in
        absurd (ground (arith, inj i q.0 q.1, u.0))
  ],
  sources-Distinct d u.1 (tail-IsInjective q d u inj),
)

-- The places stand in the order of the numbers.
pub position_mono :
    (d : Dict ℕ String) (i j : ℕ) (r s : String) (k m : ℕ)
    → IsSorted d
    → HasUniqueKeys d
    → IsInjective d
    → get d i ≡ some r
    → get d j ≡ some s
    → i < j
    → position (sources d) r ≡ some k
    → position (sources d) s ≡ some m
    → k < m
unfolding position get
position_mono [] i j r s k m o u inj hi hj lt pr ps = cc
position_mono (q ∷ d) i j r s k m o u inj hi hj lt pr ps = ground (
  arith,
  eq_iff q.1 r,
  eq_iff q.1 s,
  inj q.0 i r,
  inj q.0 j s,
  Above-get q.0 d i r o.0,
  Above-get q.0 d j s o.0,
  u.0,
  same_refl q.0,
  position_mono d i j r s (k - 1) (m - 1) o.1 u.1 (tail-IsInjective q d u inj),
)
