-- ===== src/Base/Index.antt =====
-- A `dict` of values with an index that leads from a key of each value back to its place.
use rocket_cat_shell_linux.Base.Tests.{Key, ◌==◌, Bool-cases}
use rocket_cat_shell_linux.Base.Dict.{
  Dict, get, put, remove, get-put, get-remove, HasUniqueKeys, put-HasUniqueKeys,
  remove-HasUniqueKeys,
}
use mathlib.Core.Path.{◌≡◌}
use mathlib.Core.Logic.{inl, inr}
use mathlib.Core.Option.{none, some}
use native.Mathlib.Omega.{arith}

pub record IsIndex {T V K : Type 0} ⦃place : Key T⦄ ⦃key : Key K⦄ (key_of : V → K) (d : Dict T V)
    (p : Dict K T) : Type 0 where
  pub unique : HasUniqueKeys d
  pub to_value : (k : K) (t : T) → get p k ≡ some t → (v : V) × (get d t ≡ some v) × (key_of v ≡ k)
  pub to_index : (t : T) (v : V) → get d t ≡ some v → get p (key_of v) ≡ some t

module _ {T V K : Type 0} ⦃place : Key T⦄ ⦃key : Key K⦄ {key_of : V → K} {d : Dict T V}
    {p : Dict K T} (i : IsIndex key_of d p) where
  pub remove-IsIndex :
      (t : T) (v : V) → get d t ≡ some v → IsIndex key_of (remove d t) (remove p (key_of v))
  remove-IsIndex t v h = record {
    unique = remove-HasUniqueKeys d t i.unique;
    to_value = λ k u q.
        let before : get p k ≡ some u = ground (arith, get-remove p (key_of v) k, q) in
        let (w, a, b) = i.to_value k u before in
        (
          w,
          ground (
            arith,
            get-remove d t u,
            get-remove p (key_of v) k,
            place.same_iff t u,
            key.same_iff (key_of v) k,
            q,
            a,
            b,
            h,
          ),
          b,
        );
    to_index = λ u w q. ground (
      arith,
      get-remove d t u,
      get-remove p (key_of v) (key_of w),
      place.same_iff t u,
      key.same_iff (key_of v) (key_of w),
      q,
      i.to_index u w,
      i.to_index t v h,
    );
  }

  pub put-IsIndex :
      (t : T) (v : V)
      → get d t ≡ none
      → get p (key_of v) ≡ none
      → IsIndex key_of (put d t v) (put p (key_of v) t)
  put-IsIndex t v new free = record {
    unique = put-HasUniqueKeys d t v i.unique;
    to_value = λ k u q. elim (Bool-cases (key_of v == k)) [
      | inl y ↦ (
        v,
        ground (arith, get-put p (key_of v) k t, get-put d t u v, place.same_iff t u, q, y),
        (key.same_iff (key_of v) k).0 y,
      )
      | inr n ↦
          let before : get p k ≡ some u = ground (arith, get-put p (key_of v) k t, q, n) in
          let (w, a, b) = i.to_value k u before in
          (w, ground (arith, get-put d t u v, place.same_iff t u, a, new), b)
    ];
    to_index = λ u w q. ground (
      arith,
      get-put d t u v,
      get-put p (key_of v) (key_of w) t,
      place.same_iff t u,
      key.same_iff (key_of v) (key_of w),
      q,
      i.to_index u w,
      free,
    );
  }

  -- The index of what holds the same values, perhaps in another order.
  pub reordered-IsIndex :
      (e : Dict T V) → HasUniqueKeys e → ((t : T) → get e t ≡ get d t) → IsIndex key_of e p
  reordered-IsIndex e u same = record {
    unique = u;
    to_value = λ k t q. let (v, a, b) = i.to_value k t q in (v, ground (arith, same t, a), b);
    to_index = λ t v q. i.to_index t v (ground (arith, same t, q));
  }
