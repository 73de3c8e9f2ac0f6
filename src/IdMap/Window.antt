-- ===== src/IdMap/Window.antt =====
-- What `_maintain_message_window` does to a table: it keeps it consistent and within the window.
use rocket_cat_shell_linux.Base.{
  ℕ, ◌-◌, ◌≤◌, ◌<◌, String, ◌≡◌, none, some, length, take, nat_key, string_key, arith, length-take,
  sym, ◌∙◌, min,
}
use rocket_cat_shell_linux.Base.Cut.{
  IsSorted-HasUniqueKeys, get-take, take-HasUniqueKeys, Below-get, greatest_kept, take_smaller,
}
use rocket_cat_shell_linux.Base.Dict.{Dict, get, HasUniqueKeys}
use rocket_cat_shell_linux.Base.Sort.{
  sort_items, get-sort_items, length-sort_items, IsSorted, sort_items-IsSorted,
}
use rocket_cat_shell_linux.IdMap.{Table, drop_overflow}
use rocket_cat_shell_linux.IdMap.Consistent.{IsConsistent, IsWithout, evict-IsWithout}
use rocket_cat_shell_linux.IdMap.Order.{IsInjective}

module _ {b : ℕ} {t : Table} (c : IsConsistent b t) where
  pub reverse-IsInjective : IsInjective t.reverse
  reverse-IsInjective i j s hi hj = ground (arith, c.to_forward i s hi, c.to_forward j s hj)

  pub reverse-IsSorted : IsSorted (sort_items t.reverse)
  reverse-IsSorted = sort_items-IsSorted t.reverse c.reverse_unique

  pub reverse-HasUniqueKeys : HasUniqueKeys (sort_items t.reverse)
  reverse-HasUniqueKeys = IsSorted-HasUniqueKeys _ reverse-IsSorted

  -- the entries that the window pushes out
  pub drop_overflow-IsWithout :
      (window : ℕ)
      → IsWithout b t
          (take (length t.forward - window) (sort_items t.reverse))
          (drop_overflow window t)
  unfolding drop_overflow
  drop_overflow-IsWithout window =
      evict-IsWithout b t _ c (take-HasUniqueKeys _ _ reverse-HasUniqueKeys)
        (λ j s h. sym (get-sort_items t.reverse j c.reverse_unique) ∙ get-take _ _ j s h)

  pub length-drop_overflow :
      (window : ℕ) → length (drop_overflow window t).forward ≡ min (length t.forward) window
  length-drop_overflow window = omega (
    arith,
    (drop_overflow-IsWithout window).shorter,
    c.same_length,
    length-take (length t.forward - window) (sort_items t.reverse),
    length-sort_items t.reverse,
  )

  -- the youngest entry stays
  pub youngest_kept :
      (window i : ℕ) (s : String)
      → 0 < window
      → window < length t.forward
      → get t.reverse i ≡ some s
      → ((j : ℕ) (r : String) → get t.reverse j ≡ some r → j ≤ i)
      → get (drop_overflow window t).reverse i ≡ some s
  youngest_kept window i s pos over h most =
      (drop_overflow-IsWithout window).kept i
      ∙ rw
          (greatest_kept (length t.forward - window) (sort_items t.reverse) i reverse-IsSorted
            (Below-get i (sort_items t.reverse) reverse-HasUniqueKeys
              (λ j r p. most j r (sym (get-sort_items t.reverse j c.reverse_unique) ∙ p)))
            (omega (arith, c.same_length, length-sort_items t.reverse)))
          h

  -- what is pushed out is older than what stays
  pub dropped_older :
      (window i j : ℕ) (r s : String)
      → get t.reverse i ≡ some r
      → get (drop_overflow window t).reverse i ≡ none
      → get (drop_overflow window t).reverse j ≡ some s
      → i < j
  dropped_older window i j r s hi gone stays =
      let w = drop_overflow-IsWithout window in
      let l : Dict ℕ String = take (length t.forward - window) (sort_items t.reverse) in
      let out : (v : String) × (get l i ≡ some v) = ground (arith, w.kept i) in
      take_smaller _ (sort_items t.reverse) i j out.0 s reverse-IsSorted out.1
        (ground (arith, w.kept j))
        (get-sort_items t.reverse j c.reverse_unique ∙ ground (arith, w.kept j))
