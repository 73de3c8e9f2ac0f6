-- ===== src/IdMap/Consistent.antt =====
-- The two directions of a table of `DurableIdMap` are inverse, and its numbers stand in a range.
use rocket_cat_shell_linux.Base.{
  ℕ, ◌+◌, ◌≤◌, ◌<◌, String, ◌≡◌, refl, none, some, [], ◌∷◌, length, nat_key, string_key, arith,
  Option-cases, inl, inr, same_refl,
}
use rocket_cat_shell_linux.Base.Dict.{
  Dict, get, remove, get-put, get-remove, HasUniqueKeys, put-HasUniqueKeys, remove-HasUniqueKeys,
  length-remove, length-put_new,
}
use rocket_cat_shell_linux.IdMap.{Table, empty_table, add_source, evict}
use text.Mathlib.TextEquality.{eq_iff}

pub record IsConsistent (b : ℕ) (t : Table) : Type 0 where
  pub forward_unique : HasUniqueKeys t.forward
  pub reverse_unique : HasUniqueKeys t.reverse
  pub to_reverse : (s : String) (i : ℕ) → get t.forward s ≡ some i → get t.reverse i ≡ some s
  pub to_forward : (i : ℕ) (s : String) → get t.reverse i ≡ some s → get t.forward s ≡ some i
  pub range : (i : ℕ) (s : String) → get t.reverse i ≡ some s → (b < i) × (i ≤ b + t.counter)
  pub same_length : length t.forward ≡ length t.reverse

pub empty_table-IsConsistent : (b : ℕ) → IsConsistent b empty_table
unfolding get
empty_table-IsConsistent b = record {
  forward_unique = tt;
  reverse_unique = tt;
  to_reverse = λ s i h. cc;
  to_forward = λ i s h. cc;
  range = λ i s h. cc;
  same_length = refl;
}

module _ {b : ℕ} {t : Table} (c : IsConsistent b t) where
  -- the next number is not in use
  pub next_is_new : get t.reverse (b + (t.counter + 1)) ≡ none
  next_is_new = elim (Option-cases (get t.reverse (b + (t.counter + 1)))) [
    | inl e ↦ e
    | inr (s, e) ↦ absurd (omega (arith, c.range _ s e))
  ]

  pub add_source-IsConsistent :
      (s : String) → get t.forward s ≡ none → IsConsistent b (add_source b s t)
  unfolding add_source
  add_source-IsConsistent s h = record {
    forward_unique = put-HasUniqueKeys t.forward s _ c.forward_unique;
    reverse_unique = put-HasUniqueKeys t.reverse _ s c.reverse_unique;
    to_reverse = λ r i p. ground (
      arith,
      get-put t.forward s r (b + (t.counter + 1)),
      get-put t.reverse (b + (t.counter + 1)) i s,
      eq_iff s r,
      c.to_reverse r i,
      p,
      next_is_new,
    );
    to_forward = λ i r p. ground (
      arith,
      get-put t.forward s r (b + (t.counter + 1)),
      get-put t.reverse (b + (t.counter + 1)) i s,
      eq_iff s r,
      c.to_forward i r,
      p,
    );
    range = λ i r p. ground (arith, get-put t.reverse (b + (t.counter + 1)) i s, c.range i r, p);
    same_length = omega (
      arith,
      c.same_length,
      length-put_new t.forward s (b + (t.counter + 1)) h,
      length-put_new t.reverse (b + (t.counter + 1)) s next_is_new,
    );
  }

  pub remove_pair-IsConsistent :
      (i : ℕ) (s : String)
      → get t.reverse i ≡ some s
      → IsConsistent b (record t { forward = remove t.forward s; reverse = remove t.reverse i })
  remove_pair-IsConsistent i s h = record {
    forward_unique = remove-HasUniqueKeys t.forward s c.forward_unique;
    reverse_unique = remove-HasUniqueKeys t.reverse i c.reverse_unique;
    to_reverse = λ r j p. ground (
      arith,
      get-remove t.forward s r,
      get-remove t.reverse i j,
      eq_iff s r,
      c.to_reverse r j,
      p,
      h,
    );
    to_forward = λ j r p. ground (
      arith,
      get-remove t.forward s r,
      get-remove t.reverse i j,
      eq_iff s r,
      c.to_forward j r,
      c.to_forward i s h,
      p,
    );
    range = λ j r p. ground (arith, get-remove t.reverse i j, c.range j r, p);
    same_length = omega (
      arith,
      c.same_length,
      length-remove t.forward s i c.forward_unique (c.to_forward i s h),
      length-remove t.reverse i s c.reverse_unique h,
    );
  }

-- What an eviction of the entries `l` leaves: a consistent table without just those.
pub record IsWithout (b : ℕ) (t : Table) (l : Dict ℕ String) (t' : Table) : Type 0 where
  pub consistent : IsConsistent b t'
  pub kept :
      (j : ℕ) → get t'.reverse j ≡ (elim (get l j) [ none ↦ get t.reverse j | some s ↦ none ])
  pub shorter : length t'.forward + length l ≡ length t.forward
  pub same_counter : t'.counter ≡ t.counter

pub evict-IsWithout :
    (b : ℕ) (t : Table) (l : Dict ℕ String)
    → IsConsistent b t
    → HasUniqueKeys l
    → ((j : ℕ) (s : String) → get l j ≡ some s → get t.reverse j ≡ some s)
    → IsWithout b t l (evict t l)
unfolding evict get
evict-IsWithout b t [] c u h = record {
  consistent = c;
  kept = λ j. refl;
  shorter = omega arith;
  same_counter = refl;
}
evict-IsWithout b t ((i, s) ∷ l) c u h =
    let here : get t.reverse i ≡ some s = h i s (rw (same_refl i)) in
    let t' : Table = record t { forward = remove t.forward s; reverse = remove t.reverse i } in
    let rest : IsWithout b t' l (evict t' l) =
      evict-IsWithout b t' l (remove_pair-IsConsistent c i s here) u.1
        (λ j r p. ground (arith, get-remove t.reverse i j, h j r, p, u.0)) in
    record {
      consistent = rest.consistent;
      kept = λ j. ground (arith, rest.kept j, get-remove t.reverse i j, u.0);
      shorter = omega (
        arith,
        rest.shorter,
        length-remove t.forward s i c.forward_unique (c.to_forward i s here),
      );
      same_counter = rest.same_counter;
    }
