-- ===== src/IdMap/Compact.antt =====
-- What `_compact_message_window` does: the numbers become 1, 2, … above the base, in the old order.
use rocket_cat_shell_linux.Base.{
  ℕ, suc, ◌+◌, ◌<◌, String, ◌≡◌, refl, none, some, List, [], ◌∷◌, length, nat_key, string_key,
  arith, length-map, Option-cases, inl, inr, same_refl, sym, ◌∙◌, ap, ap₂,
}
use rocket_cat_shell_linux.Base.Dict.{Dict, get, get-put, length-put_new}
use rocket_cat_shell_linux.Base.Sort.{sort_items, get-sort_items, length-sort_items}
use rocket_cat_shell_linux.IdMap.{
  Table, Renumbered, renumber, renumber_one, ordered_sources, no_entries, add_source,
  compact_sources, compact_message_window, base, message,
}
use rocket_cat_shell_linux.IdMap.Consistent.{
  IsConsistent, add_source-IsConsistent, empty_table-IsConsistent,
}
use rocket_cat_shell_linux.IdMap.Order.{
  position, Distinct, position-get, get-position, sources-Distinct, position_mono,
}
use rocket_cat_shell_linux.IdMap.Window.{
  reverse-IsInjective, reverse-IsSorted, reverse-HasUniqueKeys,
}
use native.Mathlib.Nat.{add-zero, zero-add}
use text.Mathlib.TextEquality.{eq_iff}

-- The table that the loop has built after `n` rounds.
abbrev built : ℕ → Renumbered → Table
built n r = record { counter = n; forward = r.new_forward; reverse = r.new_reverse }

-- None of the sources is in the table yet.
abbrev AllNew : Dict String ℕ → List String → Type 0
AllNew f l = (s : String) (k : ℕ) → position l s ≡ some k → get f s ≡ none

renumber_one-IsConsistent :
    (forward : Dict String ℕ) (n : ℕ) (s : String) (r : Renumbered)
    → IsConsistent (base message) (built n r)
    → get r.new_forward s ≡ none
    → IsConsistent (base message) (built (n + 1) (renumber_one forward (n + 1) s r))
unfolding renumber_one add_source
renumber_one-IsConsistent forward n s r c new = add_source-IsConsistent c s new

renumber-IsConsistent :
    (forward : Dict String ℕ) (n : ℕ) (l : List String) (r : Renumbered)
    → IsConsistent (base message) (built n r)
    → Distinct l
    → AllNew r.new_forward l
    → IsConsistent (base message) (built (n + length l) (renumber forward (n + 1) l r))
unfolding renumber position
renumber-IsConsistent forward n [] r c d new = rw add-zero c
renumber-IsConsistent forward n (s ∷ l) r c d new =
    let r' = renumber_one forward (n + 1) s r in
    let same : n + suc (length l) ≡ n + 1 + length l = omega arith in
    rw same (
      renumber-IsConsistent forward (n + 1) l r'
        (renumber_one-IsConsistent forward n s r c (new s 0 (rw (same_refl s)))) d.1
        (λ q k h.
          unfold renumber_one in
          get-put r.new_forward s q (base message + (n + 1))
          ∙ ground (arith, new q (k + 1), eq_iff s q, d.0, h)))

-- Each source gets the number of its place.
renumber-position :
    (forward : Dict String ℕ) (index : ℕ) (l : List String) (r : Renumbered) (s : String)
    → Distinct l
    → get (renumber forward index l r).new_forward s ≡ (elim (position l s) [
      | none ↦ get r.new_forward s
      | some k ↦ some (base message + (index + k))
    ])
unfolding renumber renumber_one position
renumber-position forward index [] r s d = refl
renumber-position forward index (q ∷ l) r s d = ground (
  arith,
  renumber-position forward (index + 1) l (renumber_one forward index q r) s d.1,
  get-put r.new_forward q s (base message + index),
  eq_iff q s,
  d.0,
)

module _ {t : Table} (c : IsConsistent (base message) t) where
  ordered_sources-Distinct : Distinct (ordered_sources t)
  ordered_sources-Distinct =
      sources-Distinct (sort_items t.reverse) (reverse-HasUniqueKeys c) (λ i j s hi hj.
        reverse-IsInjective c i j s (sym (get-sort_items t.reverse i c.reverse_unique) ∙ hi)
          (sym (get-sort_items t.reverse j c.reverse_unique) ∙ hj))

  length-ordered_sources : length (ordered_sources t) ≡ length t.forward
  length-ordered_sources =
      length-map (λ item. item.1) (sort_items t.reverse)
      ∙ length-sort_items t.reverse
      ∙ sym c.same_length

nothing_new : (l : List String) → AllNew [] l
unfolding get
nothing_new l s k h = refl

length-renumber :
    (forward : Dict String ℕ) (index : ℕ) (l : List String) (r : Renumbered)
    → Distinct l
    → AllNew r.new_forward l
    → length (renumber forward index l r).new_forward ≡ length r.new_forward + length l
unfolding renumber renumber_one position
length-renumber forward index [] r d new = omega arith
length-renumber forward index (s ∷ l) r d new = omega (
  arith,
  length-put_new r.new_forward s (base message + index) (new s 0 (rw (same_refl s))),
  length-renumber forward (index + 1) l (renumber_one forward index s r) d.1 (λ q k h.
      get-put r.new_forward s q (base message + index)
      ∙ ground (arith, new q (k + 1), eq_iff s q, d.0, h)),
)

nil_of_length {ℓ} : {A : Type ℓ} (l : List A) → length l ≡ 0 → l ≡ []
nil_of_length [] h = refl
nil_of_length (x ∷ l) h = absurd (omega arith)

module _ {t : Table} (c : IsConsistent (base message) t) where
  abbrev compacted : Table
  compacted =
      built (length (ordered_sources t)) (renumber t.forward 1 (ordered_sources t) no_entries)

  compact-compacted : (compact_message_window t).0 ≡ compacted
  unfolding compact_message_window renumber
  compact-compacted = go (ordered_sources t) (length-ordered_sources c)
    where
      go :
          (l : List String)
          → length l ≡ length t.forward
          → (compact_sources l t).0 ≡ built (length l) (renumber t.forward 1 l no_entries)
      go [] e =
          ap₂ (λ f r. record { counter = 0; forward = f; reverse = r })
            (nil_of_length t.forward (sym e)) (nil_of_length t.reverse (sym (e ∙ c.same_length)))
      go (s ∷ l) e = refl

  pub compact-IsConsistent : IsConsistent (base message) (compact_message_window t).0
  compact-IsConsistent = rw compact-compacted (
      rw zero-add at (
        renumber-IsConsistent t.forward 0 (ordered_sources t) no_entries
          (empty_table-IsConsistent (base message)) (ordered_sources-Distinct c)
          (nothing_new (ordered_sources t))))

  pub length-compact : length (compact_message_window t).0.forward ≡ length t.forward
  length-compact =
      ap (λ (u : Table). length u.forward) compact-compacted
      ∙ length-renumber t.forward 1 (ordered_sources t) no_entries (ordered_sources-Distinct c)
          (nothing_new (ordered_sources t))
      ∙ zero-add (length (ordered_sources t))
      ∙ length-ordered_sources c

  -- the counter starts again at the number of sources
  pub counter-compact : (compact_message_window t).0.counter ≡ length t.forward
  counter-compact = ap (λ (u : Table). u.counter) compact-compacted ∙ length-ordered_sources c

  -- The new number of a source is its place among the old numbers.
  pub get-compact :
      (s : String)
      → get (compact_message_window t).0.forward s ≡ (elim (position (ordered_sources t) s) [
        | none ↦ none
        | some k ↦ some (base message + (1 + k))
      ])
  unfolding get
  get-compact s =
      ap (λ (u : Table). get u.forward s) compact-compacted
      ∙ renumber-position t.forward 1 (ordered_sources t) no_entries s (ordered_sources-Distinct c)

  in_sorted :
      (s : String) (i : ℕ) → get t.forward s ≡ some i → get (sort_items t.reverse) i ≡ some s
  in_sorted s i h = get-sort_items t.reverse i c.reverse_unique ∙ c.to_reverse s i h

  -- No source is lost.
  pub compact_keeps :
      (s : String) (i : ℕ)
      → get t.forward s ≡ some i
      → (j : ℕ) × (get (compact_message_window t).0.forward s ≡ some j)
  compact_keeps s i h =
      let (k, there) = get-position (sort_items t.reverse) i s (in_sorted s i h) in
      (base message + (1 + k), get-compact s ∙ rw there)

  -- Renumbering keeps the order of age.
  pub compact_mono :
      (r s : String) (i j i' j' : ℕ)
      → get t.forward r ≡ some i
      → get t.forward s ≡ some j
      → get (compact_message_window t).0.forward r ≡ some i'
      → get (compact_message_window t).0.forward s ≡ some j'
      → i < j
      → i' < j'
  compact_mono r s i j i' j' hr hs hr' hs' lt =
      let (k, pr) = get-position (sort_items t.reverse) i r (in_sorted r i hr) in
      let (m, ps) = get-position (sort_items t.reverse) j s (in_sorted s j hs) in
      let less : k < m =
        position_mono (sort_items t.reverse) i j r s k m (reverse-IsSorted c)
          (reverse-HasUniqueKeys c)
          (λ a b q ha hb.
            reverse-IsInjective c a b q (sym (get-sort_items t.reverse a c.reverse_unique) ∙ ha)
              (sym (get-sort_items t.reverse b c.reverse_unique) ∙ hb))
          (in_sorted r i hr) (in_sorted s j hs) lt pr ps in
      ground (arith, get-compact r, get-compact s)

  -- No source is invented.
  pub compact_old :
      (s : String) (j : ℕ)
      → get (compact_message_window t).0.forward s ≡ some j
      → (i : ℕ) × (get t.forward s ≡ some i)
  compact_old s j h = elim (Option-cases (position (ordered_sources t) s)) [
    | inl absent ↦ absurd (ground (arith, get-compact s))
    | inr (k, there) ↦
        let (i, found) = position-get (sort_items t.reverse) s k (reverse-HasUniqueKeys c) there in
        (i, c.to_forward i s (sym (get-sort_items t.reverse i c.reverse_unique) ∙ found))
  ]
