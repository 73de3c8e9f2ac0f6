-- ===== src/Storage/Rebuild.antt =====
-- What `MessageStore.rebuild_for_active_mappings` keeps.
use rocket_cat_shell_linux.Base.{
  ℕ, ◌≡◌, refl, ap, ◌∙◌, String, Option, none, some, [], ◌∷◌, arith, nat_key, string_key,
  Option-cases, inl, inr, if◌then◌else◌, ◌==◌,
}
use rocket_cat_shell_linux.Base.Dict.{Dict, get, get-put, HasUniqueKeys}
use rocket_cat_shell_linux.Base.Sort.{insert_item, sort_items, get-sort_items, sort_items-IsSorted}
use rocket_cat_shell_linux.Base.Cut.{IsSorted-HasUniqueKeys}
use rocket_cat_shell_linux.Storage.{
  MessageEntry, MessagePayload, Rebuilt, nothing_rebuilt, by_number, rewrite_entry_surrogate,
  rebuild_one, rebuild_loop, rebuild_for_active_mappings,
}
use text.Mathlib.TextEquality.{eq_iff}

-- The items of a table of numbers, source first.
abbrev pub by_source : Dict ℕ String → Dict String ℕ
by_source [] = []
by_source ((n, s) ∷ l) = (s, n) ∷ by_source l

by_source-by_number : (d : Dict String ℕ) → by_source (by_number d) ≡ d
by_source-by_number [] = refl
by_source-by_number ((s, n) ∷ d) = ap (◌∷◌ (s, n)) (by_source-by_number d)

get-insert_item_source :
    (p : ℕ × String) (l : Dict ℕ String) (s : String)
    → get (by_source l) p.1 ≡ none
    → get (by_source (insert_item p l)) s ≡ get (by_source (p ∷ l)) s
unfolding insert_item get
get-insert_item_source p [] s h = refl
get-insert_item_source p (q ∷ l) s h =
    ground (arith, get-insert_item_source p l s, eq_iff p.1 s, eq_iff q.1 s, eq_iff q.1 p.1)

-- Sorting by number keeps the number of every source.
get-sort_source :
    (l : Dict ℕ String) (s : String)
    → HasUniqueKeys (by_source l)
    → get (by_source (sort_items l)) s ≡ get (by_source l) s
unfolding sort_items get
get-sort_source [] s u = refl
get-sort_source (p ∷ l) s u = ground (
  arith,
  get-insert_item_source p (sort_items l) s,
  get-sort_source l s u.1,
  get-sort_source l p.1 u.1,
)

insert_item-HasUniqueKeys :
    (p : ℕ × String) (l : Dict ℕ String)
    → get (by_source l) p.1 ≡ none
    → HasUniqueKeys (by_source l)
    → HasUniqueKeys (by_source (insert_item p l))
unfolding insert_item get
insert_item-HasUniqueKeys p [] h u = (refl, tt)
insert_item-HasUniqueKeys p (q ∷ l) h u = ground (
  arith,
  insert_item-HasUniqueKeys p l,
  get-insert_item_source p l q.1,
  eq_iff p.1 q.1,
  eq_iff q.1 p.1,
)

sort_items-HasUniqueKeys :
    (l : Dict ℕ String) → HasUniqueKeys (by_source l) → HasUniqueKeys (by_source (sort_items l))
unfolding sort_items
sort_items-HasUniqueKeys [] u = tt
sort_items-HasUniqueKeys (p ∷ l) u =
    insert_item-HasUniqueKeys p (sort_items l) (get-sort_source l p.1 u.1 ∙ u.0)
      (sort_items-HasUniqueKeys l u.1)

module _ (strip : String → String) (decimal : ℕ → String) where
  -- The entry of a source under its number, if there is one and it has a number.
  abbrev pub renumbered : Dict String ℕ → Option ℕ → Option MessageEntry → Option MessageEntry
  renumbered active none e = none
  renumbered active (some n) none = none
  renumbered active (some n) (some e) = some (rewrite_entry_surrogate strip decimal e n active)

  abbrev pub entry_of : Dict String MessageEntry → Option String → Option MessageEntry
  entry_of entries none = none
  entry_of entries (some s) = get entries s

  abbrev found_or : Option MessageEntry → Option MessageEntry → Option MessageEntry
  found_or none before = before
  found_or (some e) before = some e

  found_or-none : (o : Option MessageEntry) → found_or o none ≡ o
  found_or-none none = refl
  found_or-none (some e) = refl

  module _ (entries : Dict String MessageEntry) (active : Dict String ℕ) where
    abbrev loop : Dict ℕ String → Rebuilt → Rebuilt
    loop = rebuild_loop strip decimal entries active

    abbrev one : ℕ → String → Rebuilt → Rebuilt
    one = rebuild_one strip decimal entries active

    one_by_source :
        (n : ℕ) (t : String) (r : Rebuilt) (s : String)
        → get (one n t r).new_by_source s ≡ (
            if t == s
            then found_or (renumbered active (some n) (get entries t)) (get r.new_by_source s)
            else get r.new_by_source s)
    unfolding rebuild_one
    one_by_source n t r s = elim (Option-cases (get entries t)) [
      | inl h ↦ rw (rebuild_one, h) (ground (arith, h))
      | inr (e, h) ↦
          rw (rebuild_one, h)
            (get-put r.new_by_source t s (rewrite_entry_surrogate strip decimal e n active))
    ]

    one_by_surrogate :
        (m : ℕ) (t : String) (r : Rebuilt) (n : ℕ)
        → get (one m t r).new_by_surrogate n ≡ (
            if m == n
            then found_or (renumbered active (some m) (get entries t)) (get r.new_by_surrogate n)
            else get r.new_by_surrogate n)
    unfolding rebuild_one
    one_by_surrogate m t r n = elim (Option-cases (get entries t)) [
      | inl h ↦ rw (rebuild_one, h) (ground (arith, h))
      | inr (e, h) ↦
          rw (rebuild_one, h)
            (get-put r.new_by_surrogate m n (rewrite_entry_surrogate strip decimal e m active))
    ]

    loop_by_source :
        (l : Dict ℕ String) (r : Rebuilt) (s : String)
        → HasUniqueKeys (by_source l)
        → get (loop l r).new_by_source s
          ≡ found_or
              (renumbered active (get (by_source l) s) (get entries s))
              (get r.new_by_source s)
    unfolding rebuild_loop get
    loop_by_source [] r s u = refl
    loop_by_source ((n, t) ∷ l) r s u =
        ground (arith, loop_by_source l (one n t r) s u.1, one_by_source n t r s, eq_iff t s, u.0)

    loop_by_surrogate :
        (l : Dict ℕ String) (r : Rebuilt) (n : ℕ)
        → HasUniqueKeys l
        → get (loop l r).new_by_surrogate n
          ≡ found_or
              (renumbered active (some n) (entry_of entries (get l n)))
              (get r.new_by_surrogate n)
    unfolding rebuild_loop get
    loop_by_surrogate [] r n u = refl
    loop_by_surrogate ((m, t) ∷ l) r n u =
        ground (arith, loop_by_surrogate l (one m t r) n u.1, one_by_surrogate m t r n, u.0)

  -- After a rebuild, an entry stands under a source or a number exactly if the source has an active
  -- number and had an entry; it is that entry, with the number and with its replies rewritten. The
  -- active mappings have each source and each number once.
  pub rebuild-entries :
      (active : Dict String ℕ) (p : MessagePayload)
      → HasUniqueKeys active
      → HasUniqueKeys (by_number active)
      → ((s : String)
          → get (rebuild_for_active_mappings strip decimal active p).by_source s
            ≡ renumbered active (get active s) (get p.by_source s))
        × ((n : ℕ)
            → get (rebuild_for_active_mappings strip decimal active p).by_surrogate n
              ≡ renumbered active (some n) (entry_of p.by_source (get (by_number active) n)))
  unfolding rebuild_for_active_mappings get
  rebuild-entries active p u v =
      let l : Dict ℕ String = by_number active in
      let source : (s : String) → get (by_source (sort_items l)) s ≡ get active s = λ s.
        get-sort_source l s (rw (by_source-by_number active) u)
        ∙ ap (λ (d : Dict String ℕ). get d s) (by_source-by_number active) in
      (
        (λ s.
            loop_by_source p.by_source active (sort_items l) nothing_rebuilt s
              (sort_items-HasUniqueKeys l (rw (by_source-by_number active) u))
            ∙ found_or-none _
            ∙ ap (λ (o : Option ℕ). renumbered active o (get p.by_source s)) (source s)),
        (λ n.
            loop_by_surrogate p.by_source active (sort_items l) nothing_rebuilt n
              (IsSorted-HasUniqueKeys (sort_items l) (sort_items-IsSorted l v))
            ∙ found_or-none _
            ∙ ap (λ (o : Option String). renumbered active (some n) (entry_of p.by_source o))
                (get-sort_items l n v)),
      )
