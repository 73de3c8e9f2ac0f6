-- ===== src/IdMap/Maintain.antt =====
-- The whole of `_maintain_message_window`, and the insertion of a source before it.
use rocket_cat_shell_linux.Base.{
  ℕ, ◌+◌, ◌-◌, ◌*◌, ◌≤◌, ◌<◌, String, ◌≡◌, refl, Bool, false, ◌||◌, none, some, ltb, leb,
  if◌then◌else◌, length, nat_key, string_key, arith, Bool-cases, inl, inr, ◌∙◌, ap,
}
use rocket_cat_shell_linux.Base.Dict.{get, get-put_self}
use rocket_cat_shell_linux.IdMap.{
  Table, drop_overflow, compact_if_due, message_reset_counter, maintain_message_window, base,
  message, add_source,
}
use rocket_cat_shell_linux.IdMap.Consistent.{IsConsistent, add_source-IsConsistent}
use rocket_cat_shell_linux.IdMap.Compact.{
  compact-IsConsistent, length-compact, counter-compact, compact_keeps,
}
use rocket_cat_shell_linux.IdMap.Window.{
  drop_overflow-IsWithout, length-drop_overflow, youngest_kept,
}

-- The table after the eviction, before the renumbering.
abbrev pub kept : ℕ → Table → Table
kept window t = if ltb 0 (length t.forward - window) then drop_overflow window t else t

pub table-maintain :
    (window : ℕ) (force quiet : Bool) (t : Table)
    → (maintain_message_window window force quiet t).0
      ≡ (compact_if_due window force (kept window t)).0
unfolding maintain_message_window
table-maintain window force quiet t = refl

module _ {t : Table} (c : IsConsistent (base message) t) (window : ℕ) where
  pub kept-IsConsistent : IsConsistent (base message) (kept window t)
  kept-IsConsistent = elim (Bool-cases (ltb 0 (length t.forward - window))) [
    | inl over ↦ rw over (drop_overflow-IsWithout c window).consistent
    | inr fits ↦ rw fits c
  ]

  length-kept : length (kept window t).forward ≤ window
  length-kept = elim (Bool-cases (ltb 0 (length t.forward - window))) [
    | inl over ↦ rw over (omega (arith, length-drop_overflow c window))
    | inr fits ↦ rw fits (ground arith)
  ]

  module _ (force quiet : Bool) where
    abbrev final : Table
    final = (maintain_message_window window force quiet t).0

    -- Eviction and renumbering keep the two directions inverse.
    pub maintain-IsConsistent : IsConsistent (base message) final
    unfolding compact_if_due
    maintain-IsConsistent =
        rw table-maintain
          (elim (Bool-cases (force || leb (message_reset_counter window) (kept window t).counter)) [
            | inl due ↦ rw due (compact-IsConsistent kept-IsConsistent)
            | inr later ↦ rw later kept-IsConsistent
          ])

    length-final : length final.forward ≡ length (kept window t).forward
    unfolding compact_if_due
    length-final =
        ap (λ (u : Table). length u.forward) (table-maintain window force quiet t)
        ∙ elim (Bool-cases (force || leb (message_reset_counter window) (kept window t).counter)) [
          | inl due ↦ rw due (length-compact kept-IsConsistent)
          | inr later ↦ rw later
        ]

    pub length-maintain : length final.forward ≤ window
    length-maintain = omega (arith, length-final, length-kept)

    -- The counter is below the value at which it is reset.
    pub counter-maintain : 0 < window → final.counter < window * 2
    unfolding compact_if_due message_reset_counter
    counter-maintain pos =
        rw table-maintain
          (elim (Bool-cases (force || leb (message_reset_counter window) (kept window t).counter)) [
            | inl due ↦ rw due (omega (arith, counter-compact kept-IsConsistent, length-kept))
            | inr later ↦ rw later (ground arith)
          ])

    -- What the eviction leaves in the table is there at the end, perhaps under a new number.
    pub final_keeps :
        (s : String) (i : ℕ)
        → get (kept window t).forward s ≡ some i
        → (j : ℕ) × (get final.forward s ≡ some j)
    unfolding compact_if_due
    final_keeps s i h =
        rw table-maintain
          (elim (Bool-cases (force || leb (message_reset_counter window) (kept window t).counter)) [
            | inl due ↦ rw due (compact_keeps kept-IsConsistent s i h)
            | inr later ↦ rw later (i, h)
          ])

-- A source that was just added survives the eviction.
pub added_survives :
    {t : Table} (c : IsConsistent (base message) t) (window : ℕ) (s : String)
    → 0 < window
    → get t.forward s ≡ none
    → (j : ℕ) × (get
          (maintain_message_window window false false (add_source (base message) s t)).0.forward
          s
        ≡ some j)
unfolding add_source
added_survives {t} c window s pos new =
    let i : ℕ = base message + (t.counter + 1) in
    let t' : Table = add_source (base message) s t in
    let c' : IsConsistent (base message) t' = add_source-IsConsistent c s new in
    let here : get t'.reverse i ≡ some s = get-put_self t.reverse i s in
    final_keeps c' window false false s i (elim (Bool-cases (ltb 0 (length t'.forward - window))) [
      | inl over ↦ rw over (
          (drop_overflow-IsWithout c' window).consistent.to_forward i s
            (youngest_kept c' window i s pos (ground arith) here (λ j r h. (c'.range j r h).1)))
      | inr fits ↦ rw fits (get-put_self t.forward s i)
    ])
