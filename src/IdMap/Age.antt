-- ===== src/IdMap/Age.antt =====
-- The window forgets the oldest messages first, and keeps the order of those that stay.
use rocket_cat_shell_linux.Base.{
  ℕ, ◌-◌, ◌<◌, String, ◌≡◌, Bool, ◌||◌, none, some, ltb, leb, length, nat_key, string_key, arith,
  Bool-cases, Option-cases, inl, inr,
}
use rocket_cat_shell_linux.Base.Dict.{get}
use rocket_cat_shell_linux.IdMap.{
  Table, compact_if_due, message_reset_counter, maintain_message_window, base, message,
}
use rocket_cat_shell_linux.IdMap.Consistent.{IsConsistent}
use rocket_cat_shell_linux.IdMap.Compact.{compact_mono, compact_old}
use rocket_cat_shell_linux.IdMap.Maintain.{kept, table-maintain, kept-IsConsistent, final_keeps}
use rocket_cat_shell_linux.IdMap.Window.{drop_overflow-IsWithout, dropped_older}

module _ {t : Table} (c : IsConsistent (base message) t) (window : ℕ) where
  -- the eviction leaves numbers as they are
  kept_old :
      (s : String) (i : ℕ) → get (kept window t).forward s ≡ some i → get t.forward s ≡ some i
  kept_old s i = elim (Bool-cases (ltb 0 (length t.forward - window))) [
    | inl over ↦ rw over (λ h.
        let w = drop_overflow-IsWithout c window in
        c.to_forward i s (ground (arith, w.kept i, w.consistent.to_reverse s i h)))
    | inr fits ↦ rw fits (λ h. h)
  ]

  kept_older :
      (r s : String) (i j : ℕ)
      → get t.forward r ≡ some i
      → get (kept window t).forward r ≡ none
      → get (kept window t).forward s ≡ some j
      → i < j
  kept_older r s i j hr = elim (Bool-cases (ltb 0 (length t.forward - window))) [
    | inl over ↦ rw over (λ gone there.
        let w = drop_overflow-IsWithout c window in
        dropped_older c window i j r s (c.to_reverse r i hr)
          (ground (arith, w.kept i, c.to_reverse r i hr, w.consistent.to_forward i r, gone))
          (w.consistent.to_reverse s j there))
    | inr fits ↦ rw fits (λ gone there. cc (hr, gone))
  ]

  module _ (force quiet : Bool) where
    abbrev final : Table
    final = (maintain_message_window window force quiet t).0

    -- what is there at the end was there after the eviction
    final_old :
        (s : String) (j : ℕ)
        → get final.forward s ≡ some j
        → (k : ℕ) × (get (kept window t).forward s ≡ some k)
    unfolding compact_if_due
    final_old s j =
        rw table-maintain
          (elim (Bool-cases (force || leb (message_reset_counter window) (kept window t).counter)) [
            | inl due ↦ rw due (λ h. compact_old (kept-IsConsistent c window) s j h)
            | inr later ↦ rw later (λ h. (j, h))
          ])

    final_mono :
        (r s : String) (i j i' j' : ℕ)
        → get (kept window t).forward r ≡ some i
        → get (kept window t).forward s ≡ some j
        → get final.forward r ≡ some i'
        → get final.forward s ≡ some j'
        → i < j
        → i' < j'
    unfolding compact_if_due
    final_mono r s i j i' j' hr hs =
        rw table-maintain
          (elim (Bool-cases (force || leb (message_reset_counter window) (kept window t).counter)) [
            | inl due ↦ rw due (compact_mono (kept-IsConsistent c window) r s i j i' j' hr hs)
            | inr later ↦ rw later (λ gr gs lt. ground arith)
          ])

    maintain_mono :
        (r s : String) (i j i' j' : ℕ)
        → get t.forward r ≡ some i
        → get t.forward s ≡ some j
        → get final.forward r ≡ some i'
        → get final.forward s ≡ some j'
        → i < j
        → i' < j'
    maintain_mono r s i j i' j' hr hs gr gs lt =
        let (k, kr) = final_old r i' gr in
        let (m, ks) = final_old s j' gs in
        final_mono r s k m i' j' kr ks gr gs (ground (arith, kept_old r k kr, kept_old s m ks))

    maintain_oldest_first :
        (r s : String) (i j j' : ℕ)
        → get t.forward r ≡ some i
        → get t.forward s ≡ some j
        → get final.forward r ≡ none
        → get final.forward s ≡ some j'
        → i < j
    maintain_oldest_first r s i j j' hr hs gone there =
        let (m, ks) = final_old s j' there in
        let dropped : get (kept window t).forward r ≡ none =
          elim (Option-cases (get (kept window t).forward r)) [
            | inl absent ↦ absent
            | inr (k, kr) ↦
                let (q, found) = final_keeps c window force quiet r k kr in cc (found, gone)
          ] in
        ground (arith, kept_older r s i m hr dropped ks, kept_old s m ks)

    -- When a message stays, every message that is newer stays too, and keeps the greater number, also
    -- when both are renumbered.
    pub maintain-newer :
        (r s : String) (i j j' : ℕ)
        → get t.forward r ≡ some i
        → get t.forward s ≡ some j
        → j < i
        → get final.forward s ≡ some j'
        → (i' : ℕ) × (get final.forward r ≡ some i') × (j' < i')
    maintain-newer r s i j j' hr hs newer there = elim (Option-cases (get final.forward r)) [
      | inl gone ↦ absurd (omega (arith, newer, maintain_oldest_first r s i j j' hr hs gone there))
      | inr (i', stays) ↦ (i', stays, maintain_mono s r j i j' i' hs hr there stays newer)
    ]
