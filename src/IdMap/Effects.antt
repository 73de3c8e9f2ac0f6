-- ===== src/IdMap/Effects.antt =====
-- What a call of `get_or_create` or `rebuild_message_window` changes, and what it leaves alone.
use rocket_cat_shell_linux.Base.{
  ℕ, ◌+◌, ◌*◌, ◌≤◌, ◌<◌, String, ◌≡◌, ◌≢◌, refl, ap, if◌then◌else◌, Bool, true, false, Option, none,
  some, length, nat_key, string_key, arith, Option-cases, inl, inr, [], ◌∷◌, same_refl,
}
use rocket_cat_shell_linux.Base.Dict.{Dict, get, HasUniqueKeys}
use rocket_cat_shell_linux.Base.Result.{ok}
use rocket_cat_shell_linux.IdMap.{
  Namespace, room, message, thread, context, namespace_of, base, Table, Payload, table, add_source,
  maintain_message_window, after_insert, get_or_create_in, or_default, notification, Created,
  stored, get_or_create, get_surrogate, rebuild_message_window, highest, snapshot_to_dict,
  or_unchanged, WindowReport, message_reset_counter,
}
use rocket_cat_shell_linux.IdMap.Consistent.{add_source-IsConsistent}
use rocket_cat_shell_linux.IdMap.Create.{AreConsistent, set_table-AreConsistent}
use rocket_cat_shell_linux.IdMap.Maintain.{maintain-IsConsistent, length-maintain, counter-maintain}
use text.Mathlib.TextEquality.{eq_iff}

stored-other :
    (window : ℕ) (s : String) (file : Option Payload) (ns other : Namespace)
    → ns ≢ other
    → table (or_default (stored file (get_or_create_in window ns s (or_default file))).1) other
      ≡ table (or_default file) other
unfolding get_or_create_in after_insert
stored-other window s file room room ne = absurd (ne refl)
stored-other window s file message message ne = absurd (ne refl)
stored-other window s file thread thread ne = absurd (ne refl)
stored-other window s file context context ne = absurd (ne refl)
stored-other window s file _ _ ne = ground arith

-- The tables of the other namespaces are not touched, whatever the call returns.
pub get_or_create-other :
    (window : ℕ) (name s : String) (file : Option Payload) (ns other : Namespace)
    → namespace_of name ≡ ok ns
    → ns ≢ other
    → table (or_default (get_or_create window name s file).1) other ≡ table (or_default file) other
unfolding get_or_create
get_or_create-other window name s file ns other known ne =
    rw known (stored-other window s file ns other ne)

messages-stored :
    (window : ℕ) (s : String) (file : Option Payload) (r : Created) (p : Payload)
    → get (or_default file).messages.forward s ≡ none
    → stored file (get_or_create_in window message s (or_default file)) ≡ (ok r, some p)
    → p.messages
      ≡ (maintain_message_window window false false
          (add_source (base message) s (or_default file).messages)).0
unfolding get_or_create_in after_insert
messages-stored window s file r p new h = ground arith

-- A new message number brings the window to its size and the counter below its reset value.
pub get_or_create-window :
    (window : ℕ) (s : String) (file : Option Payload) (r : Created) (p : Payload)
    → 0 < window
    → AreConsistent (or_default file)
    → get_surrogate "message" s file ≡ ok none
    → get_or_create window "message" s file ≡ (ok r, some p)
    → (length p.messages.forward ≤ window)
      × ((q : String) (i : ℕ)
          → get p.messages.forward q ≡ some i
          → (base message < i) × (i < base message + window * 2))
unfolding get_or_create get_surrogate namespace_of
get_or_create-window window s file r p pos c new h =
    let absent : get (or_default file).messages.forward s ≡ none = ground arith in
    let t = add_source (base message) s (or_default file).messages in
    let c' = add_source-IsConsistent c.messages s absent in
    rw (messages-stored window s file r p absent h) (
      length-maintain c' window false false,
      λ q i there.
          let final = maintain-IsConsistent c' window false false in
          let (above, below) = final.range i q (final.to_reverse q i there) in
          (above, omega (arith, counter-maintain c' window false false pos)),
    )

highest-lt :
    (d : Dict String ℕ) (m h : ℕ)
    → HasUniqueKeys d
    → ((s : String) (i : ℕ) → get d s ≡ some i → i < m)
    → highest d ≡ some h
    → h < m
unfolding highest get
highest-lt [] m h u below e = cc
highest-lt ((s, i) ∷ d) m h u below e = elim (Option-cases (highest d)) [
  | inl absent ↦ ground (arith, below s i (rw (same_refl s)), absent)
  | inr (j, there) ↦
      let rest : j < m =
        highest-lt d m j u.1 (λ q k p. below q k (ground (arith, eq_iff s q, u.0, p))) there in
      ground (arith, below s i (rw (same_refl s)), there)
]

snapshot-maintain :
    (window : ℕ) (force : Bool) (t : Table)
    → ((or_unchanged window (maintain_message_window window force true t).1).active_mappings
        ≡ (maintain_message_window window force true t).0.forward)
      × ((or_unchanged window (maintain_message_window window force true t).1).max_entries ≡ window)
      × ((or_unchanged window (maintain_message_window window force true t).1).active_count
          ≡ length (maintain_message_window window force true t).0.forward)
unfolding maintain_message_window
snapshot-maintain window force t = ground arith

-- What a rebuild returns and gives to the callback, of the payload that it stored.
abbrev pub IsReport : ℕ → WindowReport → Option (Dict String ℕ) → Payload → Type 0
IsReport window r notified p =
    (r.active_count ≡ length p.messages.forward)
    × (r.max_entries ≡ window)
    × (r.highest_surrogate_id ≡ highest p.messages.forward)
    × ((h : ℕ) → r.highest_surrogate_id ≡ some h → h < r.reset_surrogate_id)
    × (notified ≡ (if r.changed then some p.messages.forward else none))

-- A rebuild stores a consistent payload within the window. It reports how many messages are stored,
-- the size of the window, and the greatest stored number, which is below the reset number; the
-- callback gets the stored messages if the report says that something changed, and is not called
-- otherwise.
pub rebuild-reports :
    (window : ℕ) (force : Bool) (file : Option Payload)
    → 0 < window
    → AreConsistent (or_default file)
    → (p : Payload) × ((rebuild_message_window window force file).2 ≡ some p)
      × AreConsistent p
      × (length p.messages.forward ≤ window)
      × IsReport window
          (rebuild_message_window window force file).0
          (rebuild_message_window window force file).1
          p
unfolding rebuild_message_window snapshot_to_dict message_reset_counter notification
rebuild-reports window force file pos c =
    let old = or_default file in
    let t = (maintain_message_window window force true old.messages).0 in
    let ct = maintain-IsConsistent c.messages window force true in
    let same = snapshot-maintain window force old.messages in
    (
      record old { messages = t },
      refl,
      set_table-AreConsistent c message t ct,
      length-maintain c.messages window force true,
      (
        same.2,
        same.1,
        ap highest same.0,
        (λ h e. rw same.1 (
            highest-lt t.forward _ h ct.forward_unique
              (λ q i there. omega (
                arith,
                (ct.range i q (ct.to_reverse q i there)).1,
                counter-maintain c.messages window force true pos,
              ))
              (rw (← same.0) e))),
        ground (arith, same.0),
      ),
    )
