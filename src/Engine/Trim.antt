-- ===== src/Engine/Trim.antt =====
-- A window that is trimmed: the tables stay consistent, and the messages stand in the window.
use rocket_cat_shell_linux.Base.{
  string_key, nat_key, ℕ, ◌≤◌, ◌≡◌, refl, sym, ap, ◌∙◌, String, some, List, [], ◌∷◌, ◌++◌, length,
  arith, Bool-cases, inl, inr, same_refl, ltb,
}
use rocket_cat_shell_linux.Base.Dict.{Dict, get, remove, HasUniqueKeys, remove_absent}
use rocket_cat_shell_linux.IdMap.{
  Namespace, room, message, thread, context, Table, Payload, table, set_table, base,
  normalize_message_window_size,
}
use rocket_cat_shell_linux.IdMap.Consistent.{IsConsistent, remove_pair-IsConsistent}
use rocket_cat_shell_linux.Engine.{Engine, forget_source, trim_loop}
use rocket_cat_shell_linux.Engine.Records.{Call, resizes}
use mathlib.Core.Path.{subst}

abbrev pub keys : Dict String ℕ → List String
keys [] = []
keys ((s, n) ∷ d) = s ∷ keys d

pub keys-append : (d r : Dict String ℕ) → keys (d ++ r) ≡ keys d ++ keys r
keys-append [] r = refl
keys-append (p ∷ d) r = ap (◌∷◌ p.0) (keys-append d r)

-- The order is that of the mappings.
abbrev pub IsOrdered : Payload → List String → Type 0
IsOrdered p order = keys p.messages.forward ≡ order

-- Every table is consistent, the order lists the messages with a number from the oldest on, and
-- neither they nor the places of the window are more than the bound.
pub record IsWithin (b : ℕ) (s : Engine) : Type 0 where
  pub consistent : (ns : Namespace) → IsConsistent (base ns) (table s.tables ns)
  pub ordered : IsOrdered s.tables s.message_order
  pub within : length s.message_order ≤ b
  pub limited : s.message_window_size ≤ b

-- There are at most as many messages as the window has places.
abbrev pub IsValid : Engine → Type 0
IsValid s = IsWithin s.message_window_size s

-- A call that sets the size, to none beyond the bound.
abbrev pub IsAtMost : ℕ → Call → Type 0
IsAtMost b (resizes n) = normalize_message_window_size n ≤ b
IsAtMost b _ = Unit

abbrev pub AreConsistent : Payload → Type 0
AreConsistent p = (ns : Namespace) → IsConsistent (base ns) (table p ns)

pub set_table-AreConsistent :
    (p : Payload) (ns : Namespace) (t : Table)
    → AreConsistent p
    → IsConsistent (base ns) t
    → AreConsistent (set_table p ns t)
set_table-AreConsistent p room t c h room = h
set_table-AreConsistent p room t c h message = c message
set_table-AreConsistent p room t c h thread = c thread
set_table-AreConsistent p room t c h context = c context
set_table-AreConsistent p message t c h room = c room
set_table-AreConsistent p message t c h message = h
set_table-AreConsistent p message t c h thread = c thread
set_table-AreConsistent p message t c h context = c context
set_table-AreConsistent p thread t c h room = c room
set_table-AreConsistent p thread t c h message = c message
set_table-AreConsistent p thread t c h thread = h
set_table-AreConsistent p thread t c h context = c context
set_table-AreConsistent p context t c h room = c room
set_table-AreConsistent p context t c h message = c message
set_table-AreConsistent p context t c h thread = c thread
set_table-AreConsistent p context t c h context = h

module _ (strip : String → String) (decimal : ℕ → String) where
  forgotten :
      (source : String) (n : ℕ) (d : Dict String ℕ) (s : Engine)
      → IsConsistent (base message) s.tables.messages
      → s.tables.messages.forward ≡ (source, n) ∷ d
      → (get s.tables.messages.forward source ≡ some n)
        × (keys (remove s.tables.messages.forward source) ≡ keys d)
  unfolding get remove
  forgotten source n d s c e =
      let u : HasUniqueKeys ((source, n) ∷ d) =
        subst (λ (f : Dict String ℕ). HasUniqueKeys f) e c.forward_unique in
      (
        ap (λ (f : Dict String ℕ). get f source) e ∙ rw (same_refl source) refl,
        ap (λ (f : Dict String ℕ). keys (remove f source)) e
            ∙ rw (same_refl source) (ap keys (remove_absent d source u.0)),
      )

  abbrev forgotten_table : String → ℕ → Table → Table
  forgotten_table source n t = record t {
    forward = remove t.forward source;
    reverse = remove t.reverse n;
  }

  forget-tables :
      (source : String) (n : ℕ) (s : Engine)
      → get s.tables.messages.forward source ≡ some n
      → (forget_source strip decimal source s).tables
        ≡ set_table s.tables message (forgotten_table source n s.tables.messages)
  unfolding forget_source
  forget-tables source n s h = ground (arith, h)

  forget-same :
      (source : String) (s : Engine)
      → (forget_source strip decimal source s).message_window_size ≡ s.message_window_size
  unfolding forget_source
  forget-same source s = refl

  -- The oldest of the mappings.
  first_of :
      (f : Dict String ℕ) (source : String) (l : List String)
      → keys f ≡ source ∷ l
      → (n : ℕ) × (d : Dict String ℕ) × (f ≡ (source, n) ∷ d) × (keys d ≡ l)
  first_of [] source l h = cc
  first_of ((s, n) ∷ d) source l h = (n, d, ground (arith, h), ground (arith, h))

  pub trim_loop-IsWithin :
      (b : ℕ) (l : List String) (s : Engine)
      → AreConsistent s.tables
      → keys s.tables.messages.forward ≡ l
      → s.message_window_size ≤ b
      → IsWithin b (trim_loop strip decimal s.message_window_size l s)
  unfolding trim_loop
  trim_loop-IsWithin b [] s c h small = record {
    consistent = c;
    ordered = h;
    within = omega arith;
    limited = small;
  }
  trim_loop-IsWithin b (source ∷ l) s c h small =
      elim (Bool-cases (ltb s.message_window_size (length (source ∷ l)))) [
        | inr fits ↦
            simp (trim_loop, fits)
              (record {
                consistent = c;
                ordered = h;
                within = ground (arith, fits, small);
                limited = small;
              })
        | inl over ↦
            let (n, d, e, k) = first_of s.tables.messages.forward source l h in
            let (known, rest) = forgotten source n d s (c message) e in
            let t : Engine = forget_source strip decimal source s in
            let tables = forget-tables source n s known in
            simp (trim_loop, over)
              (trim_loop-IsWithin b l t
                (subst AreConsistent (sym tables) (
                  set_table-AreConsistent s.tables message
                    (forgotten_table source n s.tables.messages) c
                    (remove_pair-IsConsistent (c message) n source
                      ((c message).to_reverse source n known))))
                (ap (λ (p : Payload). keys p.messages.forward) tables ∙ rest ∙ k) small)
      ]

  -- The trim leaves the window's size alone, and a window that is not exceeded leaves all.
  pub trim_loop-window :
      (n : ℕ) (l : List String) (s : Engine)
      → (trim_loop strip decimal n l s).message_window_size ≡ s.message_window_size
  unfolding trim_loop
  trim_loop-window n [] s = refl
  trim_loop-window n (source ∷ l) s = elim (Bool-cases (ltb n (length (source ∷ l)))) [
    | inr fits ↦ simp (trim_loop, fits) refl
    | inl over ↦
        simp (trim_loop, over) (trim_loop-window n l (forget_source strip decimal source s))
  ]

  pub trim_loop-fits :
      (l : List String) (s : Engine)
      → s.message_order ≡ l
      → length l ≤ s.message_window_size
      → trim_loop strip decimal s.message_window_size l s ≡ s
  unfolding trim_loop
  trim_loop-fits [] s e small = ap (λ (o : List String). record s { message_order = o }) (sym e)
  trim_loop-fits (source ∷ l) s e small =
      elim (Bool-cases (ltb s.message_window_size (length (source ∷ l)))) [
        | inr fits ↦
            simp (trim_loop, fits)
              (ap (λ (o : List String). record s { message_order = o }) (sym e))
        | inl over ↦ absurd (ground (arith, over, small))
      ]

  pub length-trim_loop :
      (n : ℕ) (l : List String) (s : Engine)
      → length (trim_loop strip decimal n l s).message_order ≤ n
  unfolding trim_loop
  length-trim_loop n [] s = omega arith
  length-trim_loop n (source ∷ l) s = elim (Bool-cases (ltb n (length (source ∷ l)))) [
    | inr fits ↦ simp (trim_loop, fits) (ground (arith, fits))
    | inl over ↦
        simp (trim_loop, over) (length-trim_loop n l (forget_source strip decimal source s))
  ]
