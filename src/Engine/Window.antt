-- ===== src/Engine/Window.antt =====
-- Every call keeps the engine's numbers within a bound.
use rocket_cat_shell_linux.Base.{
  string_key, nat_key, ℕ, ◌+◌, ◌≡◌, refl, sym, ap, ◌∙◌, String, Option, none, All, List, [], ◌∷◌,
  ◌++◌, length, arith, Option-cases, Bool-cases, inl, inr,
}
use rocket_cat_shell_linux.Base.Dict.{get, put-append}
use rocket_cat_shell_linux.IdMap.{
  Namespace, room, message, thread, context, Payload, table, set_table, base, add_source,
  empty_payload,
}
use rocket_cat_shell_linux.IdMap.Consistent.{
  IsConsistent, empty_table-IsConsistent, add_source-IsConsistent,
}
use rocket_cat_shell_linux.Engine.{
  Engine, new_engine, trim_message_window, insert_mapping, create_mapping, allocate_mapping_locked,
  put_message_without_record, bind_private_room_without_record, bind_context_room_without_record,
  apply_message_rebuild,
}
use rocket_cat_shell_linux.Engine.Records.{
  Call, allocates, puts, binds_private, binds_context, rebuilds, rebuilds_window, resizes, purges,
  replaces_private, rebuild_message_window, execute, execute_all,
}
use rocket_cat_shell_linux.Base.Int.{ℤ}
use rocket_cat_shell_linux.Engine.Control.{
  set_message_window_size, purge_legacy_user_dependent_state,
  replace_private_room_surrogate_bindings,
}
use rocket_cat_shell_linux.Storage.{ContextEntry, is_stale}
use mathlib.Core.Path.{subst}
use rocket_cat_shell_linux.Engine.Trim.{
  keys, keys-append, IsWithin, IsValid, IsAtMost, AreConsistent, set_table-AreConsistent,
  trim_loop-IsWithin, trim_loop-window,
}

-- A call that does not set the window's size.
abbrev pub KeepsSize : Call → Type 0
KeepsSize (resizes n) = ⊥
KeepsSize _ = Unit

module _ (strip : String → String) (decimal : ℕ → String) where
  added-IsConsistent :
      (b : ℕ) (ns : Namespace) (source : String) (s : Engine)
      → IsWithin b s
      → get (table s.tables ns).forward source ≡ none
      → AreConsistent (set_table s.tables ns (add_source (base ns) source (table s.tables ns)))
  added-IsConsistent b ns source s v new =
      set_table-AreConsistent s.tables ns (add_source (base ns) source (table s.tables ns))
        v.consistent (add_source-IsConsistent (v.consistent ns) source new)

  create_mapping-IsWithin :
      (b : ℕ) (ns : Namespace) (source : String) (s : Engine)
      → IsWithin b s
      → get (table s.tables ns).forward source ≡ none
      → IsWithin b (create_mapping strip decimal ns source s)
  unfolding create_mapping insert_mapping add_source trim_message_window
  create_mapping-IsWithin b message source s v new =
      let f = s.tables.messages.forward in
      let n : ℕ = base message + (s.tables.messages.counter + 1) in
      trim_loop-IsWithin strip decimal b (s.message_order ++ (source ∷ []))
        (record s {
          tables = set_table s.tables message (add_source (base message) source s.tables.messages);
          message_order = s.message_order ++ (source ∷ []);
        })
        (added-IsConsistent b message source s v new)
        (ap keys (put-append f source n new)
          ∙ keys-append f ((source, n) ∷ [])
          ∙ ap (λ (l : List String). l ++ (source ∷ [])) v.ordered)
        v.limited
  create_mapping-IsWithin b room source s v new = record {
    consistent = added-IsConsistent b room source s v new;
    ordered = v.ordered;
    within = v.within;
    limited = v.limited;
  }
  create_mapping-IsWithin b thread source s v new = record {
    consistent = added-IsConsistent b thread source s v new;
    ordered = v.ordered;
    within = v.within;
    limited = v.limited;
  }
  create_mapping-IsWithin b context source s v new = record {
    consistent = added-IsConsistent b context source s v new;
    ordered = v.ordered;
    within = v.within;
    limited = v.limited;
  }

  allocate-IsWithin :
      (b : ℕ) (ns : Namespace) (source : String) (s : Engine)
      → IsWithin b s
      → IsWithin b (allocate_mapping_locked strip decimal ns source s).1
  unfolding allocate_mapping_locked
  allocate-IsWithin b ns source s v = elim (Option-cases (get (table s.tables ns).forward source)) [
    | inl new ↦ simp (allocate_mapping_locked, new) (create_mapping-IsWithin b ns source s v new)
    | inr (n, known) ↦ simp (allocate_mapping_locked, known) v
  ]

  bind_context-IsWithin :
      (b : ℕ) (e : ContextEntry) (s : Engine)
      → IsWithin b s
      → IsWithin b (bind_context_room_without_record strip decimal e s).1
  unfolding bind_context_room_without_record
  bind_context-IsWithin b e s v =
      elim (Bool-cases
        (is_stale (get s.context_rooms.by_context_source e.context_source_id) e.timestamp)) [
          | inl stale ↦ simp (bind_context_room_without_record, stale) v
          | inr fresh ↦
              simp (bind_context_room_without_record, fresh)
                (record {
                  consistent = v.consistent;
                  ordered = v.ordered;
                  within = v.within;
                  limited = v.limited;
                })
        ]

  rebuild-IsWithin :
      (b : ℕ) (s : Engine) → IsWithin b s → IsWithin b (rebuild_message_window strip decimal s).1
  unfolding rebuild_message_window trim_message_window
  rebuild-IsWithin b s v =
      trim_loop-IsWithin strip decimal b s.message_order s v.consistent v.ordered v.limited

  -- A call that changes neither the tables, nor the order, nor the size.
  kept :
      {b : ℕ} (s t : Engine)
      → IsWithin b s
      → (t.tables ≡ s.tables)
        × (t.message_order ≡ s.message_order)
        × (t.message_window_size ≡ s.message_window_size)
      → IsWithin b t
  kept s t v (p, q, r) = record {
    consistent = subst AreConsistent (sym p) v.consistent;
    ordered = ap (λ (u : Payload). keys u.messages.forward) p ∙ v.ordered ∙ sym q;
    within = omega (arith, v.within, ap (λ (l : List String). length l) q);
    limited = omega (arith, v.limited, r);
  }

  pub execute-IsWithin :
      (b : ℕ) (c : Call) (s : Engine)
      → IsWithin b s
      → IsAtMost b c
      → IsWithin b (execute strip decimal c s).1
  unfolding execute put_message_without_record bind_private_room_without_record
      apply_message_rebuild rebuild_message_window set_message_window_size
      purge_legacy_user_dependent_state replace_private_room_surrogate_bindings
  execute-IsWithin b (allocates ns source) s v h = allocate-IsWithin b ns source s v
  execute-IsWithin b (puts e) s v h = kept s _ v (refl, refl, refl)
  execute-IsWithin b (binds_private user n r) s v h = kept s _ v (refl, refl, refl)
  execute-IsWithin b (binds_context e) s v h = bind_context-IsWithin b e s v
  execute-IsWithin b (rebuilds active) s v h = kept s _ v (refl, refl, refl)
  execute-IsWithin b rebuilds_window s v h = rebuild-IsWithin b s v
  execute-IsWithin b (resizes n) s v h = record {
    consistent = v.consistent;
    ordered = v.ordered;
    within = v.within;
    limited = h;
  }
  execute-IsWithin b purges s v h = kept s _ v (refl, refl, refl)
  execute-IsWithin b (replaces_private bindings) s v h = kept s _ v (refl, refl, refl)

  create_mapping-window :
      (ns : Namespace) (source : String) (s : Engine)
      → (create_mapping strip decimal ns source s).message_window_size ≡ s.message_window_size
  unfolding create_mapping insert_mapping trim_message_window
  create_mapping-window message source s =
      trim_loop-window strip decimal s.message_window_size (s.message_order ++ (source ∷ [])) _
  create_mapping-window room source s = refl
  create_mapping-window thread source s = refl
  create_mapping-window context source s = refl

  execute-window :
      (c : Call) (s : Engine)
      → KeepsSize c
      → (execute strip decimal c s).1.message_window_size ≡ s.message_window_size
  unfolding execute allocate_mapping_locked put_message_without_record
      bind_private_room_without_record bind_context_room_without_record apply_message_rebuild
      rebuild_message_window trim_message_window purge_legacy_user_dependent_state
      replace_private_room_surrogate_bindings
  execute-window (allocates ns source) s h = ground (arith, create_mapping-window ns source s)
  execute-window (puts e) s h = refl
  execute-window (binds_private user n r) s h = refl
  execute-window (binds_context e) s h = ground arith
  execute-window (rebuilds active) s h = refl
  execute-window rebuilds_window s h =
      trim_loop-window strip decimal s.message_window_size s.message_order s
  execute-window (resizes n) s h = absurd h
  execute-window purges s h = refl
  execute-window (replaces_private bindings) s h = refl

  -- A call that does not set the size keeps the state valid for its own.
  pub execute-IsValid :
      (c : Call) (s : Engine) → KeepsSize c → IsValid s → IsValid (execute strip decimal c s).1
  execute-IsValid c s h v =
      subst (λ (b : ℕ). IsWithin b (execute strip decimal c s).1) (sym (execute-window c s h))
        (execute-IsWithin s.message_window_size c s v (below c h))
    where
      below : (q : Call) → KeepsSize q → IsAtMost s.message_window_size q
      below (allocates ns source) k = tt
      below (puts e) k = tt
      below (binds_private user n r) k = tt
      below (binds_context e) k = tt
      below (rebuilds active) k = tt
      below rebuilds_window k = tt
      below (resizes n) k = absurd k
      below purges k = tt
      below (replaces_private bindings) k = tt

  -- Whatever is called, in a state that is within a bound, when no call sets the window to a size
  -- above the bound: the numbers and the sources of every namespace lead to each other, the order
  -- lists the messages that have a number from the oldest on, and these and the window's size are
  -- within the bound.
  pub execute_all-IsWithin :
      (b : ℕ) (l : List Call) (s : Engine)
      → IsWithin b s
      → All (IsAtMost b) l
      → IsWithin b (execute_all strip decimal l s).1
  unfolding execute_all
  execute_all-IsWithin b [] s v h = v
  execute_all-IsWithin b (c ∷ l) s v h =
      execute_all-IsWithin b l (execute strip decimal c s).1 (execute-IsWithin b c s v h.0) h.1

pub new_engine-IsValid : (window : Option ℤ) → IsValid (new_engine window)
unfolding new_engine
new_engine-IsValid window = record {
  consistent = empty;
  ordered = refl;
  within = omega arith;
  limited = omega arith;
}
  where
    empty : (ns : Namespace) → IsConsistent (base ns) (table empty_payload ns)
    empty room = empty_table-IsConsistent (base room)
    empty message = empty_table-IsConsistent (base message)
    empty thread = empty_table-IsConsistent (base thread)
    empty context = empty_table-IsConsistent (base context)
