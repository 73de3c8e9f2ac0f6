-- ===== src/Engine/Written.antt =====
-- What one call writes, replayed in the state before it.
use rocket_cat_shell_linux.Base.{
  string_key, ℕ, ◌+◌, ◌≡◌, refl, ap, sym, ◌∙◌, String, Bool, true, false, ◌||◌, none, some, List,
  [], ◌∷◌, arith, Option-cases, Bool-cases, inl, inr, ◌==◌,
}
use rocket_cat_shell_linux.Base.Dict.{get}
use rocket_cat_shell_linux.Base.Result.{ok}
use rocket_cat_shell_linux.IdMap.{
  Namespace, room, message, thread, context, table, base, namespace_of,
}
use rocket_cat_shell_linux.Storage.{ContextEntry, is_set, is_stale}
use rocket_cat_shell_linux.Engine.{
  Engine, create_mapping, allocate_mapping_locked, bind_context_room_without_record,
  put_message_without_record, bind_private_room_without_record,
}
use rocket_cat_shell_linux.Engine.Records.{
  Record, records, id_put, context_bind, name_of, is_legacy_user, mark_legacy, legacy_sender,
  apply_id_put, apply_record, apply_records, Call, allocates, puts, binds_private, binds_context,
  rebuilds, rebuilds_window, resizes, purges, replaces_private, execute,
}

-- A call that may be made through a batch, that names a source, and no user of the numbering that was
-- given up.
abbrev pub IsCurrent : Call → Type 0
IsCurrent (allocates ns source) = is_set source ≡ true
IsCurrent (puts e) = legacy_sender e.sender_surrogate_id ≡ false
IsCurrent (binds_private user n r) = is_legacy_user n ≡ false
IsCurrent (binds_context e) = Unit
IsCurrent (rebuilds active) = Unit
IsCurrent rebuilds_window = ⊥
IsCurrent (resizes n) = ⊥
IsCurrent purges = ⊥
IsCurrent (replaces_private bindings) = ⊥

mark_legacy-false : (s : Engine) → mark_legacy false s ≡ s
mark_legacy-false s = ap (λ (b : Bool). record s { legacy_user_state_detected = b }) (or_false _)
  where
    or_false : (b : Bool) → (b || false) ≡ b
    or_false true = refl
    or_false false = refl

namespace_of-name_of : (ns : Namespace) → namespace_of (name_of ns) ≡ ok ns
unfolding namespace_of
namespace_of-name_of room = refl
namespace_of-name_of message = refl
namespace_of-name_of thread = refl
namespace_of-name_of context = refl

not_user : (ns : Namespace) → (name_of ns == "user") ≡ false
not_user room = refl
not_user message = refl
not_user thread = refl
not_user context = refl

module _ (strip : String → String) (decimal : ℕ → String) where
  apply-create :
      (ns : Namespace) (source : String) (s : Engine)
      → is_set source ≡ true
      → get (table s.tables ns).forward source ≡ none
      → apply_id_put strip decimal
          (name_of ns)
          source
          (base ns + ((table s.tables ns).counter + 1))
          s
        ≡ create_mapping strip decimal ns source s
  unfolding apply_id_put create_mapping
  apply-create ns source s set new = ground (arith, namespace_of-name_of ns, not_user ns, set, new)

  execute-new :
      (ns : Namespace) (source : String) (s : Engine)
      → get (table s.tables ns).forward source ≡ none
      → execute strip decimal (allocates ns source) s ≡ (
        id_put (name_of ns) source (base ns + ((table s.tables ns).counter + 1)) ∷ [],
        create_mapping strip decimal ns source s,
      )
  unfolding execute allocate_mapping_locked
  execute-new ns source s new = ground (arith, new)

  execute-known :
      (ns : Namespace) (source : String) (n : ℕ) (s : Engine)
      → get (table s.tables ns).forward source ≡ some n
      → execute strip decimal (allocates ns source) s ≡ ([], s)
  unfolding execute allocate_mapping_locked
  execute-known ns source n s known = ground (arith, known)

  execute-stale :
      (e : ContextEntry) (s : Engine)
      → is_stale (get s.context_rooms.by_context_source e.context_source_id) e.timestamp ≡ true
      → execute strip decimal (binds_context e) s ≡ ([], s)
  unfolding execute bind_context_room_without_record
  execute-stale e s stale = ground (arith, stale)

  execute-fresh :
      (e : ContextEntry) (s : Engine)
      → is_stale (get s.context_rooms.by_context_source e.context_source_id) e.timestamp ≡ false
      → execute strip decimal (binds_context e) s
        ≡ (context_bind e ∷ [], (bind_context_room_without_record strip decimal e s).1)
  unfolding execute bind_context_room_without_record
  execute-fresh e s fresh = ground (arith, fresh)

  pub replayed :
      (c : Call) (s : Engine) {t : Engine} {l : List Record}
      → execute strip decimal c s ≡ (l, t)
      → apply_records strip decimal (records l) s ≡ t
      → apply_records strip decimal (records (execute strip decimal c s).0) s
        ≡ (execute strip decimal c s).1
  replayed c s p q =
      ap (λ (r : List Record × Engine). apply_records strip decimal (records r.0) s) p
      ∙ q
      ∙ sym (ap (λ (r : List Record × Engine). r.1) p)

  -- What a call has written, replayed in the state before it, gives the state after it.
  pub replay-execute :
      (c : Call) (s : Engine)
      → IsCurrent c
      → apply_records strip decimal (records (execute strip decimal c s).0) s
        ≡ (execute strip decimal c s).1
  unfolding execute apply_record
  replay-execute (allocates ns source) s h =
      elim (Option-cases (get (table s.tables ns).forward source)) [
        | inl new ↦
            replayed (allocates ns source) s (execute-new ns source s new)
              (apply-create ns source s h new)
        | inr (n, known) ↦ replayed (allocates ns source) s (execute-known ns source n s known) refl
      ]
  replay-execute (puts e) s h =
      ap (put_message_without_record strip decimal e)
        (ap (λ (b : Bool). mark_legacy b s) h ∙ mark_legacy-false s)
  replay-execute (binds_private user n r) s h =
      ap (bind_private_room_without_record strip decimal user n r)
        (ap (λ (b : Bool). mark_legacy b s) h ∙ mark_legacy-false s)
  replay-execute (binds_context e) s h =
      elim (Bool-cases
        (is_stale (get s.context_rooms.by_context_source e.context_source_id) e.timestamp)) [
          | inl stale ↦ replayed (binds_context e) s (execute-stale e s stale) refl
          | inr fresh ↦ replayed (binds_context e) s (execute-fresh e s fresh) refl
        ]
  replay-execute (rebuilds active) s h = refl
  replay-execute rebuilds_window s h = absurd h
  replay-execute (resizes n) s h = absurd h
  replay-execute purges s h = absurd h
  replay-execute (replaces_private bindings) s h = absurd h
