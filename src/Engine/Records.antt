-- ===== src/Engine/Records.antt =====
-- The records of the journal: what a call writes, and what `_apply_record` makes of them.
use rocket_cat_shell_linux.Base.{
  ℕ, ◌-◌, String, Bool, true, false, ◌&&◌, ◌||◌, max, Option, none, some, List, [], ◌∷◌, ◌++◌, ltb,
  leb, length, if◌then◌else◌, ◌==◌, string_key, nat_key,
}
use rocket_cat_shell_linux.Base.Dict.{Dict, get}
use rocket_cat_shell_linux.Base.Result.{ok, raise}
use rocket_cat_shell_linux.IdMap.{
  Namespace, room, message, thread, context, table, base, namespace_of, MessageWindowSnapshot,
}
use rocket_cat_shell_linux.Base.Int.{ℤ}
use rocket_cat_shell_linux.Engine.Control.{
  set_message_window_size, purge_legacy_user_dependent_state,
  replace_private_room_surrogate_bindings,
}
use rocket_cat_shell_linux.Storage.{MessageEntry, ContextEntry, is_set}
use rocket_cat_shell_linux.Engine.{
  Engine, insert_mapping, trim_message_window, allocate_mapping_locked, put_message_without_record,
  bind_private_room_without_record, bind_context_room_without_record, apply_message_rebuild,
}

mutual
  -- A record; an unknown `op` is `other_record`.
  pub data Record : Type 0 where
    batch : Records → Record
    id_put : String → String → ℕ → Record
    message_put : MessageEntry → Record
    private_bind : String → ℕ → String → Record
    context_bind : ContextEntry → Record
    message_rebuild : Dict String ℕ → Record
    other_record : Record

  pub data Records : Type 0 where
    end : Records
    next : Record → Records → Records

abbrev pub records : List Record → Records
records [] = end
records (r ∷ l) = next r (records l)

-- The text of a namespace, a key of `_BASES`.
abbrev pub name_of : Namespace → String
name_of room = "room"
name_of message = "message"
name_of thread = "thread"
name_of context = "context"

-- `1_000_000_000 <= n < 2_000_000_000`: the numbers that users had once
abbrev pub is_legacy_user : ℕ → Bool
is_legacy_user n = leb 1000000000 n && ltb n 2000000000

abbrev pub mark_legacy : Bool → Engine → Engine
mark_legacy b s = record s { legacy_user_state_detected = s.legacy_user_state_detected || b }

abbrev pub legacy_sender : Option ℕ → Bool
legacy_sender none = false
legacy_sender (some n) = is_legacy_user n

-- A call that changes the state; the last three write no record.
pub data Call : Type 0 where
  allocates : Namespace → String → Call
  puts : MessageEntry → Call
  binds_private : String → ℕ → String → Call
  binds_context : ContextEntry → Call
  rebuilds : Dict String ℕ → Call
  rebuilds_window : Call
  resizes : Option ℤ → Call
  purges : Call
  replaces_private : Dict ℕ String → Call

module _ (strip : String → String) (decimal : ℕ → String) where
  -- `_apply_id_put` with `persist=False`
  unfoldable pub apply_id_put : String → String → ℕ → Engine → Engine
  unfolding insert_mapping
  apply_id_put name source n s =
      if name == "user" then mark_legacy true s else elim (namespace_of name) [
        | raise e ↦ s
        | ok ns ↦
            if is_set source && ltb 0 n
            then elim (get (table s.tables ns).forward source) [
              | some m ↦ s
              | none ↦
                  insert_mapping strip decimal ns source n
                    (max (table s.tables ns).counter (n - base ns)) s
            ]
            else s
      ]

  unfoldable mutual
    unfolding apply_id_put

    -- `_apply_record` with `persist=False`, as the replay of the journal calls it.
    pub apply_record : Record → Engine → Engine
    apply_record (batch l) s = apply_records l s
    apply_record (id_put name source n) s = apply_id_put name source n s
    apply_record (message_put e) s =
        put_message_without_record strip decimal e
          (mark_legacy (legacy_sender e.sender_surrogate_id) s)
    apply_record (private_bind user n room_id) s =
        bind_private_room_without_record strip decimal user n room_id
          (mark_legacy (is_legacy_user n) s)
    apply_record (context_bind e) s = (bind_context_room_without_record strip decimal e s).1
    apply_record (message_rebuild active) s = apply_message_rebuild strip decimal active s
    apply_record other_record s = s

    pub apply_records : Records → Engine → Engine
    apply_records end s = s
    apply_records (next r l) s = apply_records l (apply_record r s)

  abbrev pub allocate_mapping : Namespace → String → Engine → List Record × Engine
  allocate_mapping ns source s =
      let r = allocate_mapping_locked strip decimal ns source s in
      (if r.0.1 then id_put (name_of ns) source r.0.0 ∷ [] else [], r.1)

  abbrev pub put_message : MessageEntry → Engine → List Record × Engine
  put_message e s = (message_put e ∷ [], put_message_without_record strip decimal e s)

  abbrev pub bind_private_room : String → ℕ → String → Engine → List Record × Engine
  bind_private_room user n room_id s = (
    private_bind user n room_id ∷ [],
    bind_private_room_without_record strip decimal user n room_id s,
  )

  abbrev pub bind_context_room : ContextEntry → Engine → List Record × Engine
  bind_context_room e s =
      let r = bind_context_room_without_record strip decimal e s in
      (if r.0 then context_bind e ∷ [] else [], r.1)

  abbrev pub rebuild_messages_for_active_mappings : Dict String ℕ → Engine → List Record × Engine
  rebuild_messages_for_active_mappings active s =
      (message_rebuild active ∷ [], apply_message_rebuild strip decimal active s)

  -- The snapshot, the record for the writer if anything went, and the state. The parameter
  -- `force_compact` has no effect here.
  unfoldable pub rebuild_message_window : Engine → (MessageWindowSnapshot × List Record) × Engine
  unfolding trim_message_window
  rebuild_message_window s =
      let trimmed = trim_message_window strip decimal s in
      let removed = length s.message_order - length trimmed.message_order in
      let active = trimmed.tables.messages.forward in
      let snapshot : MessageWindowSnapshot = record {
        active_mappings = active;
        changed = ltb 0 removed;
        removed_count = removed;
        compacted = false;
        active_count = length active;
        max_entries = s.message_window_size;
      } in
      ((snapshot, (if ltb 0 removed then message_rebuild active ∷ [] else [])), trimmed)

  -- The record that a call gives to the writer, if any, and the state after it. The state is changed
  -- under the lock and the record given after it; here no other call comes in between.
  unfoldable pub execute : Call → Engine → List Record × Engine
  unfolding rebuild_message_window set_message_window_size purge_legacy_user_dependent_state
      replace_private_room_surrogate_bindings
  execute (allocates ns source) s = allocate_mapping ns source s
  execute (puts e) s = put_message e s
  execute (binds_private user n room_id) s = bind_private_room user n room_id s
  execute (binds_context e) s = bind_context_room e s
  execute (rebuilds active) s = rebuild_messages_for_active_mappings active s
  execute rebuilds_window s = let r = rebuild_message_window s in (r.0.1, r.1)
  execute (resizes n) s = ([], set_message_window_size n s)
  execute purges s = ([], purge_legacy_user_dependent_state s)
  execute (replaces_private bindings) s = ([], replace_private_room_surrogate_bindings bindings s)

  -- The calls in order: all records, and the last state.
  unfoldable pub execute_all : List Call → Engine → List Record × Engine
  unfolding execute
  execute_all [] s = ([], s)
  execute_all (c ∷ l) s =
      let first = execute c s in let rest = execute_all l first.1 in (first.0 ++ rest.0, rest.1)
