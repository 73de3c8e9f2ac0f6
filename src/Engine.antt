-- ===== src/Engine.antt =====
-- rocketcat_shell/bridge/hot_storage.py: `RuntimeStateEngine`, the state in memory. What a method
-- changes it changes under the lock, at once; it gives its record to the writer after it has released
-- the lock, and here before the next call. A deep copy of an entry is that entry.
mod Control
mod Records
mod Trim
mod Window
mod Queries
mod Batch
mod Written
mod Replay
mod Recover
mod Tests
use rocket_cat_shell_linux.Base.{
  ℕ, suc, ◌+◌, ◌-◌, String, Bool, true, false, ◌&&◌, ◌||◌, not, max, Option, none, some, List, [],
  ◌∷◌, ◌++◌, ltb, leb, if◌then◌else◌, length, ◌==◌, nat_key, string_key, pair_key,
}
use rocket_cat_shell_linux.Base.Dict.{Dict, get, put, remove}
use rocket_cat_shell_linux.Base.Sort.{sort_items}
use rocket_cat_shell_linux.IdMap.{
  Namespace, message, Table, Payload, table, set_table, empty_payload, base,
  normalize_message_window_size,
}
use rocket_cat_shell_linux.Base.Int.{ℤ}
use rocket_cat_shell_linux.Storage.{
  MessageEntry, Fragment, ContextEntry, PrivatePayload, ContextPayload, bind_private, is_set,
  is_stale, by_number, rewrite_entry_surrogate,
}

abbrev pub Pair : Type 0
Pair = String × String

-- The messages, under their sources and numbers, and the order in which a sender's came in a context.
pub record Messages : Type 0 where
  pub by_source : Dict String MessageEntry
  pub by_surrogate : Dict ℕ MessageEntry
  pub latest : Dict Pair Fragment
  pub order : Dict Pair (List String)

pub record Engine : Type 0 where
  pub message_window_size : ℕ
  pub tables : Payload
  pub message_order : List String
  pub messages : Messages
  pub private_rooms : PrivatePayload
  pub context_rooms : ContextPayload
  pub legacy_user_state_detected : Bool

abbrev pub no_messages : Messages
no_messages = record { by_source = []; by_surrogate = []; latest = []; order = [] }

-- The size is any number, or no number.
pub new_engine : Option ℤ → Engine
unfolding normalize_message_window_size
new_engine window = record {
  message_window_size = normalize_message_window_size window;
  tables = empty_payload;
  message_order = [];
  messages = no_messages;
  private_rooms = record { by_user_source = []; by_user_surrogate = [] };
  context_rooms = record { by_context_source = []; by_context_surrogate = [] };
  legacy_user_state_detected = false;
}

-- `deque.remove`, which does nothing here if the item is not there
pub remove_first : String → List String → List String
remove_first s [] = []
remove_first s (t ∷ l) = let rest = remove_first s l in if t == s then l else t ∷ rest

abbrev pub last : List String → Option String
last [] = none
last (s ∷ []) = some s
last (s ∷ t ∷ l) = last (t ∷ l)

-- The loop of `_refresh_latest_for_pair_locked`: sources without an entry are popped at the end.
pub drop_dead : Dict String MessageEntry → List String → List String
drop_dead entries [] = []
drop_dead entries (s ∷ l) =
    let rest = drop_dead entries l in
    elim rest [ [] ↦ elim (get entries s) [ none ↦ [] | some e ↦ s ∷ [] ] | t ∷ r ↦ s ∷ t ∷ r ]

module _ (strip : String → String) (decimal : ℕ → String) where
  pub build_latest_fragment : MessageEntry → Fragment
  build_latest_fragment e = record {
    source_id = strip e.source_id;
    room_source_id = strip e.room_source_id;
    thread_source_id = strip e.thread_source_id;
    timestamp = e.timestamp;
  }

  pub message_context_pair : MessageEntry → Option Pair
  message_context_pair e =
      let context = strip e.context_source_id in
      let sender = strip e.sender_source_id in
      if is_set context
        && is_set sender
        && is_set (strip e.room_source_id)
        && is_set (strip e.source_id)
      then some (context, sender)
      else none

  abbrev pub or_nil : Option (List String) → List String
  or_nil none = []
  or_nil (some l) = l

  pub index_latest_context_sender : MessageEntry → Messages → Messages
  unfolding build_latest_fragment message_context_pair remove_first
  index_latest_context_sender e m = elim (message_context_pair e) [
    | none ↦ m
    | some pair ↦
        let source = strip e.source_id in
        let order = or_nil (get m.order pair) in
        record m {
          order = put m.order pair (remove_first source order ++ (source ∷ []));
          latest = put m.latest pair (build_latest_fragment e);
        }
  ]

  -- `_refresh_latest_for_pair_locked`, of a pair that has an order
  pub refresh_latest_for_pair : Pair → List String → Messages → Messages
  unfolding drop_dead build_latest_fragment
  refresh_latest_for_pair pair order m =
      let alive = drop_dead m.by_source order in
      let gone : Messages = record m {
        order = remove m.order pair;
        latest = remove m.latest pair;
      } in
      elim (last alive) [
        | none ↦ gone
        | some s ↦ elim (get m.by_source s) [
          | none ↦ gone
          | some e ↦ record m {
            order = put m.order pair alive;
            latest = put m.latest pair (build_latest_fragment e);
          }
        ]
      ]

  abbrev pub remove_surrogate : Option ℕ → Dict ℕ MessageEntry → Dict ℕ MessageEntry
  remove_surrogate none d = d
  remove_surrogate (some n) d = remove d n

  abbrev pub refresh_pair : Option Pair → String → Messages → Messages
  refresh_pair none s m = m
  refresh_pair (some pair) s m = elim (get m.order pair) [
    | none ↦ m
    | some order ↦ refresh_latest_for_pair pair (remove_first s order) m
  ]

  -- `_remove_message_entry_locked`, which is called with `remove_order=False` only
  pub remove_message_entry : String → Messages → Messages
  unfolding refresh_latest_for_pair
  remove_message_entry s m = elim (get m.by_source s) [
    | none ↦ m
    | some e ↦ refresh_pair (message_context_pair e) s (record m {
      by_source = remove m.by_source s;
      by_surrogate = remove_surrogate e.surrogate_id m.by_surrogate;
    })
  ]

  abbrev pub put_surrogate : Option ℕ → MessageEntry → Dict ℕ MessageEntry → Dict ℕ MessageEntry
  put_surrogate none e d = d
  put_surrogate (some n) e d = put d n e

  -- `_put_normalized_message_without_record`
  pub put_entry : MessageEntry → Messages → Messages
  unfolding remove_message_entry index_latest_context_sender
  put_entry e m =
      let before = remove_message_entry e.source_id m in
      index_latest_context_sender e (record before {
        by_source = put before.by_source e.source_id e;
        by_surrogate = put_surrogate e.surrogate_id e before.by_surrogate;
      })

  pub put_message_without_record : MessageEntry → Engine → Engine
  unfolding put_entry
  put_message_without_record e s = record s { messages = put_entry e s.messages }

  -- A source of the window goes: its number, both ways, and its message.
  pub forget_source : String → Engine → Engine
  unfolding remove_message_entry
  forget_source source s =
      let t = table s.tables message in
      record s {
        tables = set_table s.tables message (elim (get t.forward source) [
          | none ↦ t
          | some n ↦ record t { forward = remove t.forward source; reverse = remove t.reverse n }
        ]);
        messages = remove_message_entry source s.messages;
      }

  -- The loop of `_trim_message_window_locked`, over the order; the state has no order of its own
  -- while it runs.
  pub trim_loop : ℕ → List String → Engine → Engine
  unfolding forget_source
  trim_loop window [] s = record s { message_order = [] }
  trim_loop window (source ∷ l) s =
      let smaller = trim_loop window l (forget_source source s) in
      if ltb window (length (source ∷ l)) then smaller else record s { message_order = source ∷ l }

  pub trim_message_window : Engine → Engine
  unfolding trim_loop
  trim_message_window s = trim_loop s.message_window_size s.message_order s

  -- A new mapping, with the counter that its namespace has then.
  pub insert_mapping : Namespace → String → ℕ → ℕ → Engine → Engine
  unfolding trim_message_window
  insert_mapping ns source n counter s =
      let t = table s.tables ns in
      let added : Engine = record s {
        tables = set_table s.tables ns (record {
          counter = counter;
          forward = put t.forward source n;
          reverse = put t.reverse n source;
        });
      } in
      elim ns [
        | message ↦
            trim_message_window (record added { message_order = s.message_order ++ (source ∷ []) })
        | _ ↦ added
      ]

  -- What `_allocate_mapping_locked` does for a source that has no number.
  pub create_mapping : Namespace → String → Engine → Engine
  unfolding insert_mapping
  create_mapping ns source s =
      let counter = (table s.tables ns).counter + 1 in
      insert_mapping ns source (base ns + counter) counter s

  -- The number, whether it is new, and the state.
  pub allocate_mapping_locked : Namespace → String → Engine → (ℕ × Bool) × Engine
  unfolding create_mapping
  allocate_mapping_locked ns source s = elim (get (table s.tables ns).forward source) [
    | some n ↦ ((n, false), s)
    | none ↦ ((base ns + ((table s.tables ns).counter + 1), true), create_mapping ns source s)
  ]

  pub bind_private_room_without_record : String → ℕ → String → Engine → Engine
  unfolding bind_private
  bind_private_room_without_record user n room s = record s {
    private_rooms = bind_private user n room s.private_rooms;
  }

  -- Whether the entry was bound, and the state.
  pub bind_context_room_without_record : ContextEntry → Engine → Bool × Engine
  unfolding is_stale
  bind_context_room_without_record e s =
      let p = s.context_rooms in
      if is_stale (get p.by_context_source e.context_source_id) e.timestamp then (false, s) else (
        true,
        record s {
          context_rooms = record {
            by_context_source = put p.by_context_source e.context_source_id e;
            by_context_surrogate = put p.by_context_surrogate e.context_surrogate_id e;
          };
        },
      )

  -- The loop of `_apply_message_rebuild`, over the mappings by ascending number; the indexes are
  -- those of the retained entries.
  pub rebuild_messages :
      Dict String MessageEntry → Dict String ℕ → Dict ℕ String → Messages → Messages
  unfolding index_latest_context_sender
  rebuild_messages entries active [] m = m
  rebuild_messages entries active ((n, source) ∷ l) m =
      rebuild_messages entries active l (elim (get entries source) [
        | none ↦ m
        | some e ↦
            let entry = rewrite_entry_surrogate strip decimal e n active in
            index_latest_context_sender entry (record m {
              by_source = put m.by_source source entry;
              by_surrogate = put m.by_surrogate n entry;
            })
      ])

  pub apply_message_rebuild : Dict String ℕ → Engine → Engine
  unfolding rebuild_messages
  apply_message_rebuild active s = record s {
    messages =
        rebuild_messages s.messages.by_source active (sort_items (by_number active)) no_messages;
  }
