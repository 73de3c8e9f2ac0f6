-- ===== src/Storage.antt =====
-- rocketcat_shell/bridge/storage.py: the JSON stores of messages and of rooms. Each call is one step,
-- since `JsonStore` runs it under a lock. The texts of an entry are what `str(… or "")` makes of a
-- field, times are numbers, and decimal keys are the numbers they spell.
mod Rebuild
mod Latest
mod Tests
use rocket_cat_shell_linux.Base.{
  ℕ, ◌-◌, ◌++◌, String, Bool, true, false, ◌&&◌, not, Option, none, some, List, [], ◌∷◌, leb, ltb,
  if◌then◌else◌, ◌==◌, nat_key, string_key,
}
use rocket_cat_shell_linux.Base.Dict.{Dict, get, put}
use rocket_cat_shell_linux.Base.Sort.{sort_items}

abbrev pub or_other : String → String → String
or_other s other = if s == "" then other else s

abbrev pub is_set : String → Bool
is_set s = not (s == "")

-- A message segment: a reply with its data, or any other value.
pub data MessageSegment : Type 0 where
  reply : Dict String String → MessageSegment
  other : String → MessageSegment

-- An entry's `onebot_message`.
pub record Event : Type 0 where
  pub message_id : ℕ
  pub rocketchat_reply_source_id : String
  pub rocketchat_reply_source_ids : List String
  pub message : Option (List MessageSegment)

-- A stored message; `none` is a missing surrogate, or a value that is no dict or no list.
pub record MessageEntry : Type 0 where
  pub source_id : String
  pub surrogate_id : Option ℕ
  pub context_source_id : String
  pub sender_source_id : String
  pub room_source_id : String
  pub thread_source_id : String
  pub timestamp : ℕ
  pub sender_surrogate_id : Option ℕ
  pub reply_source_id : String
  pub reply_source_ids : List String
  pub onebot_message : Option Event
  pub onebot_message_segments : Option (List MessageSegment)

-- An item of `latest_by_context_sender`.
pub record Fragment : Type 0 where
  pub source_id : String
  pub room_source_id : String
  pub thread_source_id : String
  pub timestamp : ℕ

abbrev pub Latest : Type 0
Latest = Dict String (Dict String Fragment)

-- The payload of `MessageStore`.
pub record MessagePayload : Type 0 where
  pub by_source : Dict String MessageEntry
  pub by_surrogate : Dict ℕ MessageEntry
  pub latest_by_context_sender : Latest

pub empty_messages : MessagePayload
empty_messages = record { by_source = []; by_surrogate = []; latest_by_context_sender = [] }

abbrev pub non_empty : List String → List String
non_empty [] = []
non_empty (s ∷ l) = let rest = non_empty l in if is_set s then s ∷ rest else rest

abbrev pub is_nil : List String → Bool
is_nil [] = true
is_nil (s ∷ l) = false

-- What the loop of `rebuild_for_active_mappings` collects.
pub record Rebuilt : Type 0 where
  pub new_by_source : Dict String MessageEntry
  pub new_by_surrogate : Dict ℕ MessageEntry
  pub retained_entries : List MessageEntry

abbrev pub nothing_rebuilt : Rebuilt
nothing_rebuilt = record { new_by_source = []; new_by_surrogate = []; retained_entries = [] }

-- The items of a mapping, number first.
abbrev pub by_number : Dict String ℕ → Dict ℕ String
by_number [] = []
by_number ((s, n) ∷ l) = (n, s) ∷ by_number l

abbrev pub mapped : Dict String ℕ → String → Option ℕ
mapped active s = if is_set s then get active s else none

-- Whether the message stands for its sender in its context.
abbrev pub has_pair : String → String → String → Bool
has_pair context sender room = is_set context && is_set sender && is_set room

-- The bucket of a context, with the fragment unless a newer one is there.
pub put_newer : String → Fragment → Dict String Fragment → Dict String Fragment
put_newer sender fragment bucket = elim (get bucket sender) [
  | none ↦ put bucket sender fragment
  | some old ↦ if leb old.timestamp fragment.timestamp then put bucket sender fragment else bucket
]

abbrev pub bucket_of : Latest → String → Dict String Fragment
bucket_of latest context = elim (get latest context) [ none ↦ [] | some bucket ↦ bucket ]

pub put_latest : String → String → Fragment → Latest → Latest
unfolding put_newer
put_latest context sender fragment latest =
    put latest context (put_newer sender fragment (bucket_of latest context))

-- `strip` and `decimal` are Python's `str.strip` and `str` of an integer.
module _ (strip : String → String) (decimal : ℕ → String) where
  -- The loop of `_rewrite_entry_surrogate`: a reply to a message without a number is dropped. The
  -- first list has the sources of the replies still to come, `single` is for those beyond it.
  pub rewrite_segments :
      Dict String ℕ → List String → String → List MessageSegment → List MessageSegment
  rewrite_segments active ids single [] = []
  rewrite_segments active ids single (other t ∷ l) = other t ∷ rewrite_segments active ids single l
  rewrite_segments active [] single (reply fields ∷ l) =
      let rest = rewrite_segments active [] single l in
      elim (mapped active single) [
        | none ↦ rest
        | some n ↦ reply (put fields "id" (decimal n)) ∷ rest
      ]
  rewrite_segments active (s ∷ ids) single (reply fields ∷ l) =
      let rest = rewrite_segments active ids single l in
      elim (mapped active s) [ none ↦ rest | some n ↦ reply (put fields "id" (decimal n)) ∷ rest ]

  abbrev pub rewrite_list :
      Dict String ℕ
      → List String
      → String
      → Option (List MessageSegment)
      → Option (List MessageSegment)
  rewrite_list active ids single none = none
  rewrite_list active ids single (some l) = some (rewrite_segments active ids single l)

  pub rewrite_entry_surrogate : MessageEntry → ℕ → Dict String ℕ → MessageEntry
  unfolding rewrite_segments
  rewrite_entry_surrogate entry n active =
      let single = strip entry.reply_source_id in
      let ids = non_empty entry.reply_source_ids in
      elim entry.onebot_message [
        | none ↦ record entry {
          surrogate_id = some n;
          onebot_message_segments = rewrite_list active ids single entry.onebot_message_segments;
        }
        | some event ↦
            let all_ids = if is_nil ids then non_empty event.rocketchat_reply_source_ids else ids in
            let one = or_other single (strip event.rocketchat_reply_source_id) in
            record entry {
              surrogate_id = some n;
              onebot_message = some (record event {
                message_id = n;
                message = rewrite_list active all_ids one event.message;
              });
            }
      ]

  -- `MessageStore.put`; `surrogate_id` is that of the entry, whose absence is a `KeyError`.
  pub put_message : MessageEntry → ℕ → MessagePayload → MessagePayload
  unfolding put_latest
  put_message entry surrogate_id p =
      let context = strip entry.context_source_id in
      let sender = strip entry.sender_source_id in
      let room = strip entry.room_source_id in
      let fragment : Fragment = record {
        source_id = entry.source_id;
        room_source_id = room;
        thread_source_id = strip entry.thread_source_id;
        timestamp = entry.timestamp;
      } in
      record {
        by_source = put p.by_source entry.source_id entry;
        by_surrogate = put p.by_surrogate surrogate_id entry;
        latest_by_context_sender =
            if has_pair context sender room
            then put_latest context sender fragment p.latest_by_context_sender
            else p.latest_by_context_sender;
      }

  -- One round of the loop of `_build_latest_by_context_sender`.
  pub index_entry : MessageEntry → Latest → Latest
  unfolding put_latest
  index_entry entry latest =
      let context = strip entry.context_source_id in
      let sender = strip entry.sender_source_id in
      let room = strip entry.room_source_id in
      let source = strip entry.source_id in
      let fragment : Fragment = record {
        source_id = source;
        room_source_id = room;
        thread_source_id = strip entry.thread_source_id;
        timestamp = entry.timestamp;
      } in
      if has_pair context sender room && is_set source
      then put_latest context sender fragment latest
      else latest

  pub build_latest : List MessageEntry → Latest → Latest
  unfolding index_entry
  build_latest [] latest = latest
  build_latest (e ∷ l) latest = build_latest l (index_entry e latest)

  -- One round of the loop of `rebuild_for_active_mappings`.
  pub rebuild_one : Dict String MessageEntry → Dict String ℕ → ℕ → String → Rebuilt → Rebuilt
  unfolding rewrite_entry_surrogate
  rebuild_one by_source active n s r = elim (get by_source s) [
    | none ↦ r
    | some e ↦
        let entry = rewrite_entry_surrogate e n active in
        record {
          new_by_source = put r.new_by_source s entry;
          new_by_surrogate = put r.new_by_surrogate n entry;
          retained_entries = r.retained_entries ++ (entry ∷ []);
        }
  ]

  -- The loop, over the mappings by ascending number.
  pub rebuild_loop : Dict String MessageEntry → Dict String ℕ → Dict ℕ String → Rebuilt → Rebuilt
  unfolding rebuild_one
  rebuild_loop by_source active [] r = r
  rebuild_loop by_source active ((n, s) ∷ l) r =
      rebuild_loop by_source active l (rebuild_one by_source active n s r)

  pub rebuild_for_active_mappings : Dict String ℕ → MessagePayload → MessagePayload
  unfolding rebuild_loop build_latest
  rebuild_for_active_mappings active p =
      let r = rebuild_loop p.by_source active (sort_items (by_number active)) nothing_rebuilt in
      record {
        by_source = r.new_by_source;
        by_surrogate = r.new_by_surrogate;
        latest_by_context_sender = build_latest r.retained_entries [];
      }

-- `none`, or the text if it is not empty
abbrev pub text_if_set : String → Option String
text_if_set s = if is_set s then some s else none

-- `get_latest_room_by_context_sender` and its twin for threads: `field` is what is asked for, `age`
-- the greatest age, if there is one. The texts are stripped when they are stored.
pub get_latest :
    (Fragment → String) → String → String → Option ℕ → ℕ → MessagePayload → Option String
get_latest field context sender age now p = elim (get p.latest_by_context_sender context) [
  | none ↦ none
  | some bucket ↦ elim (get bucket sender) [
    | none ↦ none
    | some fragment ↦ elim age [
      | none ↦ text_if_set (field fragment)
      | some seconds ↦
          if ltb 0 fragment.timestamp && ltb seconds (now - fragment.timestamp)
          then none
          else text_if_set (field fragment)
    ]
  ]
]

-- The payload of `PrivateRoomStore`.
pub record PrivatePayload : Type 0 where
  pub by_user_source : Dict String String
  pub by_user_surrogate : Dict ℕ String

unfoldable pub bind_private : String → ℕ → String → PrivatePayload → PrivatePayload
bind_private user n room p = record {
  by_user_source = put p.by_user_source user room;
  by_user_surrogate = put p.by_user_surrogate n room;
}

-- An entry of `ContextRoomStore`; its time may be missing.
pub record ContextEntry : Type 0 where
  pub context_source_id : String
  pub context_surrogate_id : ℕ
  pub room_source_id : String
  pub room_surrogate_id : ℕ
  pub room_name : String
  pub room_slug : String
  pub thread_source_id : String
  pub timestamp : Option ℕ

pub record ContextPayload : Type 0 where
  pub by_context_source : Dict String ContextEntry
  pub by_context_surrogate : Dict ℕ ContextEntry

abbrev pub time_or_zero : Option ContextEntry → ℕ
time_or_zero none = 0
time_or_zero (some e) = elim e.timestamp [ none ↦ 0 | some t ↦ t ]

-- A bind that is older than the entry that is there.
unfoldable pub is_stale : Option ContextEntry → Option ℕ → Bool
is_stale existing none = false
is_stale existing (some t) = ltb t (time_or_zero existing)

-- `ContextRoomStore.bind`
pub bind_context : ContextEntry → ContextPayload → ContextPayload
unfolding is_stale
bind_context entry p =
    if is_stale (get p.by_context_source entry.context_source_id) entry.timestamp
    then p
    else record {
      by_context_source = put p.by_context_source entry.context_source_id entry;
      by_context_surrogate = put p.by_context_surrogate entry.context_surrogate_id entry;
    }
