-- ===== src/IdMap.antt =====
-- rocketcat_shell/bridge/id_map.py: `DurableIdMap`, the surrogate numbers of rooms, messages,
-- threads and contexts. The keys of `reverse` are decimal texts in the source, and the numbers
-- that they spell here. A namespace that is missing from the payload reads as the empty table that
-- `_ensure_namespace` puts there. The definitions are here; the proofs are in the children.
pub mod Consistent
mod Window
mod Tests
mod Age
mod Effects
mod Create
mod Maintain
mod Compact
mod Order
use rocket_cat_shell_linux.Base.{
  ℕ, suc, ◌+◌, ◌-◌, ◌*◌, String, ◌≡◌, Bool, true, false, ◌||◌, ◌&&◌, max, not, Option, none, some,
  List, [], ◌∷◌, map, ltb, leb, nat_beq, if◌then◌else◌, length, take, ◌==◌, nat_key, string_key,
}
use rocket_cat_shell_linux.Base.Dict.{Dict, get, put, remove}
use rocket_cat_shell_linux.Base.Int.{ℤ, pos, negsuc}
use rocket_cat_shell_linux.Base.Result.{Result, ok, raise, ◌>>=◌}
use rocket_cat_shell_linux.Base.Sort.{sort_items}

pub data Namespace : Type 0 where
  room message thread context : Namespace

pub data Error : Type 0 where
  key_error : Error

-- The keys of `_BASES`: any other namespace is a `KeyError`.
unfoldable pub namespace_of : String → Result Error Namespace
namespace_of s =
    if s == "room"
    then ok room
    else if s == "message"
    then ok message
    else if s == "thread"
    then ok thread
    else if s == "context"
    then ok context
    else raise key_error

unfoldable pub base : Namespace → ℕ
base room = 2000000000
base message = 3000000000
base thread = 4000000000
base context = 5000000000

pub record Table : Type 0 where
  pub counter : ℕ
  pub forward : Dict String ℕ
  pub reverse : Dict ℕ String

pub record Payload : Type 0 where
  pub rooms : Table
  pub messages : Table
  pub threads : Table
  pub contexts : Table

abbrev pub table : Payload → Namespace → Table
table p room = p.rooms
table p message = p.messages
table p thread = p.threads
table p context = p.contexts

abbrev pub set_table : Payload → Namespace → Table → Payload
set_table p room t = record p { rooms = t }
set_table p message t = record p { messages = t }
set_table p thread t = record p { threads = t }
set_table p context t = record p { contexts = t }

abbrev pub empty_table : Table
empty_table = record { counter = 0; forward = []; reverse = [] }

abbrev pub empty_payload : Payload
empty_payload = record {
  rooms = empty_table;
  messages = empty_table;
  threads = empty_table;
  contexts = empty_table;
}

pub record IdMapping : Type 0 where
  pub namespace : Namespace
  pub source_id : String
  pub surrogate_id : ℕ

pub record MessageWindowSnapshot : Type 0 where
  pub active_mappings : Dict String ℕ
  pub changed : Bool
  pub removed_count : ℕ
  pub compacted : Bool
  pub active_count : ℕ
  pub max_entries : ℕ

-- `none` is a value that `int` refuses.
unfoldable pub normalize_message_window_size : Option ℤ → ℕ
normalize_message_window_size none = 1000
normalize_message_window_size (some (pos n)) = if ltb 0 n then n else 1000
normalize_message_window_size (some (negsuc n)) = 1000

-- The size is normalised already: `__init__` and `set_message_window_size` do so.
pub message_reset_counter : ℕ → ℕ
message_reset_counter window = window * 2

-- The new number of a source that has none.
unfoldable pub add_source : ℕ → String → Table → Table
add_source b s t =
    let i = b + (t.counter + 1) in
    record { counter = t.counter + 1; forward = put t.forward s i; reverse = put t.reverse i s }

-- The loop that pops the surplus entries, oldest first.
pub evict : Table → Dict ℕ String → Table
evict t [] = t
evict t ((i, s) ∷ l) =
    evict (record t { forward = remove t.forward s; reverse = remove t.reverse i }) l

pub record Renumbered : Type 0 where
  pub changed : Bool
  pub new_forward : Dict String ℕ
  pub new_reverse : Dict ℕ String

-- `int(forward.get(source_key) or 0)`
pub old_surrogate : Dict String ℕ → String → ℕ
old_surrogate forward s = elim (get forward s) [ none ↦ 0 | some i ↦ i ]

-- One round of the loop of `_compact_message_window`, and the loop; `index` is the counter of
-- `enumerate`.
pub renumber_one : Dict String ℕ → ℕ → String → Renumbered → Renumbered
renumber_one forward index s r =
    let i = base message + index in
    record {
      changed = r.changed || not (nat_beq (old_surrogate forward s) i);
      new_forward = put r.new_forward s i;
      new_reverse = put r.new_reverse i s;
    }

pub renumber : Dict String ℕ → ℕ → List String → Renumbered → Renumbered
renumber forward index [] r = r
renumber forward index (s ∷ l) r = renumber forward (index + 1) l (renumber_one forward index s r)

abbrev pub ordered_sources : Table → List String
ordered_sources t = map (λ item. item.1) (sort_items t.reverse)

abbrev pub no_entries : Renumbered
no_entries = record { changed = false; new_forward = []; new_reverse = [] }

abbrev pub compact_sources : List String → Table → Table × Bool
compact_sources [] t = (record t { counter = 0 }, false)
compact_sources (s ∷ l) t =
    let r = renumber t.forward 1 (s ∷ l) no_entries in
    (
      record { counter = length (s ∷ l); forward = r.new_forward; reverse = r.new_reverse },
      r.changed,
    )

pub compact_message_window : Table → Table × Bool
compact_message_window t = compact_sources (ordered_sources t) t

abbrev pub is_empty {ℓ} : {A : Type ℓ} → List A → Bool
is_empty [] = true
is_empty (x ∷ l) = false

-- The part of `_maintain_message_window` that drops what is beyond the window.
pub drop_overflow : ℕ → Table → Table
drop_overflow window t = evict t (take (length t.forward - window) (sort_items t.reverse))

-- The part that renumbers when the counter has reached its limit, or by force.
pub compact_if_due : ℕ → Bool → Table → Table × Bool
compact_if_due window force t =
    if force || leb (message_reset_counter window) t.counter
    then compact_message_window t
    else (t, false)

pub maintain_message_window : ℕ → Bool → Bool → Table → Table × Option MessageWindowSnapshot
maintain_message_window window force return_unchanged t =
    let overflow = length t.forward - window in
    let kept = if ltb 0 overflow then drop_overflow window t else t in
    let due = force || leb (message_reset_counter window) kept.counter in
    let (final, renumbered) = compact_if_due window force kept in
    let changed = renumbered || ltb 0 overflow in
    (
      final,
      if not changed && not return_unchanged
          then none
          else some (record {
            active_mappings = final.forward;
            changed = changed;
            removed_count = overflow;
            compacted = due && not (is_empty kept.forward);
            active_count = length final.forward;
            max_entries = window;
          }),
    )

-- `payload["forward"][namespace][source_key]`
abbrev pub require : Dict String ℕ → String → Result Error ℕ
require forward s = elim (get forward s) [ none ↦ raise key_error | some i ↦ ok i ]

-- What follows the insertion: only messages have a window.
pub after_insert :
    ℕ
    → Namespace
    → String
    → ℕ
    → Payload
    → Result Error (IdMapping × Option MessageWindowSnapshot × Payload)
after_insert window message s i p =
    let (t, snapshot) = maintain_message_window window false false p.messages in
    do
      j ← require t.forward s
      ok (
        record { namespace = message; source_id = s; surrogate_id = j },
        snapshot,
        record p { messages = t },
      )
after_insert window ns s i p =
    ok (record { namespace = ns; source_id = s; surrogate_id = i }, none, p)

-- The inner function `mutate` of `get_or_create`, for a known namespace.
pub get_or_create_in :
    ℕ
    → Namespace
    → String
    → Payload
    → Result Error (IdMapping × Option MessageWindowSnapshot × Payload)
get_or_create_in window ns s p = elim (get (table p ns).forward s) [
  | some i ↦ ok (record { namespace = ns; source_id = s; surrogate_id = i }, none, p)
  | none ↦
      let t = add_source (base ns) s (table p ns) in
      after_insert window ns s (base ns + t.counter) (set_table p ns t)
]

-- `JsonStore` holds a payload, or there is no file yet and the default stands in.
abbrev pub or_default : Option Payload → Payload
or_default none = empty_payload
or_default (some p) = p

-- `_notify_message_window_changed`: what the callback is given, if it is called.
pub notification : Option MessageWindowSnapshot → Option (Dict String ℕ)
notification none = none
notification (some s) = if s.changed then some s.active_mappings else none

pub record Created : Type 0 where
  pub mapping : IdMapping
  pub notified : Option (Dict String ℕ)

-- A mutator that raises leaves the file as it was.
abbrev pub stored :
    Option Payload
    → Result Error (IdMapping × Option MessageWindowSnapshot × Payload)
    → Result Error Created × Option Payload
stored file (raise e) = (raise e, file)
stored file (ok (m, snapshot, p)) =
    (ok (record { mapping = m; notified = notification snapshot }), some p)

pub get_or_create : ℕ → String → String → Option Payload → Result Error Created × Option Payload
get_or_create window name s file =
    stored file (do ns ← namespace_of name; get_or_create_in window ns s (or_default file))

pub get_source : String → ℕ → Option Payload → Result Error (Option String)
get_source name i file = do ns ← namespace_of name; ok (get (table (or_default file) ns).reverse i)

pub get_surrogate : String → String → Option Payload → Result Error (Option ℕ)
get_surrogate name s file = do
  ns ← namespace_of name
  ok (get (table (or_default file) ns).forward s)

-- `max(values, default=None)`
pub highest : Dict String ℕ → Option ℕ
highest [] = none
highest ((s, i) ∷ l) = elim (highest l) [ none ↦ some i | some j ↦ some (max i j) ]

pub record WindowReport : Type 0 where
  pub changed : Bool
  pub removed_count : ℕ
  pub compacted : Bool
  pub active_count : ℕ
  pub max_entries : ℕ
  pub highest_surrogate_id : Option ℕ
  pub reset_surrogate_id : ℕ

-- `_snapshot_to_dict`
pub snapshot_to_dict : MessageWindowSnapshot → WindowReport
snapshot_to_dict s = record {
  changed = s.changed;
  removed_count = s.removed_count;
  compacted = s.compacted;
  active_count = s.active_count;
  max_entries = s.max_entries;
  highest_surrogate_id = highest s.active_mappings;
  reset_surrogate_id = base message + message_reset_counter s.max_entries;
}

abbrev pub unchanged_snapshot : ℕ → MessageWindowSnapshot
unchanged_snapshot window = record {
  active_mappings = [];
  changed = false;
  removed_count = 0;
  compacted = false;
  active_count = 0;
  max_entries = window;
}

abbrev pub or_unchanged : ℕ → Option MessageWindowSnapshot → MessageWindowSnapshot
or_unchanged window none = unchanged_snapshot window
or_unchanged window (some s) = s

-- The report, what the callback is given, and the file afterwards.
pub rebuild_message_window :
    ℕ → Bool → Option Payload → WindowReport × Option (Dict String ℕ) × Option Payload
rebuild_message_window window force file =
    let p = or_default file in
    let (t, snapshot) = maintain_message_window window force true p.messages in
    let s = or_unchanged window snapshot in
    (snapshot_to_dict s, notification (some s), some (record p { messages = t }))
