-- ===== src/IdMap/Tests.antt =====
-- Runs of the surrogate numbers, and instances of the theorems about them.
use rocket_cat_shell_linux.Base.{
  ℕ, ◌+◌, ◌*◌, ◌≤◌, ◌<◌, String, ◌≡◌, refl, true, Option, some, [], ◌∷◌, length, nat_key,
  string_key, arith,
}
use rocket_cat_shell_linux.Base.Dict.{Dict, get, put, remove}
use rocket_cat_shell_linux.Base.Result.{ok}
use rocket_cat_shell_linux.Base.Sort.{insert_item, sort_items}
use rocket_cat_shell_linux.IdMap.{
  room, message, namespace_of, base, Table, Payload, table, empty_payload, IdMapping, add_source,
  evict, drop_overflow, old_surrogate, renumber_one, renumber, compact_message_window,
  compact_if_due, message_reset_counter, maintain_message_window, after_insert, get_or_create_in,
  or_default, notification, get_or_create, get_source, get_surrogate, rebuild_message_window,
}
use rocket_cat_shell_linux.IdMap.Age.{maintain-newer}
use rocket_cat_shell_linux.IdMap.Consistent.{
  IsConsistent, empty_table-IsConsistent, add_source-IsConsistent,
}
use rocket_cat_shell_linux.IdMap.Create.{
  AreConsistent, empty_payload-AreConsistent, get_or_create-total,
}
use rocket_cat_shell_linux.IdMap.Effects.{
  get_or_create-other, get_or_create-window, rebuild-reports, IsReport,
}
use rocket_cat_shell_linux.IdMap.Maintain.{maintain-IsConsistent}

program : Unit {0}
unfolding namespace_of base add_source evict drop_overflow old_surrogate renumber_one renumber
    compact_message_window compact_if_due message_reset_counter maintain_message_window after_insert
    get_or_create_in notification get_or_create get_source get_surrogate get put remove insert_item
    sort_items
program = tt

-- three messages, oldest first
abbrev three : Table
three = record {
  counter = 3;
  forward = ("a", 3000000001) ∷ ("b", 3000000002) ∷ ("c", 3000000003) ∷ [];
  reverse = (3000000001, "a") ∷ (3000000002, "b") ∷ (3000000003, "c") ∷ [];
}

three-IsConsistent : IsConsistent (base message) three
unfolding program
three-IsConsistent =
    add_source-IsConsistent
      (add_source-IsConsistent
        (add_source-IsConsistent (empty_table-IsConsistent (base message)) "a" refl) "b" refl)
      "c" refl

abbrev with_three : Payload
with_three = record empty_payload { messages = three }

with_three-AreConsistent : AreConsistent with_three
with_three-AreConsistent = record {
  rooms = empty_payload-AreConsistent.rooms;
  messages = three-IsConsistent;
  threads = empty_payload-AreConsistent.threads;
  contexts = empty_payload-AreConsistent.contexts;
}

-- A window of two: the fourth message makes the counter reach its limit, and the numbers restart.
fourth : get_or_create 2 "message" "d" (some with_three) ≡ (
  ok (record {
    mapping = record { namespace = message; source_id = "d"; surrogate_id = 3000000002 };
    notified = some (("c", 3000000001) ∷ ("d", 3000000002) ∷ []);
  }),
  some (record with_three {
    messages = record {
      counter = 2;
      forward = ("c", 3000000001) ∷ ("d", 3000000002) ∷ [];
      reverse = (3000000001, "c") ∷ (3000000002, "d") ∷ [];
    };
  }),
)
unfolding program
fourth = refl

get_or_create-total_example :
    (m : IdMapping) × (n : Option (Dict String ℕ)) × (p : Payload) × (get_or_create 2 "message" "d"
        (some with_three)
      ≡ (ok (record { mapping = m; notified = n }), some p))
    × AreConsistent p
    × (m.source_id ≡ "d")
    × (get_surrogate "message" "d" (some p) ≡ ok (some m.surrogate_id))
    × (get_source "message" m.surrogate_id (some p) ≡ ok (some "d"))
unfolding program
get_or_create-total_example =
    get_or_create-total 2 "message" "d" (some with_three) message (omega arith) refl
      with_three-AreConsistent

get_or_create-other_example :
    table (or_default (get_or_create 2 "message" "d" (some with_three)).1) room
    ≡ table (or_default (some with_three)) room
unfolding program
get_or_create-other_example =
    get_or_create-other 2 "message" "d" (some with_three) message room refl (ground arith)

abbrev after_fourth : Payload
after_fourth = record with_three {
  messages = record {
    counter = 2;
    forward = ("c", 3000000001) ∷ ("d", 3000000002) ∷ [];
    reverse = (3000000001, "c") ∷ (3000000002, "d") ∷ [];
  };
}

get_or_create-window_example :
    (length after_fourth.messages.forward ≤ 2)
    × ((q : String) (i : ℕ)
        → get after_fourth.messages.forward q ≡ some i
        → (base message < i) × (i < base message + 2 * 2))
unfolding program
get_or_create-window_example =
    get_or_create-window 2 "d" (some with_three)
      (record {
        mapping = record { namespace = message; source_id = "d"; surrogate_id = 3000000002 };
        notified = some (("c", 3000000001) ∷ ("d", 3000000002) ∷ []);
      })
      after_fourth (omega arith) with_three-AreConsistent refl fourth

rebuild-reports_example :
    (p : Payload) × ((rebuild_message_window 2 true (some with_three)).2 ≡ some p)
    × AreConsistent p
    × (length p.messages.forward ≤ 2)
    × IsReport 2
        (rebuild_message_window 2 true (some with_three)).0
        (rebuild_message_window 2 true (some with_three)).1
        p
rebuild-reports_example =
    rebuild-reports 2 true (some with_three) (omega arith) with_three-AreConsistent

maintain-IsConsistent_example :
    IsConsistent (base message) (maintain_message_window 2 true true three).0
maintain-IsConsistent_example = maintain-IsConsistent three-IsConsistent 2 true true

maintain-newer_example :
    (i' : ℕ) × (get (maintain_message_window 2 true true three).0.forward "c" ≡ some i')
    × (3000000001 < i')
unfolding program
maintain-newer_example =
    maintain-newer three-IsConsistent 2 true true "c" "b" 3000000003 3000000002 3000000001 refl refl
      (omega arith) refl
