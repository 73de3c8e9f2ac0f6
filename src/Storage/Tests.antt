-- ===== src/Storage/Tests.antt =====
-- A rebuild of the message store, and instances of the theorems about it.
use rocket_cat_shell_linux.Base.{
  ℕ, ◌≡◌, refl, String, none, some, List, [], ◌∷◌, inl, map, string_key, nat_key,
}
use rocket_cat_shell_linux.Base.Dict.{get, put}
use rocket_cat_shell_linux.Base.Sort.{insert_item, sort_items}
use rocket_cat_shell_linux.Storage.{
  MessageEntry, MessagePayload, reply, other, empty_messages, put_message, put_latest, put_newer,
  rewrite_segments, rewrite_entry_surrogate, rebuild_one, rebuild_loop, rebuild_for_active_mappings,
  index_entry, build_latest, get_latest, Fragment,
}
use rocket_cat_shell_linux.Storage.Latest.{IsSince, fragment_of, build_latest-newest}
use rocket_cat_shell_linux.Storage.Rebuild.{renumbered, entry_of, rebuild-entries}

program : Unit {0}
unfolding empty_messages put_message put_latest put_newer rewrite_segments rewrite_entry_surrogate
    rebuild_one rebuild_loop rebuild_for_active_mappings index_entry build_latest get_latest get put
    insert_item sort_items
program = tt

abbrev same : String → String
same s = s

abbrev one_digit : ℕ → String
one_digit n = "1"

abbrev entry : String → ℕ → ℕ → MessageEntry
entry source n time = record {
  source_id = source;
  surrogate_id = some n;
  context_source_id = "c";
  sender_source_id = "s";
  room_source_id = "room";
  thread_source_id = "";
  timestamp = time;
  sender_surrogate_id = none;
  reply_source_id = "";
  reply_source_ids = "a" ∷ "gone" ∷ [];
  onebot_message = none;
  onebot_message_segments =
      some (reply (("id", "7") ∷ []) ∷ other "text" ∷ reply (("id", "8") ∷ []) ∷ []);
}

abbrev two : MessagePayload
two =
    put_message same one_digit (entry "b" 8 20) 8
      (put_message same one_digit (entry "a" 7 10) 7 empty_messages)

abbrev active : List (String × ℕ)
active = ("b", 2) ∷ ("a", 1) ∷ []

-- the reply to a message without a number is gone
replies_rewritten :
    map
      (λ (p : String × MessageEntry). p.1.onebot_message_segments)
      (rebuild_for_active_mappings same one_digit active two).by_source
    ≡ some (reply (("id", "1") ∷ []) ∷ other "text" ∷ [])
      ∷ some (reply (("id", "1") ∷ []) ∷ other "text" ∷ [])
      ∷ []
unfolding program
replies_rewritten = refl

seen_last : get_latest (λ (f : Fragment). f.room_source_id) "c" "s" (some 5) 24 two ≡ some "room"
unfolding program
seen_last = refl

rebuild-entries_example :
    ((s : String)
      → get (rebuild_for_active_mappings same one_digit active two).by_source s
        ≡ renumbered same one_digit active (get active s) (get two.by_source s))
    × ((n : ℕ)
        → get (rebuild_for_active_mappings same one_digit active two).by_surrogate n
          ≡ renumbered same one_digit active
              (some n)
              (entry_of same one_digit two.by_source (get ((2, "b") ∷ (1, "a") ∷ []) n)))
unfolding program
rebuild-entries_example =
    rebuild-entries same one_digit active two (refl, (refl, tt)) (refl, (refl, tt))

build_latest-newest_example :
    IsSince 10
      (fragment_of (build_latest same one_digit (entry "a" 7 10 ∷ entry "b" 8 5 ∷ []) []) "c" "s")
build_latest-newest_example =
    build_latest-newest same one_digit (entry "a" 7 10 ∷ entry "b" 8 5 ∷ []) [] (entry "a" 7 10) "c"
      "s" (inl refl) (refl, refl, refl, refl, refl, refl)
