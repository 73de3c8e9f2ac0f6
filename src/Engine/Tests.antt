-- ===== src/Engine/Tests.antt =====
-- Runs of the engine, and instances of the theorems about it.
use rocket_cat_shell_linux.Base.{
  nat_beq, ℕ, ◌+◌, ◌-◌, ◌<◌, ◌≡◌, refl, String, true, Option, none, some, List, [], ◌∷◌, ◌++◌, take,
  if◌then◌else◌, ◌==◌, string_key, nat_key, arith,
}
use rocket_cat_shell_linux.Base.Dict.{get, put, remove}
use rocket_cat_shell_linux.IdMap.{message, room, base, namespace_of, normalize_message_window_size}
use rocket_cat_shell_linux.Engine.{
  Engine, new_engine, allocate_mapping_locked, create_mapping, insert_mapping, trim_message_window,
  trim_loop, forget_source, remove_message_entry, bind_private_room_without_record,
}
use rocket_cat_shell_linux.Engine.Records.{
  Record, records, id_put, message_rebuild, other_record, Call, allocates, rebuilds_window, resizes,
  purges, replaces_private, rebuild_message_window, execute, execute_all, apply_record,
  apply_records, apply_id_put,
}
use rocket_cat_shell_linux.Engine.Recover.{Encoding, replay_journal, recover-torn}
use rocket_cat_shell_linux.Engine.Replay.{replay-execute_all}
use rocket_cat_shell_linux.Engine.Batch.{batch_all, replay-commit, rebuild_message_window-IsValid}
use rocket_cat_shell_linux.Engine.Queries.{begin_batch, commit}
use rocket_cat_shell_linux.Engine.Window.{new_engine-IsValid, execute_all-IsWithin}
use rocket_cat_shell_linux.Engine.Trim.{IsWithin, IsValid}
use rocket_cat_shell_linux.Engine.Control.{
  set_message_window_size, purge_legacy_user_dependent_state,
  replace_private_room_surrogate_bindings,
}
use rocket_cat_shell_linux.Base.Int.{ℤ, pos}
use rocket_cat_shell_linux.Base.Text.{codes}
use rocket_cat_shell_linux.Journal.{Bytes, Pickle, pack, write_record, write_records}
use rocket_cat_shell_linux.Storage.{bind_private}

program : Unit {0}
unfolding new_engine allocate_mapping_locked create_mapping insert_mapping trim_message_window
    trim_loop forget_source remove_message_entry bind_private_room_without_record bind_private
    execute execute_all rebuild_message_window set_message_window_size normalize_message_window_size
    purge_legacy_user_dependent_state replace_private_room_surrogate_bindings apply_record
    apply_id_put namespace_of base get put remove
program = tt

abbrev same : String → String
same s = s

abbrev no_digits : ℕ → String
no_digits n = ""

abbrev two : Option ℤ
two = some (pos 2)

abbrev calls : List Call
calls =
    allocates message "a"
    ∷ allocates room "r"
    ∷ allocates message "b"
    ∷ allocates message "a"
    ∷ allocates message "c"
    ∷ []

-- With a rebuild of the window, which nothing exceeds.
abbrev more_calls : List Call
more_calls = rebuilds_window ∷ calls

-- With a smaller window and its rebuild, and the calls that write nothing.
abbrev all_calls : List Call
all_calls =
    allocates message "a"
    ∷ allocates message "b"
    ∷ resizes (some (pos 1))
    ∷ purges
    ∷ rebuilds_window
    ∷ replaces_private ((10000000001, "r") ∷ [])
    ∷ []

all_calls_written :
    (execute_all same no_digits all_calls (new_engine two)).0
    ≡ id_put "message" "a" 3000000001
      ∷ id_put "message" "b" 3000000002
      ∷ message_rebuild (("b", 3000000002) ∷ [])
      ∷ []
unfolding program
all_calls_written = refl

window_of_two : (execute_all same no_digits calls (new_engine two)).1.message_order ≡ "b" ∷ "c" ∷ []
unfolding program
window_of_two = refl

written_records :
    (execute_all same no_digits calls (new_engine two)).0
    ≡ id_put "message" "a" 3000000001
      ∷ id_put "room" "r" 2000000001
      ∷ id_put "message" "b" 3000000002
      ∷ id_put "message" "c" 3000000003
      ∷ []
unfolding program
written_records = refl

execute_all-IsWithin_example : IsWithin 2 (execute_all same no_digits all_calls (new_engine two)).1
unfolding program
execute_all-IsWithin_example =
    execute_all-IsWithin same no_digits 2 all_calls (new_engine two) (new_engine-IsValid two)
      (tt, (tt, (omega arith, (tt, (tt, (tt, tt))))))

replay-execute_all_example :
    apply_records same no_digits
      (records (execute_all same no_digits more_calls (new_engine two)).0)
      (new_engine two)
    ≡ (execute_all same no_digits more_calls (new_engine two)).1
replay-execute_all_example =
    replay-execute_all same no_digits more_calls (new_engine two) (new_engine-IsValid two)
      (tt, (refl, (refl, (refl, (refl, (refl, tt))))))

abbrev unmark : Bytes → Option Bytes
unmark [] = none
unmark (b ∷ s) = some s

abbrev marked : Pickle
marked = record {
  Object = Bytes;
  is_dict = λ o. true;
  dumps = λ o. 128 ∷ o;
  loads = unmark;
  loads-dumps = λ o. refl;
  dumps_pos = λ o. omega arith;
}

abbrev letter : ℕ → String
letter n =
    if nat_beq n 97 then "a" else if nat_beq n 98 then "b" else if nat_beq n 99 then "c" else "r"

-- The numbers of rooms and messages, below 256 of each.
abbrev encode_small : Record → Bytes
encode_small (id_put name source n) =
    if name == "room"
    then 1 ∷ (n - 2000000000) ∷ codes source
    else 2 ∷ (n - 3000000000) ∷ codes source
encode_small r = []

abbrev decode_small : Bytes → Record
decode_small (kind ∷ n ∷ c ∷ []) =
    if nat_beq kind 1
    then id_put "room" (letter c) (2000000000 + n)
    else id_put "message" (letter c) (3000000000 + n)
decode_small o = other_record

abbrev encoding : Encoding marked
encoding = record { encode = encode_small; decode = decode_small }

abbrev journal : Bytes
journal =
    4 ∷ 0 ∷ 0 ∷ 0 ∷ 128 ∷ 2 ∷ 1 ∷ 97 ∷ 4 ∷ 0 ∷ 0 ∷ 0 ∷ 128 ∷ 1 ∷ 1 ∷ 114 ∷ 4 ∷ 0 ∷ 0 ∷ 0 ∷ 128 ∷ 2
    ∷ 2 ∷ 98 ∷ 4 ∷ 0 ∷ 0 ∷ 0 ∷ 128 ∷ 2 ∷ 3 ∷ 99 ∷ []

abbrev longer : Bytes
longer = journal ++ (4 ∷ 0 ∷ 0 ∷ 0 ∷ 128 ∷ 1 ∷ 2 ∷ 99 ∷ [])

-- Four records, and six bytes of the next.
recover-torn_example :
    replay_journal same no_digits marked encoding (some (take 38 longer)) (new_engine two)
    ≡ (execute_all same no_digits more_calls (new_engine two)).1
unfolding program pack write_record write_records
recover-torn_example =
    recover-torn same no_digits marked encoding more_calls (new_engine two)
      (id_put "room" "c" 2000000002) journal longer 38 (new_engine-IsValid two)
      (tt, (refl, (refl, (refl, (refl, (refl, tt)))))) (refl, (refl, (refl, (refl, tt))))
      ((refl, omega arith), ((refl, omega arith), ((refl, omega arith), ((refl, omega arith), tt))))
      (refl, omega arith) refl refl (omega arith) (omega arith)

replay-commit_example :
    apply_records same no_digits
      (records (commit (batch_all same no_digits calls begin_batch (new_engine two)).0).0)
      (new_engine two)
    ≡ (batch_all same no_digits calls begin_batch (new_engine two)).1
replay-commit_example =
    replay-commit same no_digits calls (new_engine two) (refl, (refl, (refl, (refl, (refl, tt)))))

abbrev filled : Engine
filled = (execute_all same no_digits calls (new_engine two)).1

filled-IsValid : IsValid filled
unfolding program
filled-IsValid =
    execute_all-IsWithin same no_digits 2 calls (new_engine two) (new_engine-IsValid two)
      (tt, (tt, (tt, (tt, (tt, tt)))))

rebuild_message_window-IsValid_example :
    IsValid
      (rebuild_message_window same no_digits (set_message_window_size (some (pos 0)) filled)).1
    × ((rebuild_message_window same no_digits
          (set_message_window_size (some (pos 0)) filled)).1.message_window_size
        ≡ normalize_message_window_size (some (pos 0)))
    × (0 < normalize_message_window_size (some (pos 0)))
rebuild_message_window-IsValid_example =
    rebuild_message_window-IsValid same no_digits (some (pos 0)) filled filled-IsValid

abbrev narrow : Engine
narrow = set_message_window_size (some (pos 1)) filled
