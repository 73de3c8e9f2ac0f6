-- ===== src/Journal/Tests.antt =====
-- A journal of two records, with a pickle that puts a byte before a record's own bytes.
use rocket_cat_shell_linux.Base.{◌≡◌, refl, true, Option, none, some, List, [], ◌∷◌, arith, take}
use rocket_cat_shell_linux.Base.Result.{ok}
use rocket_cat_shell_linux.Journal.{Bytes, Pickle, end_of_file, iter_records, write_records}
use rocket_cat_shell_linux.Journal.Crash.{iter_records-write_records}

abbrev unmark : Bytes → Option Bytes
unmark [] = none
unmark (b ∷ s) = some s

abbrev marked : Pickle
marked = record {
  Object = Bytes;
  is_dict = λ o. true;
  dumps = λ o. 128 ∷ o;
  loads = unmark;
  loads-dumps = λ o. refl;
  dumps_pos = λ o. omega arith;
}

abbrev records : List Bytes
records = (7 ∷ 8 ∷ []) ∷ [] ∷ []

abbrev journal : Bytes
journal = 3 ∷ 0 ∷ 0 ∷ 0 ∷ 128 ∷ 7 ∷ 8 ∷ 1 ∷ 0 ∷ 0 ∷ 0 ∷ 128 ∷ []

abbrev longer : Bytes
longer = 3 ∷ 0 ∷ 0 ∷ 0 ∷ 128 ∷ 7 ∷ 8 ∷ 1 ∷ 0 ∷ 0 ∷ 0 ∷ 128 ∷ 2 ∷ 0 ∷ 0 ∷ 0 ∷ 128 ∷ 9 ∷ []

written : write_records marked [] records ≡ ok journal
unfolding write_records
written = refl

iter_records-write_records_example :
    (iter_records marked (some journal) ≡ record { records = records; stop = end_of_file })
    × ((iter_records marked (some (take 17 longer))).records ≡ records)
unfolding write_records
iter_records-write_records_example =
    iter_records-write_records marked records ((refl, omega arith), ((refl, omega arith), tt))
      journal refl (9 ∷ []) longer 17 (refl, omega arith) refl (omega arith) (omega arith)
