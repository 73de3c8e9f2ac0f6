-- ===== src/Identity/Tests.antt =====
-- Two users whose digests are the same, and instances of the theorems about them.
use rocket_cat_shell_linux.Base.{
  ℕ, ◌≡◌, ◌≢◌, refl, true, false, none, some, List, [], ◌∷◌, length, arith, map,
}
use rocket_cat_shell_linux.Base.Dict.{get, put}
use rocket_cat_shell_linux.Base.Int.{pos}
use rocket_cat_shell_linux.Base.Result.{ok, raise}
use rocket_cat_shell_linux.Base.Text.{Text, text_beq, text_beq_iff}
use rocket_cat_shell_linux.Identity.{
  Row, Conflict, Database, Profile, revision_changed, invalid_onebot_id, select_user, select_onebot,
  update_user, delete_user, insert_row, compute_primary_onebot_id, compute_probe_offset,
  validate_onebot_user_id, probe, probe_id, refreshed, new_row, upsert_bot_user, insert_conflict,
  record_collision,
}
use rocket_cat_shell_linux.Identity.Methods.{
  insert_user, refresh_user, ensure_user, row_of, committed, primary_of, ensure_mapping,
  ensure_items, with_user, ensure_mappings,
}
use rocket_cat_shell_linux.Identity.Manage.{
  row_of_bot, check_revision, resolve_conflicts, text_leb, insert_owner, primary_owners, add_owners,
  check_free, override_onebot_id, forget_user, delete_mapping, touch, Call, ensure_one, ensure_many,
  touch_bot_user, override_id, delete, run_call, run_calls,
}
use rocket_cat_shell_linux.Identity.Answers.{ensure_mapping-answers}
use rocket_cat_shell_linux.Identity.Calls.{run_calls-IsTable}
use rocket_cat_shell_linux.Identity.Stable.{number_of, user_of, number_stays}
use rocket_cat_shell_linux.Identity.Valid.{IsTable}

program : Unit {0}
unfolding select_user select_onebot update_user delete_user insert_row compute_primary_onebot_id
    compute_probe_offset validate_onebot_user_id probe probe_id refreshed new_row upsert_bot_user
    insert_conflict record_collision insert_user refresh_user ensure_user row_of row_of_bot
    committed primary_of ensure_mapping ensure_items with_user ensure_mappings check_revision
    resolve_conflicts text_leb insert_owner primary_owners add_owners check_free override_onebot_id
    forget_user delete_mapping touch run_call run_calls text_beq get put
program = tt

abbrev a_text : Text
a_text = 97 ∷ []

abbrev b_text : Text
b_text = 98 ∷ []

abbrev the_bot : Text
the_bot = 120 ∷ []

-- the last number of the table, for every user
abbrev last_digest : Text → ℕ
last_digest u = 89999999999

abbrev named : Text → Profile
named u = record { user_id = u; username = u; nickname = []; is_bot = false; synthetic = false }

abbrev empty : Database
empty = record { rows = []; bot_users = []; conflicts = []; next_conflict_id = 1 }

abbrev two_users : List Call
two_users =
    ensure_one (named a_text) none the_bot 3
    ∷ ensure_many (named b_text ∷ named [] ∷ []) the_bot 4
    ∷ []

abbrev both : Database
both = run_calls last_digest two_users empty

-- the second user is probed past the end of the table to its start
numbers_given :
    (number_of a_text both.rows ≡ some 99999999999)
    × (number_of b_text both.rows ≡ some 10000000000)
unfolding program
numbers_given = (refl, refl)

conflict_recorded :
    map {B = Text × Text}
      (λ (c : Conflict). (c.incumbent_user_id, c.displaced_user_id))
      both.conflicts
    ≡ (a_text, b_text) ∷ []
unfolding program
conflict_recorded = refl

-- a stale revision changes nothing
stale : override_onebot_id the_bot a_text (pos 10000000005) (pos 7) 9 both ≡ raise revision_changed
unfolding program
stale = refl

too_small : override_onebot_id the_bot a_text (pos 5) (pos 1) 9 both ≡ raise invalid_onebot_id
unfolding program
too_small = refl

deleted : number_of a_text (run_call last_digest (delete the_bot a_text (pos 1) 9) both).rows ≡ none
unfolding program
deleted = refl

-- a user without a row is not a user of the bot
untouched : (run_call last_digest (touch_bot_user the_bot [] 9) both).bot_users ≡ both.bot_users
unfolding program
untouched = refl

empty-IsTable : IsTable []
empty-IsTable = (tt, tt)

both-IsTable : IsTable both.rows
unfolding program
both-IsTable = (
  (refl, refl, (refl, refl, tt)),
  (
    ((omega arith, omega arith), omega arith, refl),
    (((omega arith, omega arith), omega arith, refl), tt),
  ),
)

run_calls-IsTable_example : IsTable both.rows
run_calls-IsTable_example = run_calls-IsTable last_digest two_users empty empty-IsTable

abbrev later : List Call
later =
    override_id the_bot a_text (pos 10000000005) (pos 1) 8 ∷ delete the_bot a_text (pos 2) 9 ∷ []

apart : a_text ≢ b_text
unfolding text_beq
apart e = let same : false ≡ true = (text_beq_iff a_text b_text).1 e in absurd cc

number_given : number_of b_text both.rows ≡ some 10000000000
unfolding program
number_given = refl

number_stays_example :
    (number_of b_text (run_calls last_digest later both).rows ≡ some 10000000000)
    × (user_of 10000000000 (run_calls last_digest later both).rows ≡ some b_text)
number_stays_example =
    number_stays b_text 10000000000 last_digest later both both-IsTable number_given
      (apart, (apart, tt))

few : length both.rows ≡ 2
unfolding program
few = refl

ensure_mapping-answers_example :
    (r : Row × Database) × (ensure_mapping last_digest (named (99 ∷ [])) none the_bot 5 both ≡ ok r)
    × (select_user (99 ∷ []) r.1.rows ≡ some r.0)
    × (user_of r.0.onebot_id r.1.rows ≡ some (99 ∷ []))
ensure_mapping-answers_example =
    ensure_mapping-answers last_digest (named (99 ∷ [])) the_bot 5 both refl both-IsTable
      (omega (arith, few))

abbrev first_row : Row
first_row = new_row (named a_text) 99999999999 99999999999 0 3
