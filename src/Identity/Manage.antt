-- ===== src/Identity/Manage.antt =====
-- `override_onebot_id_sync`, `delete_mapping_sync` and `_touch_bot_user`, and what any call makes of the database.
use rocket_cat_shell_linux.Base.{
  ℕ, ◌+◌, Bool, true, false, ◌&&◌, ◌||◌, not, ltb, Option, none, some, List, [], ◌∷◌, nat_beq,
  if◌then◌else◌, ◌==◌, pair_key,
}
use rocket_cat_shell_linux.Base.Dict.{Dict, get}
use rocket_cat_shell_linux.Base.Int.{ℤ, pos, negsuc}
use rocket_cat_shell_linux.Base.Result.{Result, ok, raise, ◌>>=◌}
use rocket_cat_shell_linux.Base.Text.{Text, text_key}
use rocket_cat_shell_linux.Identity.{
  Row, Conflict, manual_primary_collision, Database, IdentityError, not_found, revision_changed,
  occupied, integrity, Profile, select_user, select_onebot, update_user, delete_user,
  compute_probe_offset, validate_onebot_user_id, upsert_bot_user, insert_conflict,
}
use rocket_cat_shell_linux.Identity.Methods.{row_of, committed, ensure_mapping, ensure_mappings}

-- The row of a user of the bot, by the join with `bot_users`.
unfoldable pub row_of_bot : Text → Text → Database → Result IdentityError Row
unfolding get row_of
row_of_bot bot u db = elim (get db.bot_users (bot, u)) [
  | none ↦ raise not_found
  | some seen ↦ row_of u db
]

unfoldable pub check_revision : Row → ℤ → Result IdentityError Unit
check_revision row (negsuc n) = raise revision_changed
check_revision row (pos n) = if nat_beq row.revision n then ok tt else raise revision_changed

-- `SET status='resolved'` where it is active and a test holds of it
unfoldable pub resolve_conflicts : (Conflict → Bool) → ℕ → List Conflict → List Conflict
resolve_conflicts test now [] = []
resolve_conflicts test now (c ∷ l) = resolved c.resolved_at ∷ resolve_conflicts test now l
  where
    resolved : Option ℕ → Conflict
    resolved (some time) = c
    resolved none = if test c then record c { resolved_at = some now } else c

abbrev pub overridden : ℕ → ℕ → Row → Row
overridden desired now r = record r {
  onebot_id = desired;
  probe_offset = compute_probe_offset r.primary_onebot_id desired;
  manual_override = true;
  last_seen_at = now;
  revision = r.revision + 1;
}

unfoldable pub text_leb : Text → Text → Bool
text_leb [] t = true
text_leb (c ∷ s) [] = false
text_leb (c ∷ s) (d ∷ t) = ltb c d || nat_beq c d && text_leb s t

-- `ORDER BY first_seen_at, user_id`
unfoldable pub insert_owner : Row → List Row → List Row
unfolding text_leb
insert_owner r [] = r ∷ []
insert_owner r (s ∷ l) =
    let rest = insert_owner r l in
    if ltb r.first_seen_at s.first_seen_at
      || nat_beq r.first_seen_at s.first_seen_at && text_leb r.user_id s.user_id
    then r ∷ s ∷ l
    else s ∷ rest

-- The other users whose primary number is the one that was chosen.
unfoldable pub primary_owners : Text → ℕ → List Row → List Row
unfolding insert_owner
primary_owners u desired [] = []
primary_owners u desired (owner ∷ l) =
    let rest = primary_owners u desired l in
    if nat_beq owner.primary_onebot_id desired && not (owner.user_id == u)
    then insert_owner owner rest
    else rest

unfoldable pub add_owners : List Row → Row → ℕ → ℕ → Database → Database
unfolding insert_conflict compute_probe_offset
add_owners [] row desired now db = db
add_owners (owner ∷ l) row desired now db = add_owners l row desired now (
    insert_conflict
      (record {
        conflict_id = 0;
        primary_onebot_id = desired;
        incumbent_user_id = owner.user_id;
        displaced_user_id = row.user_id;
        displaced_onebot_id = desired;
        probe_offset = compute_probe_offset row.primary_onebot_id desired;
        reason = manual_primary_collision;
        created_at = now;
        resolved_at = none;
      })
      db)

-- A number that another user has is refused.
unfoldable pub check_free : Text → ℕ → List Row → Result IdentityError Unit
unfolding select_onebot delete_user
check_free u desired l = elim (select_onebot desired (delete_user u l)) [
  | some occupant ↦ raise (occupied occupant)
  | none ↦ ok tt
]

-- `override_onebot_id_sync`
unfoldable pub override_onebot_id :
    Text → Text → ℤ → ℤ → ℕ → Database → Result IdentityError (Row × Database)
unfolding validate_onebot_user_id row_of_bot check_revision check_free update_user resolve_conflicts
    primary_owners add_owners row_of
override_onebot_id bot u onebot_id revision now db = do
  desired ← validate_onebot_user_id onebot_id
  row ← row_of_bot bot u db
  current ← check_revision row revision
  free ← check_free u desired db.rows
  let changed : Database = record db {
    rows = update_user u (overridden desired now) db.rows;
    conflicts = resolve_conflicts (λ c. c.displaced_user_id == u) now db.conflicts;
  }
  updated ← row_of u changed
  ok (updated, add_owners (primary_owners u desired changed.rows) row desired now changed)

-- `ON DELETE CASCADE`
unfoldable pub forget_user : Text → Dict (Text × Text) ℕ → Dict (Text × Text) ℕ
forget_user u [] = []
forget_user u (((bot, v), seen) ∷ l) =
    let rest = forget_user u l in if v == u then rest else ((bot, v), seen) ∷ rest

-- `delete_mapping_sync`
unfoldable pub delete_mapping :
    Text → Text → ℤ → ℕ → Database → Result IdentityError (Row × Database)
unfolding row_of_bot check_revision delete_user resolve_conflicts forget_user
delete_mapping bot u revision now db = do
  row ← row_of_bot bot u db
  current ← check_revision row revision
  ok (
    row,
    record db {
      rows = delete_user u db.rows;
      bot_users = forget_user u db.bot_users;
      conflicts =
          resolve_conflicts (λ c. c.incumbent_user_id == u || c.displaced_user_id == u) now
            db.conflicts;
    },
  )

-- `_touch_bot_user`; the user has to be there, by the foreign key.
unfoldable pub touch : Text → Text → ℕ → Database → Result IdentityError (Unit × Database)
unfolding select_user upsert_bot_user
touch bot u now db = elim (select_user u db.rows) [
  | none ↦ raise integrity
  | some row ↦ ok (tt, upsert_bot_user bot u now db)
]

pub data Call : Type 0 where
  ensure_one : Profile → Option ℤ → Text → ℕ → Call
  ensure_many : List Profile → Text → ℕ → Call
  touch_bot_user : Text → Text → ℕ → Call
  override_id : Text → Text → ℤ → ℤ → ℕ → Call
  delete : Text → Text → ℤ → ℕ → Call

module _ (digest : Text → ℕ) where
  -- What a call makes of the database.
  unfoldable pub run_call : Call → Database → Database
  unfolding committed ensure_mapping ensure_mappings touch override_onebot_id delete_mapping
  run_call (ensure_one p override bot now) db =
      committed (ensure_mapping digest p override bot now db) db
  run_call (ensure_many items bot now) db = committed (ensure_mappings digest items bot now db) db
  run_call (touch_bot_user bot u now) db = committed (touch bot u now db) db
  run_call (override_id bot u n revision now) db =
      committed (override_onebot_id bot u n revision now db) db
  run_call (delete bot u revision now) db = committed (delete_mapping bot u revision now db) db

  unfoldable pub run_calls : List Call → Database → Database
  unfolding run_call
  run_calls [] db = db
  run_calls (call ∷ l) db = run_calls l (run_call call db)
