-- ===== src/Identity/Methods.antt =====
-- `ensure_mapping_sync` and `ensure_mappings_sync`: a user gets a row, or the row is brought up to date.
use rocket_cat_shell_linux.Base.{ℕ, Option, none, some, List, [], ◌∷◌, if◌then◌else◌, pair_key}
use rocket_cat_shell_linux.Base.Int.{ℤ}
use rocket_cat_shell_linux.Base.Result.{Result, ok, raise, ◌>>=◌}
use rocket_cat_shell_linux.Base.Text.{Text, text_key, is_empty}
use rocket_cat_shell_linux.Identity.{
  Row, Database, IdentityError, empty_user_id, not_found, Profile, user_id_table_size, select_user,
  select_onebot, update_user, insert_row, compute_primary_onebot_id, validate_onebot_user_id, probe,
  refreshed, new_row, upsert_bot_user, record_collision,
}

-- The branch of a user without a row.
unfoldable pub insert_user : Profile → ℕ → Text → ℕ → Database → Result IdentityError Database
unfolding probe insert_row new_row upsert_bot_user record_collision
insert_user p primary bot now db = do
  found ← probe user_id_table_size primary 0 primary db.rows
  rows ← insert_row (new_row p primary found.0 found.1 now) db.rows
  ok (
      record_collision (select_onebot primary db.rows) p.user_id primary found.0 found.1 now
        (upsert_bot_user bot p.user_id now (record db { rows = rows })))

-- The branch of a user with a row.
unfoldable pub refresh_user : Profile → Text → ℕ → Database → Database
unfolding update_user refreshed upsert_bot_user
refresh_user p bot now db =
    upsert_bot_user bot p.user_id now
      (record db { rows = update_user p.user_id (refreshed p now) db.rows })

-- What both calls do for a user, in a transaction.
unfoldable pub ensure_user :
    Profile → Result IdentityError ℕ → Text → ℕ → Database → Result IdentityError Database
unfolding select_user insert_user refresh_user
ensure_user p primary_id bot now db = elim (select_user p.user_id db.rows) [
  | some row ↦ ok (refresh_user p bot now db)
  | none ↦ (do primary ← primary_id; insert_user p primary bot now db)
]

-- `_row_to_mapping` of the row that is read again.
unfoldable pub row_of : Text → Database → Result IdentityError Row
unfolding select_user
row_of u db = elim (select_user u db.rows) [ none ↦ raise not_found | some row ↦ ok row ]

-- A transaction that raises is rolled back.
unfoldable pub committed : {A : Type 0} → Result IdentityError (A × Database) → Database → Database
committed (raise error) db = db
committed (ok (result, changed)) db = changed

-- The items with a user.
unfoldable pub with_user : List Profile → List Profile
with_user [] = []
with_user (p ∷ items) = let rest = with_user items in if is_empty p.user_id then rest else p ∷ rest

module _ (digest : Text → ℕ) where
  -- The number by `primary_override`, or of the digest.
  unfoldable pub primary_of : Option ℤ → Text → Result IdentityError ℕ
  unfolding validate_onebot_user_id compute_primary_onebot_id
  primary_of none u = ok (compute_primary_onebot_id (digest u))
  primary_of (some n) u = validate_onebot_user_id n

  -- `ensure_mapping_sync` of a user who is not cached; the profile and the bot are stripped.
  unfoldable pub ensure_mapping :
      Profile → Option ℤ → Text → ℕ → Database → Result IdentityError (Row × Database)
  unfolding ensure_user primary_of row_of
  ensure_mapping p override bot now db = if is_empty p.user_id then raise empty_user_id else do
    changed ← ensure_user p (primary_of override p.user_id) bot now db
    row ← row_of p.user_id changed
    ok (row, changed)

  -- The loop of `ensure_mappings_sync`.
  unfoldable pub ensure_items :
      List Profile → Text → ℕ → Database → Result IdentityError (List Row × Database)
  unfolding ensure_user primary_of row_of
  ensure_items [] bot now db = ok ([], db)
  ensure_items (p ∷ items) bot now db = do
    changed ← ensure_user p (primary_of none p.user_id) bot now db
    row ← row_of p.user_id changed
    rest ← ensure_items items bot now changed
    ok (row ∷ rest.0, rest.1)

  -- `ensure_mappings_sync`
  unfoldable pub ensure_mappings :
      List Profile → Text → ℕ → Database → Result IdentityError (List Row × Database)
  unfolding ensure_items with_user
  ensure_mappings items bot now db = ensure_items (with_user items) bot now db
