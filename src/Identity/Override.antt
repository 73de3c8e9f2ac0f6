-- ===== src/Identity/Override.antt =====
-- What `override_onebot_id_sync` answers, and which rows it changes.
use rocket_cat_shell_linux.Base.{ℕ, ◌≡◌, none, some, List, pair_key}
use rocket_cat_shell_linux.Base.Int.{pos}
use rocket_cat_shell_linux.Base.Result.{Result, ok, raise}
use rocket_cat_shell_linux.Base.Text.{Text, text_key}
use rocket_cat_shell_linux.Identity.{
  Row, Database, occupied, select_user, select_onebot, delete_user,
}
use rocket_cat_shell_linux.Identity.Manage.{overridden, check_free, override_onebot_id}
use rocket_cat_shell_linux.Identity.Stable.{user_of}

-- The two answers of the search for another user who has the number.
abbrev Refuses : Text → ℕ → List Row → Type 0
Refuses u n l =
    (occupant : Row) × (select_onebot n (delete_user u l) ≡ some occupant)
    × (check_free u n l ≡ raise (occupied occupant))

abbrev Allows : Text → ℕ → List Row → Type 0
Allows u n l = (select_onebot n (delete_user u l) ≡ none) × (check_free u n l ≡ ok tt)

module _ (bot u : Text) (n now : ℕ) (db : Database) (row : Row) where
  -- The number is refused, because of the user who has it.
  abbrev pub IsRefused : Type 0
  IsRefused =
      (occupant : Row) × (select_onebot n (delete_user u db.rows) ≡ some occupant)
      × (override_onebot_id bot u (pos n) (pos row.revision) now db ≡ raise (occupied occupant))

  -- The row of the user is changed and answered, and no other; the number leads to the user.
  abbrev pub IsTaken : Row × Database → Type 0
  IsTaken r =
      (override_onebot_id bot u (pos n) (pos row.revision) now db ≡ ok r)
      × (r.0 ≡ overridden n now row)
      × (select_user u r.1.rows ≡ some (overridden n now row))
      × (delete_user u r.1.rows ≡ delete_user u db.rows)
      × (user_of n r.1.rows ≡ some u)
