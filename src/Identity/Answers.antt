-- ===== src/Identity/Answers.antt =====
-- `ensure_mapping_sync` answers with a row of the user, as long as there are fewer users than numbers.
use rocket_cat_shell_linux.Base.{
  ℕ, ◌<◌, ◌≡◌, refl, sym, ap, ◌∙◌, false, Option, none, some, List, [], ◌∷◌, ◌++◌, length, arith,
}
use rocket_cat_shell_linux.Base.Result.{Result, ok, raise, ◌>>=◌, bind-ok}
use rocket_cat_shell_linux.Base.Text.{Text, text_key, text_beq_iff, is_empty}
use rocket_cat_shell_linux.Identity.{
  Row, Database, IdentityError, Profile, integrity, user_id_table_size, select_user, select_onebot,
  insert_row, compute_primary_onebot_id, refreshed, new_row, upsert_bot_user, record_collision,
}
use rocket_cat_shell_linux.Identity.Methods.{
  insert_user, refresh_user, ensure_user, primary_of, ensure_mapping,
}
use rocket_cat_shell_linux.Identity.Probe.{IsNumber, probe_id-start, probe-free, probe-total}
use rocket_cat_shell_linux.Identity.Calls.{ensure_mapping-IsTable}
use rocket_cat_shell_linux.Identity.Rows.{
  rows-upsert_bot_user, rows-record_collision, select_user-row_of, select_user-update,
}
use rocket_cat_shell_linux.Identity.Stable.{number_in, user_of, user_of-number}
use rocket_cat_shell_linux.Identity.Valid.{IsTable}

select_user-append :
    (r : Row) (l : List Row)
    → select_user r.user_id l ≡ none
    → select_user r.user_id (l ++ (r ∷ [])) ≡ some r
unfolding select_user
select_user-append r [] h = ground (arith, text_beq_iff r.user_id r.user_id)
select_user-append r (s ∷ l) h = ground (arith, select_user-append r l)

insert_row-absent :
    (r : Row) (l : List Row)
    → select_user r.user_id l ≡ none
    → select_onebot r.onebot_id l ≡ none
    → insert_row r l ≡ ok (l ++ (r ∷ []))
unfolding insert_row
insert_row-absent r l a b = go (select_user r.user_id l) (select_onebot r.onebot_id l) a b
  where
    go :
        (o i : Option Row)
        → o ≡ none
        → i ≡ none
        → Path
            (Result IdentityError (List Row))
            (elim o [
              | some other ↦ raise integrity
              | none ↦ elim i [ some other ↦ raise integrity | none ↦ ok (l ++ (r ∷ [])) ]
            ])
            (ok (l ++ (r ∷ [])))
    go none none a b = refl
    go none (some s) a b = absurd cc
    go (some s) i a b = absurd cc

-- A user who is not there gets a row with the number that is found.
insert_user-answers :
    (p : Profile) (primary : ℕ) (bot : Text) (now : ℕ) (db : Database)
    → IsNumber primary
    → length db.rows < user_id_table_size
    → select_user p.user_id db.rows ≡ none
    → (row : Row) × (next : Database) × (insert_user p primary bot now db ≡ ok next)
      × (select_user p.user_id next.rows ≡ some row)
unfolding insert_user new_row
insert_user-answers p primary bot now db range small absent =
    let found = probe-total primary db.rows range small in
    let place =
      probe-free user_id_table_size primary 0 primary db.rows found.0
        (sym (probe_id-start primary range)) found.1 in
    let new = new_row p primary found.0.0 found.0.1 now in
    let rows = db.rows ++ (new ∷ []) in
    let next =
      record_collision (select_onebot primary db.rows) p.user_id primary found.0.0 found.0.1 now
        (upsert_bot_user bot p.user_id now (record db { rows = rows })) in
    let same : next.rows ≡ rows =
      rows-record_collision (select_onebot primary db.rows) p.user_id primary found.0.0 found.0.1
        now _
      ∙ rows-upsert_bot_user bot p.user_id now _ in
    (
      new,
      next,
      bind-ok _ found.1 (bind-ok _ (insert_row-absent new db.rows absent place.0) refl),
      ap (select_user p.user_id) same ∙ select_user-append new db.rows absent,
    )

-- The row of a user who is there is brought up to date.
refresh_user-answers :
    (p : Profile) (bot : Text) (now : ℕ) (db : Database) (row : Row)
    → select_user p.user_id db.rows ≡ some row
    → select_user p.user_id (refresh_user p bot now db).rows ≡ some (refreshed p now row)
unfolding refresh_user refreshed
refresh_user-answers p bot now db row h =
    ap (select_user p.user_id) (rows-upsert_bot_user bot p.user_id now _)
    ∙ select_user-update p.user_id (refreshed p now) (λ r. refl) db.rows row h

ensure_user-answers :
    (p : Profile) (primary : Result IdentityError ℕ) (n : ℕ) (bot : Text) (now : ℕ) (db : Database)
    → primary ≡ ok n
    → IsNumber n
    → length db.rows < user_id_table_size
    → (row : Row) × (next : Database) × (ensure_user p primary bot now db ≡ ok next)
      × (select_user p.user_id next.rows ≡ some row)
unfolding ensure_user
ensure_user-answers p primary n bot now db e range small = go (select_user p.user_id db.rows) refl
  where
    answer : Option Row → Result IdentityError Database
    answer (some row) = ok (refresh_user p bot now db)
    answer none = (do m ← primary; insert_user p m bot now db)

    go :
        (o : Option Row)
        → select_user p.user_id db.rows ≡ o
        → (row : Row) × (next : Database) × (ensure_user p primary bot now db ≡ ok next)
          × (select_user p.user_id next.rows ≡ some row)
    go none h =
        let new = insert_user-answers p n bot now db range small h in
        (new.0, new.1, ap answer h ∙ bind-ok _ e new.2, new.3)
    go (some row) h = (
      refreshed p now row,
      refresh_user p bot now db,
      ap answer h,
      refresh_user-answers p bot now db row h,
    )

module _ (digest : Text → ℕ) where
  -- The call for a named user answers with the row that the user then has, and the number of the row
  -- leads to the user.
  pub ensure_mapping-answers :
      (p : Profile) (bot : Text) (now : ℕ) (db : Database)
      → is_empty p.user_id ≡ false
      → IsTable db.rows
      → length db.rows < user_id_table_size
      → (r : Row × Database) × (ensure_mapping digest p none bot now db ≡ ok r)
        × (select_user p.user_id r.1.rows ≡ some r.0)
        × (user_of r.0.onebot_id r.1.rows ≡ some p.user_id)
  unfolding ensure_mapping primary_of compute_primary_onebot_id
  ensure_mapping-answers p bot now db named t small =
      let range : IsNumber (compute_primary_onebot_id (digest p.user_id)) =
        (omega arith, omega arith) in
      let primary = primary_of digest none p.user_id in
      let answer =
        ensure_user-answers p primary (compute_primary_onebot_id (digest p.user_id)) bot now db refl
          range small in
      let call : ensure_mapping digest p none bot now db ≡ ok (answer.0, answer.1) =
        simp (ensure_mapping, named)
          (bind-ok _ answer.2
            (bind-ok _ (select_user-row_of p.user_id answer.1 answer.0 answer.3) refl)) in
      let valid = ensure_mapping-IsTable digest p none bot now db (answer.0, answer.1) call t in
      (
        (answer.0, answer.1),
        call,
        answer.3,
        user_of-number p.user_id answer.0.onebot_id answer.1.rows valid.0 (ap number_in answer.3),
      )
