-- ===== src/Identity/Calls.antt =====
-- Every call keeps the table of the users valid.
use rocket_cat_shell_linux.Base.{
  ℕ, ◌≡◌, refl, sym, ap, ◌∙◌, Option, none, some, List, [], ◌∷◌, All-append, arith, ◌==◌, pair_key,
}
use mathlib.Core.Path.{subst}
use rocket_cat_shell_linux.Base.Int.{ℤ, pos, negsuc}
use rocket_cat_shell_linux.Base.Result.{Result, ok, raise, bind-eq-ok, ok-injective}
use rocket_cat_shell_linux.Base.Text.{Text, text_key}
use rocket_cat_shell_linux.Identity.{
  Row, Database, IdentityError, Profile, integrity, occupied, user_id_table_size, select_user,
  select_onebot, update_user, delete_user, insert_row, compute_probe_offset, probe_id, probe,
  validate_onebot_user_id, refreshed, new_row, upsert_bot_user,
}
use rocket_cat_shell_linux.Identity.Methods.{
  row_of, committed, ensure_mapping, with_user, ensure_mappings,
}
use rocket_cat_shell_linux.Identity.Manage.{
  row_of_bot, check_revision, resolve_conflicts, overridden, primary_owners, check_free,
  override_onebot_id, delete_mapping, touch, Call, ensure_one, ensure_many, touch_bot_user,
  override_id, delete, run_call, run_calls,
}
use rocket_cat_shell_linux.Identity.Probe.{IsNumber, probe_id-start, probe-free}
use rocket_cat_shell_linux.Identity.Valid.{
  IsPlaced, IsTable, AreDistinct-append, update_user-IsTable, delete_user-IsTable,
}
use rocket_cat_shell_linux.Identity.Rows.{
  rows-upsert_bot_user, rows-add_owners, own_number, insert_row-ok, ensure_mapping-keeps,
  ensure_items-keeps,
}

insert_row-IsTable :
    (p : Profile) (primary now : ℕ) (l m : List Row) (found : ℕ × ℕ)
    → IsNumber primary
    → probe user_id_table_size primary 0 primary l ≡ ok found
    → insert_row (new_row p primary found.0 found.1 now) l ≡ ok m
    → IsTable l
    → IsTable m
unfolding new_row
insert_row-IsTable p primary now l m found range h k t =
    let new = insert_row-ok (new_row p primary found.0 found.1 now) l m k in
    let place =
      probe-free user_id_table_size primary 0 primary l found (sym (probe_id-start primary range))
        h in
    subst IsTable new.2 (
      AreDistinct-append l _ t.0 new.0 new.1,
      All-append IsPlaced l _ t.1 ((range, place.2, place.1), tt),
    )

refreshed-IsTable :
    (p : Profile) (now : ℕ) (l : List Row)
    → IsTable l
    → IsTable (update_user p.user_id (refreshed p now) l)
unfolding refreshed
refreshed-IsTable p now l t =
    update_user-IsTable p.user_id (refreshed p now) l (λ r. refl) (λ r h y. h)
      (λ r h. own_number p.user_id l r t.0 h) t

-- The number that was chosen is at the offset that is computed for it.
overridden-IsPlaced :
    (desired now : ℕ) (r : Row)
    → IsNumber desired
    → IsPlaced r
    → IsPlaced (overridden desired now r)
unfolding compute_probe_offset probe_id
overridden-IsPlaced desired now r n p = (p.0, omega arith, omega (arith, p.0.0, p.0.1))

pub check_free-ok :
    (u : Text) (desired : ℕ) (l : List Row) (v : Unit)
    → check_free u desired l ≡ ok v
    → select_onebot desired (delete_user u l) ≡ none
unfolding check_free
check_free-ok u desired l v h = go (select_onebot desired (delete_user u l)) refl h
  where
    go :
        (o : Option Row)
        → select_onebot desired (delete_user u l) ≡ o
        → Path
            (Result IdentityError Unit)
            (elim o [ some r ↦ raise (occupied r) | none ↦ ok tt ])
            (ok v)
        → select_onebot desired (delete_user u l) ≡ none
    go none e h = e
    go (some r) e h = absurd cc

pub validate_onebot_user_id-IsNumber :
    (k : ℤ) (n : ℕ) → validate_onebot_user_id k ≡ ok n → IsNumber n
unfolding validate_onebot_user_id
validate_onebot_user_id-IsNumber (negsuc k) n h = absurd cc
validate_onebot_user_id-IsNumber (pos k) n h = ground arith

abbrev pub changed_rows : Text → ℕ → ℕ → Database → Database
changed_rows u desired now db = record db {
  rows = update_user u (overridden desired now) db.rows;
  conflicts = resolve_conflicts (λ c. c.displaced_user_id == u) now db.conflicts;
}

-- What an override that succeeds has found, and what it makes of the rows.
abbrev pub Overrides : Text → Text → ℤ → ℤ → ℕ → Database → Row × Database → Type 0
Overrides bot u k revision now db r =
    (desired : ℕ) × (row : Row) × (validate_onebot_user_id k ≡ ok desired)
    × (row_of_bot bot u db ≡ ok row)
    × (check_revision row revision ≡ ok tt)
    × (select_onebot desired (delete_user u db.rows) ≡ none)
    × (r.1.rows ≡ update_user u (overridden desired now) db.rows)

pub override_onebot_id-Overrides :
    (bot u : Text) (k revision : ℤ) (now : ℕ) (db : Database) (r : Row × Database)
    → override_onebot_id bot u k revision now db ≡ ok r
    → Overrides bot u k revision now db r
unfolding override_onebot_id
override_onebot_id-Overrides bot u k revision now db r h =
    let desired = bind-eq-ok (validate_onebot_user_id k) _ h in
    let row = bind-eq-ok (row_of_bot bot u db) _ desired.2 in
    let current = bind-eq-ok (check_revision row.0 revision) _ row.2 in
    let free = bind-eq-ok (check_free u desired.0 db.rows) _ current.2 in
    let updated = bind-eq-ok (row_of u (changed_rows u desired.0 now db)) _ free.2 in
    (
      desired.0,
      row.0,
      desired.1,
      row.1,
      current.1,
      check_free-ok u desired.0 db.rows free.0 free.1,
      ap (λ (q : Row × Database). q.1.rows) (sym (ok-injective updated.2))
          ∙ rows-add_owners (primary_owners u desired.0 (changed_rows u desired.0 now db).rows)
              row.0 desired.0 now (changed_rows u desired.0 now db),
    )

override_onebot_id-IsTable :
    (bot u : Text) (k revision : ℤ) (now : ℕ) (db : Database) (r : Row × Database)
    → override_onebot_id bot u k revision now db ≡ ok r
    → IsTable db.rows
    → IsTable r.1.rows
override_onebot_id-IsTable bot u k revision now db r h t =
    let o = override_onebot_id-Overrides bot u k revision now db r h in
    subst IsTable (sym o.6) (
      update_user-IsTable u (overridden o.0 now) db.rows (λ s. refl)
        (λ s placed y.
          overridden-IsPlaced o.0 now s (validate_onebot_user_id-IsNumber k o.0 o.2) placed)
        (λ s e. o.5) t)

pub rows-delete_mapping :
    (bot u : Text) (revision : ℤ) (now : ℕ) (db : Database) (r : Row × Database)
    → delete_mapping bot u revision now db ≡ ok r
    → r.1.rows ≡ delete_user u db.rows
unfolding delete_mapping
rows-delete_mapping bot u revision now db r h =
    let row = bind-eq-ok (row_of_bot bot u db) _ h in
    let current = bind-eq-ok (check_revision row.0 revision) _ row.2 in
    ap (λ (q : Row × Database). q.1.rows) (sym (ok-injective current.2))

pub rows-touch :
    (bot u : Text) (now : ℕ) (db : Database) (r : Unit × Database)
    → touch bot u now db ≡ ok r
    → r.1.rows ≡ db.rows
unfolding touch
rows-touch bot u now db r h = go (select_user u db.rows) h
  where
    go :
        (o : Option Row)
        → Path
            (Result IdentityError (Unit × Database))
            (elim o [ none ↦ raise integrity | some row ↦ ok (tt, upsert_bot_user bot u now db) ])
            (ok r)
        → r.1.rows ≡ db.rows
    go none h = absurd cc
    go (some row) h =
        ap (λ (q : Unit × Database). q.1.rows) (sym (ok-injective h))
        ∙ rows-upsert_bot_user bot u now db

pub committed-keeps :
    {A : Type 0} (P : List Row → Type 0) (result : Result IdentityError (A × Database))
    (db : Database)
    → ((r : A × Database) → result ≡ ok r → P r.1.rows)
    → P db.rows
    → P (committed result db).rows
unfolding committed
committed-keeps P (raise e) db keeps t = t
committed-keeps P (ok r) db keeps t = keeps r refl

module _ (digest : Text → ℕ) where
  pub ensure_mapping-IsTable :
      (p : Profile) (override : Option ℤ) (bot : Text) (now : ℕ) (db : Database)
      (r : Row × Database)
      → ensure_mapping digest p override bot now db ≡ ok r
      → IsTable db.rows
      → IsTable r.1.rows
  ensure_mapping-IsTable = ensure_mapping-keeps IsTable insert_row-IsTable refreshed-IsTable digest

  run_call-IsTable :
      (call : Call) (db : Database) → IsTable db.rows → IsTable (run_call digest call db).rows
  unfolding run_call ensure_mappings
  run_call-IsTable (ensure_one p override bot now) db t =
      committed-keeps IsTable (ensure_mapping digest p override bot now db) db
        (λ r h. ensure_mapping-IsTable p override bot now db r h t) t
  run_call-IsTable (ensure_many items bot now) db t =
      committed-keeps IsTable (ensure_mappings digest items bot now db) db
        (λ r h.
          ensure_items-keeps IsTable insert_row-IsTable refreshed-IsTable digest (with_user items)
            bot now db r h t)
        t
  run_call-IsTable (touch_bot_user bot u now) db t =
      committed-keeps IsTable (touch bot u now db) db
        (λ r h. subst IsTable (sym (rows-touch bot u now db r h)) t) t
  run_call-IsTable (override_id bot u k revision now) db t =
      committed-keeps IsTable (override_onebot_id bot u k revision now db) db
        (λ r h. override_onebot_id-IsTable bot u k revision now db r h t) t
  run_call-IsTable (delete bot u revision now) db t =
      committed-keeps IsTable (delete_mapping bot u revision now db) db
        (λ r h.
          subst IsTable (sym (rows-delete_mapping bot u revision now db r h))
            (delete_user-IsTable u db.rows t))
        t

  -- Whatever is called: users and numbers lead to each other, and every number has eleven digits and
  -- stands at its offset from the primary number.
  pub run_calls-IsTable :
      (calls : List Call) (db : Database)
      → IsTable db.rows
      → IsTable (run_calls digest calls db).rows
  unfolding run_calls
  run_calls-IsTable [] db t = t
  run_calls-IsTable (call ∷ l) db t =
      run_calls-IsTable l (run_call digest call db) (run_call-IsTable call db t)
