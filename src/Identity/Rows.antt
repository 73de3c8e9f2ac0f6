-- ===== src/Identity/Rows.antt =====
-- What the calls do to the rows of the users.
use rocket_cat_shell_linux.Base.{
  ℕ, ◌≡◌, refl, sym, ap, ◌∙◌, Bool, true, false, Option, none, some, List, [], ◌∷◌, ◌++◌, nat_beq,
  arith, Bool-cases, inl, inr, if◌then◌else◌, ◌==◌, pair_key,
}
use mathlib.Core.Path.{subst}
use rocket_cat_shell_linux.Base.Int.{ℤ, pos, negsuc}
use rocket_cat_shell_linux.Base.Result.{Result, ok, raise, ◌>>=◌, bind-eq-ok, ok-injective}
use rocket_cat_shell_linux.Base.Text.{Text, text_key, text_beq_iff, is_empty}
use rocket_cat_shell_linux.Identity.{
  Row, Database, IdentityError, Profile, empty_user_id, not_found, integrity, user_id_table_size,
  select_user, select_onebot, update_user, delete_user, insert_row, compute_primary_onebot_id,
  probe, validate_onebot_user_id, refreshed, new_row, upsert_bot_user, insert_conflict,
  record_collision,
}
use rocket_cat_shell_linux.Identity.Methods.{
  insert_user, refresh_user, ensure_user, row_of, primary_of, ensure_mapping, ensure_items,
}
use rocket_cat_shell_linux.Identity.Manage.{add_owners}
use rocket_cat_shell_linux.Identity.Probe.{IsNumber}
use rocket_cat_shell_linux.Identity.Valid.{
  AreDistinct, select_user-first, select_user-later, select_onebot-cons, delete_user-absent,
}

-- What the other tables are written with leaves the users alone.
pub rows-upsert_bot_user :
    (bot u : Text) (now : ℕ) (db : Database) → (upsert_bot_user bot u now db).rows ≡ db.rows
unfolding upsert_bot_user
rows-upsert_bot_user bot u now db = elim (Bool-cases (is_empty bot)) [
  | inl y ↦ simp (upsert_bot_user, y) refl
  | inr n ↦ simp (upsert_bot_user, n) refl
]

pub rows-record_collision :
    (o : Option Row) (u : Text) (primary n offset now : ℕ) (db : Database)
    → (record_collision o u primary n offset now db).rows ≡ db.rows
unfolding record_collision insert_conflict
rows-record_collision none u primary n offset now db = refl
rows-record_collision (some r) u primary n offset now db = refl

pub rows-add_owners :
    (l : List Row) (row : Row) (desired now : ℕ) (db : Database)
    → (add_owners l row desired now db).rows ≡ db.rows
unfolding add_owners insert_conflict
rows-add_owners [] row desired now db = refl
rows-add_owners (r ∷ l) row desired now db = rows-add_owners l row desired now _

-- A number that is missing is not the number of a user who is there.
select_onebot-user :
    (n : ℕ) (u : Text) (l : List Row) (r : Row)
    → select_onebot n l ≡ none
    → select_user u l ≡ some r
    → nat_beq r.onebot_id n ≡ false
unfolding select_onebot select_user
select_onebot-user n u [] r h k = absurd cc
select_onebot-user n u (s ∷ l) r h k =
    let c = select_onebot-cons n s l h in
    elim (Bool-cases (s.user_id == u)) [
      | inl y ↦ ap (λ (t : Row). nat_beq t.onebot_id n) (sym (select_user-first u s r l y k)) ∙ c.0
      | inr m ↦ select_onebot-user n u l r c.1 (select_user-later u s r l m k)
    ]

-- No other user has the number of a user.
pub own_number :
    (u : Text) (l : List Row) (r : Row)
    → AreDistinct l
    → select_user u l ≡ some r
    → select_onebot r.onebot_id (delete_user u l) ≡ none
unfolding select_user delete_user select_onebot
own_number u [] r d h = absurd cc
own_number u (s ∷ l) r d h = elim (Bool-cases (s.user_id == u)) [
  | inl y ↦
      let absent : select_user u l ≡ none =
        ap (λ x. select_user x l) (sym ((text_beq_iff s.user_id u).0 y)) ∙ d.0 in
      simp (delete_user, y)
        (ap (λ (t : Row). select_onebot t.onebot_id (delete_user u l))
            (sym (select_user-first u s r l y h))
          ∙ ap (select_onebot s.onebot_id) (delete_user-absent u l absent)
          ∙ d.1)
  | inr m ↦
      let k = select_user-later u s r l m h in
      let apart : nat_beq s.onebot_id r.onebot_id ≡ false =
        ground (arith, select_onebot-user s.onebot_id u l r d.1 k) in
      simp (delete_user, m) (simp apart (own_number u l r d.2 k))
]

pub insert_row-ok :
    (r : Row) (l m : List Row)
    → insert_row r l ≡ ok m
    → (select_user r.user_id l ≡ none) × (select_onebot r.onebot_id l ≡ none) × (l ++ (r ∷ []) ≡ m)
unfolding insert_row
insert_row-ok r l m h = go (select_user r.user_id l) (select_onebot r.onebot_id l) refl refl h
  where
    go :
        (o i : Option Row)
        → select_user r.user_id l ≡ o
        → select_onebot r.onebot_id l ≡ i
        → Path
            (Result IdentityError (List Row))
            (elim o [
              | some other ↦ raise integrity
              | none ↦ elim i [ some other ↦ raise integrity | none ↦ ok (l ++ (r ∷ [])) ]
            ])
            (ok m)
        → (select_user r.user_id l ≡ none)
          × (select_onebot r.onebot_id l ≡ none)
          × (l ++ (r ∷ []) ≡ m)
    go none none a b h = (a, b, ok-injective h)
    go none (some other) a b h = absurd cc
    go (some other) i a b h = absurd cc

pub select_user-row_of :
    (u : Text) (db : Database) (row : Row) → select_user u db.rows ≡ some row → row_of u db ≡ ok row
unfolding row_of
select_user-row_of u db row h =
    ap
      (λ (o : Option Row).
        let found : Result IdentityError Row = elim o [ none ↦ raise not_found | some r ↦ ok r ] in
        found)
      h

-- The row of a user after an update of it.
pub select_user-update :
    (u : Text) (f : Row → Row)
    → ((r : Row) → (f r).user_id ≡ r.user_id)
    → (l : List Row) (row : Row) → select_user u l ≡ some row
    → select_user u (update_user u f l) ≡ some (f row)
unfolding select_user update_user
select_user-update u f keeps [] row h = absurd cc
select_user-update u f keeps (r ∷ l) row h =
    ground (arith, keeps r, select_user-update u f keeps l row)

primary_of-IsNumber :
    (digest : Text → ℕ) (override : Option ℤ) (u : Text) (n : ℕ)
    → primary_of digest override u ≡ ok n
    → IsNumber n
unfolding primary_of compute_primary_onebot_id validate_onebot_user_id
primary_of-IsNumber digest none u n h = subst IsNumber (ok-injective h) (omega arith, omega arith)
primary_of-IsNumber digest (some (negsuc k)) u n h = absurd cc
primary_of-IsNumber digest (some (pos k)) u n h = ground arith

-- What a new row and a refreshed row keep of the table, ensuring users keeps.
module _ (P : List Row → Type 0)
    (on_insert : (p : Profile) (primary now : ℕ) (l m : List Row) (found : ℕ × ℕ)
      → IsNumber primary
      → probe user_id_table_size primary 0 primary l ≡ ok found
      → insert_row (new_row p primary found.0 found.1 now) l ≡ ok m
      → P l
      → P m)
    (on_refresh : (p : Profile) (now : ℕ) (l : List Row)
      → P l
      → P (update_user p.user_id (refreshed p now) l)) where
  insert_user-keeps :
      (p : Profile) (primary : ℕ) (bot : Text) (now : ℕ) (db next : Database)
      → IsNumber primary
      → insert_user p primary bot now db ≡ ok next
      → P db.rows
      → P next.rows
  unfolding insert_user
  insert_user-keeps p primary bot now db next range h t =
      let found = bind-eq-ok (probe user_id_table_size primary 0 primary db.rows) _ h in
      let inserted =
        bind-eq-ok (insert_row (new_row p primary found.0.0 found.0.1 now) db.rows) _ found.2 in
      let same_rows : inserted.0 ≡ next.rows =
        sym (
          rows-record_collision (select_onebot primary db.rows) p.user_id primary found.0.0
            found.0.1 now _
          ∙ rows-upsert_bot_user bot p.user_id now _)
        ∙ ap (λ (d : Database). d.rows) (ok-injective inserted.2) in
      subst P same_rows
        (on_insert p primary now db.rows inserted.0 found.0 range found.1 inserted.1 t)

  ensure_user-keeps :
      (p : Profile) (primary : Result IdentityError ℕ) (bot : Text) (now : ℕ) (db next : Database)
      → ((n : ℕ) → primary ≡ ok n → IsNumber n)
      → ensure_user p primary bot now db ≡ ok next
      → P db.rows
      → P next.rows
  unfolding ensure_user refresh_user
  ensure_user-keeps p primary bot now db next range h t = go (select_user p.user_id db.rows) h
    where
      go :
          (o : Option Row)
          → Path
              (Result IdentityError Database)
              (elim o [
                | some row ↦ ok (refresh_user p bot now db)
                | none ↦ (do n ← primary; insert_user p n bot now db)
              ])
              (ok next)
          → P next.rows
      go (some row) h =
          subst (λ (d : Database). P d.rows) (ok-injective h)
            (subst P (sym (rows-upsert_bot_user bot p.user_id now _)) (on_refresh p now db.rows t))
      go none h =
          let n = bind-eq-ok primary _ h in
          insert_user-keeps p n.0 bot now db next (range n.0 n.1) n.2 t

  module _ (digest : Text → ℕ) where
    pub ensure_mapping-keeps :
        (p : Profile) (override : Option ℤ) (bot : Text) (now : ℕ) (db : Database)
        (r : Row × Database)
        → ensure_mapping digest p override bot now db ≡ ok r
        → P db.rows
        → P r.1.rows
    unfolding ensure_mapping
    ensure_mapping-keeps p override bot now db r h t = go (is_empty p.user_id) h
      where
        go :
            (b : Bool)
            → Path
                (Result IdentityError (Row × Database))
                (if b then raise empty_user_id else (do
                  changed ← ensure_user p (primary_of digest override p.user_id) bot now db
                  row ← row_of p.user_id changed
                  ok (row, changed)))
                (ok r)
            → P r.1.rows
        go true h = absurd cc
        go false h =
            let changed =
              bind-eq-ok (ensure_user p (primary_of digest override p.user_id) bot now db) _ h in
            let row = bind-eq-ok (row_of p.user_id changed.0) _ changed.2 in
            subst (λ (q : Row × Database). P q.1.rows) (ok-injective row.2)
              (ensure_user-keeps p (primary_of digest override p.user_id) bot now db changed.0
                (primary_of-IsNumber digest override p.user_id) changed.1 t)

    pub ensure_items-keeps :
        (items : List Profile) (bot : Text) (now : ℕ) (db : Database) (r : List Row × Database)
        → ensure_items digest items bot now db ≡ ok r
        → P db.rows
        → P r.1.rows
    unfolding ensure_items
    ensure_items-keeps [] bot now db r h t =
        subst (λ (q : List Row × Database). P q.1.rows) (ok-injective h) t
    ensure_items-keeps (p ∷ items) bot now db r h t =
        let changed =
          bind-eq-ok (ensure_user p (primary_of digest none p.user_id) bot now db) _ h in
        let row = bind-eq-ok (row_of p.user_id changed.0) _ changed.2 in
        let rest = bind-eq-ok (ensure_items digest items bot now changed.0) _ row.2 in
        subst (λ (q : List Row × Database). P q.1.rows) (ok-injective rest.2)
          (ensure_items-keeps items bot now changed.0 rest.0 rest.1 (
            ensure_user-keeps p (primary_of digest none p.user_id) bot now db changed.0
              (primary_of-IsNumber digest none p.user_id) changed.1 t))
