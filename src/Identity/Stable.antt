-- ===== src/Identity/Stable.antt =====
-- A user keeps the number, and the number leads to the user.
use rocket_cat_shell_linux.Base.{
  ℕ, ◌≡◌, ◌≢◌, refl, sym, ◌∙◌, true, Option, none, some, List, [], ◌∷◌, ◌++◌, All, arith,
  Bool-cases, inl, inr, ◌==◌,
}
use rocket_cat_shell_linux.Base.Result.{ok}
use rocket_cat_shell_linux.Base.Text.{Text, text_key, text_beq_iff}
use rocket_cat_shell_linux.Identity.{
  Row, Database, Profile, user_id_table_size, select_user, select_onebot, update_user, delete_user,
  insert_row, new_row, refreshed, probe,
}
use rocket_cat_shell_linux.Identity.Methods.{ensure_mapping, ensure_mappings, with_user}
use rocket_cat_shell_linux.Identity.Manage.{
  Call, ensure_one, ensure_many, touch_bot_user, override_id, delete, run_call, run_calls,
  override_onebot_id, overridden, delete_mapping, touch,
}
use rocket_cat_shell_linux.Identity.Valid.{AreDistinct, IsTable}
use rocket_cat_shell_linux.Identity.Calls.{
  committed-keeps, override_onebot_id-Overrides, rows-delete_mapping, rows-touch, run_calls-IsTable,
}
use rocket_cat_shell_linux.Identity.Probe.{IsNumber}
use rocket_cat_shell_linux.Identity.Rows.{insert_row-ok, ensure_mapping-keeps, ensure_items-keeps}
use mathlib.Core.Path.{subst}

-- `SELECT onebot_id ... WHERE user_id=?`, and `SELECT user_id ... WHERE onebot_id=?`
abbrev pub number_in : Option Row → Option ℕ
number_in none = none
number_in (some r) = some r.onebot_id

abbrev user_in : Option Row → Option Text
user_in none = none
user_in (some r) = some r.user_id

abbrev pub number_of : Text → List Row → Option ℕ
number_of u l = number_in (select_user u l)

abbrev pub user_of : ℕ → List Row → Option Text
user_of n l = user_in (select_onebot n l)

number_of-append :
    (u : Text) (n : ℕ) (l m : List Row) → number_of u l ≡ some n → number_of u (l ++ m) ≡ some n
unfolding select_user
number_of-append u n [] m h = absurd cc
number_of-append u n (r ∷ l) m h = ground (arith, number_of-append u n l m)

number_of-update :
    (u v : Text) (n : ℕ) (f : Row → Row) (l : List Row)
    → ((r : Row) → (f r).user_id ≡ r.user_id)
    → ((r : Row)
        → (r.user_id == u) ≡ true
        → (r.user_id == v) ≡ true
        → (f r).onebot_id ≡ r.onebot_id)
    → number_of u l ≡ some n
    → number_of u (update_user v f l) ≡ some n
unfolding select_user update_user
number_of-update u v n f [] keeps same h = absurd cc
number_of-update u v n f (r ∷ l) keeps same h =
    ground (arith, keeps r, same r, number_of-update u v n f l keeps same)

number_of-delete :
    (u v : Text) (n : ℕ) (l : List Row)
    → v ≢ u
    → number_of u l ≡ some n
    → number_of u (delete_user v l) ≡ some n
unfolding select_user delete_user
number_of-delete u v n [] d h = absurd cc
number_of-delete u v n (r ∷ l) d h =
    ground (arith, text_beq_iff r.user_id u, text_beq_iff r.user_id v, number_of-delete u v n l d)

-- In a valid table the number of a user leads back.
pub user_of-number :
    (u : Text) (n : ℕ) (l : List Row)
    → AreDistinct l
    → number_of u l ≡ some n
    → user_of n l ≡ some u
unfolding select_user select_onebot
user_of-number u n [] d h = absurd cc
user_of-number u n (r ∷ l) d h = elim (Bool-cases (r.user_id == u)) [
  | inl y ↦ ground (arith, y, h, text_beq_iff r.user_id u)
  | inr m ↦
      let later : number_of u l ≡ some n = ground (arith, m, h) in
      let leads = user_of-number u n l d.2 later in ground (arith, leads, d.1)
]

-- A call that does not choose a number for the user, or delete the user.
abbrev pub Spares : Text → Call → Type 0
Spares u (override_id bot v k revision now) = v ≢ u
Spares u (delete bot v revision now) = v ≢ u
Spares u _ = Unit

module _ (u : Text) (n : ℕ) where
  abbrev HasNumber : List Row → Type 0
  HasNumber l = number_of u l ≡ some n

  insert_row-HasNumber :
      (p : Profile) (primary now : ℕ) (l m : List Row) (found : ℕ × ℕ)
      → IsNumber primary
      → probe user_id_table_size primary 0 primary l ≡ ok found
      → insert_row (new_row p primary found.0 found.1 now) l ≡ ok m
      → HasNumber l
      → HasNumber m
  insert_row-HasNumber p primary now l m found range h k t =
      subst HasNumber (insert_row-ok (new_row p primary found.0 found.1 now) l m k).2
        (number_of-append u n l _ t)

  refreshed-HasNumber :
      (p : Profile) (now : ℕ) (l : List Row)
      → HasNumber l
      → HasNumber (update_user p.user_id (refreshed p now) l)
  unfolding refreshed
  refreshed-HasNumber p now l t =
      number_of-update u p.user_id n (refreshed p now) l (λ r. refl) (λ r x y. refl) t

  module _ (digest : Text → ℕ) where
    run_call-HasNumber :
        (call : Call) (db : Database)
        → Spares u call
        → HasNumber db.rows
        → HasNumber (run_call digest call db).rows
    unfolding run_call ensure_mappings
    run_call-HasNumber (ensure_one p override bot now) db spares t =
        committed-keeps HasNumber (ensure_mapping digest p override bot now db) db
          (λ r h.
            ensure_mapping-keeps HasNumber insert_row-HasNumber refreshed-HasNumber digest p
              override bot now db r h t)
          t
    run_call-HasNumber (ensure_many items bot now) db spares t =
        committed-keeps HasNumber (ensure_mappings digest items bot now db) db
          (λ r h.
            ensure_items-keeps HasNumber insert_row-HasNumber refreshed-HasNumber digest
              (with_user items) bot now db r h t)
          t
    run_call-HasNumber (touch_bot_user bot v now) db spares t =
        committed-keeps HasNumber (touch bot v now db) db
          (λ r h. subst HasNumber (sym (rows-touch bot v now db r h)) t) t
    run_call-HasNumber (override_id bot v k revision now) db spares t =
        committed-keeps HasNumber (override_onebot_id bot v k revision now db) db
          (λ r h.
            let o = override_onebot_id-Overrides bot v k revision now db r h in
            subst HasNumber (sym o.6) (
              number_of-update u v n (overridden o.0 now) db.rows (λ s. refl)
                (λ s x y.
                  absurd (
                    spares (sym ((text_beq_iff s.user_id v).0 y) ∙ (text_beq_iff s.user_id u).0 x)))
                t))
          t
    run_call-HasNumber (delete bot v revision now) db spares t =
        committed-keeps HasNumber (delete_mapping bot v revision now db) db
          (λ r h.
            subst HasNumber (sym (rows-delete_mapping bot v revision now db r h))
              (number_of-delete u v n db.rows spares t))
          t

    run_calls-HasNumber :
        (calls : List Call) (db : Database)
        → All (Spares u) calls
        → HasNumber db.rows
        → HasNumber (run_calls digest calls db).rows
    unfolding run_calls
    run_calls-HasNumber [] db spares t = t
    run_calls-HasNumber (call ∷ l) db spares t =
        run_calls-HasNumber l (run_call digest call db) spares.1
          (run_call-HasNumber call db spares.0 t)

    -- A user who has a number keeps it, whatever is called but choosing a number for the user or deleting
    -- the user, and the number leads back to the user and to no one else.
    pub number_stays :
        (calls : List Call) (db : Database)
        → IsTable db.rows
        → number_of u db.rows ≡ some n
        → All (Spares u) calls
        → (number_of u (run_calls digest calls db).rows ≡ some n)
          × (user_of n (run_calls digest calls db).rows ≡ some u)
    number_stays calls db t h spares =
        let keeps = run_calls-HasNumber calls db spares h in
        (
          keeps,
          user_of-number u n (run_calls digest calls db).rows
              (run_calls-IsTable digest calls db t).0 keeps,
        )
