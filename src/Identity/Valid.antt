-- ===== src/Identity/Valid.antt =====
-- No two users have one number, and every number is one of eleven digits, at its offset.
use rocket_cat_shell_linux.Base.{
  ℕ, ◌<◌, ◌≡◌, refl, sym, ap, ◌∙◌, true, false, none, some, List, [], ◌∷◌, ◌++◌, nat_beq, All,
  arith, Bool-cases, inl, inr, ◌==◌,
}
use rocket_cat_shell_linux.Base.Text.{Text, text_key, text_beq_iff}
use rocket_cat_shell_linux.Identity.{
  Row, user_id_table_size, select_user, select_onebot, update_user, delete_user, probe_id,
}
use rocket_cat_shell_linux.Identity.Probe.{IsNumber}

-- Users and numbers lead to each other.
abbrev pub AreDistinct : List Row → Type 0
AreDistinct [] = Unit
AreDistinct (r ∷ l) =
    (select_user r.user_id l ≡ none) × (select_onebot r.onebot_id l ≡ none) × AreDistinct l

abbrev pub IsPlaced : Row → Type 0
IsPlaced r =
    IsNumber r.primary_onebot_id
    × (r.probe_offset < user_id_table_size)
    × (r.onebot_id ≡ probe_id r.primary_onebot_id r.probe_offset)

abbrev pub IsTable : List Row → Type 0
IsTable l = AreDistinct l × All IsPlaced l

-- The rows of a user, by the head.
pub select_user-first :
    (u : Text) (r s : Row) (l : List Row)
    → (r.user_id == u) ≡ true
    → select_user u (r ∷ l) ≡ some s
    → r ≡ s
unfolding select_user
select_user-first u r s l y h = ground (arith, y, h)

pub select_user-later :
    (u : Text) (r s : Row) (l : List Row)
    → (r.user_id == u) ≡ false
    → select_user u (r ∷ l) ≡ some s
    → select_user u l ≡ some s
unfolding select_user
select_user-later u r s l n h = ground (arith, n, h)

pub select_user-cons :
    (u : Text) (r : Row) (l : List Row)
    → select_user u (r ∷ l) ≡ none
    → ((r.user_id == u) ≡ false) × (select_user u l ≡ none)
unfolding select_user
select_user-cons u r l h = ground arith

pub select_onebot-cons :
    (n : ℕ) (r : Row) (l : List Row)
    → select_onebot n (r ∷ l) ≡ none
    → (nat_beq r.onebot_id n ≡ false) × (select_onebot n l ≡ none)
unfolding select_onebot
select_onebot-cons n r l h = ground arith

pub other_way : (u v : Text) → (u == v) ≡ false → (v == u) ≡ false
other_way u v h = ground (arith, text_beq_iff u v, text_beq_iff v u)

select_user-append :
    (u : Text) (l : List Row) (r : Row)
    → select_user u l ≡ none
    → (r.user_id == u) ≡ false
    → select_user u (l ++ (r ∷ [])) ≡ none
unfolding select_user
select_user-append u [] r h d = ground arith
select_user-append u (s ∷ l) r h d = ground (arith, select_user-append u l r)

select_onebot-append :
    (n : ℕ) (l : List Row) (r : Row)
    → select_onebot n l ≡ none
    → nat_beq r.onebot_id n ≡ false
    → select_onebot n (l ++ (r ∷ [])) ≡ none
unfolding select_onebot
select_onebot-append n [] r h d = ground arith
select_onebot-append n (s ∷ l) r h d = ground (arith, select_onebot-append n l r)

pub AreDistinct-append :
    (l : List Row) (r : Row)
    → AreDistinct l
    → select_user r.user_id l ≡ none
    → select_onebot r.onebot_id l ≡ none
    → AreDistinct (l ++ (r ∷ []))
unfolding select_user select_onebot
AreDistinct-append [] r d h k = (refl, refl, tt)
AreDistinct-append (s ∷ l) r d h k =
    let u = select_user-cons r.user_id s l h in
    let n = select_onebot-cons r.onebot_id s l k in
    (
      select_user-append s.user_id l r d.0 (other_way s.user_id r.user_id u.0),
      select_onebot-append s.onebot_id l r d.1 (ground (arith, n.0)),
      AreDistinct-append l r d.2 u.1 n.1,
    )

-- An update that keeps users keeps who is missing.
select_user-update :
    (u v : Text) (f : Row → Row) (l : List Row)
    → ((r : Row) → (f r).user_id ≡ r.user_id)
    → select_user v l ≡ none
    → select_user v (update_user u f l) ≡ none
unfolding select_user update_user
select_user-update u v f [] keeps h = refl
select_user-update u v f (r ∷ l) keeps h =
    let c = select_user-cons v r l h in
    let rest = select_user-update u v f l keeps c.1 in
    elim (Bool-cases (r.user_id == u)) [
      | inl y ↦ simp (y, keeps r, c.0) rest
      | inr n ↦ simp (n, c.0) rest
    ]

-- Nothing is changed where the user is missing.
pub update_user-absent :
    (u : Text) (f : Row → Row) (l : List Row) → select_user u l ≡ none → update_user u f l ≡ l
unfolding select_user update_user
update_user-absent u f [] h = refl
update_user-absent u f (r ∷ l) h =
    let c = select_user-cons u r l h in simp c.0 (ap (◌∷◌ r) (update_user-absent u f l c.1))

-- The same of the numbers, if the user's is another one than the number asked for.
select_onebot-update :
    (u : Text) (n : ℕ) (f : Row → Row) (l : List Row)
    → AreDistinct l
    → ((r : Row) → select_user u l ≡ some r → nat_beq (f r).onebot_id n ≡ false)
    → select_onebot n l ≡ none
    → select_onebot n (update_user u f l) ≡ none
unfolding select_onebot select_user update_user
select_onebot-update u n f [] d other h = refl
select_onebot-update u n f (r ∷ l) d other h =
    let c = select_onebot-cons n r l h in
    elim (Bool-cases (r.user_id == u)) [
      | inl y ↦
          let e = (text_beq_iff r.user_id u).0 y in
          simp
            (
              y,
              other r (simp (select_user, y) refl),
              update_user-absent u f l (ap (λ x. select_user x l) (sym e) ∙ d.0),
            )
            c.1
      | inr m ↦
          simp (m, c.0)
            (select_onebot-update u n f l d.2 (λ s e. other s (simp (select_user, m) e)) c.1)
    ]

pub delete_user-absent : (u : Text) (l : List Row) → select_user u l ≡ none → delete_user u l ≡ l
unfolding select_user delete_user
delete_user-absent u [] h = refl
delete_user-absent u (r ∷ l) h =
    let c = select_user-cons u r l h in simp c.0 (ap (◌∷◌ r) (delete_user-absent u l c.1))

select_user-delete :
    (u v : Text) (l : List Row) → select_user v l ≡ none → select_user v (delete_user u l) ≡ none
unfolding select_user delete_user
select_user-delete u v [] h = refl
select_user-delete u v (r ∷ l) h = ground (arith, select_user-delete u v l)

select_onebot-delete :
    (u : Text) (n : ℕ) (l : List Row)
    → select_onebot n l ≡ none
    → select_onebot n (delete_user u l) ≡ none
unfolding select_onebot delete_user
select_onebot-delete u n [] h = refl
select_onebot-delete u n (r ∷ l) h = ground (arith, select_onebot-delete u n l)

pub delete_user-IsTable : (u : Text) (l : List Row) → IsTable l → IsTable (delete_user u l)
unfolding delete_user
delete_user-IsTable u [] h = h
delete_user-IsTable u (r ∷ l) (d, p) =
    let rest = delete_user-IsTable u l (d.2, p.1) in
    elim (Bool-cases (r.user_id == u)) [
      | inl y ↦ simp (delete_user, y) rest
      | inr n ↦
          simp (delete_user, n)
            (
              (
                select_user-delete u r.user_id l d.0,
                select_onebot-delete u r.onebot_id l d.1,
                rest.0,
              ),
              (p.0, rest.1),
            )
    ]

-- The row of one user gets another number, which no other user has.
pub update_user-IsTable :
    (u : Text) (f : Row → Row) (l : List Row)
    → ((r : Row) → (f r).user_id ≡ r.user_id)
    → ((r : Row) → IsPlaced r → (r.user_id == u) ≡ true → IsPlaced (f r))
    → ((r : Row)
        → select_user u l ≡ some r
        → select_onebot (f r).onebot_id (delete_user u l) ≡ none)
    → IsTable l
    → IsTable (update_user u f l)
unfolding update_user select_user delete_user
update_user-IsTable u f [] keeps places free h = h
update_user-IsTable u f (r ∷ l) keeps places free (d, p) = elim (Bool-cases (r.user_id == u)) [
  | inl y ↦
      let absent : select_user u l ≡ none =
        ap (λ x. select_user x l) (sym ((text_beq_iff r.user_id u).0 y)) ∙ d.0 in
      let deleted : delete_user u (r ∷ l) ≡ l =
        simp (delete_user, y) (delete_user-absent u l absent) in
      simp (y, update_user-absent u f l absent, keeps r)
        (
          (
            d.0,
            ap (select_onebot (f r).onebot_id) (sym deleted) ∙ free r (simp (select_user, y) refl),
            d.2,
          ),
          (places r p.0 y, p.1),
        )
  | inr m ↦
      let deleted : delete_user u (r ∷ l) ≡ r ∷ delete_user u l = simp (delete_user, m) refl in
      let other : (s : Row)
          → select_user u l ≡ some s
          → (nat_beq r.onebot_id (f s).onebot_id ≡ false)
            × (select_onebot (f s).onebot_id (delete_user u l) ≡ none) =
        λ s e.
          select_onebot-cons (f s).onebot_id r (delete_user u l)
            (ap (select_onebot (f s).onebot_id) (sym deleted) ∙ free s (simp (select_user, m) e)) in
      let rest = update_user-IsTable u f l keeps places (λ s e. (other s e).1) (d.2, p.1) in
      simp m (
        (
          select_user-update u r.user_id f l keeps d.0,
          select_onebot-update u r.onebot_id f l d.2 (λ s e. ground (arith, (other s e).0)) d.1,
          rest.0,
        ),
        (p.0, rest.1),
      )
]
