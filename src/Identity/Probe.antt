-- ===== src/Identity/Probe.antt =====
-- The probing finds a free number as long as there is one.
use rocket_cat_shell_linux.Base.{
  ℕ, zero, suc, ◌+◌, ◌≤◌, ◌<◌, ◌≡◌, ◌≢◌, refl, sym, ap, ◌∙◌, Option, none, some, List, [], ◌∷◌,
  nat_beq, length, arith, Bool-cases, inl, inr, ◌⊎◌, if◌then◌else◌,
}
use rocket_cat_shell_linux.Base.Result.{Result, ok, raise, ok-injective}
use rocket_cat_shell_linux.Identity.{
  Row, IdentityError, user_id_min, user_id_max, user_id_table_size, select_onebot, probe_id, probe,
}

abbrev pub IsNumber : ℕ → Type 0
IsNumber n = (user_id_min ≤ n) × (n ≤ user_id_max)

pub probe_id-IsNumber : (primary offset : ℕ) → IsNumber (probe_id primary offset)
unfolding probe_id
probe_id-IsNumber primary offset = (omega arith, omega arith)

pub probe_id-start : (primary : ℕ) → IsNumber primary → probe_id primary 0 ≡ primary
unfolding probe_id
probe_id-start primary h = omega arith

-- The offsets below the size of the table lead to different numbers.
probe_id-injective :
    (primary i j : ℕ)
    → i < user_id_table_size
    → j < user_id_table_size
    → probe_id primary i ≡ probe_id primary j
    → i ≡ j
unfolding probe_id
probe_id-injective primary i j h k e = omega arith

-- What the probing finds is free, and the number at its offset.
pub probe-free :
    (fuel primary offset n : ℕ) (l : List Row) (r : ℕ × ℕ)
    → n ≡ probe_id primary offset
    → probe fuel primary offset n l ≡ ok r
    → (select_onebot r.0 l ≡ none) × (r.0 ≡ probe_id primary r.1) × (r.1 < offset + fuel)
unfolding probe
probe-free zero primary offset n l r e h = absurd cc
probe-free (suc fuel) primary offset n l r e h =
    go (select_onebot n l) refl h (probe-free fuel primary (offset + 1) _ l r refl)
  where
    next : Option Row → Result IdentityError (ℕ × ℕ)
    next none = ok (n, offset)
    next (some occupant) = probe fuel primary (offset + 1) (probe_id primary (offset + 1)) l

    go :
        (o : Option Row)
        → select_onebot n l ≡ o
        → next o ≡ ok r
        → (probe fuel primary (offset + 1) (probe_id primary (offset + 1)) l ≡ ok r
            → (select_onebot r.0 l ≡ none)
              × (r.0 ≡ probe_id primary r.1)
              × (r.1 < offset + 1 + fuel))
        → (select_onebot r.0 l ≡ none) × (r.0 ≡ probe_id primary r.1) × (r.1 < offset + suc fuel)
    go none free h later = rw (sym (ok-injective h)) (free, e, omega arith)
    go (some occupant) taken h later = ((later h).0, (later h).1, omega (arith, (later h).2))

some-none : (r : Row) → some r ≢ none
some-none r e = cc

-- Where it raises, every number was taken.
probe-taken :
    (fuel primary offset n : ℕ) (l : List Row) (error : IdentityError)
    → n ≡ probe_id primary offset
    → probe fuel primary offset n l ≡ raise error
    → (i : ℕ) → i < fuel
    → select_onebot (probe_id primary (offset + i)) l ≢ none
unfolding probe
probe-taken zero primary offset n l error e h i small = absurd (omega arith)
probe-taken (suc fuel) primary offset n l error e h i small =
    go (select_onebot n l) refl h
      (probe-taken fuel primary (offset + 1) (probe_id primary (offset + 1)) l error refl) i small
  where
    next : Option Row → Result IdentityError (ℕ × ℕ)
    next none = ok (n, offset)
    next (some occupant) = probe fuel primary (offset + 1) (probe_id primary (offset + 1)) l

    go :
        (o : Option Row)
        → select_onebot n l ≡ o
        → next o ≡ raise error
        → (probe fuel primary (offset + 1) (probe_id primary (offset + 1)) l ≡ raise error
            → (i : ℕ) → i < fuel
            → select_onebot (probe_id primary (offset + 1 + i)) l ≢ none)
        → (i : ℕ) → i < suc fuel
        → select_onebot (probe_id primary (offset + i)) l ≢ none
    go none free h later i small taken = absurd cc
    go (some occupant) taken h later zero small free =
        some-none occupant
          (sym taken ∙ ap (λ m. select_onebot m l) (e ∙ ap (probe_id primary) (omega arith)) ∙ free)
    go (some occupant) taken h later (suc i) small free =
        later h i (omega arith)
          (ap (λ m. select_onebot (probe_id primary m) l) (omega (arith)) ∙ free)

-- The rows without the first that has a number.
remove_number : ℕ → List Row → List Row
remove_number n [] = []
remove_number n (r ∷ l) =
    let rest = remove_number n l in if nat_beq r.onebot_id n then l else r ∷ rest

length-remove_number :
    (n : ℕ) (l : List Row) → select_onebot n l ≢ none → length (remove_number n l) + 1 ≡ length l
unfolding remove_number select_onebot
length-remove_number n [] h = absurd (h refl)
length-remove_number n (r ∷ l) h = elim (Bool-cases (nat_beq r.onebot_id n)) [
  | inl y ↦ simp (remove_number, y) (omega arith)
  | inr differs ↦
      simp (remove_number, differs)
        (omega (arith, length-remove_number n l (λ e. h (simp (select_onebot, differs) e))))
]

select_onebot-remove_number :
    (n m : ℕ) (l : List Row) → m ≢ n → select_onebot m (remove_number n l) ≡ select_onebot m l
unfolding remove_number select_onebot
select_onebot-remove_number n m [] h = refl
select_onebot-remove_number n m (r ∷ l) h = ground (arith, select_onebot-remove_number n m l h)

-- So many numbers that differ are taken by at least so many rows.
pigeonhole :
    (primary n offset : ℕ) (l : List Row)
    → offset + n ≤ user_id_table_size
    → ((i : ℕ) → i < n → select_onebot (probe_id primary (offset + i)) l ≢ none)
    → n ≤ length l
pigeonhole primary zero offset l h taken = omega arith
pigeonhole primary (suc n) offset l h taken =
    let first = probe_id primary offset in
    omega (
      arith,
      length-remove_number first l (λ e.
          taken 0 (omega arith) (ap (λ m. select_onebot (probe_id primary m) l) (omega arith) ∙ e)),
      pigeonhole primary n (offset + 1) (remove_number first l) (omega arith) (λ i small e.
          taken (suc i) (omega arith) (
            ap (λ m. select_onebot (probe_id primary m) l) (omega arith)
            ∙ sym (
                select_onebot-remove_number first (probe_id primary (offset + 1 + i)) l (λ d.
                  ℕ_apart offset i (
                    probe_id-injective primary (offset + 1 + i) offset (omega arith) (omega arith)
                      d)))
            ∙ e)),
    )
  where
    ℕ_apart : (a i : ℕ) → a + 1 + i ≢ a
    ℕ_apart a i e = omega arith

Result-cases : {E A : Type 0} (r : Result E A) → ((e : E) × (r ≡ raise e)) ⊎ ((v : A) × (r ≡ ok v))
Result-cases (raise e) = inl (e, refl)
Result-cases (ok v) = inr (v, refl)

-- With fewer rows than numbers, the probing finds a number.
pub probe-total :
    (primary : ℕ) (l : List Row)
    → IsNumber primary
    → length l < user_id_table_size
    → (r : ℕ × ℕ) × (probe user_id_table_size primary 0 primary l ≡ ok r)
probe-total primary l h small = elim (Result-cases (probe user_id_table_size primary 0 primary l)) [
  | inr found ↦ found
  | inl (error, e) ↦ absurd (
      omega (
        arith,
        pigeonhole primary user_id_table_size 0 l (omega arith) (
            probe-taken user_id_table_size primary 0 primary l error
              (sym (probe_id-start primary h)) e),
      ))
]
