-- ===== src/Dispatcher/Users.antt =====
-- The locks and the counts of their users fit the workers.
use rocket_cat_shell_linux.Base.{
  ℕ, ◌+◌, ◌-◌, ◌≡◌, ◌≢◌, ap, ◌∙◌, true, false, none, some, List, ◌∷◌, ◌++◌, arith, if◌then◌else◌,
  ◌==◌, Bool-cases, Option-cases, inl, inr, same_refl, ltb,
}
use rocket_cat_shell_linux.Base.Dict.{Dict, get, remove, get-put, get-remove}
use rocket_cat_shell_linux.Base.Text.{Text, text_key, text_beq_iff}
use rocket_cat_shell_linux.Dispatcher.{Worker, idle, waiting, Locks, get_or, tally, enter, leave}
use rocket_cat_shell_linux.Dispatcher.Counts.{
  uses, mismatch, misses, tally-append, tally-misses, uses-misses,
}

-- The counts of the users are right, and the locks are those of the targets in use.
pub record AreFitting (l : List Worker) (q : Locks) : Type 0 where
  pub users : (k : Text) → get_or q.target_lock_users k 0 ≡ tally (uses k) l
  pub positive : (k : Text) → get q.target_lock_users k ≢ some 0
  pub matching : tally (misses q.target_locks) l ≡ 0
  pub kept : (k : Text) → get q.target_lock_users k ≡ none → get q.target_locks k ≡ none

get-enter :
    (k j : Text) (q : Locks)
    → get (enter k q).1.target_locks j
      ≡ (if k == j then some (enter k q).0 else get q.target_locks j)
unfolding enter
get-enter k j q = ground (arith, get-put q.target_locks k j q.next_lock, text_beq_iff k j)

enter-known :
    (k : Text) (n : ℕ) (q : Locks)
    → get q.target_locks k ≡ some n
    → (enter k q).1.target_locks ≡ q.target_locks
unfolding enter
enter-known k n q h = ground arith

misses-enter :
    (k : Text) (l : List Worker) (q : Locks)
    → tally (misses q.target_locks) l ≡ 0
    → tally (misses (enter k q).1.target_locks) l ≡ 0
misses-enter k l q m = elim (Option-cases (get q.target_locks k)) [
  | inr (n, h) ↦ ap (λ (d : Dict Text ℕ). tally (misses d) l) (enter-known k n q h) ∙ m
  | inl h ↦
      tally-misses q.target_locks (enter k q).1.target_locks k l
        (λ j e. ground (arith, get-enter k j q, e))
        (omega (arith, uses-misses q.target_locks k l h, m))
      ∙ m
]

misses_entered : (k : Text) (q : Locks) → mismatch (enter k q).1.target_locks k (enter k q).0 ≡ 0
misses_entered k q = ground (arith, get-enter k k q, same_refl k)

pub enter-AreFitting :
    (k : Text) (a b : List Worker) (q : Locks)
    → AreFitting (a ++ (idle ∷ b)) q
    → AreFitting (a ++ (waiting k (enter k q).0 ∷ b)) (enter k q).1
unfolding enter
enter-AreFitting k a b q f = record {
  users = λ j. ground (
    arith,
    f.users j,
    f.users k,
    get-put q.target_lock_users k j (get_or q.target_lock_users k 0 + 1),
    tally-append (uses j) a idle b,
    tally-append (uses j) a (waiting k (enter k q).0) b,
    text_beq_iff k j,
  );
  positive = λ j.
      ground
        (arith, get-put q.target_lock_users k j (get_or q.target_lock_users k 0 + 1), f.positive j);
  matching = omega (
    arith,
    tally-append (misses (enter k q).1.target_locks) a idle b,
    tally-append (misses (enter k q).1.target_locks) a (waiting k (enter k q).0) b,
    misses-enter k (a ++ (idle ∷ b)) q f.matching,
    misses_entered k q,
  );
  kept = λ j h. ground (
    arith,
    h,
    get-put q.target_lock_users k j (get_or q.target_lock_users k 0 + 1),
    get-enter k j q,
    f.kept j,
  );
}

module _ (k : Text) (w v : Worker) (a b : List Worker) (q : Locks) (f : AreFitting (a ++ (w ∷ b)) q)
    (hw : (j : Text) → uses j w ≡ (if k == j then 1 else 0)) (hv : (j : Text) → uses j v ≡ 0)
    (hm : (d : Dict Text ℕ) → misses d v ≡ 0) where
  left_one :
      (j : Text)
      → tally (uses j) (a ++ (v ∷ b)) + (if k == j then 1 else 0) ≡ get_or q.target_lock_users j 0
  left_one j =
      omega (arith, f.users j, tally-append (uses j) a w b, tally-append (uses j) a v b, hw j, hv j)

  left_misses : tally (misses q.target_locks) (a ++ (v ∷ b)) ≡ 0
  left_misses = omega (
    arith,
    f.matching,
    tally-append (misses q.target_locks) a w b,
    tally-append (misses q.target_locks) a v b,
    hm q.target_locks,
  )

  left_own : get_or q.target_lock_users k 1 ≡ tally (uses k) (a ++ (v ∷ b)) + 1
  left_own = ground (arith, left_one k, same_refl k)

  leave_shared :
      ltb 1 (get_or q.target_lock_users k 1) ≡ true → AreFitting (a ++ (v ∷ b)) (leave k q)
  unfolding leave
  leave_shared more =
      rw (leave, more)
        (record {
          users = λ j. ground (
            arith,
            left_one j,
            left_own,
            text_beq_iff k j,
            get-put q.target_lock_users k j (get_or q.target_lock_users k 1 - 1),
          );
          positive = λ j. ground (
            arith,
            f.positive j,
            more,
            get-put q.target_lock_users k j (get_or q.target_lock_users k 1 - 1),
          );
          matching = left_misses;
          kept = λ j h. ground (
            arith,
            h,
            f.kept j,
            get-put q.target_lock_users k j (get_or q.target_lock_users k 1 - 1),
          );
        })

  leave_last :
      ltb 1 (get_or q.target_lock_users k 1) ≡ false → AreFitting (a ++ (v ∷ b)) (leave k q)
  unfolding leave
  leave_last last =
      rw (leave, last)
        (record {
          users = λ j. ground (
            arith,
            left_one j,
            left_own,
            last,
            text_beq_iff k j,
            get-remove q.target_lock_users k j,
          );
          positive = λ j. ground (arith, f.positive j, get-remove q.target_lock_users k j);
          matching =
              tally-misses q.target_locks (remove q.target_locks k) k (a ++ (v ∷ b))
                (λ j e. ground (arith, get-remove q.target_locks k j, e))
                (ground (arith, left_own, last))
              ∙ left_misses;
          kept = λ j h. ground (
            arith,
            h,
            f.kept j,
            get-remove q.target_lock_users k j,
            get-remove q.target_locks k j,
          );
        })

  pub leave-AreFitting : AreFitting (a ++ (v ∷ b)) (leave k q)
  leave-AreFitting = elim (Bool-cases (ltb 1 (get_or q.target_lock_users k 1))) [
    | inl more ↦ leave_shared more
    | inr last ↦ leave_last last
  ]
