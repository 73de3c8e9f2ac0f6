-- ===== src/Dispatcher/Valid.antt =====
-- What every state of the dispatcher has, and that each operation keeps it.
use rocket_cat_shell_linux.Base.{
  ℕ, ◌+◌, ◌-◌, ◌≤◌, ◌≡◌, refl, sym, ap, ◌∙◌, List, ◌∷◌, ◌++◌, length, arith, suc, zero,
  if◌then◌else◌, ◌==◌, Bool-cases, inl, inr, length-append, min, max,
}
use rocket_cat_shell_linux.Base.Dict.{Dict, get}
use rocket_cat_shell_linux.Base.Text.{Text, text_key}
use mathlib.Core.Path.{subst}
use rocket_cat_shell_linux.Dispatcher.{
  Dispatcher, Worker, ActionRequest, Locks, end_request, tally, new_dispatcher, leave,
  ensure_workers, idle_workers,
}
use rocket_cat_shell_linux.Dispatcher.Counts.{
  uses, runs, is_active, misses, tally-append, tally-idle_workers,
}
use rocket_cat_shell_linux.Dispatcher.Users.{AreFitting, leave-AreFitting}

-- Beyond the locks: one action per target, and the bounds on the workers and the queue.
pub record IsValid (s : Dispatcher) : Type 0 where
  pub fitting : AreFitting s.workers s.locks
  pub exclusive : (k : Text) → tally (runs k) s.workers ≤ 1
  pub active : s.active_count ≡ tally is_active s.workers
  pub few : length s.workers ≤ 8
  pub bounded : length s.queue ≤ 256

pub new_dispatcher-IsValid : IsValid new_dispatcher
unfolding new_dispatcher get
new_dispatcher-IsValid = record {
  fitting = record { users = λ k. refl; positive = λ k h. cc; matching = refl; kept = λ k h. refl };
  exclusive = λ k. omega arith;
  active = refl;
  few = omega arith;
  bounded = omega arith;
}

pub length-idle_workers : (n : ℕ) → length (idle_workers n) ≡ n
length-idle_workers zero = refl
length-idle_workers (suc n) = omega (arith, length-idle_workers n)

AreFitting-idle_workers :
    (l : List Worker) (n : ℕ) (q : Locks) → AreFitting l q → AreFitting (l ++ idle_workers n) q
AreFitting-idle_workers l n q f = record {
  users = λ k. f.users k ∙ sym (tally-idle_workers (uses k) l n refl);
  positive = f.positive;
  matching = tally-idle_workers (misses q.target_locks) l n refl ∙ f.matching;
  kept = f.kept;
}

pub ensure_workers-IsValid : (s : Dispatcher) → IsValid s → IsValid (ensure_workers s)
unfolding ensure_workers
ensure_workers-IsValid s v =
    let desired : ℕ = min 8 (max 1 (length s.queue + s.active_count)) in
    let n : ℕ = desired - length s.workers in
    elim (Bool-cases s.is_running) [
      | inl up ↦
          simp (ensure_workers, up)
            (record {
              fitting = AreFitting-idle_workers s.workers n s.locks v.fitting;
              exclusive =
                  λ k. omega (arith, tally-idle_workers (runs k) s.workers n refl, v.exclusive k);
              active = v.active ∙ sym (tally-idle_workers is_active s.workers n refl);
              few =
                  omega
                    (arith, length-append s.workers (idle_workers n), length-idle_workers n, v.few);
              bounded = v.bounded;
            })
      | inr down ↦ simp (ensure_workers, down) v
    ]

module _ (s : Dispatcher) (v : IsValid s) (a b : List Worker) (w : Worker)
    (e : s.workers ≡ a ++ (w ∷ b)) where
  pub fitting_here : AreFitting (a ++ (w ∷ b)) s.locks
  fitting_here = subst (λ (l : List Worker). AreFitting l s.locks) e v.fitting

  pub tally_here : (f : Worker → ℕ) → tally f s.workers ≡ tally f a + (f w + tally f b)
  tally_here f = ap (tally f) e ∙ tally-append f a w b

  pub length_here : length s.workers ≡ length a + suc (length b)
  length_here = ap (λ (l : List Worker). length l) e ∙ length-append a (w ∷ b)

  -- A step that gives the place of a worker to another one, which does not newly run an action.
  pub replace-IsValid :
      (x : Worker) (queue : List ActionRequest) (count : ℕ) (q : Locks)
      → AreFitting (a ++ (x ∷ b)) q
      → ((k : Text) → runs k x ≤ runs k w)
      → count + is_active w ≡ s.active_count + is_active x
      → length queue ≤ 256
      → IsValid
          (record s { queue = queue; workers = a ++ (x ∷ b); active_count = count; locks = q })
  replace-IsValid x queue count q f r c n = record {
    fitting = f;
    exclusive =
        λ k. omega (arith, tally_here (runs k), tally-append (runs k) a x b, v.exclusive k, r k);
    active = omega (arith, tally_here is_active, tally-append is_active a x b, v.active, c);
    few = omega (arith, length_here, length-append a (x ∷ b), v.few);
    bounded = n;
  }

  -- A request ends.
  pub end-IsValid :
      (k : Text) (x : Worker)
      → ((j : Text) → uses j w ≡ (if k == j then 1 else 0))
      → is_active w ≡ 1
      → ((j : Text) → uses j x ≡ 0)
      → ((d : Dict Text ℕ) → misses d x ≡ 0)
      → ((j : Text) → runs j x ≡ 0)
      → is_active x ≡ 0
      → IsValid (end_request k x a b s)
  unfolding end_request
  end-IsValid k x hw one hx hm hr rest =
      replace-IsValid x s.queue (s.active_count - 1) (leave k s.locks)
        (leave-AreFitting k w x a b s.locks fitting_here hw hx hm) (λ j. omega (arith, hr j))
        (omega (arith, v.active, tally_here is_active, one, rest)) v.bounded
