-- ===== src/Dispatcher/Exclusion.antt =====
-- In every state that can be reached, at most one action runs on a target, and no lock is left.
use rocket_cat_shell_linux.Base.{
  ◌+◌, ◌-◌, ◌≤◌, ◌<◌, ◌≡◌, refl, true, none, [], ◌∷◌, ◌++◌, length, arith, length-append, min, max,
  ltb,
}
use rocket_cat_shell_linux.Base.Dict.{get}
use rocket_cat_shell_linux.Base.Text.{Text, text_key}
use rocket_cat_shell_linux.Dispatcher.{
  Dispatcher, idle, waiting, holding, finished, ActionRequest, start, submit, discard_pending,
  tally, ensure_workers, idle_workers,
}
use rocket_cat_shell_linux.Dispatcher.Steps.{
  Step, starts, stop_begins, submits, discards, takes, acquires, completes, is_cancelled,
  is_cancelled_early, retires, is_done, IsReachable, created, after_step,
}
use rocket_cat_shell_linux.Dispatcher.Counts.{uses, runs, is_active}
use rocket_cat_shell_linux.Dispatcher.Users.{AreFitting}
use rocket_cat_shell_linux.Dispatcher.Valid.{
  IsValid, length-idle_workers, new_dispatcher-IsValid, end-IsValid,
}
use rocket_cat_shell_linux.Dispatcher.Operations.{
  take-IsValid, acquire-IsValid, done-IsValid, submit-IsValid, retire-IsValid,
}

-- Every step keeps the state valid.
pub Step-IsValid : (s t : Dispatcher) → IsValid s → Step s t → IsValid t
unfolding start discard_pending
Step-IsValid _ _ v (starts s) = record {
  fitting = v.fitting;
  exclusive = v.exclusive;
  active = v.active;
  few = v.few;
  bounded = v.bounded;
}
Step-IsValid _ _ v (stop_begins s) = record {
  fitting = v.fitting;
  exclusive = v.exclusive;
  active = v.active;
  few = v.few;
  bounded = v.bounded;
}
Step-IsValid _ _ v (submits r s) = submit-IsValid r s v
Step-IsValid _ _ v (discards s) = record {
  fitting = v.fitting;
  exclusive = v.exclusive;
  active = v.active;
  few = v.few;
  bounded = omega arith;
}
Step-IsValid _ _ v (takes r rest a b s q e) = take-IsValid s r rest a b v q e
Step-IsValid _ _ v (acquires k lock a b s e free) = acquire-IsValid s k lock a b v e free
Step-IsValid _ _ v (completes k lock a b s e) =
    end-IsValid s v a b (holding k lock) e k idle (λ j. refl) refl (λ j. refl) (λ d. refl)
      (λ j. refl) refl
Step-IsValid _ _ v (is_cancelled k lock a b s e) =
    end-IsValid s v a b (holding k lock) e k finished (λ j. refl) refl (λ j. refl) (λ d. refl)
      (λ j. refl) refl
Step-IsValid _ _ v (is_cancelled_early k lock a b s e) =
    end-IsValid s v a b (waiting k lock) e k finished (λ j. refl) refl (λ j. refl) (λ d. refl)
      (λ j. refl) refl
Step-IsValid _ _ v (retires a b s e) = retire-IsValid s a b v e
Step-IsValid _ _ v (is_done was_cancelled a b s e) = done-IsValid was_cancelled s a b v e

reachable-IsValid : (s : Dispatcher) → IsReachable s → IsValid s
reachable-IsValid _ created = new_dispatcher-IsValid
reachable-IsValid _ (after_step s t p q) = Step-IsValid s t (reachable-IsValid s p) q

-- In every state that a dispatcher can be in, at most one worker runs an action on a target, there
-- are at most 8 workers and 256 waiting requests, and the count of the active workers is right.
pub at_most_one :
    (s : Dispatcher)
    → IsReachable s
    → ((k : Text) → tally (runs k) s.workers ≤ 1)
      × (length s.workers ≤ 8)
      × (length s.queue ≤ 256)
      × (s.active_count ≡ tally is_active s.workers)
at_most_one s p =
    let v : IsValid s = reachable-IsValid s p in (v.exclusive, v.few, v.bounded, v.active)

-- In every state that a dispatcher can be in, a target that no worker uses has no lock and no count
-- of users: what an ended or cancelled action took is given back.
pub nothing_leaks :
    (s : Dispatcher) (k : Text)
    → IsReachable s
    → tally (uses k) s.workers ≡ 0
    → (get s.locks.target_locks k ≡ none) × (get s.locks.target_lock_users k ≡ none)
nothing_leaks s k p unused =
    let f : AreFitting s.workers s.locks = (reachable-IsValid s p).fitting in
    let gone : get s.locks.target_lock_users k ≡ none =
      ground (arith, f.users k, f.positive k, unused) in
    (f.kept k gone, gone)

-- While the dispatcher runs and its queue has room, a request is accepted at the end of the queue,
-- and there are as many workers as waiting requests and active workers, up to 8.
pub submit-workers :
    (r : ActionRequest) (s : Dispatcher)
    → s.is_running ≡ true
    → length s.queue < 256
    → ((submit r s).0 ≡ true)
      × ((submit r s).1.queue ≡ s.queue ++ (r ∷ []))
      × (min 8 (length s.queue + 1 + s.active_count) ≤ length (submit r s).1.workers)
unfolding submit ensure_workers
submit-workers r s up room =
    let test : ltb (length s.queue) 256 ≡ true = ground arith in
    simp (submit, test, ensure_workers, up)
      (
        refl,
        refl,
        omega (
          arith,
          length-append s.queue (r ∷ []),
          length-append s.workers (
              idle_workers
                (min 8 (max 1 (length (s.queue ++ (r ∷ [])) + s.active_count)) - length s.workers)),
          length-idle_workers
              (min 8 (max 1 (length (s.queue ++ (r ∷ [])) + s.active_count)) - length s.workers),
        ),
      )
