-- ===== src/Dispatcher/Tests.antt =====
-- A request goes through the dispatcher, and instances of the theorems.
use rocket_cat_shell_linux.Base.{◌≤◌, ◌≡◌, refl, true, none, some, [], ◌∷◌, length, arith}
use rocket_cat_shell_linux.Base.Dict.{get, put, remove}
use rocket_cat_shell_linux.Base.Text.{Text, codes, text_key, text_beq}
use rocket_cat_shell_linux.Dispatcher.{
  Dispatcher, idle, holding, ActionRequest, start, submit, take_request, end_request, tally,
  new_dispatcher, target_key, enter, leave, ensure_workers,
}
use rocket_cat_shell_linux.Dispatcher.Exclusion.{at_most_one, nothing_leaks, submit-workers}
use rocket_cat_shell_linux.Dispatcher.Steps.{
  starts, submits, takes, acquires, completes, IsReachable, created, after_step,
}
use rocket_cat_shell_linux.Dispatcher.Counts.{runs, is_active}

program : Unit {0}
unfolding new_dispatcher start submit ensure_workers target_key enter leave take_request end_request
    get put remove text_beq
program = tt

abbrev request : ActionRequest
request = record {
  action = codes "send_msg";
  params = (codes "group_id", none) ∷ (codes "user_id", some (codes "7")) ∷ [];
}

keys : target_key request ≡ codes "user_id:7"
unfolding program
keys = refl

abbrev submitted : Dispatcher
submitted = (submit request (start new_dispatcher)).1

abbrev taken : Dispatcher
taken = take_request request [] [] [] submitted

abbrev acquired : Dispatcher
acquired = record taken { workers = holding (codes "user_id:7") 0 ∷ [] }

abbrev completed : Dispatcher
completed = end_request (codes "user_id:7") idle [] [] acquired

acquired-IsReachable : IsReachable acquired
unfolding program
acquired-IsReachable =
    after_step taken acquired
      (after_step submitted taken
        (after_step (start new_dispatcher) submitted
          (after_step new_dispatcher (start new_dispatcher) created (starts new_dispatcher))
          (submits request (start new_dispatcher)))
        (takes request [] [] [] submitted refl refl))
      (acquires (codes "user_id:7") 0 [] [] taken refl refl)

completed-IsReachable : IsReachable completed
unfolding program
completed-IsReachable =
    after_step acquired completed acquired-IsReachable
      (completes (codes "user_id:7") 0 [] [] acquired refl)

at_most_one_example :
    ((k : Text) → tally (runs k) acquired.workers ≤ 1)
    × (length acquired.workers ≤ 8)
    × (length acquired.queue ≤ 256)
    × (acquired.active_count ≡ tally is_active acquired.workers)
at_most_one_example = at_most_one acquired acquired-IsReachable

nothing_leaks_example :
    (get completed.locks.target_locks (codes "user_id:7") ≡ none)
    × (get completed.locks.target_lock_users (codes "user_id:7") ≡ none)
unfolding program
nothing_leaks_example = nothing_leaks completed (codes "user_id:7") completed-IsReachable refl

submit-workers_example :
    ((submit request (start new_dispatcher)).0 ≡ true)
    × (submitted.queue ≡ request ∷ [])
    × (1 ≤ length submitted.workers)
unfolding program
submit-workers_example = submit-workers request (start new_dispatcher) refl (omega arith)
