-- ===== src/Dispatcher/Steps.antt =====
-- What can happen to the dispatcher between two awaits, one event at a time. `stop` is its first
-- statement, `stop_begins`; what it cancels are the steps of the workers.
use rocket_cat_shell_linux.Base.{ℕ, ◌≡◌, Bool, false, ◌∷◌, ◌++◌, List}
use rocket_cat_shell_linux.Base.Text.{Text, text_key}
use rocket_cat_shell_linux.Dispatcher.{
  Dispatcher, Worker, idle, waiting, holding, finished, ActionRequest, start, submit,
  discard_pending, take_request, end_request, on_worker_done, tally, holds, new_dispatcher,
}

pub data Step : Dispatcher → Dispatcher → Type 0 where
  starts : (s : Dispatcher) → Step s (start s)
  stop_begins : (s : Dispatcher) → Step s (record s { is_running = false })
  submits : (r : ActionRequest) (s : Dispatcher) → Step s (submit r s).1
  discards : (s : Dispatcher) → Step s (discard_pending s).1
  -- `queue.get` returns
  takes :
      (r : ActionRequest) (rest : List ActionRequest) (before after : List Worker) (s : Dispatcher)
      → s.queue ≡ r ∷ rest
      → s.workers ≡ before ++ (idle ∷ after)
      → Step s (take_request r rest before after s)
  -- the lock is free
  acquires :
      (k : Text) (lock : ℕ) (before after : List Worker) (s : Dispatcher)
      → s.workers ≡ before ++ (waiting k lock ∷ after)
      → tally (holds lock) s.workers ≡ 0
      → Step s (record s { workers = before ++ (holding k lock ∷ after) })
  -- the action's response or exception, also its timeout
  completes :
      (k : Text) (lock : ℕ) (before after : List Worker) (s : Dispatcher)
      → s.workers ≡ before ++ (holding k lock ∷ after)
      → Step s (end_request k idle before after s)
  -- cancelled with the lock, and while it waits for it
  is_cancelled :
      (k : Text) (lock : ℕ) (before after : List Worker) (s : Dispatcher)
      → s.workers ≡ before ++ (holding k lock ∷ after)
      → Step s (end_request k finished before after s)
  is_cancelled_early :
      (k : Text) (lock : ℕ) (before after : List Worker) (s : Dispatcher)
      → s.workers ≡ before ++ (waiting k lock ∷ after)
      → Step s (end_request k finished before after s)
  -- no request came in time, or cancelled without one
  retires :
      (before after : List Worker) (s : Dispatcher)
      → s.workers ≡ before ++ (idle ∷ after)
      → Step s (record s { workers = before ++ (finished ∷ after) })
  is_done :
      (was_cancelled : Bool) (before after : List Worker) (s : Dispatcher)
      → s.workers ≡ before ++ (finished ∷ after)
      → Step s (on_worker_done was_cancelled before after s)

-- The states of a dispatcher, from its creation on.
pub data IsReachable : Dispatcher → Type 0 where
  created : IsReachable new_dispatcher
  after_step : (s t : Dispatcher) → IsReachable s → Step s t → IsReachable t
