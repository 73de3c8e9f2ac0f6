-- ===== src/Dispatcher.antt =====
-- rocketcat_shell/bridge/transports/action_dispatcher.py: the queue of OneBot actions, its workers,
-- and the locks that make the actions on one target follow each other.
mod Steps
mod Counts
mod Users
mod Valid
mod Operations
mod Exclusion
mod Tests
use rocket_cat_shell_linux.Base.{
  ℕ, zero, suc, ◌+◌, ◌-◌, Bool, true, false, ◌&&◌, not, Option, none, some, List, [], ◌∷◌, ◌++◌,
  ltb, nat_beq, if◌then◌else◌, length, min, max, ◌==◌,
}
use rocket_cat_shell_linux.Base.Dict.{Dict, get, put, remove}
use rocket_cat_shell_linux.Base.Text.{Text, codes, text_key}

abbrev pub action_worker_count : ℕ
action_worker_count = 8

abbrev pub action_queue_capacity : ℕ
action_queue_capacity = 256

-- `ActionRequest`; a parameter is the text of its value, or `None`.
pub record ActionRequest : Type 0 where
  pub action : Text
  pub params : Dict Text (Option Text)

-- A task of `_worker_loop`: before `queue.get` returns, before and after it has the lock of its
-- target, and when it has ended but `_on_worker_done` has not run.
pub data Worker : Type 0 where
  idle : Worker
  waiting : Text → ℕ → Worker
  holding : Text → ℕ → Worker
  finished : Worker

-- `_target_locks` and `_target_lock_users`; an `asyncio.Lock` is the number of its creation.
pub record Locks : Type 0 where
  pub target_locks : Dict Text ℕ
  pub target_lock_users : Dict Text ℕ
  pub next_lock : ℕ

pub record Dispatcher : Type 0 where
  pub queue : List ActionRequest
  pub workers : List Worker
  pub active_count : ℕ
  pub locks : Locks
  pub is_running : Bool

pub new_dispatcher : Dispatcher
new_dispatcher = record {
  queue = [];
  workers = [];
  active_count = 0;
  locks = record { target_locks = []; target_lock_users = []; next_lock = 0 };
  is_running = false;
}

-- the first of the fields that has a value
abbrev pub first_field : List Text → ActionRequest → Text
first_field [] r = codes "action:" ++ r.action
first_field (field ∷ l) r = elim (get r.params field) [
  | some (some value) ↦ field ++ (b':' ∷ value)
  | _ ↦ first_field l r
]

pub target_key : ActionRequest → Text
target_key r =
    first_field (codes "group_id" ∷ codes "user_id" ∷ codes "message_id" ∷ codes "id" ∷ []) r

-- What `d.get(k, default)` returns.
abbrev pub get_or : Dict Text ℕ → Text → ℕ → ℕ
get_or d k default = elim (get d k) [ none ↦ default | some n ↦ n ]

-- The beginning of `_handle_request`: the lock of the target, and one more user of it.
pub enter : Text → Locks → ℕ × Locks
enter k l =
    let lock = get_or l.target_locks k l.next_lock in
    (
      lock,
      record {
        target_locks = elim (get l.target_locks k) [
          | none ↦ put l.target_locks k l.next_lock
          | some n ↦ l.target_locks
        ];
        target_lock_users = put l.target_lock_users k (get_or l.target_lock_users k 0 + 1);
        next_lock = l.next_lock + 1;
      },
    )

-- Its `finally`; what is left of the users is 0 or less if there was at most one.
pub leave : Text → Locks → Locks
leave k l =
    let users = get_or l.target_lock_users k 1 in
    if ltb 1 users
    then record l { target_lock_users = put l.target_lock_users k (users - 1) }
    else record l {
      target_locks = remove l.target_locks k;
      target_lock_users = remove l.target_lock_users k;
    }

abbrev pub idle_workers : ℕ → List Worker
idle_workers zero = []
idle_workers (suc n) = idle ∷ idle_workers n

-- `_ensure_workers`
pub ensure_workers : Dispatcher → Dispatcher
ensure_workers s =
    let desired = min action_worker_count (max 1 (length s.queue + s.active_count)) in
    if s.is_running
    then record s { workers = s.workers ++ idle_workers (desired - length s.workers) }
    else s

-- Whether `submit` accepted the request, and the state after it.
pub submit : ActionRequest → Dispatcher → Bool × Dispatcher
unfolding ensure_workers
submit r s =
    if ltb (length s.queue) action_queue_capacity
    then (true, ensure_workers (record s { queue = s.queue ++ (r ∷ []) }))
    else (false, s)

pub start : Dispatcher → Dispatcher
start s = record s { is_running = true }

-- The number of requests, and the state without them.
pub discard_pending : Dispatcher → ℕ × Dispatcher
discard_pending s = (length s.queue, record s { queue = [] })

abbrev pub is_empty_queue : List ActionRequest → Bool
is_empty_queue [] = true
is_empty_queue (r ∷ q) = false

-- `_on_worker_done`, of a worker between others, whose task was cancelled or not. The exception of a
-- task that was not is logged only.
pub on_worker_done : Bool → List Worker → List Worker → Dispatcher → Dispatcher
unfolding ensure_workers
on_worker_done was_cancelled before after s =
    let without : Dispatcher = record s { workers = before ++ after } in
    if was_cancelled
    then without
    else if s.is_running && not (is_empty_queue s.queue)
    then ensure_workers without
    else without

-- A worker takes a request, up to the lock of its target.
pub take_request :
    ActionRequest → List ActionRequest → List Worker → List Worker → Dispatcher → Dispatcher
unfolding target_key enter
take_request r rest before after s =
    let k = target_key r in
    let (lock, locks) = enter k s.locks in
    record s {
      queue = rest;
      workers = before ++ (waiting k lock ∷ after);
      active_count = s.active_count + 1;
      locks = locks;
    }

-- The end of `_handle_request`, by a result or an exception, and of the loop's round; `worker` is
-- what the worker is then.
pub end_request : Text → Worker → List Worker → List Worker → Dispatcher → Dispatcher
unfolding leave
end_request k worker before after s = record s {
  workers = before ++ (worker ∷ after);
  active_count = s.active_count - 1;
  locks = leave k s.locks;
}

-- Over the workers.
abbrev pub tally : (Worker → ℕ) → List Worker → ℕ
tally f [] = 0
tally f (w ∷ l) = f w + tally f l

-- 1 if the worker has the lock
abbrev pub holds : ℕ → Worker → ℕ
holds lock (holding k n) = if nat_beq n lock then 1 else 0
holds lock _ = 0
