-- ===== src/Dispatcher/Operations.antt =====
-- Requests are taken, locks given and workers replaced in valid states.
use rocket_cat_shell_linux.Base.{
  Bool, true, false, ℕ, ◌+◌, ◌≡◌, refl, ap, ◌∙◌, some, List, [], ◌∷◌, ◌++◌, length, arith,
  Bool-cases, inl, inr, length-append, ltb,
}
use rocket_cat_shell_linux.Base.Dict.{Dict, get}
use rocket_cat_shell_linux.Base.Text.{Text, text_key, text_beq_iff}
use rocket_cat_shell_linux.Dispatcher.{
  Dispatcher, Worker, idle, waiting, holding, finished, ActionRequest, submit, take_request,
  on_worker_done, is_empty_queue, tally, holds, enter, target_key,
}
use mathlib.Core.Bool.{◌&&◌, not}
use rocket_cat_shell_linux.Dispatcher.Counts.{
  uses, runs, is_active, misses, tally-append, tally-join, runs-holds,
}
use rocket_cat_shell_linux.Dispatcher.Users.{AreFitting, enter-AreFitting}
use rocket_cat_shell_linux.Dispatcher.Valid.{
  IsValid, ensure_workers-IsValid, fitting_here, tally_here, length_here, replace-IsValid,
}

pub take-IsValid :
    (s : Dispatcher) (r : ActionRequest) (rest : List ActionRequest) (a b : List Worker)
    → IsValid s
    → s.queue ≡ r ∷ rest
    → s.workers ≡ a ++ (idle ∷ b)
    → IsValid (take_request r rest a b s)
unfolding take_request
take-IsValid s r rest a b v q e =
    replace-IsValid s v a b idle e (waiting (target_key r) (enter (target_key r) s.locks).0) rest
      (s.active_count + 1) (enter (target_key r) s.locks).1
      (enter-AreFitting (target_key r) a b s.locks (fitting_here s v a b idle e)) (λ k. omega arith)
      (omega arith) (omega (arith, ap (λ (l : List ActionRequest). length l) q, v.bounded))

-- The lock is given only when no action runs on its target.
pub acquire-IsValid :
    (s : Dispatcher) (k : Text) (lock : ℕ) (a b : List Worker)
    → IsValid s
    → s.workers ≡ a ++ (waiting k lock ∷ b)
    → tally (holds lock) s.workers ≡ 0
    → IsValid (record s { workers = a ++ (holding k lock ∷ b) })
acquire-IsValid s k lock a b v e free =
    let f : AreFitting (a ++ (waiting k lock ∷ b)) s.locks = fitting_here s v a b _ e in
    let m : (d : Dict Text ℕ)
        → tally (misses d) (a ++ (holding k lock ∷ b))
          ≡ tally (misses d) (a ++ (waiting k lock ∷ b)) =
      λ d. omega (
        arith,
        tally-append (misses d) a (holding k lock) b,
        tally-append (misses d) a (waiting k lock) b,
      ) in
    let own : get s.locks.target_locks k ≡ some lock =
      ground (arith, f.matching, tally-append (misses s.locks.target_locks) a (waiting k lock) b) in
    record {
      fitting = record {
        users = λ j. omega (
          arith,
          f.users j,
          tally-append (uses j) a (holding k lock) b,
          tally-append (uses j) a (waiting k lock) b,
        );
        positive = f.positive;
        matching = m s.locks.target_locks ∙ f.matching;
        kept = f.kept;
      };
      exclusive = λ j. ground (
        arith,
        v.exclusive j,
        tally_here s v a b _ e (runs j),
        tally-append (runs j) a (holding k lock) b,
        text_beq_iff k j,
        own,
        runs-holds s.locks.target_locks k lock s.workers,
        v.fitting.matching,
        free,
      );
      active = omega (
        arith,
        v.active,
        tally_here s v a b _ e is_active,
        tally-append is_active a (holding k lock) b,
      );
      few = omega (arith, v.few, length_here s v a b _ e, length-append a (holding k lock ∷ b));
      bounded = v.bounded;
    }

remove-IsValid :
    (s : Dispatcher) (a b : List Worker)
    → IsValid s
    → s.workers ≡ a ++ (finished ∷ b)
    → IsValid (record s { workers = a ++ b })
remove-IsValid s a b v e =
    let f : AreFitting (a ++ (finished ∷ b)) s.locks = fitting_here s v a b _ e in
    record {
      fitting = record {
        users = λ j.
            omega (arith, f.users j, tally-join (uses j) a b, tally-append (uses j) a finished b);
        positive = f.positive;
        matching = omega (
          arith,
          f.matching,
          tally-join (misses s.locks.target_locks) a b,
          tally-append (misses s.locks.target_locks) a finished b,
        );
        kept = f.kept;
      };
      exclusive = λ j.
          omega (arith, v.exclusive j, tally_here s v a b _ e (runs j), tally-join (runs j) a b);
      active = omega (arith, v.active, tally_here s v a b _ e is_active, tally-join is_active a b);
      few = omega (arith, v.few, length_here s v a b _ e, length-append a b);
      bounded = v.bounded;
    }

pub done-IsValid :
    (was_cancelled : Bool) (s : Dispatcher) (a b : List Worker)
    → IsValid s
    → s.workers ≡ a ++ (finished ∷ b)
    → IsValid (on_worker_done was_cancelled a b s)
unfolding on_worker_done
done-IsValid true s a b v e = remove-IsValid s a b v e
done-IsValid false s a b v e = elim (Bool-cases (s.is_running && not (is_empty_queue s.queue))) [
  | inl more ↦
      simp (on_worker_done, more)
        (ensure_workers-IsValid (record s { workers = a ++ b }) (remove-IsValid s a b v e))
  | inr rest ↦ simp (on_worker_done, rest) (remove-IsValid s a b v e)
]

pub submit-IsValid : (r : ActionRequest) (s : Dispatcher) → IsValid s → IsValid (submit r s).1
unfolding submit
submit-IsValid r s v = elim (Bool-cases (ltb (length s.queue) 256)) [
  | inl room ↦
      simp (submit, room)
        (ensure_workers-IsValid (record s { queue = s.queue ++ (r ∷ []) })
          (record {
            fitting = v.fitting;
            exclusive = v.exclusive;
            active = v.active;
            few = v.few;
            bounded = ground (arith, room, length-append s.queue (r ∷ []));
          }))
  | inr full ↦ simp (submit, full) v
]

pub retire-IsValid :
    (s : Dispatcher) (a b : List Worker)
    → IsValid s
    → s.workers ≡ a ++ (idle ∷ b)
    → IsValid (record s { workers = a ++ (finished ∷ b) })
retire-IsValid s a b v e =
    replace-IsValid s v a b idle e finished s.queue s.active_count s.locks
      (record {
        users = λ j.
            omega (
              arith,
              f.users j,
              tally-append (uses j) a idle b,
              tally-append (uses j) a finished b,
            );
        positive = f.positive;
        matching = omega (
          arith,
          f.matching,
          tally-append (misses s.locks.target_locks) a idle b,
          tally-append (misses s.locks.target_locks) a finished b,
        );
        kept = f.kept;
      })
      (λ k. omega arith) refl v.bounded
  where
    f : AreFitting (a ++ (idle ∷ b)) s.locks
    f = fitting_here s v a b idle e
