-- ===== src/Writer/Tests.antt =====
-- Runs of the worker, and the theorems at them.
use rocket_cat_shell_linux.Base.{ℕ, ◌≡◌, refl, ◌≤◌, true, [], ◌∷◌, length, ◌++◌, arith}
use rocket_cat_shell_linux.Writer.{
  queue_capacity, single, batched, flush_command, many, Settings, Worker, new_worker, coalesce,
  enqueue, snapshot_due, rotate_if_due, write, handle, round_on, round,
}
use rocket_cat_shell_linux.Writer.Lossless.{of_items, of_written, waiting}
use rocket_cat_shell_linux.Writer.Reach.{enqueues, rounds, IsReachable, created, after_step}
use rocket_cat_shell_linux.Writer.Capacity.{accepted_in_order}
use rocket_cat_shell_linux.Writer.Drain.{items, IsFlushed, IsDone, round-flush, drains}
use rocket_cat_shell_linux.Writer.Drain as Drain

abbrev small : Settings ℕ
small = record { flush_every = 32; snapshot_every = 8192; size_of = λ r. 10 }

-- A batch, another batch, a flush and a mutation are enqueued.
abbrev loaded_0 : Worker ℕ
loaded_0 = (enqueue (batched (1 ∷ 2 ∷ [])) new_worker).1

abbrev loaded_1 : Worker ℕ
loaded_1 = (enqueue (batched (3 ∷ [])) loaded_0).1

abbrev loaded_2 : Worker ℕ
loaded_2 = (enqueue (flush_command 7) loaded_1).1

abbrev loaded_3 : Worker ℕ
loaded_3 = (enqueue (single 4) loaded_2).1

-- After a round the batches are written, and the flush is deferred.
abbrev written : Worker ℕ
written = round small loaded_3

written_record : written.log ≡ many (1 ∷ 2 ∷ 3 ∷ []) ∷ []
unfolding enqueue new_worker round round_on handle write rotate_if_due snapshot_due coalesce
written_record = refl

written-items : items written ≡ flush_command 7 ∷ single 4 ∷ []
unfolding enqueue new_worker round round_on handle write rotate_if_due snapshot_due coalesce
written-items = refl

written_running : written.is_running ≡ true
unfolding enqueue new_worker round round_on handle write rotate_if_due snapshot_due coalesce
written_running = refl

written-IsReachable : IsReachable small written
written-IsReachable =
    after_step loaded_3 written
      (after_step loaded_2 loaded_3
        (after_step loaded_1 loaded_2
          (after_step loaded_0 loaded_1
            (after_step new_worker loaded_0 created (enqueues (batched (1 ∷ 2 ∷ [])) new_worker))
            (enqueues (batched (3 ∷ [])) loaded_0))
          (enqueues (flush_command 7) loaded_1))
        (enqueues (single 4) loaded_2))
      (rounds loaded_3)

accepted_in_order_example :
    (of_items written.accepted ≡ of_written written.log ++ waiting written)
    × (length written.queue ≤ queue_capacity)
accepted_in_order_example = accepted_in_order small written written-IsReachable

round-flush_example :
    IsFlushed 7 written (round small written)
    × (of_items written.accepted ≡ of_written (round small written).log ++ of_items (single 4 ∷ []))
round-flush_example =
    round-flush small 7 (single 4 ∷ []) written written-IsReachable written_running written-items

written-length : length (items written) ≤ 2
unfolding enqueue new_worker round round_on handle write rotate_if_due snapshot_due coalesce
written-length = omega arith

drains_example : IsDone (Drain.rounds small 2 written)
drains_example = drains small 2 written written-length
