-- ===== src/Writer/Capacity.antt =====
-- The queue of the worker stays within its capacity.
use rocket_cat_shell_linux.Base.{
  ℕ, zero, suc, ◌+◌, ◌≤◌, ◌≡◌, refl, ap, Option, none, some, List, [], ◌∷◌, ◌++◌, ltb, length,
  length-append, arith, Bool-cases, inl, inr,
}
use rocket_cat_shell_linux.Writer.{
  Item, single, batched, flush_command, stop_command, one, many, Settings, Worker, Coalesced,
  queue_capacity, coalesce, enqueue, flush_if_pending, handle, round_on, round, new_worker,
}
use rocket_cat_shell_linux.Writer.Lossless.{
  of_items, of_written, waiting, View, view-flush_if_pending, view-rotate, view-rotate_if_due,
  view-write, view-idle,
}
use rocket_cat_shell_linux.Writer.Reach.{
  enqueues, rounds, IsReachable, created, after_step, nothing_lost,
}

module _ {M : Type 0} (settings : Settings M) where
  rest-coalesce : (n : ℕ) (q : List (Item M)) → length (coalesce n q).rest ≤ length q
  unfolding coalesce
  rest-coalesce zero q = omega arith
  rest-coalesce (suc n) [] = omega arith
  rest-coalesce (suc n) (batched m ∷ q) = omega (arith, rest-coalesce n q)
  rest-coalesce (suc n) (single m ∷ q) = omega arith
  rest-coalesce (suc n) (flush_command e ∷ q) = omega arith
  rest-coalesce (suc n) (stop_command e ∷ q) = omega arith

  abbrev queued : View M → ℕ
  queued v = length v.2

  -- No item makes the queue longer.
  handle-queue :
      (item : Item M) (w : Worker M) → length (handle settings item w).queue ≤ length w.queue
  unfolding handle
  handle-queue (single m) w = omega (arith, ap queued (view-write settings (one m) 1 w))
  handle-queue (batched m) w =
      let c : Coalesced M = coalesce 31 w.queue in
      omega (
        arith,
        ap queued (
            view-write settings (many (m ++ c.mutations)) (c.count + 1)
              (record w { queue = c.rest; deferred = c.next_item })),
        rest-coalesce 31 w.queue,
      )
  handle-queue (flush_command e) w = omega (
    arith,
    ap queued (view-rotate_if_due settings (flush_if_pending w)),
    ap queued (view-flush_if_pending w),
  )
  handle-queue (stop_command e) w =
      omega
        (arith, ap queued (view-rotate (flush_if_pending w)), ap queued (view-flush_if_pending w))

  round_on-queue :
      (o : Option (Item M)) (q : List (Item M)) (w : Worker M)
      → w.queue ≡ q
      → length (round_on settings o q w).queue ≤ length w.queue
  unfolding round_on
  round_on-queue (some item) q w e = handle-queue item (record w { deferred = none })
  round_on-queue none [] w e = omega (arith, ap queued (view-idle settings w))
  round_on-queue none (item ∷ q) w e =
      omega
        (arith, handle-queue item (record w { queue = q }), ap (λ (l : List (Item M)). length l) e)

  -- In every state of the worker, the queue has at most as many items as its capacity.
  queue_within_capacity : (w : Worker M) → IsReachable settings w → length w.queue ≤ queue_capacity
  unfolding new_worker enqueue round
  queue_within_capacity _ created = omega arith
  queue_within_capacity _ (after_step w _ p (enqueues item _)) =
      let h = queue_within_capacity w p in
      elim (Bool-cases (ltb (length w.queue) queue_capacity)) [
        | inl fits ↦ simp (enqueue, fits) (ground (arith, length-append w.queue (item ∷ [])))
        | inr full ↦ simp (enqueue, full) h
      ]
  queue_within_capacity _ (after_step w _ p (rounds _)) =
      let h = queue_within_capacity w p in
      elim (Bool-cases w.is_running) [
        | inl up ↦ simp (round, up) (omega (arith, h, round_on-queue w.deferred w.queue w refl))
        | inr ended ↦ simp (round, ended) h
      ]

  -- In every state of the worker the mutations that were accepted are those of the records that were
  -- written, in the order of the journal, and after them those that still wait; and the queue has at
  -- most as many items as its capacity.
  pub accepted_in_order :
      (w : Worker M)
      → IsReachable settings w
      → (of_items w.accepted ≡ of_written w.log ++ waiting w) × (length w.queue ≤ queue_capacity)
  accepted_in_order w p = (nothing_lost settings w p, queue_within_capacity w p)
