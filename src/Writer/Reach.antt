-- ===== src/Writer/Reach.antt =====
-- The states of the worker: what was accepted is written in order, and what is buffered is counted.
use rocket_cat_shell_linux.Base.{
  ℕ, ◌+◌, ◌≤◌, ◌<◌, ◌≡◌, refl, ap, Option, none, some, List, [], ◌∷◌, ◌++◌, ltb, leb, length,
  length-append, arith, Bool-cases, inl, inr,
}
use rocket_cat_shell_linux.Writer.{
  Item, single, batched, flush_command, stop_command, Written, one, Settings, Worker, new_worker,
  enqueue, flush, flush_if_pending, rotate, snapshot_due, rotate_if_due, write, handle, idle,
  round_on, round,
}
use rocket_cat_shell_linux.Writer.Lossless.{
  of_items, of_written, waiting, IsLossless, enqueue-IsLossless, round-IsLossless,
}

module _ {M : Type 0} (settings : Settings M) where
  -- A client enqueues, or the thread runs a round.
  pub data Step : Worker M → Worker M → Type 0 where
    enqueues : (item : Item M) (w : Worker M) → Step w (enqueue item w).1
    rounds : (w : Worker M) → Step w (round settings w)

  pub data IsReachable : Worker M → Type 0 where
    created : IsReachable new_worker
    after_step : (w v : Worker M) → IsReachable w → Step w v → IsReachable v

  -- What is buffered is counted.
  abbrev pub IsCounted : Worker M → Type 0
  IsCounted w = length w.buffered ≤ w.pending_since_flush

  rotate_if_due-IsCounted : (w : Worker M) → IsCounted w → IsCounted (rotate_if_due settings w)
  unfolding rotate_if_due rotate
  rotate_if_due-IsCounted w h = elim (Bool-cases (snapshot_due settings w)) [
    | inl y ↦ simp (rotate_if_due, y) (omega arith)
    | inr n ↦ simp (rotate_if_due, n) h
  ]

  write-IsCounted :
      (r : Written M) (n : ℕ) (w : Worker M)
      → 0 < n
      → IsCounted w
      → IsCounted (write settings r n w)
  unfolding write flush
  write-IsCounted r n w pos h =
      elim (Bool-cases (leb settings.flush_every (w.pending_since_flush + n))) [
        | inl y ↦ simp (write, y) (rotate_if_due-IsCounted _ (omega arith))
        | inr later ↦
            simp (write, later)
              (rotate_if_due-IsCounted _ (omega (arith, length-append w.buffered (r ∷ []))))
      ]

  pub flush_if_pending-empty :
      (w : Worker M)
      → IsCounted w
      → ((flush_if_pending w).buffered ≡ []) × ((flush_if_pending w).pending_since_flush ≡ 0)
  unfolding flush_if_pending flush
  flush_if_pending-empty w h = elim (Bool-cases (ltb 0 w.pending_since_flush)) [
    | inl y ↦ simp (flush_if_pending, y) (refl, refl)
    | inr n ↦ simp (flush_if_pending, n) (none_left w.buffered (ground arith), ground arith)
  ]
    where
      none_left : (l : List (Written M)) → length l ≤ 0 → l ≡ []
      none_left [] z = refl
      none_left (r ∷ l) z = absurd (omega arith)

  flush_if_pending-IsCounted : (w : Worker M) → IsCounted w → IsCounted (flush_if_pending w)
  flush_if_pending-IsCounted w h =
      omega (arith, ap (λ (l : List (Written M)). length l) (flush_if_pending-empty w h).0)

  handle-IsCounted :
      (item : Item M) (w : Worker M) → IsCounted w → IsCounted (handle settings item w)
  unfolding handle rotate
  handle-IsCounted (single m) w h = write-IsCounted (one m) 1 w (omega arith) h
  handle-IsCounted (batched m) w h = write-IsCounted _ _ _ (omega arith) h
  handle-IsCounted (flush_command e) w h =
      rotate_if_due-IsCounted (flush_if_pending w) (flush_if_pending-IsCounted w h)
  handle-IsCounted (stop_command e) w h = omega arith

  idle-IsCounted : (w : Worker M) → IsCounted w → IsCounted (idle settings w)
  unfolding idle rotate
  idle-IsCounted w h =
      elim (Bool-cases (leb settings.snapshot_every (flush_if_pending w).records_since_snapshot)) [
        | inl y ↦ simp (idle, y) (omega arith)
        | inr n ↦ simp (idle, n) (flush_if_pending-IsCounted w h)
      ]

  round_on-IsCounted :
      (o : Option (Item M)) (q : List (Item M)) (w : Worker M)
      → IsCounted w
      → IsCounted (round_on settings o q w)
  unfolding round_on
  round_on-IsCounted (some item) q w h = handle-IsCounted item (record w { deferred = none }) h
  round_on-IsCounted none [] w h = idle-IsCounted w h
  round_on-IsCounted none (item ∷ q) w h = handle-IsCounted item (record w { queue = q }) h

  round-IsCounted : (w : Worker M) → IsCounted w → IsCounted (round settings w)
  unfolding round
  round-IsCounted w h = elim (Bool-cases w.is_running) [
    | inr ended ↦ simp (round, ended) h
    | inl up ↦ simp (round, up) (round_on-IsCounted w.deferred w.queue w h)
  ]

  enqueue-IsCounted : (item : Item M) (w : Worker M) → IsCounted w → IsCounted (enqueue item w).1
  unfolding enqueue
  enqueue-IsCounted item w h = elim (Bool-cases (ltb (length w.queue) 1024)) [
    | inl room ↦ simp (enqueue, room) h
    | inr full ↦ simp (enqueue, full) h
  ]

  pub reachable-invariant : (w : Worker M) → IsReachable w → IsLossless w × IsCounted w
  unfolding new_worker
  reachable-invariant _ created = (refl, omega arith)
  reachable-invariant _ (after_step w _ p (enqueues item _)) =
      let h = reachable-invariant w p in
      (enqueue-IsLossless item w h.0, enqueue-IsCounted item w h.1)
  reachable-invariant _ (after_step w _ p (rounds _)) =
      let h = reachable-invariant w p in (round-IsLossless settings w h.0, round-IsCounted w h.1)

  -- In every state of the worker, the mutations that were accepted are those of the records that were
  -- written, in the order of the journal, and after them those that wait: none is lost, repeated or
  -- out of order, however the batches are coalesced.
  pub nothing_lost :
      (w : Worker M) → IsReachable w → of_items w.accepted ≡ of_written w.log ++ waiting w
  nothing_lost w p = (reachable-invariant w p).0
