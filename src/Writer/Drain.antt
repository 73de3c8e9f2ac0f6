-- ===== src/Writer/Drain.antt =====
-- What a flush has reached when it is answered, and that the queue is worked off.
use rocket_cat_shell_linux.Base.{
  ℕ, zero, suc, ◌+◌, ◌-◌, ◌≤◌, ◌≡◌, refl, sym, ap, ◌∙◌, true, false, Option, none, some, List, [],
  ◌∷◌, ◌++◌, ltb, length, arith, Bool-cases, inl, inr, ◌⊎◌,
}
use rocket_cat_shell_linux.Writer.{
  Item, single, batched, flush_command, stop_command, Written, one, many, Settings, Worker,
  Coalesced, coalesce, flush, flush_if_pending, rotate, snapshot_due, rotate_if_due, handle,
  round_on, round,
}
use rocket_cat_shell_linux.Writer.Lossless.{
  of_items, of_written, deferred_items, View, view, view-flush_if_pending, view-rotate,
  view-rotate_if_due, view-write, view-idle,
}
use rocket_cat_shell_linux.Writer.Reach.{
  IsReachable, IsCounted, flush_if_pending-empty, reachable-invariant, nothing_lost,
}

module _ {M : Type 0} where
  -- The answer to a flush.
  abbrev pub IsFlushed : ℕ → Worker M → Worker M → Type 0
  IsFlushed e w v = (v.buffered ≡ []) × (v.done ≡ w.done ++ (e ∷ [])) × (v.log ≡ w.log)

  -- the items that still wait
  abbrev pub items : Worker M → List (Item M)
  items w = deferred_items w.deferred ++ w.queue

  -- No item waits, or the worker has ended.
  abbrev pub IsDone : Worker M → Type 0
  IsDone w = (items w ≡ []) ⊎ (w.is_running ≡ false)

module _ {M : Type 0} (settings : Settings M) where
  rotate_if_due-flushed :
      (w : Worker M)
      → w.buffered ≡ []
      → ((rotate_if_due settings w).buffered ≡ []) × ((rotate_if_due settings w).done ≡ w.done)
  unfolding rotate_if_due rotate
  rotate_if_due-flushed w h = elim (Bool-cases (snapshot_due settings w)) [
    | inl y ↦ simp (rotate_if_due, y) (refl, refl)
    | inr n ↦ simp (rotate_if_due, n) (h, refl)
  ]

  done-flush_if_pending : (w : Worker M) → (flush_if_pending w).done ≡ w.done
  unfolding flush_if_pending flush
  done-flush_if_pending w = elim (Bool-cases (ltb 0 w.pending_since_flush)) [
    | inl y ↦ simp (flush_if_pending, y) refl
    | inr n ↦ simp (flush_if_pending, n) refl
  ]

  handle-IsFlushed :
      (e : ℕ) (w : Worker M)
      → IsCounted settings w
      → IsFlushed e w (handle settings (flush_command e) w)
  unfolding handle
  handle-IsFlushed e w h =
      let r = rotate_if_due-flushed (flush_if_pending w) (flush_if_pending-empty settings w h).0 in
      (
        r.0,
        ap (λ (l : List ℕ). l ++ (e ∷ [])) (r.1 ∙ done-flush_if_pending w),
        ap (λ (v : View M). v.1)
            (view-rotate_if_due settings (flush_if_pending w) ∙ view-flush_if_pending w),
      )

  round_on-IsFlushed :
      (e : ℕ) (o : Option (Item M)) (q rest : List (Item M)) (w : Worker M)
      → IsCounted settings w
      → deferred_items o ++ q ≡ flush_command e ∷ rest
      → IsFlushed e w (round_on settings o q w)
  unfolding round_on
  round_on-IsFlushed e (some (flush_command x)) q rest w h is =
      rw (ap event is) (handle-IsFlushed e (record w { deferred = none }) h)
    where
      event : List (Item M) → ℕ
      event (flush_command n ∷ l) = n
      event _ = 0
  round_on-IsFlushed e none (flush_command x ∷ q) rest w h is =
      rw (ap event is) (handle-IsFlushed e (record w { queue = q }) h)
    where
      event : List (Item M) → ℕ
      event (flush_command n ∷ l) = n
      event _ = 0
  round_on-IsFlushed e (some (single m)) q rest w h is = cc
  round_on-IsFlushed e (some (batched m)) q rest w h is = cc
  round_on-IsFlushed e (some (stop_command x)) q rest w h is = cc
  round_on-IsFlushed e none [] rest w h is = cc
  round_on-IsFlushed e none (single m ∷ q) rest w h is = cc
  round_on-IsFlushed e none (batched m ∷ q) rest w h is = cc
  round_on-IsFlushed e none (stop_command x ∷ q) rest w h is = cc

  -- A running worker whose next item is a flush answers it in one round. Then nothing is buffered, and
  -- what was accepted before the flush is written: only what stands behind it waits.
  pub round-flush :
      (e : ℕ) (rest : List (Item M)) (w : Worker M)
      → IsReachable settings w
      → w.is_running ≡ true
      → items w ≡ flush_command e ∷ rest
      → IsFlushed e w (round settings w)
        × (of_items w.accepted ≡ of_written (round settings w).log ++ of_items rest)
  unfolding round
  round-flush e rest w p up is =
      let f : IsFlushed e w (round settings w) =
        simp (round, up)
          (round_on-IsFlushed e w.deferred w.queue rest w (reachable-invariant settings w p).1
            is) in
      (
        f,
        nothing_lost settings w p
            ∙ ap (λ (l : List (Item M)). of_written w.log ++ of_items l) is
            ∙ ap (λ (l : List (Written M)). of_written l ++ of_items rest) (sym f.2),
      )

  length-coalesce :
      (n : ℕ) (q : List (Item M))
      → length (deferred_items (coalesce n q).next_item ++ (coalesce n q).rest) ≤ length q
  unfolding coalesce
  length-coalesce zero q = omega arith
  length-coalesce (suc n) [] = omega arith
  length-coalesce (suc n) (batched m ∷ q) = omega (arith, length-coalesce n q)
  length-coalesce (suc n) (single m ∷ q) = omega arith
  length-coalesce (suc n) (flush_command e ∷ q) = omega arith
  length-coalesce (suc n) (stop_command e ∷ q) = omega arith

  abbrev left : View M → ℕ
  left v = length (deferred_items v.3 ++ v.2)

  left_queue : (w : Worker M) → w.deferred ≡ none → left (view w) ≡ length w.queue
  left_queue w d = ap (λ (o : Option (Item M)). length (deferred_items o ++ w.queue)) d

  handle-shorter :
      (item : Item M) (w : Worker M)
      → w.deferred ≡ none
      → length (items (handle settings item w)) ≤ length w.queue
  unfolding handle
  handle-shorter (single m) w d =
      omega (arith, ap left (view-write settings (one m) 1 w), left_queue w d)
  handle-shorter (batched m) w d =
      let c : Coalesced M = coalesce 31 w.queue in
      omega (
        arith,
        ap left (
            view-write settings (many (m ++ c.mutations)) (c.count + 1)
              (record w { queue = c.rest; deferred = c.next_item })),
        length-coalesce 31 w.queue,
      )
  handle-shorter (flush_command e) w d = omega (
    arith,
    ap left (view-rotate_if_due settings (flush_if_pending w) ∙ view-flush_if_pending w),
    left_queue w d,
  )
  handle-shorter (stop_command e) w d =
      omega (
        arith,
        ap left (view-rotate (flush_if_pending w) ∙ view-flush_if_pending w),
        left_queue w d,
      )

  round_on-shorter :
      (o : Option (Item M)) (q : List (Item M)) (w : Worker M)
      → w.deferred ≡ o
      → w.queue ≡ q
      → length (items (round_on settings o q w)) ≤ length (deferred_items o ++ q) - 1
  unfolding round_on
  round_on-shorter (some item) q w d e = omega (
    arith,
    handle-shorter item (record w { deferred = none }) refl,
    ap (λ (l : List (Item M)). length l) e,
  )
  round_on-shorter none [] w d e = omega (
    arith,
    ap left (view-idle settings w),
    left_queue w d,
    ap (λ (l : List (Item M)). length l) e,
  )
  round_on-shorter none (item ∷ q) w d e =
      omega (arith, handle-shorter item (record w { queue = q }) d)

  pub rounds : ℕ → Worker M → Worker M
  rounds zero w = w
  rounds (suc n) w = rounds n (round settings w)

  ended-stays : (n : ℕ) (w : Worker M) → w.is_running ≡ false → rounds n w ≡ w
  unfolding rounds round
  ended-stays zero w h = refl
  ended-stays (suc n) w h = simp (round, h) (ended-stays n w h)

  -- As many rounds as items wait write all of them, unless the worker is stopped before.
  pub drains : (n : ℕ) (w : Worker M) → length (items w) ≤ n → IsDone (rounds n w)
  unfolding rounds round
  drains zero w h = inl (nothing_left (items w) h)
    where
      nothing_left : (l : List (Item M)) → length l ≤ 0 → l ≡ []
      nothing_left [] z = refl
      nothing_left (item ∷ l) z = absurd (omega arith)
  drains (suc n) w h = elim (Bool-cases w.is_running) [
    | inl up ↦
        drains n (round settings w)
          (simp (round, up) (omega (arith, round_on-shorter w.deferred w.queue w refl refl)))
    | inr ended ↦ inr (ap (λ (v : Worker M). v.is_running) (ended-stays (suc n) w ended) ∙ ended)
  ]
