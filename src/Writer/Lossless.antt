-- ===== src/Writer/Lossless.antt =====
-- Nothing that was accepted is lost, repeated or put in another order.
use rocket_cat_shell_linux.Base.{
  ℕ, zero, suc, ◌+◌, ◌≡◌, refl, sym, ap, ◌∙◌, Option, none, some, List, [], ◌∷◌, ◌++◌, ltb, leb,
  length, Bool-cases, inl, inr,
}
use rocket_cat_shell_linux.Writer.{
  Item, single, batched, flush_command, stop_command, Written, one, many, Settings, Worker,
  Coalesced, coalesce, enqueue, flush, flush_if_pending, rotate, snapshot_due, rotate_if_due, write,
  handle, idle, round_on, round,
}
use mathlib.Core.List.{append_assoc, append-nil}
use mathlib.Core.Path.{subst}

-- What the history is about.
abbrev pub View : Type 0 → Type 0
View M = List (Item M) × List (Written M) × List (Item M) × Option (Item M)

module _ {M : Type 0} where
  -- The mutations of items, and of records, in order.
  abbrev pub of_items : List (Item M) → List M
  of_items [] = []
  of_items (single m ∷ l) = m ∷ of_items l
  of_items (batched m ∷ l) = m ++ of_items l
  of_items (flush_command e ∷ l) = of_items l
  of_items (stop_command e ∷ l) = of_items l

  abbrev pub of_written : List (Written M) → List M
  of_written [] = []
  of_written (one m ∷ l) = m ∷ of_written l
  of_written (many m ∷ l) = m ++ of_written l

  abbrev pub deferred_items : Option (Item M) → List (Item M)
  deferred_items none = []
  deferred_items (some item) = item ∷ []

  -- The mutations that are still to be written.
  abbrev pub waiting : Worker M → List M
  waiting w = of_items (deferred_items w.deferred ++ w.queue)

  of_items-append : (a b : List (Item M)) → of_items (a ++ b) ≡ of_items a ++ of_items b
  of_items-append [] b = refl
  of_items-append (single m ∷ a) b = ap (◌∷◌ m) (of_items-append a b)
  of_items-append (batched m ∷ a) b =
      ap (◌++◌ m) (of_items-append a b) ∙ sym (append_assoc m (of_items a) (of_items b))
  of_items-append (flush_command e ∷ a) b = of_items-append a b
  of_items-append (stop_command e ∷ a) b = of_items-append a b

  of_written-append : (a b : List (Written M)) → of_written (a ++ b) ≡ of_written a ++ of_written b
  of_written-append [] b = refl
  of_written-append (one m ∷ a) b = ap (◌∷◌ m) (of_written-append a b)
  of_written-append (many m ∷ a) b =
      ap (◌++◌ m) (of_written-append a b) ∙ sym (append_assoc m (of_written a) (of_written b))

  -- What is coalesced, the deferred item and the rest are the queue.
  of_items-coalesce :
      (n : ℕ) (q : List (Item M))
      → (coalesce n q).mutations
          ++ of_items (deferred_items (coalesce n q).next_item ++ (coalesce n q).rest)
        ≡ of_items q
  unfolding coalesce
  of_items-coalesce zero q = refl
  of_items-coalesce (suc n) [] = refl
  of_items-coalesce (suc n) (batched m ∷ q) =
      append_assoc m (coalesce n q).mutations _ ∙ ap (◌++◌ m) (of_items-coalesce n q)
  of_items-coalesce (suc n) (single m ∷ q) = refl
  of_items-coalesce (suc n) (flush_command e ∷ q) = refl
  of_items-coalesce (suc n) (stop_command e ∷ q) = refl

  -- What was accepted is what was written and what waits, in this order.
  abbrev pub IsLossless : Worker M → Type 0
  IsLossless w = of_items w.accepted ≡ of_written w.log ++ waiting w

  pub enqueue-IsLossless :
      (item : Item M) (w : Worker M) → IsLossless w → IsLossless (enqueue item w).1
  unfolding enqueue
  enqueue-IsLossless item w h = elim (Bool-cases (ltb (length w.queue) 1024)) [
    | inr full ↦ simp (enqueue, full) h
    | inl room ↦
        simp (enqueue, room)
          (of_items-append w.accepted (item ∷ [])
            ∙ ap (λ (l : List M). l ++ of_items (item ∷ [])) h
            ∙ append_assoc (of_written w.log) (waiting w) (of_items (item ∷ []))
            ∙ ap (◌++◌ (of_written w.log)) (
                sym (of_items-append (deferred_items w.deferred ++ w.queue) (item ∷ []))
                ∙ ap of_items (append_assoc (deferred_items w.deferred) w.queue (item ∷ []))))
  ]

  abbrev pub view : Worker M → View M
  view w = (w.accepted, w.log, w.queue, w.deferred)

  abbrev Fits : View M → Type 0
  Fits v = of_items v.0 ≡ of_written v.1 ++ of_items (deferred_items v.3 ++ v.2)

  pub view-flush_if_pending : (w : Worker M) → view (flush_if_pending w) ≡ view w
  unfolding flush_if_pending
  view-flush_if_pending w = elim (Bool-cases (ltb 0 w.pending_since_flush)) [
    | inl y ↦ simp (flush_if_pending, y, flush) refl
    | inr n ↦ simp (flush_if_pending, n) refl
  ]

  pub view-rotate : (w : Worker M) → view (rotate w) ≡ view w
  unfolding rotate
  view-rotate w = refl

  module _ (settings : Settings M) where
    pub view-rotate_if_due : (w : Worker M) → view (rotate_if_due settings w) ≡ view w
    unfolding rotate_if_due rotate
    view-rotate_if_due w = elim (Bool-cases (snapshot_due settings w)) [
      | inl y ↦ simp (rotate_if_due, y) refl
      | inr n ↦ simp (rotate_if_due, n) refl
    ]

    pub view-write :
        (r : Written M) (n : ℕ) (w : Worker M)
        → view (write settings r n w) ≡ (w.accepted, w.log ++ (r ∷ []), w.queue, w.deferred)
    unfolding write flush
    view-write r n w = elim (Bool-cases (leb settings.flush_every (w.pending_since_flush + n))) [
      | inl y ↦ simp (write, y) (view-rotate_if_due _)
      | inr no_flush ↦ simp (write, no_flush) (view-rotate_if_due _)
    ]

    pub view-idle : (w : Worker M) → view (idle settings w) ≡ view w
    unfolding idle
    view-idle w =
        elim (Bool-cases
          (leb settings.snapshot_every (flush_if_pending w).records_since_snapshot)) [
            | inl y ↦ simp (idle, y) (view-rotate (flush_if_pending w) ∙ view-flush_if_pending w)
            | inr n ↦ simp (idle, n) (view-flush_if_pending w)
          ]

    -- One more record in the log.
    of_written-snoc :
        (log : List (Written M)) (r : Written M) (rest : List M)
        → of_written (log ++ (r ∷ [])) ++ rest ≡ of_written log ++ (of_written (r ∷ []) ++ rest)
    of_written-snoc log r rest =
        ap (λ (l : List M). l ++ rest) (of_written-append log (r ∷ []))
        ∙ append_assoc (of_written log) (of_written (r ∷ [])) rest

    pub no_deferred :
        (w : Worker M)
        → w.deferred ≡ none
        → of_items (deferred_items w.deferred ++ w.queue) ≡ of_items w.queue
    no_deferred w d = ap (λ (o : Option (Item M)). of_items (deferred_items o ++ w.queue)) d

    -- A round with an item writes it, in front of what still waits.
    handle-IsLossless :
        (item : Item M) (w : Worker M)
        → w.deferred ≡ none
        → of_items w.accepted ≡ of_written w.log ++ of_items (item ∷ w.queue)
        → Fits (view (handle settings item w))
    unfolding handle
    handle-IsLossless (single m) w d h = subst Fits (sym (view-write (one m) 1 w)) (
        h
        ∙ sym (
            of_written-snoc w.log (one m) (of_items (deferred_items w.deferred ++ w.queue))
            ∙ ap (λ (l : List M). of_written w.log ++ (m ∷ l)) (no_deferred w d)))
    handle-IsLossless (batched m) w d h =
        let c : Coalesced M = coalesce 31 w.queue in
        subst Fits
          (sym (
            view-write (many (m ++ c.mutations)) (c.count + 1)
              (record w { queue = c.rest; deferred = c.next_item })))
          (h
            ∙ ap (λ (l : List M). of_written w.log ++ (m ++ l)) (sym (of_items-coalesce 31 w.queue))
            ∙ ap (◌++◌ (of_written w.log)) (
                sym (append_assoc m c.mutations (of_items (deferred_items c.next_item ++ c.rest)))
                ∙ ap (λ (l : List M). l ++ of_items (deferred_items c.next_item ++ c.rest))
                    (sym (append-nil (m ++ c.mutations))))
            ∙ sym (
                of_written-snoc w.log (many (m ++ c.mutations))
                  (of_items (deferred_items c.next_item ++ c.rest))))
    handle-IsLossless (flush_command e) w d h =
        subst Fits (sym (view-rotate_if_due (flush_if_pending w) ∙ view-flush_if_pending w))
          (h ∙ ap (◌++◌ (of_written w.log)) (sym (no_deferred w d)))
    handle-IsLossless (stop_command e) w d h =
        subst Fits (sym (view-rotate (flush_if_pending w) ∙ view-flush_if_pending w))
          (h ∙ ap (◌++◌ (of_written w.log)) (sym (no_deferred w d)))

    pub round-IsLossless : (w : Worker M) → IsLossless w → IsLossless (round settings w)
    unfolding round round_on
    round-IsLossless w h = elim (Bool-cases w.is_running) [
      | inr ended ↦ simp (round, ended) h
      | inl up ↦ simp (round, up) (on w.deferred w.queue refl refl)
    ]
      where
        on :
            (o : Option (Item M)) (q : List (Item M))
            → w.deferred ≡ o
            → w.queue ≡ q
            → IsLossless (round_on settings o q w)
        on (some item) q d e =
            handle-IsLossless item (record w { deferred = none }) refl
              (h
                ∙ ap
                    (λ (x : Option (Item M)).
                      of_written w.log ++ of_items (deferred_items x ++ w.queue))
                    d)
        on none [] d e = subst Fits (sym (view-idle w)) h
        on none (item ∷ q) d e =
            handle-IsLossless item (record w { queue = q }) d
              (h ∙ ap (◌++◌ (of_written w.log)) (no_deferred w d ∙ ap of_items e))
