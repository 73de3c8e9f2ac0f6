-- ===== src/Writer.antt =====
-- rocketcat_shell/bridge/hot_storage.py: `JournalPersistenceWorker`, the thread that writes the
-- journal. `M` is the type of a mutation. A round of `_run` is one step; a batch that is enqueued
-- while the round coalesces is one that was enqueued before it.
mod Lossless
mod Reach
mod Drain
mod Capacity
mod Tests
use rocket_cat_shell_linux.Base.{
  ℕ, zero, suc, ◌+◌, ◌-◌, ◌/◌, Bool, true, false, ◌&&◌, ◌||◌, max, Option, none, some, List, [],
  ◌∷◌, ◌++◌, ltb, leb, if◌then◌else◌, length,
}

abbrev pub queue_capacity : ℕ
queue_capacity = 1024

abbrev pub force_snapshot_bytes : ℕ
force_snapshot_bytes = 67108864

module _ (M : Type 0) where
  -- An item of the queue: a mutation, a batch, or a command with the number of its event.
  pub data Item : Type 0 where
    single : M → Item
    batched : List M → Item
    flush_command : ℕ → Item
    stop_command : ℕ → Item

  -- A record of the journal.
  pub data Written : Type 0 where
    one : M → Written
    many : List M → Written

-- `JournalPersistenceWorker.__init__`, and the size of a record in the file
pub record Settings (M : Type 0) : Type 0 where
  pub flush_every : ℕ
  pub snapshot_every : ℕ
  pub size_of : Written M → ℕ

-- The worker. `buffered` was written and not flushed, `file` is what the journal has else, `bytes`
-- the position of the handle. The last two fields are the history: the items that were enqueued,
-- and the records that were ever written.
pub record Worker (M : Type 0) : Type 0 where
  pub queue : List (Item M)
  pub deferred : Option (Item M)
  pub file : List (Written M)
  pub buffered : List (Written M)
  pub bytes : ℕ
  pub pending_since_flush : ℕ
  pub records_since_snapshot : ℕ
  pub snapshot_count : ℕ
  pub coalesced_batch_count : ℕ
  pub done : List ℕ
  pub is_running : Bool
  pub accepted : List (Item M)
  pub log : List (Written M)

-- What the inner loop takes from the queue: the mutations and the number of the further batches, the
-- item that it defers, and the rest of the queue.
pub record Coalesced (M : Type 0) : Type 0 where
  pub mutations : List M
  pub count : ℕ
  pub next_item : Option (Item M)
  pub rest : List (Item M)

module _ {M : Type 0} where
  pub new_worker : Worker M
  new_worker = record {
    queue = [];
    deferred = none;
    file = [];
    buffered = [];
    bytes = 0;
    pending_since_flush = 0;
    records_since_snapshot = 0;
    snapshot_count = 0;
    coalesced_batch_count = 0;
    done = [];
    is_running = true;
    accepted = [];
    log = [];
  }

  abbrev stop_here : Option (Item M) → List (Item M) → Coalesced M
  stop_here item q = record { mutations = []; count = 0; next_item = item; rest = q }

  -- At most so many more batches.
  pub coalesce : ℕ → List (Item M) → Coalesced M
  coalesce zero q = stop_here none q
  coalesce (suc n) [] = stop_here none []
  coalesce (suc n) (batched m ∷ q) =
      let c = coalesce n q in record c { mutations = m ++ c.mutations; count = c.count + 1 }
  coalesce (suc n) (single m ∷ q) = stop_here (some (single m)) q
  coalesce (suc n) (flush_command e ∷ q) = stop_here (some (flush_command e)) q
  coalesce (suc n) (stop_command e ∷ q) = stop_here (some (stop_command e)) q

  -- `put_nowait`: `false` is `queue.Full`.
  pub enqueue : Item M → Worker M → Bool × Worker M
  enqueue item w =
      if ltb (length w.queue) queue_capacity
      then (true, record w { queue = w.queue ++ (item ∷ []); accepted = w.accepted ++ (item ∷ []) })
      else (false, w)

  -- `_flush_handle`, and the count set to 0
  pub flush : Worker M → Worker M
  flush w = record w { file = w.file ++ w.buffered; buffered = []; pending_since_flush = 0 }

  pub flush_if_pending : Worker M → Worker M
  unfolding flush
  flush_if_pending w = if ltb 0 w.pending_since_flush then flush w else w

  -- `_write_snapshot_and_rotate`, and the count set to 0; closing the handle flushes it, and the
  -- journal is empty then.
  pub rotate : Worker M → Worker M
  rotate w = record w {
    file = [];
    buffered = [];
    bytes = 0;
    records_since_snapshot = 0;
    snapshot_count = w.snapshot_count + 1;
  }

  module _ (settings : Settings M) where
    open settings use {flush_every, snapshot_every, size_of}

    pub snapshot_due : Worker M → Bool
    snapshot_due w =
        leb force_snapshot_bytes w.bytes
        || leb snapshot_every w.records_since_snapshot
          && ltb (length w.queue) (max 1 (queue_capacity / 4))

    pub rotate_if_due : Worker M → Worker M
    unfolding snapshot_due rotate
    rotate_if_due w = if snapshot_due w then rotate w else w

    -- The end of a round that has a record for so many items.
    pub write : Written M → ℕ → Worker M → Worker M
    unfolding flush rotate_if_due
    write r logical w =
        let written : Worker M = record w {
          buffered = w.buffered ++ (r ∷ []);
          bytes = w.bytes + size_of r;
          pending_since_flush = w.pending_since_flush + logical;
          records_since_snapshot = w.records_since_snapshot + logical;
          coalesced_batch_count = w.coalesced_batch_count + (logical - 1);
          log = w.log ++ (r ∷ []);
        } in
        rotate_if_due
          (if leb flush_every written.pending_since_flush then flush written else written)

    -- A round with an item.
    pub handle : Item M → Worker M → Worker M
    unfolding flush_if_pending rotate_if_due rotate write coalesce
    handle (single m) w = write (one m) 1 w
    handle (batched m) w =
        let c = coalesce 31 w.queue in
        write (many (m ++ c.mutations)) (c.count + 1)
          (record w { queue = c.rest; deferred = c.next_item })
    handle (flush_command e) w =
        let due = rotate_if_due (flush_if_pending w) in record due { done = due.done ++ (e ∷ []) }
    handle (stop_command e) w =
        let last = rotate (flush_if_pending w) in
        record last { done = last.done ++ (e ∷ []); is_running = false }

    -- A round in which the queue stayed empty.
    pub idle : Worker M → Worker M
    unfolding flush_if_pending rotate
    idle w =
        let flushed = flush_if_pending w in
        if leb snapshot_every flushed.records_since_snapshot then rotate flushed else flushed

    pub round_on : Option (Item M) → List (Item M) → Worker M → Worker M
    unfolding handle idle
    round_on (some item) q w = handle item (record w { deferred = none })
    round_on none [] w = idle w
    round_on none (item ∷ q) w = handle item (record w { queue = q })

    -- A round of the loop of `_run`.
    pub round : Worker M → Worker M
    unfolding round_on
    round w = if w.is_running then round_on w.deferred w.queue w else w
