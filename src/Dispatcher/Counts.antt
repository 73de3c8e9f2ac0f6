-- ===== src/Dispatcher/Counts.antt =====
-- How many workers use, hold or miss a lock.
use rocket_cat_shell_linux.Base.{
  ℕ, ◌+◌, ◌≤◌, ◌≡◌, refl, false, none, some, List, [], ◌∷◌, ◌++◌, arith, suc, zero, nat_beq,
  if◌then◌else◌, ◌==◌,
}
use rocket_cat_shell_linux.Base.Dict.{Dict, get}
use rocket_cat_shell_linux.Base.Text.{Text, text_key, text_beq_iff}
use rocket_cat_shell_linux.Dispatcher.{
  Worker, idle, waiting, holding, finished, tally, holds, idle_workers,
}

-- 1 for a worker that handles a request on the target
abbrev pub uses : Text → Worker → ℕ
uses k (waiting j n) = if j == k then 1 else 0
uses k (holding j n) = if j == k then 1 else 0
uses k _ = 0

-- 1 for a worker that runs an action on the target
abbrev pub runs : Text → Worker → ℕ
runs k (holding j n) = if j == k then 1 else 0
runs k _ = 0

abbrev pub is_active : Worker → ℕ
is_active (waiting j n) = 1
is_active (holding j n) = 1
is_active _ = 0

abbrev pub mismatch : Dict Text ℕ → Text → ℕ → ℕ
mismatch d k n = elim (get d k) [ none ↦ 1 | some m ↦ if nat_beq m n then 0 else 1 ]

-- 1 for a worker whose lock is not the one of its target
abbrev pub misses : Dict Text ℕ → Worker → ℕ
misses d (waiting k n) = mismatch d k n
misses d (holding k n) = mismatch d k n
misses d _ = 0

pub tally-append :
    (f : Worker → ℕ) (a : List Worker) (w : Worker) (b : List Worker)
    → tally f (a ++ (w ∷ b)) ≡ tally f a + (f w + tally f b)
tally-append f [] w b = omega arith
tally-append f (v ∷ a) w b = omega (arith, tally-append f a w b)

pub tally-join : (f : Worker → ℕ) (a b : List Worker) → tally f (a ++ b) ≡ tally f a + tally f b
tally-join f [] b = omega arith
tally-join f (v ∷ a) b = omega (arith, tally-join f a b)

pub tally-idle_workers :
    (f : Worker → ℕ) (l : List Worker) (n : ℕ)
    → f idle ≡ 0
    → tally f (l ++ idle_workers n) ≡ tally f l
tally-idle_workers f [] zero h = refl
tally-idle_workers f [] (suc n) h = omega (arith, tally-idle_workers f [] n h)
tally-idle_workers f (v ∷ l) n h = omega (arith, tally-idle_workers f l n h)

-- A change of the locks of a target that no worker uses.
pub tally-misses :
    (d e : Dict Text ℕ) (k : Text) (l : List Worker)
    → ((j : Text) → (k == j) ≡ false → get e j ≡ get d j)
    → tally (uses k) l ≡ 0
    → tally (misses e) l ≡ tally (misses d) l
tally-misses d e k [] h u = refl
tally-misses d e k (idle ∷ l) h u = omega (arith, tally-misses d e k l h (omega arith))
tally-misses d e k (finished ∷ l) h u = omega (arith, tally-misses d e k l h (omega arith))
tally-misses d e k (waiting j n ∷ l) h u =
    ground (arith, tally-misses d e k l h, h j, text_beq_iff j k, text_beq_iff k j)
tally-misses d e k (holding j n ∷ l) h u =
    ground (arith, tally-misses d e k l h, h j, text_beq_iff j k, text_beq_iff k j)

-- Who runs an action on the target has its lock.
pub runs-holds :
    (d : Dict Text ℕ) (k : Text) (lock : ℕ) (l : List Worker)
    → get d k ≡ some lock
    → tally (runs k) l ≤ tally (holds lock) l + tally (misses d) l
runs-holds d k lock [] h = omega arith
runs-holds d k lock (idle ∷ l) h = omega (arith, runs-holds d k lock l h)
runs-holds d k lock (finished ∷ l) h = omega (arith, runs-holds d k lock l h)
runs-holds d k lock (waiting j n ∷ l) h = ground (arith, runs-holds d k lock l h)
runs-holds d k lock (holding j n ∷ l) h = ground (arith, runs-holds d k lock l h, text_beq_iff j k)

-- A target without a lock is not in use.
pub uses-misses :
    (d : Dict Text ℕ) (k : Text) (l : List Worker)
    → get d k ≡ none
    → tally (uses k) l ≤ tally (misses d) l
uses-misses d k [] h = omega arith
uses-misses d k (idle ∷ l) h = omega (arith, uses-misses d k l h)
uses-misses d k (finished ∷ l) h = omega (arith, uses-misses d k l h)
uses-misses d k (waiting j n ∷ l) h = ground (arith, uses-misses d k l h, text_beq_iff j k)
uses-misses d k (holding j n ∷ l) h = ground (arith, uses-misses d k l h, text_beq_iff j k)
