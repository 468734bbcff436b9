-- ===== src/Threads/Scheduler/Plan.antt =====
-- What the scheduler promises, on lists: the ready threads with the place of the running one, and the
-- waiting threads.
use sp_hw.Base.{
  ℕ, ◌+◌, ◌%◌, Bool, List, [], ◌∷◌, ◌++◌, Option, none, some, ◌==◌, if◌then◌else◌, length,
  get_elem?, set,
}
use sp_hw.Base.Error.{◌>>=◌}
use sp_hw.Threads.Scheduler.{Queues, Jump, Next, returns, runs}
use sp_hw.Threads.Scheduler.Arrays.{array}

pub record Plan {ℓ} (T : Type ℓ) : Type ℓ where
  pub ready : List T
  pub current : ℕ
  pub waiting : List T

module _ {ℓ} {T : Type ℓ} where
  -- The queues that hold a plan.
  abbrev pub queues : Plan T → Queues T
  queues p = record {
    ready = array p.ready;
    rq_size = length p.ready;
    rq_current = p.current;
    waiting = array p.waiting;
    wq_size = length p.waiting;
  }

  -- The threads that are woken, and those that wait on.
  abbrev pub chosen : (T → Bool) → List T → List T
  chosen is_set [] = []
  chosen is_set (t ∷ w) = if is_set t then t ∷ chosen is_set w else chosen is_set w

  abbrev pub kept : (T → Bool) → List T → List T
  kept is_set [] = []
  kept is_set (t ∷ w) = if is_set t then kept is_set w else t ∷ kept is_set w

  abbrev pub woken : (T → Bool) → Plan T → Plan T
  woken is_set p = record p {
    ready = p.ready ++ chosen is_set p.waiting;
    waiting = kept is_set p.waiting;
  }

  -- All but the last element, and the last one.
  abbrev pub front : T → List T → List T
  front x [] = []
  front x (y ∷ xs) = x ∷ front y xs

  abbrev pub final : T → List T → T
  final x [] = x
  final x (y ∷ xs) = final y xs

  -- The element at `c` taken out, and the last one put into its place.
  abbrev pub fill : List T → ℕ → List T
  fill [] c = []
  fill (x ∷ xs) c = set (front x xs) c (final x xs)

  abbrev pub at : List T → ℕ → List T
  at r c = elim (get_elem? r c) [ none ↦ [] | some t ↦ t ∷ [] ]

  -- The running thread leaves, or stays on a signal, and the next one is `current`.
  abbrev pub left : Jump → Plan T → Plan T
  left Jump.signal p = record p { current = (p.current + 1) % length p.ready }
  left Jump.reads p = record {
    ready = fill p.ready p.current;
    current = if p.current == length (fill p.ready p.current) then 0 else p.current;
    waiting = p.waiting ++ at p.ready p.current;
  }
  left Jump.exits p = record {
    ready = fill p.ready p.current;
    current = if p.current == length (fill p.ready p.current) then 0 else p.current;
    waiting = p.waiting;
  }

  -- The first poll that finds the waiting thread.
  abbrev pub waited : List (T → Bool) → T → Option T
  waited [] t = none
  waited (is_set ∷ polls) t = if is_set t then some t else waited polls t

  abbrev pub resumed : List (T → Bool) → List T → ℕ → List T → Option (Next T)
  resumed polls [] c [] = some returns
  resumed polls [] c (t ∷ w) = do
    u ← waited polls t
    some (runs u (queues (record { ready = u ∷ []; current = 0; waiting = w })))
  resumed polls (x ∷ r) c w = do
    t ← get_elem? (x ∷ r) c
    some (runs t (queues (record { ready = x ∷ r; current = c; waiting = w })))

  -- The promise.
  abbrev pub planned : Jump → (T → Bool) → List (T → Bool) → Plan T → Option (Next T)
  planned jump is_set polls p =
      let p' = left jump (woken is_set p) in resumed polls p'.ready p'.current p'.waiting
