-- ===== src/Threads/Scheduler.antt =====
-- `scheduler` of thread-library/scheduler.c, and the jumps into it of threadtools.h. The tcbs that the
-- queues point to are values of any type `T`; `none` in a cell is NULL. What select reports is a test
-- on the tcbs, by their descriptors.
pub mod Arrays
pub mod Plan
pub mod Wake
pub mod Switch
pub mod Refine
pub mod Keep
pub mod Turn
pub mod Fair
pub mod Lost
use sp_hw.Base.{
  ℕ, zero, suc, ◌+◌, ◌-◌, ◌%◌, Bool, true, false, ◌||◌, List, [], ◌∷◌, Option, none, some, ◌==◌,
  ltb, if◌then◌else◌, length, get_elem?, set, replicate,
}
use sp_hw.Base.Error.{◌>>=◌, ◌>>◌, guard}

-- THREAD_MAX
abbrev pub thread_max : ℕ
thread_max = 16

-- ready_queue, rq_size, rq_current, waiting_queue and wq_size
pub record Queues {ℓ} (T : Type ℓ) : Type ℓ where
  pub ready : List (Option T)
  pub rq_size : ℕ
  pub rq_current : ℕ
  pub waiting : List (Option T)
  pub wq_size : ℕ

-- The value that setjmp(sched_buf) returns: 1 from the signal handler, 2 from async_read, 3 from
-- thread_exit.
pub data Jump : Type 0 where
  signal reads exits : Jump

-- What `scheduler` ends with: it returns, or it jumps to the running thread.
pub data Next {ℓ} (T : Type ℓ) : Type ℓ where
  returns : Next T
  runs : T → Queues T → Next T

module _ {ℓ} {T : Type ℓ} where
  -- A write to a cell of an array.
  unfoldable pub write : List (Option T) → ℕ → Option T → Option (List (Option T))
  write cells i v = if ltb i (length cells) then some (set cells i v) else none

  -- waiting_queue[i]->fd, read through the cell.
  abbrev pub deref : List (Option T) → ℕ → Option T
  deref cells i = elim (get_elem? cells i) [ none ↦ none | some cell ↦ cell ]

  -- The loop of FD_SET and the call of select: whether some descriptor is set. There are `n` cells
  -- to go from `i` on.
  unfoldable pub poll : ℕ → ℕ → (T → Bool) → List (Option T) → Option Bool
  poll zero i is_set waiting = some false
  poll (suc n) i is_set waiting = do
    t ← deref waiting i
    rest ← poll n (i + 1) is_set waiting
    some (is_set t || rest)

  -- The body of the first `for`: a thread whose descriptor is set goes to the end of the ready queue.
  unfoldable pub move_one : ℕ → T → Bool → Queues T → Option (Queues T)
  move_one i t false q = some q
  move_one i t true q = do
    ready ← write q.ready q.rq_size (some t)
    waiting ← write q.waiting i none
    some (record q { ready = ready; rq_size = q.rq_size + 1; waiting = waiting })

  unfoldable pub move_ready : ℕ → ℕ → (T → Bool) → Queues T → Option (Queues T)
  unfolding move_one
  move_ready zero i is_set q = some q
  move_ready (suc n) i is_set q = do
    t ← deref q.waiting i
    q' ← move_one i t (is_set t) q
    move_ready n (i + 1) is_set q'

  -- The body of the second `for`, on the array and `j`: what is left goes to the front.
  unfoldable pub pack_one : ℕ → Option T → List (Option T) × ℕ → Option (List (Option T) × ℕ)
  pack_one i none (waiting, j) = some (waiting, j)
  pack_one i (some t) (waiting, j) = do
    moved ← write waiting j (some t)
    cleared ← write moved i none
    some (cleared, j + 1)

  unfoldable pub pack : ℕ → ℕ → List (Option T) × ℕ → Option (List (Option T) × ℕ)
  unfolding pack_one
  pack zero i state = some state
  pack (suc n) i state = do
    cell ← get_elem? state.0 i
    state' ← pack_one i cell state
    pack n (i + 1) state'

  -- The block under `select(...) > 0`; it stands twice in the source.
  unfoldable pub take_ready : (T → Bool) → Queues T → Option (Queues T)
  unfolding move_ready pack
  take_ready is_set q = do
    moved ← move_ready q.wq_size 0 is_set q
    packed ← pack moved.wq_size 0 (moved.waiting, 0)
    some (record moved { waiting = packed.0; wq_size = packed.1 })

  -- The call of select with that block. The Boolean says whether a descriptor was set.
  unfoldable pub wake : (T → Bool) → Queues T → Option (Queues T × Bool)
  unfolding poll take_ready
  wake is_set q = do
    found ← poll q.wq_size 0 is_set q.waiting
    elim found [ true ↦ take_ready is_set q >>= λ q'. some (q', true) | false ↦ some (q, false) ]

  -- The last ready thread fills the place of the running one.
  unfoldable pub fill_hole : Queues T → Option (Queues T)
  fill_hole q = do
    last ← get_elem? q.ready (q.rq_size - 1)
    filled ← write q.ready q.rq_current last
    cleared ← write filled (q.rq_size - 1) none
    some (record q { ready = cleared; rq_size = q.rq_size - 1 })

  -- The two chains of `if` on `tmp`.
  unfoldable pub leave : Jump → Queues T → Option (Queues T)
  unfolding fill_hole
  leave Jump.signal q = some q
  leave Jump.reads q = do
    running ← get_elem? q.ready q.rq_current
    waiting ← write q.waiting q.wq_size running
    fill_hole (record q { waiting = waiting; wq_size = q.wq_size + 1 })
  leave Jump.exits q = fill_hole q

  unfoldable pub advance : Jump → Queues T → Option (Queues T)
  advance Jump.signal q =
      if q.rq_size == 0
      then none
      else some (record q { rq_current = (q.rq_current + 1) % q.rq_size })
  advance Jump.reads q = some (if q.rq_current == q.rq_size then record q { rq_current = 0 } else q)
  advance Jump.exits q = some (if q.rq_current == q.rq_size then record q { rq_current = 0 } else q)

  -- The `while (flag)` on what select reports round by round: `none` also while none of the rounds
  -- given reports a descriptor.
  unfoldable pub wait_loop : List (T → Bool) → Queues T → Option (Queues T)
  wait_loop [] q = none
  wait_loop (is_set ∷ polls) q = do
    woken ← wake is_set q
    elim woken.1 [ true ↦ some (record woken.0 { rq_current = 0 }) | false ↦ wait_loop polls q ]

  -- longjmp(RUNNING->environment, 1)
  unfoldable pub resume : Queues T → Option (Next T)
  resume q = do t ← deref q.ready q.rq_current; some (runs t q)

  -- What follows once the running thread has left: with no thread ready the scheduler returns, waits
  -- for the one waiting thread, or goes on.
  unfoldable pub pick : List (T → Bool) → Queues T → Option (Next T)
  unfolding resume
  pick polls q =
      if q.rq_size == 0
      then (if q.wq_size == 0
          then some returns
          else if q.wq_size == 1
          then wait_loop polls q >>= resume
          else resume q)
      else resume q

  -- The branch of `scheduler` for a jump into it.
  unfoldable pub schedule : Jump → (T → Bool) → List (T → Bool) → Queues T → Option (Next T)
  schedule jump is_set polls q = do
    woken ← wake is_set q
    left ← leave jump woken.0
    q' ← advance jump left
    pick polls q'
