-- ===== src/Threads/Start.antt =====
-- `init_threads` and `start_threading` of thread-library/main.c, with thread_setup of threadtools.h and
-- the first call of `scheduler`.
use sp_hw.Base.{
  ℕ, ◌+◌, ◌≡◌, ◌≢◌, refl, true, false, List, [], ◌∷◌, Option, none, some, arith, if◌then◌else◌,
  length, length-append, ap, sym, ◌<◌, ◌≤◌, ◌++◌,
}
use sp_hw.Base.Int.{ℤ, pos, negsuc, ltb_ℤ}
use sp_hw.Base.Error.{◌>>=◌}
use mathlib.Core.List.Perm
use mathlib.Core.List.{append-nil}
use sp_hw.Threads.Scheduler.{thread_max, Queues, Next, runs, write, deref}
use sp_hw.Threads.Scheduler.Arrays.{write-end}
use sp_hw.Threads.Scheduler.Plan.{queues}
use sp_hw.Threads.Scheduler.Keep.{Runs}

-- The part of a new tcb that tells the threads apart: 0 is fibonacci, 1 is collatz, 2 is max_subarray.
pub record Thread : Type 0 where
  pub id : ℕ
  pub arg : ℤ

-- thread_setup
unfoldable pub thread_create : ℕ → ℤ → Queues Thread → Option (Queues Thread)
thread_create id arg q = do
  ready ← write q.ready q.rq_size (some (record { id = id; arg = arg }))
  some (record q { ready = ready; rq_size = q.rq_size + 1 })

-- A thread is made if its argument is not negative.
unfoldable pub create_if : ℕ → ℤ → Queues Thread → Option (Queues Thread)
unfolding thread_create
create_if id arg q = if ltb_ℤ arg (pos 0) then some q else thread_create id arg q

unfoldable pub init_threads : ℤ → ℤ → ℤ → Queues Thread → Option (Queues Thread)
unfolding create_if
init_threads fib_arg col_arg sub_arg q = do
  q1 ← create_if 0 fib_arg q
  q2 ← create_if 1 col_arg q1
  create_if 2 sub_arg q2

-- The jump of the first call of `scheduler`.
unfoldable pub scheduler_first : Queues Thread → Option (Next Thread)
scheduler_first q = do t ← deref q.ready 0; some (runs t q)

-- The queues as they are before: without a thread.
abbrev pub no_threads : Queues Thread
no_threads = queues (record { ready = []; current = 0; waiting = [] })

unfoldable pub start : ℤ → ℤ → ℤ → Option (Next Thread)
unfolding init_threads scheduler_first
start fib_arg col_arg sub_arg = init_threads fib_arg col_arg sub_arg no_threads >>= scheduler_first

-- The threads that the arguments ask for.
abbrev pub one_asked : ℕ → ℤ → List Thread
one_asked id (pos n) = record { id = id; arg = pos n } ∷ []
one_asked id (negsuc n) = []

abbrev pub asked : ℤ → ℤ → ℤ → List Thread
asked fib_arg col_arg sub_arg = (one_asked 0 fib_arg ++ one_asked 1 col_arg) ++ one_asked 2 sub_arg

abbrev pub ready_only : List Thread → Queues Thread
ready_only r = queues (record { ready = r; current = 0; waiting = [] })

create_if-one_asked :
    (id : ℕ) (arg : ℤ) (r : List Thread)
    → length r < thread_max
    → create_if id arg (ready_only r) ≡ some (ready_only (r ++ one_asked id arg))
unfolding create_if
create_if-one_asked id (pos n) r room =
    let t : Thread = record { id = id; arg = pos n } in
    let made : ltb_ℤ (pos n) (pos 0) ≡ false = ground arith in
    let longer : length r + 1 ≡ length (r ++ t ∷ []) = omega (arith, length-append r (t ∷ [])) in
    rw (made, write-end r t room)
      (ap (λ n. some (record (ready_only (r ++ t ∷ [])) { rq_size = n })) longer)
create_if-one_asked id (negsuc n) r room =
    let not_made : ltb_ℤ (negsuc n) (pos 0) ≡ true = ground arith in
    rw not_made (ap (λ l. some (ready_only l)) (sym (append-nil r)))

pub length-one_asked : (id : ℕ) (arg : ℤ) → length (one_asked id arg) ≤ 1
length-one_asked id (pos n) = omega arith
length-one_asked id (negsuc n) = omega arith

pub init_threads-asked :
    (fib_arg col_arg sub_arg : ℤ)
    → init_threads fib_arg col_arg sub_arg no_threads
      ≡ some (ready_only (asked fib_arg col_arg sub_arg))
unfolding init_threads
init_threads-asked f c s =
    let one = length-one_asked 0 f in
    let two = length-append (one_asked 0 f) (one_asked 1 c) in
    rw
      (
        create_if-one_asked 0 f [] (omega arith),
        create_if-one_asked 1 c (one_asked 0 f) (omega (arith, one)),
      )
      (create_if-one_asked 2 s (one_asked 0 f ++ one_asked 1 c)
        (omega (arith, one, two, length-one_asked 1 c)))

started :
    (t : Thread) (rest : List Thread)
    → Runs t (queues (record { ready = t ∷ rest; current = 0; waiting = [] })) (t ∷ rest)
started t rest = record {
  plan = record { ready = t ∷ rest; current = 0; waiting = [] };
  held = refl;
  inside = omega arith;
  running = refl;
  lone = omega arith;
  same = rw append-nil Perm.rfl;
}

first_runs :
    (l : List Thread)
    → l ≢ []
    → (t : Thread) × (q : Queues Thread) × (scheduler_first (ready_only l) ≡ some (runs t q))
      × Runs t q l
unfolding scheduler_first
first_runs [] h = absurd (h refl)
first_runs (t ∷ l) h = (t, ready_only (t ∷ l), refl, started t l)

first_runs_on :
    (l : List Thread)
    → l ≢ []
    → (t : Thread) × (scheduler_first (ready_only l) ≡ some (runs t (ready_only l)))
unfolding scheduler_first
first_runs_on [] h = absurd (h refl)
first_runs_on (t ∷ l) h = (t, refl)

-- If one of the three arguments is not negative, the program starts one of the threads asked for, on
-- queues that hold just these, none of them waiting.
pub start-Runs :
    (fib_arg col_arg sub_arg : ℤ)
    → asked fib_arg col_arg sub_arg ≢ []
    → (t : Thread) × (q : Queues Thread) × (start fib_arg col_arg sub_arg ≡ some (runs t q))
      × Runs t q (asked fib_arg col_arg sub_arg)
unfolding start
start-Runs f c s h =
    let (t, q, e, r) = first_runs (asked f c s) h in (t, q, rw (init_threads-asked f c s) e, r)

-- If all three arguments are negative, so that no thread is asked for, the program jumps through NULL.
pub start-none :
    (fib_arg col_arg sub_arg : ℤ)
    → asked fib_arg col_arg sub_arg ≡ []
    → start fib_arg col_arg sub_arg ≡ none
unfolding start scheduler_first
start-none f c s h = rw (init_threads-asked f c s) (ap (λ l. scheduler_first (ready_only l)) h)

-- The queues behind the start, as they are.
pub start-asked :
    (fib_arg col_arg sub_arg : ℤ)
    → asked fib_arg col_arg sub_arg ≢ []
    → (t : Thread) × (start fib_arg col_arg sub_arg
        ≡ some (runs t (ready_only (asked fib_arg col_arg sub_arg))))
unfolding start
start-asked f c s h =
    let (t, e) = first_runs_on (asked f c s) h in (t, rw (init_threads-asked f c s) e)
