-- ===== src/Threads/Tests.antt =====
-- Runs of the threads of thread-library.
use sp_hw.Base.{
  ℕ, ◌≡◌, ◌<◌, refl, Bool, true, Perm, ◌++◌, List, [], ◌∷◌, some, none, arith, ◌==◌, length, map,
}
use sp_hw.Base.Int.{ℤ, pos, negsuc}
use sp_hw.Threads.Collatz.{collatz}
use sp_hw.Threads.Collatz.Laws.{last, more, collatz-Orbit}
use sp_hw.Threads.Fibonacci.{fibonacci}
use sp_hw.Threads.Fibonacci.Laws.{fibs, fibonacci-fibs}
use sp_hw.Threads.Scheduler.{Queues, Jump, runs, deref, wake, schedule}
use sp_hw.Threads.Scheduler.Plan.{Plan, queues, planned, woken}
use sp_hw.Threads.Scheduler.Refine.{schedule-planned}
use sp_hw.Threads.Scheduler.Keep.{Runs, gone, schedule-Runs}
use sp_hw.Threads.Scheduler.Fair.{after_signals, every_turn}
use sp_hw.Threads.Scheduler.Lost.{lost, wake-loses}
use sp_hw.Threads.Start.{Thread, start, asked, start-Runs, start-none}
use sp_hw.Threads.Subarray.{Saved, max_subarray}
use sp_hw.Threads.Subarray.Laws.{best, max_subarray-best}

-- 3, -1, 4
abbrev read_numbers : List ℤ
read_numbers = pos 3 ∷ negsuc 0 ∷ pos 4 ∷ []

max_subarray-best_example :
    (r : Saved) × (max_subarray (length read_numbers) (pos 7) (pos 8) read_numbers ≡ some r)
    × (r.x ≡ pos (best read_numbers))
max_subarray-best_example =
    max_subarray-best (pos 7) (pos 8) (pos 3) (negsuc 0 ∷ pos 4 ∷ [])
      ((omega arith, omega arith), ((omega arith, omega arith), ((omega arith, omega arith), tt)))
      (omega arith)

fibonacci-fibs_example : fibonacci 5 (pos 7) (pos 8) ≡ some (fibs 1 5)
fibonacci-fibs_example = fibonacci-fibs 4 (pos 7) (pos 8) (omega arith)

collatz-Orbit_example : collatz 5 (pos 5) ≡ some (map pos (16 ∷ 8 ∷ 4 ∷ 2 ∷ 1 ∷ []))
collatz-Orbit_example =
    collatz-Orbit 5 (16 ∷ 8 ∷ 4 ∷ 2 ∷ 1 ∷ [])
      (more 5 (8 ∷ 4 ∷ 2 ∷ 1 ∷ []) (omega arith) (
        more 16 (4 ∷ 2 ∷ 1 ∷ []) (omega arith)
          (more 8 (2 ∷ 1 ∷ []) (omega arith) (more 4 (1 ∷ []) (omega arith) (last 2 refl)))))
      (omega arith, (omega arith, (omega arith, (omega arith, (omega arith, tt)))))

-- Threads 0 and 1 are ready, 1 runs, and 2 waits.
abbrev three_threads : Plan ℕ
three_threads = record { ready = 0 ∷ 1 ∷ []; current = 1; waiting = 2 ∷ [] }

abbrev has_input : ℕ → Bool
has_input t = t == 2

-- Thread 1 exits, and thread 2, which is woken, fills its place.
schedule-planned_example :
    schedule Jump.exits has_input [] (queues three_threads)
    ≡ planned Jump.exits has_input [] three_threads
schedule-planned_example =
    schedule-planned Jump.exits has_input [] three_threads (omega arith) (omega arith) (omega arith)
      (λ e. cc)

abbrev two_threads : Plan ℕ
two_threads = record { ready = 0 ∷ 2 ∷ []; current = 1; waiting = [] }

schedule-Runs_example :
    (rest : List ℕ) × Runs 2 (queues two_threads) rest
    × Perm (gone Jump.exits (woken has_input three_threads) ++ rest) (0 ∷ 1 ∷ 2 ∷ [])
schedule-Runs_example =
    schedule-Runs Jump.exits has_input [] three_threads 2 (queues two_threads) (omega arith)
      (omega arith) (omega arith) (λ e. cc)
      (schedule-planned Jump.exits has_input [] three_threads (omega arith) (omega arith)
        (omega arith) (λ e. cc))

every_turn_example :
    (k : ℕ) × (q : Queues ℕ) × (k < 2)
    × (after_signals k (queues three_threads) ≡ some q)
    × (deref q.ready q.rq_current ≡ some 0)
every_turn_example = every_turn three_threads 0 0 (omega arith) (omega arith) (omega arith) refl

wake-loses_example :
    (wake has_input (queues (record { ready = 0 ∷ []; current = 0; waiting = 1 ∷ 2 ∷ [] }))
      ≡ some (lost has_input (0 ∷ []) 0 1 2 refl refl (omega arith), true))
    × (schedule Jump.signal has_input [] (lost has_input (0 ∷ []) 0 1 2 refl refl (omega arith))
        ≡ none)
wake-loses_example =
    wake-loses has_input (0 ∷ []) 0 1 2 refl refl (omega arith) Jump.signal has_input []

-- Only the third thread is asked for.
start-Runs_example :
    (t : Thread) × (q : Queues Thread) × (start (negsuc 0) (negsuc 0) (pos 3) ≡ some (runs t q))
    × Runs t q (asked (negsuc 0) (negsuc 0) (pos 3))
start-Runs_example = start-Runs (negsuc 0) (negsuc 0) (pos 3) (λ h. cc)

start-none_example : start (negsuc 0) (negsuc 4) (negsuc 0) ≡ none
start-none_example = start-none (negsuc 0) (negsuc 4) (negsuc 0) refl
