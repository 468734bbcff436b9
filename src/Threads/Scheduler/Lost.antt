-- ===== src/Threads/Scheduler/Lost.antt =====
-- With two waiting threads the scheduler can lose one.
use sp_hw.Base.{ℕ, ◌+◌, ◌≡◌, ◌<◌, refl, Bool, true, false, List, [], ◌∷◌, ◌++◌, none, some, length}
use sp_hw.Threads.Scheduler.{
  thread_max, Queues, write, move_one, move_ready, pack, take_ready, wake, Jump, schedule,
}
use sp_hw.Threads.Scheduler.Arrays.{array, write-end}
use sp_hw.Threads.Scheduler.Plan.{queues}

module _ {ℓ} {T : Type ℓ} (is_set : T → Bool) (r : List T) (c : ℕ) (t u : T)
    (not_set : is_set t ≡ false) (now_set : is_set u ≡ true) (room : length r < thread_max) where
  -- The queues behind the block: `t` is in neither of them, though one thread is said to wait.
  abbrev pub lost : Queues T
  lost = record {
    ready = array (r ++ u ∷ []);
    rq_size = length r + 1;
    rq_current = c;
    waiting = array [];
    wq_size = 1;
  }

  moved :
      move_ready 2 0 is_set (queues (record { ready = r; current = c; waiting = t ∷ u ∷ [] }))
      ≡ some (record lost { waiting = array (t ∷ []); wq_size = 2 })
  unfolding move_ready move_one write
  moved = rw (not_set, now_set) (rw (write-end r u room) refl)

  taken :
      take_ready is_set (queues (record { ready = r; current = c; waiting = t ∷ u ∷ [] }))
      ≡ some lost
  unfolding take_ready pack write
  taken = rw moved refl

  -- Two threads wait, and the input of the second one is there, but not that of the first: the
  -- scheduler's block makes the second ready and loses the first, and the next call of the scheduler
  -- reads through NULL, whatever select reports by then.
  pub wake-loses :
      (jump : Jump) (is_set' : T → Bool) (polls : List (T → Bool))
      → (wake is_set (queues (record { ready = r; current = c; waiting = t ∷ u ∷ [] }))
          ≡ some (lost, true))
        × (schedule jump is_set' polls lost ≡ none)
  unfolding wake schedule
  wake-loses jump is_set' polls = (rw (not_set, now_set) (rw taken refl), refl)
