-- ===== src/Threads/Scheduler/Wake.antt =====
-- `wake` on queues that hold a plan with at most one waiting thread.
use sp_hw.Base.{
  ℕ, ◌+◌, ◌≡◌, ◌≤◌, ◌<◌, refl, ap, sym, ◌∙◌, inl, inr, Bool, true, false, List, [], ◌∷◌, ◌++◌, none,
  some, arith, Bool-cases, length, length-append,
}
use mathlib.Core.List.{append-nil}
use sp_hw.Threads.Scheduler.{thread_max, write, move_one, take_ready, wake}
use sp_hw.Threads.Scheduler.Arrays.{array, write-end, write-clear}
use sp_hw.Threads.Scheduler.Plan.{Plan, queues, woken}

module _ {ℓ} {T : Type ℓ} (is_set : T → Bool) (r : List T) (c : ℕ) where
  abbrev pub lone : List T → Plan T
  lone w = record { ready = r; current = c; waiting = w }

  pub wake-none : wake is_set (queues (lone [])) ≡ some (queues (lone []), false)
  unfolding wake
  wake-none = refl

  pub wake-unset :
      (t : T)
      → is_set t ≡ false
      → wake is_set (queues (lone (t ∷ []))) ≡ some (queues (lone (t ∷ [])), false)
  unfolding wake
  wake-unset t e = rw e refl

  -- The array of the waiting queue in between.
  cleared : (t : T) → write (array (t ∷ [])) 0 none ≡ some (array [])
  cleared t = write-clear [] t (omega arith)

  take-set :
      (t : T)
      → is_set t ≡ true
      → length r < thread_max
      → take_ready is_set (queues (lone (t ∷ [])))
        ≡ some (record {
          ready = array (r ++ t ∷ []);
          rq_size = length r + 1;
          rq_current = c;
          waiting = array [];
          wq_size = 0;
        })
  unfolding take_ready
  take-set t e room = rw (e, move_one) (rw (write-end r t room) (rw (cleared t) refl))

  pub wake-set :
      (t : T)
      → is_set t ≡ true
      → length r < thread_max
      → wake is_set (queues (lone (t ∷ [])))
        ≡ some (queues (record { ready = r ++ t ∷ []; current = c; waiting = [] }), true)
  unfolding wake
  wake-set t e room = rw e (
      rw (take-set t e room) (
        ap
          (λ n. some (
            record {
              ready = array (r ++ t ∷ []);
              rq_size = n;
              rq_current = c;
              waiting = array [];
              wq_size = 0;
            },
            true,
          ))
          (omega (arith, length-append r (t ∷ [])))))

  -- The chosen thread joins the ready ones, at their end.
  pub wake-woken :
      (w : List T)
      → length w ≤ 1
      → length r + length w ≤ thread_max
      → (found : Bool) × (wake is_set (queues (lone w))
          ≡ some (queues (woken is_set (lone w)), found))
  wake-woken [] few room = (
    false,
    wake-none
        ∙ ap (λ l. some (queues (record { ready = l; current = c; waiting = [] }), false))
            (sym (append-nil r)),
  )
  wake-woken (t ∷ []) few room = elim (Bool-cases (is_set t)) [
    | inl e ↦ (true, rw e (wake-set t e (omega (arith, room))))
    | inr e ↦ (false, rw (e, append-nil r) (wake-unset t e))
  ]
  wake-woken (t ∷ u ∷ w) few room = absurd (omega (arith, few))
