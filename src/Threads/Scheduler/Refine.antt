-- ===== src/Threads/Scheduler/Refine.antt =====
-- The scheduler keeps its promise, on queues that hold a plan.
use sp_hw.Base.{
  ℕ, suc, ◌+◌, ◌%◌, ◌≡◌, ◌≤◌, ◌<◌, refl, ap, sym, ◌∙◌, ◌⊎◌, inl, inr, Bool, false, List, [], ◌∷◌,
  ◌++◌, Option, none, some, arith, ◌==◌, ==_iff, Bool-cases, if◌then◌else◌, length, length-append,
  get_elem?, get_elem?-some,
}
use sp_hw.Base.Error.{◌>>=◌}
use mathlib.Core.List.{cons≢nil}
use sp_hw.Threads.Scheduler.{
  thread_max, Queues, Jump, Next, runs, leave, advance, wait_loop, resume, pick, schedule,
}
use sp_hw.Threads.Scheduler.Arrays.{array, write-end, get_elem?-array}
use sp_hw.Threads.Scheduler.Plan.{Plan, queues, chosen, kept, woken, fill, waited, resumed, planned}
use sp_hw.Threads.Scheduler.Wake.{wake-woken, wake-set, wake-unset}
use sp_hw.Threads.Scheduler.Switch.{halfway, fill_hole-fill, length-fill}

module _ {ℓ} {T : Type ℓ} where
  resume-plan :
      (r : List T) (c : ℕ) (w : List T) (t : T)
      → get_elem? r c ≡ some t
      → resume (queues (record { ready = r; current = c; waiting = w }))
        ≡ some (runs t (queues (record { ready = r; current = c; waiting = w })))
  unfolding resume
  resume-plan r c w t h =
      ap
        (λ o. elim o [ none ↦ none | some cell ↦ cell ] >>= λ u.
          some (runs u (queues (record { ready = r; current = c; waiting = w }))))
        (get_elem?-array r c t h)

  wait_loop-waited :
      (polls : List (T → Bool)) (c : ℕ) (t : T)
      → (wait_loop polls (queues (record { ready = []; current = c; waiting = t ∷ [] })) >>= resume)
        ≡ (waited polls t >>= λ u.
            some (runs u (queues (record { ready = u ∷ []; current = 0; waiting = [] }))))
  unfolding wait_loop
  wait_loop-waited [] c t = refl
  wait_loop-waited (is_set ∷ polls) c t = elim (Bool-cases (is_set t)) [
    | inl e ↦ rw (e, wake-set is_set [] c t e (omega arith)) (resume-plan (t ∷ []) 0 [] t refl)
    | inr e ↦ rw (e, wake-unset is_set [] c t e) (wait_loop-waited polls c t)
  ]

  pick-resumed :
      (polls : List (T → Bool)) (r : List T) (c : ℕ) (w : List T)
      → length w ≤ 1
      → c < length r ⊎ (r ≡ [])
      → pick polls (queues (record { ready = r; current = c; waiting = w })) ≡ resumed polls r c w
  unfolding pick
  pick-resumed polls [] c [] few inside = refl
  pick-resumed polls [] c (t ∷ []) few inside = wait_loop-waited polls c t
  pick-resumed polls [] c (t ∷ u ∷ w) few inside = absurd (omega (arith, few))
  pick-resumed polls (x ∷ r) c w few (inr e) = cc
  pick-resumed polls (x ∷ r) c w few (inl inside) =
      let (t, e) = get_elem?-some (x ∷ r) c inside in
      let more : (suc (length r) == 0) ≡ false = ground arith in
      rw (more, e) (resume-plan (x ∷ r) c w t e)

  -- The place of the next running thread.
  advance-exits :
      (r : List T) (c : ℕ) (waiting : List (Option T)) (n : ℕ)
      → advance Jump.exits (halfway r c waiting n)
        ≡ some (halfway r (if c == length r then 0 else c) waiting n)
  unfolding advance
  advance-exits r c waiting n = elim (Bool-cases (c == length r)) [
    | inl e ↦ rw e refl
    | inr e ↦ rw e refl
  ]

  advance-reads :
      (r : List T) (c : ℕ) (waiting : List (Option T)) (n : ℕ)
      → advance Jump.reads (halfway r c waiting n)
        ≡ some (halfway r (if c == length r then 0 else c) waiting n)
  unfolding advance
  advance-reads r c waiting n = elim (Bool-cases (c == length r)) [
    | inl e ↦ rw e refl
    | inr e ↦ rw e refl
  ]

  advance-signal :
      (x : T) (r : List T) (c : ℕ) (waiting : List (Option T)) (n : ℕ)
      → advance Jump.signal (halfway (x ∷ r) c waiting n)
        ≡ some (halfway (x ∷ r) ((c + 1) % length (x ∷ r)) waiting n)
  unfolding advance
  advance-signal x r c waiting n = ground arith

  -- A place behind a hole that was filled is one of the places that are left, if any.
  pub next_inside :
      (x : T) (r : List T) (c : ℕ)
      → c < suc (length r)
      → ((if c == length (fill (x ∷ r) c) then 0 else c) < length (fill (x ∷ r) c))
        ⊎ (fill (x ∷ r) c ≡ [])
  next_inside x [] c h = inr refl
  next_inside x (y ∷ r) c h =
      inl (ground (arith, length-fill x (y ∷ r) c, ==_iff c (length (fill (x ∷ y ∷ r) c))))

  -- What follows the call of `wake`.
  after_wake : Jump → List (T → Bool) → Queues T → Option (Next T)
  after_wake jump polls q = leave jump q >>= λ q1. advance jump q1 >>= λ q2. pick polls q2

  module _ (polls : List (T → Bool)) (x : T) (r : List T) (c : ℕ) (inside : c < suc (length r))
      (room : suc (length r) ≤ thread_max) where
    after-signal :
        (w : List T)
        → length w ≤ 1
        → after_wake Jump.signal polls (queues (record { ready = x ∷ r; current = c; waiting = w }))
          ≡ resumed polls (x ∷ r) ((c + 1) % length (x ∷ r)) w
    unfolding after_wake leave
    after-signal w few =
        rw (advance-signal x r c (array w) (length w))
          (pick-resumed polls (x ∷ r) ((c + 1) % length (x ∷ r)) w few (inl (grind arith)))

    after-exits :
        (w : List T)
        → length w ≤ 1
        → after_wake Jump.exits polls (queues (record { ready = x ∷ r; current = c; waiting = w }))
          ≡ resumed polls (fill (x ∷ r) c) (if c == length (fill (x ∷ r) c) then 0 else c) w
    unfolding after_wake leave
    after-exits w few =
        rw
          (
            fill_hole-fill x r c inside room (array w) (length w),
            advance-exits (fill (x ∷ r) c) c (array w) (length w),
          )
          (pick-resumed polls (fill (x ∷ r) c) _ w few (next_inside x r c inside))

    after-reads :
        (t : T)
        → get_elem? (x ∷ r) c ≡ some t
        → after_wake Jump.reads polls (queues (record { ready = x ∷ r; current = c; waiting = [] }))
          ≡ resumed polls (fill (x ∷ r) c) (if c == length (fill (x ∷ r) c) then 0 else c) (t ∷ [])
    unfolding after_wake leave
    after-reads t e =
        rw
          (
            get_elem?-array (x ∷ r) c t e,
            write-end [] t (omega arith),
            fill_hole-fill x r c inside room (array (t ∷ [])) 1,
            advance-reads (fill (x ∷ r) c) c (array (t ∷ [])) 1,
          )
          (pick-resumed polls (fill (x ∷ r) c) _ (t ∷ []) (omega arith) (next_inside x r c inside))

  pub chosen-le :
      (is_set : T → Bool) (w : List T)
      → length (chosen is_set w) + length (kept is_set w) ≡ length w
  chosen-le is_set [] = refl
  chosen-le is_set (t ∷ w) = ground (arith, chosen-le is_set w)

  schedule-after :
      (jump : Jump) (is_set : T → Bool) (polls : List (T → Bool)) (r : List T) (c : ℕ) (w : List T)
      → length w ≤ 1
      → length r + length w ≤ thread_max
      → schedule jump is_set polls (queues (record { ready = r; current = c; waiting = w }))
        ≡ after_wake jump polls
            (queues (woken is_set (record { ready = r; current = c; waiting = w })))
  unfolding schedule after_wake
  schedule-after jump is_set polls r c w few room =
      let (found, e) = wake-woken is_set r c w few room in rw e

  -- On queues that hold a plan, with at most THREAD_MAX threads of which at most one waits, the
  -- scheduler does what it promises for each of the three jumps: it wakes the waiting thread if its
  -- input is there, takes the running one out (or goes on in the circle), and runs the promised
  -- thread on queues that hold the promised plan. A thread that reads finds no other waiting.
  pub schedule-planned :
      (jump : Jump) (is_set : T → Bool) (polls : List (T → Bool)) (p : Plan T)
      → p.current < length p.ready
      → length p.waiting ≤ 1
      → length p.ready + length p.waiting ≤ thread_max
      → (jump ≡ Jump.reads → p.waiting ≡ [])
      → schedule jump is_set polls (queues p) ≡ planned jump is_set polls p
  schedule-planned jump is_set polls p inside few room alone =
      by_jump jump p.ready p.current p.waiting inside few room alone
    where
      by_jump :
          (j : Jump) (r : List T) (c : ℕ) (w : List T)
          → c < length r
          → length w ≤ 1
          → length r + length w ≤ thread_max
          → (j ≡ Jump.reads → w ≡ [])
          → schedule j is_set polls (queues (record { ready = r; current = c; waiting = w }))
            ≡ planned j is_set polls (record { ready = r; current = c; waiting = w })
      by_jump j [] c w i f m a = absurd (omega (arith, i))
      by_jump Jump.signal (x ∷ r) c w i f m a =
          schedule-after Jump.signal is_set polls (x ∷ r) c w f m
          ∙ after-signal polls x (r ++ chosen is_set w) c
              (omega (arith, i, length-append r (chosen is_set w)))
              (omega (arith, m, length-append r (chosen is_set w), chosen-le is_set w))
              (kept is_set w) (omega (arith, f, chosen-le is_set w))
      by_jump Jump.exits (x ∷ r) c w i f m a =
          schedule-after Jump.exits is_set polls (x ∷ r) c w f m
          ∙ after-exits polls x (r ++ chosen is_set w) c
              (omega (arith, i, length-append r (chosen is_set w)))
              (omega (arith, m, length-append r (chosen is_set w), chosen-le is_set w))
              (kept is_set w) (omega (arith, f, chosen-le is_set w))
      by_jump Jump.reads (x ∷ r) c [] i f m a =
          let (t, e) = get_elem?-some (x ∷ (r ++ [])) c (omega (arith, i, length-append r [])) in
          schedule-after Jump.reads is_set polls (x ∷ r) c [] f m
          ∙ after-reads polls x (r ++ []) c (omega (arith, i, length-append r []))
              (omega (arith, m, length-append r [])) t e
          ∙ ap
              (λ o.
                resumed polls (fill (x ∷ (r ++ [])) c)
                  (if c == length (fill (x ∷ (r ++ [])) c) then 0 else c)
                  ([] ++ (elim o [ none ↦ [] | some u ↦ u ∷ [] ])))
              (sym e)
      by_jump Jump.reads (x ∷ r) c (t ∷ w) i f m a = absurd (cons≢nil (a refl))
