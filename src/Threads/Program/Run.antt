-- ===== src/Threads/Program/Run.antt =====
-- The whole program: each thread prints what it prints alone, whatever the signals and the input's delays.
use sp_hw.Base.{
  ℕ, zero, suc, ◌+◌, ◌*◌, ◌≡◌, ◌≢◌, ◌≤◌, ◌<◌, refl, false, List, [], ◌∷◌, ◌++◌, some, arith, ◌==◌,
  if◌then◌else◌, length, length-append, All,
}
use sp_hw.Base.Int.{ℤ, pos, negsuc}
use sp_hw.Threads.Scheduler.Plan.{Plan, queues}
use sp_hw.Threads.Start.{Thread, one_asked, asked, length-one_asked, start-asked}
use sp_hw.Threads.Scheduler.Turn.{sum, sum-append}
use sp_hw.Threads.Program.{Tcb, World, Tick, run, program, new_tcb, arg_of}
use sp_hw.Threads.Program.Alone.{alone}
use sp_hw.Threads.Program.Progress.{printed_by, Progress}
use sp_hw.Threads.Program.Steps.{
  marks, count, Queued, held, IsServed, done, onward, turn-After, Progress-positive,
}

run-total :
    (m : ℕ) (total : ℕ → List ℤ) (ticks : List Tick) (p : Plan Thread) (w : World)
    → m ≤ length ticks
    → All IsServed ticks
    → Queued p
    → Progress total m (count p) (held p w)
    → (printed : List (ℕ × ℤ)) × (run ticks (held p w) ≡ some printed)
      × ((u : ℕ) → printed_by u printed ≡ total u)
unfolding run
run-total zero total ticks p w enough served q g = absurd (Progress-positive total p w q g)
run-total (suc m) total [] p w enough served q g = absurd (omega (arith, enough))
run-total (suc m) total (k ∷ ticks) p w enough served q g =
    elim (turn-After total m k p w served.0 q g) [
      | done printed e all ↦ (printed, rw e refl, all)
      | onward p' w' e q' g' ↦
          rw e (run-total m total ticks p' w' (omega (arith, enough)) served.1 q' g')
    ]

-- The tcb that a thread starts with.
abbrev pub first_tcb : ℤ → ℤ → ℤ → (ℕ → Tcb) → ℕ → Tcb
first_tcb fib_arg col_arg sub_arg memory id =
    new_tcb (memory id) (arg_of fib_arg col_arg sub_arg id)

-- A thread that its argument asks for comes to its end alone, with the lines `l`; one that is not asked
-- for has none.
abbrev pub EndsWith : ℕ → ℤ → ℕ → Tcb → List ℤ → Type 0
EndsWith id (pos n) fuel t l = alone fuel id t ≡ some l
EndsWith id (negsuc n) fuel t l = l ≡ []

-- One of three by an id.
abbrev by_id {ℓ} : {A : Type ℓ} → A → A → A → A → ℕ → A
by_id a b c other zero = a
by_id a b c other (suc zero) = b
by_id a b c other (suc (suc zero)) = c
by_id a b c other (suc (suc (suc n))) = other

sum-one_asked : (id u : ℕ) (arg : ℤ) → sum (marks u) (one_asked id arg) ≤ (if id == u then 1 else 0)
sum-one_asked id u (pos n) = omega arith
sum-one_asked id u (negsuc n) = omega arith

ends_alive :
    (id : ℕ) (arg : ℤ) (fuel : ℕ) (t : Tcb) (l : List ℤ)
    → EndsWith id arg fuel t l
    → 0 < sum (marks id) (one_asked id arg)
    → alone fuel id t ≡ some l
ends_alive id (pos n) fuel t l e h = e
ends_alive id (negsuc n) fuel t l e h = absurd (omega (arith, h))

ends_gone :
    (id : ℕ) (arg : ℤ) (fuel : ℕ) (t : Tcb) (l : List ℤ)
    → EndsWith id arg fuel t l
    → sum (marks id) (one_asked id arg) ≡ 0
    → l ≡ []
ends_gone id (pos n) fuel t l e h = absurd (ground (arith, h))
ends_gone id (negsuc n) fuel t l e h = e

module _ (f c s : ℤ) where
  abbrev first_plan : Plan Thread
  first_plan = record { ready = asked f c s; current = 0; waiting = [] }

  count_asked :
      (u : ℕ)
      → count first_plan u
        ≡ sum (marks u) (one_asked 0 f)
          + sum (marks u) (one_asked 1 c)
          + sum (marks u) (one_asked 2 s)
  count_asked u = omega (
    arith,
    sum-append (marks u) (one_asked 0 f ++ one_asked 1 c) (one_asked 2 s),
    sum-append (marks u) (one_asked 0 f) (one_asked 1 c),
  )

  first-Queued : asked f c s ≢ [] → Queued first_plan
  first-Queued some_asked = record {
    inside = not_empty (asked f c s) some_asked;
    lone = omega arith;
    room = omega (
      arith,
      length-append (one_asked 0 f ++ one_asked 1 c) (one_asked 2 s),
      length-append (one_asked 0 f) (one_asked 1 c),
      length-one_asked 0 f,
      length-one_asked 1 c,
      length-one_asked 2 s,
    );
    once = λ u.
        ground
          (arith, count_asked u, sum-one_asked 0 u f, sum-one_asked 1 u c, sum-one_asked 2 u s);
    known = λ u h.
        ground
          (arith, count_asked u, sum-one_asked 0 u f, sum-one_asked 1 u c, sum-one_asked 2 u s);
    readers = λ u h. refl;
  }
    where
      not_empty : (l : List Thread) → l ≢ [] → 0 < length l
      not_empty [] h = absurd (h refl)
      not_empty (x ∷ l) h = omega arith

  module _ (memory : ℕ → Tcb) (n0 n1 n2 : ℕ) (l0 l1 l2 : List ℤ)
      (h0 : EndsWith 0 f n0 (first_tcb f c s memory 0) l0)
      (h1 : EndsWith 1 c n1 (first_tcb f c s memory 1) l1)
      (h2 : EndsWith 2 s n2 (first_tcb f c s memory 2) l2) where
    abbrev first_world : World
    first_world = record {
      queues = queues first_plan;
      tcbs = first_tcb f c s memory;
      in_read = λ id. false;
      printed = [];
    }

    first-Progress :
        Progress
          (by_id l0 l1 l2 [])
          (2 * (n0 + n1 + n2))
          (count first_plan)
          (held first_plan first_world)
    first-Progress = record {
      rest = by_id l0 l1 l2 [];
      fuel = by_id n0 n1 n2 0;
      cost = λ u. 2 * by_id n0 n1 n2 0 u;
      alive = alive;
      paid = λ u h. omega arith;
      gone = gone;
      sums = λ u. refl;
      bound = omega arith;
    }
      where
        alive :
            (u : ℕ)
            → 0 < count first_plan u
            → alone (by_id n0 n1 n2 0 u) u (first_tcb f c s memory u) ≡ some (by_id l0 l1 l2 [] u)
        alive zero h =
            ends_alive 0 f n0 _ l0 h0
              (omega (arith, h, count_asked 0, sum-one_asked 1 0 c, sum-one_asked 2 0 s))
        alive (suc zero) h =
            ends_alive 1 c n1 _ l1 h1
              (omega (arith, h, count_asked 1, sum-one_asked 0 1 f, sum-one_asked 2 1 s))
        alive (suc (suc zero)) h =
            ends_alive 2 s n2 _ l2 h2
              (omega (arith, h, count_asked 2, sum-one_asked 0 2 f, sum-one_asked 1 2 c))
        alive (suc (suc (suc u))) h = absurd (
            ground (
              arith,
              h,
              count_asked (suc (suc (suc u))),
              sum-one_asked 0 (suc (suc (suc u))) f,
              sum-one_asked 1 (suc (suc (suc u))) c,
              sum-one_asked 2 (suc (suc (suc u))) s,
            ))

        gone : (u : ℕ) → count first_plan u ≡ 0 → by_id l0 l1 l2 [] u ≡ []
        gone zero h = ends_gone 0 f n0 _ l0 h0 (omega (arith, h, count_asked 0))
        gone (suc zero) h = ends_gone 1 c n1 _ l1 h1 (omega (arith, h, count_asked 1))
        gone (suc (suc zero)) h = ends_gone 2 s n2 _ l2 h2 (omega (arith, h, count_asked 2))
        gone (suc (suc (suc u))) h = refl

-- Some thread is asked for, and each that is comes to its end alone. Then, whatever signals are pending
-- at the ends of rounds, and however long the input makes max_subarray wait, as long as it comes: twice
-- as many turns as there are rounds are enough for the program to end, and each thread has printed
-- just the lines that it prints alone, in their order.
pub program-alone :
    (ticks : List Tick) (fib_arg col_arg sub_arg : ℤ) (memory : ℕ → Tcb) (n0 n1 n2 : ℕ)
    (l0 l1 l2 : List ℤ)
    → asked fib_arg col_arg sub_arg ≢ []
    → EndsWith 0 fib_arg n0 (first_tcb fib_arg col_arg sub_arg memory 0) l0
    → EndsWith 1 col_arg n1 (first_tcb fib_arg col_arg sub_arg memory 1) l1
    → EndsWith 2 sub_arg n2 (first_tcb fib_arg col_arg sub_arg memory 2) l2
    → All IsServed ticks
    → 2 * (n0 + n1 + n2) ≤ length ticks
    → (printed : List (ℕ × ℤ)) × (program ticks fib_arg col_arg sub_arg memory ≡ some printed)
      × (printed_by 0 printed ≡ l0)
      × (printed_by 1 printed ≡ l1)
      × (printed_by 2 printed ≡ l2)
unfolding program
program-alone ticks f c s memory n0 n1 n2 l0 l1 l2 some_asked h0 h1 h2 served enough =
    let (t, e) = start-asked f c s some_asked in
    let (printed, ends, all) =
      run-total (2 * (n0 + n1 + n2)) (by_id l0 l1 l2 []) ticks (first_plan f c s)
        (first_world f c s memory n0 n1 n2 l0 l1 l2 h0 h1 h2) enough served
        (first-Queued f c s some_asked) (first-Progress f c s memory n0 n1 n2 l0 l1 l2 h0 h1 h2) in
    (printed, rw e ends, all 0, all 1, all 2)
