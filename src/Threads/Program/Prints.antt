-- ===== src/Threads/Program/Prints.antt =====
-- What the program prints: the Fibonacci numbers, the numbers of collatz, and the best sum.
use sp_hw.Base.{
  ℕ, suc, ◌+◌, ◌*◌, ◌^◌, ◌≡◌, ◌≤◌, ◌<◌, refl, ap, sym, ◌∙◌, List, [], ◌∷◌, ◌++◌, some, arith,
  length, take, drop, map, All,
}
use sp_hw.Base.Int.{ℤ, pos}
use sp_hw.Base.Decimal.{atoi}
use mathlib.Core.Path.{subst}
use sp_hw.Threads.Subarray.{subarray_loop, max_subarray}
use sp_hw.Threads.Subarray.Laws.{best, IsShort, max_subarray-best}
use sp_hw.Threads.Fibonacci.{fibonacci}
use sp_hw.Threads.Fibonacci.Laws.{fib, fibs, fibonacci-fibs}
use sp_hw.Threads.Collatz.Laws.{Orbit, AllInt32, collatz-Orbit}
use sp_hw.Threads.Program.{Tcb, Tick, program}
use sp_hw.Threads.Program.Alone.{
  alone, alone-fibonacci_loop, alone-collatz, numbers_of, alone-subarray_loop,
}
use sp_hw.Threads.Program.Progress.{printed_by}
use sp_hw.Threads.Program.Steps.{IsServed}
use sp_hw.Threads.Program.Run.{first_tcb, program-alone}

length-numbers_of :
    (buf : List ℕ) (reads : List (List ℕ)) → length (numbers_of buf reads) ≡ length reads
length-numbers_of buf [] = refl
length-numbers_of buf (text ∷ reads) = ap suc (length-numbers_of _ reads)

-- The third thread on its own, for as many reads as its argument says.
subarray_ends :
    (t : Tcb) (x y : ℤ) (first : List ℕ) (reads : List (List ℕ))
    → t.saved ≡ record { i = 1; x = x; y = y }
    → t.reads ≡ first ∷ reads
    → t.arg ≡ pos (suc (length reads))
    → All IsShort (numbers_of t.buf (first ∷ reads))
    → length (first ∷ reads) ≤ 20000
    → (l : List ℤ) × (alone (suc (length reads)) 2 t
        ≡ some (l ++ pos (best (numbers_of t.buf (first ∷ reads))) ∷ []))
unfolding max_subarray
subarray_ends t x y first reads saved given arg short few =
    let buf = take 5 first ++ drop (length (take 5 first)) t.buf in
    let long = length-numbers_of buf reads in
    let (r, run, best_of) =
      max_subarray-best x y (atoi buf) (numbers_of buf reads) short (omega (arith, few, long)) in
    let (l, e) =
      alone-subarray_loop (suc (length (numbers_of buf reads))) t r (first ∷ reads)
        (arg ∙ ap (λ n. pos (suc n)) (sym long)) given
        (subst
          (λ v.
            subarray_loop (suc (length (numbers_of buf reads))) v (atoi buf ∷ numbers_of buf reads)
            ≡ some r)
          (sym saved) run) in
    (l, e ∙ ap (λ v. some (l ++ v ∷ [])) best_of)

-- With an argument of at least 1 for fibonacci, one for collatz from which the numbers reach 1, and as
-- many reads of short numbers as max_subarray's argument says, in whatever order the three threads
-- run and however often they are switched, the program ends and has printed for the first the
-- Fibonacci numbers, for the second the numbers of its orbit, and for the third at last the largest
-- sum of consecutive numbers; all fit an `int`. The input comes at last in each wait.
pub program_prints :
    (ticks : List Tick) (memory : ℕ → Tcb) (n m : ℕ) (orbit : List ℕ) (first : List ℕ)
    (reads : List (List ℕ))
    → fib (suc n) < 2 ^ 31
    → Orbit m orbit
    → AllInt32 orbit
    → (memory 2).reads ≡ first ∷ reads
    → All IsShort (numbers_of (memory 2).buf (first ∷ reads))
    → length (first ∷ reads) ≤ 20000
    → All IsServed ticks
    → 2 * (suc n + length orbit + length (first ∷ reads)) ≤ length ticks
    → (printed : List (ℕ × ℤ)) × (l : List ℤ) × (program ticks
          (pos (suc n))
          (pos m)
          (pos (length (first ∷ reads)))
          memory
        ≡ some printed)
      × (printed_by 0 printed ≡ fibs 1 (suc n))
      × (printed_by 1 printed ≡ map pos orbit)
      × (printed_by 2 printed ≡ l ++ pos (best (numbers_of (memory 2).buf (first ∷ reads))) ∷ [])
unfolding fibonacci
program_prints ticks memory n m orbit first reads room o all given short few served enough =
    let start_of = first_tcb (pos (suc n)) (pos m) (pos (length (first ∷ reads))) memory in
    let (l, e) =
      subarray_ends (start_of 2) (memory 2).saved.x (memory 2).saved.y first reads refl given refl
        short few in
    let (printed, run, p0, p1, p2) =
      program-alone ticks (pos (suc n)) (pos m) (pos (length (first ∷ reads))) memory (suc n)
        (length orbit) (length (first ∷ reads)) (fibs 1 (suc n)) (map pos orbit)
        (l ++ pos (best (numbers_of (memory 2).buf (first ∷ reads))) ∷ []) (λ h. cc)
        (alone-fibonacci_loop (suc n) (suc n) (start_of 0) (fibs 1 (suc n)) refl
          (fibonacci-fibs n (memory 0).saved.x (memory 0).saved.y room))
        (alone-collatz (length orbit) (start_of 1) (map pos orbit) (collatz-Orbit m orbit o all)) e
        served enough in
    (printed, l, run, p0, p1, p2)
