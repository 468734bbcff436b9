-- ===== src/Threads/Runs.antt =====
-- Runs of the whole program of thread-library.
use sp_hw.Base.{
  ℕ, ◌+◌, ◌*◌, ◌^◌, ◌≡◌, ◌≤◌, ◌<◌, refl, Bool, true, false, List, [], ◌∷◌, ◌++◌, Option, some,
  arith, replicate, All, All-replicate, length, map,
}
use sp_hw.Base.Int.{ℤ, pos, negsuc}
use sp_hw.Base.Decimal.{atoi, scan_int, wrap32}
use sp_hw.Threads.Subarray.Laws.{best, IsShort}
use sp_hw.Threads.Fibonacci.Laws.{fibs}
use sp_hw.Threads.Collatz.Laws.{last, more}
use sp_hw.Threads.Program.{Tcb, Tick, program}
use sp_hw.Threads.Program.Alone.{alone, numbers_of}
use sp_hw.Threads.Program.Progress.{printed_by}
use sp_hw.Threads.Program.Steps.{IsServed}
use sp_hw.Threads.Program.Run.{first_tcb, program-alone}
use sp_hw.Threads.Program.Prints.{program_prints}

-- A signal at the end of each round, and input at the second poll.
abbrev tick : Tick
tick = record { pending = true; is_set = λ t. false; polls = (λ t. false) ∷ (λ t. true) ∷ [] }

abbrev memory : ℕ → Tcb
memory id = record {
  arg = pos 9;
  saved = record { i = 7; x = pos 5; y = negsuc 2 };
  buf = [];
  reads = (b'3' ∷ []) ∷ (b'-' ∷ b'1' ∷ []) ∷ [];
}

IsShort-reads : All IsShort (numbers_of [] ((b'3' ∷ []) ∷ (b'-' ∷ b'1' ∷ []) ∷ []))
unfolding atoi scan_int wrap32
IsShort-reads = ((omega arith, omega arith), ((omega arith, omega arith), tt))

program_prints_example :
    (printed : List (ℕ × ℤ)) × (l : List ℤ) × (program
        (replicate 20 tick)
        (pos 3)
        (pos 5)
        (pos 2)
        memory
      ≡ some printed)
    × (printed_by 0 printed ≡ fibs 1 3)
    × (printed_by 1 printed ≡ map pos (16 ∷ 8 ∷ 4 ∷ 2 ∷ 1 ∷ []))
    × (printed_by 2 printed
        ≡ l ++ pos (best (numbers_of [] ((b'3' ∷ []) ∷ (b'-' ∷ b'1' ∷ []) ∷ []))) ∷ [])
program_prints_example =
    program_prints (replicate 20 tick) memory 2 5 (16 ∷ 8 ∷ 4 ∷ 2 ∷ 1 ∷ []) (b'3' ∷ [])
      ((b'-' ∷ b'1' ∷ []) ∷ []) (omega arith)
      (more 5 (8 ∷ 4 ∷ 2 ∷ 1 ∷ []) (omega arith) (
        more 16 (4 ∷ 2 ∷ 1 ∷ []) (omega arith)
          (more 8 (2 ∷ 1 ∷ []) (omega arith) (more 4 (1 ∷ []) (omega arith) (last 2 refl)))))
      (omega arith, (omega arith, (omega arith, (omega arith, (omega arith, tt))))) refl
      IsShort-reads (omega arith) (All-replicate IsServed 20 tick (λ t. refl)) (omega arith)

-- Only collatz is asked for, with the number 2.
two_alone : alone 1 1 (first_tcb (negsuc 0) (pos 2) (negsuc 0) memory 1) ≡ some (pos 1 ∷ [])
unfolding alone wrap32 sp_hw.Base.Int.half sp_hw.Threads.Program.thread_round
    sp_hw.Threads.Collatz.collatz_round
two_alone = refl

program-alone_example :
    (printed : List (ℕ × ℤ)) × (program (replicate 2 tick) (negsuc 0) (pos 2) (negsuc 0) memory
      ≡ some printed)
    × (printed_by 0 printed ≡ [])
    × (printed_by 1 printed ≡ pos 1 ∷ [])
    × (printed_by 2 printed ≡ [])
program-alone_example =
    program-alone (replicate 2 tick) (negsuc 0) (pos 2) (negsuc 0) memory 0 1 0 [] (pos 1 ∷ []) []
      (λ h. cc) refl two_alone refl (All-replicate IsServed 2 tick (λ t. refl)) (omega arith)
