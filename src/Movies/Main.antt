-- ===== src/Movies/Main.antt =====
-- `main` of simple-movies-recommendation-system/server.c, both builds: the input is read, and each
-- request is answered. A thread for a request reads the movies, which nothing changes any more, and
-- writes the file that the request's id names. Where no two requests have the same id, what the files
-- hold at the end is what the threads' runs write one by one; two threads with the same id write one
-- file at the same time, and what it holds then is not modelled.
pub mod Laws
use sp_hw.Base.{ℕ, suc, ◌+◌, List, [], ◌∷◌, Option, none, some}
use sp_hw.Base.Error.{◌>>=◌}
use sp_hw.Base.Strings.{Bytes}
use sp_hw.Movies.Doubles.{Doubles}
use sp_hw.Movies.MergeSort.{Schedule}
use sp_hw.Movies.Request.{Request, MovieProfile, handle_request, process_request}
use sp_hw.Movies.Input.{initialize}

module _ {d : Doubles} where
  -- The loop that makes a thread for each request, from the request `i` on, and the one that joins them:
  -- what each thread writes, the name of a file and a text. Each thread has a schedule and a memory of its own.
  unfoldable pub handle_requests :
      (ℕ → Schedule)
      → (ℕ → ℕ → d.Double)
      → ℕ
      → List (MovieProfile d)
      → List (Request d)
      → Option (List (Bytes × Bytes))
  handle_requests schedules memory i movies [] = some []
  handle_requests schedules memory i movies (key ∷ reqs) = do
    answer ← handle_request (schedules i) (memory i) movies key
    rest ← handle_requests schedules memory (i + 1) movies reqs
    some (answer ∷ rest)

module _ (d : Doubles) (strtod : Bytes → d.Double) where
  unfoldable pub thread_main :
      (ℕ → Schedule) → (ℕ → ℕ → d.Double) → List Bytes → Bytes → Option (List (Bytes × Bytes))
  unfolding handle_requests
  thread_main schedules memory rows input =
      initialize d strtod rows input >>= λ read. handle_requests schedules memory 0 read.0 read.1

  -- The build with processes answers the first request.
  unfoldable pub process_main :
      Schedule → (ℕ → d.Double) → List Bytes → Bytes → Option (Bytes × Bytes)
  process_main sch memory rows input = initialize d strtod rows input >>= λ read. elim read.1 [
    | [] ↦ none
    | key ∷ reqs ↦ process_request sch memory read.0 key
  ]
