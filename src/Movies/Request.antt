-- ===== src/Movies/Request.antt =====
-- `filter`, `handle_request` and the main program of simple-movies-recommendation-system/server.c,
-- from the records that `initialize` and `read_request` have filled in.
pub mod Laws
use sp_hw.Base.{
  ℕ, zero, suc, ◌+◌, Bool, true, false, List, [], ◌∷◌, ◌++◌, Option, none, some, if◌then◌else◌,
  length, get_elem?,
}
use sp_hw.Base.Int.{ℤ, pos, ◌-ℤ◌}
use sp_hw.Base.Error.{◌>>=◌}
use sp_hw.Base.Decimal.{print_int}
use sp_hw.Base.Strings.{Bytes, strcmp, strstr}
use sp_hw.Movies.Doubles.{Doubles}
use sp_hw.Movies.Entries.{Entry}
use sp_hw.Movies.Merge.{Parameter}
use sp_hw.Movies.MergeSort.{max_depth, Schedule, copy_rows, thread_merge_sort, process_merge_sort}
use Prim.Native.Nat.{Ordering}

-- NUM_OF_GENRE
abbrev pub num_of_genre : ℕ
num_of_genre = 19

-- `request`
pub record Request (d : Doubles) : Type 0 where
  pub id : ℤ
  pub keywords : Bytes
  pub profile : List d.Double

-- `movie_profile`
pub record MovieProfile (d : Doubles) : Type 0 where
  pub movie_id : ℤ
  pub title : Bytes
  pub profile : List d.Double

abbrev pub is_star : Ordering → Bool
is_star Ordering.eq = true
is_star _ = false

module _ (d : Doubles) where
  -- The rounds from `j` on, `n` of them, which add to a cell of `scores`.
  unfoldable pub score_loop : ℕ → ℕ → List d.Double → List d.Double → d.Double → Option d.Double
  score_loop zero j user movie score = some score
  score_loop (suc n) j user movie score = do
    a ← get_elem? user j
    b ← get_elem? movie j
    score_loop n (j + 1) user movie (d.add score (d.mul a b))

module _ {d : Doubles} where
  -- Either loop of `filter` over `movies[i..]`, under THREAD. `memory` is what the cells of `scores` hold before:
  -- fresh shared memory is zero, and memory of malloc is what it was.
  unfoldable pub filter_loop :
      (Bytes → Bool)
      → (ℕ → d.Double)
      → Request d
      → List (MovieProfile d)
      → List (Entry d)
      → Option (List (Entry d))
  filter_loop keep memory key [] moviefilter = some moviefilter
  filter_loop keep memory key (m ∷ movies) moviefilter =
      let added : Option (List (Entry d)) = do
        score ← score_loop d num_of_genre 0 key.profile m.profile (memory (length moviefilter))
        some (moviefilter ++ record { title = m.title; score = score } ∷ [])
      in (if keep m.title then added else some moviefilter) >>= filter_loop keep memory key movies

  unfoldable pub filter :
      (ℕ → d.Double) → Request d → List (MovieProfile d) → Option (List (Entry d))
  filter memory key movies =
      if is_star (strcmp key.keywords (b'*' ∷ []))
      then filter_loop (λ title. true) memory key movies []
      else filter_loop (λ title. strstr title key.keywords) memory key movies []

  -- fprintf(fp, "%s\n", title), row by row
  unfoldable pub print_titles : List (Entry d) → Bytes
  print_titles [] = []
  print_titles (e ∷ rest) = e.title ++ (10 ∷ print_titles rest)

  abbrev pub first : List (Entry d) → Parameter
  first afterfilter = record { depth = 0; left = pos 0; right = pos (length afterfilter) -ℤ pos 1 }

  -- The name of the file that is written, and its text.
  unfoldable pub handle_request :
      Schedule → (ℕ → d.Double) → List (MovieProfile d) → Request d → Option (Bytes × Bytes)
  handle_request sch memory movies key = do
    afterfilter ← filter memory key movies
    sorted ← thread_merge_sort (suc max_depth) sch (length movies) (first afterfilter) afterfilter
    some (print_int key.id ++ (b't' ∷ b'.' ∷ b'o' ∷ b'u' ∷ b't' ∷ []), print_titles sorted)

  -- `filter` under PROCESS, where MAX_LEN bytes of each title are copied to shared memory.
  unfoldable pub process_filter :
      (Bytes → Bool) → (ℕ → d.Double) → Request d → List (MovieProfile d) → Option (List (Entry d))
  unfolding filter copy_rows
  process_filter readable memory key movies = filter memory key movies >>= copy_rows readable

  -- The branch of `main` under PROCESS, for the one request that it answers.
  unfoldable pub process_request :
      Schedule → (ℕ → d.Double) → List (MovieProfile d) → Request d → Option (Bytes × Bytes)
  process_request sch memory movies key = do
    afterfilter ← process_filter sch.readable memory key movies
    sorted ← process_merge_sort (suc max_depth) sch (length movies) (first afterfilter) afterfilter
    some (print_int key.id ++ (b'p' ∷ b'.' ∷ b'o' ∷ b'u' ∷ b't' ∷ []), print_titles sorted)
