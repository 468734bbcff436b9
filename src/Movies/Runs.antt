-- ===== src/Movies/Runs.antt =====
-- Runs of the whole program of simple-movies-recommendation-system on a small file.
use sp_hw.Base.{none, ◌≡◌, refl, List, [], ◌∷◌, ◌++◌, some, arith, replicate, All-replicate, map}
use sp_hw.Base.Int.{pos, ◌+ℤ◌, ◌*ℤ◌}
use sp_hw.Base.Decimal.{scan_int, atoi, wrap32, print_int}
use sp_hw.Base.Strings.{Bytes}
use sp_hw.Base.Words.{scan_word}
use sp_hw.Base.Tokens.{strtok}
use sp_hw.Movies.Tests.{
  numbers, numbers-IsOrdered, movies, everything, everything-wanted, everything-collected,
  answer_rows, later_rows, eager, row,
}
use sp_hw.Movies.Request.Laws.{matches, wanted, Answers}
use sp_hw.Movies.Input.{normalized, read_movie, initialize}
use sp_hw.Movies.Input.Rows.{IsToken, join, print_row, squares, read_movie-print_row}
use sp_hw.Movies.Main.{thread_main, process_main}
use sp_hw.Movies.Main.Laws.{AllAnswered, thread_main-AllAnswered, process_main-Answers}

-- Nineteen ones.
abbrev ones_text : List Bytes
ones_text = replicate 19 (b'1' ∷ [])

abbrev file : List Bytes
file =
    (b'i' ∷ b'd' ∷ [])
    ∷ print_row (b'9' ∷ b'8' ∷ []) (b'b' ∷ []) ones_text
    ∷ print_row (b'9' ∷ b'7' ∷ []) (b'a' ∷ []) ones_text
    ∷ []

abbrev input : Bytes
input = b'1' ∷ 10 ∷ b'4' ∷ b' ' ∷ b'*' ∷ b' ' ∷ join ones_text

initialized : initialize numbers atoi file input ≡ some (movies, everything ∷ [])
unfolding initialize atoi scan_int wrap32 scan_word strtok ◌+ℤ◌ ◌*ℤ◌
initialized = refl

-- The assert on the number of requests fails for a negative one.
negative_refused : initialize numbers atoi file (b'-' ∷ b'1' ∷ []) ≡ none
unfolding initialize atoi scan_int wrap32 scan_word strtok ◌+ℤ◌ ◌*ℤ◌
negative_refused = refl

-- No number is no request.
no_requests : initialize numbers atoi file [] ≡ some (movies, [])
unfolding initialize atoi scan_int wrap32 scan_word strtok ◌+ℤ◌ ◌*ℤ◌
no_requests = refl

read_movie-print_row_example :
    read_movie numbers atoi (print_row (b'9' ∷ b'8' ∷ []) (b'b' ∷ []) ones_text)
    ≡ some (record {
      movie_id = atoi (b'9' ∷ b'8' ∷ []);
      title = b'b' ∷ [];
      profile =
          map (normalized numbers (squares numbers atoi (pos 0) ones_text)) (map atoi ones_text);
    })
read_movie-print_row_example =
    read_movie-print_row numbers atoi (b'9' ∷ b'8' ∷ []) (b'b' ∷ []) ones_text
      (omega arith, (refl, (refl, tt))) (refl, tt) refl
      (All-replicate (IsToken b',') 19 (b'1' ∷ []) (omega arith, (refl, tt)))

thread_main-AllAnswered_example :
    (files : List (Bytes × Bytes)) × (thread_main numbers atoi
        (λ i. eager)
        (λ j k. pos k)
        file
        input
      ≡ some files)
    × AllAnswered (λ j k. pos k) movies 0 (everything ∷ []) files
thread_main-AllAnswered_example =
    thread_main-AllAnswered numbers atoi numbers-IsOrdered (λ i. eager) (λ j k. pos k) file input
      movies (everything ∷ []) initialized (tt, tt)
      ((row b'b' 19, row b'a' 20 ∷ [], everything-collected, later_rows), tt)

process_main-Answers_example :
    Answers
      (print_int (pos 4) ++ (b'p' ∷ b'.' ∷ b'o' ∷ b'u' ∷ b't' ∷ []))
      (wanted (matches everything) everything movies)
      (process_main numbers atoi eager (λ k. pos 0) file input)
process_main-Answers_example =
    process_main-Answers numbers atoi numbers-IsOrdered eager file input movies everything []
      (λ s. refl) initialized (row b'b' 19, row b'a' 19 ∷ [], everything-wanted, answer_rows)
