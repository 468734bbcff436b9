-- ===== src/Movies/Tests.antt =====
-- Runs of simple-movies-recommendation-system with integers for the scores.
use sp_hw.Base.{
  ℕ, zero, suc, ◌+◌, ◌≡◌, ◌≤◌, ◌<◌, ◌↔◌, refl, ap, sym, ◌∙◌, Bool, true, false, List, [], ◌∷◌, ◌++◌,
  map, Option, none, some, Mem, Perm, arith, All, length, get_elem?, inl, inr, ◌⊎◌, Ordering,
}
use sp_hw.Base.Int.{ℤ, pos, negsuc, ◌+ℤ◌, ◌-ℤ◌, ◌*ℤ◌, ltb_ℤ, eq_ℤ}
use mathlib.Core.List.{mem-cons, not-mem-nil}
use mathlib.Core.Logic.Or
use native.Mathlib.Bridge.{le_prop}
use mathlib.Core.Path.{subst}
use sp_hw.Base.Strings.{Bytes, IsPrintable, Occurs}
use sp_hw.Base.Decimal.{print_int}
use sp_hw.Movies.Doubles.{Doubles, IsOrdered}
use sp_hw.Movies.Entries.{Entry, Bool-set, IsSorted, IsBelow}
use sp_hw.Movies.Sort.{argmax, sort}
use sp_hw.Movies.Sort.Argmax.{argmax_best}
use sp_hw.Movies.Sort.Laws.{marked, IsFit, sort-Sorts}
use sp_hw.Movies.Merge.{Parameter, merge}
use sp_hw.Movies.Merge.Laws.{interleave, merge-interleave}
use sp_hw.Movies.MergeSort.{Schedule, thread_merge_sort, process_merge_sort}
use sp_hw.Movies.MergeSort.Ranges.{IsReady, AllReady, Placed}
use sp_hw.Movies.MergeSort.Agreement.{
  thread_merge_sort-Placed, process_merge_sort-Placed, merge_sorts-agree,
}
use sp_hw.Movies.Request.{Request, MovieProfile, filter, handle_request, process_request}
use sp_hw.Movies.Request.Laws.{
  matches, wanted, collected, Answers, filter-wanted, handle_request-Answers,
  process_request-Answers,
}

abbrev pub numbers : Doubles
numbers = record {
  Double = ℤ;
  lt = ltb_ℤ;
  eq = eq_ℤ;
  zero = pos 0;
  minus_one = negsuc 0;
  add = ◌+ℤ◌;
  mul = ◌*ℤ◌;
  div = λ a b. a;
  sqrt = λ a. a;
}

pub numbers-IsOrdered : IsOrdered numbers
numbers-IsOrdered = record {
  lt_irrefl = λ a. ground arith;
  lt_trans = λ a b c h k. ground arith;
  lt_total = λ a b h k. ground arith;
  eq_iff = λ a b. ground arith;
  minus_one_lt_zero = refl;
}

-- A row that is fit, with its title of one letter.
abbrev pub row : ℕ → ℕ → Entry numbers
row letter score = record { title = letter ∷ []; score = pos score }

abbrev two_rows : List (Entry numbers)
two_rows = row b'b' 3 ∷ row b'a' 5 ∷ []

row-IsReady : (letter score : ℕ) → 9 < letter → IsReady (row letter score)
row-IsReady letter score h = ((omega arith, ground arith), (h, tt), omega arith)

IsPrintable-IsProp : (s : Bytes) → IsProp (IsPrintable s)
IsPrintable-IsProp [] = hlevel
IsPrintable-IsProp (x ∷ s) = λ a b i. (le_prop a.0 b.0 i, IsPrintable-IsProp s a.1 b.1 i)

IsFit-IsProp : (e : Entry numbers) → IsProp (IsFit e)
IsFit-IsProp e = λ a b i. (le_prop a.0 b.0 i, Bool-set _ _ a.1 b.1 i)

IsReady-IsProp : (e : Entry numbers) → IsProp (IsReady e)
IsReady-IsProp e =
    λ a b i. (IsFit-IsProp e a.0 b.0 i, IsPrintable-IsProp e.title a.1 b.1 i, le_prop a.2 b.2 i)

pair-AllReady : (x y : Entry numbers) → IsReady x → IsReady y → AllReady (x ∷ y ∷ [])
pair-AllReady x y h k e m =
    Or.elim (IsReady-IsProp e) (mem-cons.0 m) (λ u. subst IsReady (sym u) h)
      (λ m'.
        Or.elim (IsReady-IsProp e) (mem-cons.0 m') (λ u. subst IsReady (sym u) k)
          (λ n. absurd (not-mem-nil n)))

two_rows-AllReady : AllReady two_rows
two_rows-AllReady =
    pair-AllReady _ _ (row-IsReady b'b' 3 (omega arith)) (row-IsReady b'a' 5 (omega arith))

argmax_best_example :
    (idx : ℕ) × (z : Entry numbers) × (argmax two_rows ≡ some idx)
    × (get_elem? two_rows idx ≡ some z)
    × IsBelow z two_rows
argmax_best_example =
    argmax_best numbers-IsOrdered (row b'b' 3) (row b'a' 5 ∷ [])
      (λ e m. (two_rows-AllReady e m).0.1)

sort-Sorts_example :
    (s : List (Entry numbers)) × (sort 7 (two_rows ++ row b'c' 9 ∷ []) (pos 2)
      ≡ some (map marked s ++ row b'c' 9 ∷ []))
    × IsSorted s
    × Perm s two_rows
sort-Sorts_example =
    sort-Sorts numbers-IsOrdered 7 1 two_rows (row b'c' 9 ∷ []) refl (omega arith)
      (λ e m. (two_rows-AllReady e m).0)

abbrev both : Parameter
both = record { depth = 0; left = pos 0; right = pos 1 }

abbrev first_row : Parameter
first_row = record { depth = 1; left = pos 0; right = pos 0 }

abbrev second_row : Parameter
second_row = record { depth = 1; left = pos 1; right = pos 1 }

merge-interleave_example :
    merge first_row second_row
      ([] ++ (map marked (row b'b' 3 ∷ []) ++ (map marked (row b'a' 5 ∷ []) ++ [])))
    ≡ some ([] ++ (map marked (interleave (row b'b' 3 ∷ []) (row b'a' 5 ∷ [])) ++ []))
unfolding ◌+ℤ◌ ◌-ℤ◌
merge-interleave_example =
    merge-interleave first_row second_row [] (row b'b' 3 ∷ []) (row b'a' 5 ∷ []) [] refl refl refl
      refl ((omega arith, tt), tt) ((omega arith, tt), tt)

-- Every thread is made, and every child is done first.
abbrev pub eager : Schedule
eager = record { spare = λ key. true; child_first = λ key. true; readable = λ s. true }

abbrev late : Schedule
late = record { spare = λ key. false; child_first = λ key. false; readable = λ s. true }

thread_merge_sort-Placed_example :
    Placed [] two_rows
      (row b'c' 9 ∷ [])
      (thread_merge_sort 6 eager 7 both ([] ++ (two_rows ++ row b'c' 9 ∷ [])))
thread_merge_sort-Placed_example =
    thread_merge_sort-Placed numbers-IsOrdered 6 eager 7 1 both [] two_rows (row b'c' 9 ∷ [])
      (omega arith) (omega arith) (omega arith) (refl, refl) refl two_rows-AllReady

process_merge_sort-Placed_example :
    Placed [] two_rows
      (row b'c' 9 ∷ [])
      (process_merge_sort 6 eager 7 both ([] ++ (two_rows ++ row b'c' 9 ∷ [])))
process_merge_sort-Placed_example =
    process_merge_sort-Placed numbers-IsOrdered 6 eager 7 1 both [] two_rows (row b'c' 9 ∷ [])
      (λ s. refl) (omega arith) (omega arith) (omega arith) (refl, refl) refl two_rows-AllReady

merge_sorts-agree_example :
    thread_merge_sort 6 eager 7 both ([] ++ (two_rows ++ row b'c' 9 ∷ []))
    ≡ process_merge_sort 8 late 7 both ([] ++ (two_rows ++ row b'c' 9 ∷ []))
merge_sorts-agree_example =
    merge_sorts-agree numbers-IsOrdered 6 8 eager late 7 1 both [] two_rows (row b'c' 9 ∷ [])
      (λ s. refl) (omega arith) (omega arith) (omega arith) (omega arith) (refl, refl) refl
      two_rows-AllReady

abbrev pub ones : List ℤ
ones =
    pos 1
    ∷ pos 1
    ∷ pos 1
    ∷ pos 1
    ∷ pos 1
    ∷ pos 1
    ∷ pos 1
    ∷ pos 1
    ∷ pos 1
    ∷ pos 1
    ∷ pos 1
    ∷ pos 1
    ∷ pos 1
    ∷ pos 1
    ∷ pos 1
    ∷ pos 1
    ∷ pos 1
    ∷ pos 1
    ∷ pos 1
    ∷ []

abbrev pub movie : ℕ → MovieProfile numbers
movie letter = record { movie_id = pos letter; title = letter ∷ []; profile = ones }

abbrev pub movies : List (MovieProfile numbers)
movies = movie b'b' ∷ movie b'a' ∷ []

abbrev pub asked_for : Bytes → Request numbers
asked_for keywords = record { id = pos 4; keywords = keywords; profile = ones }

filter-wanted_example :
    filter (λ i. pos 0) (asked_for (b'b' ∷ [])) movies
    ≡ some (wanted (matches (asked_for (b'b' ∷ []))) (asked_for (b'b' ∷ [])) movies)
filter-wanted_example = filter-wanted (asked_for (b'b' ∷ [])) movies refl (refl, (refl, tt))

abbrev pub everything : Request numbers
everything = asked_for (b'*' ∷ [])

pub everything-wanted :
    wanted (matches everything) everything movies ≡ row b'b' 19 ∷ row b'a' 19 ∷ []
unfolding wanted sp_hw.Base.Strings.strcmp ◌+ℤ◌ ◌*ℤ◌
everything-wanted = refl

pub answer_rows : AllReady (row b'b' 19 ∷ row b'a' 19 ∷ [])
answer_rows =
    pair-AllReady _ _ (row-IsReady b'b' 19 (omega arith)) (row-IsReady b'a' 19 (omega arith))

-- The memory of the scores holds 0, 1, 2 and so on.
pub everything-collected :
    collected (λ i. pos i) 0 (matches everything) everything movies ≡ row b'b' 19 ∷ row b'a' 20 ∷ []
unfolding collected sp_hw.Base.Strings.strcmp ◌+ℤ◌ ◌*ℤ◌
everything-collected = refl

pub later_rows : AllReady (row b'b' 19 ∷ row b'a' 20 ∷ [])
later_rows =
    pair-AllReady _ _ (row-IsReady b'b' 19 (omega arith)) (row-IsReady b'a' 20 (omega arith))

handle_request-Answers_example :
    Answers
      (print_int (pos 4) ++ (b't' ∷ b'.' ∷ b'o' ∷ b'u' ∷ b't' ∷ []))
      (row b'b' 19 ∷ row b'a' 20 ∷ [])
      (handle_request eager (λ i. pos i) movies everything)
handle_request-Answers_example =
    handle_request-Answers numbers-IsOrdered eager (λ i. pos i) movies everything (row b'b' 19)
      (row b'a' 20 ∷ []) refl (refl, (refl, tt)) everything-collected later_rows

process_request-Answers_example :
    Answers
      (print_int (pos 4) ++ (b'p' ∷ b'.' ∷ b'o' ∷ b'u' ∷ b't' ∷ []))
      (row b'b' 19 ∷ row b'a' 19 ∷ [])
      (process_request eager (λ i. pos 0) movies everything)
process_request-Answers_example =
    process_request-Answers numbers-IsOrdered eager movies everything (row b'b' 19)
      (row b'a' 19 ∷ []) refl (refl, (refl, tt)) everything-wanted answer_rows (λ s. refl)
