-- ===== src/Movies/MergeSort/Agreement.antt =====
-- What the two merge sorts leave, and that they leave the same.
use sp_hw.Base.{ℕ, suc, ◌+◌, ◌≤◌, ◌<◌, ◌≡◌, refl, ap, sym, ◌∙◌, List, ◌++◌, map, some, length}
use mathlib.Core.List.Perm
use sp_hw.Movies.Doubles.{Doubles, IsOrdered}
use sp_hw.Movies.Entries.{Entry, IsSorted-unique}
use sp_hw.Movies.Sort.Laws.{marked}
use sp_hw.Movies.Merge.{Parameter}
use sp_hw.Movies.MergeSort.{max_depth, Schedule, thread_merge_sort, process_merge_sort}
use sp_hw.Movies.MergeSort.Ranges.{Spans, AllReady, AllReadable, Placed}
use sp_hw.Movies.MergeSort.Laws.{thread_merge_sort-SortsAt, process_merge_sort-SortsAt}

module _ {d : Doubles} (laws : IsOrdered d) where
  -- On the rows `l` that the parameter spans, at least one and at most `num_of_movies`, with
  -- titles and scores that are fit, the thread build succeeds whatever the schedule: it leaves the rows in front and
  -- behind alone and puts the sorted rearrangement of `l` in place, each title marked once. Fuel
  -- for the levels that are left to MAX_DEPTH is enough.
  pub thread_merge_sort-Placed :
      (fuel : ℕ) (sch : Schedule) (num_of_movies n : ℕ) (key : Parameter)
      (pre l post : List (Entry d))
      → key.depth ≤ max_depth
      → max_depth < fuel + key.depth
      → suc n ≤ num_of_movies
      → Spans key (length pre) n
      → length l ≡ suc n
      → AllReady l
      → Placed pre l post (thread_merge_sort fuel sch num_of_movies key (pre ++ (l ++ post)))
  thread_merge_sort-Placed fuel sch num n key pre l post shallow deep few spans len ready =
      thread_merge_sort-SortsAt laws fuel sch num (length pre) n key shallow deep few spans pre l
        post refl len ready

  -- On the same conditions, and where the bytes that memcpy reads behind the blocks of the marked titles
  -- can be read, the process build succeeds too and leaves the same arrangement: the rows in front and
  -- behind alone, and the sorted rearrangement of `l` in place, each title marked once.
  pub process_merge_sort-Placed :
      (fuel : ℕ) (sch : Schedule) (num_of_movies n : ℕ) (key : Parameter)
      (pre l post : List (Entry d))
      → AllReadable sch.readable
      → key.depth ≤ max_depth
      → max_depth < fuel + key.depth
      → suc n ≤ num_of_movies
      → Spans key (length pre) n
      → length l ≡ suc n
      → AllReady l
      → Placed pre l post (process_merge_sort fuel sch num_of_movies key (pre ++ (l ++ post)))
  process_merge_sort-Placed fuel sch num n key pre l post all shallow deep few spans len ready =
      process_merge_sort-SortsAt laws fuel sch num (length pre) n key all shallow deep few spans pre
        l post refl len ready

  -- On a range of fit rows, at least one and at most `num_of_movies`, the two builds leave the same
  -- array, whatever runs first in either, with fuel enough for both, where the bytes that the process
  -- build reads behind its blocks can be read.
  pub merge_sorts-agree :
      (fuel fuel' : ℕ) (sch sch' : Schedule) (num_of_movies n : ℕ) (key : Parameter)
      (pre l post : List (Entry d))
      → AllReadable sch'.readable
      → key.depth ≤ max_depth
      → max_depth < fuel + key.depth
      → max_depth < fuel' + key.depth
      → suc n ≤ num_of_movies
      → Spans key (length pre) n
      → length l ≡ suc n
      → AllReady l
      → thread_merge_sort fuel sch num_of_movies key (pre ++ (l ++ post))
        ≡ process_merge_sort fuel' sch' num_of_movies key (pre ++ (l ++ post))
  merge_sorts-agree fuel fuel' sch sch' num n key pre l post all shallow deep deep' few spans len
        ready =
      let (s, runs, ss, ps) =
        thread_merge_sort-SortsAt laws fuel sch num (length pre) n key shallow deep few spans pre l
          post refl len ready in
      let (t, runt, st, pt) =
        process_merge_sort-SortsAt laws fuel' sch' num (length pre) n key all shallow deep' few
          spans pre l post refl len ready in
      let same : s ≡ t = IsSorted-unique laws s t ss st (Perm.trans ps (Perm.symm pt)) in
      runs ∙ ap (λ k. some (pre ++ (map marked k ++ post))) same ∙ sym runt
