-- ===== src/Movies/MergeSort.antt =====
-- `thread_merge_sort` and `process_merge_sort` of simple-movies-recommendation-system/server.c.
-- A created thread or forked child works on a range of its own, so its run is one call, made before
-- or after that of its parent. A `Schedule` says which, and what else the machine decides: whether a
-- thread was to spare, and whether the bytes behind a block can be read.
pub mod Ranges
pub mod Laws
pub mod Agreement
use sp_hw.Base.{
  ℕ, zero, suc, ◌+◌, ◌/◌, Bool, true, false, ◌||◌, ◌&&◌, List, [], ◌∷◌, ◌++◌, Option, none, some,
  ltb, leb, length, if◌then◌else◌, take, drop, get_elem?, set,
}
use sp_hw.Base.Int.{half, ℤ, pos, negsuc, pos_part, neg_of, ◌+ℤ◌, ◌-ℤ◌, eq_ℤ, ltb_ℤ}
use sp_hw.Base.Error.{◌>>=◌}
use sp_hw.Movies.Doubles.{Doubles}
use sp_hw.Movies.Entries.{Entry}
use sp_hw.Base.Strings.{Bytes}
use sp_hw.Movies.Sort.{max_len, add_secret, slice, sort}
use sp_hw.Movies.Merge.{Parameter, index, merge}

-- MAX_DEPTH
abbrev pub max_depth : ℕ
max_depth = 5

pub record Schedule : Type 0 where
  -- num_of_threads < MAX_THREAD, when the call with this parameter looks
  pub spare : Parameter → Bool
  -- whether the new thread or child is done before its parent begins
  pub child_first : Parameter → Bool
  -- whether the MAX_LEN bytes from the start of a shorter block that holds a string can be read
  pub readable : Bytes → Bool

-- addparameter(left, mid, depth + 1, filtered) and addparameter(mid + 1, right, depth + 1, filtered)
unfoldable pub left_half : Parameter → Parameter
unfolding half
left_half key = record {
  depth = key.depth + 1;
  left = key.left;
  right = half (key.right +ℤ key.left);
}

unfoldable pub right_half : Parameter → Parameter
unfolding half
right_half key = record {
  depth = key.depth + 1;
  left = half (key.right +ℤ key.left) +ℤ pos 1;
  right = key.right;
}

module _ {d : Doubles} where
  -- What `sort` does at a size below 1: num_of_movies is an int in lib.c, so the assert on the size
  -- holds, and the last line marks the row in front of the pointer, which is the row `right` of the whole
  -- array.
  unfoldable pub mark_in_front : Parameter → List (Entry d) → Option (List (Entry d))
  mark_in_front key filtered = do
    right ← index key.right
    e ← get_elem? filtered right
    title ← add_secret e.title
    some (set filtered right (record e { title = title }))

  -- `sort` on `title + left` and `scores + left`.
  unfoldable pub sort_range : ℕ → Parameter → List (Entry d) → Option (List (Entry d))
  unfolding mark_in_front
  sort_range num_of_movies key filtered =
      let size = key.right -ℤ key.left +ℤ pos 1 in
      if ltb_ℤ size (pos 1)
      then mark_in_front key filtered
      else (index key.left >>= λ left. sort num_of_movies (drop left filtered) size >>= λ part.
          some (take left filtered ++ part))

  -- Two calls in the order of the schedule.
  abbrev in_turn :
      Bool
      → (List (Entry d) → Option (List (Entry d)))
      → (List (Entry d) → Option (List (Entry d)))
      → List (Entry d)
      → Option (List (Entry d))
  in_turn true child parent filtered = child filtered >>= parent
  in_turn false child parent filtered = parent filtered >>= child

  -- `none` also when the fuel runs out.
  unfoldable pub thread_merge_sort :
      ℕ → Schedule → ℕ → Parameter → List (Entry d) → Option (List (Entry d))
  thread_merge_sort zero sch num_of_movies key filtered = none
  thread_merge_sort (suc fuel) sch num_of_movies key filtered =
      let leftmerge = left_half key in
      let rightmerge = right_half key in
      let sort_left = thread_merge_sort fuel sch num_of_movies leftmerge in
      let sort_right = thread_merge_sort fuel sch num_of_movies rightmerge in
      let split =
        in_turn (if sch.spare key then sch.child_first key else true) sort_left sort_right filtered
        >>= merge leftmerge rightmerge in
      if leb max_depth key.depth || eq_ℤ key.right key.left
      then sort_range num_of_movies key filtered
      else split

  -- memcpy of MAX_LEN bytes of each title, with the scores. The block that is read is shorter (that of
  -- add_secret, and that of a title as `initialize` has made it): `none` if the bytes behind it cannot be
  -- read. What is copied is the same string if its end is among the bytes.
  unfoldable pub copy_rows : (Bytes → Bool) → List (Entry d) → Option (List (Entry d))
  copy_rows readable [] = some []
  copy_rows readable (e ∷ rows) = do
    rest ← copy_rows readable rows
    if ltb (length e.title) max_len && readable e.title then some (e ∷ rest) else none

  -- The range is copied out, from blocks of MAX_LEN bytes, sorted, and copied back, from those that
  -- add_secret has made.
  unfoldable pub sort_copy :
      (Bytes → Bool) → ℕ → Parameter → List (Entry d) → Option (List (Entry d))
  sort_copy readable num_of_movies key filtered =
      let count = key.right -ℤ key.left +ℤ pos 1 in
      do
        left ← index key.left
        rows ← slice filtered left (pos_part count)
        temp ← copy_rows (λ title. true) rows
        sorted ← sort num_of_movies temp count
        back ← copy_rows readable sorted
        some (take left filtered ++ (back ++ drop (left + pos_part count) filtered))

  unfoldable pub process_merge_sort :
      ℕ → Schedule → ℕ → Parameter → List (Entry d) → Option (List (Entry d))
  process_merge_sort zero sch num_of_movies key filtered = none
  process_merge_sort (suc fuel) sch num_of_movies key filtered =
      let leftmerge = left_half key in
      let rightmerge = right_half key in
      let sort_left = process_merge_sort fuel sch num_of_movies leftmerge in
      let sort_right = process_merge_sort fuel sch num_of_movies rightmerge in
      let split =
        in_turn (sch.child_first key) sort_left sort_right filtered
        >>= merge leftmerge rightmerge in
      if leb max_depth key.depth || ltb_ℤ (key.right -ℤ key.left) (pos 1024)
      then sort_copy sch.readable num_of_movies key filtered
      else split
