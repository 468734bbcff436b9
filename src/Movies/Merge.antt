-- ===== src/Movies/Merge.antt =====
-- `merge` of simple-movies-recommendation-system/server.c, and the parameter record of header.h.
pub mod Laws
use sp_hw.Base.{
  ℕ, zero, suc, ◌+◌, Bool, true, false, List, [], ◌∷◌, Option, none, some, Ordering, if◌then◌else◌,
  set,
}
use sp_hw.Base.Int.{ℤ, pos, negsuc, pos_part, ◌+ℤ◌, ◌-ℤ◌}
use sp_hw.Base.Error.{◌>>=◌}
use sp_hw.Base.Strings.{strcmp}
use sp_hw.Movies.Doubles.{Doubles}
use sp_hw.Movies.Entries.{Entry, is_lt}
use sp_hw.Movies.Sort.{slice}

-- `parameter`; the array behind its field `filtered` is passed along on its own.
pub record Parameter : Type 0 where
  pub depth : ℕ
  pub left : ℤ
  pub right : ℤ

-- An index in front of the array has no place in it.
abbrev pub index : ℤ → Option ℕ
index (pos n) = some n
index (negsuc n) = none

module _ {d : Doubles} where
  -- The tests of the first `while`: whether the row is taken from the left part.
  unfoldable pub takes_left : Entry d → Entry d → Bool
  takes_left x y =
      if d.lt y.score x.score
      then true
      else if d.lt x.score y.score
      then false
      else is_lt (strcmp x.title y.title)

  -- The three loops: `l` is `mergedL[i..n1)`, `r` is `mergedR[j..n2)`.
  unfoldable pub merge_loop : List (Entry d) → List (Entry d) → ℕ → List (Entry d) → List (Entry d)
  unfolding takes_left
  merge_loop [] [] k filtered = filtered
  merge_loop [] (y ∷ r) k filtered = merge_loop [] r (k + 1) (set filtered k y)
  merge_loop (x ∷ l) [] k filtered = merge_loop l [] (k + 1) (set filtered k x)
  merge_loop (x ∷ l) (y ∷ r) k filtered = elim (takes_left x y) [
    | true ↦ merge_loop l (y ∷ r) (k + 1) (set filtered k x)
    | false ↦ merge_loop (x ∷ l) r (k + 1) (set filtered k y)
  ]

  -- `none` for a copy from outside of the array.
  unfoldable pub merge : Parameter → Parameter → List (Entry d) → Option (List (Entry d))
  unfolding merge_loop slice
  merge left right filtered = do
    i ← index left.left
    j ← index right.left
    mergedL ← slice filtered i (pos_part (left.right -ℤ left.left +ℤ pos 1))
    mergedR ← slice filtered j (pos_part (right.right -ℤ right.left +ℤ pos 1))
    some (merge_loop mergedL mergedR i filtered)
