-- ===== src/Movies/Sort/Laws.antt =====
-- `sort` puts the rows in order and marks each title once.
use sp_hw.Base.{
  ℕ, zero, suc, ◌≤◌, ◌<◌, ◌≡◌, refl, false, List, [], ◌∷◌, ◌++◌, map, Option, some, Mem, Perm,
  arith, lt→ltb, le→leb, length, length-perm, length-append, get_elem?, get_elem?-append,
  get_elem?-lt, set, drop, drop-append,
}
use sp_hw.Base.Int.{pos}
use mathlib.Core.List.{Pairwise, Pairwise-singleton, append_assoc, mem-cons_self, mem-cons_of_mem}
use mathlib.Core.List.Perm
use mathlib.Core.Path.{subst}
use sp_hw.Movies.Doubles.{Doubles, IsOrdered}
use sp_hw.Movies.Entries.{Entry, IsSorted}
use sp_hw.Movies.Sort.{max_len, key, swap, mark_first, select_loop, slice, sort}
use sp_hw.Movies.Sort.Argmax.{argmax_best}

module _ {d : Doubles} where
  -- What `add_secret` makes of a row.
  abbrev pub marked : Entry d → Entry d
  marked e = record e { title = e.title ++ key }

  abbrev pub IsFit : Entry d → Type 0
  IsFit e = (length e.title < max_len) × (d.lt e.score d.zero ≡ false)

  abbrev pub AllFit : List (Entry d) → Type 0
  AllFit l = (e : Entry d) → Mem e l → IsFit e

  pub AllFit-perm : {l r : List (Entry d)} → Perm l r → AllFit r → AllFit l
  AllFit-perm p h e m = h e ((Perm.mem_iff p).0 m)

  set-perm :
      (xs : List (Entry d)) (j : ℕ) (x y : Entry d)
      → get_elem? xs j ≡ some y
      → Perm (y ∷ set xs j x) (x ∷ xs)
  set-perm [] j x y h = cc
  set-perm (z ∷ xs) zero x y h =
      Perm.trans (Perm.swap x y xs) (Perm.cons x (Perm.cons' (cc) Perm.rfl))
  set-perm (z ∷ xs) (suc j) x y h =
      Perm.trans (Perm.swap z y _)
        (Perm.trans (Perm.cons z (set-perm xs j x y h)) (Perm.swap x z xs))

  -- Swapping the head with the row at `j` brings that row to the front and rearranges the array.
  swap_front :
      (x : Entry d) (xs : List (Entry d)) (j : ℕ) (y : Entry d)
      → get_elem? (x ∷ xs) j ≡ some y
      → (r : List (Entry d)) × (swap (x ∷ xs) 0 j ≡ some (y ∷ r)) × Perm (y ∷ r) (x ∷ xs)
  unfolding swap
  swap_front x xs zero y h = (xs, ground arith, Perm.cons' (cc) Perm.rfl)
  swap_front x xs (suc j) y h = (set xs j x, ground arith, set-perm xs j x y h)

  mark_first_lem :
      (e : Entry d) (l : List (Entry d))
      → length e.title < max_len
      → mark_first (e ∷ l) ≡ some (marked e, l)
  unfolding mark_first
  mark_first_lem e l h = ground arith

  abbrev pub Sorts : List (Entry d) → Option (List (Entry d)) → Type 0
  Sorts l r = (s : List (Entry d)) × (r ≡ some (map marked s)) × IsSorted s × Perm s l

  pub slice_lem :
      (pre l post : List (Entry d)) → slice (pre ++ (l ++ post)) (length pre) (length l) ≡ some l
  unfolding slice
  slice_lem pre [] post = refl
  slice_lem pre (x ∷ l) post =
      let len : length (pre ++ x ∷ []) ≡ suc (length pre) =
        omega (arith, length-append pre (x ∷ [])) in
      let shifted : slice (pre ++ x ∷ (l ++ post)) (suc (length pre)) (length l) ≡ some l =
        rw (len, append_assoc pre (x ∷ []) (l ++ post)) at (slice_lem (pre ++ x ∷ []) l post) in
      rw (get_elem?-append pre x (l ++ post), shifted)

module _ {d : Doubles} (laws : IsOrdered d) where
  select_loop-Sorts :
      (n : ℕ) (l : List (Entry d)) → length l ≡ suc n → AllFit l → Sorts l (select_loop n l)
  unfolding select_loop
  select_loop-Sorts n [] len fit = absurd (omega arith)
  select_loop-Sorts zero (x ∷ y ∷ l) len fit = absurd (omega arith)
  select_loop-Sorts zero (x ∷ []) len fit =
      (x ∷ [], rw (mark_first_lem x [] (fit x mem-cons_self).0), Pairwise-singleton _ x, Perm.rfl)
  select_loop-Sorts (suc n) (x ∷ xs) len fit =
      let (idx, z, found, at, below) = argmax_best laws x xs (λ e m. (fit e m).1) in
      let (r, swapped, perm) = swap_front x xs idx z at in
      let inside = lt→ltb idx (length (x ∷ xs)) (get_elem?-lt (x ∷ xs) idx at) in
      let fit' : AllFit (z ∷ r) = AllFit-perm perm fit in
      let (s, run, sorted, perm') =
        select_loop-Sorts n r (omega (arith, length-perm perm))
          (λ e m. fit' e (mem-cons_of_mem z m)) in
      (
        z ∷ s,
        rw (found, inside, swapped, mark_first_lem z r (fit' z mem-cons_self).0, run),
        Pairwise.cons
            (λ e m. below e ((Perm.mem_iff perm).0 (mem-cons_of_mem z ((Perm.mem_iff perm').0 m))))
            sorted,
        Perm.trans (Perm.cons z perm') perm,
      )

  -- On fit rows of which there are at least one and at most `num_of_movies`, `sort` succeeds: it
  -- leaves the rows behind the first `size` alone, and puts in front of them the sorted
  -- rearrangement of the first `size` rows with each title marked once.
  pub sort-Sorts :
      (num_of_movies n : ℕ) (l post : List (Entry d))
      → length l ≡ suc n
      → suc n ≤ num_of_movies
      → AllFit l
      → (s : List (Entry d)) × (sort num_of_movies (l ++ post) (pos (suc n))
          ≡ some (map marked s ++ post))
        × IsSorted s
        × Perm s l
  unfolding sort
  sort-Sorts num n l post len few fit =
      let (s, run, sorted, perm) = select_loop-Sorts n l len fit in
      let cut : slice (l ++ post) 0 (suc n) ≡ some l =
        subst (λ k. slice (l ++ post) 0 k ≡ some l) len (slice_lem [] l post) in
      let rest : drop (suc n) (l ++ post) ≡ post =
        subst (λ k. drop k (l ++ post) ≡ post) len (drop-append l post) in
      (s, rw (le→leb (suc n) num few, cut, run, rest), sorted, perm)
