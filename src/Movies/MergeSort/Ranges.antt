-- ===== src/Movies/MergeSort/Ranges.antt =====
-- Both merge sorts of simple-movies-recommendation-system/server.c at the bottom: a range of the array
-- is sorted in place, or copied out, sorted and copied back.
use sp_hw.Base.{
  ℕ, suc, ◌+◌, ◌-◌, ◌/◌, ◌≤◌, ◌<◌, ◌≡◌, refl, Bool, true, false, List, [], ◌∷◌, ◌++◌, map, Option,
  some, Mem, Perm, arith, length, length-append, take, lt→ltb, drop, take-append, drop-append,
}
use sp_hw.Base.Int.{pos, ◌+ℤ◌, ◌-ℤ◌, ltb_ℤ}
use mathlib.Core.List.{append_assoc, mem-append, append-nil, mem-cons_self, mem-cons_of_mem}
use mathlib.Core.List.Perm
use mathlib.Core.Logic.Or
use mathlib.Core.Path.{subst}
use sp_hw.Base.Strings.{Bytes, IsPrintable}
use sp_hw.Movies.Doubles.{Doubles, IsOrdered}
use sp_hw.Movies.Entries.{Entry, IsSorted}
use sp_hw.Movies.Sort.{max_len, slice, sort}
use sp_hw.Movies.Sort.Laws.{marked, IsFit, sort-Sorts, slice_lem}
use sp_hw.Movies.Merge.{Parameter}
use sp_hw.Movies.MergeSort.{left_half, right_half, sort_range, copy_rows, sort_copy}

-- `key` names the `n + 1` rows from `p` on.
abbrev pub Spans : Parameter → ℕ → ℕ → Type 0
Spans key p n = (key.left ≡ pos p) × (key.right ≡ pos (p + n))

pub left_half-Spans : (key : Parameter) (p n : ℕ) → Spans key p n → Spans (left_half key) p (n / 2)
unfolding left_half ◌+ℤ◌
left_half-Spans key p n h = ground arith

pub right_half-Spans :
    (key : Parameter) (p n : ℕ)
    → Spans key p (suc n)
    → Spans (right_half key) (p + suc n / 2 + 1) (n - suc n / 2)
unfolding right_half ◌+ℤ◌
right_half-Spans key p n h = ground arith

pub Spans-count :
    (key : Parameter) (p n : ℕ) → Spans key p n → key.right -ℤ key.left +ℤ pos 1 ≡ pos (suc n)
unfolding ◌+ℤ◌ ◌-ℤ◌
Spans-count key p n h = ground arith

pub narrow :
    (key : Parameter) (p : ℕ) → Spans key p 0 → ltb_ℤ (key.right -ℤ key.left) (pos 1024) ≡ true
unfolding ◌-ℤ◌
narrow key p h = ground arith

module _ {d : Doubles} where
  abbrev pub IsReady : Entry d → Type 0
  IsReady e = IsFit e × IsPrintable e.title × (length (marked e).title < max_len)

  abbrev pub AllReady : List (Entry d) → Type 0
  AllReady l = (e : Entry d) → Mem e l → IsReady e

  -- What a sort of the rows `l` between `pre` and `post` has to return.
  abbrev pub Placed :
      List (Entry d) → List (Entry d) → List (Entry d) → Option (List (Entry d)) → Type 0
  Placed pre l post r =
      (s : List (Entry d)) × (r ≡ some (pre ++ (map marked s ++ post))) × IsSorted s × Perm s l

  -- `f` sorts any `n + 1` rows that stand from `p` on.
  abbrev pub SortsAt : ℕ → ℕ → (List (Entry d) → Option (List (Entry d))) → Type 0
  SortsAt p n f =
      (pre l post : List (Entry d))
      → length pre ≡ p
      → length l ≡ suc n
      → AllReady l
      → Placed pre l post (f (pre ++ (l ++ post)))

  pub AllReady-left : (l r : List (Entry d)) → AllReady (l ++ r) → AllReady l
  AllReady-left l r h e m = h e (mem-append.1 (Or.inl m))

  pub AllReady-right : (l r : List (Entry d)) → AllReady (l ++ r) → AllReady r
  AllReady-right l r h e m = h e (mem-append.1 (Or.inr m))

-- The bytes behind every block can be read.
abbrev pub AllReadable : (Bytes → Bool) → Type 0
AllReadable readable = (s : Bytes) → readable s ≡ true

module _ {d : Doubles} where
  pub copy_rows-IsFit :
      (readable : Bytes → Bool) (l : List (Entry d))
      → AllReadable readable
      → ((e : Entry d) → Mem e l → length e.title < max_len)
      → copy_rows readable l ≡ some l
  unfolding copy_rows
  copy_rows-IsFit readable [] all h = refl
  copy_rows-IsFit readable (e ∷ l) all h = rw (
    all e.title,
    copy_rows-IsFit readable l all (λ x m. h x (mem-cons_of_mem e m)),
    lt→ltb (length e.title) max_len (h e mem-cons_self),
  )

  pub copy_rows-marked :
      (readable : Bytes → Bool) (s : List (Entry d))
      → AllReadable readable
      → ((e : Entry d) → Mem e s → length (marked e).title < max_len)
      → copy_rows readable (map marked s) ≡ some (map marked s)
  unfolding copy_rows
  copy_rows-marked readable [] all h = refl
  copy_rows-marked readable (e ∷ s) all h = rw (
    all (marked e).title,
    copy_rows-marked readable s all (λ x m. h x (mem-cons_of_mem e m)),
    lt→ltb (length (marked e).title) max_len (h e mem-cons_self),
  )

module _ {d : Doubles} (laws : IsOrdered d) where
  pub sort_range-SortsAt :
      (num_of_movies p n : ℕ) (key : Parameter)
      → Spans key p n
      → suc n ≤ num_of_movies
      → SortsAt {d = d} p n (sort_range num_of_movies key)
  unfolding sort_range
  sort_range-SortsAt num p n key spans few pre l post at len ready =
      let (s, run, sorted, perm) = sort-Sorts laws num n l post len few (λ e m. (ready e m).0) in
      let front : take p (pre ++ (l ++ post)) ≡ pre =
        subst (λ k. take k (pre ++ (l ++ post)) ≡ pre) at (take-append pre (l ++ post)) in
      let back : drop p (pre ++ (l ++ post)) ≡ l ++ post =
        subst (λ k. drop k (pre ++ (l ++ post)) ≡ l ++ post) at (drop-append pre (l ++ post)) in
      let one_more : ltb_ℤ (pos (suc n)) (pos 1) ≡ false = ground arith in
      (s, rw (Spans-count key p n spans, one_more, spans.0, front, back, run), sorted, perm)

  pub sort_copy-SortsAt :
      (readable : Bytes → Bool) (num_of_movies p n : ℕ) (key : Parameter)
      → AllReadable readable
      → Spans key p n
      → suc n ≤ num_of_movies
      → SortsAt {d = d} p n (sort_copy readable num_of_movies key)
  unfolding sort_copy
  sort_copy-SortsAt readable num p n key all spans few pre l post at len ready =
      let (s, run, sorted, perm) = sort-Sorts laws num n l [] len few (λ e m. (ready e m).0) in
      let run' : sort num l (pos (suc n)) ≡ some (map marked s) =
        rw (append-nil l, append-nil (map marked s)) at run in
      let cut : slice (pre ++ (l ++ post)) p (suc n) ≡ some l =
        subst (λ k. slice (pre ++ (l ++ post)) k (suc n) ≡ some l) at
          (subst (λ k. slice (pre ++ (l ++ post)) (length pre) k ≡ some l) len
            (slice_lem pre l post)) in
      let out = copy_rows-IsFit (λ title. true) l (λ title. refl) (λ e m. (ready e m).0.0) in
      let back = copy_rows-marked readable s all (λ e m. (ready e ((Perm.mem_iff perm).0 m)).2) in
      let front : take p (pre ++ (l ++ post)) ≡ pre =
        subst (λ k. take k (pre ++ (l ++ post)) ≡ pre) at (take-append pre (l ++ post)) in
      let len' : length (pre ++ l) ≡ p + suc n = omega (arith, length-append pre l) in
      let rest : drop (p + suc n) (pre ++ (l ++ post)) ≡ post =
        subst (λ k. drop (p + suc n) k ≡ post) (append_assoc pre l post)
          (subst (λ k. drop k ((pre ++ l) ++ post) ≡ post) len' (drop-append (pre ++ l) post)) in
      (s, rw (Spans-count key p n spans, spans.0, cut, out, run', back, front, rest), sorted, perm)
