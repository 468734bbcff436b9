-- ===== src/Movies/Merge/Laws.antt =====
-- `merge` of two sorted ranges that touch is their sorted union, written back in place.
use sp_hw.Base.{
  ℕ, ◌+◌, ◌≡◌, refl, ap, ◌∙◌, inl, inr, true, false, List, [], ◌∷◌, ◌++◌, map, some, Perm, Mem,
  arith, Bool-cases, length, length-append, length-map, length-perm, set, set-append,
}
use sp_hw.Base.Int.{pos, ◌+ℤ◌, ◌-ℤ◌}
use mathlib.Core.List.{
  Pairwise, Pairwise-cons, perm_middle, append-nil, append_assoc, mem-cons_self, mem-cons_of_mem,
}
use mathlib.Core.List.Perm
use mathlib.Core.Path.{subst}
use sp_hw.Base.Strings.{IsPrintable, strcmp-append_tab}
use sp_hw.Movies.Doubles.{Doubles, IsOrdered}
use sp_hw.Movies.Entries.{
  Entry, outranks, outranks_asym, IsSorted, IsBelow-append, IsBelow-perm, IsBelow-head,
}
use sp_hw.Movies.Sort.{key_text, slice}
use sp_hw.Movies.Sort.Laws.{marked, slice_lem}
use sp_hw.Movies.Merge.{Parameter, takes_left, merge_loop, merge}

module _ {d : Doubles} where
  -- The union of two lists in the order of the results.
  pub interleave : (left right : List (Entry d)) → List (Entry d)
  interleave [] right = right
  interleave (a ∷ left) [] = a ∷ left
  interleave (a ∷ left) (b ∷ right) = elim (outranks a b) [
    | false ↦ b ∷ interleave (a ∷ left) right
    | true ↦ a ∷ interleave left (b ∷ right)
  ]

  -- A row of the right list may be taken first.
  from_right :
      (b : Entry d) (left right : List (Entry d)) {s : List (Entry d)}
      → Perm s (left ++ right)
      → Perm (b ∷ s) (left ++ b ∷ right)
  from_right b left right p = Perm.trans (Perm.cons b p) (Perm.symm (perm_middle left right))

  pub interleave-perm : (left right : List (Entry d)) → Perm (interleave left right) (left ++ right)
  unfolding interleave
  interleave-perm [] right = Perm.rfl
  interleave-perm (a ∷ left) [] = rw append-nil Perm.rfl
  interleave-perm (a ∷ left) (b ∷ right) =
      let down = from_right b (a ∷ left) right (interleave-perm (a ∷ left) right) in
      let up = Perm.cons a (interleave-perm left (b ∷ right)) in
      elim (Bool-cases (outranks a b)) [
        | inr e ↦ rw (e, interleave) down
        | inl e ↦ rw (e, interleave) up
      ]

  interleave-nil : (l : List (Entry d)) → interleave l [] ≡ l
  unfolding interleave
  interleave-nil [] = refl
  interleave-nil (x ∷ l) = refl

  -- The marks do not change which row is taken.
  takes_left-marked :
      (x y : Entry d)
      → IsPrintable x.title
      → IsPrintable y.title
      → takes_left (marked x) (marked y) ≡ outranks x y
  unfolding takes_left outranks
  takes_left-marked x y p q = ground (arith, strcmp-append_tab x.title y.title key_text p q)

  -- Successive writes from `k` on.
  write_all : List (Entry d) → ℕ → List (Entry d) → List (Entry d)
  write_all [] k out = out
  write_all (x ∷ xs) k out = write_all xs (k + 1) (set out k x)

  abbrev pub AllPrintable : List (Entry d) → Type 0
  AllPrintable [] = Unit {0}
  AllPrintable (x ∷ l) = IsPrintable x.title × AllPrintable l

  merge_loop-write_all :
      (l r : List (Entry d)) (k : ℕ) (out : List (Entry d))
      → AllPrintable l
      → AllPrintable r
      → merge_loop (map marked l) (map marked r) k out
        ≡ write_all (map marked (interleave l r)) k out
  unfolding merge_loop write_all interleave
  merge_loop-write_all [] [] k out p q = refl
  merge_loop-write_all [] (y ∷ r) k out p q = merge_loop-write_all [] r (k + 1) _ p q.1
  merge_loop-write_all (x ∷ l) [] k out p q =
      rw interleave-nil at (merge_loop-write_all l [] (k + 1) (set out k (marked x)) p.1 tt)
  merge_loop-write_all (x ∷ l) (y ∷ r) k out p q = elim (Bool-cases (outranks x y)) [
    | inl e ↦
        rw (takes_left-marked x y p.0 q.0, e, interleave, merge_loop)
          (merge_loop-write_all l (y ∷ r) (k + 1) _ p.1 q)
    | inr e ↦
        rw (takes_left-marked x y p.0 q.0, e, interleave, merge_loop)
          (merge_loop-write_all (x ∷ l) r (k + 1) _ p q.1)
  ]

  write_all-append :
      (xs pre old post : List (Entry d))
      → length old ≡ length xs
      → write_all xs (length pre) (pre ++ (old ++ post)) ≡ pre ++ (xs ++ post)
  unfolding write_all
  write_all-append [] pre [] post h = refl
  write_all-append [] pre (o ∷ old) post h = absurd (omega arith)
  write_all-append (x ∷ xs) pre [] post h = absurd (omega arith)
  write_all-append (x ∷ xs) pre (o ∷ old) post h =
      let len : length (pre ++ x ∷ []) ≡ length pre + 1 =
        omega (arith, length-append pre (x ∷ [])) in
      let rest = write_all-append xs (pre ++ x ∷ []) old post (omega arith) in
      rw set-append (
        rw (len, append_assoc pre (x ∷ []) (old ++ post), append_assoc pre (x ∷ []) (xs ++ post)) at
          rest)

  pub AllPrintable-of :
      (l : List (Entry d)) → ((e : Entry d) → Mem e l → IsPrintable e.title) → AllPrintable l
  AllPrintable-of [] h = tt
  AllPrintable-of (x ∷ l) h =
      (h x mem-cons_self, AllPrintable-of l (λ e m. h e (mem-cons_of_mem x m)))

  module _ (pre l r post : List (Entry d)) where
    cut_left :
        slice (pre ++ (map marked l ++ (map marked r ++ post))) (length pre) (length l)
        ≡ some (map marked l)
    cut_left =
        subst
          (λ n.
            slice (pre ++ (map marked l ++ (map marked r ++ post))) (length pre) n
            ≡ some (map marked l))
          (length-map marked l) (slice_lem pre (map marked l) (map marked r ++ post))

    cut_right :
        slice (pre ++ (map marked l ++ (map marked r ++ post))) (length pre + length l) (length r)
        ≡ some (map marked r)
    cut_right =
        let len : length (pre ++ map marked l) ≡ length pre + length l =
          omega (arith, length-append pre (map marked l), length-map marked l) in
        rw (len, append_assoc pre (map marked l) (map marked r ++ post), length-map) at
          (slice_lem (pre ++ map marked l) (map marked r) post)

    written :
        AllPrintable l
        → AllPrintable r
        → merge_loop
            (map marked l)
            (map marked r)
            (length pre)
            (pre ++ (map marked l ++ (map marked r ++ post)))
          ≡ pre ++ (map marked (interleave l r) ++ post)
    written p q =
        let len : length (map marked l ++ map marked r) ≡ length (map marked (interleave l r)) =
          omega (
            arith,
            length-append (map marked l) (map marked r),
            length-map (marked {d = d}) l,
            length-map (marked {d = d}) r,
            length-map (marked {d = d}) (interleave l r),
            length-perm (interleave-perm l r),
            length-append l r,
          ) in
        merge_loop-write_all l r (length pre) _ p q
        ∙ (rw append_assoc at (
            write_all-append (map marked (interleave l r)) pre (map marked l ++ map marked r) post
              len))

  -- `merge` of the marked rows of two ranges that touch, whose unmarked titles are all printable, writes
  -- their interleaving in their place, and leaves the rows in front and behind alone.
  pub merge-interleave :
      (left right : Parameter) (pre l r post : List (Entry d))
      → left.left ≡ pos (length pre)
      → left.right -ℤ left.left +ℤ pos 1 ≡ pos (length l)
      → right.left ≡ pos (length pre + length l)
      → right.right -ℤ right.left +ℤ pos 1 ≡ pos (length r)
      → AllPrintable l
      → AllPrintable r
      → merge left right (pre ++ (map marked l ++ (map marked r ++ post)))
        ≡ some (pre ++ (map marked (interleave l r) ++ post))
  unfolding merge
  merge-interleave left right pre l r post lo n1 mid n2 p q =
      rw (n1, n2, lo, mid, cut_left pre l r post, cut_right pre l r post)
        (ap some (written pre l r post p q))

module _ {d : Doubles} (laws : IsOrdered d) where
  pub interleave-IsSorted :
      (l r : List (Entry d)) → IsSorted l → IsSorted r → IsSorted (interleave l r)
  unfolding interleave
  interleave-IsSorted [] r s t = t
  interleave-IsSorted (x ∷ l) [] s t = s
  interleave-IsSorted (x ∷ l) (y ∷ r) s t = elim (Bool-cases (outranks x y)) [
    | inl e ↦
        rw (e, interleave)
          (Pairwise.cons
            (IsBelow-perm laws x (interleave-perm l (y ∷ r)) (
              IsBelow-append laws x (Pairwise-cons.0 s).0
                (IsBelow-head laws x y (outranks_asym laws x y e) t)))
            (interleave-IsSorted l (y ∷ r) (Pairwise-cons.0 s).1 t))
    | inr e ↦
        rw (e, interleave)
          (Pairwise.cons
            (IsBelow-perm laws y (interleave-perm (x ∷ l) r)
              (IsBelow-append laws y (IsBelow-head laws y x e s) (Pairwise-cons.0 t).0))
            (interleave-IsSorted (x ∷ l) r s (Pairwise-cons.0 t).1))
  ]
