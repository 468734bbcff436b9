-- ===== src/Movies/MergeSort/Laws.antt =====
-- Both merge sorts leave the sorted rearrangement of their range, whatever the schedule.
use sp_hw.Base.{
  ℕ, zero, suc, ◌+◌, ◌-◌, ◌/◌, ◌≤◌, ◌<◌, ◌≡◌, ap, sym, ◌∙◌, inl, inr, Bool, true, false, ◌||◌, List,
  ◌++◌, map, Option, some, Perm, arith, Bool-cases, leb, if◌then◌else◌, length, length-append,
  length-map, length-perm, take, drop, take-append-drop, length-take, length-drop,
}
use sp_hw.Base.Int.{pos, ◌-ℤ◌, eq_ℤ, ltb_ℤ}
use sp_hw.Base.Error.{◌>>=◌}
use mathlib.Core.List.{append_assoc, mem-append}
use mathlib.Core.List.Perm
use mathlib.Core.Logic.Or
use sp_hw.Movies.Doubles.{Doubles, IsOrdered}
use sp_hw.Movies.Entries.{Entry, IsSorted}
use sp_hw.Movies.Sort.Laws.{marked}
use sp_hw.Movies.Merge.{Parameter, merge}
use sp_hw.Movies.Merge.Laws.{
  interleave, interleave-perm, interleave-IsSorted, merge-interleave, AllPrintable-of,
}
use sp_hw.Movies.MergeSort.{
  max_depth, Schedule, left_half, right_half, in_turn, thread_merge_sort, process_merge_sort,
}
use sp_hw.Movies.MergeSort.Ranges.{
  Spans, left_half-Spans, right_half-Spans, Spans-count, narrow, AllReady, AllReadable, Placed,
  SortsAt, AllReady-left, AllReady-right, sort_range-SortsAt, sort_copy-SortsAt,
}

module _ {d : Doubles} (laws : IsOrdered d) where
  module _ (key : Parameter) (p n : ℕ) (spans : Spans key p (suc n)) where
    -- What is left once both halves are in place.
    merge-Placed :
        (pre l r post s t : List (Entry d))
        → length pre ≡ p
        → length l ≡ suc (suc n / 2)
        → length r ≡ suc (n - suc n / 2)
        → AllReady (l ++ r)
        → IsSorted s × Perm s l
        → IsSorted t × Perm t r
        → Placed pre (l ++ r) post (
            merge
              (left_half key)
              (right_half key)
              (pre ++ (map marked s ++ (map marked t ++ post))))
    merge-Placed pre l r post s t at lenl lenr ready hs ht =
        let spl = left_half-Spans key p (suc n) spans in
        let spr = right_half-Spans key p n spans in
        let lens = length-perm hs.1 ∙ lenl in
        let lent = length-perm ht.1 ∙ lenr in
        (
          interleave s t,
          merge-interleave (left_half key) (right_half key) pre s t post (spl.0 ∙ ap pos (sym at))
              (Spans-count (left_half key) p (suc n / 2) spl ∙ ap pos (sym lens))
              (spr.0 ∙ ap pos (omega arith))
              (Spans-count (right_half key) (p + suc n / 2 + 1) (n - suc n / 2) spr
                ∙ ap pos (sym lent))
              (AllPrintable-of s
                (λ e m. (ready e (mem-append.1 (Or.inl ((Perm.mem_iff hs.1).0 m)))).1))
              (AllPrintable-of t
                (λ e m. (ready e (mem-append.1 (Or.inr ((Perm.mem_iff ht.1).0 m)))).1)),
          interleave-IsSorted laws s t hs.0 ht.0,
          Perm.trans (interleave-perm s t) (Perm.append hs.1 ht.1),
        )

    module _ (f g : List (Entry d) → Option (List (Entry d))) (hf : SortsAt p (suc n / 2) f)
        (hg : SortsAt (p + suc n / 2 + 1) (n - suc n / 2) g) (pre l r post : List (Entry d))
        (at : length pre ≡ p) (lenl : length l ≡ suc (suc n / 2))
        (lenr : length r ≡ suc (n - suc n / 2)) (ready : AllReady (l ++ r)) where
      left_then_right :
          Placed pre
            (l ++ r)
            post
            (f (pre ++ (l ++ (r ++ post))) >>= g >>= merge (left_half key) (right_half key))
      left_then_right =
          let (s, runs, ss, ps) = hf pre l (r ++ post) at lenl (AllReady-left l r ready) in
          let front : length (pre ++ map marked s) ≡ p + suc n / 2 + 1 = omega (
            arith,
            length-append pre (map marked s),
            length-map (marked {d = d}) s,
            length-perm ps,
          ) in
          let (t, runt, st, pt) =
            hg (pre ++ map marked s) r post front lenr (AllReady-right l r ready) in
          let runt' : g (pre ++ (map marked s ++ (r ++ post)))
              ≡ some (pre ++ (map marked s ++ (map marked t ++ post))) =
            rw
              (
                append_assoc pre (map marked s) (r ++ post),
                append_assoc pre (map marked s) (map marked t ++ post),
              )
              at runt in
          let (u, runu, su, pu) =
            merge-Placed pre l r post s t at lenl lenr ready (ss, ps) (st, pt) in
          (u, rw (runs, runt', runu), su, pu)

      right_then_left :
          Placed pre
            (l ++ r)
            post
            (g (pre ++ (l ++ (r ++ post))) >>= f >>= merge (left_half key) (right_half key))
      right_then_left =
          let front : length (pre ++ l) ≡ p + suc n / 2 + 1 = omega (arith, length-append pre l) in
          let (t, runt, st, pt) = hg (pre ++ l) r post front lenr (AllReady-right l r ready) in
          let runt' : g (pre ++ (l ++ (r ++ post))) ≡ some (pre ++ (l ++ (map marked t ++ post))) =
            rw (append_assoc pre l (r ++ post), append_assoc pre l (map marked t ++ post)) at
              runt in
          let (s, runs, ss, ps) =
            hf pre l (map marked t ++ post) at lenl (AllReady-left l r ready) in
          let (u, runu, su, pu) =
            merge-Placed pre l r post s t at lenl lenr ready (ss, ps) (st, pt) in
          (u, rw (runt', runs, runu), su, pu)

      in_turn-Placed :
          (b : Bool)
          → Placed pre
              (l ++ r)
              post
              (in_turn b f g (pre ++ (l ++ (r ++ post))) >>= merge (left_half key) (right_half key))
      in_turn-Placed true = left_then_right
      in_turn-Placed false = right_then_left

    -- The two halves in either order, and their merge.
    halves-SortsAt :
        (b : Bool) (f g : List (Entry d) → Option (List (Entry d)))
        → SortsAt p (suc n / 2) f
        → SortsAt (p + suc n / 2 + 1) (n - suc n / 2) g
        → SortsAt p (suc n) (λ a. in_turn b f g a >>= merge (left_half key) (right_half key))
    halves-SortsAt b f g hf hg pre l post at len ready =
        let m = suc (suc n / 2) in
        let whole : take m l ++ drop m l ≡ l = take-append-drop m l in
        let join : take m l ++ (drop m l ++ post) ≡ l ++ post =
          sym (append_assoc (take m l) (drop m l) post) ∙ ap (λ k. k ++ post) whole in
        let placed =
          in_turn-Placed f g hf hg pre (take m l) (drop m l) post at (length-take m l (omega arith))
            (omega (arith, length-drop m l)) (rw whole ready) b in
        rw (join, whole) at placed

  deeper :
      (fuel : ℕ) (key : Parameter)
      → max_depth < suc fuel + key.depth
      → leb max_depth key.depth ≡ false
      → ((left_half key).depth ≤ max_depth)
        × (max_depth < fuel + (left_half key).depth)
        × ((right_half key).depth ≤ max_depth)
        × (max_depth < fuel + (right_half key).depth)
  unfolding left_half right_half
  deeper fuel key deep h = ground arith

  -- The rows from `left` to `right`, at least one and at most `num_of_movies`, come out as their
  -- sorted rearrangement with each title marked once, and the other rows as they were.
  pub thread_merge_sort-SortsAt :
      (fuel : ℕ) (sch : Schedule) (num_of_movies p n : ℕ) (key : Parameter)
      → key.depth ≤ max_depth
      → max_depth < fuel + key.depth
      → suc n ≤ num_of_movies
      → Spans key p n
      → SortsAt {d = d} p n (thread_merge_sort fuel sch num_of_movies key)
  unfolding thread_merge_sort
  thread_merge_sort-SortsAt zero sch num p n key shallow deep few spans = absurd (omega arith)
  thread_merge_sort-SortsAt (suc fuel) sch num p zero key shallow deep few spans =
      let e : (leb max_depth key.depth || eq_ℤ key.right key.left) ≡ true = ground arith in
      rw e (sort_range-SortsAt laws num p zero key spans few)
  thread_merge_sort-SortsAt (suc fuel) sch num p (suc n) key shallow deep few spans =
      elim (Bool-cases (leb max_depth key.depth || eq_ℤ key.right key.left)) [
        | inl e ↦ rw e (sort_range-SortsAt laws num p (suc n) key spans few)
        | inr e ↦
            let (dl, fl, dr, fr) = deeper fuel key deep (ground arith) in
            rw e (
              halves-SortsAt key p n spans (if sch.spare key then sch.child_first key else true)
                (thread_merge_sort fuel sch num (left_half key))
                (thread_merge_sort fuel sch num (right_half key))
                (thread_merge_sort-SortsAt fuel sch num p (suc n / 2) (left_half key) dl fl
                  (omega arith) (left_half-Spans key p (suc n) spans))
                (thread_merge_sort-SortsAt fuel sch num (p + suc n / 2 + 1) (n - suc n / 2)
                  (right_half key) dr fr (omega arith) (right_half-Spans key p n spans)))
      ]

  pub process_merge_sort-SortsAt :
      (fuel : ℕ) (sch : Schedule) (num_of_movies p n : ℕ) (key : Parameter)
      → AllReadable sch.readable
      → key.depth ≤ max_depth
      → max_depth < fuel + key.depth
      → suc n ≤ num_of_movies
      → Spans key p n
      → SortsAt {d = d} p n (process_merge_sort fuel sch num_of_movies key)
  unfolding process_merge_sort
  process_merge_sort-SortsAt zero sch num p n key all shallow deep few spans = absurd (omega arith)
  process_merge_sort-SortsAt (suc fuel) sch num p zero key all shallow deep few spans =
      let e : (leb max_depth key.depth || ltb_ℤ (key.right -ℤ key.left) (pos 1024)) ≡ true =
        ground (arith, narrow key p spans) in
      rw e (sort_copy-SortsAt laws sch.readable num p zero key all spans few)
  process_merge_sort-SortsAt (suc fuel) sch num p (suc n) key all shallow deep few spans =
      elim (Bool-cases (leb max_depth key.depth || ltb_ℤ (key.right -ℤ key.left) (pos 1024))) [
        | inl e ↦ rw e (sort_copy-SortsAt laws sch.readable num p (suc n) key all spans few)
        | inr e ↦
            let (dl, fl, dr, fr) = deeper fuel key deep (ground arith) in
            rw e (
              halves-SortsAt key p n spans (sch.child_first key)
                (process_merge_sort fuel sch num (left_half key))
                (process_merge_sort fuel sch num (right_half key))
                (process_merge_sort-SortsAt fuel sch num p (suc n / 2) (left_half key) all dl fl
                  (omega arith) (left_half-Spans key p (suc n) spans))
                (process_merge_sort-SortsAt fuel sch num (p + suc n / 2 + 1) (n - suc n / 2)
                  (right_half key) all dr fr (omega arith) (right_half-Spans key p n spans)))
      ]
