-- ===== src/Movies/Sort/Argmax.antt =====
-- `argmax` finds a row that no other outranks.
use sp_hw.Base.{
  ℕ, ◌+◌, ◌≡◌, refl, sym, ◌∙◌, inl, inr, true, false, List, [], ◌∷◌, ◌++◌, some, Mem, arith,
  Bool-cases, length, length-append, get_elem?, get_elem?-append, get_elem?-mem,
}
use mathlib.Core.List.{append_assoc, append-nil, not-mem-nil, mem-cons_self}
use sp_hw.Base.Strings.{strcmp_flip, strcmp_asym}
use sp_hw.Movies.Doubles.{Doubles, IsOrdered}
use sp_hw.Movies.Entries.{
  Entry, outranks, outranks_irrefl, outranks_asym, InOrder, InOrder-trans, IsBelow, IsBelow-cons,
  IsBelow-append,
}
use sp_hw.Movies.Sort.{argmax_step, argmax_loop, argmax, title_at}

module _ {d : Doubles} (laws : IsOrdered d) where
  argmax_step-true :
      (src : List (Entry d)) (i ret : ℕ) (x y : Entry d)
      → get_elem? src ret ≡ some y
      → outranks x y ≡ true
      → argmax_step src i x (y.score, ret) ≡ (x.score, i)
  unfolding argmax_step title_at outranks
  argmax_step-true src i ret x y at h = ground (
    arith,
    laws.lt_total x.score y.score,
    laws.eq_iff x.score y.score,
    strcmp_asym x.title y.title,
  )

  argmax_step-false :
      (src : List (Entry d)) (i ret : ℕ) (x y : Entry d)
      → get_elem? src ret ≡ some y
      → outranks x y ≡ false
      → argmax_step src i x (y.score, ret) ≡ (y.score, ret)
  unfolding argmax_step title_at outranks
  argmax_step-false src i ret x y at h =
      ground
        (arith, laws.lt_irrefl y.score, laws.eq_iff x.score y.score, strcmp_flip y.title x.title)

  -- The rounds behind `seen`, of which none outranks `y`, the row at `ret`.
  argmax_loop_best :
      (src seen rest : List (Entry d)) (ret : ℕ) (y : Entry d)
      → src ≡ seen ++ rest
      → get_elem? src ret ≡ some y
      → IsBelow y seen
      → (idx : ℕ) × (z : Entry d) × (argmax_loop src rest (length seen) (y.score, ret)
          ≡ (z.score, idx))
        × (get_elem? src idx ≡ some z)
        × IsBelow z src
  unfolding argmax_loop
  argmax_loop_best src seen [] ret y e at below = (ret, y, refl, at, rw (e ∙ append-nil seen) below)
  argmax_loop_best src seen (x ∷ rest) ret y e at below =
      let e' : src ≡ (seen ++ x ∷ []) ++ rest = e ∙ sym (append_assoc seen (x ∷ []) rest) in
      let here : get_elem? src (length seen) ≡ some x = rw e (get_elem?-append seen x rest) in
      let len : length seen + 1 ≡ length (seen ++ x ∷ []) =
        omega (arith, length-append seen (x ∷ [])) in
      elim (Bool-cases (outranks x y)) [
        | inl up ↦
            let over : InOrder x y = outranks_asym laws x y up in
            let all : IsBelow x (seen ++ x ∷ []) =
              IsBelow-append laws x (λ w m. InOrder-trans laws x y w over (below w m))
                (IsBelow-cons laws x x (outranks_irrefl laws x) (λ w m. absurd (not-mem-nil m))) in
            rw (argmax_step-true src (length seen) ret x y at up, len)
              (argmax_loop_best src (seen ++ x ∷ []) rest (length seen) x e' here all)
        | inr down ↦
            let all : IsBelow y (seen ++ x ∷ []) =
              IsBelow-append laws y below
                (IsBelow-cons laws y x down (λ w m. absurd (not-mem-nil m))) in
            rw (argmax_step-false src (length seen) ret x y at down, len)
              (argmax_loop_best src (seen ++ x ∷ []) rest ret y e' at all)
      ]

  abbrev pub IsScored : List (Entry d) → Type 0
  IsScored l = (e : Entry d) → Mem e l → d.lt e.score d.zero ≡ false

  first_step :
      (x : Entry d) (rest : List (Entry d))
      → d.lt x.score d.zero ≡ false
      → argmax_step (x ∷ rest) 0 x (d.minus_one, 0) ≡ (x.score, 0)
  unfolding argmax_step
  first_step x rest h = ground (
    arith,
    laws.minus_one_lt_zero,
    laws.lt_trans x.score d.minus_one d.zero,
    laws.lt_total d.minus_one x.score,
  )

  argmax_found :
      (x : Entry d) (rest : List (Entry d)) (idx : ℕ) (m : d.Double)
      → d.lt m d.zero ≡ false
      → argmax_loop (x ∷ rest) rest 1 (argmax_step (x ∷ rest) 0 x (d.minus_one, 0)) ≡ (m, idx)
      → argmax (x ∷ rest) ≡ some idx
  unfolding argmax
  argmax_found x rest idx m h e = rw e (ground arith)

  -- On a scored array with at least one row, `argmax` returns the index of a row that stands in
  -- order before every row of the array.
  pub argmax_best :
      (x : Entry d) (rest : List (Entry d))
      → IsScored (x ∷ rest)
      → (idx : ℕ) × (z : Entry d) × (argmax (x ∷ rest) ≡ some idx)
        × (get_elem? (x ∷ rest) idx ≡ some z)
        × IsBelow z (x ∷ rest)
  argmax_best x rest s =
      let start = first_step x rest (s x mem-cons_self) in
      let (idx, z, run, at, below) =
        argmax_loop_best (x ∷ rest) (x ∷ []) rest 0 x refl refl
          (IsBelow-cons laws x x (outranks_irrefl laws x) (λ w m. absurd (not-mem-nil m))) in
      (
        idx,
        z,
        argmax_found x rest idx z.score (s z (get_elem?-mem (x ∷ rest) idx at)) (start' start run),
        at,
        below,
      )
    where
      start' :
          {m : d.Double} {idx : ℕ}
          → argmax_step (x ∷ rest) 0 x (d.minus_one, 0) ≡ (x.score, 0)
          → argmax_loop (x ∷ rest) rest 1 (x.score, 0) ≡ (m, idx)
          → argmax_loop (x ∷ rest) rest 1 (argmax_step (x ∷ rest) 0 x (d.minus_one, 0)) ≡ (m, idx)
      start' e f = rw e f
