-- ===== src/Threads/Subarray/Laws.antt =====
-- `max_subarray` computes the largest sum of consecutive numbers.
use sp_hw.Base.{
  ℕ, zero, suc, ◌+◌, ◌-◌, ◌*◌, ◌^◌, ◌≡◌, ◌≤◌, ◌<◌, refl, ap, sym, ◌∙◌, ◌⊎◌, inl, inr, true, false,
  List, [], ◌∷◌, some, arith, ◌==◌, ==_iff, leb, if◌then◌else◌, Bool-cases, length, All,
}
use sp_hw.Base.Int.{ℤ, pos, negsuc, pos_part, neg_part, ◌+ℤ◌, ltb_ℤ}
use sp_hw.Base.Decimal.{wrap32, wrap32_lem}
use sp_hw.Threads.Subarray.{Saved, subarray_round, subarray_loop, max_subarray}

-- The larger of two numbers.
abbrev pub larger : ℕ → ℕ → ℕ
larger a b = if leb a b then b else a

-- The largest sum of some first numbers, of none for 0.
abbrev pub best_prefix : List ℤ → ℕ
best_prefix [] = 0
best_prefix (t ∷ numbers) = best_prefix numbers + pos_part t - neg_part t

-- The largest sum of consecutive numbers, of none for 0.
abbrev pub best : List ℤ → ℕ
best [] = 0
best (t ∷ numbers) = larger (best numbers) (best_prefix (t ∷ numbers))

-- A number of at most five characters.
abbrev pub IsShort : ℤ → Type 0
IsShort t = (pos_part t < 100000) × (neg_part t < 100000)

-- The state stands for the largest sum so far and the largest one that ends here.
abbrev Stands : Saved → ℕ → ℕ → Type 0
Stands s a p = (s.x ≡ pos a) × (pos_part s.y ≡ p) × (p ≤ a)

-- Kadane's step.
abbrev next_y : ℤ → ℤ → ℤ
next_y y t = if ltb_ℤ (pos 0) y then wrap32 (y +ℤ t) else t

sum_exact : (n : ℕ) (t : ℤ) → IsShort t → n + 100000 < 2 ^ 31 → wrap32 (pos n +ℤ t) ≡ pos n +ℤ t
unfolding ◌+ℤ◌
sum_exact n (pos m) h room = wrap32_lem _ (ground (arith, h.0))
sum_exact n (negsuc m) h room = wrap32_lem _ (ground (arith, h.1))

next_y-part :
    (y t : ℤ)
    → IsShort t
    → pos_part y + 100000 < 2 ^ 31
    → pos_part (next_y y t) ≡ pos_part y + pos_part t - neg_part t
unfolding ◌+ℤ◌
next_y-part (negsuc n) t h room = ground arith
next_y-part (pos zero) t h room = ground arith
next_y-part (pos (suc n)) t h room = rw (sum_exact (suc n) t h room) (ground arith)

raised : (a : ℕ) (y : ℤ) → (if ltb_ℤ (pos a) y then y else pos a) ≡ pos (larger a (pos_part y))
raised a y = ground arith

round_later :
    (s : Saved) (t : ℤ) (a p : ℕ)
    → (s.i == 1) ≡ false
    → Stands s a p
    → IsShort t
    → p + 100000 < 2 ^ 31
    → Stands
        (subarray_round s t)
        (larger a (p + pos_part t - neg_part t))
        (p + pos_part t - neg_part t)
unfolding subarray_round
round_later s t a p later (h, k, l) short room =
    let part = next_y-part s.y t short (omega (arith, k)) in
    let e : pos_part (next_y s.y t) ≡ p + pos_part t - neg_part t =
      part ∙ ap (λ n. n + pos_part t - neg_part t) k in
    rw later (rw h (raised a (next_y s.y t) ∙ ap (λ n. pos (larger a n)) e), e, ground arith)

round_first :
    (s : Saved) (t : ℤ) → (s.i == 1) ≡ true → Stands (subarray_round s t) (pos_part t) (pos_part t)
unfolding subarray_round
round_first s t e = rw e (ground arith, refl, omega arith)

prefix_in_best : (numbers : List ℤ) → best_prefix numbers ≤ best numbers
prefix_in_best [] = omega arith
prefix_in_best (t ∷ numbers) = ground arith

-- One more number in front, in plain numbers.
one_more :
    (a p pt nt b q : ℕ)
    → p ≤ a
    → q ≤ b
    → larger (larger a (p + pt - nt)) (larger b (p + pt - nt + q))
      ≡ larger a (larger (larger b (q + pt - nt)) (p + (q + pt - nt)))
one_more a p pt nt b q h k = ground arith

one_more_last :
    (a p pt nt : ℕ)
    → p ≤ a
    → larger a (p + pt - nt) ≡ larger a (larger (larger 0 (0 + pt - nt)) (p + (0 + pt - nt)))
one_more_last a p pt nt h = ground arith

round_i : (s : Saved) (t : ℤ) → (subarray_round s t).i ≡ s.i
unfolding subarray_round
round_i s t = elim (Bool-cases (s.i == 1)) [ inl e ↦ rw e refl | inr e ↦ rw e refl ]

loop_exits :
    (arg : ℕ) (s : Saved) (t : ℤ) (numbers : List ℤ)
    → arg ≡ s.i
    → subarray_loop arg s (t ∷ numbers) ≡ some (subarray_round s t)
unfolding subarray_loop
loop_exits arg s t numbers e =
    let same : ((subarray_round s t).i == arg) ≡ true = (==_iff _ arg).1 (round_i s t ∙ sym e) in
    rw same refl

loop_goes_on :
    (arg : ℕ) (s : Saved) (t : ℤ) (numbers : List ℤ)
    → s.i < arg
    → subarray_loop arg s (t ∷ numbers)
      ≡ subarray_loop arg (record (subarray_round s t) { i = (subarray_round s t).i + 1 }) numbers
unfolding subarray_loop
loop_goes_on arg s t numbers less =
    let other : ((subarray_round s t).i == arg) ≡ false = ground (arith, round_i s t, less) in
    rw other refl

-- What the rounds from the second on make of a state.
later_loop :
    (arg : ℕ) (s : Saved) (t : ℤ) (numbers : List ℤ) (a p : ℕ)
    → 2 ≤ s.i
    → Stands s a p
    → All IsShort (t ∷ numbers)
    → p + 100000 * length (t ∷ numbers) < 2 ^ 31
    → arg ≡ s.i + length numbers
    → (r : Saved) × (subarray_loop arg s (t ∷ numbers) ≡ some r)
      × (r.x ≡ pos (larger a (larger (best (t ∷ numbers)) (p + best_prefix (t ∷ numbers)))))
later_loop arg s t [] a p late st short room e =
    let later : (s.i == 1) ≡ false = ground arith in
    let after = round_later s t a p later st short.0 (omega (arith, room)) in
    (
      subarray_round s t,
      loop_exits arg s t [] (omega (arith, e)),
      after.0 ∙ ap pos (one_more_last a p (pos_part t) (neg_part t) st.2),
    )
later_loop arg s t (u ∷ numbers) a p late st short room e =
    let later : (s.i == 1) ≡ false = ground arith in
    let after = round_later s t a p later st short.0 (omega (arith, room)) in
    let i = round_i s t in
    let (r, run, best_of) =
      later_loop arg (record (subarray_round s t) { i = (subarray_round s t).i + 1 }) u numbers
        (larger a (p + pos_part t - neg_part t)) (p + pos_part t - neg_part t)
        (omega (arith, i, late)) after short.1 (omega (arith, room, short.0.0))
        (omega (arith, i, e)) in
    (
      r,
      loop_goes_on arg s t (u ∷ numbers) (omega (arith, e)) ∙ run,
      best_of
          ∙ ap pos (
              one_more a p (pos_part t) (neg_part t) (best (u ∷ numbers))
                (best_prefix (u ∷ numbers)) st.2 (prefix_in_best (u ∷ numbers))),
    )

-- One part of an integer is zero.
parts_apart : (t : ℤ) → (pos_part t ≡ 0) ⊎ (neg_part t ≡ 0)
parts_apart (pos n) = inr refl
parts_apart (negsuc n) = inl refl

first_best : (pt nt : ℕ) → (pt ≡ 0) ⊎ (nt ≡ 0) → pt ≡ larger 0 (0 + pt - nt)
first_best pt nt (inl e) = ground arith
first_best pt nt (inr e) = ground arith

first_more :
    (pt nt b q : ℕ)
    → (pt ≡ 0) ⊎ (nt ≡ 0)
    → q ≤ b
    → larger pt (larger b (pt + q)) ≡ larger b (q + pt - nt)
first_more pt nt b q (inl e) k = ground arith
first_more pt nt b q (inr e) k = ground arith

-- Given the numbers that atoi makes of the thread's reads, as many as its argument says, at least one and
-- at most 20000, each a number of at most five characters: the thread exits, and what it has printed last
-- is the largest sum of consecutive numbers among them, or 0 where all sums are negative. What the
-- variables x and y held before is of no account.
pub max_subarray-best :
    (x y t : ℤ) (numbers : List ℤ)
    → All IsShort (t ∷ numbers)
    → length (t ∷ numbers) ≤ 20000
    → (r : Saved) × (max_subarray (length (t ∷ numbers)) x y (t ∷ numbers) ≡ some r)
      × (r.x ≡ pos (best (t ∷ numbers)))
unfolding max_subarray
max_subarray-best x y t [] short few =
    let s : Saved = record { i = 1; x = x; y = y } in
    let first = round_first s t refl in
    (
      subarray_round s t,
      loop_exits 1 s t [] refl,
      first.0 ∙ ap pos (first_best (pos_part t) (neg_part t) (parts_apart t)),
    )
max_subarray-best x y t (u ∷ numbers) short few =
    let s : Saved = record { i = 1; x = x; y = y } in
    let first = round_first s t refl in
    let i = round_i s t in
    let arg = length (t ∷ u ∷ numbers) in
    let (r, run, best_of) =
      later_loop arg (record (subarray_round s t) { i = (subarray_round s t).i + 1 }) u numbers
        (pos_part t) (pos_part t) (omega (arith, i)) first short.1 (omega (arith, few, short.0.0))
        (omega (arith, i)) in
    (
      r,
      loop_goes_on arg s t (u ∷ numbers) (omega arith) ∙ run,
      best_of
          ∙ ap pos (
              first_more (pos_part t) (neg_part t) (best (u ∷ numbers)) (best_prefix (u ∷ numbers))
                (parts_apart t) (prefix_in_best (u ∷ numbers))),
    )
