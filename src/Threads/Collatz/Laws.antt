-- ===== src/Threads/Collatz/Laws.antt =====
-- `collatz` prints the numbers of Collatz's conjecture up to the first 1, as long as they fit an `int`.
use sp_hw.Base.{
  ℕ, suc, ◌+◌, ◌*◌, ◌/◌, ◌%◌, ◌^◌, ◌≡◌, ◌≢◌, ◌<◌, refl, ap, ◌∙◌, inl, inr, false, List, [], ◌∷◌,
  map, some, arith, ◌==◌, Bool-cases, if◌then◌else◌, length,
}
use mathlib.Core.Option
use sp_hw.Base.Int.{ℤ, pos, ◌+ℤ◌, ◌*ℤ◌, half}
use sp_hw.Base.Decimal.{wrap32_lem}
use sp_hw.Threads.Collatz.{collatz_round, collatz}

-- Half of an even number, and three times an odd one and 1.
abbrev pub successor : ℕ → ℕ
successor n = if n % 2 == 0 then n / 2 else n * 3 + 1

-- The numbers behind `n` up to the first 1.
pub data Orbit : ℕ → List ℕ → Type 0 where
  last : (n : ℕ) → successor n ≡ 1 → Orbit n (1 ∷ [])
  more : (n : ℕ) (l : List ℕ) → successor n ≢ 1 → Orbit (successor n) l → Orbit n (successor n ∷ l)

abbrev pub AllInt32 : List ℕ → Type 0
AllInt32 [] = Unit {0}
AllInt32 (n ∷ l) = (n < 2 ^ 31) × AllInt32 l

times_three : (n : ℕ) → pos n *ℤ pos 3 ≡ pos (n * 3)
unfolding ◌*ℤ◌
times_three n = ground arith

and_one : (n : ℕ) → pos n +ℤ pos 1 ≡ pos (n + 1)
unfolding ◌+ℤ◌
and_one n = ground arith

round-successor : (n : ℕ) → successor n < 2 ^ 31 → collatz_round (pos n) ≡ pos (successor n)
unfolding collatz_round half
round-successor n h = elim (Bool-cases (n % 2 == 0)) [
  | inl e ↦ rw e refl
  | inr e ↦
      let fits : n * 3 + 1 < 2 ^ 31 = rw e at h in
      rw (e, times_three n, wrap32_lem (pos (n * 3)) (omega (arith, fits)), and_one (n * 3))
        (wrap32_lem (pos (n * 3 + 1)) fits)
]

collatz_last : (fuel n : ℕ) → successor n ≡ 1 → collatz (suc fuel) (pos n) ≡ some (pos 1 ∷ [])
unfolding collatz
collatz_last fuel n e =
    let one : collatz_round (pos n) ≡ pos 1 = round-successor n (omega (arith, e)) ∙ ap pos e in
    rw one refl

collatz_more :
    (fuel n : ℕ) (l : List ℤ)
    → successor n < 2 ^ 31
    → successor n ≢ 1
    → collatz fuel (pos (successor n)) ≡ some l
    → collatz (suc fuel) (pos n) ≡ some (pos (successor n) ∷ l)
unfolding collatz
collatz_more fuel n l h d run =
    let other : (successor n + 0 == 1 + 0) ≡ false = ground arith in
    rw (round-successor n h, other) (ap (Option.map (λ k. pos (successor n) ∷ k)) run)

-- If the numbers behind the argument reach 1, and all of them fit an `int`, the thread prints just
-- these numbers, in as many rounds, and exits.
pub collatz-Orbit :
    (n : ℕ) (l : List ℕ) → Orbit n l → AllInt32 l → collatz (length l) (pos n) ≡ some (map pos l)
collatz-Orbit n l (last _ e) h = collatz_last 0 n e
collatz-Orbit n l (more _ k d o) h =
    collatz_more (length k) n (map pos k) h.0 d (collatz-Orbit (successor n) k o h.1)
