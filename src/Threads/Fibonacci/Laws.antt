-- ===== src/Threads/Fibonacci/Laws.antt =====
-- `fibonacci` prints the Fibonacci numbers.
use sp_hw.Base.{
  ℕ, zero, suc, ◌+◌, ◌^◌, ◌≡◌, ◌≤◌, ◌<◌, refl, ap, ◌∙◌, inl, inr, true, false, List, [], ◌∷◌, some,
  arith, ◌==◌, ==_iff, leb, Bool-cases,
}
use sp_hw.Base.Int.{ℤ, pos, ◌+ℤ◌}
use sp_hw.Base.Decimal.{wrap32, wrap32_lem}
use mathlib.Core.Option
use mathlib.Core.Path.{subst}
use sp_hw.Threads.Subarray.{Saved}
use sp_hw.Threads.Fibonacci.{fibonacci_round, fibonacci_loop, fibonacci}

abbrev pub fib : ℕ → ℕ
fib zero = 0
fib (suc zero) = 1
fib (suc (suc n)) = fib n + fib (suc n)

-- `n` Fibonacci numbers from the one of `i` on.
abbrev pub fibs : ℕ → ℕ → List ℤ
fibs i zero = []
fibs i (suc n) = pos (fib i) ∷ fibs (suc i) n

fib_step : (n : ℕ) → fib n ≤ fib (suc n)
fib_step zero = omega arith
fib_step (suc n) = omega arith

fib_mono : (i n : ℕ) → i ≤ n → fib i ≤ fib n
fib_mono zero n h = omega arith
fib_mono (suc i) zero h = absurd (omega (arith, h))
fib_mono (suc i) (suc n) h = elim (Bool-cases (i == n)) [
  | inl e ↦ subst (λ k. fib (suc i) ≤ fib (suc k)) ((==_iff i n).0 e) (omega arith)
  | inr e ↦ omega (arith, fib_step n, fib_mono (suc i) n (ground (arith, ==_iff i n)))
]

sum_fits : (a b : ℕ) → a + b < 2 ^ 31 → wrap32 (pos a +ℤ pos b) ≡ pos (a + b)
unfolding ◌+ℤ◌
sum_fits a b h = ground (arith, wrap32_lem (pos (a + b)))

-- A state in front of the round of `suc (suc (suc j))`.
abbrev Holds : ℕ → Saved → Type 0
Holds j s = (s.i ≡ suc (suc (suc j))) × (s.x ≡ pos (fib (suc j))) × (s.y ≡ pos (fib (suc (suc j))))

-- A state behind the round of `suc (suc j)`.
abbrev Done : ℕ → Saved → Type 0
Done j s = (s.i ≡ suc (suc j)) × (s.x ≡ pos (fib (suc j))) × (s.y ≡ pos (fib (suc (suc j))))

round-Done :
    (j : ℕ) (s : Saved)
    → Holds j s
    → fib (suc (suc (suc j))) < 2 ^ 31
    → Done (suc j) (fibonacci_round s)
unfolding fibonacci_round
round-Done j s (e, f, g) room =
    let late : leb s.i 2 ≡ false = ground arith in
    rw late (e, g, rw (f, g) (sum_fits (fib (suc j)) (fib (suc (suc j))) room))

round_early :
    (s : Saved)
    → s.i ≤ 2
    → ((fibonacci_round s).i ≡ s.i)
      × ((fibonacci_round s).x ≡ pos 1)
      × ((fibonacci_round s).y ≡ pos 1)
unfolding fibonacci_round
round_early s h = let early : leb s.i 2 ≡ true = ground arith in rw early (refl, refl, refl)

-- The last round, and one that is not the last.
loop_exits :
    (fuel arg : ℕ) (s : Saved)
    → (fibonacci_round s).i ≡ arg
    → fibonacci_loop (suc fuel) arg s ≡ some ((fibonacci_round s).y ∷ [])
unfolding fibonacci_loop
loop_exits fuel arg s e = let same = (==_iff (fibonacci_round s).i arg).1 e in rw same refl

loop_goes_on :
    (fuel arg : ℕ) (s : Saved) (printed : List ℤ)
    → (fibonacci_round s).i < arg
    → fibonacci_loop fuel arg (record (fibonacci_round s) { i = (fibonacci_round s).i + 1 })
      ≡ some printed
    → fibonacci_loop (suc fuel) arg s ≡ some ((fibonacci_round s).y ∷ printed)
unfolding fibonacci_loop
loop_goes_on fuel arg s printed less run =
    let other : ((fibonacci_round s).i == arg) ≡ false = ground (arith, less) in
    rw other (ap (Option.map (λ l. (fibonacci_round s).y ∷ l)) run)

loop_prints :
    (n j arg : ℕ) (s : Saved)
    → Holds j s
    → arg ≡ suc (suc (suc j)) + n
    → fib arg < 2 ^ 31
    → fibonacci_loop (suc n) arg s ≡ some (fibs (suc (suc (suc j))) (suc n))
loop_prints zero j arg s h e room =
    let d =
      round-Done j s h (omega (arith, fib_mono (suc (suc (suc j))) arg (omega (arith, e)), room)) in
    loop_exits 0 arg s (omega (arith, d.0, e)) ∙ ap (λ v. some (v ∷ [])) d.2
loop_prints (suc n) j arg s h e room =
    let fits : fib (suc (suc (suc j))) < 2 ^ 31 =
      omega (arith, fib_mono (suc (suc (suc j))) arg (omega (arith, e)), room) in
    let d = round-Done j s h fits in
    let t : Saved = record (fibonacci_round s) { i = (fibonacci_round s).i + 1 } in
    loop_goes_on (suc n) arg s _ (omega (arith, d.0, e))
      (loop_prints n (suc j) arg t (omega (arith, d.0), d.1, d.2) (omega (arith, e)) room)
    ∙ ap (λ v. some (v ∷ fibs (suc (suc (suc (suc j)))) (suc n))) d.2

-- From the second round on.
second_prints :
    (n : ℕ) (s : Saved)
    → s.i ≡ 2
    → fib (suc (suc n)) < 2 ^ 31
    → fibonacci_loop (suc n) (suc (suc n)) s ≡ some (fibs 2 (suc n))
second_prints zero s h room =
    let (e, f, g) = round_early s (omega (arith, h)) in
    loop_exits 0 2 s (e ∙ h) ∙ ap (λ v. some (v ∷ [])) g
second_prints (suc n) s h room =
    let (e, f, g) = round_early s (omega (arith, h)) in
    loop_goes_on (suc n) (suc (suc (suc n))) s _ (omega (arith, e, h)) (
      loop_prints n 0 (suc (suc (suc n)))
        (record (fibonacci_round s) { i = (fibonacci_round s).i + 1 }) (omega (arith, e, h), f, g)
        (omega arith) room)
    ∙ ap (λ v. some (v ∷ fibs 3 (suc n))) g

-- With an argument of at least 1 whose Fibonacci number is an `int`, the thread exits after as many
-- rounds as its argument says, and it has printed the Fibonacci numbers in their order. What its
-- memory held before is of no account.
pub fibonacci-fibs :
    (n : ℕ) (x y : ℤ) → fib (suc n) < 2 ^ 31 → fibonacci (suc n) x y ≡ some (fibs 1 (suc n))
unfolding fibonacci
fibonacci-fibs zero x y room =
    let s : Saved = record { i = 1; x = x; y = y } in
    let (e, f, g) = round_early s (omega arith) in loop_exits 0 1 s e ∙ ap (λ v. some (v ∷ [])) g
fibonacci-fibs (suc n) x y room =
    let s : Saved = record { i = 1; x = x; y = y } in
    let (e, f, g) = round_early s (omega arith) in
    loop_goes_on (suc n) (suc (suc n)) s _ (omega (arith, e)) (
      second_prints n (record (fibonacci_round s) { i = (fibonacci_round s).i + 1 })
        (omega (arith, e)) room)
    ∙ ap (λ v. some (v ∷ fibs 2 (suc n))) g
