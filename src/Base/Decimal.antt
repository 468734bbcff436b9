-- ===== src/Base/Decimal.antt =====
-- Decimal text as printf writes it and scanf reads it, by the documentation of the C library.
use sp_hw.Base.Int.{ℤ, pos, negsuc, neg_of}
use sp_hw.Base.Tests.{ltb, leb, ◌==◌, if◌then◌else◌, Bool-cases}
use Prim.Native.Nat.{ℕ, zero, suc, ◌+◌, ◌-◌, ◌*◌, ◌/◌, ◌%◌, ◌^◌, ◌<◌}
use mathlib.Core.Path.{◌≡◌, refl, ap, ◌∙◌}
use mathlib.Core.Logic.{inl, inr}
use mathlib.Core.Bool.{Bool, true, false, ◌&&◌, ◌||◌}
use mathlib.Core.Option.{Option, none, some, none-ne-some}
use mathlib.Core.List.{List, [], ◌∷◌, ◌++◌}
use native.Mathlib.Omega.{arith}

-- isdigit
abbrev pub is_digit : ℕ → Bool
is_digit c = leb b'0' c && leb c b'9'

-- The digits of `n` in front of `acc`.
unfoldable pub digits_loop : ℕ → ℕ → List ℕ → List ℕ
digits_loop zero n acc = acc
digits_loop (suc fuel) n acc =
    let rest = digits_loop fuel (n / 10) ((n % 10 + b'0') ∷ acc) in
    if ltb n 10 then (n + b'0') ∷ acc else rest

unfoldable pub print_nat : ℕ → List ℕ
unfolding digits_loop
print_nat n = digits_loop (suc n) n []

-- %d
unfoldable pub print_int : ℤ → List ℕ
unfolding print_nat
print_int (pos n) = print_nat n
print_int (negsuc n) = b'-' ∷ print_nat (suc n)

-- The longest run of digits, as a number behind `v`, and what follows it.
unfoldable pub scan_digits : ℕ → List ℕ → ℕ × List ℕ
scan_digits v [] = (v, [])
scan_digits v (c ∷ cs) = elim (is_digit c) [
  | true ↦ scan_digits (v * 10 + (c - b'0')) cs
  | false ↦ (v, c ∷ cs)
]

-- What follows is no digit.
abbrev pub IsStop : List ℕ → Type 0
IsStop [] = Unit {0}
IsStop (c ∷ cs) = is_digit c ≡ false

scan_digit :
    (v k : ℕ) (acc : List ℕ)
    → k < 10
    → scan_digits v ((k + b'0') ∷ acc) ≡ scan_digits (v * 10 + k) acc
unfolding scan_digits
scan_digit v k acc h =
    let e : is_digit (k + b'0') ≡ true = ground arith in
    let f : k + b'0' - b'0' ≡ k = omega arith in rw (e, f, scan_digits)

scan_digits-digits_loop :
    (fuel n : ℕ) (acc : List ℕ)
    → n < fuel
    → scan_digits 0 (digits_loop fuel n acc) ≡ scan_digits n acc
unfolding digits_loop
scan_digits-digits_loop zero n acc h = absurd (omega arith)
scan_digits-digits_loop (suc fuel) n acc h = elim (Bool-cases (ltb n 10)) [
  | inl e ↦ rw e (scan_digit 0 n acc (ground arith) ∙ ap (λ k. scan_digits k acc) (omega arith))
  | inr e ↦ rw e (
      scan_digits-digits_loop fuel (n / 10) ((n % 10 + b'0') ∷ acc) (ground arith)
      ∙ scan_digit (n / 10) (n % 10) acc (omega arith)
      ∙ ap (λ k. scan_digits k acc) (omega arith))
]

digits_loop-append :
    (fuel n : ℕ) (acc rest : List ℕ)
    → digits_loop fuel n acc ++ rest ≡ digits_loop fuel n (acc ++ rest)
unfolding digits_loop
digits_loop-append zero n acc rest = refl
digits_loop-append (suc fuel) n acc rest = elim (Bool-cases (ltb n 10)) [
  | inl e ↦ rw e
  | inr e ↦ rw e (digits_loop-append fuel (n / 10) _ rest)
]

scan_digits_stop : (v : ℕ) (rest : List ℕ) → IsStop rest → scan_digits v rest ≡ (v, rest)
unfolding scan_digits
scan_digits_stop v [] h = refl
scan_digits_stop v (c ∷ cs) h = rw (h, scan_digits)

pub scan_digits-print_nat :
    (n : ℕ) (rest : List ℕ) → IsStop rest → scan_digits 0 (print_nat n ++ rest) ≡ (n, rest)
unfolding print_nat
scan_digits-print_nat n rest h =
    rw (digits_loop-append (suc n) n [] rest)
      (scan_digits-digits_loop (suc n) n rest (omega arith) ∙ scan_digits_stop n rest h)

-- The text of a number begins with a digit.
digits_loop-head :
    (fuel n : ℕ) (acc : List ℕ)
    → n < fuel
    → (c : ℕ) × (cs : List ℕ) × (digits_loop fuel n acc ≡ c ∷ cs) × (is_digit c ≡ true)
unfolding digits_loop
digits_loop-head zero n acc h = absurd (omega arith)
digits_loop-head (suc fuel) n acc h = elim (Bool-cases (ltb n 10)) [
  | inl e ↦ rw e (n + b'0', acc, refl, ground arith)
  | inr e ↦ rw e (digits_loop-head fuel (n / 10) _ (ground arith))
]

pub print_nat-head :
    (n : ℕ) → (c : ℕ) × (cs : List ℕ) × (print_nat n ≡ c ∷ cs) × (is_digit c ≡ true)
unfolding print_nat
print_nat-head n = digits_loop-head (suc n) n [] (omega arith)

-- The value of an `int` made from any integer: its residue, as gcc converts and as its signed
-- arithmetic wraps without optimisation.
unfoldable pub wrap32 : ℤ → ℤ
wrap32 (pos n) =
    if ltb (n % 2 ^ 32) (2 ^ 31) then pos (n % 2 ^ 32) else negsuc (2 ^ 32 - 1 - n % 2 ^ 32)
wrap32 (negsuc n) =
    if ltb (n % 2 ^ 32) (2 ^ 31) then negsuc (n % 2 ^ 32) else pos (2 ^ 32 - 1 - n % 2 ^ 32)

abbrev pub IsInt32 : ℤ → Type 0
IsInt32 (pos n) = n < 2 ^ 31
IsInt32 (negsuc n) = n < 2 ^ 31

pub wrap32_lem : (a : ℤ) → IsInt32 a → wrap32 a ≡ a
unfolding wrap32
wrap32_lem (pos n) h = ground arith
wrap32_lem (negsuc n) h = ground arith

pub wrap32-IsInt32 : (a : ℤ) → IsInt32 (wrap32 a)
unfolding wrap32
wrap32-IsInt32 (pos n) = ground arith
wrap32-IsInt32 (negsuc n) = ground arith

-- isspace
abbrev pub is_space : ℕ → Bool
is_space c = (c == b' ') || (leb 9 c && leb c 13)

unfoldable pub skip_space : List ℕ → List ℕ
skip_space [] = []
skip_space (c ∷ cs) = elim (is_space c) [ true ↦ skip_space cs | false ↦ c ∷ cs ]

scan_sign : List ℕ → Bool × List ℕ
scan_sign [] = (false, [])
scan_sign (c ∷ cs) =
    if c == b'-' then (true, cs) else if c == b'+' then (false, cs) else (false, c ∷ cs)

starts_digit : List ℕ → Bool
starts_digit [] = false
starts_digit (c ∷ cs) = is_digit c

-- The digits behind the sign.
unfoldable pub scan_number : Bool → List ℕ → Option (ℤ × List ℕ)
unfolding starts_digit scan_digits
scan_number minus t =
    let (n, rest) = scan_digits 0 t in
    if starts_digit t then some (wrap32 (if minus then neg_of n else pos n), rest) else none

-- %d of scanf: `none` where no number stands.
unfoldable pub scan_int : List ℕ → Option (ℤ × List ℕ)
unfolding skip_space scan_sign scan_number
scan_int s = let (minus, t) = scan_sign (skip_space s) in scan_number minus t

-- atoi
unfoldable pub atoi : List ℕ → ℤ
unfolding scan_int
atoi s = elim (scan_int s) [ none ↦ pos 0 | some (n, rest) ↦ n ]

scan_sign_digit :
    (c : ℕ) (cs : List ℕ) → is_digit c ≡ true → scan_sign (skip_space (c ∷ cs)) ≡ (false, c ∷ cs)
unfolding skip_space scan_sign
scan_sign_digit c cs h = ground arith

-- The text of a number in front of `rest`, by its first digit.
print_nat-append :
    (n : ℕ) (rest : List ℕ)
    → (scan_sign (skip_space (print_nat n ++ rest)) ≡ (false, print_nat n ++ rest))
      × (starts_digit (print_nat n ++ rest) ≡ true)
unfolding starts_digit
print_nat-append n rest =
    let (c, cs, e, d) = print_nat-head n in rw e (scan_sign_digit c (cs ++ rest) d, d)

-- What `%d` writes, `%d` reads back.
pub scan_int-print_int :
    (a : ℤ) (rest : List ℕ)
    → IsInt32 a
    → IsStop rest
    → scan_int (print_int a ++ rest) ≡ some (a, rest)
unfolding scan_int print_int
scan_int-print_int (pos n) rest h stop = rw (
  (print_nat-append n rest).0,
  (print_nat-append n rest).1,
  scan_digits-print_nat n rest stop,
  wrap32_lem (pos n) h,
)
scan_int-print_int (negsuc n) rest h stop = rw (
  (print_nat-append (suc n) rest).1,
  scan_digits-print_nat (suc n) rest stop,
  wrap32_lem (negsuc n) h,
)

-- Space in front of a number is passed over.
pub scan_int_space : (s : List ℕ) → scan_int (b' ' ∷ s) ≡ scan_int s
unfolding scan_int
scan_int_space s = refl

scan_number-IsInt32 :
    (minus : Bool) (t : List ℕ) (a : ℤ) (rest : List ℕ)
    → scan_number minus t ≡ some (a, rest)
    → IsInt32 a
unfolding scan_number
scan_number-IsInt32 minus t a rest h =
    let value : ℤ = if minus then neg_of (scan_digits 0 t).0 else pos (scan_digits 0 t).0 in
    elim (Bool-cases (starts_digit t)) [
      | inl e ↦
          let h' : ◌≡◌ {A = Option (ℤ × List ℕ)} (some (wrap32 value, (scan_digits 0 t).1))
              (some (a, rest)) =
            rw e at h in
          let same : wrap32 value ≡ a = cc in rw (← same) (wrap32-IsInt32 value)
      | inr e ↦ absurd (none-ne-some (a, rest) (rw e at h))
    ]

-- What %d reads is an `int`.
pub scan_int-IsInt32 :
    (s : List ℕ) (a : ℤ) (rest : List ℕ) → scan_int s ≡ some (a, rest) → IsInt32 a
unfolding scan_int
scan_int-IsInt32 s a rest h =
    scan_number-IsInt32 (scan_sign (skip_space s)).0 (scan_sign (skip_space s)).1 a rest h
