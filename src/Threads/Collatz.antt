-- ===== src/Threads/Collatz.antt =====
-- `collatz` of thread-library/threads.c: the thread keeps its number in `arg`.
pub mod Laws
use sp_hw.Base.{
  ℕ, zero, suc, ◌+◌, ◌%◌, ◌/◌, Bool, List, [], ◌∷◌, Option, none, some, ◌==◌, if◌then◌else◌,
}
use sp_hw.Base.Int.{ℤ, pos, negsuc, ◌+ℤ◌, ◌*ℤ◌, eq_ℤ, half}
use sp_hw.Base.Decimal.{wrap32}
use mathlib.Core.Option

-- arg % 2 == 0
unfoldable pub is_even : ℤ → Bool
is_even (pos n) = n % 2 == 0
is_even (negsuc n) = (n + 1) % 2 == 0

unfoldable pub collatz_round : ℤ → ℤ
unfolding is_even
collatz_round arg = if is_even arg then half arg else wrap32 (wrap32 (arg *ℤ pos 3) +ℤ pos 1)

-- What the thread prints until it exits; `none` while the rounds given are not enough.
unfoldable pub collatz : ℕ → ℤ → Option (List ℤ)
collatz zero arg = none
collatz (suc fuel) arg =
    let arg' = collatz_round arg in
    let rest = Option.map (λ printed. arg' ∷ printed) (collatz fuel arg') in
    if eq_ℤ arg' (pos 1) then some (arg' ∷ []) else rest
