-- ===== src/Threads/Fibonacci.antt =====
-- `fibonacci` of thread-library/threads.c: a round of its loop on the variables that the thread saves
-- in its tcb, which a switch to another thread between two rounds leaves as they are.
pub mod Laws
use sp_hw.Base.{
  ℕ, zero, suc, ◌+◌, Bool, List, [], ◌∷◌, Option, none, some, ◌==◌, leb, if◌then◌else◌,
}
use sp_hw.Base.Int.{ℤ, pos, ◌+ℤ◌}
use sp_hw.Base.Decimal.{wrap32}
use mathlib.Core.Option
use sp_hw.Threads.Subarray.{Saved}

unfoldable pub fibonacci_round : Saved → Saved
fibonacci_round t =
    if leb t.i 2
    then record t { x = pos 1; y = pos 1 }
    else record t { y = wrap32 (t.x +ℤ t.y); x = t.y }

-- What the thread prints from a state on until it exits; `none` also when the fuel runs out.
unfoldable pub fibonacci_loop : ℕ → ℕ → Saved → Option (List ℤ)
fibonacci_loop zero arg t = none
fibonacci_loop (suc fuel) arg t =
    let t' = fibonacci_round t in
    let rest = fibonacci_loop fuel arg (record t' { i = t'.i + 1 }) in
    if t'.i == arg then some (t'.y ∷ []) else Option.map (λ printed. t'.y ∷ printed) rest

-- The thread with this argument, whatever its memory holds at the start.
unfoldable pub fibonacci : ℕ → ℤ → ℤ → Option (List ℤ)
fibonacci arg x y = fibonacci_loop arg arg (record { i = 1; x = x; y = y })
