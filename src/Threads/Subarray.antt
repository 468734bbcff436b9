-- ===== src/Threads/Subarray.antt =====
-- `max_subarray` of thread-library/threads.c: the variables that the thread saves in its tcb, and a
-- round of its loop for a number read. A switch to another thread between two rounds leaves them as
-- they are.
pub mod Laws
use sp_hw.Base.{ℕ, suc, ◌+◌, Bool, List, [], ◌∷◌, Option, none, some, ◌==◌, if◌then◌else◌}
use sp_hw.Base.Int.{ℤ, pos, ◌+ℤ◌, ltb_ℤ}
use sp_hw.Base.Decimal.{wrap32}

pub record Saved : Type 0 where
  pub i : ℕ
  pub x : ℤ
  pub y : ℤ

-- What a round makes of x and y, for the number `tmp`.
unfoldable pub subarray_round : Saved → ℤ → Saved
subarray_round t tmp =
    if t.i == 1
    then record t { y = tmp; x = if ltb_ℤ tmp (pos 0) then pos 0 else tmp }
    else (let y : ℤ = if ltb_ℤ (pos 0) t.y then wrap32 (t.y +ℤ tmp) else tmp in
        record t { y = y; x = if ltb_ℤ t.x y then y else t.x })

-- The rounds from a state on, over the numbers that arrive: `none` while the thread still waits for
-- a number, and what it has saved when it exits.
unfoldable pub subarray_loop : ℕ → Saved → List ℤ → Option Saved
subarray_loop arg t [] = none
subarray_loop arg t (tmp ∷ numbers) =
    let t' = subarray_round t tmp in
    let rest = subarray_loop arg (record t' { i = t'.i + 1 }) numbers in
    if t'.i == arg then some t' else rest

-- The thread with this argument, whatever its memory holds at the start.
unfoldable pub max_subarray : ℕ → ℤ → ℤ → List ℤ → Option Saved
max_subarray arg x y = subarray_loop arg (record { i = 1; x = x; y = y })
