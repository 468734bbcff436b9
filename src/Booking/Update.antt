-- ===== src/Booking/Update.antt =====
-- What the write server of csiebooking/server.c decides about a booking command, in terms of the exact
-- sums that its `int` arithmetic stands for.
pub mod Verdict
pub mod Books
pub mod Rounds
use sp_hw.Base.{ℕ, ◌+◌, ◌^◌, ◌≤◌, ◌<◌}
use sp_hw.Base.Int.{ℤ, pos, pos_part, neg_part, ◌+ℤ◌, ◌≤ℤ◌}
use sp_hw.Booking.Command.{Triple}

-- The bookings that the rules allow: none negative, at most 15 items.
abbrev pub IsBookable : Triple → Type 0
IsBookable t =
    (pos 0 ≤ℤ t.food)
    × (pos 0 ≤ℤ t.concert)
    × (pos 0 ≤ℤ t.electronics)
    × (t.food +ℤ t.concert +ℤ t.electronics ≤ℤ pos 15)

abbrev pub IsSmall : ℤ → Type 0
IsSmall a = (pos_part a < 2 ^ 29) × (neg_part a < 2 ^ 29)

-- A command that is too small to overflow an `int`.
abbrev pub IsSmallCommand : Triple → Type 0
IsSmallCommand m = IsSmall m.food × IsSmall m.concert × IsSmall m.electronics

-- The exact sums.
abbrev pub plus : Triple → Triple → Triple
plus t m = record {
  food = t.food +ℤ m.food;
  concert = t.concert +ℤ m.concert;
  electronics = t.electronics +ℤ m.electronics;
}
