-- ===== src/Movies/Doubles.antt =====
-- The C doubles of simple-movies-recommendation-system/server.c and lib.c, which the model takes as
-- a parameter: a carrier with the comparisons and the arithmetic that the program uses.
use sp_hw.Base.{◌≡◌, ◌↔◌, Bool, true, false}

pub record Doubles : Type 1 where
  pub Double : Type 0
  pub lt : Double → Double → Bool
  pub eq : Double → Double → Bool
  pub zero : Double
  pub minus_one : Double
  pub add : Double → Double → Double
  pub mul : Double → Double → Double
  pub div : Double → Double → Double
  pub sqrt : Double → Double

-- What IEEE 754 says of the comparisons where no operand is a NaN or a negative zero.
pub record IsOrdered (d : Doubles) : Type 0 where
  pub lt_irrefl : (a : d.Double) → d.lt a a ≡ false
  pub lt_trans : (a b c : d.Double) → d.lt a b ≡ true → d.lt b c ≡ true → d.lt a c ≡ true
  pub lt_total : (a b : d.Double) → d.lt a b ≡ false → d.lt b a ≡ false → a ≡ b
  pub eq_iff : (a b : d.Double) → (d.eq a b ≡ true) ↔ (a ≡ b)
  pub minus_one_lt_zero : d.lt d.minus_one d.zero ≡ true
