-- ===== src/Base/Text.antt =====
-- The bytes of a text literal.
use Prim.Native.Nat.{ℕ}
use Prim.Native.Char.{code}
use Prim.Native.String.{String}
use mathlib.Core.List.{List, [], ◌∷◌}

abbrev pub codes : (text : String) → List ℕ
codes (String.◌∷◌ letter text) = code letter ∷ codes text
codes String.[] = []
