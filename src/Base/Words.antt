-- ===== src/Base/Words.antt =====
-- Words and characters as scanf reads them behind space, by the documentation of the C library.
use sp_hw.Base.Decimal.{is_space, skip_space}
use Prim.Native.Nat.{ℕ}
use mathlib.Core.Path.{◌≡◌, refl, ap, ◌∙◌}
use mathlib.Core.Bool.{true, false}
use mathlib.Core.Option.{Option, none, some}
use mathlib.Core.List.{List, [], ◌∷◌, ◌++◌}

take_word : List ℕ → List ℕ × List ℕ
take_word [] = ([], [])
take_word (c ∷ cs) =
    let (w, rest) = take_word cs in
    elim (is_space c) [ true ↦ ([], c ∷ cs) | false ↦ (c ∷ w, rest) ]

some_word : List ℕ × List ℕ → Option (List ℕ × List ℕ)
some_word ([], rest) = none
some_word (c ∷ w, rest) = some (c ∷ w, rest)

-- %s: `none` where no word stands.
unfoldable pub scan_word : List ℕ → Option (List ℕ × List ℕ)
unfolding skip_space take_word some_word
scan_word s = some_word (take_word (skip_space s))

some_char : List ℕ → Option (ℕ × List ℕ)
some_char [] = none
some_char (c ∷ cs) = some (c, cs)

-- %c behind a space in the format.
unfoldable pub scan_char : List ℕ → Option (ℕ × List ℕ)
unfolding skip_space some_char
scan_char s = some_char (skip_space s)

abbrev pub IsWord : List ℕ → Type 0
IsWord [] = Unit {0}
IsWord (c ∷ cs) = (is_space c ≡ false) × IsWord cs

take_word-cons :
    (c : ℕ) (cs w rest : List ℕ)
    → is_space c ≡ false
    → take_word cs ≡ (w, rest)
    → take_word (c ∷ cs) ≡ (c ∷ w, rest)
unfolding take_word
take_word-cons c cs w rest h e = rw (h, take_word) (rw e refl)

take_word-append : (w rest : List ℕ) → IsWord w → take_word (w ++ b' ' ∷ rest) ≡ (w, b' ' ∷ rest)
unfolding take_word
take_word-append [] rest h = refl
take_word-append (c ∷ w) rest h =
    take_word-cons c (w ++ b' ' ∷ rest) w (b' ' ∷ rest) h.0 (take_word-append w rest h.1)

skip_space_one :
    (c : ℕ) (rest : List ℕ) → is_space c ≡ false → skip_space (b' ' ∷ c ∷ rest) ≡ c ∷ rest
unfolding skip_space
skip_space_one c rest h = rw (h, skip_space)

-- A word up to a space is read as it is.
pub scan_word-append :
    (c : ℕ) (w rest : List ℕ)
    → IsWord (c ∷ w)
    → scan_word (b' ' ∷ ((c ∷ w) ++ b' ' ∷ rest)) ≡ some (c ∷ w, b' ' ∷ rest)
unfolding scan_word
scan_word-append c w rest h =
    ap (λ t. some_word (take_word t)) (skip_space_one c (w ++ b' ' ∷ rest) h.0)
    ∙ ap some_word (take_word-append (c ∷ w) rest h)

pub scan_char_space :
    (c : ℕ) (rest : List ℕ) → is_space c ≡ false → scan_char (b' ' ∷ c ∷ rest) ≡ some (c, rest)
unfolding scan_char
scan_char_space c rest h = ap some_char (skip_space_one c rest h)
