-- ===== src/Base/Tokens.antt =====
-- strtok with one delimiter, by the documentation of the C library: the token, and what is behind it.
use sp_hw.Base.Tests.{◌==◌}
use Prim.Native.Nat.{ℕ}
use mathlib.Core.Path.{◌≡◌, refl, ap, ◌∙◌}
use mathlib.Core.Bool.{true, false}
use mathlib.Core.Option.{Option, none, some}
use mathlib.Core.List.{List, [], ◌∷◌, ◌++◌}
use native.Mathlib.Omega.{arith}

skip_delim : ℕ → List ℕ → List ℕ
skip_delim delim [] = []
skip_delim delim (c ∷ cs) = elim (c == delim) [ true ↦ skip_delim delim cs | false ↦ c ∷ cs ]

take_token : ℕ → List ℕ → List ℕ × List ℕ
take_token delim [] = ([], [])
take_token delim (c ∷ cs) =
    let (token, rest) = take_token delim cs in
    elim (c == delim) [ true ↦ ([], cs) | false ↦ (c ∷ token, rest) ]

some_token : ℕ → List ℕ → Option (List ℕ × List ℕ)
unfolding take_token
some_token delim [] = none
some_token delim (c ∷ cs) = some (take_token delim (c ∷ cs))

-- `none` is NULL.
unfoldable pub strtok : ℕ → List ℕ → Option (List ℕ × List ℕ)
unfolding skip_delim some_token
strtok delim s = some_token delim (skip_delim delim s)

-- The delimiter does not occur.
abbrev pub IsFree : ℕ → List ℕ → Type 0
IsFree delim [] = Unit {0}
IsFree delim (c ∷ cs) = ((c == delim) ≡ false) × IsFree delim cs

delim_self : (delim : ℕ) → (delim == delim) ≡ true
delim_self delim = ground arith

take_token-cons :
    (delim c : ℕ) (cs w rest : List ℕ)
    → (c == delim) ≡ false
    → take_token delim cs ≡ (w, rest)
    → take_token delim (c ∷ cs) ≡ (c ∷ w, rest)
unfolding take_token
take_token-cons delim c cs w rest h e = rw (h, take_token) (rw e refl)

take_token-append :
    (delim : ℕ) (w rest : List ℕ)
    → IsFree delim w
    → take_token delim (w ++ delim ∷ rest) ≡ (w, rest)
unfolding take_token
take_token-append delim [] rest h = rw (delim_self delim, take_token)
take_token-append delim (c ∷ w) rest h =
    take_token-cons delim c (w ++ delim ∷ rest) w rest h.0 (take_token-append delim w rest h.1)

take_token_last : (delim : ℕ) (w : List ℕ) → IsFree delim w → take_token delim w ≡ (w, [])
unfolding take_token
take_token_last delim [] h = refl
take_token_last delim (c ∷ w) h = take_token-cons delim c w w [] h.0 (take_token_last delim w h.1)

skip_delim_none :
    (delim c : ℕ) (cs : List ℕ) → (c == delim) ≡ false → skip_delim delim (c ∷ cs) ≡ c ∷ cs
unfolding skip_delim
skip_delim_none delim c cs h = rw (h, skip_delim)

-- A token up to a delimiter, and the last token.
pub strtok-append :
    (delim c : ℕ) (w rest : List ℕ)
    → IsFree delim (c ∷ w)
    → strtok delim ((c ∷ w) ++ delim ∷ rest) ≡ some (c ∷ w, rest)
unfolding strtok some_token
strtok-append delim c w rest h =
    ap (some_token delim) (skip_delim_none delim c (w ++ delim ∷ rest) h.0)
    ∙ ap some (take_token-append delim (c ∷ w) rest h)

pub strtok_last :
    (delim c : ℕ) (w : List ℕ) → IsFree delim (c ∷ w) → strtok delim (c ∷ w) ≡ some (c ∷ w, [])
unfolding strtok some_token
strtok_last delim c w h =
    ap (some_token delim) (skip_delim_none delim c w h.0)
    ∙ ap some (take_token_last delim (c ∷ w) h)
