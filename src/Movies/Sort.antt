-- ===== src/Movies/Sort.antt =====
-- simple-movies-recommendation-system/lib.c: the selection sort that marks each title as it places
-- it. `none` stands for a failed assertion, an exit, or an access outside of the array.
pub mod Argmax
pub mod Laws
use sp_hw.Base.{
  ℕ, zero, suc, ◌+◌, ◌≡◌, Bool, true, false, not, List, [], ◌∷◌, ◌++◌, Option, none, some, Ordering,
  ltb, leb, if◌then◌else◌, length, get_elem?, set, drop,
}
use sp_hw.Base.Int.{ℤ, pos, negsuc}
use sp_hw.Base.Error.{◌>>=◌, ◌>>◌, guard}
use sp_hw.Base.Strings.{Bytes, strcmp}
use sp_hw.Movies.Doubles.{Doubles}
use sp_hw.Movies.Entries.{Entry}

-- MAX_LEN
abbrev pub max_len : ℕ
max_len = 0xff

-- "\t[It's top secret.]"
abbrev pub key_text : Bytes
key_text =
    b'[' ∷ b'I' ∷ b't' ∷ 39 ∷ b's' ∷ b' ' ∷ b't' ∷ b'o' ∷ b'p' ∷ b' ' ∷ b's' ∷ b'e' ∷ b'c' ∷ b'r'
    ∷ b'e' ∷ b't' ∷ b'.' ∷ b']' ∷ []

abbrev pub key : Bytes
key = 9 ∷ key_text

unfoldable pub add_secret : Bytes → Option Bytes
add_secret s = if ltb (length s) max_len then some (s ++ key) else none

abbrev is_gt : Ordering → Bool
is_gt Ordering.gt = true
is_gt _ = false

module _ {d : Doubles} where
  -- movie[ret]
  title_at : List (Entry d) → ℕ → Bytes
  title_at movie i = elim (get_elem? movie i) [ none ↦ [] | some e ↦ e.title ]

  -- One round of the loop of `argmax`, on `max` and `ret`.
  argmax_step : List (Entry d) → ℕ → Entry d → d.Double × ℕ → d.Double × ℕ
  argmax_step src i e (max, ret) =
      if d.lt max e.score
      then (e.score, i)
      else if d.eq e.score max
      then (if is_gt (strcmp (title_at src ret) e.title) then (max, i) else (max, ret))
      else (max, ret)

  -- The rounds from `i` on; the list is `src[i..end)`.
  argmax_loop : List (Entry d) → List (Entry d) → ℕ → d.Double × ℕ → d.Double × ℕ
  argmax_loop src [] i state = state
  argmax_loop src (e ∷ rest) i state = argmax_loop src rest (i + 1) (argmax_step src i e state)

  -- The array is what stands from `start` on, and the result counts from there.
  unfoldable pub argmax : List (Entry d) → Option ℕ
  unfolding argmax_loop argmax_step title_at
  argmax src =
      let (max, ret) = argmax_loop src src 0 (d.minus_one, 0) in
      if not (d.lt max d.zero) then some ret else none

  unfoldable pub swap : List (Entry d) → ℕ → ℕ → Option (List (Entry d))
  swap movies i j = do
    m ← get_elem? movies i
    n ← get_elem? movies j
    some (set (set movies i n) j m)

  -- movies[i] = add_secret(movies[i], strlen(movies[i])) at the head of what is left.
  mark_first : List (Entry d) → Option (Entry d × List (Entry d))
  unfolding add_secret
  mark_first [] = none
  mark_first (e ∷ rest) = do secret ← add_secret e.title; some (record e { title = secret }, rest)

  -- The loop of `sort` with `n` rounds to go, and the line behind it; the list is what stands from
  -- `i` on.
  unfoldable pub select_loop : ℕ → List (Entry d) → Option (List (Entry d))
  unfolding argmax swap mark_first
  select_loop zero movies = do marked ← mark_first movies; some (marked.0 ∷ marked.1)
  select_loop (suc n) movies = do
    idx ← argmax movies
    guard (ltb idx (length movies))
    swapped ← swap movies 0 idx
    marked ← mark_first swapped
    sorted ← select_loop n marked.1
    some (marked.0 ∷ sorted)

  -- movies[i..i + n), read one by one.
  unfoldable pub slice : List (Entry d) → ℕ → ℕ → Option (List (Entry d))
  slice movies i zero = some []
  slice movies i (suc n) = do e ← get_elem? movies i; rest ← slice movies (suc i) n; some (e ∷ rest)

  -- `sort` on an array that begins at the pointer. At a size below 1 its last line reaches in front of
  -- it, which is outside of such an array.
  unfoldable pub sort : ℕ → List (Entry d) → ℤ → Option (List (Entry d))
  unfolding select_loop slice
  sort num_of_movies movies (negsuc n) = none
  sort num_of_movies movies (pos zero) = none
  sort num_of_movies movies (pos (suc n)) = do
    guard (leb (suc n) num_of_movies)
    part ← slice movies 0 (suc n)
    sorted ← select_loop n part
    some (sorted ++ drop (suc n) movies)
