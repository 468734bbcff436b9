-- ===== src/Movies/Input/Rows.antt =====
-- A row of the file of movies in its format is read as it stands there.
use sp_hw.Base.{
  ℕ, ◌-◌, ◌≡◌, ◌<◌, refl, ap, ◌∙◌, List, [], ◌∷◌, ◌++◌, some, arith, length, length-append,
  take-append, map, All,
}
use sp_hw.Base.Error.{◌>>=◌}
use sp_hw.Base.Decimal.{atoi}
use sp_hw.Base.Tokens.{strtok, IsFree, strtok-append, strtok_last}
use sp_hw.Base.Strings.{Bytes}
use mathlib.Core.Path.{subst}
use mathlib.Core.List.{append-nil, append_assoc}
use sp_hw.Movies.Doubles.{Doubles}
use sp_hw.Movies.Request.{num_of_genre}
use sp_hw.Movies.Input.{normalized, genre_loop, read_profile, read_movie}

-- A text that strtok returns whole.
abbrev pub IsToken : ℕ → Bytes → Type 0
IsToken delim t = (0 < length t) × IsFree delim t

-- The texts with a comma between each.
abbrev pub join : List Bytes → Bytes
join [] = []
join (t ∷ []) = t
join (t ∷ u ∷ ts) = t ++ b',' ∷ join (u ∷ ts)

abbrev pub print_row : Bytes → Bytes → List Bytes → Bytes
print_row id title numbers = id ++ b' ' ∷ ((title ++ b' ' ∷ []) ++ b'{' ∷ join numbers)

token-append :
    (delim : ℕ) (t rest : Bytes)
    → IsToken delim t
    → strtok delim (t ++ delim ∷ rest) ≡ some (t, rest)
token-append delim [] rest h = absurd (omega (arith, h.0))
token-append delim (c ∷ w) rest h = strtok-append delim c w rest h.1

token_last : (delim : ℕ) (t : Bytes) → IsToken delim t → strtok delim t ≡ some (t, [])
token_last delim [] h = absurd (omega (arith, h.0))
token_last delim (c ∷ w) h = strtok_last delim c w h.1

IsFree-append : (delim : ℕ) (t u : Bytes) → IsFree delim t → IsFree delim u → IsFree delim (t ++ u)
IsFree-append delim [] u h k = k
IsFree-append delim (c ∷ t) u h k = (h.0, IsFree-append delim t u h.1 k)

module _ (d : Doubles) (strtod : Bytes → d.Double) where
  -- The sum of the squares of the numbers, from a sum on.
  abbrev pub squares : d.Double → List Bytes → d.Double
  squares sum [] = sum
  squares sum (t ∷ ts) = squares (d.add sum (d.mul (strtod t) (strtod t))) ts

  genre_loop-join :
      (numbers : List Bytes) (profile : List d.Double) (sum : d.Double)
      → All (IsToken b',') numbers
      → genre_loop d strtod (length numbers) (strtok b',' (join numbers)) profile sum
        ≡ some (profile ++ map strtod numbers, squares sum numbers)
  unfolding genre_loop
  genre_loop-join [] profile sum h = rw append-nil
  genre_loop-join (t ∷ []) profile sum h = rw (token_last b',' t h.0) refl
  genre_loop-join (t ∷ u ∷ ts) profile sum h = rw (token-append b',' t (join (u ∷ ts)) h.0) (
      genre_loop-join (u ∷ ts) (profile ++ strtod t ∷ []) _ h.1
      ∙ ap (λ l. some (l, squares (d.add sum (d.mul (strtod t) (strtod t))) (u ∷ ts)))
          (append_assoc profile (strtod t ∷ []) (map strtod (u ∷ ts))))

  read_profile-join :
      (numbers : List Bytes)
      → length numbers ≡ num_of_genre
      → All (IsToken b',') numbers
      → read_profile d strtod (strtok b',' (join numbers))
        ≡ some (map (normalized d (d.sqrt (squares d.zero numbers))) (map strtod numbers))
  unfolding read_profile
  read_profile-join numbers n h =
      let run : genre_loop d strtod num_of_genre (strtok b',' (join numbers)) [] d.zero
          ≡ some (map strtod numbers, squares d.zero numbers) =
        subst
          (λ k.
            genre_loop d strtod k (strtok b',' (join numbers)) [] d.zero
            ≡ some (map strtod numbers, squares d.zero numbers))
          n (genre_loop-join numbers [] d.zero h) in
      ap (λ o. o >>= λ read. some (map (normalized d (d.sqrt read.1)) read.0)) run

  -- A row with a number of the movie, its title, a space, and nineteen numbers behind a brace with
  -- commas between them, is read as that: the numbers are divided by the root of the sum of their
  -- squares, or all made zero if that root is. The title has no brace, and what stands behind the
  -- last number belongs to its text.
  pub read_movie-print_row :
      (id title : Bytes) (numbers : List Bytes)
      → IsToken b' ' id
      → IsFree b'{' title
      → length numbers ≡ num_of_genre
      → All (IsToken b',') numbers
      → read_movie d strtod (print_row id title numbers)
        ≡ some (record {
          movie_id = atoi id;
          title = title;
          profile = map (normalized d (d.sqrt (squares d.zero numbers))) (map strtod numbers);
        })
  unfolding read_movie
  read_movie-print_row id title numbers i t n h =
      let token = title ++ b' ' ∷ [] in
      let whole : IsToken b'{' token = (
        omega (arith, length-append title (b' ' ∷ [])),
        IsFree-append b'{' title (b' ' ∷ []) t (refl, tt),
      ) in
      let less : length token - 1 ≡ length title = omega (arith, length-append title (b' ' ∷ [])) in
      rw
        (
          token-append b' ' id (token ++ b'{' ∷ join numbers) i,
          token-append b'{' token (join numbers) whole,
          read_profile-join numbers n h,
          less,
          take-append title (b' ' ∷ []),
        )
        refl
