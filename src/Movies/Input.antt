-- ===== src/Movies/Input.antt =====
-- `initialize` and `read_request` of simple-movies-recommendation-system/server.c. What strtod returns
-- for a token is a parameter, as the doubles are.
pub mod Laws
pub mod Rows
use sp_hw.Base.{
  ℕ, zero, suc, ◌+◌, ◌-◌, Bool, List, [], ◌∷◌, ◌++◌, Option, none, some, if◌then◌else◌, ltb, length,
  take, drop, map,
}
use sp_hw.Base.Int.{ℤ, pos, negsuc, ltb_ℤ}
use sp_hw.Base.Error.{◌>>=◌}
use sp_hw.Base.Decimal.{scan_int, atoi}
use sp_hw.Base.Words.{scan_word}
use sp_hw.Base.Tokens.{strtok}
use sp_hw.Base.Strings.{Bytes}
use sp_hw.Movies.Doubles.{Doubles}
use sp_hw.Movies.Request.{num_of_genre, Request, MovieProfile}

-- MAX_MOVIES and MAX_REQ
abbrev pub max_movies : ℕ
max_movies = 63000

abbrev pub max_req : ℕ
max_req = 255

-- %254s
unfoldable pub scan_short : Bytes → Option (Bytes × Bytes)
scan_short s = scan_word s >>= λ word. some (take 254 word.0, drop 254 word.0 ++ word.1)

-- An entry behind the loop that normalises, by the square root of the sum.
abbrev pub normalized : (d : Doubles) → d.Double → d.Double → d.Double
normalized d sum p = if d.eq sum d.zero then d.zero else d.div p sum

module _ (d : Doubles) (strtod : Bytes → d.Double) where
  -- The first loop over the genres, from a token on; strtod of NULL is no access of the program's.
  unfoldable pub genre_loop :
      ℕ → Option (Bytes × Bytes) → List d.Double → d.Double → Option (List d.Double × d.Double)
  genre_loop zero token profile sum = some (profile, sum)
  genre_loop (suc n) token profile sum = token >>= λ t.
      genre_loop n (strtok b',' t.1) (profile ++ strtod t.0 ∷ [])
        (d.add sum (d.mul (strtod t.0) (strtod t.0)))

  -- The profile with both loops, from the first token on.
  unfoldable pub read_profile : Option (Bytes × Bytes) → Option (List d.Double)
  unfolding genre_loop
  read_profile token = genre_loop num_of_genre token [] d.zero >>= λ read.
      some (map (normalized d (d.sqrt read.1)) read.0)

  -- A row of the file; the byte in front of the brace is not part of the title.
  unfoldable pub read_movie : Bytes → Option (MovieProfile d)
  unfolding read_profile
  read_movie chunk = do
    (id, s1) ← strtok b' ' chunk
    (token, s2) ← strtok b'{' s1
    profile ← read_profile (strtok b',' s2)
    some (record { movie_id = atoi id; title = take (length token - 1) token; profile = profile })

  -- The loop over the rows that fgets returns, with its assert.
  unfoldable pub movies_loop : List Bytes → List (MovieProfile d) → Option (List (MovieProfile d))
  unfolding read_movie
  movies_loop [] movies = some movies
  movies_loop (chunk ∷ rows) movies =
      if ltb (length movies) max_movies
      then (read_movie chunk >>= λ m. movies_loop rows (movies ++ m ∷ []))
      else none

  -- A request, and the rest of the input; `none` also where scanf fills less than its three variables.
  unfoldable pub read_request : Bytes → Option (Request d × Bytes)
  unfolding read_profile scan_short
  read_request input = do
    (id, s1) ← scan_int input
    (buf1, s2) ← scan_short s1
    (buf2, s3) ← scan_short s2
    profile ← read_profile (strtok b',' buf2)
    some (record { id = id; keywords = buf1; profile = profile }, s3)

  unfoldable pub requests_loop : ℕ → Bytes → Option (List (Request d))
  unfolding read_request
  requests_loop zero input = some []
  requests_loop (suc n) input =
      read_request input >>= λ r. requests_loop n r.1 >>= λ reqs. some (r.0 ∷ reqs)

  -- The requests, behind their number and the assert on it: num_of_reqs is unsigned, so a negative
  -- number is above MAX_REQ.
  unfoldable pub read_requests : ℤ → Bytes → Option (List (Request d))
  unfolding requests_loop
  read_requests (pos n) input = if ltb n (suc max_req) then requests_loop n input else none
  read_requests (negsuc n) input = none

  -- The number of requests and the requests; num_of_reqs stays 0 where scanf reads no number.
  unfoldable pub read_reqs : Bytes → Option (List (Request d))
  unfolding read_requests
  read_reqs input = elim (scan_int input) [ none ↦ some [] | some v ↦ read_requests v.0 v.1 ]

  -- The file row by row, and the standard input.
  unfoldable pub initialize : List Bytes → Bytes → Option (List (MovieProfile d) × List (Request d))
  unfolding movies_loop read_reqs
  initialize [] input = none
  initialize (first ∷ rows) input = do
    movies ← movies_loop rows []
    reqs ← read_reqs input
    some (movies, reqs)
