-- ===== src/Movies/Input/Laws.antt =====
-- What `initialize` and `read_request` read: complete profiles always, and the rows of a file in its
-- format as they stand there.
use sp_hw.Base.{
  ℕ, zero, suc, ◌+◌, ◌≡◌, ◌≤◌, ◌<◌, refl, ap, sym, ◌∙◌, inl, inr, List, [], ◌∷◌, ◌++◌, Option, none,
  some, arith, ltb, Bool-cases, length, length-append, length-map,
}
use sp_hw.Base.Int.{ℤ, pos, negsuc}
use sp_hw.Base.Error.{◌>>=◌}
use sp_hw.Base.Decimal.{scan_int}
use sp_hw.Base.Tokens.{strtok}
use sp_hw.Base.Strings.{Bytes}
use mathlib.Core.Path.{subst}
use mathlib.Core.Option.{none-ne-some}
use sp_hw.Movies.Doubles.{Doubles}
use sp_hw.Movies.Request.{num_of_genre, Request, MovieProfile}
use sp_hw.Movies.Request.Laws.{AllProfiled}
use sp_hw.Movies.Input.{
  max_movies, max_req, scan_short, normalized, genre_loop, read_profile, read_movie, movies_loop,
  read_request, requests_loop, read_requests, read_reqs, initialize,
}

-- A result of a chain comes from a result of its first link.
bind_some {ℓ κ} :
    {A : Type ℓ} {B : Type κ} (o : Option A) (f : A → Option B) (b : B)
    → (o >>= f) ≡ some b
    → (a : A) × (o ≡ some a) × (f a ≡ some b)
bind_some none f b h = absurd (none-ne-some b h)
bind_some (some a) f b h = (a, refl, h)

some_inj {ℓ} : {A : Type ℓ} {a b : A} → some a ≡ some b → a ≡ b
some_inj h = cc

module _ {d : Doubles} where
  -- Nineteen entries for the requests too.
  abbrev pub AllAsked : List (Request d) → Type 0
  AllAsked [] = Unit {0}
  AllAsked (r ∷ reqs) = (length r.profile ≡ num_of_genre) × AllAsked reqs

module _ (d : Doubles) (strtod : Bytes → d.Double) where
  length-genre_loop :
      (n : ℕ) (token : Option (Bytes × Bytes)) (profile : List d.Double) (sum : d.Double)
      (r : List d.Double × d.Double)
      → genre_loop d strtod n token profile sum ≡ some r
      → length r.0 ≡ length profile + n
  unfolding genre_loop
  length-genre_loop zero token profile sum r h =
      let e : (profile, sum) ≡ r = some_inj h in ap (λ x. length x.0) (sym e) ∙ omega arith
  length-genre_loop (suc n) token profile sum r h =
      let (t, e, f) = bind_some token _ r h in
      length-genre_loop n (strtok b',' t.1) (profile ++ strtod t.0 ∷ []) _ r f
      ∙ omega (arith, length-append profile (strtod t.0 ∷ []))

  length-read_profile :
      (token : Option (Bytes × Bytes)) (p : List d.Double)
      → read_profile d strtod token ≡ some p
      → length p ≡ num_of_genre
  unfolding read_profile
  length-read_profile token p h =
      let (r, e, f) = bind_some (genre_loop d strtod num_of_genre token [] d.zero) _ p h in
      ap length (sym (some_inj f))
      ∙ length-map (normalized d (d.sqrt r.1)) r.0
      ∙ length-genre_loop num_of_genre token [] d.zero r e

  length-read_movie :
      (chunk : Bytes) (m : MovieProfile d)
      → read_movie d strtod chunk ≡ some m
      → length m.profile ≡ num_of_genre
  unfolding read_movie
  length-read_movie chunk m h =
      let (t, e, f) = bind_some (strtok b' ' chunk) _ m h in
      let (u, g, k) = bind_some (strtok b'{' t.1) _ m f in
      let (p, i, j) = bind_some (read_profile d strtod (strtok b',' u.1)) _ m k in
      ap (λ x. length x.profile) (sym (some_inj j)) ∙ length-read_profile (strtok b',' u.1) p i

  AllProfiled-append :
      (l : List (MovieProfile d)) (m : MovieProfile d)
      → AllProfiled l
      → length m.profile ≡ num_of_genre
      → AllProfiled (l ++ m ∷ [])
  AllProfiled-append [] m h e = (e, tt)
  AllProfiled-append (x ∷ l) m h e = (h.0, AllProfiled-append l m h.1 e)

  movies_loop-AllProfiled :
      (rows : List Bytes) (movies result : List (MovieProfile d))
      → AllProfiled movies
      → length movies ≤ max_movies
      → movies_loop d strtod rows movies ≡ some result
      → AllProfiled result × (length result ≤ max_movies)
  unfolding movies_loop
  movies_loop-AllProfiled [] movies result h l e =
      let same = some_inj e in (subst AllProfiled same h, subst (λ x. length x ≤ max_movies) same l)
  movies_loop-AllProfiled (chunk ∷ rows) movies result h l e =
      elim (Bool-cases (ltb (length movies) max_movies)) [
        | inl b ↦
            let (m, f, g) = bind_some (read_movie d strtod chunk) _ result (rw b at e) in
            movies_loop-AllProfiled rows (movies ++ m ∷ []) result
              (AllProfiled-append movies m h (length-read_movie chunk m f))
              (let lt : length movies < max_movies = ground arith in
                omega (arith, lt, length-append movies (m ∷ [])))
              g
        | inr b ↦ absurd (none-ne-some result (rw b at e))
      ]

  length-read_request :
      (input : Bytes) (r : Request d × Bytes)
      → read_request d strtod input ≡ some r
      → length r.0.profile ≡ num_of_genre
  unfolding read_request
  length-read_request input r h =
      let (a, e, f) = bind_some (scan_int input) _ r h in
      let (b, g, k) = bind_some (scan_short a.1) _ r f in
      let (c, i, j) = bind_some (scan_short b.1) _ r k in
      let (p, m, n) = bind_some (read_profile d strtod (strtok b',' c.0)) _ r j in
      ap (λ x. length x.0.profile) (sym (some_inj n)) ∙ length-read_profile (strtok b',' c.0) p m

  requests_loop-AllAsked :
      (n : ℕ) (input : Bytes) (reqs : List (Request d))
      → requests_loop d strtod n input ≡ some reqs
      → AllAsked reqs × (length reqs ≡ n)
  unfolding requests_loop
  requests_loop-AllAsked zero input reqs h =
      let same = some_inj h in (subst AllAsked same tt, ap length (sym same))
  requests_loop-AllAsked (suc n) input reqs h =
      let (r, e, f) = bind_some (read_request d strtod input) _ reqs h in
      let (rest, g, k) = bind_some (requests_loop d strtod n r.1) _ reqs f in
      let (all, len) = requests_loop-AllAsked n r.1 rest g in
      let same = some_inj k in
      (subst AllAsked same (length-read_request input r e, all), ap length (sym same) ∙ ap suc len)

  read_requests-AllAsked :
      (n : ℤ) (input : Bytes) (reqs : List (Request d))
      → read_requests d strtod n input ≡ some reqs
      → AllAsked reqs × (length reqs ≤ max_req)
  unfolding read_requests
  read_requests-AllAsked (pos n) input reqs h = elim (Bool-cases (ltb n (suc max_req))) [
    | inl b ↦
        let (all, len) = requests_loop-AllAsked n input reqs (rw b at h) in
        let lt : n < suc max_req = ground arith in (all, omega (arith, lt, len))
    | inr b ↦ absurd (none-ne-some reqs (rw b at h))
  ]
  read_requests-AllAsked (negsuc n) input reqs h = absurd (none-ne-some reqs h)

  read_reqs-AllAsked :
      (input : Bytes) (reqs : List (Request d))
      → read_reqs d strtod input ≡ some reqs
      → AllAsked reqs × (length reqs ≤ max_req)
  unfolding read_reqs
  read_reqs-AllAsked input reqs h = by_number (scan_int input) h
    where
      by_number :
          (o : Option (ℤ × Bytes))
          → elim o [ none ↦ some [] | some v ↦ read_requests d strtod v.0 v.1 ] ≡ some reqs
          → AllAsked reqs × (length reqs ≤ max_req)
      by_number none e =
          let same = some_inj e in
          (subst AllAsked same tt, subst (λ x. length x ≤ max_req) same (omega arith))
      by_number (some v) e = read_requests-AllAsked v.0 v.1 reqs e

  pub initialize-AllProfiled :
      (rows : List Bytes) (input : Bytes) (movies : List (MovieProfile d)) (reqs : List (Request d))
      → initialize d strtod rows input ≡ some (movies, reqs)
      → AllProfiled movies × (length movies ≤ max_movies) × AllAsked reqs × (length reqs ≤ max_req)
  unfolding initialize
  initialize-AllProfiled [] input movies reqs h = absurd (none-ne-some _ h)
  initialize-AllProfiled (first ∷ rows) input movies reqs h =
      let (ms, e, f) = bind_some (movies_loop d strtod rows []) _ (movies, reqs) h in
      let (rs, i, j) = bind_some (read_reqs d strtod input) _ (movies, reqs) f in
      let same = some_inj j in
      let same_movies : ms ≡ movies = ap (λ x. x.0) same in
      let same_reqs : rs ≡ reqs = ap (λ x. x.1) same in
      let (profiled, few) = movies_loop-AllProfiled rows [] ms tt (omega arith) e in
      let (asked, few_reqs) = read_reqs-AllAsked input rs i in
      (
        subst AllProfiled same_movies profiled,
        subst (λ x. length x ≤ max_movies) same_movies few,
        subst AllAsked same_reqs asked,
        subst (λ x. length x ≤ max_req) same_reqs few_reqs,
      )
