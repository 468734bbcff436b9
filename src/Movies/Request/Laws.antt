-- ===== src/Movies/Request/Laws.antt =====
-- What a request is answered with.
use sp_hw.Base.{
  ℕ, zero, suc, ◌+◌, ◌≡◌, ◌≤◌, refl, ap, sym, ◌∙◌, ◌↔◌, ◌⊎◌, inl, inr, Bool, true, List, [], ◌∷◌,
  ◌++◌, map, Option, some, Perm, Ordering, arith, Bool-cases, if◌then◌else◌, length, get_elem?,
  get_elem?-append, length-append,
}
use sp_hw.Base.Int.{◌-ℤ◌}
use sp_hw.Base.Decimal.{print_int}
use mathlib.Core.Path.{subst, fun_ext}
use mathlib.Core.List.{append_assoc, append-nil}
use sp_hw.Base.Strings.{Bytes, strcmp, strcmp_eq, strcmp_refl, strstr, strstr_iff, Occurs}
use sp_hw.Movies.Doubles.{Doubles, IsOrdered}
use sp_hw.Movies.Entries.{Entry, IsSorted}
use sp_hw.Movies.Sort.Laws.{marked}
use sp_hw.Movies.MergeSort.{max_depth, Schedule, thread_merge_sort, process_merge_sort}
use sp_hw.Movies.MergeSort.Ranges.{AllReady, AllReadable, Spans, copy_rows-IsFit}
use sp_hw.Movies.MergeSort.Laws.{thread_merge_sort-SortsAt, process_merge_sort-SortsAt}
use sp_hw.Movies.Request.{
  num_of_genre, Request, MovieProfile, is_star, score_loop, filter_loop, filter, print_titles,
  first, handle_request, process_filter, process_request,
}

module _ (d : Doubles) where
  -- The scalar product of two profiles, summed from the left.
  abbrev pub dot : d.Double → List d.Double → List d.Double → d.Double
  dot acc [] ys = acc
  dot acc (x ∷ xs) [] = acc
  dot acc (x ∷ xs) (y ∷ ys) = dot (d.add acc (d.mul x y)) xs ys

  score_loop-dot :
      (n j : ℕ) (xs ys pre post : List d.Double) (acc : d.Double)
      → length xs ≡ n
      → length ys ≡ n
      → length pre ≡ j
      → length post ≡ j
      → score_loop d n j (pre ++ xs) (post ++ ys) acc ≡ some (dot acc xs ys)
  unfolding score_loop
  score_loop-dot zero j [] ys pre post acc p q r t = refl
  score_loop-dot zero j (x ∷ xs) ys pre post acc p q r t = absurd (omega arith)
  score_loop-dot (suc n) j [] ys pre post acc p q r t = absurd (omega arith)
  score_loop-dot (suc n) j (x ∷ xs) [] pre post acc p q r t = absurd (omega arith)
  score_loop-dot (suc n) j (x ∷ xs) (y ∷ ys) pre post acc p q r t =
      let at_x : get_elem? (pre ++ x ∷ xs) j ≡ some x =
        subst (λ k. get_elem? (pre ++ x ∷ xs) k ≡ some x) r (get_elem?-append pre x xs) in
      let at_y : get_elem? (post ++ y ∷ ys) j ≡ some y =
        subst (λ k. get_elem? (post ++ y ∷ ys) k ≡ some y) t (get_elem?-append post y ys) in
      let rest =
        score_loop-dot n (j + 1) xs ys (pre ++ x ∷ []) (post ++ y ∷ []) (d.add acc (d.mul x y))
          (omega arith) (omega arith) (omega (arith, length-append pre (x ∷ [])))
          (omega (arith, length-append post (y ∷ []))) in
      rw (at_x, at_y) (rw (append_assoc pre (x ∷ []) xs, append_assoc post (y ∷ []) ys) at rest)

module _ {d : Doubles} where
  -- Whether a title is asked for.
  abbrev pub matches : Request d → Bytes → Bool
  matches key title =
      if is_star (strcmp key.keywords (b'*' ∷ [])) then true else strstr title key.keywords

  abbrev pub scored : Request d → MovieProfile d → Entry d
  scored key m = record { title = m.title; score = dot d d.zero key.profile m.profile }

  -- The rows that a request is to be answered with, in the order of the movies.
  unfoldable pub wanted : (Bytes → Bool) → Request d → List (MovieProfile d) → List (Entry d)
  wanted keep key [] = []
  wanted keep key (m ∷ movies) =
      let rest = wanted keep key movies in if keep m.title then scored key m ∷ rest else rest

  -- Every profile has its nineteen entries.
  abbrev pub AllProfiled : List (MovieProfile d) → Type 0
  AllProfiled [] = Unit {0}
  AllProfiled (m ∷ movies) = (length m.profile ≡ num_of_genre) × AllProfiled movies

  -- The rows that `filter` collects where the cells of `scores` hold `memory`, from the cell `i` on: the
  -- scalar products are added to what the cells hold.
  unfoldable pub collected :
      (ℕ → d.Double) → ℕ → (Bytes → Bool) → Request d → List (MovieProfile d) → List (Entry d)
  collected memory i keep key [] = []
  collected memory i keep key (m ∷ movies) =
      let taken = collected memory (suc i) keep key movies in
      let passed = collected memory i keep key movies in
      if keep m.title
      then record { title = m.title; score = dot d (memory i) key.profile m.profile } ∷ taken
      else passed

  filter_loop-collected :
      (memory : ℕ → d.Double) (keep : Bytes → Bool) (key : Request d)
      (movies : List (MovieProfile d)) (out : List (Entry d)) (i : ℕ)
      → length out ≡ i
      → length key.profile ≡ num_of_genre
      → AllProfiled movies
      → filter_loop keep memory key movies out ≡ some (out ++ collected memory i keep key movies)
  unfolding filter_loop collected
  filter_loop-collected memory keep key [] out i e h p = rw append-nil
  filter_loop-collected memory keep key (m ∷ movies) out i e h p =
      let row : Entry d = record {
        title = m.title;
        score = dot d (memory i) key.profile m.profile;
      } in
      let score =
        score_loop-dot d num_of_genre 0 key.profile m.profile [] [] (memory i) h p.0 refl refl in
      elim (Bool-cases (keep m.title)) [
        | inl f ↦
            rw (f, e, score)
              (filter_loop-collected memory keep key movies (out ++ row ∷ []) (suc i)
                  (omega (arith, e, length-append out (row ∷ []))) h p.1
                ∙ ap some (append_assoc out (row ∷ []) (collected memory (suc i) keep key movies)))
        | inr f ↦ rw f (filter_loop-collected memory keep key movies out i e h p.1)
      ]

  filter-collected :
      (memory : ℕ → d.Double) (key : Request d) (movies : List (MovieProfile d))
      → length key.profile ≡ num_of_genre
      → AllProfiled movies
      → filter memory key movies ≡ some (collected memory 0 (matches key) key movies)
  unfolding filter
  filter-collected memory key movies h p =
      elim (Bool-cases (is_star (strcmp key.keywords (b'*' ∷ [])))) [
        | inl e ↦
            let all : matches key ≡ (λ title. true) = fun_ext (λ title. ground arith) in
            rw e (
              filter_loop-collected memory (λ title. true) key movies [] 0 refl h p
              ∙ ap (λ keep. some (collected memory 0 keep key movies)) (sym all))
        | inr e ↦
            let some' : matches key ≡ (λ title. strstr title key.keywords) =
              fun_ext (λ title. ground arith) in
            rw e (
              filter_loop-collected memory (λ title. strstr title key.keywords) key movies [] 0 refl
                h p
              ∙ ap (λ keep. some (collected memory 0 keep key movies)) (sym some'))
      ]

  collected-wanted :
      (i : ℕ) (keep : Bytes → Bool) (key : Request d) (movies : List (MovieProfile d))
      → collected (λ j. d.zero) i keep key movies ≡ wanted keep key movies
  unfolding collected wanted
  collected-wanted i keep key [] = refl
  collected-wanted i keep key (m ∷ movies) = elim (Bool-cases (keep m.title)) [
    | inl e ↦ rw e (ap (λ l. scored key m ∷ l) (collected-wanted (suc i) keep key movies))
    | inr e ↦ rw e (collected-wanted i keep key movies)
  ]

  -- Into zeroed memory and where every profile is complete, `filter` collects exactly the movies that the request asks for, in their
  -- order, each with the scalar product of the two profiles for its score.
  pub filter-wanted :
      (key : Request d) (movies : List (MovieProfile d))
      → length key.profile ≡ num_of_genre
      → AllProfiled movies
      → filter (λ i. d.zero) key movies ≡ some (wanted (matches key) key movies)
  filter-wanted key movies h p =
      filter-collected (λ i. d.zero) key movies h p
      ∙ ap some (collected-wanted 0 (matches key) key movies)

  length-collected :
      (memory : ℕ → d.Double) (i : ℕ) (keep : Bytes → Bool) (key : Request d)
      (movies : List (MovieProfile d))
      → length (collected memory i keep key movies) ≤ length movies
  unfolding collected
  length-collected memory i keep key [] = omega arith
  length-collected memory i keep key (m ∷ movies) = ground (
    arith,
    length-collected memory i keep key movies,
    length-collected memory (suc i) keep key movies,
  )

  -- A title is asked for if the keyword is a star or occurs in it, and not otherwise.
  pub matches_iff :
      (key : Request d) (title : Bytes)
      → (matches key title ≡ true) ↔ ((key.keywords ≡ b'*' ∷ []) ⊎ Occurs title key.keywords)
  matches_iff key title = (asked, wants)
    where
      star : (o : Ordering) → is_star o ≡ true → o ≡ Ordering.eq
      star Ordering.eq h = refl
      star Ordering.lt h = cc
      star Ordering.gt h = cc

      asked : matches key title ≡ true → (key.keywords ≡ b'*' ∷ []) ⊎ Occurs title key.keywords
      asked h = elim (Bool-cases (is_star (strcmp key.keywords (b'*' ∷ [])))) [
        | inl e ↦ inl (strcmp_eq key.keywords (b'*' ∷ []) (star _ e))
        | inr e ↦ inr ((strstr_iff title key.keywords).0 (rw e at h))
      ]

      wants : (key.keywords ≡ b'*' ∷ []) ⊎ Occurs title key.keywords → matches key title ≡ true
      wants (inl e) = rw (e, strcmp_refl (b'*' ∷ []))
      wants (inr o) = ground (arith, (strstr_iff title key.keywords).1 o)

  length-wanted :
      (keep : Bytes → Bool) (key : Request d) (movies : List (MovieProfile d))
      → length (wanted keep key movies) ≤ length movies
  unfolding wanted
  length-wanted keep key [] = omega arith
  length-wanted keep key (m ∷ movies) = ground (arith, length-wanted keep key movies)

  first-Spans : (e : Entry d) (rows : List (Entry d)) → Spans (first (e ∷ rows)) 0 (length rows)
  unfolding ◌-ℤ◌
  first-Spans e rows = ground arith

  abbrev pub Answers : Bytes → List (Entry d) → Option (Bytes × Bytes) → Type 0
  Answers name rows r =
      (s : List (Entry d)) × (r ≡ some (name, print_titles (map marked s)))
      × IsSorted s
      × Perm s rows

  module _ (laws : IsOrdered d) (sch : Schedule) (movies : List (MovieProfile d)) (key : Request d)
      (e : Entry d) (rows : List (Entry d)) (user : length key.profile ≡ num_of_genre)
      (profiled : AllProfiled movies) (some_match : wanted (matches key) key movies ≡ e ∷ rows)
      (ready : AllReady (e ∷ rows)) where
    few : length (e ∷ rows) ≤ length movies
    few = rw some_match at (length-wanted (matches key) key movies)

    found : filter (λ i. d.zero) key movies ≡ some (e ∷ rows)
    found = filter-wanted key movies user profiled ∙ ap some some_match

    -- Where the bytes that memcpy reads behind the blocks of titles can be read, the process build, whose
    -- fresh memory holds zeros, answers such a request in the file of its number and the letter p,
    -- likewise by the titles of the movies that it asks for, the best first, each with the mark, one to a
    -- line.
    pub process_request-Answers :
        AllReadable sch.readable
        → Answers
            (print_int key.id ++ (b'p' ∷ b'.' ∷ b'o' ∷ b'u' ∷ b't' ∷ []))
            (e ∷ rows)
            (process_request sch (λ i. d.zero) movies key)
    unfolding process_request process_filter
    process_request-Answers all =
        let copied = copy_rows-IsFit sch.readable (e ∷ rows) all (λ x m. (ready x m).0.0) in
        let (s, run, sorted, perm) =
          process_merge_sort-SortsAt laws (suc max_depth) sch (length movies) 0 (length rows)
            (first (e ∷ rows)) all (omega arith) (omega arith) few (first-Spans e rows) []
            (e ∷ rows) [] refl refl ready in
        let run' : process_merge_sort (suc max_depth) sch (length movies) (first (e ∷ rows))
              (e ∷ rows)
            ≡ some (map marked s) =
          rw (append-nil (e ∷ rows), append-nil (map marked s)) at run in
        (s, rw (found, copied, run'), sorted, perm)

  module _ (laws : IsOrdered d) (sch : Schedule) (memory : ℕ → d.Double)
      (movies : List (MovieProfile d)) (key : Request d) (e : Entry d) (rows : List (Entry d))
      (user : length key.profile ≡ num_of_genre) (profiled : AllProfiled movies)
      (some_match : collected memory 0 (matches key) key movies ≡ e ∷ rows)
      (ready : AllReady (e ∷ rows)) where
    -- Whatever the memory holds that malloc gives for the scores: a request of a complete profile that
    -- matches some movie, where the movies have complete profiles and the rows that `filter` collects
    -- have fit titles and scores, is answered in the file of its number by the titles of the movies that
    -- it asks for, each with the mark, one to a line, in the order of their scores, the best first. The
    -- scores are the scalar products, added to what the memory held.
    pub handle_request-Answers :
        Answers
          (print_int key.id ++ (b't' ∷ b'.' ∷ b'o' ∷ b'u' ∷ b't' ∷ []))
          (e ∷ rows)
          (handle_request sch memory movies key)
    unfolding handle_request
    handle_request-Answers =
        let fits : length (e ∷ rows) ≤ length movies =
          rw some_match at (length-collected memory 0 (matches key) key movies) in
        let got : filter memory key movies ≡ some (e ∷ rows) =
          filter-collected memory key movies user profiled ∙ ap some some_match in
        let (s, run, sorted, perm) =
          thread_merge_sort-SortsAt laws (suc max_depth) sch (length movies) 0 (length rows)
            (first (e ∷ rows)) (omega arith) (omega arith) fits (first-Spans e rows) [] (e ∷ rows)
            [] refl refl ready in
        let run' : thread_merge_sort (suc max_depth) sch (length movies) (first (e ∷ rows))
              (e ∷ rows)
            ≡ some (map marked s) =
          rw (append-nil (e ∷ rows), append-nil (map marked s)) at run in
        (s, rw (got, run'), sorted, perm)
