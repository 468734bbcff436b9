-- ===== src/Movies/Main/Laws.antt =====
-- The whole program: every request of the input is answered.
use sp_hw.Base.{
  ℕ, ◌+◌, ◌≡◌, ◌≢◌, refl, ap, sym, ◌∙◌, Option, none, List, [], ◌∷◌, ◌++◌, some, map, All,
}
use sp_hw.Base.Decimal.{print_int}
use sp_hw.Base.Strings.{Bytes}
use sp_hw.Movies.Doubles.{Doubles, IsOrdered}
use sp_hw.Movies.Entries.{Entry}
use sp_hw.Movies.Sort.Laws.{marked}
use sp_hw.Movies.MergeSort.{Schedule}
use sp_hw.Movies.MergeSort.Ranges.{AllReady, AllReadable}
use sp_hw.Movies.Request.{Request, MovieProfile, print_titles}
use sp_hw.Movies.Request.Laws.{
  AllProfiled, matches, wanted, collected, Answers, handle_request-Answers, process_request-Answers,
}
use sp_hw.Movies.Input.{initialize}
use sp_hw.Movies.Input.Laws.{AllAsked, initialize-AllProfiled}
use sp_hw.Movies.Main.{handle_requests, thread_main, process_main}

module _ {d : Doubles} where
  -- Some movie is asked for, and those that are have fit titles and scores.
  abbrev pub IsAnswerable : List (MovieProfile d) → Request d → Type 0
  IsAnswerable movies key =
      (e : Entry d) × (rows : List (Entry d)) × (wanted (matches key) key movies ≡ e ∷ rows)
      × AllReady (e ∷ rows)

  -- The same of a request whose scores are added to `memory`.
  abbrev pub IsAnswerableFrom : (ℕ → d.Double) → List (MovieProfile d) → Request d → Type 0
  IsAnswerableFrom memory movies key =
      (e : Entry d) × (rows : List (Entry d)) × (collected memory 0 (matches key) key movies
        ≡ e ∷ rows)
      × AllReady (e ∷ rows)

  -- Each request of those from the `i`-th on.
  abbrev pub AllAnswerable :
      (ℕ → ℕ → d.Double) → ℕ → List (MovieProfile d) → List (Request d) → Type 0
  AllAnswerable memory i movies [] = Unit {0}
  AllAnswerable memory i movies (key ∷ reqs) =
      IsAnswerableFrom (memory i) movies key × AllAnswerable memory (i + 1) movies reqs

  abbrev pub thread_name : Request d → Bytes
  thread_name key = print_int key.id ++ (b't' ∷ b'.' ∷ b'o' ∷ b'u' ∷ b't' ∷ [])

  -- No two requests name the same file.
  abbrev pub AllApart : List (Request d) → Type 0
  AllApart [] = Unit {0}
  AllApart (key ∷ reqs) = All (λ r. thread_name r ≢ thread_name key) reqs × AllApart reqs

  -- The files answer the requests one by one, and no file is written twice.
  pub data AllAnswered (memory : ℕ → ℕ → d.Double) (movies : List (MovieProfile d))
      : ℕ → List (Request d) → List (Bytes × Bytes) → Type 0 where
    nothing : (i : ℕ) → AllAnswered memory movies i [] []
    one_more :
        (i : ℕ) (key : Request d) (reqs : List (Request d)) (file : Bytes × Bytes)
        (files : List (Bytes × Bytes))
        → Answers (thread_name key) (collected (memory i) 0 (matches key) key movies) (some file)
        → All (λ other. other.0 ≢ thread_name key) files
        → AllAnswered memory movies (i + 1) reqs files
        → AllAnswered memory movies i (key ∷ reqs) (file ∷ files)

  AllAnswered-apart :
      (memory : ℕ → ℕ → d.Double) (i : ℕ) (key : Request d) (movies : List (MovieProfile d))
      (reqs : List (Request d)) (files : List (Bytes × Bytes))
      → AllAnswered memory movies i reqs files
      → All (λ r. thread_name r ≢ thread_name key) reqs
      → All (λ other. other.0 ≢ thread_name key) files
  AllAnswered-apart memory i key movies [] [] (nothing _) apart = tt
  AllAnswered-apart memory i key movies [] (file ∷ files) all apart = elim all [ ]
  AllAnswered-apart memory i key movies (r ∷ reqs) [] all apart = elim all [ ]
  AllAnswered-apart memory i key movies (r ∷ reqs) (file ∷ files)
        (one_more _ _ _ _ _ (s, e, sorted, perm) own all) apart =
      (
        λ same. apart.0 (ap (λ o. name_in o) (sym e) ∙ same),
        AllAnswered-apart memory (i + 1) key movies reqs files all apart.1,
      )
    where
      name_in : Option (Bytes × Bytes) → Bytes
      name_in none = []
      name_in (some f) = f.0

  handle_requests-AllAnswered :
      (laws : IsOrdered d) (schedules : ℕ → Schedule) (memory : ℕ → ℕ → d.Double) (i : ℕ)
      (movies : List (MovieProfile d)) (reqs : List (Request d))
      → AllProfiled movies
      → AllAsked reqs
      → AllApart reqs
      → AllAnswerable memory i movies reqs
      → (files : List (Bytes × Bytes)) × (handle_requests schedules memory i movies reqs
          ≡ some files)
        × AllAnswered memory movies i reqs files
  unfolding handle_requests
  handle_requests-AllAnswered laws schedules memory i movies [] p a apart m = ([], refl, nothing i)
  handle_requests-AllAnswered laws schedules memory i movies (key ∷ reqs) p a apart
        ((e, rows, match, ready), m) =
      let (s, run, sorted, perm) =
        handle_request-Answers laws (schedules i) (memory i) movies key e rows a.0 p match ready in
      let (files, rest, all) =
        handle_requests-AllAnswered laws schedules memory (i + 1) movies reqs p a.1 apart.1 m in
      let file : Bytes × Bytes = (thread_name key, print_titles (map marked s)) in
      (
        file ∷ files,
        rw (run, rest) refl,
        one_more i key reqs file files (s, refl, sorted, rw match perm)
            (AllAnswered-apart memory (i + 1) key movies reqs files all apart.0) all,
      )

module _ (d : Doubles) (strtod : Bytes → d.Double) where
  -- Whatever the schedules of the threads and whatever the memory holds that malloc gives them for the
  -- scores: where `initialize` succeeds, no two requests have the same file, and every request matches some
  -- movie, with fit titles and scores for all rows that `filter` collects, the program writes one file for
  -- each request, in which the titles of the movies that it asks for stand in the order of their scores,
  -- each with the mark. The scores are the scalar products, added to what the memory held.
  pub thread_main-AllAnswered :
      (laws : IsOrdered d) (schedules : ℕ → Schedule) (memory : ℕ → ℕ → d.Double)
      (rows : List Bytes) (input : Bytes) (movies : List (MovieProfile d)) (reqs : List (Request d))
      → initialize d strtod rows input ≡ some (movies, reqs)
      → AllApart reqs
      → AllAnswerable memory 0 movies reqs
      → (files : List (Bytes × Bytes)) × (thread_main d strtod schedules memory rows input
          ≡ some files)
        × AllAnswered memory movies 0 reqs files
  unfolding thread_main
  thread_main-AllAnswered laws schedules memory rows input movies reqs h apart m =
      let (profiled, few, asked, few_reqs) =
        initialize-AllProfiled d strtod rows input movies reqs h in
      rw h (handle_requests-AllAnswered laws schedules memory 0 movies reqs profiled asked apart m)

  -- Where `initialize` succeeds with at least one request, whose movies are of fit titles and scores and at
  -- least one, and where the bytes that memcpy reads behind the blocks of titles can be read, the build
  -- with processes writes such a file for the first request.
  pub process_main-Answers :
      (laws : IsOrdered d) (sch : Schedule) (rows : List Bytes) (input : Bytes)
      (movies : List (MovieProfile d)) (key : Request d) (reqs : List (Request d))
      → AllReadable sch.readable
      → initialize d strtod rows input ≡ some (movies, key ∷ reqs)
      → IsAnswerable movies key
      → Answers
          (print_int key.id ++ (b'p' ∷ b'.' ∷ b'o' ∷ b'u' ∷ b't' ∷ []))
          (wanted (matches key) key movies)
          (process_main d strtod sch (λ k. d.zero) rows input)
  unfolding process_main
  process_main-Answers laws sch rows input movies key reqs all h (e, es, match, ready) =
      let (profiled, few, asked, few_reqs) =
        initialize-AllProfiled d strtod rows input movies (key ∷ reqs) h in
      let (s, run, sorted, perm) =
        process_request-Answers laws sch movies key e es asked.0 profiled match ready all in
      rw h (s, run, sorted, rw match perm)
