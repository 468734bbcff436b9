-- ===== src/Threads/Scheduler/Switch.antt =====
-- What the scheduler does with the running thread, on queues that hold a plan.
use sp_hw.Base.{
  ℕ, zero, suc, ◌-◌, ◌≡◌, ◌≤◌, ◌<◌, refl, ap, sym, ◌∙◌, List, [], ◌∷◌, ◌++◌, Option, none, some,
  arith, length, length-set, get_elem?, set,
}
use sp_hw.Threads.Scheduler.{thread_max, Queues, write, fill_hole}
use sp_hw.Threads.Scheduler.Arrays.{array, write-clear, write-array, get_elem?-array}
use sp_hw.Threads.Scheduler.Plan.{front, final, fill}

module _ {ℓ} {T : Type ℓ} where
  pub front-final : (x : T) (xs : List T) → front x xs ++ final x xs ∷ [] ≡ x ∷ xs
  front-final x [] = refl
  front-final x (y ∷ xs) = ap (◌∷◌ x) (front-final y xs)

  pub length-front : (x : T) (xs : List T) → length (front x xs) ≡ length xs
  length-front x [] = refl
  length-front x (y ∷ xs) = ap suc (length-front y xs)

  set-last : (a : List T) (c : ℕ) (z : T) → set (a ++ z ∷ []) c z ≡ set a c z ++ z ∷ []
  set-last [] zero z = refl
  set-last [] (suc c) z = refl
  set-last (x ∷ a) zero z = refl
  set-last (x ∷ a) (suc c) z = ap (◌∷◌ x) (set-last a c z)

  set-fill :
      (x : T) (xs : List T) (c : ℕ)
      → set (x ∷ xs) c (final x xs) ≡ fill (x ∷ xs) c ++ final x xs ∷ []
  set-fill x xs c =
      ap (λ l. set l c (final x xs)) (sym (front-final x xs)) ∙ set-last (front x xs) c (final x xs)

  pub length-fill : (x : T) (xs : List T) (c : ℕ) → length (fill (x ∷ xs) c) ≡ length xs
  length-fill x xs c = length-set (front x xs) c (final x xs) ∙ length-front x xs

  get_elem?-final : (x : T) (xs : List T) → get_elem? (x ∷ xs) (length xs) ≡ some (final x xs)
  get_elem?-final x [] = refl
  get_elem?-final x (y ∷ xs) = get_elem?-final y xs

  -- The queues with any waiting array.
  abbrev pub halfway : List T → ℕ → List (Option T) → ℕ → Queues T
  halfway r c waiting n = record {
    ready = array r;
    rq_size = length r;
    rq_current = c;
    waiting = waiting;
    wq_size = n;
  }

  module _ (x : T) (xs : List T) (c : ℕ) (inside : c < suc (length xs))
      (room : suc (length xs) ≤ thread_max) where
    hole-filled :
        write (array (x ∷ xs)) c (some (final x xs))
        ≡ some (array (fill (x ∷ xs) c ++ final x xs ∷ []))
    hole-filled =
        write-array (x ∷ xs) c (final x xs) inside room ∙ ap (λ l. some (array l)) (set-fill x xs c)

    end-cleared :
        write (array (fill (x ∷ xs) c ++ final x xs ∷ [])) (length xs) none
        ≡ some (array (fill (x ∷ xs) c))
    end-cleared =
        ap (λ n. write (array (fill (x ∷ xs) c ++ final x xs ∷ [])) n none)
          (sym (length-fill x xs c))
        ∙ write-clear (fill (x ∷ xs) c) (final x xs) (omega (arith, length-fill x xs c))

    pub fill_hole-fill :
        (waiting : List (Option T)) (n : ℕ)
        → fill_hole (halfway (x ∷ xs) c waiting n) ≡ some (halfway (fill (x ∷ xs) c) c waiting n)
    unfolding fill_hole
    fill_hole-fill waiting n =
        let one : suc (length xs) - 1 ≡ length xs = omega arith in
        let last = get_elem?-array (x ∷ xs) (length xs) (final x xs) (get_elem?-final x xs) in
        rw (one, last, hole-filled, end-cleared)
          (ap
            (λ k. some (record {
              ready = array (fill (x ∷ xs) c);
              rq_size = k;
              rq_current = c;
              waiting = waiting;
              wq_size = n;
            }))
            (sym (length-fill x xs c)))
