-- ===== src/Threads/Scheduler/Arrays.antt =====
-- The two arrays of the scheduler as the lists of threads that they hold.
use sp_hw.Base.{
  ℕ, zero, suc, ◌+◌, ◌-◌, ◌≡◌, ◌≤◌, ◌<◌, refl, ap, sym, ◌∙◌, List, [], ◌∷◌, ◌++◌, map, Option, none,
  some, arith, lt→ltb, length, length-append, length-set, get_elem?, set, replicate,
}
use sp_hw.Threads.Scheduler.{thread_max, write}

module _ {ℓ} {T : Type ℓ} where
  -- The array holds the threads `r` in its first cells, and NULL in `k` more.
  abbrev pub cells : List T → ℕ → List (Option T)
  cells r k = map some r ++ replicate k none

  pub cells-set-length :
      (r : List T) (k : ℕ) (t : T)
      → set (cells r (suc k)) (length r) (some t) ≡ cells (r ++ t ∷ []) k
  cells-set-length [] k t = refl
  cells-set-length (x ∷ r) k t = ap (◌∷◌ (some x)) (cells-set-length r k t)

  pub cells-set :
      (r : List T) (k i : ℕ) (t : T)
      → i < length r
      → set (cells r k) i (some t) ≡ cells (set r i t) k
  cells-set [] k i t h = absurd (omega arith)
  cells-set (x ∷ r) k zero t h = refl
  cells-set (x ∷ r) k (suc i) t h = ap (◌∷◌ (some x)) (cells-set r k i t (omega arith))

  pub cells-clear :
      (r : List T) (k : ℕ) (t : T) → set (cells (r ++ t ∷ []) k) (length r) none ≡ cells r (suc k)
  cells-clear [] k t = refl
  cells-clear (x ∷ r) k t = ap (◌∷◌ (some x)) (cells-clear r k t)

  pub get_elem?-cells :
      (r : List T) (k i : ℕ) (t : T)
      → get_elem? r i ≡ some t
      → get_elem? (cells r k) i ≡ some (some t)
  get_elem?-cells [] k i t h = cc
  get_elem?-cells (x ∷ r) k zero t h = cc
  get_elem?-cells (x ∷ r) k (suc i) t h = get_elem?-cells r k i t h

  pub length-cells : (r : List T) (k : ℕ) → length (cells r k) ≡ length r + k
  length-cells [] zero = refl
  length-cells [] (suc k) = omega (arith, length-cells [] k)
  length-cells (x ∷ r) k = omega (arith, length-cells r k)

  -- A list with at least one element has a last one.
  pub last_split : (x : T) (xs : List T) → (front : List T) × (z : T) × (x ∷ xs ≡ front ++ z ∷ [])
  last_split x [] = ([], x, refl)
  last_split x (y ∷ xs) = let (front, z, e) = last_split y xs in (x ∷ front, z, ap (◌∷◌ x) e)

  pub write_inside :
      (a : List (Option T)) (i : ℕ) (v : Option T) → i < length a → write a i v ≡ some (set a i v)
  unfolding write
  write_inside a i v h = rw (lt→ltb i (length a) h)

  -- The array of THREAD_MAX cells that holds `r`.
  abbrev pub array : List T → List (Option T)
  array r = cells r (thread_max - length r)

  spare :
      (r : List T)
      → length r < thread_max
      → thread_max - length r ≡ suc (thread_max - suc (length r))
  spare r h = omega arith

  length-array : (r : List T) → length r ≤ thread_max → length (array r) ≡ thread_max
  length-array r h = omega (arith, length-cells r (thread_max - length r))

  length-snoc : (r : List T) (t : T) → length (r ++ t ∷ []) ≡ suc (length r)
  length-snoc r t = omega (arith, length-append r (t ∷ []))

  pub write-end :
      (r : List T) (t : T)
      → length r < thread_max
      → write (array r) (length r) (some t) ≡ some (array (r ++ t ∷ []))
  write-end r t h =
      write_inside (array r) (length r) (some t) (omega (arith, length-array r (omega arith)))
      ∙ ap some (
          ap (λ k. set (cells r k) (length r) (some t)) (spare r h)
          ∙ cells-set-length r _ t
          ∙ ap (λ n. cells (r ++ t ∷ []) (thread_max - n)) (sym (length-snoc r t)))

  pub write-clear :
      (r : List T) (t : T)
      → length r < thread_max
      → write (array (r ++ t ∷ [])) (length r) none ≡ some (array r)
  write-clear r t h =
      write_inside (array (r ++ t ∷ [])) (length r) none
        (omega (arith, length-array (r ++ t ∷ []) (omega (arith, length-snoc r t))))
      ∙ ap some (
          cells-clear r _ t
          ∙ ap (cells r) {x = suc (thread_max - length (r ++ t ∷ []))}
              (omega (arith, length-snoc r t)))

  pub write-array :
      (r : List T) (i : ℕ) (t : T)
      → i < length r
      → length r ≤ thread_max
      → write (array r) i (some t) ≡ some (array (set r i t))
  write-array r i t h room =
      write_inside (array r) i (some t) (omega (arith, length-array r room))
      ∙ ap some (
          cells-set r _ i t h
          ∙ ap (λ n. cells (set r i t) (thread_max - n)) (sym (length-set r i t)))

  pub get_elem?-array :
      (r : List T) (i : ℕ) (t : T) → get_elem? r i ≡ some t → get_elem? (array r) i ≡ some (some t)
  get_elem?-array r i t h = get_elem?-cells r _ i t h
