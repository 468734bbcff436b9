-- ===== src/Threads/Scheduler/Fair.antt =====
-- Each ready thread gets its turn: the signal handler's jumps go round the ready queue.
use sp_hw.Base.{
  ℕ, zero, suc, ◌+◌, ◌-◌, ◌%◌, ◌≡◌, ◌≤◌, ◌<◌, refl, ap, ◌∙◌, inl, inr, false, List, [], ◌∷◌, ◌++◌,
  Option, none, some, arith, leb, Bool-cases, length, get_elem?, get_elem?-some, get_elem?-lt,
}
use sp_hw.Base.Error.{◌>>=◌}
use mathlib.Core.List.{append-nil}
use native.Mathlib.Nat.{mod-add-mod, mod-eq_of_lt, mod-eq-sub-mod}
use sp_hw.Threads.Scheduler.{thread_max, Queues, Jump, returns, runs, deref, schedule}
use sp_hw.Threads.Scheduler.Arrays.{get_elem?-array}
use sp_hw.Threads.Scheduler.Plan.{Plan, queues, chosen, kept, resumed}
use sp_hw.Threads.Scheduler.Refine.{schedule-planned}

shifted : (k c n : ℕ) → ((c + 1) % suc n + k) % suc n ≡ (c + suc k) % suc n
shifted k c n = mod-add-mod _ _ _ ∙ ap (λ m. m % suc n) {x = c + 1 + k} (omega arith)

-- The turn of place `i` comes.
turn : (c i n : ℕ) → c < n → i < n → (k : ℕ) × (k < n) × ((c + k) % n ≡ i)
turn c i n hc hi = elim (Bool-cases (leb c i)) [
  | inl e ↦
      let le : c ≤ i = ground arith in
      (i - c, omega arith, ap (λ m. m % n) {x = c + (i - c)} (omega arith) ∙ mod-eq_of_lt hi)
  | inr e ↦
      let lt : i < c = ground arith in
      (
        i + n - c,
        omega arith,
        ap (λ m. m % n) {x = c + (i + n - c)} (omega arith)
            ∙ mod-eq-sub-mod {n = i + n} {m = n} (omega arith)
            ∙ ap (λ m. m % n) {x = i + n - n} (omega arith)
            ∙ mod-eq_of_lt hi,
      )
]

module _ {ℓ} {T : Type ℓ} where
  -- The queues behind `k` jumps of the signal handler, with no input for a waiting thread.
  abbrev pub after_signals : ℕ → Queues T → Option (Queues T)
  after_signals zero q = some q
  after_signals (suc k) q = schedule Jump.signal (λ t. false) [] q >>= λ next. elim next [
    | returns ↦ none
    | runs t q' ↦ after_signals k q'
  ]

  none_chosen : (w : List T) → chosen (λ t. false) w ≡ []
  none_chosen [] = refl
  none_chosen (t ∷ w) = none_chosen w

  all_kept : (w : List T) → kept (λ t. false) w ≡ w
  all_kept [] = refl
  all_kept (t ∷ w) = ap (◌∷◌ t) (all_kept w)

  module _ (x : T) (r w : List T) (few : length w ≤ 1)
      (room : suc (length r) + length w ≤ thread_max) where
    one_signal :
        (c : ℕ)
        → c < suc (length r)
        → (t : T) × (schedule Jump.signal
              (λ u. false)
              []
              (queues (record { ready = x ∷ r; current = c; waiting = w }))
            ≡ some (
                runs t (
                  queues
                    (record { ready = x ∷ r; current = (c + 1) % suc (length r); waiting = w }))))
    one_signal c inside =
        let (t, e) = get_elem?-some (x ∷ r) ((c + 1) % suc (length r)) (grind arith) in
        let promise =
          schedule-planned Jump.signal (λ u. false) []
            (record { ready = x ∷ r; current = c; waiting = w }) inside few room (λ e. cc) in
        let same : r ++ chosen (λ u. false) w ≡ r = rw (none_chosen w, append-nil r) in
        (
          t,
          promise
              ∙ ap (λ l. resumed [] (x ∷ l) ((c + 1) % suc (length l)) (kept (λ u. false) w)) same
              ∙ ap (λ v. resumed [] (x ∷ r) ((c + 1) % suc (length r)) v) (all_kept w)
              ∙ ap
                  (λ o. o >>= λ u. some (
                    runs u (
                      queues (record {
                        ready = x ∷ r;
                        current = (c + 1) % suc (length r);
                        waiting = w;
                      }))))
                  e,
        )

    turned :
        (k c : ℕ)
        → c < suc (length r)
        → after_signals k (queues (record { ready = x ∷ r; current = c; waiting = w }))
          ≡ some
              (queues (record { ready = x ∷ r; current = (c + k) % suc (length r); waiting = w }))
    turned zero c inside =
        ap (λ i. some (queues (record { ready = x ∷ r; current = i; waiting = w }))) (grind arith)
    turned (suc k) c inside =
        let (t, e) = one_signal c inside in
        rw e (
          turned k ((c + 1) % suc (length r)) (grind arith)
          ∙ ap (λ i. some (queues (record { ready = x ∷ r; current = i; waiting = w })))
              (shifted k c (length r)))

  -- Whatever thread of the ready queue runs, every other one of the queue runs after fewer signals
  -- than there are ready threads, if none of them leaves and no input arrives.
  pub every_turn :
      (p : Plan T) (i : ℕ) (t : T)
      → p.current < length p.ready
      → length p.waiting ≤ 1
      → length p.ready + length p.waiting ≤ thread_max
      → get_elem? p.ready i ≡ some t
      → (k : ℕ) × (q : Queues T) × (k < length p.ready)
        × (after_signals k (queues p) ≡ some q)
        × (deref q.ready q.rq_current ≡ some t)
  every_turn p i t inside few room at = turns p.ready p.current p.waiting inside few room at
    where
      turns :
          (r : List T) (c : ℕ) (w : List T)
          → c < length r
          → length w ≤ 1
          → length r + length w ≤ thread_max
          → get_elem? r i ≡ some t
          → (k : ℕ) × (q : Queues T) × (k < length r)
            × (after_signals k (queues (record { ready = r; current = c; waiting = w })) ≡ some q)
            × (deref q.ready q.rq_current ≡ some t)
      turns [] c w ins f m a = cc
      turns (x ∷ r) c w ins f m a =
          let (k, less, there) = turn c i (suc (length r)) ins (get_elem?-lt (x ∷ r) i a) in
          (
            k,
            queues (record { ready = x ∷ r; current = i; waiting = w }),
            less,
            turned x r w f m k c ins
                ∙ ap (λ j. some (queues (record { ready = x ∷ r; current = j; waiting = w })))
                    there,
            ap (λ o. elim o [ none ↦ none | some cell ↦ cell ]) (get_elem?-array (x ∷ r) i t a),
          )
