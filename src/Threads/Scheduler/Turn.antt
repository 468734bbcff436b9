-- ===== src/Threads/Scheduler/Turn.antt =====
-- What a jump into the scheduler does to weights of the threads, and that it always goes on.
use sp_hw.Base.{
  ℕ, zero, suc, ◌+◌, ◌≡◌, ◌≤◌, ◌<◌, refl, ap, ◌∙◌, ◌⊎◌, inl, inr, Bool, List, [], ◌∷◌, ◌++◌, Option,
  none, some, Perm, arith, length, get_elem?, get_elem?-some, get_elem?-lt,
}
use mathlib.Core.Logic.{∥∥₁_elim}
use mathlib.Core.List.{Permᴰ}
use native.Mathlib.Nat.{ℕ_set}
use sp_hw.Threads.Scheduler.{thread_max, Jump, Next, returns, runs, schedule}
use sp_hw.Threads.Scheduler.Plan.{Plan, queues, chosen, kept, fill, at, left, waited, resumed}
use sp_hw.Threads.Scheduler.Refine.{chosen-le, next_inside, schedule-planned}
use sp_hw.Threads.Scheduler.Keep.{fill-perm, left-lone, kept-nil}

module _ {ℓ} {T : Type ℓ} where
  abbrev pub sum : (T → ℕ) → List T → ℕ
  sum f [] = 0
  sum f (t ∷ l) = f t + sum f l

  sum-permᴰ : (f : T → ℕ) {l r : List T} → Permᴰ l r → sum f l ≡ sum f r
  sum-permᴰ f Permᴰ.nil = refl
  sum-permᴰ f (Permᴰ.cons e p) = omega (arith, ap f e, sum-permᴰ f p)
  sum-permᴰ f (Permᴰ.swap e g) = omega (arith, ap f e, ap f g)
  sum-permᴰ f (Permᴰ.trans p q) = sum-permᴰ f p ∙ sum-permᴰ f q

  sum-perm : (f : T → ℕ) {l r : List T} → Perm l r → sum f l ≡ sum f r
  sum-perm f p = ∥∥₁_elim p (ℕ_set _ _) (sum-permᴰ f)

  pub sum-append : (f : T → ℕ) (l r : List T) → sum f (l ++ r) ≡ sum f l + sum f r
  sum-append f [] r = omega arith
  sum-append f (t ∷ l) r = omega (arith, sum-append f l r)

  sum-fill :
      (f : T → ℕ) (x : T) (r : List T) (c : ℕ) (t : T)
      → get_elem? (x ∷ r) c ≡ some t
      → f t + sum f (fill (x ∷ r) c) ≡ sum f (x ∷ r)
  sum-fill f x r c t e = sum-perm f (fill-perm x r c t e)

  sum-chosen :
      (f : T → ℕ) (is_set : T → Bool) (w : List T)
      → sum f (chosen is_set w) + sum f (kept is_set w) ≡ sum f w
  sum-chosen f is_set [] = refl
  sum-chosen f is_set (t ∷ w) = ground (arith, sum-chosen f is_set w)

  get_elem?-in_front :
      (l r : List T) (i : ℕ) (t : T) → get_elem? l i ≡ some t → get_elem? (l ++ r) i ≡ some t
  get_elem?-in_front [] r i t e = cc
  get_elem?-in_front (x ∷ l) r zero t e = e
  get_elem?-in_front (x ∷ l) r (suc i) t e = get_elem?-in_front l r i t e

  -- The scheduler goes on with a thread, on the queues of a plan with the weights of the lists.
  pub record GoesOn (weight most : (T → ℕ) → ℕ) (r : Option (Next T)) : Type ℓ where
    pub thread : T
    pub plan : Plan T
    pub result : r ≡ some (runs thread (queues plan))
    pub inside : plan.current < length plan.ready
    pub lone : length plan.waiting ≤ 1
    pub same : (f : T → ℕ) → sum f plan.ready + sum f plan.waiting ≡ weight f
    pub waits : (f : T → ℕ) → sum f plan.waiting ≤ most f

  resumed-GoesOn :
      (polls : List (T → Bool)) (r : List T) (c : ℕ) (w : List T)
      → length w ≤ 1
      → c < length r ⊎ (r ≡ [])
      → ((t : T) → waited polls t ≡ some t)
      → ((resumed polls r c w ≡ some returns) × (r ≡ []) × (w ≡ []))
        ⊎ GoesOn (λ f. sum f r + sum f w) (λ f. sum f w) (resumed polls r c w)
  resumed-GoesOn polls [] c [] few inside sure = inl (refl, refl, refl)
  resumed-GoesOn polls [] c (t ∷ w) few inside sure = inr (record {
    thread = t;
    plan = record { ready = t ∷ []; current = 0; waiting = w };
    result = rw (sure t) refl;
    inside = omega arith;
    lone = omega (arith, few);
    same = λ f. omega arith;
    waits = λ f. omega arith;
  })
  resumed-GoesOn polls (x ∷ r) c w few (inr e) sure = cc
  resumed-GoesOn polls (x ∷ r) c w few (inl inside) sure =
      let (t, e) = get_elem?-some (x ∷ r) c inside in
      inr (record {
        thread = t;
        plan = record { ready = x ∷ r; current = c; waiting = w };
        result = rw e refl;
        inside = inside;
        lone = few;
        same = λ f. refl;
        waits = λ f. omega arith;
      })

  -- What leaves both queues with a jump of the running thread, and what joins the waiting one.
  abbrev pub leaves : Jump → (T → ℕ) → T → ℕ
  leaves Jump.exits f t = f t
  leaves Jump.reads f t = 0
  leaves Jump.signal f t = 0

  abbrev pub joins : Jump → (T → ℕ) → T → ℕ
  joins Jump.reads f t = f t
  joins Jump.exits f t = 0
  joins Jump.signal f t = 0

  left_inside :
      (jump : Jump) (x : T) (r : List T) (c : ℕ) (w : List T)
      → c < suc (length r)
      → (left jump (record { ready = x ∷ r; current = c; waiting = w })).current
          < length (left jump (record { ready = x ∷ r; current = c; waiting = w })).ready
        ⊎ ((left jump (record { ready = x ∷ r; current = c; waiting = w })).ready ≡ [])
  left_inside Jump.signal x r c w h = inl (grind arith)
  left_inside Jump.reads x r c w h = next_inside x r c h
  left_inside Jump.exits x r c w h = next_inside x r c h

  left_sum :
      (jump : Jump) (x : T) (r : List T) (c : ℕ) (w : List T) (t : T) (f : T → ℕ)
      → get_elem? (x ∷ r) c ≡ some t
      → (sum f (left jump (record { ready = x ∷ r; current = c; waiting = w })).ready
            + sum f (left jump (record { ready = x ∷ r; current = c; waiting = w })).waiting
            + leaves jump f t
          ≡ sum f (x ∷ r) + sum f w)
        × (sum f (left jump (record { ready = x ∷ r; current = c; waiting = w })).waiting
            ≡ sum f w + joins jump f t)
  left_sum Jump.signal x r c w t f e = (omega arith, omega arith)
  left_sum Jump.exits x r c w t f e = (omega (arith, sum-fill f x r c t e), omega arith)
  left_sum Jump.reads x r c w t f e =
      let last : sum f (w ++ at (x ∷ r) c) ≡ sum f w + f t =
        sum-append f w (at (x ∷ r) c)
        ∙ ap (λ o. sum f w + sum f (elim o [ none ↦ [] | some u ↦ u ∷ [] ])) e
        ∙ omega arith in
      (omega (arith, sum-fill f x r c t e, last), last)

  -- The result of a jump of the running thread `t`: the scheduler returns behind the last thread, or
  -- goes on with a thread, on the queues of a plan.
  pub data AfterJump (jump : Jump) (t : T) (p : Plan T) (r : Option (Next T)) : Type ℓ where
    last :
        r ≡ some returns
        → ((f : T → ℕ) → leaves jump f t ≡ sum f p.ready + sum f p.waiting)
        → AfterJump jump t p r
    further :
        (u : T) (p' : Plan T)
        → r ≡ some (runs u (queues p'))
        → p'.current < length p'.ready
        → length p'.waiting ≤ 1
        → ((f : T → ℕ)
            → sum f p'.ready + sum f p'.waiting + leaves jump f t ≡ sum f p.ready + sum f p.waiting)
        → ((f : T → ℕ) → sum f p'.waiting ≤ sum f p.waiting + joins jump f t)
        → AfterJump jump t p r

  -- If one of the polls finds each thread that waits, a jump of the running thread `t` has a result:
  -- the scheduler returns if `t` was the last thread and exits, and else it goes on; the threads are
  -- those that were there but for one that exits, and only one that reads joins those that wait.
  pub schedule-AfterJump :
      (jump : Jump) (is_set : T → Bool) (polls : List (T → Bool)) (p : Plan T) (t : T)
      → get_elem? p.ready p.current ≡ some t
      → length p.waiting ≤ 1
      → length p.ready + length p.waiting ≤ thread_max
      → (jump ≡ Jump.reads → p.waiting ≡ [])
      → ((u : T) → waited polls u ≡ some u)
      → AfterJump jump t p (schedule jump is_set polls (queues p))
  schedule-AfterJump jump is_set polls p t at few room alone sure =
      by_ready p.ready p.current p.waiting at few room alone
    where
      by_ready :
          (r : List T) (c : ℕ) (w : List T)
          → get_elem? r c ≡ some t
          → length w ≤ 1
          → length r + length w ≤ thread_max
          → (jump ≡ Jump.reads → w ≡ [])
          → AfterJump jump t
              (record { ready = r; current = c; waiting = w })
              (schedule jump is_set polls (queues (record { ready = r; current = c; waiting = w })))
      by_ready [] c w a f m l = cc
      by_ready (x ∷ r) c w a f m l =
          let r1 = r ++ chosen is_set w in
          let w1 = kept is_set w in
          let p2 = left jump (record { ready = x ∷ r1; current = c; waiting = w1 }) in
          let a1 = get_elem?-in_front (x ∷ r) (chosen is_set w) c t a in
          let few1 : length w1 ≤ 1 = omega (arith, f, chosen-le is_set w) in
          let lone =
            left-lone jump (record { ready = x ∷ r1; current = c; waiting = w1 }) few1
              (λ e. kept-nil is_set w (l e)) in
          let promise =
            schedule-planned jump is_set polls (record { ready = x ∷ r; current = c; waiting = w })
              (get_elem?-lt (x ∷ r) c a) f m l in
          let total : (g : T → ℕ) → sum g (x ∷ r1) + sum g w1 ≡ sum g (x ∷ r) + sum g w =
            λ g. omega (arith, sum-append g r (chosen is_set w), sum-chosen g is_set w) in
          elim (resumed-GoesOn polls p2.ready p2.current p2.waiting lone
            (left_inside jump x r1 c w1 (get_elem?-lt (x ∷ r1) c a1)) sure) [
              | inl (e, no_ready, no_waiting) ↦ last (promise ∙ e) (λ g. omega (
                arith,
                (left_sum jump x r1 c w1 t g a1).0,
                total g,
                ap (sum g) no_ready,
                ap (sum g) no_waiting,
              ))
              | inr goes ↦
                  further goes.thread goes.plan (promise ∙ goes.result) goes.inside goes.lone
                    (λ g. omega (arith, (left_sum jump x r1 c w1 t g a1).0, total g, goes.same g))
                    (λ g. omega (
                      arith,
                      (left_sum jump x r1 c w1 t g a1).1,
                      sum-chosen g is_set w,
                      goes.waits g,
                    ))
            ]
