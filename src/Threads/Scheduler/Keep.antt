-- ===== src/Threads/Scheduler/Keep.antt =====
-- No thread is lost or doubled by the scheduler.
use sp_hw.Base.{
  ℕ, zero, suc, ◌+◌, ◌≡◌, ◌≤◌, ◌<◌, refl, ap, sym, ◌∙◌, inl, inr, Bool, List, [], ◌∷◌, ◌++◌, Option,
  none, some, Perm, arith, Bool-cases, Option-cases, length, length-append, get_elem?,
  get_elem?-some, get_elem?-lt, set,
}
use mathlib.Core.Path.{subst}
use mathlib.Core.Option.{none-ne-some}
use mathlib.Core.List.Perm
use mathlib.Core.List.{append-nil, append_assoc, perm_middle, perm_append_comm}
use sp_hw.Threads.Scheduler.{thread_max, Queues, Jump, runs, schedule}
use sp_hw.Threads.Scheduler.Plan.{
  Plan, queues, chosen, kept, woken, front, final, fill, at, left, waited, resumed,
}
use sp_hw.Threads.Scheduler.Switch.{front-final}
use sp_hw.Threads.Scheduler.Refine.{chosen-le, schedule-planned}

module _ {ℓ} {T : Type ℓ} where
  hole-perm :
      (a : List T) (z : T) (c : ℕ) (t : T)
      → get_elem? (a ++ z ∷ []) c ≡ some t
      → Perm (t ∷ set a c z) (a ++ z ∷ [])
  hole-perm [] z zero t h = Perm.cons' (cc) Perm.rfl
  hole-perm [] z (suc c) t h = cc
  hole-perm (x ∷ a) z zero t h =
      Perm.cons' (cc) (Perm.symm (Perm.trans (perm_middle a []) (rw append-nil Perm.rfl)))
  hole-perm (x ∷ a) z (suc c) t h =
      Perm.trans (Perm.swap x t (set a c z)) (Perm.cons x (hole-perm a z c t h))

  pub fill-perm :
      (x : T) (r : List T) (c : ℕ) (t : T)
      → get_elem? (x ∷ r) c ≡ some t
      → Perm (t ∷ fill (x ∷ r) c) (x ∷ r)
  fill-perm x r c t h =
      subst (λ l. Perm (t ∷ fill (x ∷ r) c) l) (front-final x r)
        (hole-perm (front x r) (final x r) c t
          (subst (λ l. get_elem? l c ≡ some t) (sym (front-final x r)) h))

  chosen-perm : (is_set : T → Bool) (w : List T) → Perm (chosen is_set w ++ kept is_set w) w
  chosen-perm is_set [] = Perm.rfl
  chosen-perm is_set (t ∷ w) = elim (Bool-cases (is_set t)) [
    | inl e ↦ rw e (Perm.cons t (chosen-perm is_set w))
    | inr e ↦ rw e (
        Perm.trans (perm_middle (chosen is_set w) (kept is_set w))
          (Perm.cons t (chosen-perm is_set w)))
  ]

  waited_self : (polls : List (T → Bool)) (t u : T) → waited polls t ≡ some u → u ≡ t
  waited_self [] t u h = cc
  waited_self (is_set ∷ polls) t u h = elim (Bool-cases (is_set t)) [
    | inl e ↦ some-inj (sym (rw e at h))
    | inr e ↦ waited_self polls t u (rw e at h)
  ]
    where
      some-inj : {a b : T} → some a ≡ some b → a ≡ b
      some-inj g = cc

  -- `t` runs on queues that hold a plan, of the threads `l`.
  pub record Runs (t : T) (q : Queues T) (l : List T) : Type ℓ where
    pub plan : Plan T
    pub held : q ≡ queues plan
    pub inside : plan.current < length plan.ready
    pub running : get_elem? plan.ready plan.current ≡ some t
    pub lone : length plan.waiting ≤ 1
    pub same : Perm (plan.ready ++ plan.waiting) l

  runs-thread : {t u : T} {q q' : Queues T} → some (runs t q) ≡ some (runs u q') → t ≡ u
  runs-thread h = cc

  runs-queues : {t u : T} {q q' : Queues T} → some (runs t q) ≡ some (runs u q') → q ≡ q'
  runs-queues h = cc

  resumed-Runs :
      (polls : List (T → Bool)) (r : List T) (c : ℕ) (w : List T) (t : T) (q : Queues T)
      → length w ≤ 1
      → resumed polls r c w ≡ some (runs t q)
      → Runs t q (r ++ w)
  resumed-Runs polls [] c [] t q few h = cc
  resumed-Runs polls [] c (u ∷ w) t q few h = elim (Option-cases (waited polls u)) [
    | inl e ↦ absurd (none-ne-some _ (rw e at h))
    | inr (v, e) ↦
        let run : some (runs v (queues (record { ready = v ∷ []; current = 0; waiting = w })))
            ≡ some (runs t q) =
          rw e at h in
        record {
          plan = record { ready = v ∷ []; current = 0; waiting = w };
          held = sym (runs-queues run);
          inside = omega arith;
          running = ap some (runs-thread run);
          lone = omega (arith, few);
          same = Perm.cons' (waited_self polls u v e) Perm.rfl;
        }
  ]
  resumed-Runs polls (x ∷ r) c w t q few h = elim (Option-cases (get_elem? (x ∷ r) c)) [
    | inl e ↦ absurd (none-ne-some _ (rw e at h))
    | inr (v, e) ↦
        let run : some (runs v (queues (record { ready = x ∷ r; current = c; waiting = w })))
            ≡ some (runs t q) =
          rw e at h in
        record {
          plan = record { ready = x ∷ r; current = c; waiting = w };
          held = sym (runs-queues run);
          inside = get_elem?-lt (x ∷ r) c e;
          running = e ∙ ap some (runs-thread run);
          lone = few;
          same = Perm.rfl;
        }
  ]

  -- The thread that leaves for good.
  abbrev pub gone : Jump → Plan T → List T
  gone Jump.exits p = at p.ready p.current
  gone Jump.reads p = []
  gone Jump.signal p = []

  at-fill : (r : List T) (c : ℕ) → c < length r → Perm (at r c ++ fill r c) r
  at-fill [] c h = absurd (omega (arith, h))
  at-fill (x ∷ r) c h =
      let (t, e) = get_elem?-some (x ∷ r) c h in
      subst (λ o. Perm ((elim o [ none ↦ [] | some u ↦ u ∷ [] ]) ++ fill (x ∷ r) c) (x ∷ r)) (sym e)
        (fill-perm x r c t e)

  left-perm :
      (jump : Jump) (p : Plan T)
      → p.current < length p.ready
      → Perm (gone jump p ++ ((left jump p).ready ++ (left jump p).waiting)) (p.ready ++ p.waiting)
  left-perm Jump.signal p h = Perm.rfl
  left-perm Jump.exits p h =
      subst (λ l. Perm l (p.ready ++ p.waiting))
        (append_assoc (at p.ready p.current) (fill p.ready p.current) p.waiting)
        (Perm.append_right p.waiting (at-fill p.ready p.current h))
  left-perm Jump.reads p h =
      let f = fill p.ready p.current in
      let a = at p.ready p.current in
      let moved : Perm (f ++ (p.waiting ++ a)) (a ++ (f ++ p.waiting)) =
        subst (λ l. Perm l (a ++ (f ++ p.waiting))) (append_assoc f p.waiting a)
          (perm_append_comm (f ++ p.waiting) a) in
      Perm.trans
        (subst (λ l. Perm (f ++ (p.waiting ++ a)) l) (sym (append_assoc a f p.waiting)) moved)
        (Perm.append_right p.waiting (at-fill p.ready p.current h))

  woken-perm :
      (is_set : T → Bool) (p : Plan T)
      → Perm ((woken is_set p).ready ++ (woken is_set p).waiting) (p.ready ++ p.waiting)
  woken-perm is_set p =
      rw (append_assoc p.ready (chosen is_set p.waiting) (kept is_set p.waiting))
        (Perm.append_left p.ready (chosen-perm is_set p.waiting))

  pub left-lone :
      (jump : Jump) (p : Plan T)
      → length p.waiting ≤ 1
      → (jump ≡ Jump.reads → p.waiting ≡ [])
      → length (left jump p).waiting ≤ 1
  left-lone Jump.signal p few alone = few
  left-lone Jump.exits p few alone = few
  left-lone Jump.reads p few alone =
      subst (λ w. length (w ++ at p.ready p.current) ≤ 1) (sym (alone refl))
        (at-le (get_elem? p.ready p.current))
    where
      at-le : (o : Option T) → length (elim o [ none ↦ [] | some t ↦ t ∷ [] ]) ≤ 1
      at-le none = omega arith
      at-le (some t) = omega arith

  pub kept-nil : (is_set : T → Bool) (w : List T) → w ≡ [] → kept is_set w ≡ []
  kept-nil is_set w e = ap (kept is_set) e

  -- On queues that hold a plan with the running thread inside, at most THREAD_MAX threads, of which at most
  -- one waits, and none when the running one waits for a read: where the scheduler goes on, it goes on
  -- with one of its threads, on queues that hold just the threads that were there, but for the running
  -- one if that has exited; at most one of them waits.
  pub schedule-Runs :
      (jump : Jump) (is_set : T → Bool) (polls : List (T → Bool)) (p : Plan T) (t : T)
      (q : Queues T)
      → p.current < length p.ready
      → length p.waiting ≤ 1
      → length p.ready + length p.waiting ≤ thread_max
      → (jump ≡ Jump.reads → p.waiting ≡ [])
      → schedule jump is_set polls (queues p) ≡ some (runs t q)
      → (rest : List T) × Runs t q rest
        × Perm (gone jump (woken is_set p) ++ rest) (p.ready ++ p.waiting)
  schedule-Runs jump is_set polls p t q inside few room alone h =
      let p1 = woken is_set p in
      let inside1 : p1.current < length p1.ready =
        omega (arith, inside, length-append p.ready (chosen is_set p.waiting)) in
      let few1 : length p1.waiting ≤ 1 = omega (arith, few, chosen-le is_set p.waiting) in
      let p2 = left jump p1 in
      (
        p2.ready ++ p2.waiting,
        resumed-Runs polls p2.ready p2.current p2.waiting t q
            (left-lone jump p1 few1 (λ e. kept-nil is_set p.waiting (alone e)))
            (sym (schedule-planned jump is_set polls p inside few room alone) ∙ h),
        Perm.trans (left-perm jump p1 inside1) (woken-perm is_set p),
      )
