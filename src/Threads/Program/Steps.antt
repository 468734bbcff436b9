-- ===== src/Threads/Program/Steps.antt =====
-- A turn of the program brings it on: what the threads print is on its way, and the queues stay in order.
use sp_hw.Base.{
  ℕ, zero, suc, ◌+◌, ◌-◌, ◌≡◌, ◌≤◌, ◌<◌, refl, ap, sym, ◌∙◌, inl, inr, Bool, true, false, not, ◌&&◌,
  List, [], ◌∷◌, ◌++◌, Option, none, some, arith, ◌==◌, Bool-cases, if◌then◌else◌, length,
  get_elem?, get_elem?-some,
}
use sp_hw.Base.Int.{ℤ}
use mathlib.Core.Path.{subst}
use mathlib.Core.List.{append-nil}
use sp_hw.Threads.Scheduler.{thread_max, Jump, deref}
use sp_hw.Threads.Scheduler.Arrays.{get_elem?-array}
use sp_hw.Threads.Scheduler.Plan.{Plan, queues, waited}
use sp_hw.Threads.Scheduler.Turn.{sum, leaves, joins, last, further, schedule-AfterJump}
use sp_hw.Threads.Start.{Thread}
use sp_hw.Threads.Program.{
  Round, World, Tick, Step, finished, goes_on, update, must_read, printed_round, jump_to, end_round,
  thread_round, turn,
}
use sp_hw.Threads.Program.Alone.{alone, final, more, alone-Split}
use sp_hw.Threads.Program.Progress.{
  printed_by, Progress, Progress-read, Progress-round, Progress-exit, Progress-zero,
}

abbrev pub marks : ℕ → Thread → ℕ
marks u t = if t.id == u then 1 else 0

-- How often a thread stands in the queues.
abbrev pub count : Plan Thread → ℕ → ℕ
count p u = sum (marks u) p.ready + sum (marks u) p.waiting

-- The queues are in order: no thread stands in them twice, and only max_subarray waits.
pub record Queued (p : Plan Thread) : Type 0 where
  pub inside : p.current < length p.ready
  pub lone : length p.waiting ≤ 1
  pub room : length p.ready + length p.waiting ≤ thread_max
  pub once : (u : ℕ) → count p u ≤ 1
  pub known : (u : ℕ) → 0 < count p u → u < 3
  pub readers : (u : ℕ) → (u == 2) ≡ false → sum (marks u) p.waiting ≡ 0

-- A world on the queues of a plan.
abbrev pub held : Plan Thread → World → World
held p w = record w { queues = queues p }

-- Input arrives before the polls of a turn are over.
abbrev pub IsServed : Tick → Type 0
IsServed k = (t : Thread) → waited k.polls t ≡ some t

-- A turn has a result: the program has ended with all lines printed, or it goes on with one turn less
-- to come.
pub data After (total : ℕ → List ℤ) (m : ℕ) (r : Option Step) : Type 0 where
  done :
      (printed : List (ℕ × ℤ))
      → r ≡ some (finished printed)
      → ((u : ℕ) → printed_by u printed ≡ total u)
      → After total m r
  onward :
      (p : Plan Thread) (w : World)
      → r ≡ some (goes_on (held p w))
      → Queued p
      → Progress total m (count p) (held p w)
      → After total m r

sum-length : (l : List Thread) → sum (λ t. 1) l ≡ length l
sum-length [] = refl
sum-length (t ∷ l) = omega (arith, sum-length l)

marks_self : (t : Thread) → marks t.id t ≡ 1
marks_self t = ground arith

marks_other : (u : ℕ) (t : Thread) → (t.id == u) ≡ false → marks u t ≡ 0
marks_other u t e = rw e refl

sum-mark : (l : List Thread) (i : ℕ) (t : Thread) → get_elem? l i ≡ some t → 1 ≤ sum (marks t.id) l
sum-mark [] i t e = cc
sum-mark (x ∷ l) zero t e =
    let same : x ≡ t = some_inj e in
    let one : marks t.id x ≡ 1 = ap (marks t.id) same ∙ marks_self t in omega (arith, one)
  where
    some_inj : {a b : Thread} → some a ≡ some b → a ≡ b
    some_inj g = cc
sum-mark (x ∷ l) (suc i) t e = omega (arith, sum-mark l i t e)

-- While max_subarray runs no thread waits.
none_waits :
    (p : Plan Thread) (t : Thread)
    → Queued p
    → get_elem? p.ready p.current ≡ some t
    → t.id ≡ 2
    → p.waiting ≡ []
none_waits p t q at reader = by_waiting p.waiting (q.once 2) q.readers
  where
    two : 1 ≤ sum (marks 2) p.ready
    two = subst (λ n. 1 ≤ sum (marks n) p.ready) reader (sum-mark p.ready p.current t at)

    by_waiting :
        (w : List Thread)
        → sum (marks 2) p.ready + sum (marks 2) w ≤ 1
        → ((u : ℕ) → (u == 2) ≡ false → sum (marks u) w ≡ 0)
        → w ≡ []
    by_waiting [] o r = refl
    by_waiting (x ∷ w) o r = elim (Bool-cases (x.id == 2)) [
      | inl e ↦ let one : marks 2 x ≡ 1 = rw e refl in absurd (omega (arith, two, one, o))
      | inr e ↦ absurd (omega (arith, marks_self x, r x.id e))
    ]

Progress-held :
    (total : ℕ → List ℤ) (m : ℕ) (live live' : ℕ → ℕ) (p p' : Plan Thread) (w : World)
    → ((u : ℕ) → live' u ≡ live u)
    → Progress total m live (held p w)
    → Progress total m live' (held p' w)
Progress-held total m live live' p p' w same g = record {
  rest = g.rest;
  fuel = g.fuel;
  cost = g.cost;
  alive = λ u h. g.alive u (omega (arith, h, same u));
  paid = λ u h. g.paid u (omega (arith, h, same u));
  gone = λ u h. g.gone u (omega (arith, h, same u));
  sums = g.sums;
  bound = g.bound;
}

-- A jump of the running thread, which reads only as max_subarray, behind which `m` turns are enough.
module _ (total : ℕ → List ℤ) (m : ℕ) (k : Tick) (served : IsServed k) (p : Plan Thread)
    (q : Queued p) (t : Thread) (at : get_elem? p.ready p.current ≡ some t) where
  reader_waits :
      (j : Jump) (u : ℕ) → (j ≡ Jump.reads → t.id ≡ 2) → (u == 2) ≡ false → joins j (marks u) t ≡ 0
  reader_waits Jump.signal u h e = refl
  reader_waits Jump.exits u h e = refl
  reader_waits Jump.reads u h e = marks_other u t (let id : t.id ≡ 2 = h refl in ground arith)

  jump-After :
      (j : Jump) (w : World)
      → (j ≡ Jump.reads → t.id ≡ 2)
      → Progress total m (λ u. count p u - leaves j (marks u) t) (held p w)
      → After total m (jump_to j k (held p w))
  unfolding jump_to
  jump-After j w reads g =
      elim (schedule-AfterJump j k.is_set k.polls p t at q.lone q.room
        (λ e. none_waits p t q at (reads e)) served) [
          | last e gone ↦ done w.printed (rw e refl) (λ u.
              sym (append-nil (printed_by u w.printed))
              ∙ ap (λ l. printed_by u w.printed ++ l)
                  (sym (g.gone u (omega (arith, gone (marks u)))))
              ∙ g.sums u)
          | further u p' e inside lone same waits ↦
              onward p' w (rw e refl)
                (record {
                  inside = inside;
                  lone = lone;
                  room = omega (
                    arith,
                    q.room,
                    same (λ x. 1),
                    sum-length p.ready,
                    sum-length p.waiting,
                    sum-length p'.ready,
                    sum-length p'.waiting,
                  );
                  once = λ v. omega (arith, q.once v, same (marks v));
                  known = λ v h. q.known v (omega (arith, h, same (marks v)));
                  readers = λ v h.
                      omega (arith, q.readers v h, waits (marks v), reader_waits j v reads h);
                })
                (Progress-held total m (λ v. count p v - leaves j (marks v) t) (count p') p p' w
                  (λ v. omega (arith, same (marks v))) g)
        ]

  is_counted : 0 < count p t.id
  is_counted = omega (arith, sum-mark p.ready p.current t at)

  count_once : count p t.id ≡ 1
  count_once = omega (arith, is_counted, q.once t.id)

  -- What follows a round of the running thread.
  end_round-After :
      (w : World) (r : Round)
      → Progress total (suc m) (count p) (held p w)
      → thread_round t.id (w.tcbs t.id) ≡ some r
      → After total m (end_round k (held p w) t.id r)
  unfolding end_round
  end_round-After w r g e =
      elim (alone-Split (g.fuel t.id) t.id (w.tcbs t.id) (g.rest t.id) (g.alive t.id is_counted)) [
        | final r' e' over l ↦
            let same : r' ≡ r = some_inj (sym e' ∙ e) in
            let ends : r.over ≡ true = ap (λ x. x.over) (sym same) ∙ over in
            rw ends (
              jump-After Jump.exits (printed_round w t.id r) (λ h. cc)
                (Progress-exit g t.id (q.known t.id is_counted) is_counted r
                  (λ u. count p u - leaves Jump.exits (marks u) t) (l ∙ ap (λ x. x.value ∷ []) same)
                  (omega (arith, count_once, marks_self t))
                  (λ u other. omega (arith, marks_other u t (ground arith)))))
        | more n r' rest f e' over a l ↦
            let same : r' ≡ r = some_inj (sym e' ∙ e) in
            let stays : r.over ≡ false = ap (λ x. x.over) (sym same) ∙ over in
            let next : Progress total m (count p) (held p (printed_round w t.id r)) =
              Progress-round g t.id (q.known t.id is_counted) is_counted r n rest f
                (subst (λ x. alone n t.id x.after ≡ some rest) same a)
                (l ∙ ap (λ x. x.value ∷ rest) same) in
            elim (Bool-cases k.pending) [
              | inl b ↦
                  rw (stays, b)
                    (jump-After Jump.signal (printed_round w t.id r) (λ h. cc)
                      (Progress-held total m (count p)
                        (λ u. count p u - leaves Jump.signal (marks u) t) p p
                        (printed_round w t.id r) (λ u. omega arith) next))
              | inr b ↦ rw (stays, b) (onward p (printed_round w t.id r) refl q next)
            ]
      ]
    where
      some_inj : {a b : Round} → some a ≡ some b → a ≡ b
      some_inj h = cc

  has_round :
      (w : World)
      → Progress total (suc m) (count p) (held p w)
      → (r : Round) × (thread_round t.id (w.tcbs t.id) ≡ some r)
  has_round w g =
      elim (alone-Split (g.fuel t.id) t.id (w.tcbs t.id) (g.rest t.id) (g.alive t.id is_counted)) [
        | final r e over l ↦ (r, e)
        | more n r rest f e over a l ↦ (r, e)
      ]

  turn_running :
      (w : World) → Progress total (suc m) (count p) (held p w) → After total m (turn k (held p w))
  unfolding turn
  turn_running w g =
      let cell : deref (queues p).ready p.current ≡ some t =
        ap (λ o. elim o [ none ↦ none | some c ↦ c ]) (get_elem?-array p.ready p.current t at) in
      rw cell (elim (Bool-cases (must_read (held p w) t)) [
        | inl b ↦
            let (reader, unread) = reads_first t.id (w.in_read t.id) b in
            rw b (
              jump-After Jump.reads (record w { in_read = update w.in_read t.id true })
                (λ h. reader)
                (Progress-held total m (count p) (λ u. count p u - leaves Jump.reads (marks u) t) p
                  p (record w { in_read = update w.in_read t.id true }) (λ u. omega arith)
                  (Progress-read g t.id (q.known t.id is_counted) is_counted unread)))
        | inr b ↦ let (r, e) = has_round w g in rw (b, e) (end_round-After w r g e)
      ])
    where
      reads_first : (id : ℕ) (b : Bool) → ((id == 2) && not b) ≡ true → (id ≡ 2) × (b ≡ false)
      reads_first id true h = ground arith
      reads_first id false h = ground arith

-- So does each turn of a program whose queues are in order.
pub turn-After :
    (total : ℕ → List ℤ) (m : ℕ) (k : Tick) (p : Plan Thread) (w : World)
    → IsServed k
    → Queued p
    → Progress total (suc m) (count p) (held p w)
    → After total m (turn k (held p w))
turn-After total m k p w served q g =
    let (t, at) = get_elem?-some p.ready p.current q.inside in
    turn_running total m k served p q t at w g

-- Some turn is to come as long as a thread is there.
pub Progress-positive :
    (total : ℕ → List ℤ) (p : Plan Thread) (w : World)
    → Queued p
    → ¬ Progress total 0 (count p) (held p w)
Progress-positive total p w q g =
    let (t, at) = get_elem?-some p.ready p.current q.inside in
    let there : 0 < count p t.id = omega (arith, sum-mark p.ready p.current t at) in
    Progress-zero total (count p) (held p w) t.id (q.known t.id there) there g
