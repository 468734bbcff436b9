-- ===== src/Threads/Program/Alone.antt =====
-- A thread by itself, without a signal and without a wait.
use sp_hw.Base.{
  ℕ, zero, suc, ◌≡◌, refl, ap, ◌∙◌, inl, inr, Bool, true, false, List, [], ◌∷◌, ◌++◌, Option, none,
  some, arith, ◌==◌, Bool-cases, Option-cases, length, take, drop,
}
use sp_hw.Base.Int.{ℤ, pos, eq_ℤ}
use sp_hw.Base.Decimal.{atoi}
use sp_hw.Base.Error.{◌>>=◌}
use mathlib.Core.Option.{none-ne-some}
use sp_hw.Threads.Subarray.{Saved, subarray_round, subarray_loop}
use sp_hw.Threads.Fibonacci.{fibonacci_round, fibonacci_loop}
use sp_hw.Threads.Collatz.{collatz_round, collatz}
use sp_hw.Threads.Program.{
  Tcb, Round, next_i, read_into, fibonacci_turn, collatz_turn, subarray_turn, thread_round,
}

-- What a thread prints from a tcb on until it exits, in at most as many rounds as given.
unfoldable pub alone : ℕ → ℕ → Tcb → Option (List ℤ)
alone zero id t = none
alone (suc fuel) id t = thread_round id t >>= λ r. elim r.over [
  | true ↦ some (r.value ∷ [])
  | false ↦ alone fuel id r.after >>= λ rest. some (r.value ∷ rest)
]

-- A thread that comes to its end has a round, and is over or comes to its end from there.
pub data Split (fuel id : ℕ) (t : Tcb) (l : List ℤ) : Type 0 where
  final :
      (r : Round)
      → thread_round id t ≡ some r
      → r.over ≡ true
      → l ≡ r.value ∷ []
      → Split fuel id t l
  more :
      (k : ℕ) (r : Round) (rest : List ℤ)
      → fuel ≡ suc k
      → thread_round id t ≡ some r
      → r.over ≡ false
      → alone k id r.after ≡ some rest
      → l ≡ r.value ∷ rest
      → Split fuel id t l

pub alone-Split :
    (fuel id : ℕ) (t : Tcb) (l : List ℤ) → alone fuel id t ≡ some l → Split fuel id t l
unfolding alone
alone-Split zero id t l h = absurd (none-ne-some l h)
alone-Split (suc fuel) id t l h = elim (Option-cases (thread_round id t)) [
  | inl e ↦ absurd (none-ne-some l (rw e at h))
  | inr (r, e) ↦ by_over r.over r e refl (rw e at h)
]
  where
    some_cons : {a b : List ℤ} → some a ≡ some b → b ≡ a
    some_cons g = cc

    by_over :
        (b : Bool) (r : Round)
        → thread_round id t ≡ some r
        → r.over ≡ b
        → (elim r.over [
          | true ↦ some (r.value ∷ [])
          | false ↦ alone fuel id r.after >>= λ rest. some (r.value ∷ rest)
        ])
          ≡ some l
        → Split (suc fuel) id t l
    by_over true r e o g = final r e o (some_cons (rw o at g))
    by_over false r e o g = elim (Option-cases (alone fuel id r.after)) [
      | inl f ↦ absurd (none-ne-some l (rw (o, f) at g))
      | inr (rest, f) ↦ more fuel r rest refl e o f (some_cons (rw (o, f) at g))
    ]

alone-final :
    (fuel id : ℕ) (t : Tcb) (r : Round)
    → thread_round id t ≡ some r
    → r.over ≡ true
    → alone (suc fuel) id t ≡ some (r.value ∷ [])
unfolding alone
alone-final fuel id t r e o = rw e (rw o refl)

alone-more :
    (fuel id : ℕ) (t : Tcb) (r : Round) (rest : Option (List ℤ))
    → thread_round id t ≡ some r
    → r.over ≡ false
    → alone fuel id r.after ≡ rest
    → alone (suc fuel) id t ≡ (rest >>= λ l. some (r.value ∷ l))
unfolding alone
alone-more fuel id t r rest e o f = rw e (rw (o, f) refl)

same_test : (n arg : ℕ) (a : ℤ) → a ≡ pos arg → eq_ℤ (pos n) a ≡ (n == arg)
same_test n arg a e = rw e (ground arith)

-- The three threads by themselves are the loops of threads.c.
pub alone-fibonacci_loop :
    (fuel arg : ℕ) (t : Tcb) (l : List ℤ)
    → t.arg ≡ pos arg
    → fibonacci_loop fuel arg t.saved ≡ some l
    → alone fuel 0 t ≡ some l
unfolding fibonacci_loop thread_round
alone-fibonacci_loop zero arg t l a h = absurd (none-ne-some l h)
alone-fibonacci_loop (suc fuel) arg t l a h =
    let s = fibonacci_round t.saved in
    let test = same_test s.i arg t.arg a in
    elim (Bool-cases (s.i == arg)) [
      | inl e ↦ alone-final fuel 0 t (fibonacci_turn t) refl (test ∙ e) ∙ (rw e at h)
      | inr e ↦ elim (Option-cases (fibonacci_loop fuel arg (next_i s))) [
        | inl f ↦ absurd (none-ne-some l (rw (e, f) at h))
        | inr (rest, f) ↦
            alone-more fuel 0 t (fibonacci_turn t) (some rest) refl (test ∙ e)
              (alone-fibonacci_loop fuel arg (fibonacci_turn t).after rest a f)
            ∙ (rw (e, f) at h)
      ]
    ]

pub alone-collatz :
    (fuel : ℕ) (t : Tcb) (l : List ℤ) → collatz fuel t.arg ≡ some l → alone fuel 1 t ≡ some l
unfolding collatz thread_round
alone-collatz zero t l h = absurd (none-ne-some l h)
alone-collatz (suc fuel) t l h =
    let arg = collatz_round t.arg in
    elim (Bool-cases (eq_ℤ arg (pos 1))) [
      | inl e ↦ alone-final fuel 1 t (collatz_turn t) refl e ∙ (rw e at h)
      | inr e ↦ elim (Option-cases (collatz fuel arg)) [
        | inl f ↦ absurd (none-ne-some l (rw (e, f) at h))
        | inr (rest, f) ↦
            alone-more fuel 1 t (collatz_turn t) (some rest) refl e
              (alone-collatz fuel (collatz_turn t).after rest f)
            ∙ (rw (e, f) at h)
      ]
    ]

-- The numbers that the reads make of the buffer.
abbrev pub numbers_of : List ℕ → List (List ℕ) → List ℤ
numbers_of buf [] = []
numbers_of buf (text ∷ rest) =
    let buf' = take 5 text ++ drop (length (take 5 text)) buf in atoi buf' ∷ numbers_of buf' rest

read_some :
    (t : Tcb) (text : List ℕ) (rest : List (List ℕ))
    → t.reads ≡ text ∷ rest
    → read_into 5 t
      ≡ some (record t { buf = take 5 text ++ drop (length (take 5 text)) t.buf; reads = rest })
unfolding read_into
read_some t text rest e =
    ap
      (λ reads. elim reads [
        | [] ↦ none
        | new ∷ later ↦
            some (record t { buf = take 5 new ++ drop (length (take 5 new)) t.buf; reads = later })
      ])
      e

-- The third one prints as many lines as it reads, and the last one is what the loop leaves.
pub alone-subarray_loop :
    (arg : ℕ) (t : Tcb) (r : Saved) (reads : List (List ℕ))
    → t.arg ≡ pos arg
    → t.reads ≡ reads
    → subarray_loop arg t.saved (numbers_of t.buf reads) ≡ some r
    → (l : List ℤ) × (alone (length reads) 2 t ≡ some (l ++ r.x ∷ []))
unfolding subarray_loop thread_round
alone-subarray_loop arg t r [] a e h = absurd (none-ne-some r h)
alone-subarray_loop arg t r (text ∷ reads) a e h =
    let t' : Tcb = record t {
      buf = take 5 text ++ drop (length (take 5 text)) t.buf;
      reads = reads;
    } in
    let s = subarray_round t.saved (atoi t'.buf) in
    let turn : thread_round 2 t ≡ some (subarray_turn t') =
      ap (λ o. o >>= λ u. some (subarray_turn u)) (read_some t text reads e) in
    let test = same_test s.i arg t.arg a in
    elim (Bool-cases (s.i == arg)) [
      | inl f ↦
          let same : s ≡ r = some_saved (rw f at h) in
          (
            [],
            alone-final (length reads) 2 t (subarray_turn t') turn (test ∙ f)
                ∙ ap (λ u. some (u.x ∷ [])) same,
          )
      | inr f ↦
          let (l, run) =
            alone-subarray_loop arg (subarray_turn t').after r reads a refl (rw f at h) in
          (
            s.x ∷ l,
            alone-more (length reads) 2 t (subarray_turn t') (some (l ++ r.x ∷ [])) turn (test ∙ f)
                run,
          )
    ]
  where
    some_saved : {u v : Saved} → some u ≡ some v → u ≡ v
    some_saved g = cc
