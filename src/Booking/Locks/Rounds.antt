-- ===== src/Booking/Locks/Rounds.antt =====
-- A round of the main loop of csiebooking/server.c keeps the invariant of its process.
use sp_hw.Base.{
  ℕ, zero, suc, ◌+◌, ◌-◌, ◌≡◌, ◌≤◌, ◌<◌, refl, ap, sym, ◌∙◌, inl, inr, Bool, List, [], ◌∷◌, none,
  some, arith, Option-cases, length, length-set, get_elem?, set, All-get_elem?,
}
use sp_hw.Base.Int.{pos}
use mathlib.Core.Path.{subst}
use sp_hw.Booking.Kernel.{Kernel}
use sp_hw.Booking.Server.Handlers.{
  Server, Build, Outcome, connection, handle, fresh, accept, Event, quiet, broken, connects,
  readable, first_ready, round,
}
use sp_hw.Booking.Locks.{IsUser, ServerInv}
use sp_hw.Booking.Locks.Moves.{Inv-keep}
use sp_hw.Booking.Locks.Keep.{stay, Kept}
use sp_hw.Booking.Locks.Handle.{handle-Kept}

first_ready_bounds :
    (n i : ℕ) (working_set : ℕ → Bool) (fd : ℕ)
    → first_ready n i working_set ≡ some fd
    → (i ≤ fd) × (fd < i + n)
unfolding first_ready
first_ready_bounds zero i working_set fd h = cc
first_ready_bounds (suc n) i working_set fd h =
    ground (arith, first_ready_bounds n (i + 1) working_set fd)

set-none {ℓ} : {A : Type ℓ} (xs : List A) (i : ℕ) (v : A) → get_elem? xs i ≡ none → set xs i v ≡ xs
set-none [] i v h = refl
set-none (x ∷ xs) zero v h = cc
set-none (x ∷ xs) (suc i) v h = ap (◌∷◌ x) (set-none xs i v h)

some-inj : {a b : Outcome} → some a ≡ some b → a ≡ b
some-inj h = cc

module _ (build : Build) (n p : ℕ) (s : Server) (k : Kernel) where
  accept-Kept :
      (fd : ℕ)
      → ServerInv build s (k.locks p)
      → Kept build n p (length s.requests) k.locks (accept fd s k)
  unfolding accept
  accept-Kept fd v = elim (Option-cases (get_elem? s.requests fd)) [
    | inl e ↦ record {
      inv = rw (set-none s.requests fd (record (connection s fd) { conn_fd = pos fd }) e) v;
      step = stay;
      sized = length-set s.requests fd _;
    }
    | inr (c, at) ↦
        let e : connection s fd ≡ c = ap (λ r. elim r [ none ↦ fresh | some d ↦ d ]) at in
        record {
          inv =
              Inv-keep s.writelock s.readlock (k.locks p) s.requests fd c
                (record (connection s fd) { conn_fd = pos fd }) at build v
                (rw e (All-get_elem? IsUser s.requests fd c v.users at)) (λ i. rw e);
          step = stay;
          sized = length-set s.requests fd _;
        }
  ]

  -- A round of the main loop in which the process goes on keeps the invariant of the process (its
  -- lock array and the locks it holds agree with the clients it serves) and the size of its table, and
  -- changes at most one entry of its own row of locks: it takes one that nobody stands against, or
  -- gives one back.
  pub round-Kept :
      (event : Event) {o : Outcome}
      → ServerInv build s (k.locks p)
      → round build n p s k event ≡ some o
      → Kept build n p (length s.requests) k.locks o
  unfolding round
  round-Kept quiet v h =
      subst (Kept build n p _ k.locks) (some-inj h) (record { inv = v; step = stay; sized = refl })
  round-Kept broken v h = cc
  round-Kept (connects fd) v h = subst (Kept build n p _ k.locks) (some-inj h) (accept-Kept fd v)
  round-Kept (readable working_set input) v h =
      elim (Option-cases (first_ready (length s.requests - 3) 3 working_set)) [
        | inl e ↦
            subst (Kept build n p _ k.locks)
              (some-inj (
                sym (
                  ap
                    (λ r. elim r [
                      | none ↦ some (s, k, [])
                      | some fd ↦ handle build n p fd s k input
                    ])
                    e)
                ∙ h))
              (record { inv = v; step = stay; sized = refl })
        | inr (fd, e) ↦
            let b = first_ready_bounds (length s.requests - 3) 3 working_set fd e in
            handle-Kept build n p fd s k input (omega (arith, b.0, b.1)) v (
              sym (
                ap
                  (λ r. elim r [ none ↦ some (s, k, []) | some fd ↦ handle build n p fd s k input ])
                  e)
              ∙ h)
      ]
