-- ===== src/Booking/System/Safe.antt =====
-- Every state that the servers of csiebooking reach keeps the invariant of each process, and no two
-- processes hold locks that exclude each other.
use sp_hw.Base.{
  ℕ, zero, suc, ◌≡◌, ◌≢◌, refl, ap, sym, ◌∙◌, inl, inr, ==_iff, false, none, arith, ◌==◌,
  Bool-cases, length, replicate, All-replicate,
}
use sp_hw.Base.Int.{pos}
use mathlib.Core.Path.{subst}
use mathlib.Core.Bool.{true≢false}
use sp_hw.Booking.Connection.{Connection}
use sp_hw.Booking.Command.{Triple}
use sp_hw.Booking.Kernel.{Record, Locks, update}
use sp_hw.Booking.Server.Handlers.{Build, Outcome, init_server, fresh}
use sp_hw.Booking.Locks.{Tally, held, kind_of, IsUser, ServerInv}
use sp_hw.Booking.Locks.Count.{count-replicate}
use sp_hw.Booking.Locks.Keep.{update_self, LocksStep, stay, take, drop, Kept}
use sp_hw.Booking.Locks.Rounds.{round-Kept}
use sp_hw.Booking.System.{System, Step, act, restart, Start, start, Reach, begin, next, released}
use sp_hw.Booking.System.Exclusion.{Exclusive, LocksStep-Exclusive, released-Exclusive}

-- What every reachable state of the servers satisfies.
pub record Safe (maxfd n : ℕ) (build : ℕ → Build) (y : System) : Type 0 where
  pub exclusive : Exclusive n y.kernel.locks
  pub processes : (p : ℕ) → ServerInv (build p) (y.servers p) (y.kernel.locks p)
  pub sized : (p : ℕ) → length (y.servers p).requests ≡ maxfd

init-Tally :
    (build : Build) (maxfd i : ℕ) → Tally build (replicate maxfd fresh) (λ j. false) (λ j. pos 0) i
init-Tally Build.reader maxfd i = ap pos (sym (count-replicate i maxfd fresh refl))
init-Tally Build.writer maxfd i = count-replicate i maxfd fresh refl

init_server-Inv :
    (build : Build) (maxfd : ℕ) (temp : Record) (junk : Triple)
    → ServerInv build (init_server maxfd temp junk) (λ i. none)
unfolding init_server
init_server-Inv build maxfd temp junk = record {
  users = All-replicate IsUser maxfd fresh (λ e. absurd (true≢false (sym e)));
  tally = init-Tally build maxfd;
  held_for = λ i. ap (held (kind_of build)) (sym (count-replicate i maxfd fresh refl));
}

length-replicate : (n : ℕ) (c : Connection) → length (replicate n c) ≡ n
length-replicate zero c = refl
length-replicate (suc n) c = ap suc (length-replicate n c)

init_server-length :
    (maxfd : ℕ) (temp : Record) (junk : Triple)
    → length (init_server maxfd temp junk).requests ≡ maxfd
unfolding init_server
init_server-length maxfd temp junk = length-replicate maxfd fresh

Start-Safe : (maxfd n : ℕ) (build : ℕ → Build) (y : System) → Start maxfd y → Safe maxfd n build y
Start-Safe maxfd n build y (start file temp junk) = record {
  exclusive = λ p q i p' q' d h. refl;
  processes = λ p. init_server-Inv (build p) maxfd (temp p) (junk p);
  sized = λ p. init_server-length maxfd (temp p) (junk p);
}

-- One row changes, the one of the process `p`.
pub LocksStep-other : (n p q : ℕ) (l l' : Locks) → LocksStep n p l l' → p ≢ q → l' q ≡ l q
LocksStep-other n p q l l' stay d = refl
LocksStep-other n p q l l' (take k kind free) d = elim (Bool-cases (p == q)) [
  | inl e ↦ absurd (d ((==_iff p q).0 e))
  | inr e ↦ rw e refl
]
LocksStep-other n p q l l' (drop k) d = elim (Bool-cases (p == q)) [
  | inl e ↦ absurd (d ((==_iff p q).0 e))
  | inr e ↦ rw e refl
]

update-other {ℓ} :
    {A : Type ℓ} (f : ℕ → A) (i j : ℕ) (v : A) → (i == j) ≡ false → update f i v j ≡ f j
update-other f i j v h = rw h refl

module _ (maxfd n : ℕ) (build : ℕ → Build) (y : System) where
  moved-Safe :
      (p : ℕ) (o : Outcome)
      → Kept (build p) n p (length (y.servers p).requests) y.kernel.locks o
      → Safe maxfd n build y
      → Safe maxfd n build (record { kernel = o.1; servers = update y.servers p o.0 })
  moved-Safe p o kept v = record {
    exclusive = LocksStep-Exclusive n p y.kernel.locks o.1.locks kept.step v.exclusive;
    processes = λ q. elim (Bool-cases (p == q)) [
      | inl e ↦
          let e' = (==_iff p q).0 e in
          subst (λ r. ServerInv (build r) (update y.servers p o.0 r) (o.1.locks r)) e'
            (subst (λ t. ServerInv (build p) t (o.1.locks p)) (sym (update_self y.servers p o.0))
              kept.inv)
      | inr e ↦
          subst (λ t. ServerInv (build q) t (o.1.locks q)) (sym (update-other y.servers p q o.0 e))
            (subst (ServerInv (build q) (y.servers q))
              (sym (LocksStep-other n p q _ _ kept.step (λ d. ground (arith, ==_iff p q))))
              (v.processes q))
    ];
    sized = λ q. elim (Bool-cases (p == q)) [
      | inl e ↦ rw e (kept.sized ∙ v.sized p)
      | inr e ↦ rw e (v.sized q)
    ];
  }

  restarted-Safe :
      (p : ℕ) (temp : Record) (junk : Triple)
      → Safe maxfd n build y
      → Safe maxfd n build (record {
        kernel = released y.kernel p;
        servers = update y.servers p (init_server (length (y.servers p).requests) temp junk);
      })
  restarted-Safe p temp junk v = record {
    exclusive = released-Exclusive n p y.kernel.locks v.exclusive;
    processes = λ q. elim (Bool-cases (p == q)) [
      | inl e ↦
          let s = init_server (length (y.servers p).requests) temp junk in
          let inv : ServerInv (build p) (update y.servers p s p)
              (update y.kernel.locks p (λ i. none) p) =
            rw (update_self y.servers p s, update_self y.kernel.locks p (λ i. none))
              (init_server-Inv (build p) (length (y.servers p).requests) temp junk) in
          subst
            (λ r.
              ServerInv (build r) (update y.servers p s r) (update y.kernel.locks p (λ i. none) r))
            ((==_iff p q).0 e) inv
      | inr e ↦ rw (e) (v.processes q)
    ];
    sized = λ q. elim (Bool-cases (p == q)) [
      | inl e ↦ rw e (init_server-length _ temp junk ∙ v.sized p)
      | inr e ↦ rw e (v.sized q)
    ];
  }

Step-Safe :
    (maxfd n : ℕ) (build : ℕ → Build) (y z : System)
    → Step n build y z
    → Safe maxfd n build y
    → Safe maxfd n build z
Step-Safe maxfd n build y z (act p event o p' h) v =
    moved-Safe maxfd n build y p o
      (round-Kept (build p) n p (y.servers p) y.kernel event (v.processes p) h) v
Step-Safe maxfd n build y z (restart p event temp junk p' h) v =
    restarted-Safe maxfd n build y p temp junk v

-- Every state that any number of read and write servers reach, in any interleaving of their rounds,
-- exits and restarts included, is safe: no two processes hold locks on a record of which one is a
-- write lock, and in every process the lock arrays and the locks held agree with the number of
-- clients that are served with each id.
pub Reach-Safe :
    (maxfd n : ℕ) (build : ℕ → Build) (y : System) → Reach maxfd n build y → Safe maxfd n build y
Reach-Safe maxfd n build y (begin _ s) = Start-Safe maxfd n build y s
Reach-Safe maxfd n build y (next x _ r s) =
    Step-Safe maxfd n build x y s (Reach-Safe maxfd n build x r)
