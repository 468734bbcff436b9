-- ===== src/Threads/Program/Progress.antt =====
-- What the threads have printed, what each is to print yet, and what that costs at most in turns.
use sp_hw.Base.{
  ℕ, zero, suc, ◌+◌, ◌-◌, ◌*◌, ◌≡◌, ◌≢◌, ◌≤◌, ◌<◌, refl, ap, sym, ◌∙◌, inl, inr, Bool, true, false,
  List, [], ◌∷◌, ◌++◌, some, arith, ◌==◌, ==_iff, Bool-cases, if◌then◌else◌,
}
use sp_hw.Base.Int.{ℤ}
use mathlib.Core.Path.{subst}
use mathlib.Core.List.{append-nil, append_assoc}
use sp_hw.Threads.Program.{Tcb, Round, World, update, printed_round}
use sp_hw.Threads.Program.Alone.{alone}

-- The numbers that a thread has printed.
abbrev pub printed_by : ℕ → List (ℕ × ℤ) → List ℤ
printed_by u [] = []
printed_by u ((id, v) ∷ l) = if id == u then v ∷ printed_by u l else printed_by u l

printed_by-append :
    (u : ℕ) (l r : List (ℕ × ℤ)) → printed_by u (l ++ r) ≡ printed_by u l ++ printed_by u r
printed_by-append u [] r = refl
printed_by-append u ((id, v) ∷ l) r = elim (Bool-cases (id == u)) [
  | inl e ↦ rw e (ap (◌∷◌ v) (printed_by-append u l r))
  | inr e ↦ rw e (printed_by-append u l r)
]

abbrev pub flag : Bool → ℕ
flag b = if b then 1 else 0

-- `live u` is positive for a thread that is in one of the queues; `m` bounds the turns to come.
pub record Progress (total : ℕ → List ℤ) (m : ℕ) (live : ℕ → ℕ) (w : World) : Type 0 where
  pub rest : ℕ → List ℤ
  pub fuel : ℕ → ℕ
  pub cost : ℕ → ℕ
  pub alive : (u : ℕ) → 0 < live u → alone (fuel u) u (w.tcbs u) ≡ some (rest u)
  pub paid : (u : ℕ) → 0 < live u → 2 * fuel u ≤ cost u + flag (w.in_read u)
  pub gone : (u : ℕ) → live u ≡ 0 → rest u ≡ []
  pub sums : (u : ℕ) → printed_by u w.printed ++ rest u ≡ total u
  pub bound : cost 0 + cost 1 + cost 2 ≤ m

by_key : (P : ℕ → Type 0) (id : ℕ) → P id → ((u : ℕ) → (u == id) ≡ false → P u) → (u : ℕ) → P u
by_key P id here others u = elim (Bool-cases (u == id)) [
  | inl e ↦ subst P (sym ((==_iff u id).0 e)) here
  | inr e ↦ others u e
]

key_self : (id : ℕ) → (id == id) ≡ true
key_self id = ground arith

key_sym : (u id : ℕ) → (u == id) ≡ false → (id == u) ≡ false
key_sym u id e = ground arith

drop_cost :
    (cost : ℕ → ℕ) (id c m : ℕ)
    → id < 3
    → c < cost id
    → cost 0 + cost 1 + cost 2 ≤ suc m
    → update cost id c 0 + update cost id c 1 + update cost id c 2 ≤ m
drop_cost cost zero c m k less b = omega arith
drop_cost cost (suc zero) c m k less b = omega arith
drop_cost cost (suc (suc zero)) c m k less b = omega arith
drop_cost cost (suc (suc (suc n))) c m k less b = absurd (omega (arith, k))

fuel_positive : (fuel id : ℕ) (t : Tcb) (l : List ℤ) → alone fuel id t ≡ some l → 0 < fuel
unfolding alone
fuel_positive zero id t l h = cc
fuel_positive (suc fuel) id t l h = omega arith

module _ {total : ℕ → List ℤ} {m : ℕ} {live : ℕ → ℕ} {w : World} (p : Progress total (suc m) live w)
    (id : ℕ) (small : id < 3) (is_live : 0 < live id) where
  has_fuel : 0 < p.fuel id
  has_fuel = fuel_positive (p.fuel id) id (w.tcbs id) (p.rest id) (p.alive id is_live)

  -- The jump in front of a read costs a turn.
  pub Progress-read :
      w.in_read id ≡ false → Progress total m live (record w { in_read = update w.in_read id true })
  Progress-read not_read =
      let enough : 2 * p.fuel id ≤ p.cost id + 0 =
        subst (λ b. 2 * p.fuel id ≤ p.cost id + flag b) not_read (p.paid id is_live) in
      record {
        rest = p.rest;
        fuel = p.fuel;
        cost = update p.cost id (p.cost id - 1);
        alive = p.alive;
        paid =
            by_key
              (λ u.
                0 < live u
                → 2 * p.fuel u
                  ≤ update p.cost id (p.cost id - 1) u + flag (update w.in_read id true u))
              id (λ l. rw (key_self id) (omega (arith, enough)))
              (λ u other l. rw other (p.paid u l));
        gone = p.gone;
        sums = p.sums;
        bound =
            drop_cost p.cost id (p.cost id - 1) m small (omega (arith, enough, has_fuel)) p.bound;
      }

  more_printed :
      (v : ℤ) (rest : List ℤ)
      → p.rest id ≡ v ∷ rest
      → (u : ℕ) → printed_by u (w.printed ++ (id, v) ∷ []) ++ update p.rest id rest u ≡ total u
  more_printed v rest l =
      by_key (λ u. printed_by u (w.printed ++ (id, v) ∷ []) ++ update p.rest id rest u ≡ total u) id
        (rw (printed_by-append id w.printed ((id, v) ∷ []), key_self id)
          (append_assoc (printed_by id w.printed) (v ∷ []) rest
            ∙ ap (λ k. printed_by id w.printed ++ k) (sym l)
            ∙ p.sums id))
        (λ u other.
          rw
            (
              printed_by-append u w.printed ((id, v) ∷ []),
              key_sym u id other,
              other,
              append-nil (printed_by u w.printed),
            )
            (p.sums u))

  -- So does a round that is not the last one of its thread.
  pub Progress-round :
      (r : Round) (k : ℕ) (rest : List ℤ)
      → p.fuel id ≡ suc k
      → alone k id r.after ≡ some rest
      → p.rest id ≡ r.value ∷ rest
      → Progress total m live (printed_round w id r)
  Progress-round r k rest f a l =
      let enough = p.paid id is_live in
      record {
        rest = update p.rest id rest;
        fuel = update p.fuel id k;
        cost = update p.cost id (p.cost id - 1);
        alive =
            by_key
              (λ u.
                0 < live u
                → alone (update p.fuel id k u) u (update w.tcbs id r.after u)
                  ≡ some (update p.rest id rest u))
              id (λ h. rw (key_self id) a) (λ u other h. rw other (p.alive u h));
        paid =
            by_key
              (λ u.
                0 < live u
                → 2 * update p.fuel id k u
                  ≤ update p.cost id (p.cost id - 1) u + flag (update w.in_read id false u))
              id (λ h. rw (key_self id) (spare (p.cost id) k (p.fuel id) (w.in_read id) f enough))
              (λ u other h. rw other (p.paid u h));
        gone =
            by_key (λ u. live u ≡ 0 → update p.rest id rest u ≡ []) id
              (λ h. absurd (omega (arith, h, is_live))) (λ u other h. rw other (p.gone u h));
        sums = more_printed r.value rest l;
        bound =
            drop_cost p.cost id (p.cost id - 1) m small
              (costs (p.cost id) k (p.fuel id) (w.in_read id) f enough) p.bound;
      }
    where
      spare : (c n o : ℕ) (b : Bool) → o ≡ suc n → 2 * o ≤ c + flag b → 2 * n ≤ c - 1 + 0
      spare c n o true e h = omega arith
      spare c n o false e h = omega arith

      costs : (c n o : ℕ) (b : Bool) → o ≡ suc n → 2 * o ≤ c + flag b → c - 1 < c
      costs c n o true e h = omega arith
      costs c n o false e h = omega arith

  -- And the last round, behind which its thread is in none of the queues.
  pub Progress-exit :
      (r : Round) (live' : ℕ → ℕ)
      → p.rest id ≡ r.value ∷ []
      → live' id ≡ 0
      → ((u : ℕ) → (u == id) ≡ false → live' u ≡ live u)
      → Progress total m live' (printed_round w id r)
  Progress-exit r live' l out same = record {
    rest = update p.rest id [];
    fuel = p.fuel;
    cost = update p.cost id 0;
    alive =
        by_key
          (λ u.
            0 < live' u
            → alone (p.fuel u) u (update w.tcbs id r.after u) ≡ some (update p.rest id [] u))
          id (λ h. absurd (omega (arith, out, h)))
          (λ u other h. rw other (p.alive u (omega (arith, h, same u other))));
    paid =
        by_key
          (λ u.
            0 < live' u → 2 * p.fuel u ≤ update p.cost id 0 u + flag (update w.in_read id false u))
          id (λ h. absurd (omega (arith, out, h)))
          (λ u other h. rw other (p.paid u (omega (arith, h, same u other))));
    gone =
        by_key (λ u. live' u ≡ 0 → update p.rest id [] u ≡ []) id (λ h. rw (key_self id) refl)
          (λ u other h. rw other (p.gone u (omega (arith, h, same u other))));
    sums = more_printed r.value [] l;
    bound =
        drop_cost p.cost id 0 m small
          (positive (p.cost id) (p.fuel id) (w.in_read id) has_fuel (p.paid id is_live)) p.bound;
  }
    where
      positive : (c n : ℕ) (b : Bool) → 0 < n → 2 * n ≤ c + flag b → 0 < c
      positive c n true e h = omega arith
      positive c n false e h = omega arith

no_cost : (cost : ℕ → ℕ) (id : ℕ) → id < 3 → cost 0 + cost 1 + cost 2 ≤ 0 → cost id ≡ 0
no_cost cost zero k b = omega arith
no_cost cost (suc zero) k b = omega arith
no_cost cost (suc (suc zero)) k b = omega arith
no_cost cost (suc (suc (suc n))) k b = absurd (omega (arith, k))

-- While a thread is there, turns are to come.
pub Progress-zero :
    (total : ℕ → List ℤ) (live : ℕ → ℕ) (w : World) (id : ℕ)
    → id < 3
    → 0 < live id
    → ¬ Progress total 0 live w
Progress-zero total live w id k h g =
    costs (g.fuel id) (g.cost id) (w.in_read id)
      (fuel_positive (g.fuel id) id (w.tcbs id) (g.rest id) (g.alive id h)) (g.paid id h)
      (no_cost g.cost id k g.bound)
  where
    costs : (n c : ℕ) (b : Bool) → 0 < n → 2 * n ≤ c + flag b → c ≢ 0
    costs n c true e f z = omega arith
    costs n c false e f z = omega arith
