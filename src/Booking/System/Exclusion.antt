-- ===== src/Booking/System/Exclusion.antt =====
-- Mutual exclusion between the clients of all servers of csiebooking.
use sp_hw.Base.{
  ℕ, zero, suc, ◌≡◌, ◌≢◌, ◌<◌, refl, ap, sym, ◌∙◌, inl, inr, ◌⊎◌, ==_iff, true, false, Option, none,
  some, arith, ◌==◌, Bool-cases,
}
use mathlib.Core.Path.{subst}
use mathlib.Core.Option.{none-ne-some}
use mathlib.Core.Bool.{true≢false}
use sp_hw.Booking.Kernel.{LockKind, Locks, update, blocks, conflict}
use sp_hw.Booking.Locks.Keep.{LocksStep, stay, take, drop}

-- A write lock of one process leaves no other process a lock on the same record.
abbrev pub Exclusive : ℕ → Locks → Type 0
Exclusive n l = (p q i : ℕ) → p < n → q < n → p ≢ q → l p i ≡ some LockKind.wrlck → l q i ≡ none

pub conflict-blocks :
    (n : ℕ) (l : Locks) (p i : ℕ) (want : LockKind) (q : ℕ)
    → conflict n l p i want ≡ false
    → q < n
    → q ≢ p
    → blocks (l q i) want ≡ false
unfolding conflict
conflict-blocks zero l p i want q h b d = absurd (omega (arith, b))
conflict-blocks (suc n) l p i want q h b d = elim (Bool-cases (n == q)) [
  | inl e ↦ ground (arith, ==_iff n q)
  | inr e ↦ conflict-blocks n l p i want q (ground arith) (ground (arith, ==_iff n q)) d
]

blocks-none : (o : Option LockKind) → blocks o LockKind.wrlck ≡ false → o ≡ none
unfolding blocks
blocks-none none h = refl
blocks-none (some LockKind.rdlck) h = cc
blocks-none (some LockKind.wrlck) h = cc

blocks_wrlck : (want : LockKind) → blocks (some LockKind.wrlck) want ≡ true
unfolding blocks
blocks_wrlck LockKind.rdlck = refl
blocks_wrlck LockKind.wrlck = refl

-- The entry of `a` and `i` in the table after `p` has set the one of `k`.
entry-cases :
    (l : Locks) (p k : ℕ) (v : Option LockKind) (a i : ℕ)
    → ((a ≡ p) × (i ≡ k) × (update l p (update (l p) k v) a i ≡ v))
      ⊎ (((a ≢ p) ⊎ (i ≢ k)) × (update l p (update (l p) k v) a i ≡ l a i))
entry-cases l p k v a i = elim (Bool-cases (p == a)) [
  | inl e ↦ elim (Bool-cases (k == i)) [
    | inl f ↦ inl (sym ((==_iff p a).0 e), sym ((==_iff k i).0 f), rw (e, f) refl)
    | inr f ↦ inr (inr (λ g. ground arith), rw (e, f) (ap (λ b. l b i) ((==_iff p a).0 e)))
  ]
  | inr e ↦ inr (inl (λ g. ground arith), rw e refl)
]

some-inj : {a b : LockKind} → some a ≡ some b → a ≡ b
some-inj h = cc

-- A step of the table keeps it.
pub LocksStep-Exclusive :
    (n p : ℕ) (l l' : Locks) → LocksStep n p l l' → Exclusive n l → Exclusive n l'
LocksStep-Exclusive n p l l' stay x a b i a' b' d h = x a b i a' b' d h
LocksStep-Exclusive n p l l' (take k kind free) x a b i a' b' d h =
    elim (entry-cases l p k (some kind) a i) [
      | inl u ↦ elim (entry-cases l p k (some kind) b i) [
        | inl w ↦ absurd (d (u.0 ∙ sym w.0))
        | inr w ↦
            let open_to = conflict-blocks n l p k kind b free b' (λ e. d (u.0 ∙ sym e)) in
            let e : kind ≡ LockKind.wrlck = some-inj (sym u.2 ∙ h) in
            w.1
            ∙ blocks-none (l b i) (
                ap (λ r. blocks (l b i) r) (sym e)
                ∙ subst (λ j. blocks (l b j) kind ≡ false) (sym u.1) open_to)
      ]
      | inr u ↦ elim (entry-cases l p k (some kind) b i) [
        | inl w ↦
            let open_to = conflict-blocks n l p k kind a free a' (λ e. d (e ∙ sym w.0)) in
            let e : l a k ≡ some LockKind.wrlck = ap (l a) (sym w.1) ∙ sym u.1 ∙ h in
            absurd
              (true≢false (sym (blocks_wrlck kind) ∙ ap (λ o. blocks o kind) (sym e) ∙ open_to))
        | inr w ↦ w.1 ∙ x a b i a' b' d (sym u.1 ∙ h)
      ]
    ]
LocksStep-Exclusive n p l l' (drop k) x a b i a' b' d h = elim (entry-cases l p k none a i) [
  | inl u ↦ absurd (none-ne-some LockKind.wrlck (sym u.2 ∙ h))
  | inr u ↦ elim (entry-cases l p k none b i) [
    | inl w ↦ w.2
    | inr w ↦ w.1 ∙ x a b i a' b' d (sym u.1 ∙ h)
  ]
]

-- So does a process that gives all its locks back.
pub released-Exclusive :
    (n p : ℕ) (l : Locks) → Exclusive n l → Exclusive n (update l p (λ i. none))
released-Exclusive n p l x a b i a' b' d h = elim (Bool-cases (p == a)) [
  | inl e ↦
      let f : update l p (λ j. none) a i ≡ none = rw e refl in
      absurd (none-ne-some LockKind.wrlck (sym f ∙ h))
  | inr e ↦ elim (Bool-cases (p == b)) [
    | inl f ↦ rw f refl
    | inr f ↦
        let g : update l p (λ j. none) a i ≡ l a i = rw e refl in rw f (x a b i a' b' d (sym g ∙ h))
  ]
]
