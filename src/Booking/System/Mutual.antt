-- ===== src/Booking/System/Mutual.antt =====
-- A client of a write server of csiebooking has its booking record to itself.
use sp_hw.Base.{
  ℕ, zero, suc, ◌+◌, ◌≡◌, ◌≤◌, ◌<◌, refl, ap, sym, ◌∙◌, inl, inr, ==_iff, Bool, true, some, arith,
  ◌==◌, if◌then◌else◌, Bool-cases, get_elem?,
}
use sp_hw.Base.Int.{pos_part}
use mathlib.Core.Path.{subst}
use mathlib.Core.Option.{none-ne-some}
use sp_hw.Booking.Connection.{Connection, slot_of}
use sp_hw.Booking.Kernel.{LockKind}
use sp_hw.Booking.Server.Handlers.{Build, slot}
use sp_hw.Booking.Locks.{weight, count, held, kind_of, Tally}
use sp_hw.Booking.Locks.Count.{count-one, count-two}
use sp_hw.Booking.System.{System, Reach}
use sp_hw.Booking.System.Safe.{Safe, Reach-Safe}

-- The connection `fd` of the process `p` has entered the id of `c` and is served.
abbrev pub IsServed : System → ℕ → ℕ → Connection → Type 0
IsServed y p fd c = (get_elem? (y.servers p).requests fd ≡ some c) × (c.wait_for_write ≡ true)

weight-served : (c : Connection) → c.wait_for_write ≡ true → weight (slot c) c ≡ 1
weight-served c h = rw h (ground arith)

held-some : (kind : LockKind) (n : ℕ) → 1 ≤ n → held kind n ≡ some kind
held-some kind zero h = absurd (omega (arith, h))
held-some kind (suc n) h = refl

tally_bound : (writelock : ℕ → Bool) (i n : ℕ) → n ≡ (if writelock i then 1 else 0) → n ≤ 1
tally_bound writelock i n h = ground (arith, Bool-cases (writelock i))

too_many : (a b n : ℕ) → n ≤ 1 → a + b ≤ n → a ≡ 1 → b ≡ 1 → ⊥
too_many a b n h k e f = omega arith

module _ (maxfd n : ℕ) (build : ℕ → Build) (y : System) (v : Safe maxfd n build y) where
  count_served :
      (p fd : ℕ) (c : Connection) → IsServed y p fd c → 1 ≤ count (slot c) (y.servers p).requests
  count_served p fd c (at, on) =
      omega (arith, count-one (slot c) (y.servers p).requests fd c at, weight-served c on)

  lock_of_served :
      (p fd : ℕ) (c : Connection)
      → IsServed y p fd c
      → y.kernel.locks p (902000 + slot c) ≡ some (kind_of (build p))
  lock_of_served p fd c on =
      (v.processes p).held_for (slot c) ∙ held-some (kind_of (build p)) _ (count_served p fd c on)

  writes_once :
      (p fd fd' : ℕ) (c c' : Connection)
      → build p ≡ Build.writer
      → IsServed y p fd c
      → IsServed y p fd' c'
      → slot c' ≡ slot c
      → fd ≡ fd'
  writes_once p fd fd' c c' w on on' same = elim (Bool-cases (fd == fd')) [
    | inl e ↦ (==_iff fd fd').0 e
    | inr e ↦
        let i = slot c in
        let requests = (y.servers p).requests in
        let tally : Tally Build.writer requests (y.servers p).writelock (y.servers p).readlock i =
          subst (λ b. Tally b requests (y.servers p).writelock (y.servers p).readlock i) w
            ((v.processes p).tally i) in
        let two =
          count-two i requests fd fd' c c' on.0 on'.0 (λ d. ground (arith, ==_iff fd fd')) in
        let weight' : weight i c' ≡ 1 = ap (λ j. weight j c') (sym same) ∙ weight-served c' on'.1 in
        absurd (
          too_many _ _ _ (tally_bound (y.servers p).writelock i _ tally) two (weight-served c on.1)
            weight')
  ]

-- At every reachable state, in any interleaving of the rounds of any number of read and write
-- servers, exits and restarts included: a client that is served by a write server is the only client
-- of all the servers that is served with its id.
pub writer_alone :
    (maxfd n : ℕ) (build : ℕ → Build) (y : System) (p q fd fd' : ℕ) (c c' : Connection)
    → Reach maxfd n build y
    → p < n
    → q < n
    → build p ≡ Build.writer
    → IsServed y p fd c
    → IsServed y q fd' c'
    → c'.id ≡ c.id
    → (p ≡ q) × (fd ≡ fd')
writer_alone maxfd n build y p q fd fd' c c' r p' q' w on on' same =
    let v = Reach-Safe maxfd n build y r in
    let same' : slot c' ≡ slot c = ap (λ i. pos_part (slot_of i)) same in
    elim (Bool-cases (p == q)) [
      | inl e ↦
          let e' = (==_iff p q).0 e in
          (
            e',
            writes_once maxfd n build y v p fd fd' c c' w on
                (subst (λ r. IsServed y r fd' c') (sym e') on') same',
          )
      | inr e ↦
          let mine = lock_of_served maxfd n build y v p fd c on ∙ ap (λ b. some (kind_of b)) w in
          let free =
            v.exclusive p q (902000 + slot c) p' q' (λ d. ground (arith, ==_iff p q)) mine in
          let theirs = lock_of_served maxfd n build y v q fd' c' on' in
          absurd (
            none-ne-some (kind_of (build q))
              (sym free ∙ ap (λ j. y.kernel.locks q (902000 + j)) (sym same') ∙ theirs))
    ]
