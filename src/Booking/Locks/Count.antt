-- ===== src/Booking/Locks/Count.antt =====
-- Counting the clients that are served.
use sp_hw.Base.{
  ℕ, zero, suc, ◌+◌, ◌≡◌, ◌≢◌, ◌≤◌, refl, ap, false, List, [], ◌∷◌, some, arith, get_elem?, set,
  replicate,
}
use sp_hw.Booking.Connection.{Connection}
use sp_hw.Booking.Locks.{weight, count}

pub count-set :
    (i : ℕ) (cs : List Connection) (fd : ℕ) (c c' : Connection)
    → get_elem? cs fd ≡ some c
    → count i (set cs fd c') + weight i c ≡ count i cs + weight i c'
unfolding count
count-set i [] fd c c' h = cc
count-set i (x ∷ cs) zero c c' h = ground arith
count-set i (x ∷ cs) (suc fd) c c' h = omega (arith, count-set i cs fd c c' h)

pub count-replicate :
    (i n : ℕ) (c : Connection) → c.wait_for_write ≡ false → count i (replicate n c) ≡ 0
unfolding count
count-replicate i zero c h = refl
count-replicate i (suc n) c h = ground (arith, count-replicate i n c h)

pub count-one :
    (i : ℕ) (cs : List Connection) (fd : ℕ) (c : Connection)
    → get_elem? cs fd ≡ some c
    → weight i c ≤ count i cs
unfolding count
count-one i [] fd c h = cc
count-one i (x ∷ cs) zero c h = ground arith
count-one i (x ∷ cs) (suc fd) c h = omega (arith, count-one i cs fd c h)

pub count-two :
    (i : ℕ) (cs : List Connection) (fd fd' : ℕ) (c c' : Connection)
    → get_elem? cs fd ≡ some c
    → get_elem? cs fd' ≡ some c'
    → fd ≢ fd'
    → weight i c + weight i c' ≤ count i cs
unfolding count
count-two i [] fd fd' c c' h k d = cc
count-two i (x ∷ cs) zero zero c c' h k d = absurd (d refl)
count-two i (x ∷ cs) zero (suc fd') c c' h k d = ground (arith, count-one i cs fd' c' k)
count-two i (x ∷ cs) (suc fd) zero c c' h k d = ground (arith, count-one i cs fd c h)
count-two i (x ∷ cs) (suc fd) (suc fd') c c' h k d =
    omega (arith, count-two i cs fd fd' c c' h k (λ e. d (ap suc e)))
