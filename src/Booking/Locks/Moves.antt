-- ===== src/Booking/Locks/Moves.antt =====
-- The four ways in which a handler changes the table of connections and the locks together.
use sp_hw.Base.{
  ℕ, ◌+◌, ◌≡◌, Bool, true, false, List, Option, none, some, arith, ◌==◌, if◌then◌else◌, get_elem?,
  set, All-set,
}
use sp_hw.Base.Int.{ℤ, pos, ◌+ℤ◌, ◌-ℤ◌, eq_ℤ}
use sp_hw.Booking.Connection.{Connection}
use sp_hw.Booking.Kernel.{LockKind, update}
use sp_hw.Booking.Server.Handlers.{Build, slot}
use sp_hw.Booking.Locks.{weight, count, IsUser, Tally, Inv}
use sp_hw.Booking.Locks.Count.{count-set}

module _ (writelock : ℕ → Bool) (readlock : ℕ → ℤ) (locks : ℕ → Option LockKind)
    (requests : List Connection) (fd : ℕ) (c c' : Connection)
    (at : get_elem? requests fd ≡ some c) where
  -- A connection that nobody is served on, or that the same client is served on.
  pub Inv-keep :
      (build : Build)
      → Inv build requests writelock readlock locks
      → IsUser c'
      → ((i : ℕ) → weight i c ≡ weight i c')
      → Inv build (set requests fd c') writelock readlock locks
  Inv-keep build v user same = record {
    users = All-set IsUser requests fd c' v.users user;
    tally = λ i. tally i build (v.tally i) (count_same i);
    held_for = λ i. rw (count_same i) (v.held_for i);
  }
    where
      count_same : (i : ℕ) → count i (set requests fd c') ≡ count i requests
      count_same i = omega (arith, count-set i requests fd c c' at, same i)

      tally :
          (i : ℕ) (build : Build)
          → Tally build requests writelock readlock i
          → count i (set requests fd c') ≡ count i requests
          → Tally build (set requests fd c') writelock readlock i
      tally i Build.reader t e = rw e t
      tally i Build.writer t e = rw e t

  module _ (off : c.wait_for_write ≡ false) (on : c'.wait_for_write ≡ true) (user : IsUser c') where
    count_up :
        (i : ℕ) → count i (set requests fd c') ≡ count i requests + (if slot c' == i then 1 else 0)
    count_up i = ground (arith, count-set i requests fd c c' at)

    pub Inv-enter_read :
        Inv Build.reader requests writelock readlock locks
        → Inv Build.reader
            (set requests fd c')
            writelock
            (update readlock (slot c') (readlock (slot c') +ℤ pos 1))
            (update locks (902000 + slot c') (some LockKind.rdlck))
    unfolding ◌+ℤ◌
    Inv-enter_read v = record {
      users = All-set IsUser requests fd c' v.users user;
      tally = λ i. ground (arith, count_up i, v.tally i);
      held_for = λ i. ground (arith, count_up i, v.held_for i);
    }

    pub Inv-enter_write :
        writelock (slot c') ≡ false
        → Inv Build.writer requests writelock readlock locks
        → Inv Build.writer
            (set requests fd c')
            (update writelock (slot c') true)
            readlock
            (update locks (902000 + slot c') (some LockKind.wrlck))
    Inv-enter_write free v = record {
      users = All-set IsUser requests fd c' v.users user;
      tally = λ i. ground (arith, count_up i, v.tally i);
      held_for = λ i. ground (arith, count_up i, v.held_for i);
    }

  module _ (on : c.wait_for_write ≡ true) (off : c'.wait_for_write ≡ false) where
    count_down :
        (i : ℕ) → count i (set requests fd c') + (if slot c == i then 1 else 0) ≡ count i requests
    count_down i = ground (arith, count-set i requests fd c c' at)

    gone-IsUser : IsUser c'
    gone-IsUser h = cc

    pub Inv-leave_read :
        Inv Build.reader requests writelock readlock locks
        → Inv Build.reader
            (set requests fd c')
            writelock
            (update readlock (slot c) (readlock (slot c) -ℤ pos 1))
            (if eq_ℤ (readlock (slot c) -ℤ pos 1) (pos 0)
              then update locks (902000 + slot c) none
              else locks)
    unfolding ◌-ℤ◌
    Inv-leave_read v = record {
      users = All-set IsUser requests fd c' v.users gone-IsUser;
      tally = λ i. ground (arith, count_down i, v.tally i);
      held_for = λ i. ground (arith, count_down i, v.held_for i, v.tally i);
    }

    pub Inv-leave_write :
        Inv Build.writer requests writelock readlock locks
        → Inv Build.writer
            (set requests fd c')
            (update writelock (slot c) false)
            readlock
            (update locks (902000 + slot c) none)
    Inv-leave_write v = record {
      users = All-set IsUser requests fd c' v.users gone-IsUser;
      tally = λ i. ground (arith, count_down i, v.tally i);
      held_for = λ i. ground (arith, count_down i, v.held_for i, v.tally i);
    }
