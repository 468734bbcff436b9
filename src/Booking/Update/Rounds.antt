-- ===== src/Booking/Update/Rounds.antt =====
-- csiebooking/server.c, WRITE_SERVER: what the rounds of the main loop do to the file of records.
use sp_hw.Base.{
  ℕ, ◌-◌, ◌≡◌, refl, ap, sym, inl, inr, List, [], Bool-cases, Option, none, some, Option-cases, All,
  length, if◌then◌else◌,
}
use mathlib.Core.Path.{subst}
use mathlib.Core.Option.{none-ne-some}
use sp_hw.Base.Decimal.{atoi}
use sp_hw.Booking.Connection.{Connection, ReadResult, filled, gone, exits, handle_read, valid_id}
use sp_hw.Booking.Command.{Triple, parse_command}
use sp_hw.Booking.Kernel.{Record, LockKind, Kernel, conflict, lock_reg}
use sp_hw.Booking.Server.Handlers.{
  Server, Build, Outcome, connection, store, slot, key, end_connection, admit, admit_write,
  enter_id, serve, leave, dispatch, handle, accept, Event, quiet, broken, connects, readable,
  first_ready, round,
}
use sp_hw.Booking.Update.{IsSmallCommand}
use sp_hw.Booking.Update.Books.{
  IsBookableRecord, AllBookable, read_record-Bookable, leave_write-Bookable, serve_write-Bookable,
}

-- Whatever command the input of a ready connection holds, its numbers are small.
abbrev pub IsSmallEvent : Server → Event → Type 0
IsSmallEvent s quiet = Unit {0}
IsSmallEvent s broken = Unit {0}
IsSmallEvent s (connects fd) = Unit {0}
IsSmallEvent s (readable working_set input) =
    (fd : ℕ) (c : Connection) (m : Triple)
    → handle_read (connection s fd) input ≡ filled c
    → parse_command c.buf s.junk ≡ some m
    → IsSmallCommand m

some_inj : {o u : Outcome} → some o ≡ some u → o ≡ u
some_inj h = cc

module _ (n p fd : ℕ) (s : Server) (k : Kernel) (temp : IsBookableRecord s.temp)
    (ok : All IsBookableRecord k.file) where
  end_connection-Bookable : IsBookableRecord (end_connection s fd).temp
  unfolding end_connection
  end_connection-Bookable = temp

  lock_reg-file :
      (i : ℕ) (kind : LockKind) (k' : Kernel) → lock_reg n k p i kind ≡ some k' → k'.file ≡ k.file
  unfolding lock_reg
  lock_reg-file i kind k' e = elim (Bool-cases (conflict n k.locks p i kind)) [
    | inl f ↦ absurd (none-ne-some k' (rw f at e))
    | inr f ↦ ap file_of (sym (rw f at e))
  ]
    where
      file_of : Option Kernel → List Record
      file_of none = k.file
      file_of (some x) = x.file

  admit_write-Bookable : (c : Connection) → AllBookable (admit_write n p fd s k c)
  unfolding admit_write end_connection
  admit_write-Bookable c =
      elim (Option-cases
        (if s.writelock (slot c) then none else lock_reg n k p (key c) LockKind.wrlck)) [
          | inl e ↦ rw (e, admit_write) (temp, ok)
          | inr (k', e) ↦
              let ok' = subst (All IsBookableRecord) (sym (taken-file k' e)) ok in
              rw (e, admit_write) (read_record-Bookable p fd s k' c temp ok', ok')
        ]
    where
      taken-file :
          (k' : Kernel)
          → (if s.writelock (slot c) then none else lock_reg n k p (key c) LockKind.wrlck) ≡ some k'
          → k'.file ≡ k.file
      taken-file k' e = elim (Bool-cases (s.writelock (slot c))) [
        | inl f ↦ absurd (none-ne-some k' (rw f at e))
        | inr f ↦ lock_reg-file (key c) LockKind.wrlck k' (rw f at e)
      ]

module _ (n p fd : ℕ) where
  enter_id-Bookable :
      (s : Server) (k : Kernel) (c : Connection)
      → IsBookableRecord s.temp
      → All IsBookableRecord k.file
      → AllBookable (enter_id Build.writer n p fd s k c)
  unfolding enter_id admit end_connection
  enter_id-Bookable s k c temp ok = elim (Bool-cases (valid_id c.buf)) [
    | inl e ↦
        let c' = record c { id = atoi c.buf } in
        rw e (admit_write-Bookable n p fd (store s fd c') k temp ok c')
    | inr e ↦ rw e (temp, ok)
  ]

  dispatch-Bookable :
      (s : Server) (k : Kernel) (c : Connection) (r : ReadResult) (o : Outcome)
      → IsBookableRecord s.temp
      → All IsBookableRecord k.file
      → ((c' : Connection) (m : Triple)
          → r ≡ filled c'
          → parse_command c'.buf s.junk ≡ some m
          → IsSmallCommand m)
      → dispatch Build.writer n p fd s k c r ≡ some o
      → AllBookable o
  unfolding dispatch serve leave end_connection
  dispatch-Bookable s k c exits o temp ok small e = absurd (none-ne-some o e)
  dispatch-Bookable s k c gone o temp ok small e = elim (Bool-cases c.wait_for_write) [
    | inl f ↦ subst AllBookable (some_inj (rw f at e)) (leave_write-Bookable p fd s k _ [] temp ok)
    | inr f ↦ subst AllBookable (some_inj (rw f at e)) (temp, ok)
  ]
  dispatch-Bookable s k c (filled c') o temp ok small e = elim (Bool-cases c.wait_for_write) [
    | inl f ↦
        subst AllBookable (some_inj (rw f at e))
          (serve_write-Bookable p fd (store s fd c') k c' (λ m g. small c' m refl g) temp ok)
    | inr f ↦ subst AllBookable (some_inj (rw f at e)) (enter_id-Bookable s k c' temp ok)
  ]

-- A round of a write server, whatever the round finds, takes a state in which every record of the file
-- and the record read last are within the rules to such a state, if the numbers of the command that
-- a client sends in it are small.
pub round-Bookable :
    (n p : ℕ) (s : Server) (k : Kernel) (event : Event) (o : Outcome)
    → IsBookableRecord s.temp
    → All IsBookableRecord k.file
    → IsSmallEvent s event
    → round Build.writer n p s k event ≡ some o
    → AllBookable o
unfolding round accept handle
round-Bookable n p s k quiet o temp ok small e = subst AllBookable (some_inj e) (temp, ok)
round-Bookable n p s k broken o temp ok small e = absurd (none-ne-some o e)
round-Bookable n p s k (connects fd) o temp ok small e = subst AllBookable (some_inj e) (temp, ok)
round-Bookable n p s k (readable working_set input) o temp ok small e =
    elim (Option-cases (first_ready (length s.requests - 3) 3 working_set)) [
      | inl f ↦ subst AllBookable (some_inj (rw (f, round) at e)) (temp, ok)
      | inr (fd, f) ↦
          dispatch-Bookable n p fd s k (connection s fd) (handle_read (connection s fd) input) o
            temp ok (small fd) (rw (f, round) at e)
    ]
