-- ===== src/Booking/Update/Books.antt =====
-- What a command does to the file of records of csiebooking (the WRITE_SERVER part of the main loop).
use sp_hw.Base.{
  ℕ, zero, suc, ◌-◌, List, ◌≡◌, refl, ap, sym, inl, inr, [], ◌∷◌, none, some, Option-cases,
  get_elem?, set, All, All-get_elem?, arith,
}
use sp_hw.Base.Int.{◌+ℤ◌}
use mathlib.Core.Path.{subst}
use sp_hw.Booking.Connection.{Connection, slot_of}
use sp_hw.Booking.Command.{Triple, IsTriple32, parse_command, print_triple, parse_command_iff}
use sp_hw.Booking.Kernel.{Record, Kernel, zero_record, overwrite, read_record, write_record, unlock}
use sp_hw.Booking.Server.Replies.{Reply, failure, updated}
use sp_hw.Booking.Server.Handlers.{
  Server, Outcome, slot, end_connection, Verdict, refused, booked, judge, conclude, modify,
  serve_write, leave_write,
}
use sp_hw.Booking.Update.{IsBookable, IsSmallCommand, plus}
use sp_hw.Booking.Update.Verdict.{judge_iff}

abbrev pub IsBookableRecord : Record → Type 0
IsBookableRecord r = IsBookable r.booking_state

-- Every record of the file is within the rules, and so is the one that was read last.
abbrev pub AllBookable : Outcome → Type 0
AllBookable o = IsBookableRecord o.0.temp × All IsBookableRecord o.1.file

overwrite-set :
    (file : List Record) (i : ℕ) (old r : Record)
    → get_elem? file i ≡ some old
    → overwrite file i r ≡ set file i r
unfolding overwrite
overwrite-set [] i old r e = cc
overwrite-set (x ∷ file) zero old r e = refl
overwrite-set (x ∷ file) (suc i) old r e = ap (λ l. x ∷ l) (overwrite-set file i old r e)

overwrite-All :
    (file : List Record) (i : ℕ) (r : Record)
    → All IsBookableRecord file
    → IsBookableRecord r
    → All IsBookableRecord (overwrite file i r)
unfolding overwrite ◌+ℤ◌
overwrite-All [] zero r ok h = (h, tt)
overwrite-All [] (suc i) r ok h = (zero_ok, overwrite-All [] i r tt h)
  where
    zero_ok : IsBookableRecord zero_record
    zero_ok = (omega arith, omega arith, omega arith, omega arith)
overwrite-All (x ∷ file) zero r ok h = (h, ok.1)
overwrite-All (x ∷ file) (suc i) r ok h = (ok.0, overwrite-All file i r ok.1 h)

module _ (p fd : ℕ) (s : Server) (k : Kernel) (c : Connection) where
  serve_write-some :
      (m : Triple)
      → parse_command c.buf s.junk ≡ some m
      → serve_write p fd s k c ≡ modify p fd s k c m
  unfolding serve_write
  serve_write-some m e = rw (e, serve_write)

  read_at :
      (r : Record)
      → get_elem? k.file (slot c - 1) ≡ some r
      → read_record k (slot_of c.id) s.temp ≡ r
  unfolding read_record
  read_at r e = ap (λ o. elim o [ none ↦ s.temp | some d ↦ d ]) e

  modify_booked :
      (m : Triple) (r : Record) (new : Triple)
      → get_elem? k.file (slot c - 1) ≡ some r
      → judge r.booking_state m ≡ booked new
      → ((modify p fd s k c m).1.file ≡ set k.file (slot c - 1) (record r { booking_state = new }))
        × ((modify p fd s k c m).2 ≡ updated c.id new ∷ [])
  unfolding modify conclude leave_write write_record unlock
  modify_booked m r new at e = rw (read_at r at, e) (overwrite-set k.file (slot c - 1) r _ at, refl)

  -- The client's command is the text of three small numbers, the record of its id is within the
  -- rules and so are the sums: the record in the file gets the sums, all else of the file stays, and
  -- the client is told.
  pub serve_write_books :
      (r : Record) (m : Triple)
      → IsTriple32 s.junk
      → IsTriple32 m
      → c.buf ≡ print_triple m
      → get_elem? k.file (slot c - 1) ≡ some r
      → IsBookableRecord r
      → IsSmallCommand m
      → IsBookable (plus r.booking_state m)
      → ((serve_write p fd s k c).1.file
          ≡ set k.file (slot c - 1) (record r { booking_state = plus r.booking_state m }))
        × ((serve_write p fd s k c).2 ≡ updated c.id (plus r.booking_state m) ∷ [])
  serve_write_books r m j i text at ok small fits =
      let parsed = (parse_command_iff c.buf s.junk m j).1 (i, text) in
      let e = (judge_iff r.booking_state m (plus r.booking_state m) ok small).1 (refl, fits) in
      rw (serve_write-some m parsed) (modify_booked m r _ at e)

  conclude-Bookable :
      (t : Record) (v : Verdict)
      → IsBookableRecord t
      → ((new : Triple) → v ≡ booked new → IsBookable new)
      → All IsBookableRecord k.file
      → AllBookable (conclude p fd s k c t v)
  unfolding conclude leave_write write_record unlock end_connection
  conclude-Bookable t (refused e) read h ok = (read, ok)
  conclude-Bookable t (booked new) read h ok =
      (h new refl, overwrite-All k.file (slot c - 1) _ ok (h new refl))

  pub read_record-Bookable :
      IsBookableRecord s.temp
      → All IsBookableRecord k.file
      → IsBookableRecord (read_record k (slot_of c.id) s.temp)
  unfolding read_record
  read_record-Bookable temp ok = elim (Option-cases (get_elem? k.file (slot c - 1))) [
    | inl e ↦ subst IsBookableRecord (sym (ap (λ o. elim o [ none ↦ s.temp | some d ↦ d ]) e)) temp
    | inr (r, e) ↦
        subst IsBookableRecord (sym (read_at r e))
          (All-get_elem? IsBookableRecord k.file (slot c - 1) r ok e)
  ]

  pub leave_write-Bookable :
      (said : List Reply)
      → IsBookableRecord s.temp
      → All IsBookableRecord k.file
      → AllBookable (leave_write p fd s k c said)
  unfolding leave_write unlock end_connection
  leave_write-Bookable said temp ok = (temp, ok)

  modify-Bookable :
      (m : Triple)
      → IsSmallCommand m
      → IsBookableRecord s.temp
      → All IsBookableRecord k.file
      → AllBookable (modify p fd s k c m)
  unfolding modify
  modify-Bookable m small temp ok =
      let r = read_record k (slot_of c.id) s.temp in
      let read = read_record-Bookable temp ok in
      conclude-Bookable r _ read (λ new e. ((judge_iff r.booking_state m new read small).0 e).1) ok

  pub serve_write-Bookable :
      ((m : Triple) → parse_command c.buf s.junk ≡ some m → IsSmallCommand m)
      → IsBookableRecord s.temp
      → All IsBookableRecord k.file
      → AllBookable (serve_write p fd s k c)
  unfolding serve_write
  serve_write-Bookable small temp ok = elim (Option-cases (parse_command c.buf s.junk)) [
    | inl e ↦ rw (e, serve_write) (leave_write-Bookable (failure ∷ []) temp ok)
    | inr (m, e) ↦ rw (e, serve_write) (modify-Bookable m (small m e) temp ok)
  ]
