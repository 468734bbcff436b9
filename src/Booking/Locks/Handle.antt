-- ===== src/Booking/Locks/Handle.antt =====
-- The whole handler, and a round of the main loop.
use sp_hw.Base.{
  ℕ, ◌≡◌, ◌<◌, refl, ap, sym, ◌∙◌, inl, inr, Bool, true, false, [], ◌∷◌, none, some, if◌then◌else◌,
  Bool-cases, Option-cases, length, length-set, get_elem?, get_elem?-set_self, get_elem?-lt,
  get_elem?-some, All-get_elem?,
}
use sp_hw.Base.Decimal.{atoi}
use sp_hw.Base.Text.{codes}
use mathlib.Core.Path.{subst}
use mathlib.Core.Bool.{true≢false}
use sp_hw.Booking.Connection.{
  Connection, Input, ReadResult, filled, gone, exits, handle_read, slot_of, valid_id,
}
use sp_hw.Booking.Command.{Triple, parse_command, same_text}
use sp_hw.Booking.Kernel.{Record, Locks, Kernel, write_record}
use sp_hw.Booking.Server.Handlers.{
  Server, Build, Outcome, connection, store, enter_id, leave, modify, conclude, Verdict, refused,
  booked, serve_read, serve_write, serve, dispatch, handle, fresh,
}
use sp_hw.Booking.Locks.{weight, IsUser, ServerInv}
use sp_hw.Booking.Locks.Moves.{Inv-keep}
use sp_hw.Booking.Locks.Keep.{
  stay, Kept, IsNumbered, valid_id_slot, handle_read-filled, end_connection-Kept, leave_read-Kept,
  leave_write-Kept, admit-Kept,
}

Kept-size :
    (build : Build) (n p size size' : ℕ) (l : Locks) (o : Outcome)
    → size ≡ size'
    → Kept build n p size l o
    → Kept build n p size' l o
Kept-size build n p size size' l o e v = subst (λ m. Kept build n p m l o) e v

module _ (n p fd : ℕ) (s : Server) (k : Kernel) (c : Connection)
    (at : get_elem? s.requests fd ≡ some c) where
  -- The same connection with another buffer or id, in the table.
  module _ (c' : Connection) where
    stored : get_elem? (store s fd c').requests fd ≡ some c'
    stored = get_elem?-set_self s.requests fd c' (get_elem?-lt s.requests fd at)

    store-Inv :
        (build : Build)
        → ((i : ℕ) → weight i c ≡ weight i c')
        → IsUser c'
        → ServerInv build s (k.locks p)
        → ServerInv build (store s fd c') (k.locks p)
    store-Inv build same user v =
        Inv-keep s.writelock s.readlock (k.locks p) s.requests fd c c' at build v user same

  enter_id-Kept :
      (build : Build) (c' : Connection)
      → c.wait_for_write ≡ false
      → c'.wait_for_write ≡ false
      → ServerInv build s (k.locks p)
      → Kept build n p (length s.requests) k.locks (enter_id build n p fd s k c')
  unfolding enter_id
  enter_id-Kept build c' off off' v = elim (Bool-cases (valid_id c'.buf)) [
    | inl e ↦
        let c'' = record c' { id = atoi c'.buf } in
        rw e (
          Kept-size build n p _ _ k.locks _ (length-set s.requests fd c'') (
            admit-Kept n p fd (store s fd c'') k c'' (stored c'') build off' (valid_id_slot c' e)
              (store-Inv c'' build (λ i. rw (off, off')) (λ h. cc) v)))
    | inr e ↦ rw e (
        Kept-size build n p _ _ k.locks _ (length-set s.requests fd c') (
          end_connection-Kept n p fd (store s fd c') k c' (stored c') build _ off'
            (store-Inv c' build (λ i. rw (off, off')) (λ h. cc) v)))
  ]

  leave-Kept :
      (build : Build)
      → c.wait_for_write ≡ true
      → ServerInv build s (k.locks p)
      → Kept build n p (length s.requests) k.locks (leave build p fd s k c)
  unfolding leave
  leave-Kept Build.reader on v =
      leave_read-Kept n p fd s k c at on (All-get_elem? IsUser _ fd c v.users at on) v
  leave-Kept Build.writer on v =
      leave_write-Kept n p fd s k c at [] on (All-get_elem? IsUser _ fd c v.users at on) v

  conclude-Kept :
      c.wait_for_write ≡ true
      → IsNumbered c
      → (t : Record) (verdict : Verdict) → ServerInv Build.writer s (k.locks p)
      → Kept Build.writer n p (length s.requests) k.locks (conclude p fd s k c t verdict)
  unfolding conclude write_record
  conclude-Kept on num t (refused e) v =
      leave_write-Kept n p fd (record s { temp = t }) k c at (e ∷ []) on num v
  conclude-Kept on num t (booked new) v =
      let t' = record t { booking_state = new } in
      leave_write-Kept n p fd (record s { temp = t' }) (write_record k (slot_of c.id) t') c at _ on
        num v

  modify-Kept :
      c.wait_for_write ≡ true
      → IsNumbered c
      → (modi : Triple) → ServerInv Build.writer s (k.locks p)
      → Kept Build.writer n p (length s.requests) k.locks (modify p fd s k c modi)
  unfolding modify
  modify-Kept on num modi v = conclude-Kept on num _ _ v

  serve-Kept :
      (build : Build)
      → c.wait_for_write ≡ true
      → IsNumbered c
      → ServerInv build s (k.locks p)
      → Kept build n p (length s.requests) k.locks (serve build p fd s k c)
  unfolding serve serve_read serve_write
  serve-Kept Build.reader on num v = elim (Bool-cases (same_text (codes "Exit") c.buf)) [
    | inl e ↦ rw (e, serve_read) (leave_read-Kept n p fd s k c at on num v)
    | inr e ↦ rw (e, serve_read) (record { inv = v; step = stay; sized = refl })
  ]
  serve-Kept Build.writer on num v = elim (Option-cases (parse_command c.buf s.junk)) [
    | inl e ↦ rw (e, serve_write) (leave_write-Kept n p fd s k c at _ on num v)
    | inr (modi, e) ↦ rw (e, serve_write) (modify-Kept on num modi v)
  ]

some-if :
    (b : Bool) (x y o : Outcome)
    → some (if b then x else y) ≡ some o
    → (b ≡ true → x ≡ o) × (b ≡ false → y ≡ o)
some-if true x y o h = (λ e. cc, λ e. absurd (true≢false e))
some-if false x y o h = (λ e. absurd (true≢false (sym e)), λ e. cc)

IsNumbered-same : (c c' : Connection) → c'.id ≡ c.id → IsNumbered c → IsNumbered c'
IsNumbered-same c c' e h = rw e h

weight-same :
    (i : ℕ) (c c' : Connection)
    → c'.id ≡ c.id
    → c'.wait_for_write ≡ c.wait_for_write
    → weight i c ≡ weight i c'
weight-same i c c' e f = rw (e, f)

module _ (build : Build) (n p fd : ℕ) (s : Server) (k : Kernel) where
  dispatch-Kept :
      (c : Connection) (r : ReadResult) {o : Outcome}
      → get_elem? s.requests fd ≡ some c
      → ((c' : Connection)
          → r ≡ filled c'
          → (c'.id ≡ c.id) × (c'.wait_for_write ≡ c.wait_for_write))
      → ServerInv build s (k.locks p)
      → dispatch build n p fd s k c r ≡ some o
      → Kept build n p (length s.requests) k.locks o
  unfolding dispatch
  dispatch-Kept c exits at same v h = cc
  dispatch-Kept c gone at same v h = elim (Bool-cases c.wait_for_write) [
    | inl on ↦
        subst (Kept build n p _ k.locks) ((some-if c.wait_for_write _ _ _ h).0 on)
          (leave-Kept n p fd s k c at build on v)
    | inr off ↦
        subst (Kept build n p _ k.locks) ((some-if c.wait_for_write _ _ _ h).1 off)
          (end_connection-Kept n p fd s k c at build [] off v)
  ]
  dispatch-Kept c (filled c') at same v h =
      let (id, wait) = same c' refl in
      elim (Bool-cases c.wait_for_write) [
        | inl on ↦
            let num =
              IsNumbered-same c c' id (All-get_elem? IsUser s.requests fd c v.users at on) in
            subst (Kept build n p _ k.locks) ((some-if c.wait_for_write _ _ _ h).0 on) (
              Kept-size build n p _ _ k.locks _ (length-set s.requests fd c') (
                serve-Kept n p fd (store s fd c') k c' (stored n p fd s k c at c') build (wait ∙ on)
                  num
                  (store-Inv n p fd s k c at c' build (λ i. weight-same i c c' id wait) (λ _. num)
                    v)))
        | inr off ↦
            subst (Kept build n p _ k.locks) ((some-if c.wait_for_write _ _ _ h).1 off)
              (enter_id-Kept n p fd s k c at build c' off (wait ∙ off) v)
      ]

  -- A handler that returns keeps the invariant of its process and the size of its table, and changes
  -- at most one entry of the process's own row of locks.
  pub handle-Kept :
      (input : Input) {o : Outcome}
      → fd < length s.requests
      → ServerInv build s (k.locks p)
      → handle build n p fd s k input ≡ some o
      → Kept build n p (length s.requests) k.locks o
  unfolding handle
  handle-Kept input {o} inside v h =
      let (c, at) = get_elem?-some s.requests fd inside in
      let e : connection s fd ≡ c = ap (λ r. elim r [ none ↦ fresh | some d ↦ d ]) at in
      dispatch-Kept c (handle_read c input) at (λ c' f. handle_read-filled c input f) v
        (subst (λ d. dispatch build n p fd s k d (handle_read d input) ≡ some o) e h)
