-- ===== src/Booking/Server/Handlers.antt =====
-- The body of the loop of `main` in csiebooking/server.c for the two builds. A handler takes the
-- process's number `p` among `n`, the connection `fd`, the process's state and the kernel's.
use sp_hw.Base.{
  ℕ, zero, suc, ◌+◌, Bool, true, false, List, [], ◌∷◌, Option, none, some, if◌then◌else◌, get_elem?,
  set, length, replicate, ◌-◌,
}
use sp_hw.Base.Int.{ℤ, pos, negsuc, pos_part, ◌+ℤ◌, ◌-ℤ◌, eq_ℤ, ltb_ℤ}
use sp_hw.Base.Decimal.{atoi, wrap32}
use sp_hw.Base.Text.{codes}
use sp_hw.Booking.Connection.{
  Connection, init_request, Input, ReadResult, filled, gone, exits, handle_read, slot_of, valid_id,
}
use sp_hw.Booking.Command.{Triple, parse_command, same_text}
use sp_hw.Booking.Kernel.{
  Record, LockKind, Kernel, update, lock_reg, unlock, read_record, write_record,
}
use sp_hw.Booking.Server.Replies.{
  Reply, ask_id, failure, locked, too_many, too_few, booking_state, booking_prompt, updated,
}

-- The globals of a process, with the descriptors of `master_set`. `junk` is what stands in the array
-- `modi` before sscanf fills it.
pub record Server : Type 0 where
  pub requests : List Connection
  pub master : ℕ → Bool
  pub temp : Record
  pub writelock : ℕ → Bool
  pub readlock : ℕ → ℤ
  pub junk : Triple

-- READ_SERVER or WRITE_SERVER
pub data Build : Type 0 where
  reader writer : Build

abbrev pub Outcome : Type 0
Outcome = Server × Kernel × List Reply

abbrev pub fresh : Connection
fresh = record { conn_fd = negsuc 0; buf = []; buf_len = 0; id = pos 0; wait_for_write = false }

-- requestP[fd]
abbrev pub connection : Server → ℕ → Connection
connection s fd = elim (get_elem? s.requests fd) [ none ↦ fresh | some c ↦ c ]

abbrev pub store : Server → ℕ → Connection → Server
store s fd c = record s { requests = set s.requests fd c }

-- endConnection
unfoldable pub end_connection : Server → ℕ → Server
end_connection s fd =
    let c = connection s fd in
    record s { requests = set s.requests fd (init_request c); master = update s.master fd false }

-- `id` of the source, as an index of the lock arrays.
abbrev pub slot : Connection → ℕ
slot c = pos_part (slot_of c.id)

abbrev pub key : Connection → ℕ
key c = pos_part c.id

-- The lock is taken and the record shown.
unfoldable pub admit_read : ℕ → ℕ → ℕ → Server → Kernel → Connection → Outcome
admit_read n p fd s k c = elim (lock_reg n k p (key c) LockKind.rdlck) [
  | none ↦ (end_connection s fd, k, locked ∷ [])
  | some k' ↦
      let t = read_record k' (slot_of c.id) s.temp in
      let s' = record s {
        readlock = update s.readlock (slot c) (s.readlock (slot c) +ℤ pos 1);
        temp = t;
      } in
      (store s' fd (record c { wait_for_write = true }), k', booking_state t.booking_state ∷ [])
]

unfoldable pub admit_write : ℕ → ℕ → ℕ → Server → Kernel → Connection → Outcome
admit_write n p fd s k c =
    let taken : Option Kernel =
      if s.writelock (slot c) then none else lock_reg n k p (key c) LockKind.wrlck in
    elim taken [
      | none ↦ (end_connection s fd, k, locked ∷ [])
      | some k' ↦
          let t = read_record k' (slot_of c.id) s.temp in
          let s' = record s { writelock = update s.writelock (slot c) true; temp = t } in
          (
            store s' fd (record c { wait_for_write = true }),
            k',
            booking_prompt t.booking_state ∷ [],
          )
    ]

unfoldable pub admit : Build → ℕ → ℕ → ℕ → Server → Kernel → Connection → Outcome
admit Build.reader = admit_read
admit Build.writer = admit_write

-- The first message of a client: its id is in the buffer of `c`.
unfoldable pub enter_id : Build → ℕ → ℕ → ℕ → Server → Kernel → Connection → Outcome
enter_id build n p fd s k c =
    if valid_id c.buf
    then (let c' = record c { id = atoi c.buf } in admit build n p fd (store s fd c') k c')
    else (end_connection (store s fd c) fd, k, failure ∷ [])

-- A reader leaves: the last one of a record takes the lock away.
unfoldable pub leave_read : ℕ → ℕ → Server → Kernel → Connection → Outcome
leave_read p fd s k c =
    let left = s.readlock (slot c) -ℤ pos 1 in
    let k' : Kernel = if eq_ℤ left (pos 0) then unlock k p (key c) else k in
    (end_connection (record s { readlock = update s.readlock (slot c) left }) fd, k', [])

-- A writer leaves with these last words.
unfoldable pub leave_write : ℕ → ℕ → Server → Kernel → Connection → List Reply → Outcome
leave_write p fd s k c said = (
  end_connection (record s { writelock = update s.writelock (slot c) false }) fd,
  unlock k p (key c),
  said,
)

-- new[j] = temp.bookingState[j] + modi[j]
unfoldable pub add_triple : Triple → Triple → Triple
add_triple t m = record {
  food = wrap32 (t.food +ℤ m.food);
  concert = wrap32 (t.concert +ℤ m.concert);
  electronics = wrap32 (t.electronics +ℤ m.electronics);
}

-- sum
unfoldable pub sum_triple : Triple → ℤ
sum_triple t = wrap32 (wrap32 (wrap32 (pos 0 +ℤ t.food) +ℤ t.concert) +ℤ t.electronics)

unfoldable pub has_negative : Triple → Bool
has_negative t =
    if ltb_ℤ t.food (pos 0)
    then true
    else if ltb_ℤ t.concert (pos 0)
    then true
    else ltb_ℤ t.electronics (pos 0)

-- What is decided about the sums: an error, or the record to write.
pub data Verdict : Type 0 where
  refused : Reply → Verdict
  booked : Triple → Verdict

unfoldable pub judge : Triple → Triple → Verdict
judge t modi =
    let new = add_triple t modi in
    if ltb_ℤ (pos 15) (sum_triple new)
    then refused too_many
    else if has_negative new
    then refused too_few
    else booked new

-- What follows from the verdict; `t` is the record as it was read into `temp`.
unfoldable pub conclude : ℕ → ℕ → Server → Kernel → Connection → Record → Verdict → Outcome
conclude p fd s k c t (refused e) = leave_write p fd (record s { temp = t }) k c (e ∷ [])
conclude p fd s k c t (booked new) =
    let t' = record t { booking_state = new } in
    leave_write p fd (record s { temp = t' }) (write_record k (slot_of c.id) t') c
      (updated c.id new ∷ [])

-- A command that is accepted, on the record of the client.
unfoldable pub modify : ℕ → ℕ → Server → Kernel → Connection → Triple → Outcome
modify p fd s k c modi =
    let t = read_record k (slot_of c.id) s.temp in
    conclude p fd s k c t (judge t.booking_state modi)

-- A later message of a client of the read server.
unfoldable pub serve_read : ℕ → ℕ → Server → Kernel → Connection → Outcome
serve_read p fd s k c = if same_text (codes "Exit") c.buf then leave_read p fd s k c else (s, k, [])

-- The command of a client of the write server.
unfoldable pub serve_write : ℕ → ℕ → Server → Kernel → Connection → Outcome
serve_write p fd s k c = elim (parse_command c.buf s.junk) [
  | none ↦ leave_write p fd s k c (failure ∷ [])
  | some modi ↦ modify p fd s k c modi
]

unfoldable pub serve : Build → ℕ → ℕ → Server → Kernel → Connection → Outcome
serve Build.reader = serve_read
serve Build.writer = serve_write

unfoldable pub leave : Build → ℕ → ℕ → Server → Kernel → Connection → Outcome
leave Build.reader p fd s k c = leave_read p fd s k c
leave Build.writer p fd s k c = leave_write p fd s k c []

-- What follows from the result of `handle_read` on the connection `c`. `none` means that the process
-- exits.
unfoldable pub dispatch :
    Build → ℕ → ℕ → ℕ → Server → Kernel → Connection → ReadResult → Option Outcome
dispatch build n p fd s k c exits = none
dispatch build n p fd s k c gone =
    some (if c.wait_for_write then leave build p fd s k c else (end_connection s fd, k, []))
dispatch build n p fd s k c (filled c') = some (
    if c.wait_for_write
    then serve build p fd (store s fd c') k c'
    else enter_id build n p fd s k c')

-- A ready connection.
unfoldable pub handle : Build → ℕ → ℕ → ℕ → Server → Kernel → Input → Option Outcome
handle build n p fd s k input =
    let c = connection s fd in dispatch build n p fd s k c (handle_read c input)

-- A new connection on `fd`.
unfoldable pub accept : ℕ → Server → Kernel → Outcome
accept fd s k =
    let c = record (connection s fd) { conn_fd = pos fd } in
    (record s { requests = set s.requests fd c; master = update s.master fd true }, k, ask_id ∷ [])

-- What select and accept report in one round of the endless loop: nothing or a failure that is
-- passed over, a new connection, a failure that ends the process, or the connections that are ready,
-- with what the one that is looked at has sent.
pub data Event : Type 0 where
  quiet broken : Event
  connects : ℕ → Event
  readable : (ℕ → Bool) → Input → Event

-- The `for` over the descriptors, with `n` left from `i` on.
unfoldable pub first_ready : ℕ → ℕ → (ℕ → Bool) → Option ℕ
first_ready zero i working_set = none
first_ready (suc n) i working_set =
    let rest = first_ready n (i + 1) working_set in if working_set i then some i else rest

unfoldable pub round : Build → ℕ → ℕ → Server → Kernel → Event → Option Outcome
round build n p s k quiet = some (s, k, [])
round build n p s k broken = none
round build n p s k (connects fd) = some (accept fd s k)
round build n p s k (readable working_set input) =
    elim (first_ready (length s.requests - 3) 3 working_set) [
      | none ↦ some (s, k, [])
      | some fd ↦ handle build n p fd s k input
    ]

-- The globals at the start, with a table of `maxfd` requests (init_server).
unfoldable pub init_server : ℕ → Record → Triple → Server
init_server maxfd temp junk = record {
  requests = replicate maxfd fresh;
  master = λ i. false;
  temp = temp;
  writelock = λ i. false;
  readlock = λ i. pos 0;
  junk = junk;
}
