-- ===== src/Booking/Tests.antt =====
-- Runs of the servers of csiebooking.
use sp_hw.Base.{
  ℕ, zero, suc, ◌+◌, ◌-◌, ◌^◌, ◌≡◌, ◌≤◌, ◌<◌, ◌↔◌, refl, sym, ◌∙◌, Bool, true, false, List, [], ◌∷◌,
  ◌++◌, Option, none, some, arith, All, length, get_elem?, set, ◌==◌,
}
use mathlib.Core.Path.{subst}
use sp_hw.Base.Int.{pos, pos_part, ◌+ℤ◌, ◌-ℤ◌}
use sp_hw.Base.Text.{codes}
use sp_hw.Booking.Connection.{Connection, Input, received, slot_of}
use sp_hw.Booking.Command.{Triple, IsTriple32, parse_command, print_triple, parse_command_iff}
use sp_hw.Booking.Kernel.{Record, Kernel, update}
use sp_hw.Booking.Server.Replies.{updated}
use sp_hw.Booking.Server.Handlers.{
  Server, Build, Outcome, connection, accept, Event, connects, readable, round, init_server,
  serve_write, Verdict, booked, judge,
}
use sp_hw.Booking.Locks.Keep.{Kept}
use sp_hw.Booking.Locks.Rounds.{round-Kept}
use sp_hw.Booking.System.{System, act, start, Reach, begin, next}
use sp_hw.Booking.System.Safe.{Safe, Reach-Safe}
use sp_hw.Base.{ap}
use sp_hw.Booking.Server.Handlers.{store}
use sp_hw.Booking.Connection.{ReadResult, filled, gone, exits}
use sp_hw.Booking.System.Mutual.{IsServed, writer_alone}
use sp_hw.Booking.Update.{IsBookable, IsSmallCommand, plus}
use sp_hw.Booking.Update.Verdict.{judge_iff, judge_overflow}
use sp_hw.Booking.Update.Books.{IsBookableRecord, AllBookable, serve_write_books}
use sp_hw.Booking.Update.Rounds.{IsSmallEvent, round-Bookable}

abbrev triple : ℕ → ℕ → ℕ → Triple
triple a b c = record { food = pos a; concert = pos b; electronics = pos c }

abbrev stored : Record
stored = record { id = pos 902001; booking_state = triple 1 2 3 }

abbrev start_system : System
start_system = record {
  kernel = record { file = stored ∷ []; locks = λ p i. none };
  servers = λ p. init_server 6 stored (triple 0 0 0);
}

-- Two write servers.
abbrev writers : ℕ → Build
writers p = Build.writer

start_reached : Reach 6 2 writers start_system
start_reached = begin start_system (start (stored ∷ []) (λ p. stored) (λ p. triple 0 0 0))

abbrev first_outcome : Outcome
first_outcome = accept 3 (start_system.servers 0) start_system.kernel

abbrev after : System → ℕ → Outcome → System
after y p o = record { kernel = o.1; servers = update y.servers p o.0 }

connects_run :
    round Build.writer 2 0 (start_system.servers 0) start_system.kernel (connects 3)
    ≡ some first_outcome
unfolding round
connects_run = refl

abbrev connected : System
connected = after start_system 0 first_outcome

connected_reached : Reach 6 2 writers connected
connected_reached =
    next start_system connected start_reached
      (act 0 (connects 3) first_outcome (omega arith) connects_run)

abbrev id_line : Event
id_line = readable (λ fd. fd == 3) (received (codes "902001\r\n"))

abbrev second_outcome : Outcome
second_outcome = elim (round Build.writer 2 0 (connected.servers 0) connected.kernel id_line) [
  | none ↦ first_outcome
  | some o ↦ o
]

id_run : round Build.writer 2 0 (connected.servers 0) connected.kernel id_line ≡ some second_outcome
unfolding round accept init_server sp_hw.Booking.Server.Handlers.first_ready
    sp_hw.Booking.Server.Handlers.handle sp_hw.Booking.Server.Handlers.dispatch
    sp_hw.Booking.Server.Handlers.enter_id sp_hw.Booking.Server.Handlers.admit
    sp_hw.Booking.Server.Handlers.admit_write sp_hw.Booking.Connection.handle_read
    sp_hw.Booking.Connection.valid_id sp_hw.Booking.Connection.in_range
    sp_hw.Booking.Kernel.lock_reg sp_hw.Booking.Kernel.conflict sp_hw.Booking.Kernel.blocks
    sp_hw.Booking.Kernel.read_record sp_hw.Base.Decimal.atoi sp_hw.Base.Decimal.scan_digits
    sp_hw.Base.Decimal.wrap32 ◌-ℤ◌
id_run = refl

abbrev served : System
served = after connected 0 second_outcome

served_reached : Reach 6 2 writers served
served_reached =
    next connected served connected_reached (act 0 id_line second_outcome (omega arith) id_run)

-- The client has entered its id.
abbrev client : Connection
client = record {
  conn_fd = pos 3;
  buf = codes "902001";
  buf_len = 6;
  id = pos 902001;
  wait_for_write = true;
}

client-IsServed : IsServed served 0 3 client
unfolding round accept init_server sp_hw.Booking.Server.Handlers.first_ready
    sp_hw.Booking.Server.Handlers.handle sp_hw.Booking.Server.Handlers.dispatch
    sp_hw.Booking.Server.Handlers.enter_id sp_hw.Booking.Server.Handlers.admit
    sp_hw.Booking.Server.Handlers.admit_write sp_hw.Booking.Connection.handle_read
    sp_hw.Booking.Connection.valid_id sp_hw.Booking.Connection.in_range
    sp_hw.Booking.Kernel.lock_reg sp_hw.Booking.Kernel.conflict sp_hw.Booking.Kernel.blocks
    sp_hw.Booking.Kernel.read_record sp_hw.Base.Decimal.atoi sp_hw.Base.Decimal.scan_digits
    sp_hw.Base.Decimal.wrap32 ◌-ℤ◌
client-IsServed = (refl, refl)

writer_alone_example : ◌≡◌ {A = ℕ} 0 0 × ◌≡◌ {A = ℕ} 3 3
writer_alone_example =
    writer_alone 6 2 writers served 0 0 3 3 client client served_reached (omega arith) (omega arith)
      refl client-IsServed client-IsServed refl

Reach-Safe_example : Safe 6 2 writers served
Reach-Safe_example = Reach-Safe 6 2 writers served served_reached

round-Kept_example :
    Kept Build.writer 2 0
      (length (connected.servers 0).requests)
      connected.kernel.locks
      second_outcome
round-Kept_example =
    round-Kept Build.writer 2 0 (connected.servers 0) connected.kernel id_line
      ((Reach-Safe 6 2 writers connected connected_reached).processes 0) id_run

parse_command_iff_example :
    (parse_command (codes "1 2 3") (triple 0 0 0) ≡ some (triple 1 2 3))
    ↔ (IsTriple32 (triple 1 2 3) × (codes "1 2 3" ≡ print_triple (triple 1 2 3)))
parse_command_iff_example =
    parse_command_iff (codes "1 2 3") (triple 0 0 0) (triple 1 2 3)
      (omega arith, omega arith, omega arith)

few-IsBookable : IsBookable (triple 1 2 3)
unfolding ◌+ℤ◌
few-IsBookable = (omega arith, omega arith, omega arith, ground arith)

-- Some more of each.
abbrev more : Triple
more = triple 1 1 1

more-IsSmallCommand : IsSmallCommand more
more-IsSmallCommand =
    ((omega arith, omega arith), (omega arith, omega arith), (omega arith, omega arith))

judge_iff_example :
    (judge (triple 1 2 3) more ≡ booked (triple 2 3 4))
    ↔ ((triple 2 3 4 ≡ plus (triple 1 2 3) more) × IsBookable (triple 2 3 4))
judge_iff_example = judge_iff (triple 1 2 3) more (triple 2 3 4) few-IsBookable more-IsSmallCommand

judge_overflow_example :
    (m : Triple) × IsTriple32 m
    × (judge (triple 1 2 3) m
        ≡ booked
            (record { food = pos (2 ^ 31 - 1); concert = pos (2 ^ 31 - 1); electronics = pos 2 }))
judge_overflow_example = judge_overflow (triple 1 2 3) few-IsBookable

-- The client with the text of `more` in its buffer.
abbrev commanding : Connection
commanding = record client { buf = print_triple more }

sums-IsBookable : IsBookable (plus (triple 1 2 3) more)
unfolding ◌+ℤ◌
sums-IsBookable = (omega arith, omega arith, omega arith, omega arith)

zeros : IsTriple32 (start_system.servers 0).junk
unfolding init_server
zeros = (omega arith, omega arith, omega arith)

temp_fits : IsBookableRecord (start_system.servers 0).temp
unfolding init_server
temp_fits = few-IsBookable

more-IsTriple32 : IsTriple32 more
more-IsTriple32 = (omega arith, omega arith, omega arith)

stored_at : get_elem? (stored ∷ []) (pos_part (slot_of (pos 902001)) - 1) ≡ some stored
unfolding ◌-ℤ◌
stored_at = refl

some-inj : {a b : Triple} → some a ≡ some b → a ≡ b
some-inj h = cc

commands :
    (m : Triple)
    → parse_command (print_triple more) (start_system.servers 0).junk ≡ some m
    → IsSmallCommand m
commands m h =
    let parsed =
      (parse_command_iff (print_triple more) (start_system.servers 0).junk more zeros).1
        (more-IsTriple32, refl) in
    subst IsSmallCommand (some-inj (sym parsed ∙ h)) more-IsSmallCommand

serve_write_books_example :
    ((serve_write 0 3 (start_system.servers 0) start_system.kernel commanding).1.file
      ≡ set
          (stored ∷ [])
          (pos_part (slot_of (pos 902001)) - 1)
          (record stored { booking_state = plus (triple 1 2 3) more }))
    × ((serve_write 0 3 (start_system.servers 0) start_system.kernel commanding).2
        ≡ updated (pos 902001) (plus (triple 1 2 3) more) ∷ [])
serve_write_books_example =
    serve_write_books 0 3 (start_system.servers 0) start_system.kernel commanding stored more zeros
      more-IsTriple32 refl stored_at few-IsBookable more-IsSmallCommand sums-IsBookable

-- A client that is served sends its command.
abbrev serving : Server
serving = store (start_system.servers 0) 3 client

abbrev command_line : Event
command_line = readable (λ fd. fd == 3) (received (codes "1 1 1\r\n"))

abbrev third_outcome : Outcome
third_outcome = elim (round Build.writer 2 0 serving start_system.kernel command_line) [
  | none ↦ first_outcome
  | some o ↦ o
]

command_run : round Build.writer 2 0 serving start_system.kernel command_line ≡ some third_outcome
unfolding round init_server sp_hw.Booking.Server.Handlers.first_ready
    sp_hw.Booking.Server.Handlers.handle sp_hw.Booking.Server.Handlers.dispatch
    sp_hw.Booking.Server.Handlers.serve sp_hw.Booking.Server.Handlers.serve_write
    sp_hw.Booking.Server.Handlers.modify sp_hw.Booking.Server.Handlers.conclude
    sp_hw.Booking.Server.Handlers.leave_write sp_hw.Booking.Server.Handlers.judge
    sp_hw.Booking.Server.Handlers.add_triple sp_hw.Booking.Server.Handlers.sum_triple
    sp_hw.Booking.Server.Handlers.has_negative sp_hw.Booking.Server.Handlers.end_connection
    sp_hw.Booking.Connection.handle_read sp_hw.Booking.Command.parse_command
    sp_hw.Booking.Command.scan_triple sp_hw.Booking.Command.same_text
    sp_hw.Booking.Command.print_triple sp_hw.Booking.Kernel.read_record
    sp_hw.Booking.Kernel.write_record sp_hw.Booking.Kernel.overwrite sp_hw.Booking.Kernel.unlock
    sp_hw.Base.Decimal.print_int sp_hw.Base.Decimal.digits_loop sp_hw.Base.Decimal.print_nat
    sp_hw.Base.Decimal.scan_digits sp_hw.Base.Decimal.scan_int sp_hw.Base.Decimal.scan_number
    sp_hw.Base.Decimal.skip_space sp_hw.Base.Decimal.wrap32 sp_hw.Base.Strings.strcmp ◌+ℤ◌ ◌-ℤ◌
command_run = refl

abbrev buf_of : ReadResult → List ℕ
buf_of (filled c) = c.buf
buf_of gone = []
buf_of exits = []

small_command : IsSmallEvent serving command_line
unfolding sp_hw.Booking.Connection.handle_read init_server print_triple sp_hw.Base.Decimal.print_int
    sp_hw.Base.Decimal.print_nat sp_hw.Base.Decimal.digits_loop
small_command fd c m e h =
    let same : print_triple more ≡ c.buf = ap buf_of e in
    commands m (subst (λ b. parse_command b zeros_junk ≡ some m) (sym same) h)
  where
    zeros_junk : Triple
    zeros_junk = serving.junk

round-Bookable_example : AllBookable third_outcome
round-Bookable_example =
    round-Bookable 2 0 serving start_system.kernel command_line third_outcome temp_fits
      (few-IsBookable, tt) small_command command_run
