-- ===== src/Booking/System.antt =====
-- The read and write servers of csiebooking/server.c that run at the same time on one file of
-- records: `n` processes that take turns, a round of the main loop each, in any order.
pub mod Exclusion
pub mod Safe
pub mod Mutual
use sp_hw.Base.{ℕ, ◌<◌, ◌≡◌, List, Option, none, some, length}
use sp_hw.Booking.Command.{Triple}
use sp_hw.Booking.Kernel.{Record, Kernel, update}
use sp_hw.Booking.Server.Handlers.{Server, Build, Outcome, Event, round, init_server}

pub record System : Type 0 where
  pub kernel : Kernel
  pub servers : ℕ → Server

-- The kernel takes the locks of a process that exits.
abbrev pub released : Kernel → ℕ → Kernel
released k p = record k { locks = update k.locks p (λ i. none) }

-- A process does a round, or it exits in a round and is started again, with any garbage in its
-- globals.
pub data Step (n : ℕ) (build : ℕ → Build) (y : System) : System → Type 0 where
  act :
      (p : ℕ) (event : Event) (o : Outcome)
      → p < n
      → round (build p) n p (y.servers p) y.kernel event ≡ some o
      → Step n build y (record { kernel = o.1; servers = update y.servers p o.0 })
  restart :
      (p : ℕ) (event : Event) (temp : Record) (junk : Triple)
      → p < n
      → round (build p) n p (y.servers p) y.kernel event ≡ none
      → Step n build y (record {
        kernel = released y.kernel p;
        servers = update y.servers p (init_server (length (y.servers p).requests) temp junk);
      })

-- The processes have just started on a file of records.
pub data Start (maxfd : ℕ) : System → Type 0 where
  start :
      (file : List Record) (temp : ℕ → Record) (junk : ℕ → Triple)
      → Start maxfd (record {
        kernel = record { file = file; locks = λ p i. none };
        servers = λ p. init_server maxfd (temp p) (junk p);
      })

pub data Reach (maxfd n : ℕ) (build : ℕ → Build) : System → Type 0 where
  begin : (y : System) → Start maxfd y → Reach maxfd n build y
  next : (y z : System) → Reach maxfd n build y → Step n build y z → Reach maxfd n build z
