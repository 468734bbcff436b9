-- ===== src/Booking/Locks.antt =====
-- What ties the connections of a process of csiebooking/server.c to its lock arrays and to the locks
-- that the kernel keeps for it.
pub mod Count
pub mod Moves
pub mod Keep
pub mod Handle
pub mod Rounds
use sp_hw.Base.{
  ℕ, zero, suc, ◌+◌, ◌≡◌, ◌≤◌, Bool, true, false, List, [], ◌∷◌, Option, none, some, ◌==◌,
  if◌then◌else◌, All,
}
use sp_hw.Base.Int.{ℤ, pos}
use sp_hw.Booking.Connection.{Connection}
use sp_hw.Booking.Kernel.{LockKind}
use sp_hw.Booking.Server.Handlers.{Server, Build, slot}

-- One for a client that has entered the id of slot `i` and is served.
abbrev pub weight : ℕ → Connection → ℕ
weight i c = if c.wait_for_write then (if slot c == i then 1 else 0) else 0

unfoldable pub count : ℕ → List Connection → ℕ
count i [] = 0
count i (c ∷ cs) = weight i c + count i cs

-- A client that is served has one of the twenty ids.
abbrev pub IsUser : Connection → Type 0
IsUser c = c.wait_for_write ≡ true → (c.id ≡ pos (902000 + slot c)) × (1 ≤ slot c) × (slot c ≤ 20)

-- The lock that goes with a number of clients.
abbrev pub held : LockKind → ℕ → Option LockKind
held kind zero = none
held kind (suc n) = some kind

abbrev pub kind_of : Build → LockKind
kind_of Build.reader = LockKind.rdlck
kind_of Build.writer = LockKind.wrlck

-- The entry of the process's own lock array says how many clients are served.
abbrev pub Tally : Build → List Connection → (ℕ → Bool) → (ℕ → ℤ) → ℕ → Type 0
Tally Build.reader requests writelock readlock i = readlock i ≡ pos (count i requests)
Tally Build.writer requests writelock readlock i = count i requests ≡ (if writelock i then 1 else 0)

-- The last parameter is the row of the kernel's table that belongs to the process.
pub record Inv (build : Build) (requests : List Connection) (writelock : ℕ → Bool)
    (readlock : ℕ → ℤ) (locks : ℕ → Option LockKind) : Type 0 where
  pub users : All IsUser requests
  pub tally : (i : ℕ) → Tally build requests writelock readlock i
  pub held_for : (i : ℕ) → locks (902000 + i) ≡ held (kind_of build) (count i requests)

abbrev pub ServerInv : Build → Server → (ℕ → Option LockKind) → Type 0
ServerInv build s locks = Inv build s.requests s.writelock s.readlock locks
