-- ===== src/Booking/Kernel.antt =====
-- What the processes of csiebooking/server.c share: the file bookingRecord, and the record locks on it
-- that fcntl keeps for each process (lock_reg, unlock, setreadlock's and setwritelock's calls).
-- By the documentation of fcntl, F_SETLK is refused if another process holds a conflicting lock, and
-- replaces the caller's own lock; F_UNLCK takes the caller's lock away. A lock covers one record, so
-- the user id that its offset is computed from names it.
use sp_hw.Base.{
  ℕ, zero, suc, ◌-◌, Bool, true, false, not, ◌&&◌, ◌||◌, List, [], ◌∷◌, Option, none, some, ◌==◌,
  if◌then◌else◌, get_elem?,
}
use sp_hw.Base.Int.{ℤ, pos, pos_part}
use sp_hw.Booking.Command.{Triple}

-- `record`
pub record Record : Type 0 where
  pub id : ℤ
  pub booking_state : Triple

pub data LockKind : Type 0 where
  rdlck wrlck : LockKind

abbrev pub Locks : Type 0
Locks = ℕ → ℕ → Option LockKind

pub record Kernel : Type 0 where
  pub file : List Record
  pub locks : Locks

-- The array with `v` at `i`.
abbrev pub update {ℓ} : {A : Type ℓ} (array : ℕ → A) (i : ℕ) (v : A) → ℕ → A
update array i v = λ j. if i == j then v else array j

-- Whether a held lock stands against a wanted one.
unfoldable pub blocks : Option LockKind → LockKind → Bool
blocks none want = false
blocks (some LockKind.wrlck) want = true
blocks (some LockKind.rdlck) LockKind.wrlck = true
blocks (some LockKind.rdlck) LockKind.rdlck = false

-- Whether one of the first `n` processes other than `p` holds a lock that stands against it.
unfoldable pub conflict : ℕ → Locks → ℕ → ℕ → LockKind → Bool
conflict zero locks p key want = false
conflict (suc q) locks p key want =
    (not (q == p) && blocks (locks q key) want) || conflict q locks p key want

-- lock_reg with F_SETLK and F_RDLCK or F_WRLCK, among `n` processes: `none` for -1.
unfoldable pub lock_reg : ℕ → Kernel → ℕ → ℕ → LockKind → Option Kernel
lock_reg n k p key want =
    if conflict n k.locks p key want
    then none
    else some (record k { locks = update k.locks p (update (k.locks p) key (some want)) })

-- unlock
unfoldable pub unlock : Kernel → ℕ → ℕ → Kernel
unlock k p key = record k { locks = update k.locks p (update (k.locks p) key none) }

-- lseek to the record of a slot, counted from 1, and read: past the end `temp` stays as it is.
unfoldable pub read_record : Kernel → ℤ → Record → Record
read_record k slot temp = elim (get_elem? k.file (pos_part slot - 1)) [ none ↦ temp | some r ↦ r ]

-- A hole in a file reads as zeros.
abbrev pub zero_record : Record
zero_record = record {
  id = pos 0;
  booking_state = record { food = pos 0; concert = pos 0; electronics = pos 0 };
}

-- The records with `r` at an index, which may be past the end: then the file grows.
unfoldable pub overwrite : List Record → ℕ → Record → List Record
overwrite [] zero r = r ∷ []
overwrite [] (suc i) r = zero_record ∷ overwrite [] i r
overwrite (x ∷ file) zero r = r ∷ file
overwrite (x ∷ file) (suc i) r = x ∷ overwrite file i r

-- lseek and write.
unfoldable pub write_record : Kernel → ℤ → Record → Kernel
unfolding overwrite
write_record k slot r = record k { file = overwrite k.file (pos_part slot - 1) r }
