-- ===== src/Booking/Locks/Keep.antt =====
-- Every handler keeps the invariant of its process and changes at most one entry of its own row of
-- the kernel's table.
use sp_hw.Base.{
  ℕ, ◌+◌, ◌≡◌, ◌≤◌, refl, ap, inl, inr, true, false, List, [], ◌∷◌, none, some, arith, Bool-cases,
  Option-cases, length, length-set, get_elem?,
}
use sp_hw.Base.Int.{ℤ, pos, pos_part, ◌-ℤ◌, eq_ℤ}
use sp_hw.Base.Decimal.{atoi}
use mathlib.Core.Option.{none-ne-some}
use sp_hw.Booking.Connection.{
  Connection, init_request, Input, received, end_of_file, failed, filled, handle_read, slot_of,
  in_range, valid_id,
}
use sp_hw.Booking.Kernel.{LockKind, Locks, Kernel, update, conflict, lock_reg, unlock}
use sp_hw.Booking.Server.Replies.{Reply}
use sp_hw.Booking.Server.Handlers.{
  Server, Build, Outcome, connection, end_connection, slot, key, admit_read, admit_write, admit,
  leave_read, leave_write,
}
use sp_hw.Booking.Locks.{ServerInv}
use sp_hw.Booking.Locks.Moves.{
  Inv-keep, Inv-enter_read, Inv-enter_write, Inv-leave_read, Inv-leave_write,
}

-- What process `p` may do to the table: nothing, take a lock that no other process stands against,
-- or give one back.
pub data LocksStep (n p : ℕ) (l : Locks) : Locks → Type 0 where
  stay : LocksStep n p l l
  take :
      (k : ℕ) (kind : LockKind)
      → conflict n l p k kind ≡ false
      → LocksStep n p l (update l p (update (l p) k (some kind)))
  drop : (k : ℕ) → LocksStep n p l (update l p (update (l p) k none))

pub update_self {ℓ} : {A : Type ℓ} (f : ℕ → A) (i : ℕ) (v : A) → update f i v i ≡ v
update_self f i v = ground arith

-- The outcome keeps the invariant and the size of the table of connections.
pub record Kept (build : Build) (n p size : ℕ) (l : Locks) (o : Outcome) : Type 0 where
  pub inv : ServerInv build o.0 (o.1.locks p)
  pub step : LocksStep n p l o.1.locks
  pub sized : length o.0.requests ≡ size

-- A client with one of the twenty ids.
abbrev pub IsNumbered : Connection → Type 0
IsNumbered c = (c.id ≡ pos (902000 + slot c)) × (1 ≤ slot c) × (slot c ≤ 20)

in_range_slot :
    (id : ℤ)
    → in_range (slot_of id) ≡ true
    → (id ≡ pos (902000 + pos_part (slot_of id)))
      × (1 ≤ pos_part (slot_of id))
      × (pos_part (slot_of id) ≤ 20)
unfolding in_range ◌-ℤ◌
in_range_slot id h = ground arith

pub valid_id_slot :
    (c : Connection) → valid_id c.buf ≡ true → IsNumbered (record c { id = atoi c.buf })
unfolding valid_id
valid_id_slot c h = in_range_slot (atoi c.buf) (ground arith)

key-slot : (c : Connection) → IsNumbered c → key c ≡ 902000 + slot c
key-slot c h = ap pos_part h.0

pub handle_read-filled :
    (c : Connection) (input : Input) {c' : Connection}
    → handle_read c input ≡ filled c'
    → (c'.id ≡ c.id) × (c'.wait_for_write ≡ c.wait_for_write)
unfolding handle_read
handle_read-filled c (received []) h = ground arith
handle_read-filled c (received (b ∷ bs)) h = ground arith
handle_read-filled c end_of_file h = ground arith
handle_read-filled c failed h = ground arith

module _ (n p fd : ℕ) (s : Server) (k : Kernel) (c : Connection)
    (at : get_elem? s.requests fd ≡ some c) where
  -- A client that is not served is let go.
  pub end_connection-Kept :
      (build : Build) (said : List Reply)
      → c.wait_for_write ≡ false
      → ServerInv build s (k.locks p)
      → Kept build n p (length s.requests) k.locks (end_connection s fd, k, said)
  unfolding end_connection init_request
  end_connection-Kept build said off v = record {
    inv =
        Inv-keep s.writelock s.readlock (k.locks p) s.requests fd c _ at build v (λ h. cc)
          (λ i. rw off);
    step = stay;
    sized = length-set s.requests fd _;
  }

  pub leave_read-Kept :
      c.wait_for_write ≡ true
      → IsNumbered c
      → ServerInv Build.reader s (k.locks p)
      → Kept Build.reader n p (length s.requests) k.locks (leave_read p fd s k c)
  unfolding leave_read end_connection unlock init_request
  leave_read-Kept on num v =
      let moved =
        Inv-leave_read s.writelock s.readlock (k.locks p) s.requests fd c left at on refl v in
      elim (Bool-cases (eq_ℤ (s.readlock (slot c) -ℤ pos 1) (pos 0))) [
        | inl e ↦
            let moved' = rw e at moved in
            rw e (record {
              inv = rw (update_self k.locks p _, key-slot c num) moved';
              step = drop (key c);
              sized = length-set s.requests fd left;
            })
        | inr e ↦
            let moved' = rw e at moved in
            rw e (record { inv = moved'; step = stay; sized = length-set s.requests fd left })
      ]
    where
      left : Connection
      left = init_request (connection s fd)

  pub leave_write-Kept :
      (said : List Reply)
      → c.wait_for_write ≡ true
      → IsNumbered c
      → ServerInv Build.writer s (k.locks p)
      → Kept Build.writer n p (length s.requests) k.locks (leave_write p fd s k c said)
  unfolding leave_write end_connection unlock init_request
  leave_write-Kept said on num v = record {
    inv =
        rw (update_self k.locks p _, key-slot c num)
          (Inv-leave_write s.writelock s.readlock (k.locks p) s.requests fd c _ at on refl v);
    step = drop (key c);
    sized = length-set s.requests fd _;
  }

lock_reg-some :
    (n p x : ℕ) (k k' : Kernel) (kind : LockKind)
    → lock_reg n k p x kind ≡ some k'
    → (conflict n k.locks p x kind ≡ false)
      × (k' ≡ record k { locks = update k.locks p (update (k.locks p) x (some kind)) })
unfolding lock_reg
lock_reg-some n p x k k' kind h = elim (Bool-cases (conflict n k.locks p x kind)) [
  | inl e ↦ absurd (none-ne-some k' (rw e at h))
  | inr e ↦ (e, some-inj' (rw e at h))
]
  where
    some-inj' : {a b : Kernel} → some a ≡ some b → b ≡ a
    some-inj' q = cc

module _ (n p fd : ℕ) (s : Server) (k : Kernel) (c : Connection)
    (at : get_elem? s.requests fd ≡ some c) where
  pub admit-Kept :
      (build : Build)
      → c.wait_for_write ≡ false
      → IsNumbered c
      → ServerInv build s (k.locks p)
      → Kept build n p (length s.requests) k.locks (admit build n p fd s k c)
  unfolding admit admit_read admit_write
  admit-Kept Build.reader off num v = elim (Option-cases (lock_reg n k p (key c) LockKind.rdlck)) [
    | inl e ↦ rw (e, admit_read) (end_connection-Kept n p fd s k c at Build.reader _ off v)
    | inr (k', e) ↦
        let (free, same) = lock_reg-some n p (key c) k k' LockKind.rdlck e in
        rw (e, admit_read)
          (rw same (record {
            inv =
                rw (update_self k.locks p _, key-slot c num)
                  (Inv-enter_read s.writelock s.readlock (k.locks p) s.requests fd c
                    (record c { wait_for_write = true }) at off refl (λ h. num) v);
            step = take (key c) LockKind.rdlck free;
            sized = length-set s.requests fd _;
          }))
  ]
  admit-Kept Build.writer off num v = elim (Bool-cases (s.writelock (slot c))) [
    | inl busy ↦ rw (busy, admit_write) (end_connection-Kept n p fd s k c at Build.writer _ off v)
    | inr idle ↦ elim (Option-cases (lock_reg n k p (key c) LockKind.wrlck)) [
      | inl e ↦ rw (idle, e, admit_write) (end_connection-Kept n p fd s k c at Build.writer _ off v)
      | inr (k', e) ↦
          let (free, same) = lock_reg-some n p (key c) k k' LockKind.wrlck e in
          rw (idle, e, admit_write)
            (rw same (record {
              inv =
                  rw (update_self k.locks p _, key-slot c num)
                    (Inv-enter_write s.writelock s.readlock (k.locks p) s.requests fd c
                      (record c { wait_for_write = true }) at off refl (λ h. num) idle v);
              step = take (key c) LockKind.wrlck free;
              sized = length-set s.requests fd _;
            }))
    ]
  ]
