-- ===== src/Booking/Connection.antt =====
-- The connections of csiebooking/server.c: `request`, `init_request`, `handle_read` and the check of
-- the id. The client's address is only logged, and is left out.
use sp_hw.Base.{
  ℕ, Bool, true, false, not, ◌&&◌, ◌||◌, List, [], ◌∷◌, Option, none, some, ◌==◌, if◌then◌else◌,
  length,
}
use sp_hw.Base.Int.{ℤ, pos, negsuc, ◌-ℤ◌, ltb_ℤ}
use sp_hw.Base.Decimal.{is_digit, atoi}
use mathlib.Core.Option

-- `request`
pub record Connection : Type 0 where
  pub conn_fd : ℤ
  pub buf : List ℕ
  pub buf_len : ℕ
  pub id : ℤ
  pub wait_for_write : Bool

-- init_request, which free_request calls
unfoldable pub init_request : Connection → Connection
init_request req = record req {
  conn_fd = negsuc 0;
  buf_len = 0;
  id = pos 0;
  wait_for_write = false;
}

-- What `read` on the connection returns: some bytes, the end of the stream, or an error.
pub data Input : Type 0 where
  received : List ℕ → Input
  end_of_file failed : Input

-- The bytes that the C library sees: those in front of the first zero.
unfoldable pub c_string : List ℕ → List ℕ
c_string [] = []
c_string (c ∷ cs) = if c == 0 then [] else c ∷ c_string cs

starts_lf : List ℕ → Bool
starts_lf [] = false
starts_lf (c ∷ cs) = c == 10

-- What stands in front of the first "\r\n".
unfoldable pub before_crlf : List ℕ → Option (List ℕ)
unfolding starts_lf
before_crlf [] = none
before_crlf (c ∷ cs) =
    let rest = Option.map (λ l. c ∷ l) (before_crlf cs) in
    if c == 13 && starts_lf cs then some [] else rest

-- What stands in front of the first "\n".
unfoldable pub before_lf : List ℕ → Option (List ℕ)
before_lf [] = none
before_lf (c ∷ cs) =
    let rest = Option.map (λ l. c ∷ l) (before_lf cs) in if c == 10 then some [] else rest

-- strncmp(buf, IAC_IP, 2) == 0
unfoldable pub is_interrupt : List ℕ → Bool
is_interrupt (a ∷ b ∷ cs) = (a == 0xff) && (b == 0xf4)
is_interrupt _ = false

-- The result of `handle_read`: 1 with the buffer filled, 0 or -1, or `ERR_EXIT`.
pub data ReadResult : Type 0 where
  filled : Connection → ReadResult
  gone : ReadResult
  exits : ReadResult

unfoldable pub keep_line : Connection → List ℕ → ReadResult
keep_line req line = filled (record req { buf = line; buf_len = length line })

unfoldable pub handle_text : Connection → List ℕ → ReadResult
unfolding keep_line before_crlf before_lf is_interrupt
handle_text req text = elim (before_crlf text) [
  | some line ↦ keep_line req line
  | none ↦ elim (before_lf text) [
    | some line ↦ keep_line req line
    | none ↦ if is_interrupt text then gone else exits
  ]
]

-- `read` that returns no byte is the end of the stream.
unfoldable pub handle_read : Connection → Input → ReadResult
unfolding handle_text c_string
handle_read req (received []) = gone
handle_read req (received (b ∷ bs)) = handle_text req (c_string (b ∷ bs))
handle_read req end_of_file = gone
handle_read req failed = gone

-- The loop over `buf` that sets `valid`.
unfoldable pub all_digits : List ℕ → Bool
all_digits [] = true
all_digits (c ∷ cs) = if is_digit c then all_digits cs else false

abbrev pub base_id : ℤ
base_id = pos 902000

-- The index of a user's record, from 1.
abbrev pub slot_of : ℤ → ℤ
slot_of id = id -ℤ base_id

unfoldable pub in_range : ℤ → Bool
in_range slot = not (ltb_ℤ slot (pos 1) || ltb_ℤ (pos 20) slot)

-- `valid` as it stands behind both checks.
unfoldable pub valid_id : List ℕ → Bool
unfolding all_digits in_range
valid_id buf = if all_digits buf then in_range (slot_of (atoi buf)) else false
