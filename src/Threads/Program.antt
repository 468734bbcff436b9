-- ===== src/Threads/Program.antt =====
-- The threads of thread-library together: each turn is what the running thread does up to the end of a
-- round or to a jump into the scheduler (threads.c, threadtools.h, main.c). The environment is given
-- turn by turn: whether a signal is pending at the end of the round, and what select reports.
pub mod Alone
pub mod Progress
pub mod Steps
pub mod Run
pub mod Prints
use sp_hw.Base.{
  ℕ, zero, suc, ◌+◌, Bool, true, false, ◌&&◌, not, List, [], ◌∷◌, ◌++◌, Option, none, some, ◌==◌,
  if◌then◌else◌, length, take, drop,
}
use sp_hw.Base.Int.{ℤ, pos, eq_ℤ}
use sp_hw.Base.Decimal.{atoi}
use sp_hw.Base.Error.{◌>>=◌}
use sp_hw.Threads.Subarray.{Saved, subarray_round}
use sp_hw.Threads.Fibonacci.{fibonacci_round}
use sp_hw.Threads.Collatz.{collatz_round}
use sp_hw.Threads.Scheduler.{Queues, Jump, Next, returns, runs, deref, schedule}
use sp_hw.Threads.Start.{Thread, start}

-- What a tcb holds while its thread runs; `reads` is what the reads from its fifo return, one after
-- the other.
pub record Tcb : Type 0 where
  pub arg : ℤ
  pub saved : Saved
  pub buf : List ℕ
  pub reads : List (List ℕ)

-- A round up to its end: the tcb with the next `i`, the number printed, and whether the thread exits.
pub record Round : Type 0 where
  pub after : Tcb
  pub value : ℤ
  pub over : Bool

-- read(fd, buf, count), over what the buffer held before; `none` where no more is given.
unfoldable pub read_into : ℕ → Tcb → Option Tcb
read_into count t = elim t.reads [
  | [] ↦ none
  | text ∷ rest ↦
      some
        (record t { buf = take count text ++ drop (length (take count text)) t.buf; reads = rest })
]

abbrev pub next_i : Saved → Saved
next_i s = record s { i = s.i + 1 }

unfoldable pub fibonacci_turn : Tcb → Round
fibonacci_turn t =
    let s = fibonacci_round t.saved in
    record { after = record t { saved = next_i s }; value = s.y; over = eq_ℤ (pos s.i) t.arg }

unfoldable pub collatz_turn : Tcb → Round
collatz_turn t =
    let arg = collatz_round t.arg in
    record {
      after = record t { arg = arg; saved = next_i t.saved };
      value = arg;
      over = eq_ℤ arg (pos 1);
    }

-- The round behind its read.
unfoldable pub subarray_turn : Tcb → Round
subarray_turn t =
    let s = subarray_round t.saved (atoi t.buf) in
    record { after = record t { saved = next_i s }; value = s.x; over = eq_ℤ (pos s.i) t.arg }

-- A round of the thread with an id, its read included.
unfoldable pub thread_round : ℕ → Tcb → Option Round
unfolding read_into fibonacci_turn collatz_turn subarray_turn
thread_round id t =
    if id == 0
    then some (fibonacci_turn t)
    else if id == 1
    then some (collatz_turn t)
    else (read_into 5 t >>= λ t'. some (subarray_turn t'))

-- The queues, the tcbs by their ids, which threads have jumped out of async_read and are to read, and
-- the lines printed: an id and a number each.
pub record World : Type 0 where
  pub queues : Queues Thread
  pub tcbs : ℕ → Tcb
  pub in_read : ℕ → Bool
  pub printed : List (ℕ × ℤ)

pub record Tick : Type 0 where
  pub pending : Bool
  pub is_set : Thread → Bool
  pub polls : List (Thread → Bool)

pub data Step : Type 0 where
  finished : List (ℕ × ℤ) → Step
  goes_on : World → Step

abbrev pub update {ℓ} : {A : Type ℓ} → (ℕ → A) → ℕ → A → ℕ → A
update f k v j = if j == k then v else f j

-- What a result of the scheduler makes of the world.
abbrev pub land : World → Next Thread → Step
land w returns = finished w.printed
land w (runs t q) = goes_on (record w { queues = q })

unfoldable pub jump_to : Jump → Tick → World → Option Step
jump_to jump k w = schedule jump k.is_set k.polls w.queues >>= λ next. some (land w next)

-- Whether the thread stands in front of its read, and has not jumped yet.
abbrev pub must_read : World → Thread → Bool
must_read w t = (t.id == 2) && not (w.in_read t.id)

-- The world behind a round, and the end of the round: thread_exit, or thread_yield, where a signal
-- that is pending is delivered.
abbrev pub printed_round : World → ℕ → Round → World
printed_round w id r = record w {
  tcbs = update w.tcbs id r.after;
  in_read = update w.in_read id false;
  printed = w.printed ++ (id, r.value) ∷ [];
}

unfoldable pub end_round : Tick → World → ℕ → Round → Option Step
unfolding jump_to
end_round k w id r =
    if r.over
    then jump_to Jump.exits k (printed_round w id r)
    else if k.pending
    then jump_to Jump.signal k (printed_round w id r)
    else some (goes_on (printed_round w id r))

unfoldable pub turn : Tick → World → Option Step
unfolding jump_to end_round thread_round
turn k w = deref w.queues.ready w.queues.rq_current >>= λ t.
    if must_read w t
    then jump_to Jump.reads k (record w { in_read = update w.in_read t.id true })
    else (thread_round t.id (w.tcbs t.id) >>= end_round k w t.id)

-- The turns up to the return of `scheduler`: what has been printed; `none` also while the turns given
-- are not enough.
unfoldable pub run : List Tick → World → Option (List (ℕ × ℤ))
unfolding turn
run [] w = none
run (k ∷ ticks) w =
    turn k w >>= λ step. elim step [ finished printed ↦ some printed | goes_on w' ↦ run ticks w' ]

-- The tcb of a thread that has not run: its variables and its buffer are what its memory held, and the
-- first thing that it does is to set `i` to 1.
abbrev pub new_tcb : Tcb → ℤ → Tcb
new_tcb memory arg = record memory { arg = arg; saved = record memory.saved { i = 1 } }

abbrev pub arg_of : ℤ → ℤ → ℤ → ℕ → ℤ
arg_of fib_arg col_arg sub_arg id =
    if id == 0 then fib_arg else if id == 1 then col_arg else sub_arg

-- The whole program, for its three arguments.
unfoldable pub program : List Tick → ℤ → ℤ → ℤ → (ℕ → Tcb) → Option (List (ℕ × ℤ))
unfolding run
program ticks fib_arg col_arg sub_arg memory = start fib_arg col_arg sub_arg >>= λ next. elim next [
  | returns ↦ some []
  | runs t q ↦ run ticks (record {
    queues = q;
    tcbs = λ id. new_tcb (memory id) (arg_of fib_arg col_arg sub_arg id);
    in_read = λ id. false;
    printed = [];
  })
]
