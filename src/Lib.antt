-- ===== src/Lib.antt =====
-- Verification of the programs of this repository, a year's homework of a course in system programming.
--
-- The programs, each in a directory of its own:
--   simple-movies-recommendation-system   answers requests for movies: server.c filters the movies
--     by a keyword, scores them against the request's profile, and sorts them with a merge sort that
--     makes a thread or a process for a half; at the bottom it calls `sort` of lib.c, which also marks
--     every title with a text.
--   csiebooking   read and write servers of a file of twenty booking records (server.c, built twice):
--     each serves many clients through one loop over select, and the servers keep out of each
--     other's way with the record locks of fcntl.
--   thread-library   threads that switch in user space: their bodies (threads.c), and the scheduler, which
--     the signal handler, async_read and thread_exit jump into (scheduler.c, threadtools.h).
--   pvp-championship   a tournament of eight players in fourteen battles (battle.c, player.c), one process
--     for each battle and player, which talk over pipes; a real player that loses a battle other than
--     the last one hands its status to an agent over a fifo, and the agent plays on for it.
--
-- The files:
--   Base   what the parts share: tests on native numbers (Tests), lists (Lists), integers (Int), the
--     chaining of Option (Error), decimal numbers as printf and scanf treat them and the wrap of an
--     `int` (Decimal), words (Words) and tokens (Tokens) as scanf and strtok cut them, text literals
--     (Text), strcmp and strstr (Strings).
--   Movies/Doubles, Movies/Entries   the doubles, a parameter with the laws of IEEE 754 for numbers
--     other than NaN and negative zero, and the order of the answers.
--   Movies/Sort   simple-movies-recommendation-system/lib.c: sort, argmax, swap, add_secret under
--     their names; validate is the reading of the array in `sort`. Movies/Sort/Argmax and Laws.
--   Movies/Merge   server.c: merge, with its loops as merge_loop. Movies/Merge/Laws.
--   Movies/MergeSort   server.c: thread_merge_sort and process_merge_sort; addparameter is left_half
--     and right_half. Movies/MergeSort/Ranges, Laws and Agreement.
--   Movies/Request   server.c: filter, handle_request, and the PROCESS part of main as
--     process_request. Movies/Request/Laws.
--   Movies/Input   server.c: initialize and read_request, with their loops. What strtod returns is a
--     parameter. Movies/Input/Laws and Rows.
--   Movies/Main   server.c: main, as thread_main and process_main. Movies/Main/Laws.
--   Booking/Connection   csiebooking/server.c: request, init_request, handle_read and the check of
--     the id.
--   Booking/Command   the command of three integers: sscanf, sprintf and strcmp.
--   Booking/Kernel   the file of records and the locks that fcntl keeps (lock_reg, unlock).
--   Booking/Server   the replies (Replies) and the body of the loop in main (Handlers): `enter_id` is
--     the branch for a client without an id, `serve` the one for a client with one, `round` a turn of
--     the loop. READ_SERVER and WRITE_SERVER are the two values of `Build`.
--   Booking/Locks   the invariant that ties clients, lock arrays and locks (Count, Moves, Keep, Handle,
--     Rounds).
--   Booking/System   several servers at once, as a step relation (Exclusion, Safe, Mutual).
--   Booking/Update   the arithmetic of a command, what it does to the file, and the file over the rounds of
--     a write server (Verdict, Books, Rounds).
--   Threads/Fibonacci, Threads/Collatz, Threads/Subarray   thread-library/threads.c: the three bodies, a
--     function for a round, and one for the loop. The loops of fibonacci and collatz run on fuel, one
--     for each round, and the argument of fibonacci is enough; the one of max_subarray goes by the
--     numbers it reads.
--   Threads/Scheduler   thread-library/scheduler.c: `schedule` is the branch of scheduler for a jump into
--     it, `take_ready` the block that both calls of select share. A tcb is a value of any type.
--     Arrays, Wake and Switch say what the loops do to the two arrays, Plan is the promise on lists,
--     Refine, Keep, Fair, Turn and Lost hold the theorems. What select reports is given as tests, one for
--     each round of the wait for the last thread.
--   Threads/Start   thread-library/main.c: init_threads and start_threading, with thread_setup and the
--     first call of scheduler.
--   Threads/Program   the program of thread-library as a whole: `turn` is what the running thread does up
--     to the end of a round or to a jump into the scheduler, `program` the turns from main to the return of
--     scheduler. The turns come as a list, each with whether a signal is pending at its end and with what
--     select reports; twice as many as the threads have rounds are enough. Alone is a thread on its own,
--     Steps and Progress the invariant that one turn keeps, Run and Prints hold the theorems.
--   Pvp/Status, Pvp/Player, Pvp/Roster   pvp-championship/status.h and player.c: `hear` is a turn of the
--     two loops of main, `hand_over` what follows them, `parse_line` the sscanf of a line.
--   Pvp/Battle   battle.c: play_an_attack, the loop of main as battle_loop, the passing mode as `tell`.
--     Attack, Messages, Rounds and Fight hold what they do. A battle runs on fuel, one for each round, and as
--     many rounds as a player has HP are enough.
--   Pvp/Championship   the tables and the composition of the processes: `fought` runs a battle with
--     everything below it, to a depth of which six is enough. Each process waits for one channel at a
--     time, so the order in which they run does not matter. Arrivals, Ends and Parents hold the theorems.
--   Pvp/Log   the lines that read_Status and write_Status append to the logs, and in Player and Battle
--     the processes with their logs: `hear_log` is `hear`, `tell_log` is `tell` and `battle_log` is `battle`,
--     each with what it logs; Tree has the championship with all the logs. The pid of the process with
--     a name is a parameter. Names says that the tables agree, Same what a result is with and without its
--     log, and Tally, Children, Closing, Balance and Whole count the messages.
--   Movies/Tests, Movies/Runs, Booking/Tests, Threads/Tests, Threads/Runs, Pvp/Tests, Pvp/Runs   runs at
--     concrete inputs.
--
-- How state is written: an array is a list, an access outside of it or a failed assert is `none`,
-- and so is the exit of a process. The memcpys of the process build in server.c read MAX_LEN bytes
-- from blocks that are shorter, so whether the bytes behind a block can be read is up to the
-- `Schedule`: where they cannot the run is `none`, and where they can the copy is the same string.
-- The titles and scores that the program moves together are one list of rows. A thread or a child
-- works on a range that nothing else touches until it is joined, so its run is one call, made
-- before or after that of its parent as a `Schedule` says, which also says whether a thread was to
-- spare; the shared counter of threads is not modelled otherwise. The merge sorts run on fuel: each
-- call is one level deeper and MAX_DEPTH ends the recursion, so six levels are enough. Signals to
-- the movies' and the booking servers, a lost connection while writing and the failure of malloc,
-- open or write are left out.
--
-- Of csiebooking the set-up of the socket is left out, and setreadlock and setwritelock, which nothing
-- calls. A lock covers one record; the model names it by the user id that its offset is computed from.
-- Of thread-library the alarm, the printing of the handler and the opening of the fifos are left out. The
-- signals are blocked but for the end of a round, so a signal is a choice there; what the reads return
-- is given with the tcb.
-- Of pvp-championship the pipes, the fifos and the calls of fork and execl are left out. What the logs
-- hold is each process's lines in its order; how two processes mix in one file is not said.
pub mod Base
pub mod Movies
pub mod Booking
pub mod Threads
pub mod Pvp
