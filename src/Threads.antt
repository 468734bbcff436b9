-- ===== src/Threads.antt =====
-- The threads of thread-library.
pub mod Fibonacci
pub mod Collatz
pub mod Subarray
pub mod Scheduler
pub mod Start
pub mod Program
mod Tests
mod Runs
