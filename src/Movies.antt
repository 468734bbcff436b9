-- ===== src/Movies.antt =====
-- simple-movies-recommendation-system: lib.c, server.c and header.h.
pub mod Doubles
pub mod Entries
pub mod Sort
pub mod Merge
pub mod MergeSort
pub mod Request
pub mod Input
pub mod Main
mod Tests
mod Runs
