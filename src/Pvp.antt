-- ===== src/Pvp.antt =====
-- pvp-championship: the tree of battles and its players.
pub mod Status
pub mod Player
pub mod Roster
pub mod Battle
pub mod Championship
pub mod Log
mod Tests
mod Runs
