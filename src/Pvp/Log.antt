-- ===== src/Pvp/Log.antt =====
-- pvp-championship: the lines that battle.c and player.c append to their logs.
pub mod Player
pub mod Battle
pub mod Names
pub mod Same
pub mod Tally
pub mod Children
pub mod Closing
pub mod Balance
pub mod Tree
pub mod Whole
use sp_hw.Base.{ℕ, List, [], ◌∷◌, ◌++◌}
use sp_hw.Base.Int.{ℤ, pos}
use sp_hw.Base.Decimal.{print_int}
use sp_hw.Base.Text.{codes}
use sp_hw.Pvp.Status.{Status}

pub data Way : Type 0 where
  reads writes : Way

-- A line about a message through a pipe: who writes the line and its pid, the other end as the line
-- names it and that one's pid, and the status. A line about a fifo names a player's id for each end.
pub data LogLine : Type 0 where
  pipe_entry : Way → List ℕ → ℕ → List ℕ → ℕ → Status → LogLine
  fifo_entry : Way → ℤ → ℕ → ℤ → Status → LogLine

-- A line in its file.
pub record Logged : Type 0 where
  pub file : List ℕ
  pub line : LogLine

abbrev pub word_of : Way → List ℕ
word_of reads = codes "from "
word_of writes = codes "to "

-- What fprintf writes.
unfoldable pub print_entry : LogLine → List ℕ
print_entry (pipe_entry way self self_pid target target_pid s) =
    self
    ++ codes ","
    ++ print_int (pos self_pid)
    ++ codes " pipe "
    ++ word_of way
    ++ target
    ++ codes ","
    ++ print_int (pos target_pid)
    ++ codes " "
    ++ print_int s.real_player_id
    ++ codes ","
    ++ print_int s.hp
    ++ codes ","
    ++ (s.current_battle_id ∷ codes ",")
    ++ print_int s.battle_ended_flag
    ++ (10 ∷ [])
print_entry (fifo_entry way player_id pid target_id s) =
    print_int player_id
    ++ codes ","
    ++ print_int (pos pid)
    ++ codes " fifo "
    ++ word_of way
    ++ print_int target_id
    ++ codes " "
    ++ print_int s.real_player_id
    ++ codes ","
    ++ print_int s.hp
    ++ (10 ∷ [])

abbrev pub log_battle : ℕ → List ℕ
log_battle battle_id = codes "log_battle" ++ battle_id ∷ codes ".txt"

abbrev pub log_player : Status → List ℕ
log_player s = codes "log_player" ++ print_int s.real_player_id ++ codes ".txt"
