-- ===== src/Pvp/Runs.antt =====
-- Runs of pvp-championship with its logs.
use sp_hw.Base.{ℕ, ◌<◌, ◌+◌, ◌≡◌, refl, Bool, List, [], ◌∷◌, some}
use sp_hw.Base.Int.{ℤ, pos}
use sp_hw.Base.Decimal.{print_int}
use sp_hw.Base.Text.{codes}
use sp_hw.Pvp.Status.{Attribute, fire, Status}
use sp_hw.Pvp.Championship.{parent_of, championship}
use sp_hw.Pvp.Log.{reads, writes, pipe_entry, fifo_entry, print_entry, Logged}
use sp_hw.Pvp.Log.Player.{pipe_line, read_status, write_status, opening_log}
use sp_hw.Pvp.Log.Tally.{Message, written, was_read}
use sp_hw.Pvp.Log.Tree.{championship_log}
use sp_hw.Pvp.Log.Whole.{championship_log-balances}
use sp_hw.Pvp.Tests.{file, file-All}

abbrev status : ℤ → ℤ → ℤ → Attribute → ℕ → Status
status id hp atk attr battle_id = record {
  real_player_id = id;
  hp = hp;
  atk = atk;
  attr = attr;
  current_battle_id = battle_id;
  battle_ended_flag = pos 0;
}

abbrev pids : List ℕ → ℕ
pids (c ∷ cs) = 2000 + c
pids [] = 0

-- The line of the comment in battle.c.
line_from_battle :
    print_entry (
      pipe_entry reads (b'G' ∷ []) 1006 (b'0' ∷ []) 2000 (status (pos 0) (pos 3) (pos 2) fire b'G'))
    ≡ codes "G,1006 pipe from 0,2000 0,3,G,0\n"
unfolding print_entry print_int
line_from_battle = refl

-- The line of the comment in player.c.
line_from_fifo :
    print_entry (fifo_entry reads (pos 8) 2007 (pos 0) (status (pos 0) (pos 3) (pos 2) fire b'G'))
    ≡ codes "8,2007 fifo from 0 0,3\n"
unfolding print_entry print_int
line_from_fifo = refl

championship_log-balances_example :
    (n : ℕ) × (l : List Logged) × (n < 8)
    × (championship 12 file ≡ some (pos n))
    × (championship_log pids 12 file ≡ some (pos n, l))
    × ((test : Message → Bool) → written test l ≡ was_read test l)
championship_log-balances_example = championship_log-balances pids 12 file refl file-All

-- An agent of the battle M logs what it was handed, and what it sends on.
agent_opens :
    opening_log pids b'M' (pos 8) (status (pos 6) (pos 7) (pos 3) fire b'G')
    ≡ some (
        record {
          file = codes "log_player6.txt";
          line = fifo_entry reads (pos 8) 2056 (pos 6) (status (pos 6) (pos 7) (pos 3) fire b'G');
        }
        ∷ record {
          file = codes "log_player6.txt";
          line =
              pipe_entry writes
                (codes "8")
                2056
                (b'M' ∷ [])
                2077
                (status (pos 6) (pos 7) (pos 3) fire b'G');
        }
        ∷ [])
unfolding opening_log read_status write_status pipe_line parent_of print_int
agent_opens = refl
