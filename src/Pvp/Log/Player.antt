-- ===== src/Pvp/Log/Player.antt =====
-- pvp-championship/player.c: what a player logs. `pid` gives the process id of the process with a name.
use sp_hw.Base.{ℕ, Bool, true, false, List, [], ◌∷◌, ◌++◌, Option, none, some, if◌then◌else◌}
use sp_hw.Base.Int.{ℤ, negsuc, pos, ltb_ℤ}
use sp_hw.Base.Decimal.{print_int}
use sp_hw.Base.Error.{◌>>=◌}
use sp_hw.Pvp.Status.{Status}
use sp_hw.Pvp.Player.{Player, Reply, answers, exits, hear}
use sp_hw.Pvp.Championship.{player_child, parent_of}
use sp_hw.Pvp.Log.{Way, reads, writes, pipe_entry, fifo_entry, Logged, log_player}

abbrev pub piped : Way → ℤ → ℕ → ℕ → ℕ → Status → Logged
piped way player_id own_pid target target_pid s = record {
  file = log_player s;
  line = pipe_entry way (print_int player_id) own_pid (target ∷ []) target_pid s;
}

-- A line about a message through the pipe; `none` for a player that targetid has no parent for.
unfoldable pub pipe_line : Way → ℤ → ℕ → ℕ → Status → Option (List Logged)
pipe_line way player_id own_pid target_pid s = parent_of (player_child player_id) >>= λ target.
    some (piped way player_id own_pid target target_pid s ∷ [])

abbrev pub fifo_line : Way → ℤ → ℕ → ℤ → Status → List Logged
fifo_line way player_id own_pid target_id s =
    record { file = log_player s; line = fifo_entry way player_id own_pid target_id s } ∷ []

-- With the status that has been read.
unfoldable pub read_status : Bool → Bool → ℤ → ℕ → ℕ → Status → Option (List Logged)
unfolding pipe_line
read_status pipe from player_id own_pid target_pid s =
    if pipe
    then (if from then pipe_line reads player_id own_pid target_pid s else some [])
    else (if from then some (fifo_line reads player_id own_pid s.real_player_id s) else some [])

unfoldable pub write_status : Bool → Bool → ℤ → ℕ → ℤ → ℕ → Status → Option (List Logged)
unfolding pipe_line
write_status pipe from player_id own_pid target_id target_pid s =
    if pipe
    then (if from then some [] else pipe_line writes player_id own_pid target_pid s)
    else (if from then some [] else some (fifo_line writes player_id own_pid target_id s))

module _ (pid : List ℕ → ℕ) where
  -- What the player writes with a reply to the battle `parent`.
  unfoldable pub reply_log : ℕ → Player → Reply → Option (List Logged)
  unfolding write_status
  reply_log parent p (answers a) =
      write_status true false p.player_id (pid (print_int p.player_id)) (negsuc 0)
        (pid (parent ∷ [])) a
  reply_log parent p (exits none) = some []
  reply_log parent p (exits (some (k, message))) =
      write_status false false p.player_id (pid (print_int p.player_id)) k (pid (parent ∷ []))
        message

  -- A turn of the two loops, with what it logs.
  unfoldable pub hear_log : ℕ → Player → Status → Option (Reply × List Logged)
  unfolding read_status reply_log
  hear_log parent p s = do
    heard ← read_status true true p.player_id (pid (print_int p.player_id)) (pid (parent ∷ [])) s
    r ← hear p s
    answered ← reply_log parent p r
    some (r, heard ++ answered)

  -- What a player logs up to its first message to the battle: an agent has read the fifo.
  unfoldable pub opening_log : ℕ → ℤ → Status → Option (List Logged)
  unfolding read_status write_status
  opening_log parent player_id s = do
    handed ←
        (if ltb_ℤ (pos 7) player_id
          then read_status false true player_id (pid (print_int player_id)) 0 s
          else some [])
    sent ←
        write_status true false player_id (pid (print_int player_id)) (negsuc 0) (pid (parent ∷ []))
          s
    some (handed ++ sent)
