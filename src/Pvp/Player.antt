-- ===== src/Pvp/Player.antt =====
-- pvp-championship/player.c: a player behind the pipe to its battle.
use sp_hw.Base.{Bool, ◌||◌, not, List, [], ◌∷◌, Option, none, some, ◌==◌, if◌then◌else◌}
use sp_hw.Base.Int.{ℤ, pos, negsuc, ◌+ℤ◌, ◌-ℤ◌, ltb_ℤ, eq_ℤ, half}
use sp_hw.Base.Decimal.{wrap32}
use sp_hw.Base.Error.{◌>>=◌}
use sp_hw.Pvp.Status.{Status, entry}

-- The agent that the loser of a battle writes to; the agents of -1 are not there.
abbrev pub fifo : List ℤ
fifo =
    negsuc 0 ∷ pos 14 ∷ negsuc 0 ∷ pos 10 ∷ pos 13 ∷ negsuc 0 ∷ pos 8 ∷ pos 11 ∷ pos 9 ∷ pos 12 ∷ []

-- What the process keeps; the status itself is read anew with each message.
pub record Player : Type 0 where
  pub player_id : ℤ
  pub original_hp : ℤ

-- What a process does with a message from its parent: it answers, and goes on as it is, or it exits
-- after it may have written a status to the fifo of an agent.
pub data Reply : Type 0 where
  answers : Status → Reply
  exits : Option (ℤ × Status) → Reply

-- player_id <= 7
abbrev pub is_real : Player → Bool
is_real p = ltb_ℤ p.player_id (pos 8)

-- HP <= 0
abbrev pub is_down : Status → Bool
is_down s = ltb_ℤ s.hp (pos 1)

unfoldable pub heal : Player → Status → ℤ
heal p s = wrap32 (half (wrap32 (p.original_hp -ℤ s.hp)) +ℤ s.hp)

-- What follows the loop.
unfoldable pub hand_over : Player → Status → Option Reply
hand_over p s =
    if (s.current_battle_id == 65) || not (is_real p)
    then some (exits none)
    else (entry fifo s.current_battle_id >>= λ k.
        some (exits (some (k, record s { hp = p.original_hp; battle_ended_flag = pos 0 }))))

-- A turn of the two loops.
unfoldable pub hear : Player → Status → Option Reply
unfolding heal hand_over
hear p s =
    if eq_ℤ s.battle_ended_flag (pos 1)
    then (if is_down s
        then hand_over p s
        else if s.current_battle_id == 65
        then some (exits none)
        else some (answers (record s { battle_ended_flag = pos 0; hp = heal p s })))
    else some (answers s)
