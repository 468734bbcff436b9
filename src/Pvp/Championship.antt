-- ===== src/Pvp/Championship.antt =====
-- pvp-championship: how the processes of battle.c and player.c are put together, by their tables.
-- Every process reads from one channel at a time and waits there, so what each battle comes to does
-- not depend on the order in which the processes run.
pub mod Arrivals
pub mod Ends
pub mod Parents
use sp_hw.Base.{
  ℕ, zero, suc, ◌+◌, ◌-◌, ◌*◌, Bool, List, [], ◌∷◌, Option, none, some, ◌==◌, leb, if◌then◌else◌,
  get_elem?,
}
use sp_hw.Base.Int.{ℤ, pos, negsuc, ltb_ℤ, eq_ℤ}
use sp_hw.Base.Decimal.{atoi}
use sp_hw.Base.Error.{◌>>=◌}
use sp_hw.Pvp.Status.{Status, entry}
use sp_hw.Pvp.Player.{fifo}
use sp_hw.Pvp.Roster.{real_status, line_of}
use sp_hw.Pvp.Battle.{Process, player, Outcome, champion, goes_on, battle}

abbrev pub battle_children : List (List ℕ)
battle_children =
    (b'B' ∷ [])
    ∷ (b'C' ∷ [])
    ∷ (b'D' ∷ [])
    ∷ (b'E' ∷ [])
    ∷ (b'F' ∷ [])
    ∷ (b'1' ∷ b'4' ∷ [])
    ∷ (b'G' ∷ [])
    ∷ (b'H' ∷ [])
    ∷ (b'I' ∷ [])
    ∷ (b'J' ∷ [])
    ∷ (b'K' ∷ [])
    ∷ (b'L' ∷ [])
    ∷ (b'0' ∷ [])
    ∷ (b'1' ∷ [])
    ∷ (b'2' ∷ [])
    ∷ (b'3' ∷ [])
    ∷ (b'4' ∷ [])
    ∷ (b'5' ∷ [])
    ∷ (b'6' ∷ [])
    ∷ (b'7' ∷ [])
    ∷ (b'M' ∷ [])
    ∷ (b'1' ∷ b'0' ∷ [])
    ∷ (b'N' ∷ [])
    ∷ (b'1' ∷ b'3' ∷ [])
    ∷ (b'8' ∷ [])
    ∷ (b'9' ∷ [])
    ∷ (b'1' ∷ b'1' ∷ [])
    ∷ (b'1' ∷ b'2' ∷ [])
    ∷ []

abbrev pub num_of_player : List ℕ
num_of_player = 0 ∷ 0 ∷ 1 ∷ 0 ∷ 0 ∷ 0 ∷ 2 ∷ 2 ∷ 2 ∷ 2 ∷ 1 ∷ 1 ∷ 2 ∷ 2 ∷ []

-- The program that a child executes, with its id as that program reads it from its arguments.
pub data Child : Type 0 where
  battle_child : ℕ → Child
  player_child : ℤ → Child

pub first_char : List ℕ → ℕ
first_char [] = 0
first_char (c ∷ cs) = c

unfoldable pub child : ℕ → ℕ → Option Child
unfolding first_char
child battle_id i = do
  players ← entry num_of_player battle_id
  name ← get_elem? battle_children (2 * battle_id - 130 + i)
  some (if leb (2 - players) i then player_child (atoi name) else battle_child (first_char name))

-- The names of the parents that the logs write.
abbrev pub battle_parent : List (List ℕ)
battle_parent =
    (b'-' ∷ b'1' ∷ [])
    ∷ (b'A' ∷ [])
    ∷ (b'A' ∷ [])
    ∷ (b'B' ∷ [])
    ∷ (b'B' ∷ [])
    ∷ (b'C' ∷ [])
    ∷ (b'D' ∷ [])
    ∷ (b'D' ∷ [])
    ∷ (b'E' ∷ [])
    ∷ (b'E' ∷ [])
    ∷ (b'F' ∷ [])
    ∷ (b'F' ∷ [])
    ∷ (b'K' ∷ [])
    ∷ (b'L' ∷ [])
    ∷ []

abbrev pub targetid : List ℕ
targetid = 6 ∷ 6 ∷ 7 ∷ 7 ∷ 8 ∷ 8 ∷ 9 ∷ 9 ∷ 12 ∷ 12 ∷ 10 ∷ 13 ∷ 13 ∷ 11 ∷ 2 ∷ []

-- The parent that a battle names, and the one that a player names, by their letters.
unfoldable pub parent_of : Child → Option ℕ
unfolding first_char
parent_of (battle_child id) = entry battle_parent id >>= λ name. some (first_char name)
parent_of (player_child (pos k)) = get_elem? targetid k >>= λ id. some (id + 65)
parent_of (player_child (negsuc k)) = none

-- What a player sends first, and the process that it is from there on.
abbrev pub starts : ℤ → Status → Status × Process
starts id s = (s, player (record { player_id = id; original_hp = s.hp }))

-- The battle whose loser writes to an agent, from the letter `id` on.
abbrev pub feeder : ℤ → ℕ → List ℤ → Option ℕ
feeder agent id [] = none
feeder agent id (k ∷ table) = if eq_ℤ agent k then some id else feeder agent (id + 1) table

abbrev pub winner_of : Outcome → Option (Status × Process)
winner_of (champion id) = none
winner_of (goes_on s c h) = some (s, c)

abbrev pub handed_over : Outcome → Option (ℤ × Status)
handed_over (champion id) = none
handed_over (goes_on s c h) = h

-- A child from its start to the message that its battle reads first, when the battles below are
-- known: an agent reads the fifo that the loser of its feeder writes to.
unfoldable pub entrant : List (List ℕ) → (ℕ → Option Outcome) → Child → Option (Status × Process)
entrant file fought (battle_child id) = fought id >>= winner_of
entrant file fought (player_child id) =
    if ltb_ℤ (pos 7) id
    then (feeder id 65 fifo >>= λ b.
        fought b >>= handed_over >>= λ message. some (starts id message.1))
    else (line_of file id >>= λ l. some (starts id (real_status id l)))

-- A battle with everything below it, to a depth.
unfoldable pub fought : ℕ → ℕ → List (List ℕ) → ℕ → Option Outcome
unfolding child entrant battle
fought zero fuel file id = none
fought (suc depth) fuel file id = do
  c0 ← child id 0
  c1 ← child id 1
  e0 ← entrant file (fought depth fuel file) c0
  e1 ← entrant file (fought depth fuel file) c1
  battle fuel id e0 e1

-- What the battle A prints; the deepest chain of battles that wait for each other has six.
unfoldable pub championship : ℕ → List (List ℕ) → Option ℤ
unfolding fought
championship fuel file =
    fought 6 fuel file 65 >>= λ o. elim o [ champion id ↦ some id | goes_on s c h ↦ none ]
