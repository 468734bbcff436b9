-- ===== src/Pvp/Log/Tree.antt =====
-- pvp-championship: the championship with everything that its processes log.
use sp_hw.Base.{ℕ, zero, suc, Bool, List, ◌++◌, Option, none, some, if◌then◌else◌}
use sp_hw.Base.Int.{ℤ}
use sp_hw.Base.Error.{◌>>=◌}
use sp_hw.Pvp.Status.{Status}
use sp_hw.Pvp.Battle.{Process, Outcome, champion, goes_on}
use sp_hw.Pvp.Championship.{Child, battle_child, player_child, child, winner_of, entrant, fought}
use sp_hw.Pvp.Log.{Logged}
use sp_hw.Pvp.Log.Player.{opening_log}
use sp_hw.Pvp.Log.Battle.{Party, player_at, passing_at, Course, battle_log}

-- What a battle leaves: which child has won and goes on, and the lines of the battle and of everything
-- below it.
pub record Journey : Type 0 where
  pub winner : Bool
  pub victor : Party
  pub lines : List Logged

-- A child with its first message, in its place, and the lines up to there.
pub record Arrival : Type 0 where
  pub party : Party
  pub lines : List Logged

-- The lines of the two children, then those of the battle.
abbrev pub journey : Arrival → Arrival → Course → Journey
journey a0 a1 w = record {
  winner = w.winner;
  victor = if w.winner then a1.party else a0.party;
  lines = (a0.lines ++ a1.lines) ++ w.lines;
}

abbrev pub arrived : ℕ → ℕ → Journey → Arrival
arrived parent id j = record { party = passing_at parent id j.winner j.victor; lines = j.lines }

abbrev pub seated : ℕ → ℤ → Status → List Logged → Arrival
seated parent id s l = record {
  party = player_at parent (record { player_id = id; original_hp = s.hp });
  lines = l;
}

module _ (pid : List ℕ → ℕ) where
  unfoldable pub entrant_log :
      List (List ℕ)
      → (ℕ → Option Outcome)
      → (ℕ → Option (Outcome × Journey))
      → ℕ
      → Child
      → Option ((Status × Process) × Arrival)
  unfolding entrant opening_log
  entrant_log file below below_log parent (battle_child id) = do
    (o, j) ← below_log id
    e ← winner_of o
    some (e, arrived parent id j)
  entrant_log file below below_log parent (player_child id) = do
    e ← entrant file below (player_child id)
    l ← opening_log pid parent id e.0
    some (e, seated parent id e.0 l)

  -- A battle with everything below it, to a depth.
  unfoldable pub fought_log : ℕ → ℕ → List (List ℕ) → ℕ → Option (Outcome × Journey)
  unfolding child entrant_log battle_log fought
  fought_log zero fuel file id = none
  fought_log (suc depth) fuel file id = do
    c0 ← child id 0
    c1 ← child id 1
    (e0, a0) ← entrant_log file (fought depth fuel file) (fought_log depth fuel file) id c0
    (e1, a1) ← entrant_log file (fought depth fuel file) (fought_log depth fuel file) id c1
    (o, w) ← battle_log pid fuel id (e0.0, a0.party) (e1.0, a1.party)
    some (o, journey a0 a1 w)

  -- What the battle A prints, and all the lines of the logs.
  unfoldable pub championship_log : ℕ → List (List ℕ) → Option (ℤ × List Logged)
  unfolding fought_log
  championship_log fuel file = fought_log 6 fuel file 65 >>= λ (o, j). elim o [
    | champion id ↦ some (id, j.lines)
    | goes_on s c h ↦ none
  ]
