-- ===== src/Pvp/Log/Battle.antt =====
-- pvp-championship/battle.c: a battle with what it and the processes below it log. `pid` gives the
-- process id of the process with a name.
use sp_hw.Base.{
  ℕ, zero, suc, ◌+◌, ◌-◌, ◌*◌, Bool, true, false, List, [], ◌∷◌, ◌++◌, Option, none, some,
  if◌then◌else◌, get_elem?,
}
use sp_hw.Base.Int.{pos, eq_ℤ}
use sp_hw.Base.Error.{◌>>=◌}
use sp_hw.Pvp.Status.{Status, entry}
use sp_hw.Pvp.Player.{Player, Reply, answers, exits}
use sp_hw.Pvp.Battle.{
  Process, player, passing, relay, ending, both_answer, battle_attr, battle_round, Outcome,
  champion, goes_on, settle,
}
use sp_hw.Pvp.Championship.{battle_children, battle_parent}
use sp_hw.Pvp.Log.{reads, writes, pipe_entry, Logged, log_battle}
use sp_hw.Pvp.Log.Player.{hear_log}

-- A child of a battle with its place: a player with the battle that has forked it, or a battle with
-- the one that has forked it, its letter, which of its children has won it, and that child.
pub data Party : Type 0 where
  player_at : ℕ → Player → Party
  passing_at : ℕ → ℕ → Bool → Party → Party

abbrev pub process : Party → Process
process (player_at parent p) = player p
process (passing_at parent battle_id i c) = passing (process c)

abbrev pub child_name : ℕ → Bool → Option (List ℕ)
child_name battle_id i = get_elem? battle_children (2 * battle_id - 130 + (if i then 1 else 0))

-- Which child has won a battle, and what has been logged.
pub record Course : Type 0 where
  pub winner : Bool
  pub lines : List Logged

abbrev pub noted : List Logged → Course → Course
noted l w = record { winner = w.winner; lines = l ++ w.lines }

module _ (pid : List ℕ → ℕ) where
  -- With the status that has been read.
  abbrev pub read_status : ℕ → List ℕ → Status → Logged
  read_status battle_id target s = record {
    file = log_battle battle_id;
    line = pipe_entry reads (battle_id ∷ []) (pid (battle_id ∷ [])) target (pid target) s;
  }

  abbrev pub write_status : ℕ → List ℕ → Status → Logged
  write_status battle_id target s = record {
    file = log_battle battle_id;
    line = pipe_entry writes (battle_id ∷ []) (pid (battle_id ∷ [])) target (pid target) s;
  }

  -- What the passing mode logs behind the child's reply.
  abbrev pub relay_log : ℕ → List ℕ → List ℕ → Reply → List Logged
  relay_log battle_id name up (answers a) =
      read_status battle_id name a ∷ write_status battle_id up a ∷ []
  relay_log battle_id name up (exits h) = []

  unfoldable pub tell_log : Party → Status → Option (Reply × List Logged)
  unfolding hear_log
  tell_log (player_at parent p) s = hear_log pid parent p s
  tell_log (passing_at parent battle_id i c) s = do
    name ← child_name battle_id i
    up ← entry battle_parent battle_id
    (below, l) ← tell_log c s
    r ← relay s below
    some (
      r,
      (read_status battle_id up s ∷ write_status battle_id name s ∷ l)
          ++ relay_log battle_id name up r,
    )

  -- What a battle logs once it has ended: the winner's next status goes to the parent.
  unfoldable pub closing_log : ℕ → List ℕ → Outcome → Option (List Logged)
  closing_log battle_id name (champion k) = some []
  closing_log battle_id name (goes_on a c h) = entry battle_parent battle_id >>= λ up.
      some (read_status battle_id name a ∷ write_status battle_id up a ∷ [])

  -- The messages at the end of a turn, and what follows them up to the outcome.
  abbrev pub exchange_log :
      (Status × Status → Option (Outcome × Course))
      → ℕ
      → List ℕ
      → List ℕ
      → Party
      → Party
      → (Status × Status) × Bool
      → Option (Outcome × Course)
  exchange_log next battle_id n0 n1 c0 c1 (after, first) = do
    (r0, l0) ← tell_log c0 after.0
    (r1, l1) ← tell_log c1 after.1
    (o, w) ← elim (eq_ℤ after.0.battle_ended_flag (pos 0)) [
      | true ↦ do
        both ← both_answer r0 r1
        (o, w) ← next both
        some (o, noted (read_status battle_id n0 both.0 ∷ read_status battle_id n1 both.1 ∷ []) w)
      | false ↦ do
        o ← settle battle_id (ending first (process c0) (process c1) after r0 r1)
        l ← closing_log battle_id (if first then n1 else n0) o
        some (o, record { winner = first; lines = l })
    ]
    some (
      o,
      noted (write_status battle_id n0 after.0 ∷ write_status battle_id n1 after.1 ∷ (l0 ++ l1)) w,
    )

  unfoldable pub loop_log :
      ℕ → ℕ → ℕ → List ℕ → List ℕ → Party → Party → Status × Status → Option (Outcome × Course)
  unfolding battle_round tell_log closing_log settle
  loop_log zero battle_id attr n0 n1 c0 c1 both = none
  loop_log (suc fuel) battle_id attr n0 n1 c0 c1 both =
      let turn =
        exchange_log (loop_log fuel battle_id attr n0 n1 c0 c1) battle_id n0 n1 c0 c1
          (battle_round battle_id attr both) in
      if eq_ℤ both.0.battle_ended_flag (pos 0) then turn else none

  unfoldable pub battle_log : ℕ → ℕ → Status × Party → Status × Party → Option (Outcome × Course)
  unfolding loop_log
  battle_log fuel battle_id (s0, c0) (s1, c1) = do
    attr ← entry battle_attr battle_id
    n0 ← child_name battle_id false
    n1 ← child_name battle_id true
    (o, w) ← loop_log fuel battle_id attr n0 n1 c0 c1 (s0, s1)
    some (o, noted (read_status battle_id n0 s0 ∷ read_status battle_id n1 s1 ∷ []) w)
