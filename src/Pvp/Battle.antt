-- ===== src/Pvp/Battle.antt =====
-- pvp-championship/battle.c: a battle between its two children, and its passing mode behind it.
pub mod Attack
pub mod Messages
pub mod Rounds
pub mod Fight
use sp_hw.Base.{
  ℕ, zero, suc, Bool, true, false, ◌||◌, ◌&&◌, not, List, [], ◌∷◌, Option, none, some, ◌==◌,
  if◌then◌else◌,
}
use sp_hw.Base.Int.{ℤ, pos, ◌-ℤ◌, ◌*ℤ◌, ltb_ℤ, eq_ℤ}
use sp_hw.Base.Decimal.{wrap32}
use sp_hw.Base.Error.{◌>>=◌}
use sp_hw.Pvp.Status.{Status, number, entry}
use sp_hw.Pvp.Player.{Player, Reply, answers, exits, is_down, hear}

abbrev pub battle_attr : List ℕ
battle_attr = 0 ∷ 1 ∷ 2 ∷ 2 ∷ 0 ∷ 0 ∷ 0 ∷ 1 ∷ 2 ∷ 1 ∷ 1 ∷ 1 ∷ 0 ∷ 2 ∷ []

-- The attacker, its target, and whether the target is down.
unfoldable pub play_an_attack : Status → Status → ℕ → Status × Status × Bool
play_an_attack s t attr =
    let atk = if number s.attr == attr then wrap32 (s.atk *ℤ pos 2) else s.atk in
    let hit = record t { hp = wrap32 (t.hp -ℤ atk) } in
    if is_down hit
    then (record s { battle_ended_flag = pos 1 }, record hit { battle_ended_flag = pos 1 }, true)
    else (s, hit, false)

-- The attack of the player that `first_attack` says, on the other one: `true` is the index 1.
unfoldable pub attack : Bool → ℕ → Status × Status → (Status × Status) × Bool
unfolding play_an_attack
attack true attr (s0, s1) = let (s, t, over) = play_an_attack s1 s0 attr in ((t, s), over)
attack false attr (s0, s1) = let (s, t, over) = play_an_attack s0 s1 attr in ((s, t), over)

abbrev pub first_attack : Status → Status → Bool
first_attack s0 s1 =
    ltb_ℤ s1.hp s0.hp || (eq_ℤ s0.hp s1.hp && ltb_ℤ s1.real_player_id s0.real_player_id)

-- The attacks of a turn of the loop, and the last value of first_attack.
unfoldable pub battle_round : ℕ → ℕ → Status × Status → (Status × Status) × Bool
unfolding attack
battle_round battle_id attr (s0, s1) =
    let both : Status × Status =
      (record s0 { current_battle_id = battle_id }, record s1 { current_battle_id = battle_id }) in
    let first = first_attack s0 s1 in
    let (hit, over) = attack first attr both in
    if over then (hit, first) else ((attack (not first) attr hit).0, not first)

-- A child of a battle: a player, or a battle in passing mode for the child that has won it.
pub data Process : Type 0 where
  player : Player → Process
  passing : Process → Process

-- The test that ends the passing mode, on a status from the parent.
abbrev pub is_over : Status → Bool
is_over s = is_down s || ((s.current_battle_id == 65) && eq_ℤ s.battle_ended_flag (pos 1))

-- A turn of the passing mode from the message of the parent on: the child's reply is read if the
-- mode goes on, and its exit is waited for if not; `none` where the wrong one never comes.
abbrev pub relay : Status → Reply → Option Reply
relay s (answers a) = if is_over s then none else some (answers a)
relay s (exits h) = if is_over s then some (exits h) else none

unfoldable pub tell : Process → Status → Option Reply
unfolding hear
tell (player p) s = hear p s
tell (passing c) s = tell c s >>= relay s

-- The end of a battle: the winner's status, and what the winner and the loser replied to theirs.
pub record Ended : Type 0 where
  pub final : Status
  pub winner : Reply
  pub winner_process : Process
  pub loser : Reply

abbrev pub ending : Bool → Process → Process → Status × Status → Reply → Reply → Ended
ending true c0 c1 (s0, s1) r0 r1 = record {
  final = s1;
  winner = r1;
  winner_process = c1;
  loser = r0;
}
ending false c0 c1 (s0, s1) r0 r1 = record {
  final = s0;
  winner = r0;
  winner_process = c0;
  loser = r1;
}

-- Both answers are read for the next turn.
abbrev pub both_answer : Reply → Reply → Option (Status × Status)
both_answer (answers a) (answers b) = some (a, b)
both_answer (answers a) (exits h) = none
both_answer (exits h) r = none

-- The messages at the end of a turn, and what follows them.
abbrev pub exchange :
    (Status × Status → Option Ended) → Process → Process → (Status × Status) × Bool → Option Ended
exchange next c0 c1 (after, first) = tell c0 after.0 >>= λ r0. tell c1 after.1 >>= λ r1.
    elim (eq_ℤ after.0.battle_ended_flag (pos 0)) [
      | true ↦ both_answer r0 r1 >>= next
      | false ↦ some (ending first c0 c1 after r0 r1)
    ]

-- The loop, on fuel. A battle that starts with the flag set has no value of first_attack.
unfoldable pub battle_loop : ℕ → ℕ → ℕ → Process → Process → Status × Status → Option Ended
unfolding battle_round tell
battle_loop zero battle_id attr c0 c1 both = none
battle_loop (suc fuel) battle_id attr c0 c1 both =
    let turn =
      exchange (battle_loop fuel battle_id attr c0 c1) c0 c1 (battle_round battle_id attr both) in
    if eq_ℤ both.0.battle_ended_flag (pos 0) then turn else none

-- How a battle goes on: the champion is printed, or the winner's next status goes to the parent,
-- which from there on talks to the winner; the loser may have written to a fifo.
pub data Outcome : Type 0 where
  champion : ℤ → Outcome
  goes_on : Status → Process → Option (ℤ × Status) → Outcome

-- The loser's exit is waited for; the battle A waits for the winner's too, and another one for its
-- next status.
unfoldable pub settle : ℕ → Ended → Option Outcome
settle battle_id e = elim e.loser [
  | answers s ↦ none
  | exits h ↦ elim e.winner [
    | exits h' ↦ if battle_id == 65 then some (champion e.final.real_player_id) else none
    | answers a ↦ if battle_id == 65 then none else some (goes_on a (passing e.winner_process) h)
  ]
]

-- The body of main behind the forks, on the first statuses of the two children.
unfoldable pub battle : ℕ → ℕ → Status × Process → Status × Process → Option Outcome
unfolding battle_loop settle
battle fuel battle_id (s0, c0) (s1, c1) = do
  attr ← entry battle_attr battle_id
  ended ← battle_loop fuel battle_id attr c0 c1 (s0, s1)
  settle battle_id ended
