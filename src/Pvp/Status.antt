-- ===== src/Pvp/Status.antt =====
-- pvp-championship/status.h: what a battle and a player tell each other over a pipe.
use sp_hw.Base.{ℕ, Option, none, List, leb, ◌-◌, if◌then◌else◌, get_elem?}
use sp_hw.Base.Int.{ℤ}

pub data Attribute : Type 0 where
  fire grass water : Attribute

-- The number of an attribute in the enum.
abbrev pub number : Attribute → ℕ
number fire = 0
number grass = 1
number water = 2

-- current_battle_id is the letter of a battle.
pub record Status : Type 0 where
  pub real_player_id : ℤ
  pub hp : ℤ
  pub atk : ℤ
  pub attr : Attribute
  pub current_battle_id : ℕ
  pub battle_ended_flag : ℤ

-- table[battle_id - 65]
abbrev pub entry {ℓ} : {A : Type ℓ} → List A → ℕ → Option A
entry table battle_id = if leb 65 battle_id then get_elem? table (battle_id - 65) else none
