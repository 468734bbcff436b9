-- ===== src/Pvp/Tests.antt =====
-- Runs of pvp-championship, on the players of its player_status.txt.
use sp_hw.Base.{
  ℕ, ◌≡◌, ◌<◌, ◌≤◌, ◌^◌, refl, true, List, [], ◌∷◌, Option, some, arith, map, All, ◌⊎◌, inl, inr,
}
use sp_hw.Base.Int.{ℤ, pos}
use sp_hw.Pvp.Status.{Attribute, fire, grass, water, Status}
use sp_hw.Pvp.Player.{hear}
use sp_hw.Pvp.Roster.{Line, parse_line, print_line, parse_line-print_line}
use sp_hw.Pvp.Battle.{Process, player, passing, tell, battle, goes_on}
use sp_hw.Pvp.Battle.Messages.{owner, tell-owner}
use sp_hw.Pvp.Battle.Fight.{Enters, Given, Wins, Leaves, battle-goes_on}
use sp_hw.Pvp.Championship.{starts, championship}
use sp_hw.Pvp.Championship.Arrivals.{IsFit}
use sp_hw.Pvp.Championship.Ends.{championship_ends}

abbrev line : ℕ → ℕ → Attribute → ℕ → Line
line hp atk attr id = record {
  hp = pos hp;
  atk = pos atk;
  attr = attr;
  current_battle_id = id;
  battle_ended_flag = pos 0;
}

abbrev pub file : List (List ℕ)
file = map print_line (
    line 7 2 fire b'G'
    ∷ line 8 3 grass b'G'
    ∷ line 4 4 fire b'H'
    ∷ line 1 4 grass b'H'
    ∷ line 12 2 water b'I'
    ∷ line 3 4 grass b'I'
    ∷ line 7 3 water b'J'
    ∷ line 10 2 water b'J'
    ∷ [])

fits :
    (hp atk : ℕ) (attr : Attribute) (id : ℕ)
    → parse_line (print_line (line hp atk attr id)) ≡ some (line hp atk attr id)
    → (0 < hp) × (hp ≤ 12)
    → (0 < atk) × (atk < 2 ^ 30)
    → IsFit 12 (print_line (line hp atk attr id))
fits hp atk attr id e h a = (
  line hp atk attr id,
  e,
  record {
    health = hp;
    power = atk;
    hp = refl;
    atk = refl;
    flag = refl;
    alive = h.0;
    bounded = (h.1, omega (arith, h.1));
    armed = a;
  },
)

read_back :
    (hp atk : ℕ) (attr : Attribute) (id : ℕ)
    → hp < 2 ^ 31
    → atk < 2 ^ 31
    → (id ≡ b'G') ⊎ ((id ≡ b'H') ⊎ ((id ≡ b'I') ⊎ (id ≡ b'J')))
    → parse_line (print_line (line hp atk attr id)) ≡ some (line hp atk attr id)
read_back hp atk attr id h a c =
    parse_line-print_line (line hp atk attr id) h a (omega arith) (ground arith)

parse_line-print_line_example :
    parse_line (print_line (line 7 2 fire b'G')) ≡ some (line 7 2 fire b'G')
parse_line-print_line_example =
    parse_line-print_line (line 7 2 fire b'G') (omega arith) (omega arith) (omega arith) refl

-- The players are fit for a championship with twelve rounds for a battle.
pub file-All : All (IsFit 12) file
file-All = (
  fits 7 2 fire b'G' (read_back 7 2 fire b'G' (omega arith) (omega arith) (inl refl))
      (omega arith, omega arith) (omega arith, omega arith),
  (
    fits 8 3 grass b'G' (read_back 8 3 grass b'G' (omega arith) (omega arith) (inl refl))
        (omega arith, omega arith) (omega arith, omega arith),
    (
      fits 4 4 fire b'H' (read_back 4 4 fire b'H' (omega arith) (omega arith) (inr (inl refl)))
          (omega arith, omega arith) (omega arith, omega arith),
      (
        fits 1 4 grass b'H' (read_back 1 4 grass b'H' (omega arith) (omega arith) (inr (inl refl)))
            (omega arith, omega arith) (omega arith, omega arith),
        (
          fits 12 2 water b'I'
              (read_back 12 2 water b'I' (omega arith) (omega arith) (inr (inr (inl refl))))
              (omega arith, omega arith) (omega arith, omega arith),
          (
            fits 3 4 grass b'I'
                (read_back 3 4 grass b'I' (omega arith) (omega arith) (inr (inr (inl refl))))
                (omega arith, omega arith) (omega arith, omega arith),
            (
              fits 7 3 water b'J'
                  (read_back 7 3 water b'J' (omega arith) (omega arith) (inr (inr (inr refl))))
                  (omega arith, omega arith) (omega arith, omega arith),
              (
                fits 10 2 water b'J'
                    (read_back 10 2 water b'J' (omega arith) (omega arith) (inr (inr (inr refl))))
                    (omega arith, omega arith) (omega arith, omega arith),
                tt,
              ),
            ),
          ),
        ),
      ),
    ),
  ),
)

championship_ends_example : (n : ℕ) × (n < 8) × (championship 12 file ≡ some (pos n))
championship_ends_example = championship_ends 12 file refl file-All

-- Player 3, which has won two battles, hears that it has lost the next one.
abbrev winner : Process
winner = passing (passing (player (record { player_id = pos 3; original_hp = pos 1 })))

abbrev lost : Status
lost = record {
  real_player_id = pos 3;
  hp = pos 0;
  atk = pos 4;
  attr = grass;
  current_battle_id = b'B';
  battle_ended_flag = pos 1;
}

tell-owner_example : tell winner lost ≡ hear (owner winner) lost
tell-owner_example = tell-owner winner lost (λ e. refl)

abbrev first_status : ℕ → ℕ → ℕ → Attribute → Status
first_status id hp atk attr = record {
  real_player_id = pos id;
  hp = pos hp;
  atk = pos atk;
  attr = attr;
  current_battle_id = b'G';
  battle_ended_flag = pos 0;
}

first_player : Enters 12 true (starts (pos 0) (first_status 0 7 2 fire))
first_player = record {
  ready = record {
    fighter = record { id = 0; atk = 2; attr = fire };
    health = 7;
    last = b'G';
    status = refl;
    known = omega arith;
    armed = (omega arith, omega arith);
    alive = omega arith;
    bounded = (omega arith, omega arith);
  };
  full = 7;
  original = refl;
  kind = refl;
  no_more = omega arith;
  bounded = (omega arith, omega arith);
}

second_player : Enters 12 true (starts (pos 1) (first_status 1 8 3 grass))
second_player = record {
  ready = record {
    fighter = record { id = 1; atk = 3; attr = grass };
    health = 8;
    last = b'G';
    status = refl;
    known = omega arith;
    armed = (omega arith, omega arith);
    alive = omega arith;
    bounded = (omega arith, omega arith);
  };
  full = 8;
  original = refl;
  kind = refl;
  no_more = omega arith;
  bounded = (omega arith, omega arith);
}

battle-goes_on_example :
    (w : Status × Process) × (h : Option (ℤ × Status)) × (battle 12 71
        (starts (pos 0) (first_status 0 7 2 fire))
        (starts (pos 1) (first_status 1 8 3 grass))
      ≡ some (goes_on w.0 w.1 h))
    × Enters 12 true w
    × Given 12 true (pos 8) h
    × ((Wins 12 71 true (starts (pos 0) (first_status 0 7 2 fire)) first_player w
          × Leaves 12 71 (pos 8) true (starts (pos 1) (first_status 1 8 3 grass)) second_player h)
        ⊎ (Wins 12 71 true (starts (pos 1) (first_status 1 8 3 grass)) second_player w
            × Leaves 12 71 (pos 8) true (starts (pos 0) (first_status 0 7 2 fire)) first_player h))
battle-goes_on_example =
    battle-goes_on 12 71 (pos 8) refl true 0 (starts (pos 0) (first_status 0 7 2 fire))
      (starts (pos 1) (first_status 1 8 3 grass)) refl (λ e. refl) first_player second_player
