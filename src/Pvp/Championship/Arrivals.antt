-- ===== src/Pvp/Championship/Arrivals.antt =====
-- How the children of a battle come to their first message, when the battles below have an end.
use sp_hw.Base.{
  ℕ, zero, suc, ◌^◌, ◌≡◌, ◌≤◌, ◌<◌, refl, Bool, true, false, List, [], ◌∷◌, Option, some, arith,
  ◌==◌, length, All,
}
use sp_hw.Base.Int.{ℤ, pos, ltb_ℤ}
use sp_hw.Pvp.Status.{Status, entry}
use sp_hw.Pvp.Player.{fifo}
use sp_hw.Pvp.Roster.{Line, parse_line, read_lines, real_status}
use sp_hw.Pvp.Battle.{Process, goes_on, battle_attr}
use sp_hw.Pvp.Battle.Fight.{Ready, Enters, Given, battle-goes_on}
use sp_hw.Pvp.Championship.{
  Child, battle_child, player_child, child, starts, feeder, entrant, fought,
}

-- What a line says of a player that can fight: HP and power are positive, and twice the power fits an
-- `int`.
pub record CanFight (rounds : ℕ) (l : Line) : Type 0 where
  pub health : ℕ
  pub power : ℕ
  pub hp : l.hp ≡ pos health
  pub atk : l.atk ≡ pos power
  pub flag : l.battle_ended_flag ≡ pos 0
  pub alive : 0 < health
  pub bounded : (health ≤ rounds) × (health < 2 ^ 31)
  pub armed : (0 < power) × (power < 2 ^ 30)

abbrev pub IsFit : ℕ → List ℕ → Type 0
IsFit rounds text = (l : Line) × (parse_line text ≡ some l) × CanFight rounds l

read_lines-fit :
    (rounds k : ℕ) (file : List (List ℕ))
    → k < length file
    → All (IsFit rounds) file
    → (l : Line) × (read_lines k file ≡ some l) × CanFight rounds l
unfolding read_lines
read_lines-fit rounds k [] b fit = absurd (omega arith)
read_lines-fit rounds zero (s ∷ file) b fit = fit.0
read_lines-fit rounds (suc k) (s ∷ file) b ((l, e, f), fit) =
    let (m, e', f') = read_lines-fit rounds k file (omega arith) fit in (m, rw e e', f')

module _ (rounds : ℕ) (file : List (List ℕ)) (eight : length file ≡ 8)
    (fit : All (IsFit rounds) file) where
  -- A child comes to its first message, and a battle to its end.
  abbrev pub Arrives : ℕ → Bool → Child → Type 0
  Arrives d real c =
      (e : Status × Process) × (entrant file (fought d rounds file) c ≡ some e)
      × Enters rounds real e

  abbrev pub Comes : ℕ → ℕ → Bool → ℤ → Type 0
  Comes d id real k =
      (w : Status × Process) × (h : Option (ℤ × Status)) × (fought d rounds file id
        ≡ some (goes_on w.0 w.1 h))
      × Enters rounds real w
      × Given rounds real k h

  line-Ready : (k : ℕ) (l : Line) → k < 8 → CanFight rounds l → Ready rounds (real_status (pos k) l)
  line-Ready k l b f = record {
    fighter = record { id = k; atk = f.power; attr = l.attr };
    health = f.health;
    last = l.current_battle_id;
    status = rw (f.hp, f.atk, f.flag) refl;
    known = b;
    armed = f.armed;
    alive = f.alive;
    bounded = f.bounded;
  }

  Ready-Enters :
      (id : ℤ) (s : Status) (real : Bool)
      → Ready rounds s
      → ltb_ℤ id (pos 8) ≡ real
      → Enters rounds real (starts id s)
  Ready-Enters id s real r e = record {
    ready = r;
    full = r.health;
    original = rw r.status refl;
    kind = e;
    no_more = omega arith;
    bounded = r.bounded;
  }

  pub entrant_real : (d k : ℕ) → k < 8 → Arrives d true (player_child (pos k))
  unfolding entrant
  entrant_real d k b =
      let (l, e, f) = read_lines-fit rounds k file (omega (arith, b, eight)) fit in
      let real : ltb_ℤ (pos 7) (pos k) ≡ false = ground arith in
      (
        starts (pos k) (real_status (pos k) l),
        rw (real, e) refl,
        Ready-Enters (pos k) (real_status (pos k) l) true (line-Ready k l b f) (ground arith),
      )

  pub entrant_battle :
      (d id : ℕ) (real : Bool) (k : ℤ) → Comes d id real k → Arrives d real (battle_child id)
  unfolding entrant
  entrant_battle d id real k (w, h, e, enters, given) = (w, rw e refl, enters)

  pub entrant_agent :
      (d k b : ℕ)
      → 7 < k
      → feeder (pos k) 65 fifo ≡ some b
      → Comes d b true (pos k)
      → Arrives d false (player_child (pos k))
  unfolding entrant
  entrant_agent d k b agent feeds (w, h, e, enters, (s, given, ready)) =
      let above : ltb_ℤ (pos 7) (pos k) ≡ true = ground arith in
      (
        starts (pos k) s,
        rw (above, feeds, e) (rw given refl),
        Ready-Enters (pos k) s false ready (ground arith),
      )

  pub fought-goes_on :
      (d id attr : ℕ) (real : Bool) (k : ℤ) (c0 c1 : Child)
      → (id == 65) ≡ false
      → entry battle_attr id ≡ some attr
      → (real ≡ true → entry fifo id ≡ some k)
      → (child id 0 ≡ some c0) × (child id 1 ≡ some c1)
      → Arrives d real c0
      → Arrives d real c1
      → Comes (suc d) id real k
  unfolding fought
  fought-goes_on d id attr real k c0 c1 not_last a at (n0, n1) (e0, r0, i0) (e1, r1, i1) =
      let (w, h, e, enters, given, split) =
        battle-goes_on rounds id k not_last real attr e0 e1 a at i0 i1 in
      (w, h, rw (n0, n1, r0, r1) e, enters, given)
