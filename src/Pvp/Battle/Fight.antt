-- ===== src/Pvp/Battle/Fight.antt =====
-- A battle of two players that are fit to fight has an end, and one of them goes on.
use sp_hw.Base.{
  ℕ, ◌^◌, ◌≡◌, ◌≤◌, ◌<◌, refl, ◌∙◌, ◌⊎◌, inl, inr, Bool, true, false, Option, none, some, arith,
  ◌==◌,
}
use sp_hw.Base.Int.{ℤ, pos}
use sp_hw.Pvp.Status.{Status, entry}
use sp_hw.Pvp.Player.{answers, exits, fifo, is_real}
use sp_hw.Pvp.Battle.{Process, passing, tell, battle_attr, champion, goes_on, settle, battle}
use sp_hw.Pvp.Battle.Attack.{Fighter, IsArmed, fresh, over, down}
use sp_hw.Pvp.Battle.Messages.{
  owner, healed, tell-over, tell_champion, tell-down, hand_over_last, hand_over_agent,
  hand_over_real,
}
use sp_hw.Pvp.Battle.Rounds.{finish, battle_loop-finish}

-- A first status that is fit, of a player below 8; `rounds` bounds the HP.
pub record Ready (rounds : ℕ) (s : Status) : Type 0 where
  pub fighter : Fighter
  pub health : ℕ
  pub last : ℕ
  pub status : s ≡ fresh fighter health last
  pub known : fighter.id < 8
  pub armed : IsArmed fighter
  pub alive : 0 < health
  pub bounded : (health ≤ rounds) × (health < 2 ^ 31)

-- A child that waits for its first message, with the status it has sent. `real` says whether the
-- player behind it is a real one.
pub record Enters (rounds : ℕ) (real : Bool) (e : Status × Process) : Type 0 where
  pub ready : Ready rounds e.0
  pub full : ℕ
  pub original : (owner e.1).original_hp ≡ pos full
  pub kind : is_real (owner e.1) ≡ real
  pub no_more : ready.health ≤ full
  pub bounded : (full ≤ rounds) × (full < 2 ^ 31)

-- What the loser leaves behind for the agent `k`.
abbrev pub Given : ℕ → Bool → ℤ → Option (ℤ × Status) → Type 0
Given rounds true k h = (s : Status) × (h ≡ some (k, s)) × Ready rounds s
Given rounds false k h = Unit {0}

-- The winner goes on behind a battle in passing mode, with some of its HP left and half of what it
-- misses of its full HP on top.
abbrev pub Wins :
    (rounds id : ℕ) (real : Bool) (e : Status × Process)
    → Enters rounds real e
    → Status × Process
    → Type 0
Wins rounds id real e i w =
    (left : ℕ) × (0 < left)
    × (left ≤ i.ready.health)
    × (w ≡ (fresh i.ready.fighter (healed i.full left) id, passing e.1))

-- A real player that has lost leaves its status with its full HP to the agent `k`, and an agent nothing.
abbrev pub Leaves :
    (rounds id : ℕ) (k : ℤ) (real : Bool) (e : Status × Process)
    → Enters rounds real e
    → Option (ℤ × Status)
    → Type 0
Leaves rounds id k true e i h = h ≡ some (k, fresh i.ready.fighter i.full id)
Leaves rounds id k false e i h = h ≡ none

module _ (rounds id : ℕ) (k : ℤ) (not_last : (id == 65) ≡ false) where
  loser_exits :
      (real : Bool) (s : Status) (c : Process) (e : Enters rounds real (s, c)) (n : ℕ)
      → (real ≡ true → entry fifo id ≡ some k)
      → (h : Option (ℤ × Status)) × (tell c (down e.ready.fighter n id) ≡ some (exits h))
        × Given rounds real k h
        × Leaves rounds id k real (s, c) e h
  loser_exits true s c e n at =
      let f = e.ready.fighter in
      let left : Ready rounds (fresh f e.full id) = record {
        fighter = f;
        health = e.full;
        last = id;
        status = refl;
        known = e.ready.known;
        armed = e.ready.armed;
        alive = more e.ready.health e.full e.ready.alive e.no_more;
        bounded = e.bounded;
      } in
      (
        some (k, fresh f e.full id),
        tell-down c f n id
            ∙ hand_over_real (owner c) f e.full n id k e.original e.kind not_last (at refl),
        (fresh f e.full id, refl, left),
        refl,
      )
    where
      more : (a b : ℕ) → 0 < a → a ≤ b → 0 < b
      more a b p q = omega arith
  loser_exits false s c e n at = (
    none,
    tell-down c e.ready.fighter n id ∙ hand_over_agent (owner c) e.ready.fighter n id e.kind,
    tt,
    refl,
  )

  -- The winner, healed, behind a battle in passing mode.
  winner_next :
      (real : Bool) (s : Status) (c : Process) (e : Enters rounds real (s, c)) (h : ℕ)
      → 0 < h
      → h ≤ e.ready.health
      → Enters rounds real (fresh e.ready.fighter (healed e.full h) id, passing c)
  winner_next real s c e h p le = record {
    ready = record {
      fighter = e.ready.fighter;
      health = healed e.full h;
      last = id;
      status = refl;
      known = e.ready.known;
      armed = e.ready.armed;
      alive = omega arith;
      bounded = (
        below e.full h e.ready.health rounds le e.no_more e.bounded.0,
        under e.full h e.ready.health le e.no_more e.bounded.1,
      );
    };
    full = e.full;
    original = e.original;
    kind = e.kind;
    no_more = below e.full h e.ready.health e.full le e.no_more (omega arith);
    bounded = e.bounded;
  }
    where
      below : (o a b m : ℕ) → a ≤ b → b ≤ o → o ≤ m → healed o a ≤ m
      below o a b m x y z = omega arith

      under : (o a b : ℕ) → a ≤ b → b ≤ o → o < 2 ^ 31 → healed o a < 2 ^ 31
      under o a b x y z = omega arith

  winner_answers :
      (real : Bool) (s : Status) (c : Process) (e : Enters rounds real (s, c)) (h : ℕ)
      → 0 < h
      → h ≤ e.ready.health
      → tell c (over e.ready.fighter h id)
        ≡ some (answers (fresh e.ready.fighter (healed e.full h) id))
  winner_answers real s c e h p le =
      tell-over c e.ready.fighter e.full h id e.original p
        (le_trans h e.ready.health e.full le e.no_more) e.bounded.1 not_last
    where
      le_trans : (a b m : ℕ) → a ≤ b → b ≤ m → a ≤ m
      le_trans a b m x y = omega arith

  -- A battle but the last one, of two players that can fight, comes to an end: one of them goes on,
  -- with some of its HP left and half of what it misses on top, as one that enters the next battle, and
  -- the other one, if it is a real player, leaves its status with its full HP for its agent.
  pub battle-goes_on :
      (real : Bool) (attr : ℕ) (e0 e1 : Status × Process)
      → entry battle_attr id ≡ some attr
      → (real ≡ true → entry fifo id ≡ some k)
      → (i0 : Enters rounds real e0) → (i1 : Enters rounds real e1)
      → (w : Status × Process) × (h : Option (ℤ × Status)) × (battle rounds id e0 e1
          ≡ some (goes_on w.0 w.1 h))
        × Enters rounds real w
        × Given rounds real k h
        × ((Wins rounds id real e0 i0 w × Leaves rounds id k real e1 i1 h)
            ⊎ (Wins rounds id real e1 i1 w × Leaves rounds id k real e0 i0 h))
  unfolding battle settle finish
  battle-goes_on real attr (s0, c0) (s1, c1) a at e0 e1 =
      rw (a, e0.ready.status, e1.ready.status)
        (elim (battle_loop-finish rounds id attr c0 c1 e0.ready.fighter e1.ready.fighter
          e0.ready.health e1.ready.health e0.ready.last e1.ready.last e0.ready.armed e1.ready.armed
          e0.ready.alive e1.ready.alive e0.ready.bounded.1 e1.ready.bounded.1 e0.ready.bounded.0) [
            | inl (h, n, p, l, run) ↦
                let (given, said, gives, leaves) = loser_exits real s1 c1 e1 n at in
                (
                  (fresh e0.ready.fighter (healed e0.full h) id, passing c0),
                  given,
                  rw (run, said, winner_answers real s0 c0 e0 h p l, not_last) refl,
                  winner_next real s0 c0 e0 h p l,
                  gives,
                  inl ((h, p, l, refl), leaves),
                )
            | inr (h, n, p, l, run) ↦
                let (given, said, gives, leaves) = loser_exits real s0 c0 e0 n at in
                (
                  (fresh e1.ready.fighter (healed e1.full h) id, passing c1),
                  given,
                  rw (run, said, winner_answers real s1 c1 e1 h p l, not_last) refl,
                  winner_next real s1 c1 e1 h p l,
                  gives,
                  inr ((h, p, l, refl), leaves),
                )
          ])

-- The last battle has a champion, one of the players.
pub battle_champion :
    (rounds : ℕ) (real real' : Bool) (e0 e1 : Status × Process)
    → Enters rounds real e0
    → Enters rounds real' e1
    → (n : ℕ) × (n < 8) × (battle rounds 65 e0 e1 ≡ some (champion (pos n)))
unfolding battle settle finish
battle_champion rounds real real' (s0, c0) (s1, c1) e0 e1 =
    rw (e0.ready.status, e1.ready.status)
      (elim (battle_loop-finish rounds 65 0 c0 c1 e0.ready.fighter e1.ready.fighter e0.ready.health
        e1.ready.health e0.ready.last e1.ready.last e0.ready.armed e1.ready.armed e0.ready.alive
        e1.ready.alive e0.ready.bounded.1 e1.ready.bounded.1 e0.ready.bounded.0) [
          | inl (h, n, p, l, run) ↦ (
            e0.ready.fighter.id,
            e0.ready.known,
            rw (run, tell_champion c0 e0.ready.fighter h p, last_exits c1 e1.ready.fighter n) refl,
          )
          | inr (h, n, p, l, run) ↦ (
            e1.ready.fighter.id,
            e1.ready.known,
            rw (run, tell_champion c1 e1.ready.fighter h p, last_exits c0 e0.ready.fighter n) refl,
          )
        ])
  where
    last_exits : (c : Process) (f : Fighter) (n : ℕ) → tell c (down f n 65) ≡ some (exits none)
    last_exits c f n = tell-down c f n 65 ∙ hand_over_last (owner c) f n
