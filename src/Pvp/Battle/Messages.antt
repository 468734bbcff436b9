-- ===== src/Pvp/Battle/Messages.antt =====
-- What a child of a battle replies to a message, whether it is a player or a battle that the player
-- has won: the passing mode cannot be told from the player.
use sp_hw.Base.{
  ℕ, ◌+◌, ◌-◌, ◌/◌, ◌^◌, ◌≡◌, ◌≢◌, inl, inr, Bool-cases, Option-cases, ◌≤◌, ◌<◌, refl, sym, ◌∙◌,
  Bool, true, false, not, ◌||◌, ◌&&◌, none, some, arith, ◌==◌,
}
use sp_hw.Base.Int.{ℤ, pos, ◌+ℤ◌, ◌-ℤ◌, half, ltb_ℤ, eq_ℤ}
use sp_hw.Base.Decimal.{wrap32_lem}
use sp_hw.Base.Error.{◌>>=◌}
use sp_hw.Pvp.Status.{Status, entry}
use sp_hw.Pvp.Player.{Player, fifo, is_real, is_down, heal, hand_over, hear, answers, exits}
use sp_hw.Pvp.Battle.{Process, player, passing, is_over, relay, tell}
use sp_hw.Pvp.Battle.Attack.{Fighter, fresh, over, down, down-is_down, up_is_up}

-- The player behind the battles.
abbrev pub owner : Process → Player
owner (player p) = p
owner (passing c) = owner c

-- Half of what is missing comes back.
abbrev pub healed : ℕ → ℕ → ℕ
healed o h = (o - h) / 2 + h

minus : (a c : ℕ) → c ≤ a → pos a -ℤ pos c ≡ pos (a - c)
unfolding ◌-ℤ◌
minus a c l = ground arith

plus : (a c : ℕ) → pos a +ℤ pos c ≡ pos (a + c)
unfolding ◌+ℤ◌
plus a c = ground arith

heal-healed :
    (p : Player) (f : Fighter) (o h d : ℕ)
    → p.original_hp ≡ pos o
    → h ≤ o
    → o < 2 ^ 31
    → heal p (over f h d) ≡ pos (healed o h)
unfolding heal half
heal-healed p f o h d e le b =
    let missing : pos o -ℤ pos h ≡ pos (o - h) = minus o h le in
    rw (e, missing, wrap32_lem (pos (o - h)) (omega arith), plus ((o - h) / 2) h)
      (wrap32_lem (pos (healed o h)) (omega arith))

relay-hand_over :
    (p : Player) (s : Status) → is_over s ≡ true → (hand_over p s >>= relay s) ≡ hand_over p s
unfolding hand_over
relay-hand_over p s e = elim (Bool-cases ((s.current_battle_id == 65) || not (is_real p))) [
  | inl f ↦ rw (f, e) refl
  | inr f ↦ rw f (elim (Option-cases (entry fifo s.current_battle_id)) [
    | inl g ↦ rw g refl
    | inr (k, g) ↦ rw (g, e) refl
  ])
]

-- One battle in between does not change a player's reply.
relay-hear :
    (p : Player) (s : Status)
    → (is_down s ≡ true → eq_ℤ s.battle_ended_flag (pos 1) ≡ true)
    → (hear p s >>= relay s) ≡ hear p s
unfolding hear
relay-hear p s h = elim (Bool-cases (eq_ℤ s.battle_ended_flag (pos 1))) [
  | inl e ↦ elim (Bool-cases (is_down s)) [
    | inl d ↦ let o : is_over s ≡ true = rw d refl in rw (e, d) (relay-hand_over p s o)
    | inr d ↦ elim (Bool-cases (s.current_battle_id == 65)) [
      | inl l ↦ let o : is_over s ≡ true = rw (d, l, e) refl in rw (e, d, l, o) refl
      | inr l ↦ let o : is_over s ≡ false = rw (d, l) refl in rw (e, d, l, o) refl
    ]
  ]
  | inr e ↦ elim (Bool-cases (is_down s)) [
    | inl d ↦ absurd (true-ne-false (sym (h d) ∙ e))
    | inr d ↦
        let o : is_over s ≡ false = rw (d, e) (and_false (s.current_battle_id == 65)) in
        rw (e, o) refl
  ]
]
  where
    true-ne-false : true ≢ false
    true-ne-false g = cc

    and_false : (b : Bool) → (b && false) ≡ false
    and_false b = ground arith

-- To a status without HP that says that the battle has ended, and to any status with HP, a child
-- replies as the player that stands behind it, however many battles in passing mode are in between.
pub tell-owner :
    (c : Process) (s : Status)
    → (is_down s ≡ true → eq_ℤ s.battle_ended_flag (pos 1) ≡ true)
    → tell c s ≡ hear (owner c) s
unfolding tell
tell-owner (player p) s h = refl
tell-owner (passing c) s h = rw (tell-owner c s h) (relay-hear (owner c) s h)

-- While the battle lasts it answers with what it was told.
pub tell-fresh :
    (c : Process) (f : Fighter) (h d : ℕ)
    → 0 < h
    → tell c (fresh f h d) ≡ some (answers (fresh f h d))
unfolding hear
tell-fresh c f h d pos_h = tell-owner c (fresh f h d) (λ e. absurd (up_not_down h pos_h e))
  where
    up_not_down : (k : ℕ) → 0 < k → ltb_ℤ (pos k) (pos 1) ≢ true
    up_not_down k p e = ground arith

-- When it has won, it heals, and goes on.
pub tell-over :
    (c : Process) (f : Fighter) (o h d : ℕ)
    → (owner c).original_hp ≡ pos o
    → 0 < h
    → h ≤ o
    → o < 2 ^ 31
    → (d == 65) ≡ false
    → tell c (over f h d) ≡ some (answers (fresh f (healed o h) d))
unfolding hear
tell-over c f o h d e pos_h le b last =
    tell-owner c (over f h d) (λ _. refl)
    ∙ rw (up_is_up h pos_h, last, heal-healed (owner c) f o h d e le b) refl

-- When it has won the last battle, it exits.
pub tell_champion :
    (c : Process) (f : Fighter) (h : ℕ) → 0 < h → tell c (over f h 65) ≡ some (exits none)
unfolding hear
tell_champion c f h pos_h = tell-owner c (over f h 65) (λ _. refl) ∙ rw (up_is_up h pos_h) refl

-- When it has lost, it exits, and a real player that has not lost the last battle writes to an agent.
pub tell-down :
    (c : Process) (f : Fighter) (n d : ℕ) → tell c (down f n d) ≡ hand_over (owner c) (down f n d)
unfolding hear
tell-down c f n d = tell-owner c (down f n d) (λ _. refl) ∙ rw (down-is_down n) refl

pub hand_over_last :
    (p : Player) (f : Fighter) (n : ℕ) → hand_over p (down f n 65) ≡ some (exits none)
unfolding hand_over
hand_over_last p f n = refl

pub hand_over_agent :
    (p : Player) (f : Fighter) (n d : ℕ)
    → is_real p ≡ false
    → hand_over p (down f n d) ≡ some (exits none)
unfolding hand_over
hand_over_agent p f n d e = rw e (ground arith)

pub hand_over_real :
    (p : Player) (f : Fighter) (o n d : ℕ) (k : ℤ)
    → p.original_hp ≡ pos o
    → is_real p ≡ true
    → (d == 65) ≡ false
    → entry fifo d ≡ some k
    → hand_over p (down f n d) ≡ some (exits (some (k, fresh f o d)))
unfolding hand_over
hand_over_real p f o n d k e real last at = rw (real, last, at, e) refl
