-- ===== src/Pvp/Battle/Attack.antt =====
-- What an attack and a round do to two players that are fit to fight.
use sp_hw.Base.{
  ℕ, zero, suc, ◌+◌, ◌-◌, ◌*◌, ◌^◌, ◌≡◌, ◌≤◌, ◌<◌, refl, ap, ◌∙◌, ◌⊎◌, inl, inr, Bool, true, false,
  arith, ◌==◌, ltb, Bool-cases, if◌then◌else◌,
}
use sp_hw.Base.Int.{pos, negsuc, neg_of, ◌-ℤ◌, ◌*ℤ◌, ltb_ℤ}
use sp_hw.Base.Decimal.{wrap32, wrap32_lem}
use sp_hw.Pvp.Status.{Attribute, Status, number}
use sp_hw.Pvp.Battle.{play_an_attack, attack, first_attack, battle_round}

-- A fighter is what an attack leaves as it is.
pub record Fighter : Type 0 where
  pub id : ℕ
  pub atk : ℕ
  pub attr : Attribute

-- Its status in a battle: while the battle lasts, when it has won, and when it has lost.
abbrev pub fresh : Fighter → ℕ → ℕ → Status
fresh f h d = record {
  real_player_id = pos f.id;
  hp = pos h;
  atk = pos f.atk;
  attr = f.attr;
  current_battle_id = d;
  battle_ended_flag = pos 0;
}

abbrev pub over : Fighter → ℕ → ℕ → Status
over f h d = record (fresh f h d) { battle_ended_flag = pos 1 }

abbrev pub down : Fighter → ℕ → ℕ → Status
down f n d = record (fresh f 0 d) { hp = neg_of n; battle_ended_flag = pos 1 }

-- Twice the power is still an `int`.
abbrev pub IsArmed : Fighter → Type 0
IsArmed f = (0 < f.atk) × (f.atk < 2 ^ 30)

-- The power of an attack.
abbrev power : Fighter → ℕ → ℕ
power f attr = if number f.attr == attr then f.atk * 2 else f.atk

double : (a : ℕ) → a < 2 ^ 30 → wrap32 (pos a *ℤ pos 2) ≡ pos (a * 2)
unfolding ◌*ℤ◌
double a h =
    let e : pos a *ℤ pos 2 ≡ pos (a * 2) = ground arith in
    rw e (wrap32_lem (pos (a * 2)) (omega arith))

power-lem :
    (f : Fighter) (attr : ℕ)
    → IsArmed f
    → (if number f.attr == attr then wrap32 (pos f.atk *ℤ pos 2) else pos f.atk)
      ≡ pos (power f attr)
power-lem f attr h = elim (Bool-cases (number f.attr == attr)) [
  | inl e ↦ rw e (double f.atk h.1)
  | inr e ↦ rw e refl
]

power_bounds : (f : Fighter) (attr : ℕ) → IsArmed f → (0 < power f attr) × (power f attr < 2 ^ 31)
power_bounds f attr h = elim (Bool-cases (number f.attr == attr)) [
  | inl e ↦ rw e (omega (arith, h.0), omega (arith, h.1))
  | inr e ↦ rw e (h.0, omega (arith, h.1))
]

stands : (h a : ℕ) → h < 2 ^ 31 → a < h → wrap32 (pos h -ℤ pos a) ≡ pos (h - a)
unfolding ◌-ℤ◌
stands h a b lt =
    let e : pos h -ℤ pos a ≡ pos (h - a) = ground arith in
    rw e (wrap32_lem (pos (h - a)) (omega arith))

neg_of-wrap32 : (n : ℕ) → n < 2 ^ 31 → wrap32 (neg_of n) ≡ neg_of n
neg_of-wrap32 zero h = wrap32_lem (pos 0) (omega arith)
neg_of-wrap32 (suc n) h = wrap32_lem (negsuc n) (omega arith)

less : (h n : ℕ) → pos h -ℤ pos (h + n) ≡ neg_of n
unfolding ◌-ℤ◌
less h zero = ground arith
less h (suc n) = ground arith

falls : (h a : ℕ) → 0 < h → a < 2 ^ 31 → h ≤ a → wrap32 (pos h -ℤ pos a) ≡ neg_of (a - h)
falls h a p b le =
    let e : pos h -ℤ pos a ≡ neg_of (a - h) =
      ap (λ k. pos h -ℤ pos k) {x = a} {y = h + (a - h)} (omega arith) ∙ less h (a - h) in
    rw e (neg_of-wrap32 (a - h) (omega arith))

pub down-is_down : (n : ℕ) → ltb_ℤ (neg_of n) (pos 1) ≡ true
down-is_down zero = refl
down-is_down (suc n) = ground arith

pub up_is_up : (h : ℕ) → 0 < h → ltb_ℤ (pos h) (pos 1) ≡ false
up_is_up h p = ground arith

-- An attack either leaves the target on its feet with less HP, or ends the battle.
play_an_attack-cases :
    (f g : Fighter) (h k d attr : ℕ)
    → IsArmed f
    → 0 < k
    → k < 2 ^ 31
    → ((k' : ℕ) × (0 < k')
        × (k' < k)
        × (play_an_attack (fresh f h d) (fresh g k d) attr ≡ (fresh f h d, fresh g k' d, false)))
      ⊎ ((n : ℕ) × (play_an_attack (fresh f h d) (fresh g k d) attr
            ≡ (over f h d, down g n d, true)))
unfolding play_an_attack
play_an_attack-cases f g h k d attr armed p b =
    let a = power f attr in
    elim (Bool-cases (ltb a k)) [
      | inl e ↦
          let lt : a < k = ground arith in
          inl (
            k - a,
            omega arith,
            omega (arith, (power_bounds f attr armed).0),
            rw (power-lem f attr armed, stands k a b lt, up_is_up (k - a) (omega arith)) refl,
          )
      | inr e ↦
          let le : k ≤ a = ground arith in
          inr (
            a - k,
            rw
                (
                  power-lem f attr armed,
                  falls k a p (power_bounds f attr armed).1 le,
                  down-is_down (a - k),
                )
                refl,
          )
    ]

-- A round either leaves both on their feet with less HP, or one of them has won; the place of the
-- winner is the last value of first_attack.
pub battle_round-cases :
    (f g : Fighter) (h k c d id attr : ℕ)
    → IsArmed f
    → IsArmed g
    → 0 < h
    → 0 < k
    → h < 2 ^ 31
    → k < 2 ^ 31
    → ((h' k' : ℕ) × (first : Bool) × (0 < h')
        × (0 < k')
        × (h' < h)
        × (k' < k)
        × (battle_round id attr (fresh f h c, fresh g k d)
            ≡ ((fresh f h' id, fresh g k' id), first)))
      ⊎ (((h' n : ℕ) × (0 < h')
            × (h' ≤ h)
            × (battle_round id attr (fresh f h c, fresh g k d)
                ≡ ((over f h' id, down g n id), false)))
          ⊎ ((k' n : ℕ) × (0 < k')
              × (k' ≤ k)
              × (battle_round id attr (fresh f h c, fresh g k d)
                  ≡ ((down f n id, over g k' id), true))))
unfolding battle_round attack
battle_round-cases f g h k c d id attr af ag ph pk bh bk =
    elim (Bool-cases (first_attack (fresh f h c) (fresh g k d))) [
      | inl e ↦ elim (play_an_attack-cases g f k h id attr ag ph bh) [
        | inr (n, r) ↦ inr (inr (k, n, pk, omega arith, rw (e, r) refl))
        | inl (h', p, l, r) ↦ elim (play_an_attack-cases f g h' k id attr af pk bk) [
          | inr (n, s) ↦ inr (inl (h', n, p, omega arith, rw (e, r, s) refl))
          | inl (k', q, m, s) ↦ inl (h', k', false, p, q, l, m, rw (e, r, s) refl)
        ]
      ]
      | inr e ↦ elim (play_an_attack-cases f g h k id attr af pk bk) [
        | inr (n, r) ↦ inr (inl (h, n, ph, omega arith, rw (e, r) refl))
        | inl (k', p, l, r) ↦ elim (play_an_attack-cases g f k' h id attr ag ph bh) [
          | inr (n, s) ↦ inr (inr (k', n, p, omega arith, rw (e, r, s) refl))
          | inl (h', q, m, s) ↦ inl (h', k', true, q, p, m, l, rw (e, r, s) refl)
        ]
      ]
    ]
