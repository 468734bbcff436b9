-- ===== src/Pvp/Battle/Rounds.antt =====
-- The loop of a battle ends when one of its players is down.
use sp_hw.Base.{
  ℕ, zero, suc, ◌^◌, ◌≡◌, ◌≤◌, ◌<◌, refl, ap, ◌∙◌, ◌⊎◌, inl, inr, Bool, true, false, Option, some,
  arith,
}
use sp_hw.Base.Error.{◌>>=◌}
use sp_hw.Pvp.Status.{Status}
use sp_hw.Pvp.Battle.{Process, tell, Ended, ending, exchange, battle_loop}
use sp_hw.Pvp.Battle.Attack.{Fighter, IsArmed, fresh, over, down, battle_round-cases}
use sp_hw.Pvp.Battle.Messages.{tell-fresh}

-- The last statuses are sent, and the replies read.
unfoldable pub finish : Bool → Process → Process → Status × Status → Option Ended
finish first c0 c1 both =
    tell c0 both.0 >>= λ r0. tell c1 both.1 >>= λ r1. some (ending first c0 c1 both r0 r1)

-- Each round costs both players HP, so as many rounds as one of them has HP are enough.
pub battle_loop-finish :
    (fuel id attr : ℕ) (c0 c1 : Process) (f g : Fighter) (h k c d : ℕ)
    → IsArmed f
    → IsArmed g
    → 0 < h
    → 0 < k
    → h < 2 ^ 31
    → k < 2 ^ 31
    → h ≤ fuel
    → ((h' n : ℕ) × (0 < h')
        × (h' ≤ h)
        × (battle_loop fuel id attr c0 c1 (fresh f h c, fresh g k d)
            ≡ finish false c0 c1 (over f h' id, down g n id)))
      ⊎ ((k' n : ℕ) × (0 < k')
          × (k' ≤ k)
          × (battle_loop fuel id attr c0 c1 (fresh f h c, fresh g k d)
              ≡ finish true c0 c1 (down f n id, over g k' id)))
unfolding battle_loop finish
battle_loop-finish zero id attr c0 c1 f g h k c d af ag ph pk bh bk enough = absurd (omega arith)
battle_loop-finish (suc fuel) id attr c0 c1 f g h k c d af ag ph pk bh bk enough =
    elim (battle_round-cases f g h k c d id attr af ag ph pk bh bk) [
      | inr (inl (h', n, p, l, e)) ↦
          inl (h', n, p, l, ap (exchange (battle_loop fuel id attr c0 c1) c0 c1) e)
      | inr (inr (k', n, p, l, e)) ↦
          inr (k', n, p, l, ap (exchange (battle_loop fuel id attr c0 c1) c0 c1) e)
      | inl (h', k', first, p, q, l, m, e) ↦
          let answered : exchange (battle_loop fuel id attr c0 c1) c0 c1
                ((fresh f h' id, fresh g k' id), first)
              ≡ battle_loop fuel id attr c0 c1 (fresh f h' id, fresh g k' id) =
            rw (tell-fresh c0 f h' id p, tell-fresh c1 g k' id q) refl in
          let step = ap (exchange (battle_loop fuel id attr c0 c1) c0 c1) e ∙ answered in
          elim (battle_loop-finish fuel id attr c0 c1 f g h' k' id id af ag p q (omega arith)
            (omega arith) (omega arith)) [
              | inl (h'', n, p', l', e') ↦ inl (h'', n, p', omega arith, step ∙ e')
              | inr (k'', n, p', l', e') ↦ inr (k'', n, p', omega arith, step ∙ e')
            ]
    ]
