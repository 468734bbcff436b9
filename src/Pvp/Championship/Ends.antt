-- ===== src/Pvp/Championship/Ends.antt =====
-- The championship has an end: every battle is fought, and the last one prints a champion.
use sp_hw.Base.{ℕ, suc, ◌≡◌, ◌<◌, refl, true, false, List, some, arith, ◌==◌, length, All}
use sp_hw.Base.Int.{pos}
use sp_hw.Base.Decimal.{atoi, wrap32}
use sp_hw.Pvp.Status.{entry}
use sp_hw.Pvp.Player.{fifo}
use sp_hw.Pvp.Battle.{battle_attr}
use sp_hw.Pvp.Battle.Fight.{battle_champion}
use sp_hw.Pvp.Championship.{battle_child, player_child, child, feeder, fought, championship}
use sp_hw.Pvp.Championship.Arrivals.{
  IsFit, Comes, entrant_real, entrant_battle, entrant_agent, fought-goes_on,
}

module _ (rounds : ℕ) (file : List (List ℕ)) (eight : length file ≡ 8)
    (fit : All (IsFit rounds) file) where
  -- The battles of the real players, and what their losers leave to the agents.
  fought_first :
      (d id attr k i : ℕ)
      → (id == 65) ≡ false
      → entry battle_attr id ≡ some attr
      → entry fifo id ≡ some (pos k)
      → (child id 0 ≡ some (player_child (pos i)))
        × (child id 1 ≡ some (player_child (pos (suc i))))
      → suc i < 8
      → Comes rounds file eight fit (suc d) id true (pos k)
  fought_first d id attr k i l a at cs b =
      fought-goes_on rounds file eight fit d id attr true (pos k) (player_child (pos i))
        (player_child (pos (suc i))) l a (λ _. at) cs
        (entrant_real rounds file eight fit d i (omega arith))
        (entrant_real rounds file eight fit d (suc i) b)

  fought_g : (d : ℕ) → Comes rounds file eight fit (suc d) 71 true (pos 8)
  unfolding child atoi wrap32
  fought_g d = fought_first d 71 0 8 0 refl refl refl (refl, refl) (omega arith)

  fought_h : (d : ℕ) → Comes rounds file eight fit (suc d) 72 true (pos 11)
  unfolding child atoi wrap32
  fought_h d = fought_first d 72 1 11 2 refl refl refl (refl, refl) (omega arith)

  fought_i : (d : ℕ) → Comes rounds file eight fit (suc d) 73 true (pos 9)
  unfolding child atoi wrap32
  fought_i d = fought_first d 73 2 9 4 refl refl refl (refl, refl) (omega arith)

  fought_j : (d : ℕ) → Comes rounds file eight fit (suc d) 74 true (pos 12)
  unfolding child atoi wrap32
  fought_j d = fought_first d 74 1 12 6 refl refl refl (refl, refl) (omega arith)

  fought_d : (d : ℕ) → Comes rounds file eight fit (suc (suc d)) 68 true (pos 10)
  unfolding child
  fought_d d =
      fought-goes_on rounds file eight fit (suc d) 68 2 true (pos 10) (battle_child 71)
        (battle_child 72) refl refl (λ _. refl) (refl, refl)
        (entrant_battle rounds file eight fit (suc d) 71 true (pos 8) (fought_g d))
        (entrant_battle rounds file eight fit (suc d) 72 true (pos 11) (fought_h d))

  fought_e : (d : ℕ) → Comes rounds file eight fit (suc (suc d)) 69 true (pos 13)
  unfolding child
  fought_e d =
      fought-goes_on rounds file eight fit (suc d) 69 0 true (pos 13) (battle_child 73)
        (battle_child 74) refl refl (λ _. refl) (refl, refl)
        (entrant_battle rounds file eight fit (suc d) 73 true (pos 9) (fought_i d))
        (entrant_battle rounds file eight fit (suc d) 74 true (pos 12) (fought_j d))

  fought_b : (d : ℕ) → Comes rounds file eight fit (suc (suc (suc d))) 66 true (pos 14)
  unfolding child
  fought_b d =
      fought-goes_on rounds file eight fit (suc (suc d)) 66 1 true (pos 14) (battle_child 68)
        (battle_child 69) refl refl (λ _. refl) (refl, refl)
        (entrant_battle rounds file eight fit (suc (suc d)) 68 true (pos 10) (fought_d d))
        (entrant_battle rounds file eight fit (suc (suc d)) 69 true (pos 13) (fought_e d))

  -- The battles of the agents.
  fought_second :
      (d id attr k i b c : ℕ)
      → (id == 65) ≡ false
      → entry battle_attr id ≡ some attr
      → (child id 0 ≡ some (player_child (pos k))) × (child id 1 ≡ some (player_child (pos i)))
      → (7 < k) × (7 < i)
      → (feeder (pos k) 65 fifo ≡ some b) × (feeder (pos i) 65 fifo ≡ some c)
      → Comes rounds file eight fit d b true (pos k)
      → Comes rounds file eight fit d c true (pos i)
      → Comes rounds file eight fit (suc d) id false (pos 0)
  fought_second d id attr k i b c l a cs above feeds x y =
      fought-goes_on rounds file eight fit d id attr false (pos 0) (player_child (pos k))
        (player_child (pos i)) l a (λ e. cc) cs
        (entrant_agent rounds file eight fit d k b above.0 feeds.0 x)
        (entrant_agent rounds file eight fit d i c above.1 feeds.1 y)

  fought_m : (d : ℕ) → Comes rounds file eight fit (suc (suc d)) 77 false (pos 0)
  unfolding child atoi wrap32
  fought_m d =
      fought_second (suc d) 77 0 8 9 71 73 refl refl (refl, refl) (omega arith, omega arith)
        (refl, refl) (fought_g d) (fought_i d)

  fought_n : (d : ℕ) → Comes rounds file eight fit (suc (suc d)) 78 false (pos 0)
  unfolding child atoi wrap32
  fought_n d =
      fought_second (suc d) 78 2 11 12 72 74 refl refl (refl, refl) (omega arith, omega arith)
        (refl, refl) (fought_h d) (fought_j d)

  -- A battle of agents and one more agent.
  fought_third :
      (d id attr m k b : ℕ)
      → (id == 65) ≡ false
      → entry battle_attr id ≡ some attr
      → (child id 0 ≡ some (battle_child m)) × (child id 1 ≡ some (player_child (pos k)))
      → 7 < k
      → feeder (pos k) 65 fifo ≡ some b
      → Comes rounds file eight fit d m false (pos 0)
      → Comes rounds file eight fit d b true (pos k)
      → Comes rounds file eight fit (suc d) id false (pos 0)
  fought_third d id attr m k b l a cs above feeds x y =
      fought-goes_on rounds file eight fit d id attr false (pos 0) (battle_child m)
        (player_child (pos k)) l a (λ e. cc) cs
        (entrant_battle rounds file eight fit d m false (pos 0) x)
        (entrant_agent rounds file eight fit d k b above feeds y)

  fought_k : (d : ℕ) → Comes rounds file eight fit (suc (suc (suc d))) 75 false (pos 0)
  unfolding child atoi wrap32
  fought_k d =
      fought_third (suc (suc d)) 75 1 77 10 68 refl refl (refl, refl) (omega arith) refl
        (fought_m d) (fought_d d)

  fought_l : (d : ℕ) → Comes rounds file eight fit (suc (suc (suc d))) 76 false (pos 0)
  unfolding child atoi wrap32
  fought_l d =
      fought_third (suc (suc d)) 76 1 78 13 69 refl refl (refl, refl) (omega arith) refl
        (fought_n d) (fought_e d)

  fought_f : (d : ℕ) → Comes rounds file eight fit (suc (suc (suc (suc d)))) 70 false (pos 0)
  unfolding child
  fought_f d =
      fought-goes_on rounds file eight fit (suc (suc (suc d))) 70 0 false (pos 0) (battle_child 75)
        (battle_child 76) refl refl (λ e. cc) (refl, refl)
        (entrant_battle rounds file eight fit (suc (suc (suc d))) 75 false (pos 0) (fought_k d))
        (entrant_battle rounds file eight fit (suc (suc (suc d))) 76 false (pos 0) (fought_l d))

  fought_c : (d : ℕ) → Comes rounds file eight fit (suc (suc (suc (suc (suc d))))) 67 false (pos 0)
  unfolding child atoi wrap32
  fought_c d =
      fought_third (suc (suc (suc (suc d)))) 67 2 70 14 66 refl refl (refl, refl) (omega arith) refl
        (fought_f d) (fought_b (suc d))

-- If the eight players of the file have positive HP and power, the power below 2^30, and start with
-- the flag 0, then battle A prints one of them as the champion; as many rounds for each battle
-- are enough as no player has more HP than.
pub championship_ends :
    (rounds : ℕ) (file : List (List ℕ))
    → length file ≡ 8
    → All (IsFit rounds) file
    → (n : ℕ) × (n < 8) × (championship rounds file ≡ some (pos n))
unfolding championship child fought
championship_ends rounds file eight fit =
    let (e0, r0, i0) =
      entrant_battle rounds file eight fit 5 66 true (pos 14) (fought_b rounds file eight fit 2) in
    let (e1, r1, i1) =
      entrant_battle rounds file eight fit 5 67 false (pos 0) (fought_c rounds file eight fit 0) in
    let (n, b, e) = battle_champion rounds true false e0 e1 i0 i1 in (n, b, rw (r0, r1, e) refl)
