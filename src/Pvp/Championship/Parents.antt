-- ===== src/Pvp/Championship/Parents.antt =====
-- The tables of battle.c and player.c that name children and parents agree.
use sp_hw.Base.{ℕ, ◌≡◌, ◌≤◌, ◌<◌, ap, true, false, some}
use sp_hw.Base.Error.{◌>>=◌}
use sp_hw.Pvp.Championship.{Child, battle_child, player_child, child, first_char, parent_of}
use sp_hw.Pvp.Log.Names.{NamesParent, child-names}

NamesParent-parent_of : (k : Child) (id : ℕ) → NamesParent k id → parent_of k ≡ some id
unfolding parent_of first_char
NamesParent-parent_of (battle_child b) id n = ap (λ m. m >>= λ name. some (first_char name)) n.0
NamesParent-parent_of (player_child k) id n = n

-- The children of a battle, from A to N, are forked, and name it as their parent in what they log.
pub parent_of-child :
    (id : ℕ)
    → 65 ≤ id
    → id < 79
    → (c0 c1 : Child) × (child id 0 ≡ some c0)
      × (child id 1 ≡ some c1)
      × (parent_of c0 ≡ some id)
      × (parent_of c1 ≡ some id)
parent_of-child id low high =
    let (c0, e0, n0, up0) = child-names id false low high in
    let (c1, e1, n1, up1) = child-names id true low high in
    (c0, c1, e0, e1, NamesParent-parent_of c0 id up0, NamesParent-parent_of c1 id up1)
