-- ===== src/Pvp/Log/Names.antt =====
-- pvp-championship: the names that the processes go by in each other's logs are those of the tables.
use sp_hw.Base.{
  ℕ, zero, suc, ◌+◌, ◌≡◌, ◌≤◌, ◌<◌, refl, sym, ◌∙◌, ◌⊎◌, inl, inr, Bool, true, false, List, [], ◌∷◌,
  some, arith, if◌then◌else◌,
}
use sp_hw.Base.Int.{pos}
use sp_hw.Base.Decimal.{atoi, wrap32, print_int}
use mathlib.Core.Path.{subst}
use sp_hw.Pvp.Status.{entry}
use sp_hw.Pvp.Championship.{Child, battle_child, player_child, child, parent_of, battle_parent}
use sp_hw.Pvp.Log.Battle.{Party, player_at, passing_at, child_name}

-- For the `n` numbers from one on.
abbrev AllFrom : (ℕ → Type 0) → ℕ → ℕ → Type 0
AllFrom p zero id = Unit {0}
AllFrom p (suc n) id = p id × AllFrom p n (suc id)

AllFrom-at :
    (p : ℕ → Type 0) (n first id : ℕ) → AllFrom p n first → first ≤ id → id < first + n → p id
AllFrom-at p zero first id all l b = absurd (omega arith)
AllFrom-at p (suc n) first id all l b = elim (compare_le first id l) [
  | inl e ↦ subst p e all.0
  | inr m ↦ AllFrom-at p n (suc first) id all.1 m (omega arith)
]
  where
    compare_le : (a c : ℕ) → a ≤ c → (a ≡ c) ⊎ (suc a ≤ c)
    compare_le a c h = omega arith

-- The name that a process gives itself.
abbrev pub own_name : Child → List ℕ
own_name (battle_child id) = id ∷ []
own_name (player_child id) = print_int id

-- The name that a child gives its parent.
abbrev pub NamesParent : Child → ℕ → Type 0
NamesParent (battle_child id) parent =
    (entry battle_parent id ≡ some (parent ∷ [])) × (65 ≤ id) × (id < 79)
NamesParent (player_child id) parent = parent_of (player_child id) ≡ some parent

abbrev Forked : ℕ → Bool → Type 0
Forked id i =
    (k : Child) × (child id (if i then 1 else 0) ≡ some k)
    × (child_name id i ≡ some (own_name k))
    × NamesParent k id

-- A battle and its child know each other by the names that each gives itself.
pub child-names :
    (id : ℕ) (i : Bool)
    → 65 ≤ id
    → id < 79
    → (k : Child) × (child id (if i then 1 else 0) ≡ some k)
      × (child_name id i ≡ some (own_name k))
      × NamesParent k id
unfolding child parent_of atoi wrap32 print_int
child-names id i low high =
    at i (AllFrom-at (λ b. Forked b false × Forked b true) 14 65 id tables low high)
  where
    at : (i : Bool) → Forked id false × Forked id true → Forked id i
    at false both = both.0
    at true both = both.1

    named :
        (b : ℕ) (i : Bool) (k : Child)
        → child b (if i then 1 else 0) ≡ some k
        → child_name b i ≡ some (own_name k)
        → NamesParent k b
        → Forked b i
    named b i k e n p = (k, e, n, p)

    tables : AllFrom (λ b. Forked b false × Forked b true) 14 65
    tables = (
      (
        named _ false (battle_child 66) refl refl (refl, omega arith, omega arith),
        named _ true (battle_child 67) refl refl (refl, omega arith, omega arith),
      ),
      (
        (
          named _ false (battle_child 68) refl refl (refl, omega arith, omega arith),
          named _ true (battle_child 69) refl refl (refl, omega arith, omega arith),
        ),
        (
          (
            named _ false (battle_child 70) refl refl (refl, omega arith, omega arith),
            named _ true (player_child (pos 14)) refl refl refl,
          ),
          (
            (
              named _ false (battle_child 71) refl refl (refl, omega arith, omega arith),
              named _ true (battle_child 72) refl refl (refl, omega arith, omega arith),
            ),
            (
              (
                named _ false (battle_child 73) refl refl (refl, omega arith, omega arith),
                named _ true (battle_child 74) refl refl (refl, omega arith, omega arith),
              ),
              (
                (
                  named _ false (battle_child 75) refl refl (refl, omega arith, omega arith),
                  named _ true (battle_child 76) refl refl (refl, omega arith, omega arith),
                ),
                (
                  (
                    named _ false (player_child (pos 0)) refl refl refl,
                    named _ true (player_child (pos 1)) refl refl refl,
                  ),
                  (
                    (
                      named _ false (player_child (pos 2)) refl refl refl,
                      named _ true (player_child (pos 3)) refl refl refl,
                    ),
                    (
                      (
                        named _ false (player_child (pos 4)) refl refl refl,
                        named _ true (player_child (pos 5)) refl refl refl,
                      ),
                      (
                        (
                          named _ false (player_child (pos 6)) refl refl refl,
                          named _ true (player_child (pos 7)) refl refl refl,
                        ),
                        (
                          (
                            named _ false (battle_child 77) refl refl
                                (refl, omega arith, omega arith),
                            named _ true (player_child (pos 10)) refl refl refl,
                          ),
                          (
                            (
                              named _ false (battle_child 78) refl refl
                                  (refl, omega arith, omega arith),
                              named _ true (player_child (pos 13)) refl refl refl,
                            ),
                            (
                              (
                                named _ false (player_child (pos 8)) refl refl refl,
                                named _ true (player_child (pos 9)) refl refl refl,
                              ),
                              (
                                (
                                  named _ false (player_child (pos 11)) refl refl refl,
                                  named _ true (player_child (pos 12)) refl refl refl,
                                ),
                                tt,
                              ),
                            ),
                          ),
                        ),
                      ),
                    ),
                  ),
                ),
              ),
            ),
          ),
        ),
      ),
    )

forked-names :
    (id : ℕ) (i : Bool) (kid : Child)
    → 65 ≤ id
    → id < 79
    → child id (if i then 1 else 0) ≡ some kid
    → (child_name id i ≡ some (own_name kid)) × NamesParent kid id
forked-names id i kid low high at =
    let (k, e, n, up) = child-names id i low high in
    let same : k ≡ kid = some_inj k kid (sym e ∙ at) in
    subst (λ x. (child_name id i ≡ some (own_name x)) × NamesParent x id) same (n, up)
  where
    some_inj : (x y : Child) → some x ≡ some y → x ≡ y
    some_inj x y f = cc

-- What the child is, as its program was started.
abbrev pub child_of : Party → Child
child_of (player_at parent p) = player_child p.player_id
child_of (passing_at parent battle_id j c) = battle_child battle_id

-- The place of a child in the tree: its battle has forked it.
abbrev pub Seated : ℕ → Bool → Party → Type 0
Seated id i (player_at parent p) =
    (parent ≡ id) × (child id (if i then 1 else 0) ≡ some (player_child p.player_id))
Seated id i (passing_at parent battle_id j c) =
    (parent ≡ id)
    × (child id (if i then 1 else 0) ≡ some (battle_child battle_id))
    × Seated battle_id j c

pub Seated-names :
    (id : ℕ) (i : Bool) (c : Party)
    → 65 ≤ id
    → id < 79
    → Seated id i c
    → (child_name id i ≡ some (own_name (child_of c))) × NamesParent (child_of c) id
Seated-names id i (player_at parent p) low high at = forked-names id i _ low high at.1
Seated-names id i (passing_at parent battle_id j c) low high at = forked-names id i _ low high at.1
