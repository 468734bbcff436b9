-- ===== src/Pvp/Log/Closing.antt =====
-- pvp-championship: what the logs say of the end of a battle.
use sp_hw.Base.{
  ℕ, ◌+◌, ◌≡◌, refl, sym, inl, inr, Bool, true, false, List, [], ◌∷◌, some, arith, if◌then◌else◌,
  Bool-cases, ◌==◌,
}
use mathlib.Core.Path.{subst}
use sp_hw.Base.Error.{◌>>=◌}
use sp_hw.Pvp.Status.{Status, entry}
use sp_hw.Pvp.Player.{Reply, answers, exits}
use sp_hw.Pvp.Battle.{Process, passing, ending, Outcome, champion, goes_on, settle}
use sp_hw.Pvp.Championship.{battle_parent}
use sp_hw.Pvp.Log.Battle.{read_status, write_status, Course, closing_log}
use sp_hw.Pvp.Log.Tally.{Message, written, was_read, crossing, replied}
use sp_hw.Pvp.Log.Same.{Logs, neither, both}

-- Who goes on has won.
abbrev pub Won : Process → Outcome → Type 0
Won c (champion k) = Unit {0}
Won c (goes_on a c' h) = c' ≡ passing c

module _ (pid : List ℕ → ℕ) where
  -- The winner's next status, on its way to the parent of the battle.
  abbrev pub upward : (Message → Bool) → ℕ → List ℕ → Outcome → ℕ
  upward test id up (champion k) = 0
  upward test id up (goes_on a c h) = crossing pid test (id ∷ []) up a

  -- The lines from the replies of the last turn on.
  abbrev pub Closed :
      ℕ → List ℕ → List ℕ → List ℕ → Reply → Reply → Process → Process → Outcome → Course → Type 0
  Closed id up n0 n1 r0 r1 c0 c1 o w =
      ((test : Message → Bool)
        → written test w.lines + replied pid test n0 (id ∷ []) r0 + replied pid test n1 (id ∷ []) r1
          ≡ was_read test w.lines + upward test id up o)
      × Won (if w.winner then c1 else c0) o

  settle-Closed :
      (id : ℕ) (first : Bool) (up name other : List ℕ) (final : Status) (c : Process)
      (winner loser : Reply)
      → entry battle_parent id ≡ some up
      → Logs {L = Course}
          (settle id (record { final = final; winner = winner; winner_process = c; loser = loser })
            >>= λ o.
                closing_log pid id name o >>= λ l. some (o, record { winner = first; lines = l }))
          (settle id (record { final = final; winner = winner; winner_process = c; loser = loser }))
          (λ o w.
            ((test : Message → Bool)
              → written test w.lines
                  + replied pid test name (id ∷ []) winner
                  + replied pid test other (id ∷ []) loser
                ≡ was_read test w.lines + upward test id up o)
            × Won c o
            × (w.winner ≡ first))
  unfolding settle closing_log
  settle-Closed id first up name other final c winner (answers s) e = neither refl refl
  settle-Closed id first up name other final c (exits g) (exits h) e =
      elim (Bool-cases (id == 65)) [
        | inl last ↦
            both (champion final.real_player_id) (record { winner = first; lines = [] })
              (rw last refl) (rw last refl) ((λ test. refl), tt, refl)
        | inr more ↦ neither (rw more refl) (rw more refl)
      ]
  settle-Closed id first up name other final c (answers a) (exits h) e =
      elim (Bool-cases (id == 65)) [
        | inl last ↦ neither (rw last refl) (rw last refl)
        | inr more ↦
            both (goes_on a (passing c) h)
              (record {
                winner = first;
                lines = read_status pid id name a ∷ write_status pid id up a ∷ [];
              })
              (rw (more, e) refl) (rw more refl) ((λ test. omega arith), refl, refl)
      ]

  pub ending-Closed :
      (id : ℕ) (up n0 n1 : List ℕ) (first : Bool) (c0 c1 : Process) (after : Status × Status)
      (r0 r1 : Reply)
      → entry battle_parent id ≡ some up
      → Logs {L = Course}
          (settle id (ending first c0 c1 after r0 r1) >>= λ o.
            closing_log pid id (if first then n1 else n0) o >>= λ l.
            some (o, record { winner = first; lines = l }))
          (settle id (ending first c0 c1 after r0 r1))
          (Closed id up n0 n1 r0 r1 c0 c1)
  ending-Closed id up n0 n1 true c0 c1 (s0, s1) r0 r1 e =
      elim (settle-Closed id true up n1 n0 s1 c1 r1 r0 e) [
        | neither f g ↦ neither f g
        | both o w f g (closed, won, is) ↦ both o w f g (
          (λ test. omega (arith, closed test)),
          subst (λ b. Won (if b then c1 else c0) o) (sym is) won,
        )
      ]
  ending-Closed id up n0 n1 false c0 c1 (s0, s1) r0 r1 e =
      elim (settle-Closed id false up n0 n1 s0 c0 r0 r1 e) [
        | neither f g ↦ neither f g
        | both o w f g (closed, won, is) ↦
            both o w f g (closed, subst (λ b. Won (if b then c1 else c0) o) (sym is) won)
      ]
