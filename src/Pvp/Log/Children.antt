-- ===== src/Pvp/Log/Children.antt =====
-- pvp-championship: what the children of a battle log behind a message.
use sp_hw.Base.{
  ℕ, ◌≤◌, ◌<◌, refl, sym, inl, inr, Bool, List, [], ◌∷◌, ◌++◌, some, arith, Bool-cases,
}
use sp_hw.Base.Decimal.{print_int}
use mathlib.Core.Path.{subst}
use sp_hw.Base.Error.{◌>>=◌}
use sp_hw.Pvp.Status.{Status}
use sp_hw.Pvp.Player.{Reply, answers, exits, hear}
use sp_hw.Pvp.Battle.{is_over, relay, tell}
use sp_hw.Pvp.Log.{Logged}
use sp_hw.Pvp.Log.Tally.{written-append, was_read-append, Told, hear_log-Told}
use sp_hw.Pvp.Log.Player.{hear_log}
use sp_hw.Pvp.Log.Battle.{
  Party, player_at, passing_at, process, read_status, write_status, relay_log, tell_log,
}
use sp_hw.Pvp.Log.Names.{own_name, child_of, Seated, Seated-names}
use sp_hw.Pvp.Log.Same.{Logs, neither, both, Logs-bind}

module _ (pid : List ℕ → ℕ) where
  relay_log-Told :
      (id b : ℕ) (name : List ℕ) (s : Status) (r : Reply) (l : List Logged)
      → Told pid b name s r l
      → Logs
          (relay s r >>= λ r'. some (
            r',
            (read_status pid b (id ∷ []) s ∷ write_status pid b name s ∷ l)
                ++ relay_log pid b name (id ∷ []) r',
          ))
          (relay s r)
          (Told pid id (b ∷ []) s)
  relay_log-Told id b name s (answers a) l told = elim (Bool-cases (is_over s)) [
    | inl e ↦ neither (rw e refl) (rw e refl)
    | inr e ↦
        let more = read_status pid b name a ∷ write_status pid b (id ∷ []) a ∷ [] in
        both (answers a) ((read_status pid b (id ∷ []) s ∷ write_status pid b name s ∷ l) ++ more)
          (rw e refl) (rw e refl)
          (λ test.
            omega (arith, told test, written-append test l more, was_read-append test l more))
  ]
  relay_log-Told id b name s (exits h) l told = elim (Bool-cases (is_over s)) [
    | inl e ↦
        both (exits h) ((read_status pid b (id ∷ []) s ∷ write_status pid b name s ∷ l) ++ [])
          (rw e refl) (rw e refl)
          (λ test. omega (arith, told test, written-append test l [], was_read-append test l []))
    | inr e ↦ neither (rw e refl) (rw e refl)
  ]

  pub tell_log-Told :
      (id : ℕ) (i : Bool) (c : Party) (s : Status)
      → 65 ≤ id
      → id < 79
      → Seated id i c
      → Logs (tell_log pid c s) (tell (process c) s) (Told pid id (own_name (child_of c)) s)
  unfolding tell_log tell
  tell_log-Told id i (player_at parent p) s low high at =
      subst (λ x. Logs (hear_log pid x p s) (hear p s) (Told pid id (print_int p.player_id) s))
        (sym at.0) (hear_log-Told pid id p s (Seated-names id i (player_at parent p) low high at).1)
  tell_log-Told id i (passing_at parent b j c) s low high at =
      let (name_of, names) = Seated-names id i (passing_at parent b j c) low high at in
      let (up, from, upto) = names in
      let (name, below) = Seated-names b j c from upto at.2 in
      rw (name, up)
        (Logs-bind _ (λ m. m >>= relay s) _ refl (tell_log-Told b j c s from upto at.2)
          (relay_log-Told id b (own_name (child_of c)) s))
