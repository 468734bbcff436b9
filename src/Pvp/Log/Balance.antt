-- ===== src/Pvp/Log/Balance.antt =====
-- pvp-championship: what the logs say of the messages through the pipes.
use sp_hw.Base.{
  ℕ, zero, suc, ◌+◌, ◌≡◌, ◌≤◌, ◌<◌, refl, inl, inr, Bool, true, false, List, [], ◌∷◌, ◌++◌, Option,
  some, arith, if◌then◌else◌, Option-cases, Bool-cases,
}
use sp_hw.Base.Int.{pos, eq_ℤ}
use sp_hw.Base.Error.{◌>>=◌}
use sp_hw.Pvp.Status.{Status, entry}
use sp_hw.Pvp.Player.{Reply, answers, exits}
use sp_hw.Pvp.Battle.{
  Process, tell, Ended, ending, both_answer, battle_attr, battle_round, exchange, battle_loop,
  battle, Outcome, settle,
}
use sp_hw.Pvp.Championship.{battle_parent}
use sp_hw.Pvp.Log.Battle.{
  Party, process, read_status, write_status, Course, noted, closing_log, exchange_log, loop_log,
  battle_log,
}
use sp_hw.Pvp.Log.Tally.{Message, written, was_read, written-append, was_read-append, crossing}
use sp_hw.Pvp.Log.Names.{own_name, child_of, Seated, Seated-names}
use sp_hw.Pvp.Log.Same.{Logs, neither, both, Logs-bind}
use sp_hw.Pvp.Log.Children.{tell_log-Told}
use sp_hw.Pvp.Log.Closing.{upward, Won, Closed, ending-Closed}

module _ (pid : List ℕ → ℕ) where
  -- As many messages have been read as written, but for the one to the parent.
  abbrev Fought : ℕ → List ℕ → Process → Process → Outcome → Course → Type 0
  Fought id up c0 c1 o w =
      ((test : Message → Bool)
        → written test w.lines ≡ was_read test w.lines + upward pid test id up o)
      × Won (if w.winner then c1 else c0) o

  module _ (id : ℕ) (up : List ℕ) (c0 c1 : Party) (low : 65 ≤ id) (high : id < 79)
      (at0 : Seated id false c0) (at1 : Seated id true c1)
      (up_is : entry battle_parent id ≡ some up) where
    abbrev n0 : List ℕ
    n0 = own_name (child_of c0)

    abbrev n1 : List ℕ
    n1 = own_name (child_of c1)

    -- The end of a turn without its log.
    abbrev decided :
        (Status × Status → Option Ended)
        → (Status × Status) × Bool
        → Bool
        → Reply
        → Reply
        → Option Ended
    decided rest (after, first) more r0 r1 = elim more [
      | true ↦ both_answer r0 r1 >>= rest
      | false ↦ some (ending first (process c0) (process c1) after r0 r1)
    ]

    abbrev decided_log :
        (Status × Status → Option (Outcome × Course))
        → (Status × Status) × Bool
        → Bool
        → Reply
        → Reply
        → Option (Outcome × Course)
    decided_log next (after, first) more r0 r1 = elim more [
      | true ↦ both_answer r0 r1 >>= λ s. next s >>= λ v.
          some (v.0, noted (read_status pid id n0 s.0 ∷ read_status pid id n1 s.1 ∷ []) v.1)
      | false ↦ settle id (ending first (process c0) (process c1) after r0 r1) >>= λ o.
          closing_log pid id (if first then n1 else n0) o >>= λ l.
          some (o, record { winner = first; lines = l })
    ]

    answered-Closed :
        (next : Status × Status → Option (Outcome × Course)) (rest : Status × Status → Option Ended)
        (r0 r1 : Reply)
        → ((s : Status × Status)
            → Logs (next s) (rest s >>= settle id) (Fought id up (process c0) (process c1)))
        → Logs
            (both_answer r0 r1 >>= λ s. next s >>= λ v.
              some (v.0, noted (read_status pid id n0 s.0 ∷ read_status pid id n1 s.1 ∷ []) v.1))
            ((both_answer r0 r1 >>= rest) >>= settle id)
            (Closed pid id up n0 n1 r0 r1 (process c0) (process c1))
    answered-Closed next rest (answers a) (answers b) fights =
        Logs-bind _ (λ m. m) _ refl (fights (a, b))
          (λ o l fought.
            both o (noted (read_status pid id n0 a ∷ read_status pid id n1 b ∷ []) l) refl refl
              ((λ test. omega (arith, fought.0 test)), fought.1))
    answered-Closed next rest (answers a) (exits h) fights = neither refl refl
    answered-Closed next rest (exits h) r fights = neither refl refl

    decided-Closed :
        (next : Status × Status → Option (Outcome × Course)) (rest : Status × Status → Option Ended)
        (v : (Status × Status) × Bool) (more : Bool) (r0 r1 : Reply)
        → ((s : Status × Status)
            → Logs (next s) (rest s >>= settle id) (Fought id up (process c0) (process c1)))
        → Logs
            (decided_log next v more r0 r1)
            (decided rest v more r0 r1 >>= settle id)
            (Closed pid id up n0 n1 r0 r1 (process c0) (process c1))
    decided-Closed next rest (after, first) true r0 r1 fights =
        answered-Closed next rest r0 r1 fights
    decided-Closed next rest (after, first) false r0 r1 fights =
        ending-Closed pid id up n0 n1 first (process c0) (process c1) after r0 r1 up_is

    exchange_log-Fought :
        (next : Status × Status → Option (Outcome × Course)) (rest : Status × Status → Option Ended)
        (v : (Status × Status) × Bool)
        → ((s : Status × Status)
            → Logs (next s) (rest s >>= settle id) (Fought id up (process c0) (process c1)))
        → Logs
            (exchange_log pid next id n0 n1 c0 c1 v)
            (exchange rest (process c0) (process c1) v >>= settle id)
            (Fought id up (process c0) (process c1))
    exchange_log-Fought next rest (after, first) fights =
        Logs-bind _
          (λ m.
            (m >>= λ r0.
            tell (process c1) after.1
            >>= decided rest (after, first) (eq_ℤ after.0.battle_ended_flag (pos 0)) r0)
            >>= settle id)
          _ refl (tell_log-Told pid id false c0 after.0 low high at0)
          (λ r0 l0 told0.
            Logs-bind _
              (λ m.
                (m >>= decided rest (after, first) (eq_ℤ after.0.battle_ended_flag (pos 0)) r0)
                >>= settle id)
              _ refl (tell_log-Told pid id true c1 after.1 low high at1)
              (λ r1 l1 told1.
                Logs-bind _ (λ m. m) _ refl
                  (decided-Closed next rest (after, first) (eq_ℤ after.0.battle_ended_flag (pos 0))
                    r0 r1 fights)
                  (λ o l closed.
                    both o
                      (noted
                        (write_status pid id n0 after.0
                          ∷ write_status pid id n1 after.1
                          ∷ (l0 ++ l1))
                        l)
                      refl refl
                      (
                        (λ test. omega (
                          arith,
                          told0 test,
                          told1 test,
                          closed.0 test,
                          written-append test (l0 ++ l1) l.lines,
                          was_read-append test (l0 ++ l1) l.lines,
                          written-append test l0 l1,
                          was_read-append test l0 l1,
                        )),
                        closed.1,
                      ))))

    loop_log-Fought :
        (fuel attr : ℕ) (s : Status × Status)
        → Logs
            (loop_log pid fuel id attr n0 n1 c0 c1 s)
            (battle_loop fuel id attr (process c0) (process c1) s >>= settle id)
            (Fought id up (process c0) (process c1))
    unfolding loop_log battle_loop
    loop_log-Fought zero attr s = neither refl refl
    loop_log-Fought (suc fuel) attr s = elim (Bool-cases (eq_ℤ s.0.battle_ended_flag (pos 0))) [
      | inl e ↦ rw e (
          exchange_log-Fought (loop_log pid fuel id attr n0 n1 c0 c1)
            (battle_loop fuel id attr (process c0) (process c1)) (battle_round id attr s)
            (loop_log-Fought fuel attr))
      | inr e ↦ rw e (neither refl refl)
    ]

    pub battle_log-Fought :
        (fuel : ℕ) (s0 s1 : Status)
        → Logs
            (battle_log pid fuel id (s0, c0) (s1, c1))
            (battle fuel id (s0, process c0) (s1, process c1))
            (λ o w.
              ((test : Message → Bool)
                → written test w.lines
                    + crossing pid test n0 (id ∷ []) s0
                    + crossing pid test n1 (id ∷ []) s1
                  ≡ was_read test w.lines + upward pid test id up o)
              × Won (if w.winner then process c1 else process c0) o)
    unfolding battle_log battle
    battle_log-Fought fuel s0 s1 =
        let name0 = (Seated-names id false c0 low high at0).0 in
        let name1 = (Seated-names id true c1 low high at1).0 in
        elim (Option-cases (entry battle_attr id)) [
          | inl e ↦ rw e (neither refl refl)
          | inr (attr, e) ↦
              rw (e, name0, name1)
                (Logs-bind _ (λ m. m) _ refl (loop_log-Fought fuel attr (s0, s1))
                  (λ o l fought.
                    both o (noted (read_status pid id n0 s0 ∷ read_status pid id n1 s1 ∷ []) l) refl
                      refl ((λ test. omega (arith, fought.0 test)), fought.1)))
        ]
