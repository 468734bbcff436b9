-- ===== src/Pvp/Log/Whole.antt =====
-- pvp-championship: in the logs of the whole championship no message is missing.
use sp_hw.Base.{
  ℕ, zero, suc, ◌+◌, ◌≡◌, ◌≢◌, ◌≤◌, ◌<◌, refl, sym, ap, ◌∙◌, inl, inr, Bool, true, false, List, [],
  ◌∷◌, ◌++◌, Option, none, some, arith, if◌then◌else◌, Bool-cases, length, All,
}
use sp_hw.Base.Int.{ℤ, pos, ltb_ℤ}
use mathlib.Core.Path.{subst}
use sp_hw.Base.Error.{◌>>=◌}
use sp_hw.Pvp.Status.{Status, entry}
use sp_hw.Pvp.Battle.{Process, Outcome, champion, goes_on, battle}
use sp_hw.Pvp.Player.{fifo}
use sp_hw.Pvp.Roster.{real_status, line_of}
use sp_hw.Pvp.Championship.{
  Child, battle_child, player_child, child, battle_parent, starts, feeder, winner_of, handed_over,
  entrant, fought, championship,
}
use sp_hw.Pvp.Championship.Arrivals.{IsFit}
use sp_hw.Pvp.Championship.Ends.{championship_ends}
use sp_hw.Pvp.Log.{Logged}
use sp_hw.Pvp.Log.Player.{opening_log}
use sp_hw.Pvp.Log.Battle.{process, Course, battle_log}
use sp_hw.Pvp.Log.Tally.{
  Message, written, was_read, written-append, was_read-append, crossing, opening_log-sends,
}
use sp_hw.Pvp.Log.Names.{own_name, NamesParent, child_of, child-names, Seated}
use sp_hw.Pvp.Log.Same.{Logs, neither, both, Logs-bind}
use sp_hw.Pvp.Log.Closing.{upward, Won}
use sp_hw.Pvp.Log.Balance.{battle_log-Fought}
use sp_hw.Pvp.Log.Tree.{
  Journey, Arrival, journey, arrived, seated, entrant_log, fought_log, championship_log,
}

-- A player sends what it starts with, if it comes to that.
data Starts (k : ℤ) (m : Option (Status × Process)) : Type 0 where
  fails : m ≡ none → Starts k m
  sends : (s : Status) → m ≡ some (starts k s) → Starts k m

Starts-bind :
    {A : Type 0} (k : ℤ) (m : Option A) (g : A → Option (Status × Process))
    → ((a : A) → Starts k (g a))
    → Starts k (m >>= g)
Starts-bind k none g h = fails refl
Starts-bind k (some a) g h = h a

entrant-Starts :
    (file : List (List ℕ)) (below : ℕ → Option Outcome) (k : ℤ)
    → Starts k (entrant file below (player_child k))
unfolding entrant
entrant-Starts file below k = elim (Bool-cases (ltb_ℤ (pos 7) k)) [
  | inl e ↦ rw e (
      Starts-bind k (feeder k 65 fifo) _
        (λ b. Starts-bind k (below b >>= handed_over) _ (λ message. sends message.1 refl)))
  | inr e ↦ rw e (Starts-bind k (line_of file k) _ (λ l. sends (real_status k l) refl))
]

module _ (pid : List ℕ → ℕ) where
  -- A child in its place, with all lines up to its first message.
  abbrev Arrives : ℕ → Bool → Status × Process → Arrival → Type 0
  Arrives id i e a =
      ((test : Message → Bool)
        → written test a.lines
          ≡ was_read test a.lines + crossing pid test (own_name (child_of a.party)) (id ∷ []) e.0)
      × (process a.party ≡ e.1)
      × Seated id i a.party

  -- A battle with all lines of its tree.
  abbrev Comes : ℕ → List ℕ → Outcome → Journey → Type 0
  Comes id up o j =
      ((test : Message → Bool)
        → written test j.lines ≡ was_read test j.lines + upward pid test id up o)
      × Won (process j.victor) o
      × Seated id j.winner j.victor

  journey-Comes :
      (id fuel : ℕ) (up : List ℕ) (s0 s1 : Status) (p0 p1 : Process) (a0 a1 : Arrival)
      → 65 ≤ id
      → id < 79
      → entry battle_parent id ≡ some up
      → Arrives id false (s0, p0) a0
      → Arrives id true (s1, p1) a1
      → Logs
          (battle_log pid fuel id (s0, a0.party) (s1, a1.party) >>= λ v.
            some (v.0, journey a0 a1 v.1))
          (battle fuel id (s0, p0) (s1, p1))
          (Comes id up)
  journey-Comes id fuel up s0 s1 p0 p1 a0 a1 low high up_is (sent0, is0, at0) (sent1, is1, at1) =
      let keep : Outcome × Course → Option (Outcome × Journey) =
        λ v. some (v.0, journey a0 a1 v.1) in
      let m = battle_log pid fuel id (s0, a0.party) (s1, a1.party) in
      subst (λ p. Logs (m >>= keep) (battle fuel id (s0, p) (s1, p1)) (Comes id up)) is0
        (subst
          (λ p. Logs (m >>= keep) (battle fuel id (s0, process a0.party) (s1, p)) (Comes id up)) is1
          (Logs-bind keep (λ m. m) _ refl
            (battle_log-Fought pid id up a0.party a1.party low high at0 at1 up_is fuel s0 s1)
            (λ o w fought. both o (journey a0 a1 w) refl refl (
              (λ test. omega (
                arith,
                fought.0 test,
                sent0 test,
                sent1 test,
                written-append test (a0.lines ++ a1.lines) w.lines,
                was_read-append test (a0.lines ++ a1.lines) w.lines,
                written-append test a0.lines a1.lines,
                was_read-append test a0.lines a1.lines,
              )),
              won w.winner o fought.1,
              at w.winner,
            ))))
    where
      won :
          (first : Bool) (o : Outcome)
          → Won (if first then process a1.party else process a0.party) o
          → Won (process (if first then a1.party else a0.party)) o
      won true o h = h
      won false o h = h

      at : (first : Bool) → Seated id first (if first then a1.party else a0.party)
      at true = at1
      at false = at0

  entrant_log-Arrives :
      (file : List (List ℕ)) (below : ℕ → Option Outcome)
      (below_log : ℕ → Option (Outcome × Journey)) (id : ℕ) (i : Bool) (k : Child)
      → child id (if i then 1 else 0) ≡ some k
      → NamesParent k id
      → ((b : ℕ)
          → 65 ≤ b
          → b < 79
          → entry battle_parent b ≡ some (id ∷ [])
          → Logs (below_log b) (below b) (Comes b (id ∷ [])))
      → Logs (entrant_log pid file below below_log id k) (entrant file below k) (Arrives id i)
  unfolding entrant_log
  entrant_log-Arrives file below below_log id i (battle_child b) at names fights =
      Logs-bind _ (λ m. m >>= winner_of) _ refl (fights b names.1 names.2 names.0)
        (λ o j comes. go_on o j comes)
    where
      go_on :
          (o : Outcome) (j : Journey)
          → Comes b (id ∷ []) o j
          → Logs (winner_of o >>= λ e. some (e, arrived id b j)) (winner_of o) (Arrives id i)
      go_on (champion n) j comes = neither refl refl
      go_on (goes_on a c h) j (sent, won, sits) =
          both (a, c) (arrived id b j) refl refl (sent, sym won, (refl, at, sits))
  entrant_log-Arrives file below below_log id i (player_child k) at names fights =
      arrive (entrant file below (player_child k)) (entrant-Starts file below k)
    where
      arrive :
          (m : Option (Status × Process))
          → Starts k m
          → Logs
              (m >>= λ e. opening_log pid id k e.0 >>= λ l. some (e, seated id k e.0 l))
              m
              (Arrives id i)
      arrive m (fails e) =
          neither
            (ap (λ v. v >>= λ x. opening_log pid id k x.0 >>= λ l. some (x, seated id k x.0 l)) e) e
      arrive m (sends s e) =
          let (l, logged, sent) = opening_log-sends pid id k s names in
          both (starts k s) (seated id k s l) (rw (e, logged) refl) e (sent, refl, (refl, at))

  fought_log-Comes :
      (fuel : ℕ) (file : List (List ℕ)) (depth id : ℕ) (up : List ℕ)
      → 65 ≤ id
      → id < 79
      → entry battle_parent id ≡ some up
      → Logs (fought_log pid depth fuel file id) (fought depth fuel file id) (Comes id up)
  unfolding fought_log fought
  fought_log-Comes fuel file zero id up low high up_is = neither refl refl
  fought_log-Comes fuel file (suc depth) id up low high up_is =
      let (k0, e0, n0, up0) = child-names id false low high in
      let (k1, e1, n1, up1) = child-names id true low high in
      rw (e0, e1)
        (Logs-bind _ (λ m. m >>= λ x. entrant file (fought depth fuel file) k1 >>= battle fuel id x)
          _ refl
          (entrant_log-Arrives file (fought depth fuel file) (fought_log pid depth fuel file) id
            false k0 e0 up0 (λ b. fought_log-Comes fuel file depth b (id ∷ [])))
          (λ x a0 arrives0.
            Logs-bind _ (λ m. m >>= battle fuel id x) _ refl
              (entrant_log-Arrives file (fought depth fuel file) (fought_log pid depth fuel file) id
                true k1 e1 up1 (λ b. fought_log-Comes fuel file depth b (id ∷ [])))
              (λ y a1 arrives1.
                journey-Comes id fuel up x.0 y.0 x.1 y.1 a0 a1 low high up_is arrives0 arrives1)))

-- What battle A prints, and with the lines.
abbrev champion_of : Outcome → Option ℤ
champion_of o = elim o [ champion id ↦ some id | goes_on s c h ↦ none ]

abbrev champion_log : Outcome × Journey → Option (ℤ × List Logged)
champion_log (o, j) = elim o [ champion id ↦ some (id, j.lines) | goes_on s c h ↦ none ]

champion_log-Comes :
    (pid : List ℕ → ℕ) (up : List ℕ) (m : Option (Outcome × Journey)) (r : Option Outcome) (x : ℤ)
    → (r >>= champion_of) ≡ some x
    → Logs m r (Comes pid 65 up)
    → (l : List Logged) × ((m >>= champion_log) ≡ some (x, l))
      × ((test : Message → Bool) → written test l ≡ was_read test l)
champion_log-Comes pid up m r x e (neither f g) =
    absurd (not_some (sym (ap (λ v. v >>= champion_of) g) ∙ e))
  where
    not_some : none ≢ some x
    not_some h = cc
champion_log-Comes pid up m r x e (both (champion id) j f g comes) =
    let same : id ≡ x = some_inj (sym (ap (λ v. v >>= champion_of) g) ∙ e) in
    (
      j.lines,
      ap (λ v. v >>= champion_log) f ∙ ap (λ y. some (y, j.lines)) same,
      λ test. omega (arith, comes.0 test),
    )
  where
    some_inj : some id ≡ some x → id ≡ x
    some_inj h = cc
champion_log-Comes pid up m r x e (both (goes_on s c h) j f g comes) =
    absurd (not_some (sym (ap (λ v. v >>= champion_of) g) ∙ e))
  where
    not_some : none ≢ some x
    not_some h = cc

-- If the eight players of the file have positive HP and power, the power below 2^30, and start with
-- the flag 0, then the championship ends with one of them as the champion, and in the lines that all
-- battles and players have logged, each message through a pipe is told of as often by the one who
-- writes it as by the one who reads it, under the same names and pids: whichever messages are counted,
-- as many have been written as read.
pub championship_log-balances :
    (pid : List ℕ → ℕ) (rounds : ℕ) (file : List (List ℕ))
    → length file ≡ 8
    → All (IsFit rounds) file
    → (n : ℕ) × (l : List Logged) × (n < 8)
      × (championship rounds file ≡ some (pos n))
      × (championship_log pid rounds file ≡ some (pos n, l))
      × ((test : Message → Bool) → written test l ≡ was_read test l)
unfolding championship championship_log
championship_log-balances pid rounds file eight fit =
    let (n, few, e) = championship_ends rounds file eight fit in
    let (l, logged, balance) =
      champion_log-Comes pid (b'-' ∷ b'1' ∷ []) (fought_log pid 6 rounds file 65)
        (fought 6 rounds file 65) (pos n) e
        (fought_log-Comes pid rounds file 6 65 (b'-' ∷ b'1' ∷ []) (omega arith) (omega arith)
          refl) in
    (n, l, few, e, logged, balance)
