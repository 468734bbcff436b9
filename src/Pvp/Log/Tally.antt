-- ===== src/Pvp/Log/Tally.antt =====
-- pvp-championship: how many messages a log tells of, and what a player logs.
use sp_hw.Base.{
  ℕ, ◌+◌, ◌≡◌, refl, ap, inl, inr, Bool, List, [], ◌∷◌, ◌++◌, none, some, arith, if◌then◌else◌,
  Option-cases, Bool-cases,
}
use sp_hw.Base.Int.{ℤ, pos, ltb_ℤ}
use sp_hw.Base.Decimal.{print_int}
use sp_hw.Base.Error.{◌>>=◌}
use sp_hw.Pvp.Status.{Status}
use sp_hw.Pvp.Player.{Player, Reply, answers, exits, hear}
use sp_hw.Pvp.Championship.{player_child, parent_of}
use sp_hw.Pvp.Log.{reads, writes, LogLine, pipe_entry, fifo_entry, Logged}
use sp_hw.Pvp.Log.Player.{
  piped, pipe_line, fifo_line, read_status, write_status, reply_log, hear_log, opening_log,
}
use sp_hw.Pvp.Log.Same.{Logs, neither, both}

-- A message through a pipe, with the names and the pids of its ends.
pub record Message : Type 0 where
  pub from : List ℕ
  pub from_pid : ℕ
  pub to : List ℕ
  pub to_pid : ℕ
  pub status : Status

abbrev pub one_if : Bool → ℕ
one_if b = if b then 1 else 0

-- How many lines of a log say that a message that the test is for has been written.
abbrev pub written : (Message → Bool) → List Logged → ℕ
written test [] = 0
written test (g ∷ l) = in_entry g.line + written test l
  where
    in_entry : LogLine → ℕ
    in_entry (pipe_entry writes self p other q s) =
        one_if (test (record { from = self; from_pid = p; to = other; to_pid = q; status = s }))
    in_entry (pipe_entry reads self p other q s) = 0
    in_entry (fifo_entry way id p k s) = 0

-- And how many that it has been read.
abbrev pub was_read : (Message → Bool) → List Logged → ℕ
was_read test [] = 0
was_read test (g ∷ l) = in_entry g.line + was_read test l
  where
    in_entry : LogLine → ℕ
    in_entry (pipe_entry reads self p other q s) =
        one_if (test (record { from = other; from_pid = q; to = self; to_pid = p; status = s }))
    in_entry (pipe_entry writes self p other q s) = 0
    in_entry (fifo_entry way id p k s) = 0

pub written-append :
    (test : Message → Bool) (l r : List Logged)
    → written test (l ++ r) ≡ written test l + written test r
written-append test [] r = omega arith
written-append test (g ∷ l) r = omega (arith, written-append test l r)

pub was_read-append :
    (test : Message → Bool) (l r : List Logged)
    → was_read test (l ++ r) ≡ was_read test l + was_read test r
was_read-append test [] r = omega arith
was_read-append test (g ∷ l) r = omega (arith, was_read-append test l r)

module _ (pid : List ℕ → ℕ) where
  -- One message from a process to another one.
  abbrev pub crossing : (Message → Bool) → List ℕ → List ℕ → Status → ℕ
  crossing test from to s =
      one_if
        (test (record { from = from; from_pid = pid from; to = to; to_pid = pid to; status = s }))

  abbrev pub replied : (Message → Bool) → List ℕ → List ℕ → Reply → ℕ
  replied test from to (answers a) = crossing test from to a
  replied test from to (exits h) = 0

  -- The lines of the process `name` behind the message `s` of its parent, up to its reply.
  abbrev pub Told : ℕ → List ℕ → Status → Reply → List Logged → Type 0
  Told id name s r l =
      (test : Message → Bool)
      → written test l + crossing test (id ∷ []) name s
        ≡ was_read test l + replied test name (id ∷ []) r

  reply_log-Told :
      (id : ℕ) (p : Player) (r : Reply)
      → parent_of (player_child p.player_id) ≡ some id
      → (l : List Logged) × (reply_log pid id p r ≡ some l)
        × ((test : Message → Bool)
            → written test l ≡ replied test (print_int p.player_id) (id ∷ []) r)
        × ((test : Message → Bool) → was_read test l ≡ 0)
  unfolding reply_log write_status pipe_line
  reply_log-Told id p (answers a) e = (
    piped writes p.player_id (pid (print_int p.player_id)) id (pid (id ∷ [])) a ∷ [],
    ap
        (λ m. m >>= λ t.
          some (piped writes p.player_id (pid (print_int p.player_id)) t (pid (id ∷ [])) a ∷ []))
        e,
    (λ test. omega arith),
    λ test. refl,
  )
  reply_log-Told id p (exits none) e = ([], refl, (λ test. refl), λ test. refl)
  reply_log-Told id p (exits (some (k, m))) e = (
    fifo_line writes p.player_id (pid (print_int p.player_id)) k m,
    refl,
    (λ test. refl),
    λ test. refl,
  )

  pub hear_log-Told :
      (id : ℕ) (p : Player) (s : Status)
      → parent_of (player_child p.player_id) ≡ some id
      → Logs (hear_log pid id p s) (hear p s) (Told id (print_int p.player_id) s)
  unfolding hear_log read_status pipe_line
  hear_log-Told id p s e = rw e (elim (Option-cases (hear p s)) [
    | inl none_of ↦ neither (rw none_of refl) none_of
    | inr (r, f) ↦
        let (l, logged, w, n) = reply_log-Told id p r e in
        both r (piped reads p.player_id (pid (print_int p.player_id)) id (pid (id ∷ [])) s ∷ l)
          (rw (f, logged) refl) f (λ test. omega (arith, w test, n test))
  ])

  -- The lines of a player up to its first message are about that one.
  pub opening_log-sends :
      (id : ℕ) (k : ℤ) (s : Status)
      → parent_of (player_child k) ≡ some id
      → (l : List Logged) × (opening_log pid id k s ≡ some l)
        × ((test : Message → Bool)
            → written test l ≡ was_read test l + crossing test (print_int k) (id ∷ []) s)
  unfolding opening_log read_status write_status pipe_line
  opening_log-sends id k s e = elim (Bool-cases (ltb_ℤ (pos 7) k)) [
    | inl agent ↦ (
      fifo_line reads k (pid (print_int k)) s.real_player_id s
          ++ piped writes k (pid (print_int k)) id (pid (id ∷ [])) s ∷ [],
      rw (agent, e) refl,
      λ test. omega arith,
    )
    | inr real ↦ (
      piped writes k (pid (print_int k)) id (pid (id ∷ [])) s ∷ [],
      rw (real, e) refl,
      λ test. omega arith,
    )
  ]
