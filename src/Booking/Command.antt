-- ===== src/Booking/Command.antt =====
-- The booking command of csiebooking/server.c: three integers, read by sscanf and accepted if
-- sprintf writes the same text again.
use sp_hw.Base.{
  Bool-cases, Option-cases, sym, inl, inr, ℕ, ◌≡◌, refl, ◌∙◌, ◌↔◌, ap, Bool, true, false, List, [],
  ◌∷◌, ◌++◌, Option, none, some, Ordering, arith,
}
use sp_hw.Base.Int.{ℤ}
use sp_hw.Base.Decimal.{
  print_int, scan_int, scan_int-print_int, scan_int_space, scan_int-IsInt32, IsInt32,
}
use sp_hw.Base.Strings.{strcmp, strcmp_eq, strcmp_refl}
use mathlib.Core.Option.{none-ne-some}
use mathlib.Core.List.{append-nil}

-- int[3]
pub record Triple : Type 0 where
  pub food : ℤ
  pub concert : ℤ
  pub electronics : ℤ

-- sscanf(buf, "%d %d %d", ...) over what the array held before.
unfoldable pub scan_triple : List ℕ → Triple → Triple
scan_triple s old = elim (scan_int s) [
  | none ↦ old
  | some (a, s') ↦ elim (scan_int s') [
    | none ↦ record old { food = a }
    | some (b, s'') ↦ elim (scan_int s'') [
      | none ↦ record old { food = a; concert = b }
      | some (c, rest) ↦ record { food = a; concert = b; electronics = c }
    ]
  ]
]

-- sprintf(check, "%d %d %d", ...)
unfoldable pub print_triple : Triple → List ℕ
print_triple m =
    print_int m.food ++ (b' ' ∷ (print_int m.concert ++ (b' ' ∷ print_int m.electronics)))

-- strcmp(check, buf) == 0
unfoldable pub same_text : List ℕ → List ℕ → Bool
same_text a b = elim (strcmp a b) [ Ordering.eq ↦ true | _ ↦ false ]

-- The command in `buf`, if it is accepted.
unfoldable pub parse_command : List ℕ → Triple → Option Triple
unfolding same_text
parse_command buf old =
    let modi = scan_triple buf old in
    elim (same_text (print_triple modi) buf) [ true ↦ some modi | false ↦ none ]

abbrev pub IsTriple32 : Triple → Type 0
IsTriple32 m = IsInt32 m.food × IsInt32 m.concert × IsInt32 m.electronics

scan_triple_all :
    (s s' s'' rest : List ℕ) (a b c : ℤ) (old : Triple)
    → scan_int s ≡ some (a, s')
    → scan_int s' ≡ some (b, s'')
    → scan_int s'' ≡ some (c, rest)
    → scan_triple s old ≡ record { food = a; concert = b; electronics = c }
unfolding scan_triple
scan_triple_all s s' s'' rest a b c old p q r =
    rw (p, scan_triple) (rw (q, scan_triple) (rw (r, scan_triple)))

scan_triple-print_triple : (m old : Triple) → IsTriple32 m → scan_triple (print_triple m) old ≡ m
unfolding print_triple
scan_triple-print_triple m old h =
    scan_triple_all (print_triple m)
      (b' ' ∷ (print_int m.concert ++ (b' ' ∷ print_int m.electronics)))
      (b' ' ∷ print_int m.electronics) [] m.food m.concert m.electronics old
      (scan_int-print_int m.food (b' ' ∷ (print_int m.concert ++ (b' ' ∷ print_int m.electronics)))
        h.0 refl)
      (scan_int_space (print_int m.concert ++ (b' ' ∷ print_int m.electronics))
        ∙ scan_int-print_int m.concert (b' ' ∷ print_int m.electronics) h.1 refl)
      (scan_int_space (print_int m.electronics)
        ∙ (rw append-nil at (scan_int-print_int m.electronics [] h.2 tt)))

scan_triple-IsTriple32 :
    (s : List ℕ) (old : Triple) → IsTriple32 old → IsTriple32 (scan_triple s old)
unfolding scan_triple
scan_triple-IsTriple32 s old h = elim (Option-cases (scan_int s)) [
  | inl e ↦ rw (e, scan_triple) h
  | inr ((a, s'), e) ↦
      let ha = scan_int-IsInt32 s a s' e in
      elim (Option-cases (scan_int s')) [
        | inl f ↦ rw (e, scan_triple) (rw (f, scan_triple) (ha, h.1, h.2))
        | inr ((b, s''), f) ↦
            let hb = scan_int-IsInt32 s' b s'' f in
            elim (Option-cases (scan_int s'')) [
              | inl g ↦
                  rw (e, scan_triple) (rw (f, scan_triple) (rw (g, scan_triple) (ha, hb, h.2)))
              | inr ((c, rest), g) ↦
                  rw (e, scan_triple)
                    (rw (f, scan_triple)
                      (rw (g, scan_triple) (ha, hb, scan_int-IsInt32 s'' c rest g)))
            ]
      ]
]

same_text_refl : (a : List ℕ) → same_text a a ≡ true
unfolding same_text
same_text_refl a = rw (strcmp_refl a, same_text)

same_text_eq : (a b : List ℕ) → same_text a b ≡ true → a ≡ b
unfolding same_text
same_text_eq a b h = ground (arith, strcmp_eq a b)

parse_same :
    (buf : List ℕ) (old : Triple)
    → same_text (print_triple (scan_triple buf old)) buf ≡ true
    → parse_command buf old ≡ some (scan_triple buf old)
unfolding parse_command
parse_same buf old h = ground arith

parse_false :
    (buf : List ℕ) (old : Triple)
    → same_text (print_triple (scan_triple buf old)) buf ≡ false
    → parse_command buf old ≡ none
unfolding parse_command
parse_false buf old h = ground arith

some-inj : {a b : Triple} → some a ≡ some b → a ≡ b
some-inj h = cc

-- A command is accepted as `m` exactly if it is the text of `m` that sprintf writes: three integers of
-- 32 bits, with one space between each. What the array held before is of no account.
pub parse_command_iff :
    (buf : List ℕ) (old m : Triple)
    → IsTriple32 old
    → (parse_command buf old ≡ some m) ↔ (IsTriple32 m × (buf ≡ print_triple m))
parse_command_iff buf old m h = (accepted, written)
  where
    accepted : parse_command buf old ≡ some m → IsTriple32 m × (buf ≡ print_triple m)
    accepted e = elim (Bool-cases (same_text (print_triple (scan_triple buf old)) buf)) [
      | inl same ↦
          let e' : scan_triple buf old ≡ m = some-inj (sym (parse_same buf old same) ∙ e) in
          rw (← e') (scan_triple-IsTriple32 buf old h, sym (same_text_eq _ buf same))
      | inr other ↦ absurd (none-ne-some m (sym (parse_false buf old other) ∙ e))
    ]

    written : IsTriple32 m × (buf ≡ print_triple m) → parse_command buf old ≡ some m
    written (ok, e) =
        let back : scan_triple buf old ≡ m = rw e (scan_triple-print_triple m old ok) in
        let same : same_text (print_triple (scan_triple buf old)) buf ≡ true =
          rw (back, e) (same_text_refl (print_triple m)) in
        parse_same buf old same ∙ ap some back
