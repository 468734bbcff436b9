-- ===== src/Booking/Update/Verdict.antt =====
-- The verdict on a command that does not overflow is the one of exact arithmetic.
use sp_hw.Base.{
  ℕ, ◌+◌, ◌-◌, ◌^◌, ◌≡◌, ◌≤◌, ◌<◌, refl, ap, sym, ◌∙◌, ◌↔◌, ◌⊎◌, inl, inr, Bool, true, false, arith,
  if◌then◌else◌,
}
use mathlib.Core.Path.{subst}
use sp_hw.Base.Int.{ℤ, pos, negsuc, pos_part, neg_part, ◌+ℤ◌, ◌-ℤ◌, ◌≤ℤ◌, ltb_ℤ, +ℤ_parts}
use sp_hw.Base.Decimal.{wrap32, wrap32_lem, IsInt32}
use sp_hw.Booking.Command.{Triple, IsTriple32}
use sp_hw.Booking.Server.Replies.{too_many, too_few}
use sp_hw.Booking.Server.Handlers.{
  add_triple, sum_triple, has_negative, Verdict, refused, booked, judge,
}
use sp_hw.Booking.Update.{IsBookable, IsSmall, IsSmallCommand, plus}

small-IsInt32 : (a : ℤ) → pos_part a < 2 ^ 31 → neg_part a < 2 ^ 31 → IsInt32 a
small-IsInt32 (pos n) h k = h
small-IsInt32 (negsuc n) h k = omega (arith, k)

wrap32_small : (a : ℤ) → pos_part a < 2 ^ 31 → neg_part a < 2 ^ 31 → wrap32 a ≡ a
wrap32_small a h k = wrap32_lem a (small-IsInt32 a h k)

-- One part of an integer is zero.
pub parts_zero : (a : ℤ) → (pos_part a ≡ 0) ⊎ (neg_part a ≡ 0)
parts_zero (pos n) = inr refl
parts_zero (negsuc n) = inl refl

sum_parts :
    (a b : ℤ)
    → (pos_part (a +ℤ b) ≤ pos_part a + pos_part b) × (neg_part (a +ℤ b) ≤ neg_part a + neg_part b)
unfolding ◌+ℤ◌
sum_parts a b = ground arith

nonneg : (a : ℤ) → pos 0 ≤ℤ a → neg_part a ≡ 0
nonneg (pos n) h = refl
nonneg (negsuc n) h = absurd (omega (arith, h))

bookable_field :
    (a b c : ℤ)
    → pos 0 ≤ℤ a
    → pos 0 ≤ℤ b
    → pos 0 ≤ℤ c
    → a +ℤ b +ℤ c ≤ℤ pos 15
    → (pos_part a ≤ 15) × (pos_part b ≤ 15) × (pos_part c ≤ 15)
bookable_field a b c h k l m =
    let s = +ℤ_parts a b in
    let u = +ℤ_parts (a +ℤ b) c in
    (
      omega (arith, s, u, nonneg a h, nonneg b k, nonneg c l, m),
      omega (arith, s, u, nonneg a h, nonneg b k, nonneg c l, m),
      omega (arith, s, u, nonneg a h, nonneg b k, nonneg c l, m),
    )

-- How far a sum of a booking and a small number can be from zero.
abbrev pub IsMedium : ℤ → Type 0
IsMedium a = (pos_part a < 2 ^ 29 + 15) × (neg_part a < 2 ^ 29 + 15)

field_sum : (a m : ℤ) → pos 0 ≤ℤ a → pos_part a ≤ 15 → IsSmall m → IsMedium (a +ℤ m)
field_sum a m h k w =
    let s = sum_parts a m in (omega (arith, s.0, w.0, k), omega (arith, s.1, w.1, nonneg a h))

medium_exact : (a : ℤ) → IsMedium a → wrap32 a ≡ a
medium_exact a h = wrap32_small a (omega (arith, h.0)) (omega (arith, h.1))

plus-IsMedium :
    (t m : Triple)
    → IsBookable t
    → IsSmallCommand m
    → IsMedium (plus t m).food × IsMedium (plus t m).concert × IsMedium (plus t m).electronics
plus-IsMedium t m (h, k, l, n) (u, v, w) =
    let b = bookable_field t.food t.concert t.electronics h k l n in
    (
      field_sum t.food m.food h b.0 u,
      field_sum t.concert m.concert k b.1 v,
      field_sum t.electronics m.electronics l b.2 w,
    )

add_triple_exact : (t m : Triple) → IsBookable t → IsSmallCommand m → add_triple t m ≡ plus t m
unfolding add_triple
add_triple_exact t m v w =
    let b = plus-IsMedium t m v w in
    let e = medium_exact _ b.0 in
    let f = medium_exact _ b.1 in let g = medium_exact _ b.2 in rw (e, f, g) refl

zero_plus : (a : ℤ) → pos 0 +ℤ a ≡ a
unfolding ◌+ℤ◌
zero_plus a = ground arith

sum3_exact :
    (a b c : ℤ)
    → IsMedium a
    → IsMedium b
    → IsMedium c
    → wrap32 (wrap32 (wrap32 (pos 0 +ℤ a) +ℤ b) +ℤ c) ≡ a +ℤ b +ℤ c
sum3_exact a b c h k l =
    let s = sum_parts a b in
    let u = sum_parts (a +ℤ b) c in
    rw
      (
        zero_plus a,
        medium_exact a h,
        wrap32_small (a +ℤ b) (omega (arith, s.0, h.0, k.0)) (omega (arith, s.1, h.1, k.1)),
        wrap32_small (a +ℤ b +ℤ c) (omega (arith, s.0, u.0, h.0, k.0, l.0))
            (omega (arith, s.1, u.1, h.1, k.1, l.1)),
      )
      refl

-- The code's verdict over exact sums.
abbrev pub exact_verdict : Triple → Verdict
exact_verdict new =
    if ltb_ℤ (pos 15) (new.food +ℤ new.concert +ℤ new.electronics)
    then refused too_many
    else if has_negative new
    then refused too_few
    else booked new

judge_exact :
    (t m : Triple) → IsBookable t → IsSmallCommand m → judge t m ≡ exact_verdict (plus t m)
unfolding judge sum_triple
judge_exact t m v w =
    let b = plus-IsMedium t m v w in
    rw (add_triple_exact t m v w, sum3_exact _ _ _ b.0 b.1 b.2) refl

booked-inj : (a b : Triple) → booked a ≡ booked b → a ≡ b
booked-inj a b h = cc

has_negative_no :
    (x : Triple)
    → has_negative x ≡ false
    → (pos 0 ≤ℤ x.food) × (pos 0 ≤ℤ x.concert) × (pos 0 ≤ℤ x.electronics)
unfolding has_negative
has_negative_no x h = (ground arith, ground arith, ground arith)

nonneg-has_negative :
    (x : Triple)
    → pos 0 ≤ℤ x.food
    → pos 0 ≤ℤ x.concert
    → pos 0 ≤ℤ x.electronics
    → has_negative x ≡ false
unfolding has_negative
nonneg-has_negative x h k l = ground arith

-- The shape of the verdict, with the two tests named.
verdict_by :
    (many few : Bool) (x new : Triple)
    → (if many then refused too_many else if few then refused too_few else booked x) ≡ booked new
    → (many ≡ false) × (few ≡ false) × (x ≡ new)
verdict_by true few x new h = cc
verdict_by false true x new h = cc
verdict_by false false x new h = (refl, refl, booked-inj x new h)

within : (a : ℤ) → ltb_ℤ (pos 15) a ≡ false → a ≤ℤ pos 15
within a h = ground arith

within_back : (a : ℤ) → a ≤ℤ pos 15 → ltb_ℤ (pos 15) a ≡ false
within_back a h = ground arith

exact_verdict-booked : (x new : Triple) → exact_verdict x ≡ booked new → (new ≡ x) × IsBookable new
exact_verdict-booked x new h =
    let (many, few, same) = verdict_by _ _ x new h in
    let (a, b, c) = has_negative_no x few in
    (sym same, subst IsBookable same (a, b, c, within _ many))

exact_verdict-IsBookable : (x : Triple) → IsBookable x → exact_verdict x ≡ booked x
exact_verdict-IsBookable x (h, k, l, m) = rw (within_back _ m, nonneg-has_negative x h k l) refl

-- For a booking within the rules and a command that cannot overflow an `int`: the server books
-- exactly if the sums are within the rules, and what it books are the sums.
pub judge_iff :
    (t m new : Triple)
    → IsBookable t
    → IsSmallCommand m
    → (judge t m ≡ booked new) ↔ ((new ≡ plus t m) × IsBookable new)
judge_iff t m new v w = (
  λ h. exact_verdict-booked (plus t m) new (sym (judge_exact t m v w) ∙ h),
  λ h.
      judge_exact t m v w
      ∙ exact_verdict-IsBookable (plus t m) (subst IsBookable h.0 h.1)
      ∙ ap booked (sym h.0),
)

filled_up :
    (a : ℤ)
    → pos 0 ≤ℤ a
    → pos_part a ≤ 15
    → wrap32 (a +ℤ pos (2 ^ 31 - 1 - pos_part a)) ≡ pos (2 ^ 31 - 1)
unfolding ◌+ℤ◌
filled_up a h k =
    let e : a +ℤ pos (2 ^ 31 - 1 - pos_part a) ≡ pos (2 ^ 31 - 1) = ground (arith, nonneg a h) in
    rw e (wrap32_lem (pos (2 ^ 31 - 1)) (omega arith))

back_to : (a : ℤ) → pos 0 ≤ℤ a → wrap32 (a +ℤ (pos 2 -ℤ pos (pos_part a))) ≡ pos 2
unfolding ◌+ℤ◌ ◌-ℤ◌
back_to a h =
    let e : a +ℤ (pos 2 -ℤ pos (pos_part a)) ≡ pos 2 = ground (arith, nonneg a h) in
    rw e (wrap32_lem (pos 2) (omega arith))

back_to-IsInt32 : (n : ℕ) → n ≤ 15 → IsInt32 (pos 2 -ℤ pos n)
unfolding ◌-ℤ◌
back_to-IsInt32 n h = ground arith

abbrev huge : Triple
huge = record { food = pos (2 ^ 31 - 1); concert = pos (2 ^ 31 - 1); electronics = pos 2 }

-- The sum of the three `int`s wraps around to 0.
judge_huge :
    (if ltb_ℤ (pos 15) (sum_triple huge)
      then refused too_many
      else if has_negative huge
      then refused too_few
      else booked huge)
    ≡ booked huge
unfolding sum_triple has_negative wrap32 ◌+ℤ◌
judge_huge = refl

-- From every booking within the rules there
-- is a command of three `int`s that the server accepts and that leaves 2 ^ 31 - 1 items of food.
pub judge_overflow :
    (t : Triple)
    → IsBookable t
    → (m : Triple) × IsTriple32 m
      × (judge t m
          ≡ booked
              (record { food = pos (2 ^ 31 - 1); concert = pos (2 ^ 31 - 1); electronics = pos 2 }))
unfolding judge add_triple
judge_overflow t (h, k, l, n) =
    let b = bookable_field t.food t.concert t.electronics h k l n in
    let e = filled_up t.food h b.0 in
    let f = filled_up t.concert k b.1 in
    let g = back_to t.electronics l in
    (
      record {
        food = pos (2 ^ 31 - 1 - pos_part t.food);
        concert = pos (2 ^ 31 - 1 - pos_part t.concert);
        electronics = pos 2 -ℤ pos (pos_part t.electronics);
      },
      (ground arith, ground arith, back_to-IsInt32 (pos_part t.electronics) b.2),
      rw (e, f, g) judge_huge,
    )
