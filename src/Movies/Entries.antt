-- ===== src/Movies/Entries.antt =====
-- The rows of `filtered_movies` (header.h): a title and its score, which the program always moves
-- together, and the order in which the results are wanted.
use sp_hw.Base.{
  ◌≡◌, ◌≢◌, ◌∙◌, ◌⊎◌, inl, inr, Bool, true, false, Bool-cases, List, [], ◌∷◌, ◌++◌, Mem, Perm,
  Ordering, arith,
}
use mathlib.Core.Path.{ap₂}
use mathlib.Core.Logic.Or
use mathlib.Core.List.{Pairwise, Pairwise-cons, mem-cons, mem-cons_self, mem-append}
use mathlib.Core.List.Perm
use sp_hw.Base.Strings.{Bytes, strcmp, strcmp_refl, strcmp_asym, strcmp_cotrans, strcmp_antisym}
use sp_hw.Movies.Doubles.{Doubles, IsOrdered}

pub record Entry (d : Doubles) : Type 0 where
  pub title : Bytes
  pub score : d.Double

abbrev pub is_lt : Ordering → Bool
is_lt Ordering.lt = true
is_lt _ = false

abbrev pub Bool-set : IsSet Bool
Bool-set = hlevel

module _ {d : Doubles} where
  -- A higher score goes first, and of equal scores the smaller title.
  unfoldable pub outranks : Entry d → Entry d → Bool
  outranks a b = elim (d.lt b.score a.score) [
    | true ↦ true
    | false ↦ elim (d.lt a.score b.score) [ true ↦ false | false ↦ is_lt (strcmp a.title b.title) ]
  ]

  -- `b` does not belong before `a`.
  abbrev pub InOrder : Entry d → Entry d → Type 0
  InOrder a b = outranks b a ≡ false

  abbrev pub IsSorted : List (Entry d) → Type 0
  IsSorted = Pairwise InOrder

  abbrev pub IsBelow : Entry d → List (Entry d) → Type 0
  IsBelow a l = (x : Entry d) → Mem x l → InOrder a x

  module _ (laws : IsOrdered d) where
    pub outranks_irrefl : (a : Entry d) → outranks a a ≡ false
    unfolding outranks
    outranks_irrefl a = ground (arith, laws.lt_irrefl a.score, strcmp_refl a.title)

    pub outranks_asym : (a b : Entry d) → outranks a b ≡ true → outranks b a ≡ false
    unfolding outranks
    outranks_asym a b h = ground (
      arith,
      laws.lt_irrefl a.score,
      laws.lt_trans a.score b.score a.score,
      strcmp_asym a.title b.title,
    )

    -- The two ways in which `a` may stand before `b`.
    abbrev Before : Entry d → Entry d → Type 0
    Before a b =
        (d.lt b.score a.score ≡ true)
        ⊎ ((a.score ≡ b.score) × (strcmp b.title a.title ≢ Ordering.lt))

    InOrder→Before : (a b : Entry d) → InOrder a b → Before a b
    unfolding outranks
    InOrder→Before a b h = elim (Bool-cases (d.lt b.score a.score)) [
      | inl above ↦ inl above
      | inr e ↦ elim (Bool-cases (d.lt a.score b.score)) [
        | inl below ↦ absurd (ground arith)
        | inr f ↦ inr (laws.lt_total a.score b.score f e, ground arith)
      ]
    ]

    Before→InOrder : (a b : Entry d) → Before a b → InOrder a b
    unfolding outranks
    Before→InOrder a b (inl above) =
        ground (arith, laws.lt_irrefl a.score, laws.lt_trans a.score b.score a.score)
    Before→InOrder a b (inr (e, n)) = ground (arith, laws.lt_irrefl a.score)

    Before-trans : (a b c : Entry d) → Before a b → Before b c → Before a c
    Before-trans a b c (inl p) (inl q) = inl (laws.lt_trans c.score b.score a.score q p)
    Before-trans a b c (inl p) (inr (e, n)) = inl (rw e at p)
    Before-trans a b c (inr (e, n)) (inl q) = inl (rw e q)
    Before-trans a b c (inr (e, n)) (inr (f, m)) =
        inr (e ∙ f, strcmp_cotrans a.title b.title c.title n m)

    -- InOrder is transitive.
    pub InOrder-trans : (a b c : Entry d) → InOrder a b → InOrder b c → InOrder a c
    InOrder-trans a b c h k =
        Before→InOrder a c (Before-trans a b c (InOrder→Before a b h) (InOrder→Before b c k))

    Before-antisymm : (a b : Entry d) → Before a b → Before b a → a ≡ b
    Before-antisymm a b (inl p) (inl q) =
        ground (arith, laws.lt_irrefl a.score, laws.lt_trans a.score b.score a.score)
    Before-antisymm a b (inl p) (inr (e, n)) = ground (arith, laws.lt_irrefl a.score)
    Before-antisymm a b (inr (e, n)) (inl q) = ground (arith, laws.lt_irrefl a.score)
    Before-antisymm a b (inr (e, n)) (inr (f, m)) =
        λ i. record { title = strcmp_antisym a.title b.title n m i; score = e i }

    pub InOrder-antisymm : (a b : Entry d) → InOrder a b → InOrder b a → a ≡ b
    InOrder-antisymm a b h k = Before-antisymm a b (InOrder→Before a b h) (InOrder→Before b a k)

    pub IsBelow-cons :
        (a b : Entry d) {l : List (Entry d)} → InOrder a b → IsBelow a l → IsBelow a (b ∷ l)
    IsBelow-cons a b h k x m = Or.elim (Bool-set _ _) (mem-cons.0 m) (λ e. rw e h) (k x)

    pub IsBelow-append :
        (a : Entry d) {l r : List (Entry d)} → IsBelow a l → IsBelow a r → IsBelow a (l ++ r)
    IsBelow-append a h k x m = Or.elim (Bool-set _ _) (mem-append.0 m) (h x) (k x)

    pub IsBelow-perm : (a : Entry d) {l r : List (Entry d)} → Perm l r → IsBelow a r → IsBelow a l
    IsBelow-perm a p h x m = h x ((Perm.mem_iff p).0 m)

    pub IsBelow-head :
        (a b : Entry d) {l : List (Entry d)} → InOrder a b → IsSorted (b ∷ l) → IsBelow a (b ∷ l)
    IsBelow-head a b h s =
        IsBelow-cons a b h (λ x m. InOrder-trans a b x h ((Pairwise-cons.0 s).0 x m))

    head-InOrder :
        (a b : Entry d) {l r : List (Entry d)}
        → IsSorted (a ∷ l)
        → Perm (b ∷ r) (a ∷ l)
        → InOrder a b
    head-InOrder a b s p = IsBelow-perm a p (IsBelow-head a a (outranks_irrefl a) s) b mem-cons_self

    -- A list has one sorted rearrangement.
    pub IsSorted-unique : (l r : List (Entry d)) → IsSorted l → IsSorted r → Perm l r → l ≡ r
    IsSorted-unique [] r s t p = Perm.nil-eq p
    IsSorted-unique (a ∷ l) [] s t p = Perm.eq-nil p
    IsSorted-unique (a ∷ l) (b ∷ r) s t p =
        let e : a ≡ b =
          InOrder-antisymm a b (head-InOrder a b s (Perm.symm p)) (head-InOrder b a t p) in
        let q = Perm.cons_inv (Perm.trans p (Perm.symm (Perm.cons' e (Perm.rfl {l = r})))) in
        ap₂ ◌∷◌ e (IsSorted-unique l r (Pairwise-cons.0 s).1 (Pairwise-cons.0 t).1 q)
