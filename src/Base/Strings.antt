-- ===== src/Base/Strings.antt =====
-- Byte strings without their terminating zero, and the functions of the C library that the programs
-- call on them.
use sp_hw.Base.{
  ℕ, ◌<◌, ◌≡◌, ◌≢◌, refl, ◌⊎◌, ◌↔◌, inl, inr, Bool-cases, ap, Bool, true, false, ◌||◌, List, [],
  ◌∷◌, ◌++◌, Ordering, compare, arith, ◌==◌,
}

abbrev pub Bytes : Type 0
Bytes = List ℕ

-- strcmp: the sign of its result.
unfoldable pub strcmp : Bytes → Bytes → Ordering
strcmp [] [] = Ordering.eq
strcmp [] (y ∷ ys) = Ordering.lt
strcmp (x ∷ xs) [] = Ordering.gt
strcmp (x ∷ xs) (y ∷ ys) = elim (compare x y) [
  | Ordering.lt ↦ Ordering.lt
  | Ordering.gt ↦ Ordering.gt
  | Ordering.eq ↦ strcmp xs ys
]

pub strcmp_refl : (a : Bytes) → strcmp a a ≡ Ordering.eq
unfolding strcmp
strcmp_refl [] = refl
strcmp_refl (x ∷ xs) = ground (arith, strcmp_refl xs)

pub strcmp_eq : (a b : Bytes) → strcmp a b ≡ Ordering.eq → a ≡ b
unfolding strcmp
strcmp_eq [] [] h = refl
strcmp_eq [] (y ∷ ys) h = cc
strcmp_eq (x ∷ xs) [] h = cc
strcmp_eq (x ∷ xs) (y ∷ ys) h = ground (arith, strcmp_eq xs ys)

pub strcmp_flip : (a b : Bytes) → strcmp a b ≡ Ordering.gt → strcmp b a ≡ Ordering.lt
unfolding strcmp
strcmp_flip [] [] h = cc
strcmp_flip [] (y ∷ ys) h = cc
strcmp_flip (x ∷ xs) [] h = refl
strcmp_flip (x ∷ xs) (y ∷ ys) h = ground (arith, strcmp_flip xs ys)

pub strcmp_asym : (a b : Bytes) → strcmp a b ≡ Ordering.lt → strcmp b a ≡ Ordering.gt
unfolding strcmp
strcmp_asym [] [] h = cc
strcmp_asym [] (y ∷ ys) h = refl
strcmp_asym (x ∷ xs) [] h = cc
strcmp_asym (x ∷ xs) (y ∷ ys) h = ground (arith, strcmp_asym xs ys)

pub strcmp_trans :
    (a b c : Bytes) → strcmp a b ≡ Ordering.lt → strcmp b c ≡ Ordering.lt → strcmp a c ≡ Ordering.lt
unfolding strcmp
strcmp_trans [] [] c h k = cc
strcmp_trans [] (y ∷ ys) [] h k = cc
strcmp_trans [] (y ∷ ys) (z ∷ zs) h k = refl
strcmp_trans (x ∷ xs) [] c h k = cc
strcmp_trans (x ∷ xs) (y ∷ ys) [] h k = cc
strcmp_trans (x ∷ xs) (y ∷ ys) (z ∷ zs) h k = ground (arith, strcmp_trans xs ys zs)

Ordering-cases : (o : Ordering) → (o ≡ Ordering.lt) ⊎ ((o ≡ Ordering.eq) ⊎ (o ≡ Ordering.gt))
Ordering-cases Ordering.lt = inl refl
Ordering-cases Ordering.eq = inr (inl refl)
Ordering-cases Ordering.gt = inr (inr refl)

-- "At most", as the failure of the reverse `<`, is transitive.
pub strcmp_cotrans :
    (a b c : Bytes) → strcmp b a ≢ Ordering.lt → strcmp c b ≢ Ordering.lt → strcmp c a ≢ Ordering.lt
strcmp_cotrans a b c h k e = elim (Ordering-cases (strcmp b a)) [
  | inl below ↦ h below
  | inr (inl same) ↦ k (rw (strcmp_eq b a same) e)
  | inr (inr above) ↦ k (strcmp_trans c a b e (strcmp_flip b a above))
]

pub strcmp_antisym : (a b : Bytes) → strcmp b a ≢ Ordering.lt → strcmp a b ≢ Ordering.lt → a ≡ b
strcmp_antisym a b h k = elim (Ordering-cases (strcmp a b)) [
  | inl below ↦ absurd (k below)
  | inr (inl same) ↦ strcmp_eq a b same
  | inr (inr above) ↦ absurd (h (strcmp_flip a b above))
]

-- Every byte is above the tab.
abbrev pub IsPrintable : Bytes → Type 0
IsPrintable [] = Unit {0}
IsPrintable (x ∷ xs) = (9 < x) × IsPrintable xs

-- A suffix that begins with a tab leaves the order of printable strings as it is.
pub strcmp-append_tab :
    (a b s : Bytes) → IsPrintable a → IsPrintable b → strcmp (a ++ 9 ∷ s) (b ++ 9 ∷ s) ≡ strcmp a b
unfolding strcmp
strcmp-append_tab [] [] s p q = ground (arith, strcmp_refl s)
strcmp-append_tab [] (y ∷ ys) s p q = ground arith
strcmp-append_tab (x ∷ xs) [] s p q = ground arith
strcmp-append_tab (x ∷ xs) (y ∷ ys) s p q = ground (arith, strcmp-append_tab xs ys s p.1 q.1)

starts_with : Bytes → Bytes → Bool
starts_with t [] = true
starts_with [] (y ∷ ys) = false
starts_with (x ∷ xs) (y ∷ ys) = elim (x == y) [ true ↦ starts_with xs ys | false ↦ false ]

-- strstr(t, s) != NULL
unfoldable pub strstr : Bytes → Bytes → Bool
unfolding starts_with
strstr [] s = starts_with [] s
strstr (x ∷ xs) s = starts_with (x ∷ xs) s || strstr xs s

starts_with→append : (t s : Bytes) → starts_with t s ≡ true → (post : Bytes) × (t ≡ s ++ post)
unfolding starts_with
starts_with→append t [] h = (t, refl)
starts_with→append [] (y ∷ ys) h = absurd (ground arith)
starts_with→append (x ∷ xs) (y ∷ ys) h =
    let (post, e) = starts_with→append xs ys (ground arith) in (post, ground (arith, e))

append→starts_with : (s post : Bytes) → starts_with (s ++ post) s ≡ true
unfolding starts_with
append→starts_with [] post = refl
append→starts_with (x ∷ xs) post = ground (arith, append→starts_with xs post)

-- Where `s` stands in `t`.
abbrev pub Occurs : Bytes → Bytes → Type 0
Occurs t s = (pre : Bytes) × (post : Bytes) × (t ≡ pre ++ (s ++ post))

-- strstr finds a string exactly where it occurs.
pub strstr_iff : (t s : Bytes) → (strstr t s ≡ true) ↔ Occurs t s
unfolding strstr
strstr_iff t s = (found t, λ (pre, post, e). rw e (occurs pre post))
  where
    found : (t : Bytes) → strstr t s ≡ true → Occurs t s
    found [] h = let (post, e) = starts_with→append [] s h in ([], post, e)
    found (x ∷ xs) h = elim (Bool-cases (starts_with (x ∷ xs) s)) [
      | inl e ↦ let (post, f) = starts_with→append (x ∷ xs) s e in ([], post, f)
      | inr e ↦ let (pre, post, f) = found xs (rw e at h) in (x ∷ pre, post, ap (◌∷◌ x) f)
    ]

    occurs : (pre post : Bytes) → strstr (pre ++ (s ++ post)) s ≡ true
    occurs [] post = head (s ++ post) (append→starts_with s post)
      where
        head : (t : Bytes) → starts_with t s ≡ true → strstr t s ≡ true
        head [] e = e
        head (x ∷ xs) e = rw e
    occurs (x ∷ pre) post = ground (arith, occurs pre post)
