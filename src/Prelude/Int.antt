-- ===== src/Prelude/Int.antt =====
-- Signed integers over the native numbers, under the library's names (its ℤ stands on the unary ℕ).
-- Sums and orders go through the two parts of an integer, which are numbers that `omega` reads.
use gerber.Prelude.{
  ◌++◌, true, false, ◌==◌, ◌&&◌, ◌↔◌, List, [], ◌∷◌, length, Bool-cases, inl, inr, subst, ℕ, suc,
  ◌+◌, ◌-◌, ◌*◌, ◌≤◌, ◌≡◌, refl, ◌⊎◌, Bool, arith, ltb, leb, if◌then◌else◌,
}

-- `negsuc n` is -(n + 1).
pub data ℤ : Type 0 where
  pos : ℕ → ℤ
  negsuc : ℕ → ℤ

abbrev pub pos_part : ℤ → ℕ
pos_part (pos n) = n
pos_part (negsuc n) = 0

abbrev pub neg_part : ℤ → ℕ
neg_part (pos n) = 0
neg_part (negsuc n) = suc n

-- a - b, as an integer.
abbrev pub sub_ℕ : ℕ → ℕ → ℤ
sub_ℕ a b = if leb b a then pos (a - b) else negsuc (b - a - 1)

infixl 65 ◌+ℤ◌ ◌-ℤ◌
infixl 70 ◌*ℤ◌
infix 50 ◌≤ℤ◌
unfoldable pub ◌+ℤ◌ : ℤ → ℤ → ℤ
a +ℤ b = sub_ℕ (pos_part a + pos_part b) (neg_part a + neg_part b)

unfoldable pub ◌-ℤ◌ : ℤ → ℤ → ℤ
a -ℤ b = sub_ℕ (pos_part a + neg_part b) (neg_part a + pos_part b)

unfoldable pub ◌*ℤ◌ : ℤ → ℤ → ℤ
a *ℤ b =
    sub_ℕ (pos_part a * pos_part b + neg_part a * neg_part b)
      (pos_part a * neg_part b + neg_part a * pos_part b)

abbrev pub ◌≤ℤ◌ : ℤ → ℤ → Type 0
a ≤ℤ b = pos_part a + neg_part b ≤ pos_part b + neg_part a

abbrev pub ltb_ℤ : ℤ → ℤ → Bool
ltb_ℤ a b = ltb (pos_part a + neg_part b) (pos_part b + neg_part a)

-- One lemma for each operation lets `omega` work with the operations shut, at any depth.
pub +ℤ_parts :
    (a b : ℤ)
    → pos_part (a +ℤ b) + neg_part a + neg_part b ≡ neg_part (a +ℤ b) + pos_part a + pos_part b
unfolding ◌+ℤ◌
+ℤ_parts a b = ground arith

pub -ℤ_parts :
    (a b : ℤ)
    → pos_part (a -ℤ b) + neg_part a + pos_part b ≡ neg_part (a -ℤ b) + pos_part a + neg_part b
unfolding ◌-ℤ◌
-ℤ_parts a b = ground arith

pub eq_of_parts : (a b : ℤ) → pos_part a + neg_part b ≡ pos_part b + neg_part a → a ≡ b
eq_of_parts a b h = ground arith

pub ruleset int_laws = (arith, +ℤ_parts, -ℤ_parts, eq_of_parts)

infix 50 ◌==ℤ◌
abbrev pub ◌==ℤ◌ : ℤ → ℤ → Bool
a ==ℤ b = pos_part a == pos_part b && neg_part a == neg_part b

pub ==ℤ_iff : (a b : ℤ) → ((a ==ℤ b) ≡ true) ↔ (a ≡ b)
==ℤ_iff a b = ground arith

-- A set of integers, as a list without duplicates in an order of no meaning.
abbrev pub member : ℤ → List ℤ → Bool
member a [] = false
member a (x ∷ xs) = if x ==ℤ a then true else member a xs

abbrev pub insert : ℤ → List ℤ → List ℤ
insert a xs = if member a xs then xs else a ∷ xs

pub member-insert :
    (a b : ℤ) (xs : List ℤ) → member b (insert a xs) ≡ (if a ==ℤ b then true else member b xs)
member-insert a b xs = elim (Bool-cases (member a xs)) [
  | inl e ↦ elim (Bool-cases (a ==ℤ b)) [
    | inl f ↦ rw (e, f) (subst (λ t. member t xs ≡ true) ((==ℤ_iff a b).0 f) e)
    | inr f ↦ rw (e, f)
  ]
  | inr e ↦ rw e
]

pub length-insert : (a : ℤ) (xs : List ℤ) → length (insert a xs) ≤ suc (length xs)
length-insert a xs = ground arith

module _ (a : ℤ) where
  pub member-left : (xs ys : List ℤ) → member a xs ≡ true → member a (xs ++ ys) ≡ true
  member-left [] ys h = cc
  member-left (x ∷ xs) ys h = ground (arith, member-left xs ys)

  pub member-right : (xs ys : List ℤ) → member a ys ≡ true → member a (xs ++ ys) ≡ true
  member-right [] ys h = h
  member-right (x ∷ xs) ys h = ground (arith, member-right xs ys h)

  pub member-append :
      (xs ys : List ℤ) → member a (xs ++ ys) ≡ true → (member a xs ≡ true) ⊎ (member a ys ≡ true)
  member-append [] ys h = inr h
  member-append (x ∷ xs) ys h = elim (Bool-cases (x ==ℤ a)) [
    | inl e ↦ inl (rw e)
    | inr e ↦ elim (member-append xs ys (rw e at h)) [ inl k ↦ inl (rw e k) | inr k ↦ inr k ]
  ]

  pub member_last : (xs : List ℤ) → member a (xs ++ a ∷ []) ≡ true
  member_last xs = member-right xs (a ∷ []) (rw ((==ℤ_iff a a).1 refl))

  pub member_single : (x : ℤ) → member a (x ∷ []) ≡ true → x ≡ a
  member_single x h = elim (Bool-cases (x ==ℤ a)) [
    | inl e ↦ (==ℤ_iff x a).0 e
    | inr e ↦ let bad : false ≡ true = rw e at h in cc
  ]
