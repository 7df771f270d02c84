-- ===== src/Zmm/Strings/Search.antt =====
-- What `strchr`, `c_str` and the comparison give on texts without a NUL.
use gerber.Prelude.{
  ℕ, ◌≡◌, refl, ap, ◌≢◌, ◌⊎◌, inl, inr, ◌↔◌, true, ◌==◌, Bool-cases, [], ◌∷◌, ◌++◌, some, none,
  arith, length,
}
use gerber.Zmm.Strings.{Bytes, Lacks, c_str, strchr, bytes_eq, strcmp_eq}

-- A text either lacks the character, or splits at its first occurrence.
abbrev pub Finds : ℕ → Bytes → Type 0
Finds c s =
    ((strchr c s ≡ none) × Lacks c s)
    ⊎ ((p : Bytes) × (r : Bytes) × (s ≡ p ++ c ∷ r) × (strchr c s ≡ some (length p)) × Lacks c p)

module _ (c : ℕ) (nonzero : c ≢ 0) where
  pub strchr-Finds : (s : Bytes) → Lacks 0 s → Finds c s
  unfolding strchr
  strchr-Finds [] h = inl (ground arith, tt)
  strchr-Finds (x ∷ xs) h = elim (Bool-cases (x == c)) [
    | inl hit ↦ inr ([], xs, ground arith, ground arith, tt)
    | inr miss ↦ elim (strchr-Finds xs h.1) [
      | inl (e, lacks) ↦ inl (ground arith, (ground arith, lacks))
      | inr (p, r, e, f, lacks) ↦ inr (x ∷ p, r, ap (◌∷◌ x) e, ground arith, (ground arith, lacks))
    ]
  ]

  pub strchr-append :
      (p r : Bytes) → Lacks 0 p → Lacks c p → strchr c (p ++ c ∷ r) ≡ some (length p)
  unfolding strchr
  strchr-append [] r h k = ground arith
  strchr-append (x ∷ p) r h k = ground (arith, strchr-append p r h.1 k.1)

  pub strchr-none : (s : Bytes) → Lacks c s → strchr c s ≡ none
  unfolding strchr
  strchr-none [] h = ground arith
  strchr-none (x ∷ s) h = ground (arith, strchr-none s h.1)

pub c_str-Lacks : (s : Bytes) → Lacks 0 s → c_str s ≡ s
unfolding c_str
c_str-Lacks [] h = refl
c_str-Lacks (x ∷ s) h = ground (arith, c_str-Lacks s h.1)

pub bytes_eq_iff : (a b : Bytes) → (bytes_eq a b ≡ true) ↔ (a ≡ b)
unfolding bytes_eq
bytes_eq_iff [] [] = ground arith
bytes_eq_iff [] (y ∷ b) = ground arith
bytes_eq_iff (x ∷ a) [] = ground arith
bytes_eq_iff (x ∷ a) (y ∷ b) = ground (arith, bytes_eq_iff a b)

-- On texts without a NUL `strcmp` is equality.
pub strcmp_eq_iff : (a b : Bytes) → Lacks 0 a → Lacks 0 b → (strcmp_eq a b ≡ true) ↔ (a ≡ b)
unfolding strcmp_eq
strcmp_eq_iff a b h k = ground (arith, c_str-Lacks a h, c_str-Lacks b k, bytes_eq_iff a b)
