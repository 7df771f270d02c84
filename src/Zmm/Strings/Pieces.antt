-- ===== src/Zmm/Strings/Pieces.antt =====
-- What `strncpy` and `substring` copy of a text in two pieces.
use gerber.Prelude.{
  ℕ, ◌+◌, ◌-◌, ◌≡◌, refl, ap, ap₂, append_assoc, ◌∙◌, subst, Bool-cases, inl, inr, [], ◌∷◌, ◌++◌,
  some, arith, ltb, length, length-append, take-append, drop-append, append-nil,
}
use gerber.Zmm.Strings.{Bytes, Lacks, c_str, strncpy, substring, pad}

c_str-append : (p r : Bytes) → Lacks 0 p → c_str (p ++ r) ≡ p ++ c_str r
unfolding c_str
c_str-append [] r h = refl
c_str-append (x ∷ p) r h = ground (arith, c_str-append p r h.1)

pub strncpy-append : (p r : Bytes) → Lacks 0 p → strncpy (length p) (p ++ r) ≡ p
unfolding strncpy
strncpy-append p r h =
    rw (c_str-append p r h, take-append p (c_str r))
      (ap (λ n. p ++ pad n) {x = length p - length p} {y = 0} (omega arith) ∙ append-nil p)

pub strncpy_whole : (s : Bytes) → Lacks 0 s → strncpy (length s) s ≡ s
strncpy_whole s h = subst (λ t. strncpy (length s) t ≡ s) (append-nil s) (strncpy-append s [] h)

pub substring_front : (p r : Bytes) → Lacks 0 p → substring (some (p ++ r)) 0 (length p) ≡ some p
unfolding substring
substring_front [] r h = ground arith
substring_front (x ∷ p) r h = elim (Bool-cases (ltb (length (x ∷ p ++ r)) (0 + length (x ∷ p)))) [
  | inl e ↦ absurd (ground (arith, length-append p r))
  | inr e ↦ rw e (ground (arith, strncpy-append (x ∷ p) r h))
]

pub substring_rest :
    (p r : Bytes) → Lacks 0 r → substring (some (p ++ r)) (length p) (length r) ≡ some r
unfolding substring
substring_rest p [] h = ground arith
substring_rest p (x ∷ r) h =
    elim (Bool-cases (ltb (length (p ++ x ∷ r)) (length p + length (x ∷ r)))) [
      | inl e ↦ absurd (ground (arith, length-append p (x ∷ r)))
      | inr e ↦ rw (e, drop-append p (x ∷ r)) (ground (arith, strncpy_whole (x ∷ r) h))
    ]

-- Everything behind a character.
pub substring_past :
    (c : ℕ) (p r : Bytes)
    → Lacks 0 r
    → substring (some (p ++ c ∷ r)) (length p + 1) (length (p ++ c ∷ r) - (length p + 1)) ≡ some r
substring_past c p r h =
    ap₂ (λ n m. substring (some (p ++ c ∷ r)) n m) (omega (arith, length-append p (c ∷ [])))
      (omega (arith, length-append p (c ∷ r)))
    ∙ subst (λ t. substring (some t) (length (p ++ c ∷ [])) (length r) ≡ some r)
        (append_assoc p (c ∷ []) r) (substring_rest (p ++ c ∷ []) r h)
