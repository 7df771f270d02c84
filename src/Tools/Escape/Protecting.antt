-- ===== src/Tools/Escape/Protecting.antt =====
-- `escape` byte by byte.
use mathlib.Core.Option
use gerber.Prelude.{
  ℕ, zero, suc, ◌+◌, ◌≤◌, ◌≡◌, ◌≢◌, ◌⊎◌, refl, sym, ap, ◌∙◌, subst, Bool-cases, inl, inr, true,
  false, ◌||◌, [], ◌∷◌, ◌++◌, Option, none, some, arith, ltb, lt→ltb, ◌==◌, if◌then◌else◌, length,
  length-append, drop, append-nil,
}
use gerber.Zmm.Strings.{Bytes, Lacks, strchr}
use gerber.Zmm.Strings.Search.{c_str-Lacks}
use gerber.Zmm.Strings.Pieces.{strncpy-append, strncpy_whole}
use gerber.Tools.Split.Cut.{Lacks-right}
use gerber.Dictionary.Round.{drop_past}
use gerber.Zmm.Strings.{char_at}
use gerber.Tools.Escape.{backslash, nearer, escaped, escape_loop, escape}

-- A backslash before each of the two characters.
abbrev pub protected : ℕ → ℕ → Bytes → Bytes
protected e t [] = []
protected e t (x ∷ s) =
    if x == e || x == t then backslash ∷ x ∷ protected e t s else x ∷ protected e t s

-- The nearest of the two characters.
abbrev Nearest : ℕ → ℕ → Bytes → Type 0
Nearest e t s =
    ((nearer (strchr e s) (strchr t s) ≡ none) × Lacks e s × Lacks t s)
    ⊎ ((p : Bytes) × (x : ℕ) × (r : Bytes) × (s ≡ p ++ x ∷ r)
        × (nearer (strchr e s) (strchr t s) ≡ some (length p))
        × Lacks e p
        × Lacks t p
        × ((x == e || x == t) ≡ true))

nearer-map :
    (a b : Option ℕ) → nearer (Option.map suc a) (Option.map suc b) ≡ Option.map suc (nearer a b)
unfolding nearer
nearer-map none b = refl
nearer-map (some n) none = refl
nearer-map (some n) (some m) = ground arith

strchr_miss : (c x : ℕ) (s : Bytes) → x ≢ c → x ≢ 0 → strchr c (x ∷ s) ≡ Option.map suc (strchr c s)
unfolding strchr
strchr_miss c x s h k = ground arith

strchr_hit : (x : ℕ) (s : Bytes) → strchr x (x ∷ s) ≡ some 0
unfolding strchr
strchr_hit x s = ground arith

nearer_zero : (o : Option ℕ) → (nearer (some 0) o ≡ some 0) × (nearer o (some 0) ≡ some 0)
unfolding nearer
nearer_zero none = (refl, refl)
nearer_zero (some n) = (ground arith, ground arith)

nearest_hit :
    (e t x : ℕ) (s : Bytes)
    → (x == e || x == t) ≡ true
    → nearer (strchr e (x ∷ s)) (strchr t (x ∷ s)) ≡ some 0
nearest_hit e t x s h = elim (Bool-cases (x == e)) [
  | inl f ↦
      ap (λ k. nearer (strchr k (x ∷ s)) (strchr t (x ∷ s))) {x = e} {y = x} (ground arith)
      ∙ ap (λ o. nearer o (strchr t (x ∷ s))) (strchr_hit x s)
      ∙ (nearer_zero (strchr t (x ∷ s))).0
  | inr f ↦
      ap (λ k. nearer (strchr e (x ∷ s)) (strchr k (x ∷ s))) {x = t} {y = x} (ground arith)
      ∙ ap (nearer (strchr e (x ∷ s))) (strchr_hit x s)
      ∙ (nearer_zero (strchr e (x ∷ s))).1
]

nearest_miss :
    (e t x : ℕ) (s : Bytes)
    → x ≢ 0
    → (x == e || x == t) ≡ false
    → nearer (strchr e (x ∷ s)) (strchr t (x ∷ s))
      ≡ Option.map suc (nearer (strchr e s) (strchr t s))
nearest_miss e t x s z h =
    rw (strchr_miss e x s (ground arith) z, strchr_miss t x s (ground arith) z)
      (nearer-map (strchr e s) (strchr t s))

strchr-Nearest : (e t : ℕ) → e ≢ 0 → t ≢ 0 → (s : Bytes) → Lacks 0 s → Nearest e t s
strchr-Nearest e t he ht [] h = inl (unfold strchr nearer in ground arith, tt, tt)
strchr-Nearest e t he ht (x ∷ s) h = elim (Bool-cases (x == e || x == t)) [
  | inl hit ↦ inr ([], x, s, refl, nearest_hit e t x s hit, tt, tt, hit)
  | inr miss ↦ elim (strchr-Nearest e t he ht s h.1) [
    | inl (f, k, l) ↦ inl (
      nearest_miss e t x s h.0 miss ∙ ap (Option.map suc) f,
      (ground arith, k),
      (ground arith, l),
    )
    | inr (p, y, r, q, f, k, l, hit) ↦ inr (
      x ∷ p,
      y,
      r,
      ap (◌∷◌ x) q,
      nearest_miss e t x s h.0 miss ∙ ap (Option.map suc) f,
      (ground arith, k),
      (ground arith, l),
      hit,
    )
  ]
]

protected-append :
    (e t : ℕ) (p : Bytes) (x : ℕ) (r : Bytes)
    → Lacks e p
    → Lacks t p
    → (x == e || x == t) ≡ true
    → protected e t (p ++ x ∷ r) ≡ p ++ backslash ∷ x ∷ protected e t r
protected-append e t [] x r k l h = rw h refl
protected-append e t (y ∷ p) x r k l h = ground (arith, protected-append e t p x r k.1 l.1)

protected-Lacks : (e t : ℕ) (p : Bytes) → Lacks e p → Lacks t p → protected e t p ≡ p
protected-Lacks e t [] k l = refl
protected-Lacks e t (y ∷ p) k l = ground (arith, protected-Lacks e t p k.1 l.1)

char_at-append : (p : Bytes) (x : ℕ) (r : Bytes) → char_at (p ++ x ∷ r) (length p) ≡ x
char_at-append [] x r = refl
char_at-append (y ∷ p) x r = char_at-append p x r

pub Lacks-left : (p r : Bytes) → Lacks 0 (p ++ r) → Lacks 0 p
Lacks-left [] r h = tt
Lacks-left (x ∷ p) r h = (h.0, Lacks-left p r h.1)

escaped-append :
    (p : Bytes) (x : ℕ) (r rest : Bytes)
    → Lacks 0 p
    → escaped (p ++ x ∷ r) (length p) rest ≡ p ++ backslash ∷ x ∷ rest
unfolding escaped
escaped-append p x r rest h =
    rw
      (
        strncpy-append p (x ∷ r) h,
        char_at-append p x r,
        lt→ltb (length p) (length (p ++ x ∷ r)) (omega (arith, length-append p (x ∷ r))),
      )
      refl

escaped_all : (s rest : Bytes) → Lacks 0 s → escaped s (length s) rest ≡ s
unfolding escaped
escaped_all s rest h = rw (strncpy_whole s h, ltb_same (length s)) (append-nil s)
  where
    ltb_same : (n : ℕ) → ltb n n ≡ false
    ltb_same n = ground arith

-- A round, and the rounds behind it.
abbrev escape_round : ℕ → ℕ → ℕ → Bytes → Bytes
escape_round fuel e t s =
    let n = Option.get_or (nearer (strchr e s) (strchr t s)) (length s) in
    escaped s n (escape_loop fuel e t (drop (n + 1) s))

abbrev Escapes : ℕ → ℕ → ℕ → Type 0
Escapes e t fuel =
    (s : Bytes) → length s ≤ fuel → Lacks 0 s → escape_loop fuel e t s ≡ protected e t s

round_found :
    (fuel e t : ℕ) (p : Bytes) (x : ℕ) (r : Bytes)
    → Escapes e t fuel
    → length r ≤ fuel
    → Lacks 0 (p ++ x ∷ r)
    → nearer (strchr e (p ++ x ∷ r)) (strchr t (p ++ x ∷ r)) ≡ some (length p)
    → Lacks e p
    → Lacks t p
    → (x == e || x == t) ≡ true
    → escape_round fuel e t (p ++ x ∷ r) ≡ protected e t (p ++ x ∷ r)
round_found fuel e t p x r ih m h f k l hit =
    rw
      (
        f,
        drop_past p x r,
        ih r m (Lacks-right p x r h),
        escaped-append p x r (protected e t r) (Lacks-left p (x ∷ r) h),
      )
      (sym (protected-append e t p x r k l hit))

escape_round-protected :
    (fuel e t : ℕ) (s : Bytes)
    → Escapes e t fuel
    → e ≢ 0
    → t ≢ 0
    → length s ≤ suc fuel
    → Lacks 0 s
    → escape_round fuel e t s ≡ protected e t s
escape_round-protected fuel e t s ih he ht m h = elim (strchr-Nearest e t he ht s h) [
  | inl (f, k, l) ↦ rw f (escaped_all s _ h ∙ sym (protected-Lacks e t s k l))
  | inr (p, x, r, q, f, k, l, hit) ↦
      subst (λ a. escape_round fuel e t a ≡ protected e t a) (sym q)
        (round_found fuel e t p x r ih (omega (arith, ap length q, length-append p (x ∷ r)))
          (subst (Lacks 0) q h)
          (subst (λ a. nearer (strchr e a) (strchr t a) ≡ some (length p)) q f) k l hit)
]

escape_loop-protected : (fuel e t : ℕ) → e ≢ 0 → t ≢ 0 → Escapes e t fuel
unfolding escape_loop
escape_loop-protected zero e t he ht [] m h = refl
escape_loop-protected zero e t he ht (x ∷ s) m h = absurd (omega arith)
escape_loop-protected (suc fuel) e t he ht [] m h = refl
escape_loop-protected (suc fuel) e t he ht (x ∷ s) m h =
    escape_round-protected fuel e t (x ∷ s) (escape_loop-protected fuel e t he ht) he ht m h

pub protected-NoNul : (e t : ℕ) (s : Bytes) → Lacks 0 s → Lacks 0 (protected e t s)
protected-NoNul e t [] h = tt
protected-NoNul e t (x ∷ s) h = ground (arith, protected-NoNul e t s h.1)

-- `escape` puts a backslash before each of the two characters, and changes nothing else. The text has
-- no NUL.
pub escape-protected :
    (s : Bytes) (e t : ℕ) → e ≢ 0 → t ≢ 0 → Lacks 0 s → escape s e t ≡ protected e t s
unfolding escape
escape-protected s e t he ht h =
    rw (escape_loop-protected (length s) e t he ht s (omega arith) h)
      (c_str-Lacks (protected e t s) (protected-NoNul e t s h))
