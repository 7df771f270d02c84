-- ===== src/Tools/Escape/RoundTrip.antt =====
-- `unescape` byte by byte, and the text that is read back.
use mathlib.Core.Option
use gerber.Prelude.{
  ℕ, zero, suc, ◌+◌, ◌≤◌, ◌≡◌, ◌≢◌, refl, sym, ap, ◌∙◌, subst, Bool, inl, inr, true, false, [], ◌∷◌,
  ◌++◌, some, arith, ◌==◌, if◌then◌else◌, length, length-append, drop, take, ◌-◌, drop_all,
  append-nil,
}
use gerber.Zmm.Strings.{Bytes, Lacks, strchr, strncpy, c_str, pad}
use gerber.Zmm.Strings.Search.{strchr-Finds, c_str-Lacks}
use gerber.Zmm.Strings.Pieces.{strncpy-append, strncpy_whole}
use gerber.Tools.Split.Cut.{Lacks-right}
use gerber.Dictionary.Round.{drop_past}
use gerber.Tools.Escape.{backslash, escape, unescape_loop, unescape}
use gerber.Tools.Escape.Protecting.{protected, Lacks-left, escape-protected, protected-NoNul}

-- The escape character goes, and what follows it stays; `keeps` is set behind an escape character.
abbrev pub bared : Bool → ℕ → Bytes → Bytes
bared keeps e [] = []
bared true e (x ∷ s) = x ∷ bared false e s
bared false e (x ∷ s) =
    let rest = bared false e s in let kept = bared true e s in if x == e then kept else x ∷ rest

bared-protected : (t : ℕ) (s : Bytes) → bared false backslash (protected backslash t s) ≡ s
bared-protected t [] = refl
bared-protected t (x ∷ s) = ground (arith, bared-protected t s)

bared-append : (e : ℕ) (p r : Bytes) → Lacks e p → bared false e (p ++ e ∷ r) ≡ p ++ bared true e r
bared-append e [] r h = ground arith
bared-append e (x ∷ p) r h = ground (arith, bared-append e p r h.1)

bared-Lacks : (e : ℕ) (p : Bytes) → Lacks e p → bared false e p ≡ p
bared-Lacks e [] h = refl
bared-Lacks e (x ∷ p) h = ground (arith, bared-Lacks e p h.1)

-- What stands before the next escape character is kept, and the loop goes on behind it.
abbrev unescape_round : ℕ → ℕ → Bytes → Bytes
unescape_round fuel e s =
    let n = Option.get_or (strchr e s) (length s) in
    strncpy n s ++ unescape_loop fuel e (drop (n + 1) s)

abbrev Unescapes : ℕ → ℕ → Type 0
Unescapes e fuel =
    (s : Bytes) → length s ≤ fuel → Lacks 0 s → unescape_loop fuel e s ≡ bared true e s

unescape_nil : (fuel e : ℕ) → unescape_loop fuel e [] ≡ []
unfolding unescape_loop
unescape_nil zero e = refl
unescape_nil (suc fuel) e = refl

unescape_found :
    (fuel e : ℕ) (p r : Bytes)
    → Unescapes e fuel
    → length r ≤ fuel
    → Lacks 0 (p ++ e ∷ r)
    → strchr e (p ++ e ∷ r) ≡ some (length p)
    → Lacks e p
    → unescape_round fuel e (p ++ e ∷ r) ≡ bared false e (p ++ e ∷ r)
unescape_found fuel e p r ih m h f k =
    rw
      (
        f,
        strncpy-append p (e ∷ r) (Lacks-left p (e ∷ r) h),
        drop_past p e r,
        ih r m (Lacks-right p e r h),
      )
      (sym (bared-append e p r k))

unescape_round-bared :
    (fuel e : ℕ) (s : Bytes)
    → Unescapes e fuel
    → e ≢ 0
    → length s ≤ suc fuel
    → Lacks 0 s
    → unescape_round fuel e s ≡ bared false e s
unescape_round-bared fuel e s ih he m h = elim (strchr-Finds e he s h) [
  | inl (f, k) ↦
      rw (f, strncpy_whole s h, drop_all s, unescape_nil fuel e)
        (append-nil s ∙ sym (bared-Lacks e s k))
  | inr (p, r, q, f, k) ↦
      subst (λ a. unescape_round fuel e a ≡ bared false e a) (sym q)
        (unescape_found fuel e p r ih (omega (arith, ap length q, length-append p (e ∷ r)))
          (subst (Lacks 0) q h) (subst (λ a. strchr e a ≡ some (length p)) q f) k)
]

c_str_cons : (x : ℕ) (s : Bytes) → x ≢ 0 → c_str (x ∷ s) ≡ x ∷ c_str s
unfolding c_str
c_str_cons x s h = ground arith

strncpy_cons : (n x : ℕ) (s : Bytes) → x ≢ 0 → strncpy (suc n) (x ∷ s) ≡ x ∷ strncpy n s
unfolding strncpy
strncpy_cons n x s h = rw (c_str_cons x s h) (
    ap (λ k. x ∷ take n (c_str s) ++ pad k) {x = suc n - suc (length (take n (c_str s)))}
      {y = n - length (take n (c_str s))} (omega arith))

unescape_step :
    (fuel e x : ℕ) (s : Bytes)
    → x ≢ 0
    → unescape_loop (suc fuel) e (x ∷ s) ≡ x ∷ unescape_round fuel e s
unfolding unescape_loop
unescape_step fuel e x s h = rw (strncpy_cons (Option.get_or (strchr e s) (length s)) x s h) (
    ap
      (λ k.
        x ∷ strncpy (Option.get_or (strchr e s) (length s)) s
        ++ unescape_loop fuel e (drop k (x ∷ s)))
      {x = suc (Option.get_or (strchr e s) (length s)) + 1}
      {y = suc (Option.get_or (strchr e s) (length s) + 1)} (omega arith))

unescape_loop-bared : (e : ℕ) → e ≢ 0 → (fuel : ℕ) → Unescapes e fuel
unescape_loop-bared e he fuel [] m h = unescape_nil fuel e
unescape_loop-bared e he zero (x ∷ s) m h = absurd (omega arith)
unescape_loop-bared e he (suc fuel) (x ∷ s) m h =
    unescape_step fuel e x s h.0
    ∙ ap (◌∷◌ x)
        (unescape_round-bared fuel e s (unescape_loop-bared e he fuel) he (omega arith) h.1)

-- A text without a NUL is read back by `unescape` from what `escape` makes of it with a backslash
-- and any other character.
pub unescape-escape :
    (s : Bytes) (t : ℕ) → t ≢ 0 → Lacks 0 s → unescape (escape s backslash t) backslash ≡ s
unescape-escape s t ht h = rw (escape-protected s backslash t (omega arith) ht h) (
    unfold unescape in
    rw
      (
        unescape_round-bared (length (protected backslash t s)) backslash (protected backslash t s)
            (unescape_loop-bared backslash (omega arith) (length (protected backslash t s)))
            (omega arith) (omega arith) (protected-NoNul backslash t s h),
        bared-protected t s,
      )
      (c_str-Lacks s h))
