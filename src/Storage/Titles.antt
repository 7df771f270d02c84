-- ===== src/Storage/Titles.antt =====
-- A path and the title that is escaped behind it.
use mathlib.Core.Option
use gerber.Prelude.{
  ap₂, All-append, ℕ, zero, suc, ◌-◌, ◌+◌, ◌<◌, ◌≤◌, ◌≡◌, ◌≢◌, refl, sym, ap, ◌∙◌, Bool-cases, inl,
  inr, [], ◌∷◌, ◌++◌, some, ◌==◌, ◌||◌, length, arith, ltb,
}
use gerber.Zmm.Strings.{Bytes, Lacks, char_at, strrchr}
use gerber.Tools.Escape.{escape, unescape, backslash}
use gerber.Tools.Escape.Protecting.{protected, escape-protected, protected-NoNul}
use gerber.Tools.Escape.RoundTrip.{unescape-escape}
use gerber.Zmm.Strings.Pieces.{substring_front}
use gerber.Tools.Paths.{sep}
use gerber.Storage.{strip, strip_loop, strip_at, bytes_of}
use gerber.Storage.Separators.{
  Free, strip_loop-LastFree, char_at-right, char_at-left, within_length, strrchr-Last, pred,
  strip-some, strip_at-suc, substring_from_past,
}

-- Each separator has a backslash before it.
abbrev Guarded : Bytes → Type 0
Guarded s = (char_at s 0 ≢ sep) × ((i : ℕ) → char_at s (suc i) ≡ sep → char_at s i ≡ backslash)

Guarded-plain : (x : ℕ) (s : Bytes) → x ≢ sep → Guarded s → Guarded (x ∷ s)
Guarded-plain x s n g = (n, later)
  where
    later : (i : ℕ) → char_at s i ≡ sep → char_at (x ∷ s) i ≡ backslash
    later zero h = absurd (g.0 h)
    later (suc i) h = g.1 i h

Guarded-pair : (x : ℕ) (s : Bytes) → Guarded s → Guarded (backslash ∷ x ∷ s)
Guarded-pair x s g = (λ h. ground arith, later)
  where
    later : (i : ℕ) → char_at (x ∷ s) i ≡ sep → char_at (backslash ∷ x ∷ s) i ≡ backslash
    later zero h = refl
    later (suc zero) h = absurd (g.0 h)
    later (suc (suc i)) h = g.1 i h

protected-Guarded : (s : Bytes) → Guarded (protected backslash sep s)
protected-Guarded [] = (λ h. ground arith, λ i h. ground arith)
protected-Guarded (x ∷ s) = elim (Bool-cases (x == backslash || x == sep)) [
  | inl e ↦ rw e (Guarded-pair x (protected backslash sep s) (protected-Guarded s))
  | inr e ↦ rw e (Guarded-plain x (protected backslash sep s) (ground arith) (protected-Guarded s))
]

module _ (p t : Bytes) (plain : char_at (sep ∷ p) (length p) ≢ backslash) (g : Guarded t) where
  abbrev joined : Bytes
  joined = (sep ∷ p) ++ sep ∷ t

  joined-Free : Free joined (suc (length p))
  joined-Free = (
    ap (char_at joined) {x = suc (length p)} {y = length (sep ∷ p) + 0} (omega arith)
        ∙ char_at-right (sep ∷ p) (sep ∷ t) 0,
    inr (λ e. plain (
        sym (char_at-left (sep ∷ p) (sep ∷ t) (length p) (omega arith))
        ∙ ap (char_at joined) {x = length p} {y = suc (length p) - 1} (omega arith)
        ∙ e)),
  )

  joined_guarded :
      (i : ℕ)
      → char_at joined (suc (length p) + suc i) ≡ sep
      → char_at joined (suc (length p) + i) ≡ backslash
  joined_guarded zero h = absurd (g.0 (sym (char_at-right (sep ∷ p) (sep ∷ t) 1) ∙ h))
  joined_guarded (suc i) h =
      char_at-right (sep ∷ p) (sep ∷ t) (suc i)
      ∙ g.1 i (sym (char_at-right (sep ∷ p) (sep ∷ t) (suc (suc i))) ∙ h)

  joined_rest : (k : ℕ) → suc (length p) < k → Free joined k → ⊥
  joined_rest k l (h, inl e) = omega arith
  joined_rest k l (h, inr ne) = ne (
      ap (char_at joined) {x = k - 1} {y = suc (length p) + (k - 2 - length p)} (omega arith)
      ∙ joined_guarded (k - 2 - length p) (ap (char_at joined) {y = k} (omega arith) ∙ h))

  strip_loop-joined :
      (at : ℕ)
      → char_at joined at ≡ sep
      → suc (length p) ≤ at
      → strip_loop (length joined) joined at ≡ some (suc (length p))
  strip_loop-joined at h l =
      let (n, eq, (le, free, last)) =
        strip_loop-LastFree joined refl (length joined) at (within_length joined at h) h in
      eq
      ∙ ap some (elim (Bool-cases (ltb n (suc (length p)))) [
        | inl less ↦ absurd (last (suc (length p)) (ground arith) l joined-Free)
        | inr more ↦ elim (Bool-cases (ltb (suc (length p)) n)) [
          | inl less ↦ absurd (joined_rest n (ground arith) free)
          | inr same ↦ ground arith
        ]
      ])

  module _ (no_nul : Lacks 0 p) (no_nul' : Lacks 0 t) where
    joined-Lacks : Lacks 0 joined
    joined-Lacks = All-append _ (sep ∷ p) (sep ∷ t) (ground arith) (ground arith)

    last_sep :
        (n : ℕ) × (strrchr sep joined ≡ some (suc n))
        × ((char_at joined (suc n) ≡ sep) × (length p ≤ n))
    last_sep = elim (strrchr-Last sep joined (omega arith) joined-Lacks) [
      | inl (e, f) ↦ absurd (f 0 refl)
      | inr (n, e, (at, others)) ↦ elim (Bool-cases (ltb n (suc (length p)))) [
        | inl l ↦ absurd (others (suc (length p)) (ground arith) joined-Free.0)
        | inr l ↦
            let (m, f) = pred n (ground arith) in
            (m, e ∙ ap some f, (ap (char_at joined) (sym f) ∙ at, ground arith))
      ]
    ]

    strip-joined : strip joined ≡ some (sep ∷ p, unescape t backslash)
    strip-joined =
        let (n, e, (at, le)) = last_sep in
        strip-some joined n refl e
        ∙ ap (Option.map (strip_at joined)) (strip_loop-joined (suc n) at (omega arith))
        ∙ ap some (
            strip_at-suc joined (length p)
            ∙ ap₂ (λ a b. (bytes_of a, unescape b backslash))
                (substring_front (sep ∷ p) (sep ∷ t) (ground arith))
                (substring_from_past sep (sep ∷ p) t no_nul'))

-- A path whose last byte is no backslash, and the title that is escaped behind it, are taken apart
-- again. Neither has a NUL.
pub strip-escape :
    (p title : Bytes)
    → Lacks 0 p
    → Lacks 0 title
    → char_at (sep ∷ p) (length p) ≢ backslash
    → strip ((sep ∷ p) ++ sep ∷ escape title backslash sep) ≡ some (sep ∷ p, title)
strip-escape p title h k plain =
    ap (λ t. strip ((sep ∷ p) ++ sep ∷ t)) e
    ∙ strip-joined p t plain (protected-Guarded title) h (protected-NoNul backslash sep title k)
    ∙ ap (λ t. some (sep ∷ p, t))
        (ap (λ t. unescape t backslash) (sym e) ∙ unescape-escape title sep (omega arith) k)
  where
    t : Bytes
    t = protected backslash sep title

    e : escape title backslash sep ≡ protected backslash sep title
    e = escape-protected title backslash sep (omega arith) (omega arith) k
