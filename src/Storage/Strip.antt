-- ===== src/Storage/Strip.antt =====
-- The part in front of a virtual path.
use mathlib.Core.Option
use gerber.Prelude.{
  take, drop, All-parts, take-append-drop, length-take, ap₂, ℕ, zero, suc, ◌<◌, ◌≡◌, refl, sym, ap,
  ◌∙◌, subst, Bool-cases, inl, inr, [], ◌∷◌, some, ◌==◌, length, arith,
}
use gerber.Zmm.Strings.{Bytes, Lacks, char_at, substring}
use gerber.Zmm.Strings.Pieces.{substring_front}
use gerber.Tools.Paths.{sep}
use gerber.Storage.{strip, strip_loop, strip_at, substring_from, bytes_of}
use gerber.Storage.Separators.{
  strip_loop-LastFree, char_at_end, within_length, strrchr-Last, pred, strip-some, strip_at-suc,
  strip_zero,
}

-- A text that begins with the separator.
abbrev pub Absolute : Bytes → Type 0
Absolute path = (char_at path 0 ≡ sep) × Lacks 0 path

front :
    (path : Bytes) (n : ℕ)
    → Lacks 0 path
    → n < length path
    → substring (some path) 0 n ≡ some (take n path)
front path n h l =
    ap₂ (λ s k. substring (some s) 0 k) (sym (take-append-drop n path))
      (omega (arith, length-take n path))
    ∙ substring_front (take n path) (drop n path)
        (All-parts _ (take n path) (drop n path)
          (subst (Lacks 0) (sym (take-append-drop n path)) h)).0

-- What `first` is to a path.
abbrev pub Shorter : Bytes → Bytes → Type 0
Shorter path first = (length first < length path) × Absolute first

char_at-take : (path : Bytes) (n : ℕ) → char_at (take (suc n) path) 0 ≡ char_at path 0
char_at-take [] n = refl
char_at-take (x ∷ path) n = refl

strip_at-Shorter :
    (path : Bytes) (n : ℕ)
    → Absolute path
    → 1 < length path
    → n < length path
    → Shorter path (strip_at path n).0
strip_at-Shorter path zero a l k = unfold strip_at in (l, (refl, (omega arith, tt)))
strip_at-Shorter path (suc n) a l k =
    subst (Shorter path)
      (sym (
        ap (λ (t : Bytes × Bytes). t.0) (strip_at-suc path n)
        ∙ ap bytes_of (front path (suc n) a.1 k)))
      (
        omega (arith, length-take (suc n) path),
        (
          char_at-take path n ∙ a.0,
          (All-parts _ (take (suc n) path) (drop (suc n) path)
              (subst (Lacks 0) (sym (take-append-drop (suc n) path)) a.1)).0,
        ),
      )

-- A path that is absolute and more than the separator has a shorter absolute path for its front.
pub strip-Shorter :
    (path : Bytes)
    → Absolute path
    → 1 < length path
    → (first : Bytes) × (last : Bytes) × (strip path ≡ some (first, last)) × Shorter path first
strip-Shorter path a l = elim (strrchr-Last sep path (omega arith) a.1) [
  | inl (e, f) ↦ absurd (f 0 a.0)
  | inr (n, e, (at, others)) ↦ elim (Bool-cases (n == 0)) [
    | inl z ↦ (
      sep ∷ [],
      substring_from path 1,
      strip_zero path a.0 (e ∙ ap some {y = 0} (ground arith)),
      (l, (refl, (omega arith, tt))),
    )
    | inr z ↦
        let (m, f) = pred n (ground arith) in
        let (k, eq, (le, free, last)) =
          strip_loop-LastFree path a.0 (length path) n (within_length path n at) at in
        (
          (strip_at path k).0,
          (strip_at path k).1,
          strip-some path m a.0 (e ∙ ap some f)
              ∙ ap (λ i. Option.map (strip_at path) (strip_loop (length path) path i)) (sym f)
              ∙ ap (Option.map (strip_at path)) eq,
          strip_at-Shorter path k a l (ground (arith, char_at_end path n)),
        )
  ]
]
