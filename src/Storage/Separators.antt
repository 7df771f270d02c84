-- ===== src/Storage/Separators.antt =====
-- The searches for separators that `stripAndUnescapeVirtualContainerFromPath` makes.
use mathlib.Core.Option
use gerber.Prelude.{
  ℕ, zero, suc, ◌-◌, ◌+◌, ◌<◌, ◌≤◌, ◌≡◌, ◌≢◌, ◌⊎◌, refl, ap, ◌∙◌, Bool-cases, inl, inr, [], ◌∷◌,
  ◌++◌, none, some, ◌==◌, length, arith, ltb,
}
use gerber.Zmm.Strings.{Bytes, Lacks, char_at, strrchr, rindex_upto, substring}
use gerber.Tools.Escape.{unescape, backslash}
use gerber.Zmm.Strings.Pieces.{substring_past}
use gerber.Tools.Paths.{sep}
use gerber.Storage.{strip, strip_loop, strip_at, substring_from, bytes_of}

-- A separator that no backslash protects.
abbrev pub Free : Bytes → ℕ → Type 0
Free path n = (char_at path n ≡ sep) × ((n ≡ 0) ⊎ (char_at path (n - 1) ≢ backslash))

abbrev Found : Bytes → ℕ → ℕ → ℕ → Type 0
Found s end c n = (n ≤ end) × (char_at s n ≡ c) × ((k : ℕ) → n < k → k ≤ end → char_at s k ≢ c)

rindex_upto-Found :
    (s : Bytes) (end c : ℕ)
    → char_at s 0 ≡ c
    → (n : ℕ) × (rindex_upto s end c ≡ some n) × Found s end c n
unfolding rindex_upto
rindex_upto-Found s zero c h = (0, ground arith, (omega arith, h, λ k l m. absurd (omega arith)))
rindex_upto-Found s (suc end) c h = elim (Bool-cases (char_at s (suc end) == c)) [
  | inl e ↦ (suc end, rw e, (omega arith, ground arith, λ k l m. absurd (omega arith)))
  | inr e ↦
      let (n, eq, (le, at, others)) = rindex_upto-Found s end c h in
      (
        n,
        rw (e, eq),
        (
          omega arith,
          at,
          λ k l m. elim (Bool-cases (k == suc end)) [
            | inl f ↦ λ g. ground arith
            | inr f ↦ others k l (ground arith)
          ],
        ),
      )
]

-- The last separator that is free, up to `at`.
abbrev pub LastFree : Bytes → ℕ → ℕ → Type 0
LastFree path at n = (n ≤ at) × Free path n × ((k : ℕ) → n < k → k ≤ at → Free path k → ⊥)

Free-here : (path : Bytes) (at : ℕ) → Free path at → LastFree path at at
Free-here path at h = (omega arith, h, λ k l m. absurd (omega arith))

-- A protected separator is passed over.
LastFree-back :
    (path : Bytes) (at m n : ℕ)
    → char_at path (at - 1) ≡ backslash
    → at ≢ 0
    → Found path (at - 1) sep m
    → LastFree path m n
    → LastFree path at n
LastFree-back path at m n e z (le, there, others) (le', free, last) = (
  omega arith,
  free,
  λ k l h g. elim (Bool-cases (k == at)) [
    | inl f ↦ elim g.1 [
      | inl q ↦ ground arith
      | inr q ↦ q (ap (λ i. char_at path (i - 1)) {x = k} {y = at} (ground arith) ∙ e)
    ]
    | inr f ↦ elim (Bool-cases (ltb m k)) [
      | inl q ↦ others k (ground arith) (ground arith) g.0
      | inr q ↦ last k l (ground arith) g
    ]
  ],
)

module _ (path : Bytes) (absolute : char_at path 0 ≡ sep) where
  pub strip_loop-LastFree :
      (fuel at : ℕ)
      → at ≤ fuel
      → char_at path at ≡ sep
      → (n : ℕ) × (strip_loop fuel path at ≡ some n) × LastFree path at n
  unfolding strip_loop
  strip_loop-LastFree zero at f h = (at, refl, Free-here path at (h, inl (omega arith)))
  strip_loop-LastFree (suc fuel) at f h = elim (Bool-cases (at == 0)) [
    | inl z ↦ (at, rw z (ground arith), Free-here path at (h, inl (ground arith)))
    | inr z ↦ elim (Bool-cases (char_at path (at - 1) == backslash)) [
      | inl e ↦
          let (m, eq, found) = rindex_upto-Found path (at - 1) sep absolute in
          let (n, eq', last) = strip_loop-LastFree fuel m (ground arith) found.1 in
          (n, rw (z, e, eq) eq', LastFree-back path at m n (ground arith) (ground arith) found last)
      | inr e ↦ (at, rw (z, e), Free-here path at (h, inr (ground arith)))
    ]
  ]

pub char_at-right : (p r : Bytes) (i : ℕ) → char_at (p ++ r) (length p + i) ≡ char_at r i
char_at-right [] r i = ap (char_at r) {x = 0 + i} {y = i} (omega arith)
char_at-right (x ∷ p) r i =
    ap (char_at (x ∷ p ++ r)) {x = suc (length p) + i} {y = suc (length p + i)} (omega arith)
    ∙ char_at-right p r i

pub char_at-left : (p r : Bytes) (i : ℕ) → i < length p → char_at (p ++ r) i ≡ char_at p i
char_at-left [] r i h = absurd (omega arith)
char_at-left (x ∷ p) r zero h = refl
char_at-left (x ∷ p) r (suc i) h = char_at-left p r i (omega arith)

pub char_at_end : (s : Bytes) (i : ℕ) → length s ≤ i → char_at s i ≡ 0
char_at_end [] i h = refl
char_at_end (x ∷ s) zero h = absurd (omega arith)
char_at_end (x ∷ s) (suc i) h = char_at_end s i (omega arith)

pub within_length : (s : Bytes) (at : ℕ) → char_at s at ≡ sep → at ≤ length s
within_length s at h = elim (Bool-cases (ltb (length s) at)) [
  | inl l ↦ absurd (ground (arith, char_at_end s at))
  | inr l ↦ ground arith
]

-- `strrchr` finds the last one, or there is none.
pub strrchr-Last :
    (c : ℕ) (s : Bytes)
    → c ≢ 0
    → Lacks 0 s
    → ((strrchr c s ≡ none) × ((k : ℕ) → char_at s k ≢ c))
      ⊎ ((n : ℕ) × (strrchr c s ≡ some n)
          × ((char_at s n ≡ c) × ((k : ℕ) → n < k → char_at s k ≢ c)))
unfolding strrchr
strrchr-Last c [] z h = inl (refl, λ k e. ground arith)
strrchr-Last c (x ∷ s) z h = elim (strrchr-Last c s z h.1) [
  | inr (n, eq, (at, others)) ↦ inr (suc n, rw eq (ground arith), (at, later others))
  | inl (eq, others) ↦ elim (Bool-cases (x == c)) [
    | inl e ↦ inr (0, rw eq (ground arith), (ground arith, behind others))
    | inr e ↦ inl (rw eq (ground arith), nowhere (ground arith) others)
  ]
]
  where
    later :
        {n : ℕ} → ((k : ℕ) → n < k → char_at s k ≢ c) → (k : ℕ) → suc n < k → char_at (x ∷ s) k ≢ c
    later f zero l = absurd (omega arith)
    later f (suc k) l = f k (omega arith)

    behind : ((k : ℕ) → char_at s k ≢ c) → (k : ℕ) → 0 < k → char_at (x ∷ s) k ≢ c
    behind f zero l = absurd (omega arith)
    behind f (suc k) l = f k

    nowhere : x ≢ c → ((k : ℕ) → char_at s k ≢ c) → (k : ℕ) → char_at (x ∷ s) k ≢ c
    nowhere n f zero = n
    nowhere n f (suc k) = f k

pub pred : (n : ℕ) → 0 < n → (m : ℕ) × (n ≡ suc m)
pred zero h = absurd (omega arith)
pred (suc m) h = (m, refl)

pub strip-some :
    (path : Bytes) (n : ℕ)
    → char_at path 0 ≡ sep
    → strrchr sep path ≡ some (suc n)
    → strip path ≡ Option.map (strip_at path) (strip_loop (length path) path (suc n))
unfolding strip
strip-some path n h e = rw (h, e, strip)

pub strip_at-suc :
    (path : Bytes) (n : ℕ)
    → strip_at path (suc n) ≡ (
      bytes_of (substring (some path) 0 (suc n)),
      unescape (substring_from path (suc (suc n))) backslash,
    )
unfolding strip_at
strip_at-suc path n = refl

pub substring_from_past :
    (c : ℕ) (p r : Bytes) → Lacks 0 r → substring_from (p ++ c ∷ r) (suc (length p)) ≡ r
unfolding substring_from
substring_from_past c p r h = ap bytes_of (
    ap (λ n. substring (some (p ++ c ∷ r)) n (length (p ++ c ∷ r) - n)) {y = length p + 1}
      (omega arith)
    ∙ substring_past c p r h)

pub strip_zero :
    (path : Bytes)
    → char_at path 0 ≡ sep
    → strrchr sep path ≡ some 0
    → strip path ≡ some (sep ∷ [], substring_from path 1)
unfolding strip
strip_zero path h e = rw (h, e, strip)
