-- ===== src/Tools/Paths/Walking.antt =====
-- The loop of `normalizePath` against a path as a stack of names.
use mathlib.Core.Option
use gerber.Prelude.{
  ℕ, zero, suc, ◌+◌, ◌≡◌, ◌≢◌, ◌≤◌, ◌<◌, refl, sym, ap, subst, inl, inr, true, false, Bool-cases,
  List, [], ◌∷◌, ◌++◌, none, some, ◌==◌, length, drop, arith, length-append, take-append,
  append-nil,
}
use gerber.Zmm.Strings.{Bytes, Lacks, strchr, bytes_eq}
use gerber.Zmm.Strings.Pieces.{strncpy-append}
use gerber.Zmm.Strings.Search.{strchr-Finds}
use gerber.Tools.Split.Cut.{cut, cut-append, cut-Lacks, Lacks-right}
use gerber.Dictionary.Round.{drop_past}
use gerber.Tools.Paths.{sep, Walk, push, pop, skip_seps, go_back, add_part, walk_part, walk}
use gerber.Prelude.{drop_all}
use gerber.Tools.Paths.Names.{tail, enter, resolve, render}

abbrev offsets : List Bytes → List ℕ
offsets [] = []
offsets (n ∷ names) = length (render names) ∷ offsets names

abbrev pub standing : List Bytes → Walk
standing names = record { out = render names; seps = offsets names }

go_back-standing : (names : List Bytes) → go_back (standing names) ≡ standing (tail names)
unfolding go_back pop
go_back-standing [] = refl
go_back-standing (n ∷ names) = rw (take-append (render names) (sep ∷ n)) refl

Lacks-left : (p r : Bytes) → Lacks 0 (p ++ r) → Lacks 0 p
Lacks-left [] r h = tt
Lacks-left (x ∷ p) r h = (h.0, Lacks-left p r h.1)

add_part-standing :
    (p r : Bytes) (names : List Bytes)
    → Lacks 0 (p ++ r)
    → add_part (p ++ r) (length p) (standing names) ≡ standing (p ∷ names)
unfolding add_part push
add_part-standing p r names h = rw (strncpy-append p r (Lacks-left p r h)) refl

walk_part-standing :
    (x : ℕ) (p r : Bytes) (names : List Bytes)
    → Lacks 0 (x ∷ p ++ r)
    → Lacks sep (x ∷ p)
    → walk_part (x ∷ p ++ r) (length (x ∷ p)) (standing names) ≡ standing (enter (x ∷ p) names)
unfolding walk_part enter bytes_eq
walk_part-standing x [] r names h k = ground (arith, add_part-standing (x ∷ []) r names h)
walk_part-standing x (y ∷ []) r names h k =
    ground (arith, add_part-standing (x ∷ y ∷ []) r names h, go_back-standing names)
walk_part-standing x (y ∷ z ∷ p) r names h k =
    ground (arith, add_part-standing (x ∷ y ∷ z ∷ p) r names h)

abbrev Skips : Bytes → List Bytes → Type 0
Skips s names = resolve (cut sep (skip_seps s)) names ≡ resolve (cut sep s) names

skip_one :
    (x : ℕ) (s : Bytes) (names : List Bytes)
    → (x == sep) ≡ true
    → Skips s names
    → Skips (x ∷ s) names
unfolding skip_seps cut resolve enter
skip_one x s names e ih = rw e ih

skip_none : (x : ℕ) (s : Bytes) → (x == sep) ≡ false → skip_seps (x ∷ s) ≡ x ∷ s
unfolding skip_seps
skip_none x s e = rw e refl

-- Separators at the head of a rest give empty parts, which do nothing.
skip_seps-resolve : (s : Bytes) (names : List Bytes) → Skips s names
skip_seps-resolve [] names = unfold skip_seps in refl
skip_seps-resolve (x ∷ s) names = elim (Bool-cases (x == sep)) [
  | inl e ↦ skip_one x s names e (skip_seps-resolve s names)
  | inr e ↦ ap (λ t. resolve (cut sep t) names) (skip_none x s e)
]

-- What `skip_seps` leaves: nothing, or a text that begins with a name.
abbrev Left : Bytes → Bytes → Type 0
Left s [] = Unit {0}
Left s (x ∷ xs) = (x ≢ sep) × (length xs < length s) × Lacks 0 (x ∷ xs)

Left-more : (x : ℕ) (s rest : Bytes) → Left s rest → Left (x ∷ s) rest
Left-more x s [] h = tt
Left-more x s (y ∷ rest) h = (h.0, omega arith, h.2)

skip_seps-Left : (s : Bytes) → Lacks 0 s → Left s (skip_seps s)
unfolding skip_seps
skip_seps-Left [] h = tt
skip_seps-Left (x ∷ s) h = elim (Bool-cases (x == sep)) [
  | inl e ↦ rw e (Left-more x s (skip_seps s) (skip_seps-Left s h.1))
  | inr e ↦ rw e (ground arith, omega arith, h)
]

-- A round on a rest, and the rounds behind it.
abbrev next_part : ℕ → Bytes → Walk → Walk
next_part fuel rest w =
    let n = Option.get_or (strchr sep rest) (length rest) in
    walk fuel (drop (n + 1) rest) (walk_part rest n w)

-- What the walk does on a text is what its parts do to the stack of names.
abbrev pub Walks : ℕ → Type 0
Walks fuel =
    (s : Bytes) (names : List Bytes)
    → length s ≤ fuel
    → Lacks 0 s
    → walk fuel s (standing names) ≡ standing (resolve (cut sep s) names)

walk_nil : (fuel : ℕ) (w : Walk) → walk fuel [] w ≡ w
unfolding walk skip_seps
walk_nil zero w = refl
walk_nil (suc fuel) w = refl

next_part_last :
    (fuel : ℕ) (x : ℕ) (p : Bytes) (names : List Bytes)
    → Lacks 0 (x ∷ p)
    → Lacks sep (x ∷ p)
    → strchr sep (x ∷ p) ≡ none
    → next_part fuel (x ∷ p) (standing names) ≡ standing (resolve (cut sep (x ∷ p)) names)
next_part_last fuel x p names h k e =
    rw
      (
        e,
        drop_all (x ∷ p),
        walk_nil fuel (walk_part (x ∷ p) (length (x ∷ p)) (standing names)),
        cut-Lacks sep (x ∷ p) k,
      )
      (unfold resolve in whole)
  where
    whole : walk_part (x ∷ p) (length (x ∷ p)) (standing names) ≡ standing (enter (x ∷ p) names)
    whole =
        subst
          (λ t.
            walk_part (x ∷ t) (length (x ∷ p)) (standing names) ≡ standing (enter (x ∷ p) names))
          (append-nil p)
          (walk_part-standing x p [] names (subst (λ t. Lacks 0 (x ∷ t)) (sym (append-nil p)) h) k)

next_part_more :
    (fuel : ℕ) (x : ℕ) (p r : Bytes) (names : List Bytes)
    → Walks fuel
    → length r ≤ fuel
    → Lacks 0 (x ∷ p ++ sep ∷ r)
    → Lacks sep (x ∷ p)
    → strchr sep (x ∷ p ++ sep ∷ r) ≡ some (length (x ∷ p))
    → next_part fuel (x ∷ p ++ sep ∷ r) (standing names)
      ≡ standing (resolve (cut sep (x ∷ p ++ sep ∷ r)) names)
next_part_more fuel x p r names ih m h k e =
    rw
      (
        e,
        drop_past (x ∷ p) sep r,
        walk_part-standing x p (sep ∷ r) names h k,
        cut-append sep (x ∷ p) r k,
      )
      (unfold resolve in ih r (enter (x ∷ p) names) m (Lacks-right (x ∷ p) sep r h))

next_part-standing :
    (fuel : ℕ) (x : ℕ) (xs : Bytes) (names : List Bytes)
    → Walks fuel
    → length xs ≤ fuel
    → x ≢ sep
    → Lacks 0 (x ∷ xs)
    → next_part fuel (x ∷ xs) (standing names) ≡ standing (resolve (cut sep (x ∷ xs)) names)
next_part-standing fuel x xs names ih m nsep h = elim (strchr-Finds sep (omega arith) (x ∷ xs) h) [
  | inl (e, k) ↦ next_part_last fuel x xs names h k e
  | inr ([], r, e, f, k) ↦ ground arith
  | inr (y ∷ p, r, e, f, k) ↦
      subst (λ t. next_part fuel t (standing names) ≡ standing (resolve (cut sep t) names)) (sym e)
        (next_part_more fuel y p r names ih
          (omega
            (arith, ap length {x = x ∷ xs} {y = y ∷ p ++ sep ∷ r} e, length-append p (sep ∷ r)))
          (subst (Lacks 0) e h) k (subst (λ t. strchr sep t ≡ some (length (y ∷ p))) e f))
]

pub walk-standing : (fuel : ℕ) → Walks fuel
unfolding walk
walk-standing zero [] names m h = unfold cut resolve enter in refl
walk-standing zero (x ∷ s) names m h = absurd (omega arith)
walk-standing (suc fuel) s names m h =
    subst (λ t. walk (suc fuel) s (standing names) ≡ standing t) (skip_seps-resolve s names)
      (from (skip_seps s) (skip_seps-Left s h) (walk-standing fuel))
  where
    from :
        (rest : Bytes)
        → Left s rest
        → Walks fuel
        → (elim rest [ [] ↦ standing names | x ∷ xs ↦ next_part fuel (x ∷ xs) (standing names) ])
          ≡ standing (resolve (cut sep rest) names)
    from [] l ih = unfold cut resolve enter in refl
    from (x ∷ xs) l ih = next_part-standing fuel x xs names ih (omega arith) l.0 l.2
