-- ===== src/Tools/Split/Cut.antt =====
-- `split_string` against cutting a text at every separator.
use gerber.Prelude.{
  ℕ, zero, suc, ◌<◌, ◌≤◌, ◌≡◌, ◌≢◌, refl, sym, ap, ◌∙◌, true, false, Bool, inl, inr, List, [], ◌∷◌,
  ◌++◌, some, append_assoc, append-nil, arith, ◌==◌, if◌then◌else◌, length, length-append, drop,
  take-append, subst,
}
use gerber.Zmm.Strings.{Bytes, Lacks, strchr}
use gerber.Zmm.Strings.Search.{strchr-Finds, c_str-Lacks}
use gerber.Tools.Split.{gap, split_round, split_loop, split_string}

unfoldable pub prepend : ℕ → List Bytes → List Bytes
prepend x [] = (x ∷ []) ∷ []
prepend x (p ∷ ps) = (x ∷ p) ∷ ps

-- Every separator ends a part, so there is always one part more than there are separators.
unfoldable pub cut : ℕ → Bytes → List Bytes
unfolding prepend
cut sep [] = [] ∷ []
cut sep (x ∷ s) = let ps = cut sep s in if x == sep then [] ∷ ps else prepend x ps

last_part : Bytes → List Bytes
last_part [] = []
last_part (x ∷ p) = (x ∷ p) ∷ []

-- The parts without a last part that is empty.
unfoldable pub trim_last : List Bytes → List Bytes
unfolding last_part
trim_last [] = []
trim_last (p ∷ []) = last_part p
trim_last (p ∷ q ∷ ps) = p ∷ trim_last (q ∷ ps)

-- The parts that are not empty.
unfoldable pub nonempty : List Bytes → List Bytes
nonempty [] = []
nonempty ([] ∷ ps) = nonempty ps
nonempty ((x ∷ p) ∷ ps) = (x ∷ p) ∷ nonempty ps

-- What `split_string` gives: the flag keeps empty parts, but for up to two at the end.
unfoldable pub parts : ℕ → Bool → Bytes → List Bytes
unfolding cut trim_last nonempty
parts sep true s = trim_last (trim_last (cut sep s))
parts sep false s = nonempty (cut sep s)

pub cut-Lacks : (sep : ℕ) (p : Bytes) → Lacks sep p → cut sep p ≡ p ∷ []
unfolding cut
cut-Lacks sep [] h = refl
cut-Lacks sep (x ∷ p) h = ground (arith, cut-Lacks sep p h.1)

pub cut-append : (sep : ℕ) (p r : Bytes) → Lacks sep p → cut sep (p ++ sep ∷ r) ≡ p ∷ cut sep r
unfolding cut
cut-append sep [] r h = ground arith
cut-append sep (x ∷ p) r h = ground (arith, cut-append sep p r h.1)

prepend-ne-nil : (x : ℕ) (ps : List Bytes) → prepend x ps ≢ []
unfolding prepend
prepend-ne-nil x [] = λ e. cc
prepend-ne-nil x (p ∷ ps) = λ e. cc

pub cut-ne-nil : (sep : ℕ) (s : Bytes) → cut sep s ≢ []
unfolding cut
cut-ne-nil sep [] = λ e. cc
cut-ne-nil sep (x ∷ s) = ground (arith, prepend-ne-nil x (cut sep s))

trim_last_cons : (p : Bytes) (ps : List Bytes) → ps ≢ [] → trim_last (p ∷ ps) ≡ p ∷ trim_last ps
unfolding trim_last
trim_last_cons p [] h = absurd (h refl)
trim_last_cons [] (q ∷ ps) h = refl
trim_last_cons (x ∷ p) (q ∷ ps) h = refl

trim_last-prepend : (x : ℕ) (ps : List Bytes) → trim_last (prepend x ps) ≢ []
unfolding trim_last prepend
trim_last-prepend x [] = λ e. cc
trim_last-prepend x (p ∷ []) = λ e. cc
trim_last-prepend x (p ∷ q ∷ ps) = λ e. cc

-- Something is left of a text with a byte after one empty part at the end is dropped.
trim_last-ne-nil : (sep x : ℕ) (s : Bytes) → trim_last (cut sep (x ∷ s)) ≢ []
unfolding cut
trim_last-ne-nil sep x s =
    ground
      (arith, trim_last_cons [] (cut sep s) (cut-ne-nil sep s), trim_last-prepend x (cut sep s))

-- Both prunings pass a part that something follows.
trim_twice :
    (sep : ℕ) (p : Bytes) (x : ℕ) (s : Bytes)
    → trim_last (trim_last (p ∷ cut sep (x ∷ s))) ≡ p ∷ trim_last (trim_last (cut sep (x ∷ s)))
trim_twice sep p x s =
    rw (trim_last_cons p (cut sep (x ∷ s)) (cut-ne-nil sep (x ∷ s)))
      (trim_last_cons p _ (trim_last-ne-nil sep x s))

-- One round of the loop, on the specification.
parts_step :
    (sep : ℕ) (empty : Bool) (x : ℕ) (p r : Bytes)
    → Lacks sep (x ∷ p)
    → parts sep empty ((x ∷ p) ++ sep ∷ r) ≡ (x ∷ p) ∷ parts sep empty r
unfolding parts
parts_step sep true x p [] h = rw (cut-append sep (x ∷ p) [] h) (unfold cut trim_last in refl)
parts_step sep true x p (y ∷ r) h =
    rw (cut-append sep (x ∷ p) (y ∷ r) h) (trim_twice sep (x ∷ p) y r)
parts_step sep false x p r h = rw (cut-append sep (x ∷ p) r h) (unfold nonempty in refl)

parts-gap :
    (sep : ℕ) (empty : Bool) (r : Bytes)
    → parts sep empty (sep ∷ r) ≡ gap empty r ++ parts sep empty r
unfolding parts gap
parts-gap sep true [] = rw (cut-append sep [] [] tt) (unfold cut trim_last in refl)
parts-gap sep true (y ∷ r) = rw (cut-append sep [] (y ∷ r) tt) (trim_twice sep [] y r)
parts-gap sep false [] = rw (cut-append sep [] [] tt) (unfold cut nonempty in refl)
parts-gap sep false (y ∷ r) = rw (cut-append sep [] (y ∷ r) tt) (unfold nonempty in refl)

parts_whole :
    (sep : ℕ) (empty : Bool) (x : ℕ) (s : Bytes)
    → Lacks sep (x ∷ s)
    → parts sep empty (x ∷ s) ≡ (x ∷ s) ∷ []
unfolding parts trim_last nonempty
parts_whole sep true x s h = rw (cut-Lacks sep (x ∷ s) h)
parts_whole sep false x s h = rw (cut-Lacks sep (x ∷ s) h)

pub drop-suc-append : (p : Bytes) (x : ℕ) (r : Bytes) → drop (suc (length p)) (p ++ x ∷ r) ≡ r
drop-suc-append [] x r = refl
drop-suc-append (y ∷ p) x r = drop-suc-append p x r

pub Lacks-right : (p : Bytes) (x : ℕ) (r : Bytes) → Lacks 0 (p ++ x ∷ r) → Lacks 0 r
Lacks-right [] x r h = h.1
Lacks-right (y ∷ p) x r h = Lacks-right p x r h.1

-- What a round leaves is shorter, and together with the parts it added spells the same parts.
abbrev Splits : ℕ → Bool → Bytes → Bytes × List Bytes → Type 0
Splits sep empty s (rest, new) =
    (parts sep empty s ≡ new ++ parts sep empty rest) × (length rest < length s) × Lacks 0 rest

parts_nil : (sep : ℕ) (empty : Bool) → parts sep empty [] ≡ []
unfolding parts cut trim_last nonempty
parts_nil sep true = refl
parts_nil sep false = refl

round_found :
    (sep : ℕ) (empty : Bool) (p r : Bytes)
    → Lacks sep p
    → Lacks 0 r
    → Splits sep empty (p ++ sep ∷ r) (split_round empty (p ++ sep ∷ r) (some (length p)))
unfolding split_round
round_found sep empty [] r h k = (parts-gap sep empty r, omega arith, k)
round_found sep empty (x ∷ p) r h k =
    rw (drop-suc-append p sep r, take-append p (sep ∷ r))
      (parts_step sep empty x p r h, omega (arith, length-append p (sep ∷ r)), k)

round-Splits :
    (sep : ℕ) (empty : Bool) (x : ℕ) (s : Bytes)
    → sep ≢ 0
    → Lacks 0 (x ∷ s)
    → Splits sep empty (x ∷ s) (split_round empty (x ∷ s) (strchr sep (x ∷ s)))
round-Splits sep empty x s nz h = elim (strchr-Finds sep nz (x ∷ s) h) [
  | inl (e, lacks) ↦ rw e (
      unfold split_round in
      rw (c_str-Lacks (x ∷ s) h, parts_nil sep empty)
        (parts_whole sep empty x s lacks, omega arith, tt))
  | inr (p, r, e, f, lacks) ↦ rw f (
      subst (λ t. Splits sep empty t (split_round empty t (some (length p)))) (sym e)
        (round_found sep empty p r lacks (Lacks-right p sep r (subst (Lacks 0) e h))))
]

loop-parts :
    (fuel sep : ℕ) (empty : Bool) (s : Bytes) (ret : List Bytes)
    → length s ≤ fuel
    → sep ≢ 0
    → Lacks 0 s
    → split_loop fuel sep empty s ret ≡ ret ++ parts sep empty s
unfolding split_loop
loop-parts fuel sep empty [] ret m nz h = rw (parts_nil sep empty) (sym (append-nil ret))
loop-parts zero sep empty (x ∷ s) ret m nz h = absurd (omega arith)
loop-parts (suc fuel) sep empty (x ∷ s) ret m nz h =
    let (e, shorter, lacks) = round-Splits sep empty x s nz h in
    loop-parts fuel sep empty _ _ (omega arith) nz lacks
    ∙ append_assoc ret _ _
    ∙ ap (◌++◌ ret) (sym e)

-- Without NULs `split_string` gives the parts of the text cut at every separator: those that are
-- not empty, or with the flag all but an empty one at the end, and again an empty one before it.
pub split_string-parts :
    (s : Bytes) (sep : ℕ) (empty : Bool)
    → sep ≢ 0
    → Lacks 0 s
    → split_string s sep empty ≡ parts sep empty s
unfolding split_string
split_string-parts s sep empty nz h = loop-parts (length s) sep empty s [] (omega arith) nz h
