-- ===== src/Tools/Paths/Names.antt =====
-- A path as a stack of names, what its parts do to the stack, and the names that may stand there.
use gerber.Prelude.{
  refl, ℕ, ◌≡◌, ◌≢◌, inl, inr, false, Bool-cases, List, [], ◌∷◌, ◌++◌, if◌then◌else◌, arith, All,
  All-append,
}
use gerber.Zmm.Strings.{Bytes, Lacks, bytes_eq}
use gerber.Zmm.Strings.Search.{bytes_eq_iff}
use gerber.Tools.Split.Cut.{cut, prepend, cut-ne-nil, cut-append, cut-Lacks}
use gerber.Tools.Paths.{sep}

abbrev pub dot : Bytes
dot = b'.' ∷ []

abbrev pub dot_dot : Bytes
dot_dot = b'.' ∷ b'.' ∷ []

abbrev pub tail : List Bytes → List Bytes
tail [] = []
tail (n ∷ names) = names

-- What a part of a path does to the names so far, the last one first.
unfoldable pub enter : Bytes → List Bytes → List Bytes
enter [] names = names
enter (x ∷ p) names =
    if bytes_eq (x ∷ p) dot
    then names
    else if bytes_eq (x ∷ p) dot_dot
    then tail names
    else (x ∷ p) ∷ names

unfoldable pub resolve : List Bytes → List Bytes → List Bytes
unfolding enter
resolve [] names = names
resolve (p ∷ parts) names = resolve parts (enter p names)

-- The path of a stack of names, without the root's "/".
abbrev pub render : List Bytes → Bytes
render [] = []
render (n ∷ names) = render names ++ sep ∷ n

-- A name as it may stand in a normalized path.
abbrev pub IsName : Bytes → Type 0
IsName n = Lacks 0 n × Lacks sep n × (n ≢ []) × (n ≢ dot) × (n ≢ dot_dot)

tail-IsName : (names : List Bytes) → All IsName names → All IsName (tail names)
tail-IsName [] a = tt
tail-IsName (n ∷ names) a = a.1

differs : (a b : Bytes) → bytes_eq a b ≡ false → a ≢ b
differs a b h e = ground (arith, (bytes_eq_iff a b).1 e)

enter-IsName :
    (p : Bytes) (names : List Bytes)
    → Lacks 0 p
    → Lacks sep p
    → All IsName names
    → All IsName (enter p names)
unfolding enter
enter-IsName [] names h k a = a
enter-IsName (x ∷ p) names h k a = elim (Bool-cases (bytes_eq (x ∷ p) dot)) [
  | inl e ↦ rw e a
  | inr e ↦ elim (Bool-cases (bytes_eq (x ∷ p) dot_dot)) [
    | inl f ↦ rw (e, f) (tail-IsName names a)
    | inr f ↦
        rw (e, f) ((h, k, λ q. ground arith, differs (x ∷ p) dot e, differs (x ∷ p) dot_dot f), a)
  ]
]

abbrev IsPart : Bytes → Type 0
IsPart p = Lacks 0 p × Lacks sep p

prepend-parts :
    (x : ℕ) (ps : List Bytes) → x ≢ 0 → x ≢ sep → All IsPart ps → All IsPart (prepend x ps)
unfolding prepend
prepend-parts x [] h k a = (((h, tt), (k, tt)), tt)
prepend-parts x (p ∷ ps) h k a = (((h, a.0.0), (k, a.0.1)), a.1)

cut-parts : (s : Bytes) → Lacks 0 s → All IsPart (cut sep s)
unfolding cut
cut-parts [] h = ((tt, tt), tt)
cut-parts (x ∷ s) h = ground (arith, prepend-parts x (cut sep s) h.0, cut-parts s h.1)

resolve-IsName :
    (ps names : List Bytes) → All IsPart ps → All IsName names → All IsName (resolve ps names)
unfolding resolve
resolve-IsName [] names h a = a
resolve-IsName (p ∷ ps) names h a =
    resolve-IsName ps (enter p names) h.1 (enter-IsName p names h.0.0 h.0.1 a)

pub render-Lacks : (names : List Bytes) → All IsName names → Lacks 0 (render names)
render-Lacks [] a = tt
render-Lacks (n ∷ names) a =
    All-append _ (render names) (sep ∷ n) (render-Lacks names a.1) (omega arith, a.0.0)

-- The names that a path leads to, the last one first.
abbrev pub names_of : Bytes → List Bytes
names_of s = resolve (cut sep s) []

pub names_of-IsName : (s : Bytes) → Lacks 0 s → All IsName (names_of s)
names_of-IsName s h = resolve-IsName (cut sep s) [] (cut-parts s h) tt

prepend-append : (x : ℕ) (ps qs : List Bytes) → ps ≢ [] → prepend x (ps ++ qs) ≡ prepend x ps ++ qs
unfolding prepend
prepend-append x [] qs h = absurd (h refl)
prepend-append x (p ∷ ps) qs h = refl

cut-join : (a b : Bytes) → cut sep (a ++ sep ∷ b) ≡ cut sep a ++ cut sep b
unfolding cut
cut-join [] b = refl
cut-join (x ∷ a) b =
    ground (arith, cut-join a b, prepend-append x (cut sep a) (cut sep b) (cut-ne-nil sep a))

resolve-append :
    (ps qs names : List Bytes) → resolve (ps ++ qs) names ≡ resolve qs (resolve ps names)
unfolding resolve
resolve-append [] qs names = refl
resolve-append (p ∷ ps) qs names = resolve-append ps qs (enter p names)

enter_name : (n : Bytes) (names : List Bytes) → IsName n → enter n names ≡ n ∷ names
unfolding enter
enter_name [] names h = absurd (h.2 refl)
enter_name (x ∷ p) names h = ground (arith, bytes_eq_iff (x ∷ p) dot, bytes_eq_iff (x ∷ p) dot_dot)

resolve_name : (n : Bytes) (names : List Bytes) → IsName n → resolve (cut sep n) names ≡ n ∷ names
unfolding resolve
resolve_name n names h = rw (cut-Lacks sep n h.1) (enter_name n names h)

-- The path of a stack of names leads to these names.
pub names_of-render : (names : List Bytes) → All IsName names → names_of (render names) ≡ names
names_of-render [] a = unfold resolve cut enter in refl
names_of-render (n ∷ names) a =
    rw
      (
        cut-join (render names) n,
        resolve-append (cut sep (render names)) (cut sep n) [],
        names_of-render names a.1,
      )
      (resolve_name n names a.0)

-- A separator at the head adds no name.
pub names_of-sep : (s : Bytes) → names_of (sep ∷ s) ≡ names_of s
unfolding resolve enter
names_of-sep s = rw (cut-append sep [] s tt) refl
