-- ===== src/Tools/Paths/Normal.antt =====
-- What `normalizePath` gives.
use mathlib.Core.Option
use gerber.Prelude.{
  ap, ◌++◌, Bool, true, false, sym, subst, List, ◌∙◌, All, ◌≡◌, refl, List, [], ◌∷◌, none, some,
  ◌==◌, if◌then◌else◌, length, drop, arith,
}
use gerber.Zmm.Strings.{Bytes, Lacks}
use gerber.Zmm.Strings.Search.{c_str-Lacks}
use gerber.Zmm.Strings.{char_at}
use gerber.Tools.Paths.{sep, finish_path, normalize_path}
use gerber.Tools.Split.Cut.{cut}
use gerber.Tools.Paths.Names.{
  resolve, enter, IsName, names_of-render, names_of-sep, render, render-Lacks, names_of,
  names_of-IsName,
}
use gerber.Tools.Paths.Walking.{walk-standing}

abbrev root_or : Bytes → Bytes
root_or [] = sep ∷ []
root_or (x ∷ out) = x ∷ out

finish_path_lem : (out : Bytes) → Lacks 0 out → finish_path out ≡ root_or out
unfolding finish_path
finish_path_lem [] h = refl
finish_path_lem (x ∷ out) h = c_str-Lacks (x ∷ out) h

-- The text of an absolute path.
abbrev pub absolute : List Bytes → Bytes
absolute names = root_or (render names)

-- A path that begins with "/" and has no NUL is normalized to the text of the names that its parts
-- lead to: an empty part and "." are ignored, ".." drops the last name, the root's name list is
-- empty, and every other part is a name. Any other path is refused.
pub normalize_path-absolute :
    (path : Bytes)
    → Lacks 0 path
    → normalize_path path
      ≡ (if char_at path 0 == sep then some (absolute (names_of (drop 1 path))) else none)
unfolding normalize_path
normalize_path-absolute [] h = ground arith
normalize_path-absolute (x ∷ s) h =
    rw
      (
        walk-standing (length (x ∷ s)) s [] (omega arith) h.1,
        finish_path_lem (render (names_of s)) (render-Lacks (names_of s) (names_of-IsName s h.1)),
      )
      refl

render-headed : (n : Bytes) (names : List Bytes) → (t : Bytes) × (render (n ∷ names) ≡ sep ∷ t)
render-headed n [] = (n, refl)
render-headed n (m ∷ names) =
    let (t, e) = render-headed m names in (t ++ sep ∷ n, ap (λ r. r ++ sep ∷ n) e)

normal_text :
    (s t : Bytes) → Lacks 0 s → s ≡ sep ∷ t → normalize_path s ≡ some (absolute (names_of s))
normal_text s t h e = rw (normalize_path-absolute s h, e, names_of-sep t) refl

-- The text of any stack of names is in normal form already.
normalize_path-render :
    (names : List Bytes)
    → All IsName names
    → normalize_path (absolute names) ≡ some (absolute names)
unfolding resolve cut enter
normalize_path-render [] a = normal_text (sep ∷ []) [] (omega arith, tt) refl
normalize_path-render (n ∷ names) a =
    let (t, e) = render-headed n names in
    let same = ap root_or e ∙ sym e in
    subst (λ s. normalize_path s ≡ some (absolute (n ∷ names))) (sym same)
      (normal_text (render (n ∷ names)) t (render-Lacks (n ∷ names) a) e
        ∙ ap (λ ns. some (absolute ns)) (names_of-render (n ∷ names) a))

Lacks-drop : (s : Bytes) → Lacks 0 s → Lacks 0 (drop 1 s)
Lacks-drop [] h = tt
Lacks-drop (x ∷ s) h = h.1

accepted :
    (head : Bool) (path out : Bytes)
    → Lacks 0 path
    → (if head then some (absolute (names_of path)) else none) ≡ some out
    → normalize_path out ≡ some out
accepted true path out h e =
    subst (λ s. normalize_path s ≡ some s) (ap (λ o. Option.get_or o []) e)
      (normalize_path-render (names_of path) (names_of-IsName path h))
accepted false path out h e = cc

-- What `normalizePath` returns is in normal form: another call returns it as it is.
pub normalize_path_idempotent :
    (path out : Bytes)
    → Lacks 0 path
    → normalize_path path ≡ some out
    → normalize_path out ≡ some out
normalize_path_idempotent path out h e =
    accepted (char_at path 0 == sep) (drop 1 path) out (Lacks-drop path h)
      (sym (normalize_path-absolute path h) ∙ e)
