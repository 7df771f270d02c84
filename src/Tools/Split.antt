-- ===== src/Tools/Split.antt =====
-- tools.cc, `split_string`, `split_path` and `trim_string`.
pub mod Cut
use mathlib.Core.Option
use gerber.Prelude.{
  ℕ, zero, suc, ◌-◌, Bool, true, false, ◌&&◌, List, [], ◌∷◌, ◌++◌, Option, none, some, ◌==◌,
  if◌then◌else◌, length, take, drop,
}
use gerber.Zmm.Strings.{Bytes, ZString, c_str, strchr, strrchr, string_ok}

-- `(data < end) && empty` after a separator that stands first: an empty part is added.
unfoldable pub gap : Bool → Bytes → List Bytes
gap empty [] = []
gap empty (x ∷ xs) = if empty then [] ∷ [] else []

-- A round of the loop over `data`, by what `strchr` found: the text left, and the parts added.
unfoldable pub split_round : Bool → Bytes → Option ℕ → Bytes × List Bytes
unfolding c_str gap
split_round empty text none = ([], c_str text ∷ [])
split_round empty text (some zero) = (drop 1 text, gap empty (drop 1 text))
split_round empty text (some (suc n)) = (drop (suc (suc n)) text, take (suc n) text ∷ [])

-- `while (data < end)`; each round takes a byte at least, so as many rounds as there are bytes
-- are enough fuel.
unfoldable pub split_loop : ℕ → ℕ → Bool → Bytes → List Bytes → List Bytes
split_loop fuel sep empty [] ret = ret
split_loop zero sep empty (x ∷ xs) ret = ret
split_loop (suc fuel) sep empty (x ∷ xs) ret =
    let next = split_round empty (x ∷ xs) (strchr sep (x ∷ xs)) in
    split_loop fuel sep empty next.0 (ret ++ next.1)

unfoldable pub split_string : Bytes → ℕ → Bool → List Bytes
unfolding split_loop split_round strchr
split_string str sep empty = split_loop (length str) sep empty str []

-- `none` is the exception, for a null or empty path and for one without a separator.
unfoldable pub split_path : ZString → Option (Bytes × Bytes)
unfolding string_ok strrchr c_str
split_path none = none
split_path (some str) =
    if string_ok (some str)
    then elim (strrchr b'/' str) [
      | none ↦ none
      | some zero ↦ some (b'/' ∷ [], c_str (drop 1 str))
      | some (suc n) ↦ some (take (suc n) str, c_str (drop (suc (suc n)) str))
    ]
    else none

-- `strchr(WHITE_SPACE, c)`, which holds of the NUL too.
unfoldable pub is_space : ℕ → Bool
unfolding strchr
is_space c = elim (strchr c (b' ' ∷ b'\t' ∷ b'\r' ∷ b'\n' ∷ [])) [ none ↦ false | some _ ↦ true ]

-- The first loop of `trim_string`: `start`.
unfoldable pub skip_space : Bytes → Bytes
unfolding is_space
skip_space [] = []
skip_space (c ∷ str) = if is_space c then skip_space str else c ∷ str

-- The second loop: everything up to the last character that is no space.
unfoldable pub drop_space : Bytes → Bytes
unfolding is_space
drop_space [] = []
drop_space (c ∷ str) = elim (drop_space str) [
  | [] ↦ if is_space c then [] else c ∷ []
  | x ∷ xs ↦ c ∷ x ∷ xs
]

unfoldable pub trim_string : ZString → ZString
unfolding skip_space drop_space
trim_string none = none
trim_string (some str) = some (drop_space (skip_space str))
