-- ===== src/Tools/Paths.antt =====
-- tools.cc, `normalizePath`, with the part of zmm/base_stack.h that it uses.
pub mod Names
pub mod Walking
pub mod Normal
use mathlib.Core.Option
use gerber.Prelude.{
  ℕ, zero, suc, ◌+◌, Bool, true, false, ◌&&◌, List, [], ◌∷◌, ◌++◌, Option, none, some, ◌==◌, ltb,
  if◌then◌else◌, length, take, drop,
}
use gerber.Zmm.Strings.{char_at, Bytes, strchr, strncpy, c_str}

-- `DIR_SEPARATOR`.
abbrev pub sep : ℕ
sep = b'/'

-- `push` and `pop` of `BaseStack`, the top first; `none` is the empty type. Its array grows as needed.
unfoldable pub push {ℓ} : {A : Type ℓ} → A → List A → List A
push x stack = x ∷ stack

unfoldable pub pop {ℓ} : {A : Type ℓ} → List A → Option A × List A
pop [] = (none, [])
pop (x ∷ stack) = (some x, stack)

-- The bytes from `result->data` to `str`, and `separatorLocations`.
pub record Walk : Type 0 where
  pub out : Bytes
  pub seps : List ℕ

-- `while (next < length && path.charAt(next) == DIR_SEPARATOR)`, on the text from `next` on.
unfoldable pub skip_seps : Bytes → Bytes
skip_seps [] = []
skip_seps (x ∷ xs) = let rest = skip_seps xs in if x == sep then rest else x ∷ xs

-- ".." goes back one part; a location of -1 counts as 0.
unfoldable pub go_back : Walk → Walk
unfolding pop
go_back w =
    let (last, seps) = pop w.seps in record { out = take (Option.get_or last 0) w.out; seps = seps }

-- A normal part of `n` bytes.
unfoldable pub add_part : Bytes → ℕ → Walk → Walk
unfolding push strncpy
add_part rest n w = record {
  out = w.out ++ sep ∷ strncpy n rest;
  seps = push (length w.out) w.seps;
}

-- What a round does with the part of `n` bytes at the head of `rest`.
unfoldable pub walk_part : Bytes → ℕ → Walk → Walk
unfolding go_back add_part
walk_part rest n w =
    if n == 1 && char_at rest 0 == b'.'
    then w
    else if n == 2 && ltb 1 (length rest) && char_at rest 0 == b'.' && char_at rest 1 == b'.'
    then go_back w
    else add_part rest n w

-- The `do` loop; each round takes a byte at least, and a round on an empty rest changes nothing.
unfoldable pub walk : ℕ → Bytes → Walk → Walk
unfolding skip_seps walk_part
walk zero path w = w
walk (suc fuel) path w = elim (skip_seps path) [
  | [] ↦ w
  | x ∷ xs ↦
      let n = Option.get_or (strchr sep (x ∷ xs)) (length (x ∷ xs)) in
      walk fuel (drop (n + 1) (x ∷ xs)) (walk_part (x ∷ xs) n w)
]

-- The path "/" for an empty result, and the text up to its NUL.
unfoldable pub finish_path : Bytes → Bytes
unfolding c_str
finish_path [] = sep ∷ []
finish_path (x ∷ out) = c_str (x ∷ out)

-- `none` is the exception for a relative path.
unfoldable pub normalize_path : Bytes → Option Bytes
unfolding walk finish_path
normalize_path path =
    let w = walk (length path) (drop 1 path) record { out = []; seps = [] } in
    if char_at path 0 == sep then some (finish_path w.out) else none
