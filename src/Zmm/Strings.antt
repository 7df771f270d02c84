-- ===== src/Zmm/Strings.antt =====
-- zmm/strings.h and zmm/strings.cc: `zmm::String`, a nullable counted string over NUL-terminated
-- data, and the functions of <cstring> that it calls. A byte is a number below 256.
pub mod Search
pub mod Pieces
pub mod Reducing
use mathlib.Core.Option
use gerber.Prelude.{
  ℕ, suc, ◌+◌, ◌-◌, ◌≢◌, Bool, true, false, ◌&&◌, List, [], ◌∷◌, ◌++◌, Option, none, some, ltb,
  ◌==◌, if◌then◌else◌, length, take, drop, All,
}

abbrev pub Bytes : Type 0
Bytes = List ℕ

-- `String`: a null `base`, or a `StringBase` with `len` bytes.
abbrev pub ZString : Type 0
ZString = Option Bytes

abbrev pub Lacks : ℕ → Bytes → Type 0
Lacks c = All (λ x. x ≢ c)

-- `charAt`; behind the text stands its terminator.
abbrev pub char_at : Bytes → ℕ → ℕ
char_at [] i = 0
char_at (x ∷ xs) ℕ.zero = x
char_at (x ∷ xs) (suc i) = char_at xs i

-- What a reader of `char *` sees: the bytes before the first NUL.
unfoldable pub c_str : Bytes → Bytes
c_str [] = []
c_str (x ∷ xs) = if x == 0 then [] else x ∷ c_str xs

-- `strchr`, as an offset. The terminator is part of the searched text.
unfoldable pub strchr : ℕ → Bytes → Option ℕ
strchr c [] = if c == 0 then some 0 else none
strchr c (x ∷ xs) = if x == c then some 0 else if x == 0 then none else Option.map suc (strchr c xs)

-- `strrchr`, as an offset, for a character that is not NUL.
unfoldable pub strrchr : ℕ → Bytes → Option ℕ
strrchr c [] = none
strrchr c (x ∷ xs) =
    let later = strrchr c xs in
    if x == 0
    then none
    else elim later [ some n ↦ some (suc n) | none ↦ if x == c then some 0 else none ]

unfoldable pub bytes_eq : Bytes → Bytes → Bool
bytes_eq [] [] = true
bytes_eq [] (y ∷ ys) = false
bytes_eq (x ∷ xs) [] = false
bytes_eq (x ∷ xs) (y ∷ ys) = x == y && bytes_eq xs ys

-- `! strcmp(a, b)`.
unfoldable pub strcmp_eq : Bytes → Bytes → Bool
unfolding c_str bytes_eq
strcmp_eq a b = bytes_eq (c_str a) (c_str b)

-- `String::operator==(String)`.
unfoldable pub equals : ZString → ZString → Bool
unfolding strcmp_eq
equals none none = true
equals none (some b) = false
equals (some a) none = false
equals (some a) (some b) = strcmp_eq a b

-- `String::length()`; a null string has length 0.
abbrev pub len : ZString → ℕ
len none = 0
len (some s) = length s

-- `string_ok`: neither null nor "".
unfoldable pub string_ok : ZString → Bool
unfolding c_str
string_ok none = false
string_ok (some s) = elim (c_str s) [ [] ↦ false | _ ∷ _ ↦ true ]

abbrev pub pad : ℕ → Bytes
pad ℕ.zero = []
pad (suc n) = 0 ∷ pad n

-- `strncpy(dest, s, n)`: at most `n` bytes up to the NUL, and zeros behind them.
unfoldable pub strncpy : ℕ → Bytes → Bytes
unfolding c_str
strncpy n s = let t = take n (c_str s) in t ++ pad (n - length t)

-- `String::substring(int from, int count)`; no caller passes a negative count.
unfoldable pub substring : ZString → ℕ → ℕ → ZString
unfolding strncpy
substring none start count = none
substring (some s) start count =
    if count == 0
    then some []
    else if ltb (length s) (start + count)
    then some (strncpy (length s - start) (drop start s))
    else some (strncpy count (drop start s))

-- `String::index(int start, char ch)`; `none` is -1.
unfoldable pub index : ZString → ℕ → ℕ → Option ℕ
unfolding strchr
index none start c = none
index (some s) start c =
    if ltb (length s) (start + 1)
    then none
    else Option.map (λ n. start + n) (strchr c (drop start s))

-- `StringBase::startsWith`: `strncmp` over the length of the prefix, up to a common NUL.
unfoldable pub starts_with : Bytes → Bytes → Bool
starts_with s [] = true
starts_with [] (y ∷ ys) = y == 0
starts_with (x ∷ xs) (y ∷ ys) =
    let rest = starts_with xs ys in if x == y then if x == 0 then true else rest else false

-- `while (*pos == ch) pos++;`.
unfoldable pub skip_run : ℕ → Bytes → Bytes
skip_run c [] = []
skip_run c (x ∷ xs) = let rest = skip_run c xs in if x == c then rest else x ∷ xs

abbrev pub heads : ℕ → Bytes → Bool
heads c [] = false
heads c (x ∷ xs) = x == c

-- A round of `reduce` up to `strchr`: what is written, and the text from `pos3` to `pos` and behind
-- it. At `pos` stands the character.
unfoldable pub reduce_round : ℕ → Bytes → Bytes → Bytes → Bytes × Bytes × Bytes
unfolding skip_run
reduce_round c out kept text =
    if heads c (drop 1 text)
    then (out ++ (kept ++ c ∷ []), [], skip_run c text)
    else (out, kept ++ c ∷ [], drop 1 text)

-- The end of a round: the loop goes on, or what is left is written.
unfoldable pub reduce_next : (Bytes → Bytes → Bytes → Bytes) → ℕ → Bytes → Bytes → Bytes → Bytes
unfolding strchr
reduce_next loop c out kept rest = elim (strchr c rest) [
  | none ↦ out ++ (kept ++ rest)
  | some n ↦ loop out (kept ++ take n rest) (drop n rest)
]

-- The `do` loop. Each round takes a byte at least.
unfoldable pub reduce_loop : ℕ → ℕ → Bytes → Bytes → Bytes → Bytes
unfolding reduce_round reduce_next
reduce_loop ℕ.zero c out kept text = out
reduce_loop (suc fuel) c out kept text =
    let r = reduce_round c out kept text in reduce_next (reduce_loop fuel c) c r.0 r.1 r.2

-- `String::reduce(char ch)`.
unfoldable pub reduce : ℕ → ZString → ZString
unfolding reduce_loop strchr c_str
reduce c none = none
reduce c (some s) = elim (strchr c s) [
  | none ↦ some s
  | some n ↦ some (c_str (reduce_loop (length s) c [] (take n s) (drop n s)))
]

-- `String::rindex(int end, char ch)`, for an `end` within the text.
unfoldable pub rindex_upto : Bytes → ℕ → ℕ → Option ℕ
rindex_upto s ℕ.zero c = if char_at s 0 == c then some 0 else none
rindex_upto s (suc end) c =
    let before = rindex_upto s end c in if char_at s (suc end) == c then some (suc end) else before
