-- ===== src/Tools/Escape.antt =====
-- tools.cc, `escape` and `unescape`, which protect a character in the names of virtual containers.
pub mod Protecting
pub mod RoundTrip
use mathlib.Core.Option
use gerber.Prelude.{
  ℕ, zero, suc, ◌+◌, Bool, List, [], ◌∷◌, ◌++◌, Option, none, some, ltb, if◌then◌else◌, length,
  drop,
}
use gerber.Zmm.Strings.{Bytes, strchr, strncpy, c_str}
use gerber.Zmm.Strings.{char_at}

abbrev pub backslash : ℕ
backslash = b'\\'

-- The nearer one of `next_esc` and `next`.
unfoldable pub nearer : Option ℕ → Option ℕ → Option ℕ
nearer none next = next
nearer (some n) none = some n
nearer (some n) (some m) = if ltb n m then some n else some m

-- The part up to `n`, and the character there behind a backslash, whatever `escape_char` is.
unfoldable pub escaped : Bytes → ℕ → Bytes → Bytes
unfolding strncpy
escaped text n rest =
    strncpy n text ++ (if ltb n (length text) then backslash ∷ char_at text n ∷ rest else [])

-- The `do` loop, on the text from `last` on. The flags only remember that a character was not found.
unfoldable pub escape_loop : ℕ → ℕ → ℕ → Bytes → Bytes
escape_loop zero escape_char to_escape text = []
escape_loop (suc fuel) escape_char to_escape [] = []
escape_loop (suc fuel) escape_char to_escape (x ∷ xs) =
    let n =
      Option.get_or (nearer (strchr escape_char (x ∷ xs)) (strchr to_escape (x ∷ xs)))
        (length (x ∷ xs)) in
    escaped (x ∷ xs) n (escape_loop fuel escape_char to_escape (drop (n + 1) (x ∷ xs)))

unfoldable pub escape : Bytes → ℕ → ℕ → Bytes
escape text escape_char to_escape = c_str (escape_loop (length text) escape_char to_escape text)

-- The rounds from the second one on, on the text from `last` on, whose first character is kept.
unfoldable pub unescape_loop : ℕ → ℕ → Bytes → Bytes
unescape_loop zero escape text = []
unescape_loop (suc fuel) escape [] = []
unescape_loop (suc fuel) escape (x ∷ xs) =
    let n = suc (Option.get_or (strchr escape xs) (length xs)) in
    strncpy n (x ∷ xs) ++ unescape_loop fuel escape (drop (n + 1) (x ∷ xs))

unfoldable pub unescape : Bytes → ℕ → Bytes
unescape text escape =
    let n = Option.get_or (strchr escape text) (length text) in
    c_str (strncpy n text ++ unescape_loop (length text) escape (drop (n + 1) text))
