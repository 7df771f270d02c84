-- ===== src/Tools/Url.antt =====
-- tools.cc, `url_escape` and `url_unescape`.
pub mod RoundTrip
use Prim.Native.Nat.{bit_or}
use mathlib.Core.Option
use gerber.Prelude.{
  ℕ, ◌+◌, ◌-◌, ◌*◌, ◌/◌, ◌%◌, Bool, true, false, ◌&&◌, ◌||◌, [], ◌∷◌, ◌++◌, ltb, leb, ◌==◌,
  if◌then◌else◌,
}
use gerber.Zmm.Strings.{Bytes, strchr}

-- `hex`, the upper-case digits, as text.
abbrev pub hex : Bytes
hex =
    b'0' ∷ b'1' ∷ b'2' ∷ b'3' ∷ b'4' ∷ b'5' ∷ b'6' ∷ b'7' ∷ b'8' ∷ b'9' ∷ b'A' ∷ b'B' ∷ b'C' ∷ b'D'
    ∷ b'E' ∷ b'F' ∷ []

-- `hex[d]`, for a digit `d` below 16.
unfoldable pub hex_char : ℕ → ℕ
hex_char d = if ltb d 10 then b'0' + d else b'A' + (d - 10)

-- The bytes that stand for themselves.
unfoldable pub is_plain : ℕ → Bool
is_plain c =
    leb b'0' c && leb c b'9'
    || leb b'A' c && leb c b'Z'
    || leb b'a' c && leb c b'z'
    || c == b'_'
    || c == b'-'

-- What one round of `url_escape` writes.
unfoldable pub escape_byte : ℕ → Bytes
unfolding is_plain hex_char
escape_byte c = if is_plain c then c ∷ [] else b'%' ∷ hex_char (c / 16) ∷ hex_char (c % 16) ∷ []

unfoldable pub url_escape : Bytes → Bytes
url_escape [] = []
url_escape (c ∷ str) = escape_byte c ++ url_escape str

-- `pos - hex`, or 0; `strchr` also finds the terminator, at offset 16.
unfoldable pub hex_digit : ℕ → ℕ
unfolding strchr
hex_digit c = Option.get_or (strchr c hex) 0

-- `(char)((hi << 4) | lo)`.
unfoldable pub hex_byte : ℕ → ℕ → ℕ
hex_byte hi lo = bit_or (hi * 16) lo % 256

-- What a character other than '%' stands for.
unfoldable pub plain_byte : ℕ → ℕ
plain_byte c = if c == b'+' then b' ' else c

-- A '%' with fewer than two characters behind it ends the text.
unfoldable pub url_unescape : Bytes → Bytes
unfolding plain_byte
url_unescape [] = []
url_unescape (c ∷ []) = if c == b'%' then [] else plain_byte c ∷ []
url_unescape (c ∷ chi ∷ []) = if c == b'%' then [] else plain_byte c ∷ url_unescape (chi ∷ [])
url_unescape (c ∷ chi ∷ clo ∷ str) =
    let escaped = hex_byte (hex_digit chi) (hex_digit clo) ∷ url_unescape str in
    let copied = plain_byte c ∷ url_unescape (chi ∷ clo ∷ str) in
    if c == b'%' then escaped else copied
