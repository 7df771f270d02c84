-- ===== src/Tools/Hex.antt =====
-- tools.cc, `hex_encode` and `hex_decode_string`.
pub mod RoundTrip
use Prim.Native.Nat.{bit_or}
use mathlib.Core.Option
use gerber.Prelude.{ℕ, ◌+◌, ◌-◌, ◌*◌, ◌/◌, ◌%◌, [], ◌∷◌, ltb, if◌then◌else◌}
use gerber.Zmm.Strings.{Bytes, strchr}

-- `HEX_CHARS` as text.
abbrev pub hex_chars : Bytes
hex_chars =
    b'0' ∷ b'1' ∷ b'2' ∷ b'3' ∷ b'4' ∷ b'5' ∷ b'6' ∷ b'7' ∷ b'8' ∷ b'9' ∷ b'a' ∷ b'b' ∷ b'c' ∷ b'd'
    ∷ b'e' ∷ b'f' ∷ []

-- `HEX_CHARS[d]`, for a digit `d` below 16.
unfoldable pub hex_char : ℕ → ℕ
hex_char d = if ltb d 10 then b'0' + d else b'a' + (d - 10)

-- Each byte gives its high and then its low digit.
unfoldable pub hex_encode : Bytes → Bytes
unfolding hex_char
hex_encode [] = []
hex_encode (c ∷ chars) = hex_char (c / 16) ∷ hex_char (c % 16) ∷ hex_encode chars

-- `chi ? chi - HEX_CHARS : 0`. `strchr` also finds the terminator, at offset 16.
unfoldable pub hex_digit : ℕ → ℕ
unfolding strchr
hex_digit c = Option.get_or (strchr c hex_chars) 0

-- `(char)(hi << 4 | lo)`.
unfoldable pub hex_byte : ℕ → ℕ → ℕ
hex_byte hi lo = bit_or (hi * 16) lo % 256

-- Two characters give a byte; the partner of a last odd character is the terminator.
unfoldable pub hex_decode_string : Bytes → Bytes
unfolding hex_digit hex_byte
hex_decode_string [] = []
hex_decode_string (x ∷ []) = hex_byte (hex_digit x) (hex_digit 0) ∷ []
hex_decode_string (x ∷ y ∷ ptr) = hex_byte (hex_digit x) (hex_digit y) ∷ hex_decode_string ptr
