-- ===== src/Tools/Hex/RoundTrip.antt =====
-- What hexadecimal text keeps.
use gerber.Prelude.{
  ℕ, ◌*◌, ◌/◌, ◌%◌, ◌<◌, ◌≡◌, refl, ap₂, true, [], ◌∷◌, arith, ◌==◌, ==_iff, length, All,
}
use gerber.Prelude.Table.{all_below, all_below_lem}
use gerber.Zmm.Strings.{Bytes}
use gerber.Tools.Hex.{hex_char, hex_digit, hex_byte, hex_encode, hex_decode_string}

byte_table :
    all_below 256
      (λ c. hex_byte (hex_digit (hex_char (c / 16))) (hex_digit (hex_char (c % 16))) == c)
    ≡ true
unfolding all_below hex_char hex_digit hex_byte
byte_table = refl

byte_back :
    (c : ℕ) → c < 256 → hex_byte (hex_digit (hex_char (c / 16))) (hex_digit (hex_char (c % 16))) ≡ c
byte_back c h = (==_iff _ c).0 (all_below_lem 256 _ c byte_table h)

-- Bytes are read back from their hexadecimal text.
pub hex_decode_string-hex_encode :
    (s : Bytes) → All (λ c. c < 256) s → hex_decode_string (hex_encode s) ≡ s
unfolding hex_encode hex_decode_string
hex_decode_string-hex_encode [] h = refl
hex_decode_string-hex_encode (c ∷ s) h =
    ap₂ ◌∷◌ (byte_back c h.0) (hex_decode_string-hex_encode s h.1)

-- Each character of the hexadecimal text is a digit or one of a to f, and there are two for a byte.
pub length-hex_encode : (s : Bytes) → length (hex_encode s) ≡ 2 * length s
unfolding hex_encode
length-hex_encode [] = refl
length-hex_encode (c ∷ s) = omega (arith, length-hex_encode s)
