-- ===== src/Tools/Url/RoundTrip.antt =====
-- What escaped text keeps, and what it holds.
use gerber.Prelude.{
  ℕ, ◌/◌, ◌%◌, ◌<◌, ◌≡◌, refl, ap, ◌∙◌, true, false, [], ◌∷◌, ◌++◌, arith, ◌==◌, ==_iff, ◌&&◌, ◌||◌,
  Bool-cases, inl, inr, All, All-append,
}
use gerber.Prelude.Table.{all_below, all_below_lem}
use gerber.Zmm.Strings.{Bytes}
use gerber.Tools.Url.{
  hex_char, hex_digit, hex_byte, is_plain, escape_byte, url_escape, url_unescape,
}

byte_table :
    all_below 256
      (λ c. hex_byte (hex_digit (hex_char (c / 16))) (hex_digit (hex_char (c % 16))) == c)
    ≡ true
unfolding all_below hex_char hex_digit hex_byte
byte_table = refl

byte_back :
    (c : ℕ) → c < 256 → hex_byte (hex_digit (hex_char (c / 16))) (hex_digit (hex_char (c % 16))) ≡ c
byte_back c h = (==_iff _ c).0 (all_below_lem 256 _ c byte_table h)

unescape_plain :
    (c : ℕ) (rest : Bytes) → is_plain c ≡ true → url_unescape (c ∷ rest) ≡ c ∷ url_unescape rest
unfolding url_unescape is_plain
unescape_plain c [] h = ground arith
unescape_plain c (x ∷ []) h = ground arith
unescape_plain c (x ∷ y ∷ rest) h = ground arith

escape_byte_plain : (c : ℕ) → is_plain c ≡ true → escape_byte c ≡ c ∷ []
unfolding escape_byte
escape_byte_plain c e = rw e

escape_byte_hex :
    (c : ℕ) → is_plain c ≡ false → escape_byte c ≡ b'%' ∷ hex_char (c / 16) ∷ hex_char (c % 16) ∷ []
unfolding escape_byte
escape_byte_hex c e = rw e

unescape_hex :
    (x y : ℕ) (rest : Bytes)
    → url_unescape (b'%' ∷ x ∷ y ∷ rest) ≡ hex_byte (hex_digit x) (hex_digit y) ∷ url_unescape rest
unfolding url_unescape
unescape_hex x y rest = refl

unescape-escape_byte :
    (c : ℕ) (rest : Bytes) → c < 256 → url_unescape (escape_byte c ++ rest) ≡ c ∷ url_unescape rest
unescape-escape_byte c rest h = elim (Bool-cases (is_plain c)) [
  | inl e ↦ rw (escape_byte_plain c e) (unescape_plain c rest e)
  | inr e ↦ rw (escape_byte_hex c e, unescape_hex, byte_back c h)
]

-- Bytes are read back from their escaped text.
pub url_unescape-url_escape : (s : Bytes) → All (λ c. c < 256) s → url_unescape (url_escape s) ≡ s
unfolding url_escape
url_unescape-url_escape [] h = unfold url_unescape in refl
url_unescape-url_escape (c ∷ s) h =
    unescape-escape_byte c (url_escape s) h.0 ∙ ap (◌∷◌ c) (url_unescape-url_escape s h.1)

-- Escaped text consists of digits, letters and the characters '_', '-' and '%'.
abbrev pub IsSafe : ℕ → Type 0
IsSafe c = (is_plain c || c == b'%') ≡ true

safe_table :
    all_below 256 (λ c.
      (is_plain (hex_char (c / 16)) || hex_char (c / 16) == b'%')
      && (is_plain (hex_char (c % 16)) || hex_char (c % 16) == b'%'))
    ≡ true
unfolding all_below hex_char is_plain
safe_table = refl

escape_byte-IsSafe : (c : ℕ) → c < 256 → All IsSafe (escape_byte c)
escape_byte-IsSafe c h = elim (Bool-cases (is_plain c)) [
  | inl e ↦ rw (escape_byte_plain c e) (ground arith, tt)
  | inr e ↦
      let t = all_below_lem 256 _ c safe_table h in
      rw (escape_byte_hex c e)
        (unfold is_plain in refl, (ground (arith, t), (ground (arith, t), tt)))
]

pub url_escape-IsSafe : (s : Bytes) → All (λ c. c < 256) s → All IsSafe (url_escape s)
unfolding url_escape
url_escape-IsSafe [] h = tt
url_escape-IsSafe (c ∷ s) h =
    All-append IsSafe (escape_byte c) (url_escape s) (escape_byte-IsSafe c h.0)
      (url_escape-IsSafe s h.1)
