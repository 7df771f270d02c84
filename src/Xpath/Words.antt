-- ===== src/Xpath/Words.antt =====
-- The words of xpath.cc.
use gerber.Prelude.{[], ◌∷◌}
use gerber.Zmm.Strings.{Bytes}

-- "attribute".
abbrev pub attribute_word : Bytes
attribute_word = b'a' ∷ b't' ∷ b't' ∷ b'r' ∷ b'i' ∷ b'b' ∷ b'u' ∷ b't' ∷ b'e' ∷ []

-- "::".
abbrev pub axis_mark : Bytes
axis_mark = b':' ∷ b':' ∷ []
