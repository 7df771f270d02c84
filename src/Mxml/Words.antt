-- ===== src/Mxml/Words.antt =====
-- The entities that mxml/node.cc writes, and the marks of a comment.
use gerber.Prelude.{[], ◌∷◌}
use gerber.Zmm.Strings.{Bytes}

-- "&lt;".
abbrev pub lt_entity : Bytes
lt_entity = b'&' ∷ b'l' ∷ b't' ∷ b';' ∷ []

-- "&gt;".
abbrev pub gt_entity : Bytes
gt_entity = b'&' ∷ b'g' ∷ b't' ∷ b';' ∷ []

-- "&amp;".
abbrev pub amp_entity : Bytes
amp_entity = b'&' ∷ b'a' ∷ b'm' ∷ b'p' ∷ b';' ∷ []

-- "&quot;".
abbrev pub quot_entity : Bytes
quot_entity = b'&' ∷ b'q' ∷ b'u' ∷ b'o' ∷ b't' ∷ b';' ∷ []

-- "&apos;".
abbrev pub apos_entity : Bytes
apos_entity = b'&' ∷ b'a' ∷ b'p' ∷ b'o' ∷ b's' ∷ b';' ∷ []

-- "<!--".
abbrev pub comment_start : Bytes
comment_start = b'<' ∷ b'!' ∷ b'-' ∷ b'-' ∷ []

-- "-->".
abbrev pub comment_end : Bytes
comment_end = b'-' ∷ b'-' ∷ b'>' ∷ []
