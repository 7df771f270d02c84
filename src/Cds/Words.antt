-- ===== src/Cds/Words.antt =====
-- The words of cds_objects.h, common.h and cds_objects.cc.
use gerber.Prelude.{[], ◌∷◌}
use gerber.Zmm.Strings.{Bytes}

-- "application/octet-stream".
abbrev pub octet_stream : Bytes
octet_stream =
    b'a' ∷ b'p' ∷ b'p' ∷ b'l' ∷ b'i' ∷ b'c' ∷ b'a' ∷ b't' ∷ b'i' ∷ b'o' ∷ b'n' ∷ b'/' ∷ b'o' ∷ b'c'
    ∷ b't' ∷ b'e' ∷ b't' ∷ b'-' ∷ b's' ∷ b't' ∷ b'r' ∷ b'e' ∷ b'a' ∷ b'm' ∷ []

-- "object.item".
abbrev pub object_item : Bytes
object_item = b'o' ∷ b'b' ∷ b'j' ∷ b'e' ∷ b'c' ∷ b't' ∷ b'.' ∷ b'i' ∷ b't' ∷ b'e' ∷ b'm' ∷ []

-- "object.item.activeItem".
abbrev pub object_active_item : Bytes
object_active_item =
    b'o' ∷ b'b' ∷ b'j' ∷ b'e' ∷ b'c' ∷ b't' ∷ b'.' ∷ b'i' ∷ b't' ∷ b'e' ∷ b'm' ∷ b'.' ∷ b'a' ∷ b'c'
    ∷ b't' ∷ b'i' ∷ b'v' ∷ b'e' ∷ b'I' ∷ b't' ∷ b'e' ∷ b'm' ∷ []

-- "object.container".
abbrev pub object_container : Bytes
object_container =
    b'o' ∷ b'b' ∷ b'j' ∷ b'e' ∷ b'c' ∷ b't' ∷ b'.' ∷ b'c' ∷ b'o' ∷ b'n' ∷ b't' ∷ b'a' ∷ b'i' ∷ b'n'
    ∷ b'e' ∷ b'r' ∷ []

-- "http://".
abbrev pub http : Bytes
http = b'h' ∷ b't' ∷ b't' ∷ b'p' ∷ b':' ∷ b'/' ∷ b'/' ∷ []

-- "container".
abbrev pub container_word : Bytes
container_word = b'c' ∷ b'o' ∷ b'n' ∷ b't' ∷ b'a' ∷ b'i' ∷ b'n' ∷ b'e' ∷ b'r' ∷ []

-- "item".
abbrev pub item_word : Bytes
item_word = b'i' ∷ b't' ∷ b'e' ∷ b'm' ∷ []

-- "active_item".
abbrev pub active_item_word : Bytes
active_item_word = b'a' ∷ b'c' ∷ b't' ∷ b'i' ∷ b'v' ∷ b'e' ∷ b'_' ∷ b'i' ∷ b't' ∷ b'e' ∷ b'm' ∷ []

-- "external_url".
abbrev pub external_url_word : Bytes
external_url_word =
    b'e' ∷ b'x' ∷ b't' ∷ b'e' ∷ b'r' ∷ b'n' ∷ b'a' ∷ b'l' ∷ b'_' ∷ b'u' ∷ b'r' ∷ b'l' ∷ []

-- "internal_url".
abbrev pub internal_url_word : Bytes
internal_url_word =
    b'i' ∷ b'n' ∷ b't' ∷ b'e' ∷ b'r' ∷ b'n' ∷ b'a' ∷ b'l' ∷ b'_' ∷ b'u' ∷ b'r' ∷ b'l' ∷ []
