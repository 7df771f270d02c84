-- ===== src/Tools/Protocol.antt =====
-- tools.cc: the text of a UPnP protocol info, and the resolution of an image.
pub mod Parts
use gerber.Prelude.{
  ℕ, zero, suc, ◌+◌, ◌≡◌, ◌≢◌, refl, sym, ap, ◌∙◌, true, false, Bool, ◌&&◌, List, [], ◌∷◌, ◌++◌,
  Option, none, some, ltb, ◌==◌, if◌then◌else◌, length, get_elem?, take, arith, All,
}
use gerber.Prelude.Int.{ℤ, pos, ltb_ℤ}
use gerber.Zmm.Strings.{Bytes, ZString, Lacks, c_str, strchr, string_ok, substring, index}
use gerber.Zmm.Number.{to_int}
use gerber.Tools.Split.{split_string}

abbrev http_get : Bytes
http_get = b'h' ∷ b't' ∷ b't' ∷ b'p' ∷ b'-' ∷ b'g' ∷ b'e' ∷ b't' ∷ []

abbrev wild : Bytes
wild = b':' ∷ b'*' ∷ b':' ∷ []

-- `renderProtocolInfo`; the texts are the bytes of strings that are not null.
unfoldable pub render_protocol_info : Bytes → Bytes → Bytes → Bytes
render_protocol_info mimetype protocol extend =
    if string_ok (some mimetype) && string_ok (some protocol)
    then (if string_ok (some extend)
        then protocol ++ (wild ++ (mimetype ++ b':' ∷ extend))
        else protocol ++ (wild ++ (mimetype ++ b':' ∷ b'*' ∷ [])))
    else http_get ++ (wild ++ b'*' ∷ b':' ∷ b'*' ∷ [])

-- `getMTFromProtocolInfo`.
unfoldable pub get_mt_from_protocol_info : Bytes → ZString
get_mt_from_protocol_info protocol =
    let parts = split_string protocol b':' false in
    if ltb 2 (length parts) then get_elem? parts 2 else none

unfoldable pub protocol_at : Option ℕ → ZString → ZString
protocol_at none protocol_info = some http_get
protocol_at (some zero) protocol_info = some http_get
protocol_at (some (suc n)) protocol_info = substring protocol_info 0 (suc n)

-- `getProtocol`.
unfoldable pub get_protocol : ZString → ZString
get_protocol protocol_info = protocol_at (index protocol_info 0 b':') protocol_info

-- `check_resolution`: its result, and `x` and `y`.
unfoldable pub check_resolution : Bytes → Bool × ℤ × ℤ
check_resolution resolution = elim (split_string resolution b'x' false) [
  | x ∷ y ∷ [] ↦
      if string_ok (some x)
        && string_ok (some y)
        && (ltb_ℤ (pos 0) (to_int (some x)) && ltb_ℤ (pos 0) (to_int (some y)))
      then (true, to_int (some x), to_int (some y))
      else (false, pos 0, pos 0)
  | _ ↦ (false, pos 0, pos 0)
]
