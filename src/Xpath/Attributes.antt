-- ===== src/Xpath/Attributes.antt =====
-- The attribute that a path of names and an attribute axis lead to.
use gerber.Prelude.{
  ◌≡◌, refl, ap, false, [], ◌∷◌, ◌++◌, Option, none, some, arith, length, drop-append, All-append,
}
use gerber.Zmm.Strings.{Bytes, ZString, Lacks, strrchr}
use gerber.Zmm.Strings.Pieces.{substring_front, substring_past}
use gerber.Zmm.Strings.Search.{c_str-Lacks}
use gerber.Tools.Split.Cut.{parts, split_string-parts}
use gerber.Mxml.{Element, get_attribute}
use gerber.Xpath.Words.{attribute_word, axis_mark}
use gerber.Xpath.{
  substring_from, axis_after, get_axis_part, path_before, path_upto, get_path_part, descend,
  element_at_path, get_axis, get_spec, read_axis, read_element, get_text_at,
}

strrchr-Lacks : (s : Bytes) → Lacks b'/' s → strrchr b'/' s ≡ none
unfolding strrchr
strrchr-Lacks [] h = refl
strrchr-Lacks (x ∷ s) h = ground (arith, strrchr-Lacks s h.1)

strrchr-append :
    (p r : Bytes) → Lacks 0 p → Lacks b'/' r → strrchr b'/' (p ++ b'/' ∷ r) ≡ some (length p)
unfolding strrchr
strrchr-append [] r h k = rw (strrchr-Lacks r k) refl
strrchr-append (x ∷ p) r h k = ground (arith, strrchr-append p r h.1 k)

-- The text behind the last slash.
abbrev axis_text : Bytes → Bytes
axis_text name = attribute_word ++ (axis_mark ++ name)

axis_text-Lacks :
    (name : Bytes)
    → Lacks 0 name
    → Lacks b'/' name
    → Lacks 0 (axis_text name) × Lacks b'/' (axis_text name)
axis_text-Lacks name h k = (
  All-append _ attribute_word (axis_mark ++ name) (omega arith) (omega arith, (omega arith, h)),
  All-append _ attribute_word (axis_mark ++ name) (omega arith) (omega arith, (omega arith, k)),
)

-- A path of elements, and the attribute axis of the last one.
abbrev pub attribute_path : Bytes → Bytes → Bytes
attribute_path path name = path ++ b'/' ∷ axis_text name

module _ (path name : Bytes) (hp : Lacks 0 path) (hn : Lacks 0 name) (hs : Lacks b'/' name) where
  slash_at : strrchr b'/' (attribute_path path name) ≡ some (length path)
  slash_at = strrchr-append path (axis_text name) hp (axis_text-Lacks name hn hs).1

  get_axis_part_lem : get_axis_part (attribute_path path name) ≡ some (axis_text name)
  unfolding get_axis_part axis_after substring_from
  get_axis_part_lem =
      rw (slash_at, drop-append path (b'/' ∷ axis_text name))
        (substring_past b'/' path (axis_text name) (axis_text-Lacks name hn hs).0)

  get_path_part_lem : get_path_part (attribute_path path name) ≡ some path
  unfolding get_path_part path_upto path_before
  get_path_part_lem =
      rw (slash_at, drop-append path (b'/' ∷ axis_text name))
        (substring_front path (b'/' ∷ axis_text name) hp)

get_axis_lem : (name : Bytes) → get_axis (axis_text name) ≡ some attribute_word
unfolding get_axis
get_axis_lem name = substring_front attribute_word (axis_mark ++ name) (omega arith)

get_spec_lem : (name : Bytes) → Lacks 0 name → get_spec (axis_text name) ≡ some name
unfolding get_spec
get_spec_lem name h = ap some (c_str-Lacks name h)

read_attribute :
    (name : Bytes) (el : Element)
    → Lacks 0 name
    → read_axis (some (axis_text name)) el ≡ some (get_attribute (some name) el)
unfolding read_axis
read_attribute name el h = rw (get_axis_lem name, get_spec_lem name h) refl

abbrev pub attribute_of : Bytes → Option Element → ZString
attribute_of name none = none
attribute_of name (some el) = get_attribute (some name) el

read_element_lem :
    (name : Bytes) (el : Option Element)
    → Lacks 0 name
    → read_element (some (axis_text name)) el ≡ some (attribute_of name el)
unfolding read_element
read_element_lem name none h = refl
read_element_lem name (some el) h = read_attribute name el h

-- `getText` of a path, "/attribute::" and a name does not throw. It starts at the context, takes the
-- first child element with the name of each part of the path that is not empty, and gives the
-- attribute of the element where it ends, or null if a part names no child. The texts have no NUL,
-- and the name has no slash.
pub get_text_at-descend :
    (path name : Bytes) (context : Element)
    → Lacks 0 path
    → Lacks 0 name
    → Lacks b'/' name
    → get_text_at (attribute_path path name) context
      ≡ some (attribute_of name (descend (parts b'/' false path) context))
unfolding get_text_at element_at_path
get_text_at-descend path name context hp hn hs =
    rw
      (
        get_axis_part_lem path name hp hn hs,
        get_path_part_lem path name hp hn hs,
        split_string-parts path b'/' false (omega arith) hp,
      )
      (read_element_lem name (descend (parts b'/' false path) context) hn)
