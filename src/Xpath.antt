-- ===== src/Xpath.antt =====
-- xpath.cc: texts and elements of an XML tree by their paths. `none` around a result is an exception.
pub mod Words
pub mod Attributes
use mathlib.Core.Option
use gerber.Prelude.{
  ℕ, false, suc, ◌+◌, ◌-◌, Bool, List, [], ◌∷◌, Option, none, some, ◌==◌, if◌then◌else◌, length,
  drop,
}
use gerber.Zmm.Strings.{Bytes, ZString, strrchr, starts_with, substring, len, equals, c_str}
use gerber.Tools.Split.{split_string}
use gerber.Mxml.{Element, get_attribute, get_child_by_name}
use gerber.Mxml.Content.{get_text}
use gerber.Xpath.Words.{attribute_word, axis_mark}

-- `strstr`, as an offset.
unfoldable pub strstr : Bytes → Bytes → Option ℕ
unfolding starts_with
strstr needle [] = if starts_with [] needle then some 0 else none
strstr needle (x ∷ s) =
    if starts_with (x ∷ s) needle
    then some 0
    else if x == 0
    then none
    else Option.map suc (strstr needle s)

-- `substring(int from)`, for a place up to the length.
unfoldable pub substring_from : Bytes → ℕ → ZString
substring_from s start = substring (some s) start (length s - start)

unfoldable pub axis_after : Bytes → ℕ → Option ℕ → ZString
unfolding substring_from
axis_after xpath slash_pos none = none
axis_after xpath slash_pos (some n) = substring_from xpath (slash_pos + 1)

-- `getAxisPart`; without a slash its place counts as 0.
unfoldable pub get_axis_part : Bytes → ZString
unfolding strrchr strstr axis_after
get_axis_part xpath =
    let slash_pos = Option.get_or (strrchr b'/' xpath) 0 in
    axis_after xpath slash_pos (strstr axis_mark (drop slash_pos xpath))

unfoldable pub path_before : Bytes → ℕ → Option ℕ → ZString
path_before xpath slash_pos none = some xpath
path_before xpath slash_pos (some n) = substring (some xpath) 0 slash_pos

unfoldable pub path_upto : Bytes → Option ℕ → ZString
unfolding strstr path_before
path_upto xpath none = some xpath
path_upto xpath (some slash_pos) =
    path_before xpath slash_pos (strstr axis_mark (drop slash_pos xpath))

unfoldable pub get_path_part : Bytes → ZString
unfolding strrchr path_upto
get_path_part xpath = path_upto xpath (strrchr b'/' xpath)

-- The loop of `elementAtPath`.
unfoldable pub descend : List Bytes → Element → Option Element
unfolding get_child_by_name
descend [] cur = some cur
descend (part ∷ parts) cur = elim (get_child_by_name (some part) cur) [
  | none ↦ none
  | some next ↦ descend parts next
]

unfoldable pub element_at_path : Bytes → Element → Option Element
unfolding descend split_string
element_at_path path context = descend (split_string path b'/' false) context

-- `getAxis`, of a text that has the mark.
unfoldable pub get_axis : Bytes → ZString
unfolding strstr
get_axis axis_part = substring (some axis_part) 0 (Option.get_or (strstr axis_mark axis_part) 0)

-- `getSpec`, which makes a string of the bytes behind the mark.
unfoldable pub get_spec : Bytes → ZString
unfolding strstr c_str
get_spec axis_part =
    some (c_str (drop (Option.get_or (strstr axis_mark axis_part) 0 + 2) axis_part))

-- What `getText` reads of the element that it found.
unfoldable pub read_axis : ZString → Element → Option ZString
unfolding get_text get_axis get_spec get_attribute equals
read_axis none el = some (get_text el)
read_axis (some axis_part) el =
    if equals (get_axis axis_part) (some attribute_word)
    then some (get_attribute (get_spec axis_part) el)
    else none

unfoldable pub read_element : ZString → Option Element → Option ZString
unfolding read_axis
read_element axis_part none = some none
read_element axis_part (some el) = read_axis axis_part el

-- `getText`. The path part of a text is never null.
unfoldable pub get_text_at : Bytes → Element → Option ZString
unfolding get_axis_part get_path_part element_at_path read_element
get_text_at xpath context =
    read_element (get_axis_part xpath)
      (element_at_path (Option.get_or (get_path_part xpath) []) context)

unfoldable pub unless_axis : ZString → Option Element → Option (Option Element)
unless_axis none el = some el
unless_axis (some axis_part) el = none

-- `getElement`.
unfoldable pub get_element : Bytes → Element → Option (Option Element)
unfolding get_axis_part element_at_path unless_axis
get_element xpath context = unless_axis (get_axis_part xpath) (element_at_path xpath context)
