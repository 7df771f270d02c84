-- ===== src/Mxml/Content.antt =====
-- mxml/element.cc: the text of an element.
use mathlib.Core.Option
use gerber.Prelude.{ℕ, ◌+◌, ◌-◌, ◌&&◌, [], ◌∷◌, ◌++◌, Option, none, some, ◌==◌, ltb, if◌then◌else◌}
use gerber.Zmm.Strings.{Bytes, ZString, index, substring, len}
use gerber.Mxml.{
  ValueType, Element, element, Node, child, text, comment, Nodes, nil, cons, children_of,
  with_children, append_child, add_attribute, get_child_by_name,
}

abbrev text_of : ZString → Bytes
text_of s = Option.get_or s []

-- The loop of `getText`: the text of all text nodes, and whether there is one.
unfoldable pub texts : Nodes → Option Bytes
texts nil = none
texts (cons (child _) nodes) = texts nodes
texts (cons (comment _ _) nodes) = texts nodes
texts (cons (text s _) nodes) = some (text_of s ++ Option.get_or (texts nodes) [])

unfoldable pub get_text : Element → ZString
unfolding texts children_of
get_text e = texts (children_of e)

unfoldable pub get_child_text : ZString → Element → ZString
unfolding get_child_by_name get_text
get_child_text name e = elim (get_child_by_name name e) [ none ↦ none | some c ↦ get_text c ]

-- `setText`; `none` is the exception, for more than one child and for a child of another type.
unfoldable pub set_nodes : ZString → ValueType → Nodes → Option Nodes
set_nodes str type nil = some (cons (text str type) nil)
set_nodes str type (cons (text _ vtype) nil) = some (cons (text str vtype) nil)
set_nodes str type (cons (child _) nil) = none
set_nodes str type (cons (comment _ _) nil) = none
set_nodes str type (cons _ (cons _ _)) = none

unfoldable pub set_text : ZString → ValueType → Element → Option Element
unfolding set_nodes children_of with_children
set_text str type e =
    Option.map (λ nodes. with_children nodes e) (set_nodes str type (children_of e))

-- The last character of a name; 0 for an empty one.
abbrev last_char : Bytes → ℕ
last_char [] = 0
last_char (x ∷ []) = x
last_char (x ∷ y ∷ s) = last_char (y ∷ s)

-- Where a name reads name@attr[val]: the places of '@' and '['.
unfoldable pub closed : ZString → ℕ → Option ℕ → Option (ℕ × ℕ)
closed name i none = none
closed name i (some j) =
    if ltb 0 i && ltb 0 j && last_char (text_of name) == b']' then some (i, j) else none

unfoldable pub marked : ZString → Option ℕ → Option (ℕ × ℕ)
unfolding index closed
marked name none = none
marked name (some i) = closed name i (index name (i + 1) b'[')

-- The child of `appendTextChild`, with its attribute if it is to have one.
unfoldable pub text_child : ZString → ValueType → Option (ℕ × ℕ) → Element
unfolding substring add_attribute
text_child name type none = element name [] nil
text_child name type (some (i, j)) =
    let attr = substring name (i + 1) (j - i - 1) in
    let val = substring name (j + 1) (len name - j - 2) in
    let el = element (substring name 0 i) [] nil in
    if ltb 0 (len attr) && ltb 0 (len val) then add_attribute attr val type el else el

abbrev new_child : ZString → ValueType → Element → Node
new_child str type el = child (with_children (cons (text str type) nil) el)

-- `appendTextChild`; `setText` on the new element, which has no children, does not throw.
unfoldable pub append_text_child : ZString → ZString → ValueType → Element → Element
unfolding index marked text_child with_children append_child
append_text_child name str type e =
    append_child (new_child str type (text_child name type (marked name (index name 0 b'@')))) e
