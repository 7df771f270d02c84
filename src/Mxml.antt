-- ===== src/Mxml.antt =====
-- mxml/element.cc, mxml/node.cc, mxml/xml_text.cc, mxml/comment.cc and mxml/attribute.cc: the tree of
-- an XML document, and its text.
pub mod Words
pub mod Escape
pub mod Attributes
pub mod Children
pub mod Content
pub mod Printing
use mathlib.Core.Option
use gerber.Prelude.{
  ℕ, zero, suc, ◌+◌, ◌-◌, ◌*◌, Bool, true, false, ◌&&◌, ◌||◌, not, List, [], ◌∷◌, ◌++◌, Option,
  none, some, ◌==◌, ltb, leb, if◌then◌else◌, length,
}
use gerber.Zmm.Strings.{Bytes, ZString, equals, string_ok, c_str, index, substring, len}
use gerber.Tools.Split.{trim_string}
use gerber.Mxml.Words.{
  lt_entity, gt_entity, amp_entity, quot_entity, apos_entity, comment_start, comment_end,
}

-- `enum mxml_value_type`.
pub data ValueType : Type 0 where
  string_type : ValueType
  bool_type : ValueType
  null_type : ValueType
  int_type : ValueType

-- `enum mxml_node_types`, without `mxml_node_all`.
pub data NodeType : Type 0 where
  element_type : NodeType
  text_type : NodeType
  comment_type : NodeType

pub record Attribute : Type 0 where
  pub name : ZString
  pub value : ZString
  pub vtype : ValueType

-- `Element`, `Node` and the array of children; a null array counts as an empty one.
mutual
  pub data Element : Type 0 where
    element : (name : ZString) (attributes : List Attribute) (children : Nodes) → Element

  pub data Node : Type 0 where
    child : Element → Node
    text : ZString → ValueType → Node
    comment : ZString → (indent_with_lf_before : Bool) → Node

  pub data Nodes : Type 0 where
    nil : Nodes
    cons : Node → Nodes → Nodes

unfoldable pub name_of : Element → ZString
name_of (element name attributes children) = name

unfoldable pub attributes_of : Element → List Attribute
attributes_of (element name attributes children) = attributes

unfoldable pub children_of : Element → Nodes
children_of (element name attributes children) = children

unfoldable pub with_attributes : List Attribute → Element → Element
with_attributes attributes (element name _ children) = element name attributes children

unfoldable pub with_children : Nodes → Element → Element
with_children children (element name attributes _) = element name attributes children

unfoldable pub get_type : Node → NodeType
get_type (child _) = element_type
get_type (text _ _) = text_type
get_type (comment _ _) = comment_type

abbrev pub is_type : NodeType → NodeType → Bool
is_type element_type element_type = true
is_type text_type text_type = true
is_type comment_type comment_type = true
is_type _ _ = false

-- Arrays of attributes.

unfoldable pub find_attribute : ZString → List Attribute → ZString
unfolding equals
find_attribute name [] = none
find_attribute name (attr ∷ attributes) =
    if equals attr.name name then attr.value else find_attribute name attributes

-- `getAttribute(String)`; `none` is the null string.
unfoldable pub get_attribute : ZString → Element → ZString
unfolding find_attribute attributes_of
get_attribute name e = find_attribute name (attributes_of e)

unfoldable pub store_attribute : ZString → ZString → ValueType → List Attribute → List Attribute
unfolding equals
store_attribute name value type [] = record { name = name; value = value; vtype = type } ∷ []
store_attribute name value type (attr ∷ attributes) =
    if equals attr.name name
    then record attr { value = value; vtype = type } ∷ attributes
    else attr ∷ store_attribute name value type attributes

unfoldable pub set_attribute : ZString → ZString → ValueType → Element → Element
unfolding store_attribute attributes_of with_attributes
set_attribute name value type e =
    with_attributes (store_attribute name value type (attributes_of e)) e

unfoldable pub add_attribute : ZString → ZString → ValueType → Element → Element
unfolding attributes_of with_attributes
add_attribute name value type e =
    with_attributes (attributes_of e ++ record { name = name; value = value; vtype = type } ∷ []) e

unfoldable pub attribute_count : Element → ℕ
unfolding attributes_of
attribute_count e = length (attributes_of e)

-- Arrays of children.

unfoldable pub size : Nodes → ℕ
size nil = 0
size (cons node nodes) = suc (size nodes)

unfoldable pub nth : ℕ → Nodes → Option Node
nth i nil = none
nth zero (cons node nodes) = some node
nth (suc i) (cons node nodes) = nth i nodes

-- `remove(index)` of one element; out of bounds nothing happens.
unfoldable pub remove_at : ℕ → Nodes → Nodes
remove_at i nil = nil
remove_at zero (cons node nodes) = nodes
remove_at (suc i) (cons node nodes) = cons node (remove_at i nodes)

unfoldable pub append_node : Nodes → Node → Nodes
append_node nil new = cons new nil
append_node (cons node nodes) new = cons node (append_node nodes new)

-- `insert(index, obj)`, for an index up to the size.
unfoldable pub insert_at : ℕ → Node → Nodes → Nodes
insert_at zero new nodes = cons new nodes
insert_at (suc i) new nil = cons new nil
insert_at (suc i) new (cons node nodes) = cons node (insert_at i new nodes)

-- `childCount`; `none` stands for `mxml_node_all`.
unfoldable pub count : NodeType → Nodes → ℕ
unfolding get_type
count type nil = 0
count type (cons node nodes) =
    let rest = count type nodes in if is_type (get_type node) type then suc rest else rest

unfoldable pub child_count : Option NodeType → Element → ℕ
unfolding size count children_of
child_count none e = size (children_of e)
child_count (some type) e = count type (children_of e)

-- The place of the child of a type that has `index` of them before it.
unfoldable pub place : NodeType → ℕ → Nodes → Option ℕ
unfolding get_type
place type index nil = none
place type zero (cons node nodes) =
    let later = Option.map suc (place type zero nodes) in
    if is_type (get_type node) type then some zero else later
place type (suc index) (cons node nodes) =
    if is_type (get_type node) type
    then Option.map suc (place type index nodes)
    else Option.map suc (place type (suc index) nodes)

unfoldable pub fetch : Option ℕ → Nodes → Option Node
unfolding nth
fetch none nodes = none
fetch (some i) nodes = nth i nodes

-- `getChild`, for an index that is not negative.
unfoldable pub get_child : ℕ → Option NodeType → Element → Option Node
unfolding nth place fetch children_of
get_child index none e = nth index (children_of e)
get_child index (some type) e = fetch (place type index (children_of e)) (children_of e)

unfoldable pub discard : Option ℕ → Nodes → Nodes
unfolding remove_at
discard none nodes = nodes
discard (some i) nodes = remove_at i nodes

-- What `getChild(index, type, true)` leaves; this is `removeChild`.
unfoldable pub remove_child : ℕ → Option NodeType → Element → Element
unfolding place discard children_of with_children remove_at
remove_child index none e = with_children (remove_at index (children_of e)) e
remove_child index (some type) e =
    with_children (discard (place type index (children_of e)) (children_of e)) e

unfoldable pub append_child : Node → Element → Element
unfolding append_node children_of with_children
append_child new e = with_children (append_node (children_of e) new) e

unfoldable pub insert_child : ℕ → Node → Element → Element
unfolding insert_at children_of with_children
insert_child index new e = with_children (insert_at index new (children_of e)) e

-- A null name stands for every element.
abbrev pub named : ZString → Node → Bool
named name (child e) = elim name [ none ↦ true | some n ↦ equals (name_of e) (some n) ]
named name (text _ _) = false
named name (comment _ _) = false

-- `getChildIdByName`; `none` is -1.
unfoldable pub get_child_id_by_name : ZString → Nodes → Option ℕ
unfolding name_of equals
get_child_id_by_name name nil = none
get_child_id_by_name name (cons node nodes) =
    let later = Option.map suc (get_child_id_by_name name nodes) in
    if named name node then some zero else later

abbrev as_element : Option Node → Option Element
as_element (some (child e)) = some e
as_element (some (text _ _)) = none
as_element (some (comment _ _)) = none
as_element none = none

unfoldable pub get_child_by_name : ZString → Element → Option Element
unfolding get_child_id_by_name fetch children_of
get_child_by_name name e =
    as_element (fetch (get_child_id_by_name name (children_of e)) (children_of e))

-- `removeElementChild(name, removeAll)` on the children. Each call but the last removes one of them,
-- so one call more than there are children is enough fuel.
unfoldable pub remove_named : ℕ → ZString → Bool → Nodes → Bool × Nodes
unfolding get_child_id_by_name remove_at
remove_named zero name all nodes = (false, nodes)
remove_named (suc fuel) name all nodes = elim (get_child_id_by_name name nodes) [
  | none ↦ (false, nodes)
  | some id ↦
      let rest = remove_named fuel name true (remove_at id nodes) in
      if all then (true, rest.1) else (true, remove_at id nodes)
]

unfoldable pub remove_element_child : ZString → Bool → Element → Bool × Element
unfolding remove_named children_of with_children size
remove_element_child name all e =
    let (removed, nodes) = remove_named (suc (size (children_of e))) name all (children_of e) in
    (removed, with_children nodes e)
