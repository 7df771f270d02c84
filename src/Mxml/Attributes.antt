-- ===== src/Mxml/Attributes.antt =====
-- mxml/element.cc: the attributes of an element, and its text.
use mathlib.Core.Option
use gerber.Prelude.{
  Bool, ◌&&◌, leb, ◌==◌, ◌∙◌, ◌≡◌, refl, List, [], ◌∷◌, Option, none, some, arith, if◌then◌else◌,
  append-nil, ap,
}
use gerber.Zmm.Strings.{ZString, equals}
use gerber.Dictionary.Lookup.{equals_iff}
use gerber.Mxml.{
  size, count, get_type, text_type, ValueType, Attribute, Element, element, child, text, comment,
  Nodes, nil, cons, find_attribute, get_attribute, store_attribute, set_attribute, attributes_of,
  children_of, with_attributes, with_children,
}
use gerber.Mxml.Content.{texts, get_text, set_nodes, set_text}

find_attribute-store_attribute :
    (name key value : ZString) (type : ValueType) (attributes : List Attribute)
    → find_attribute key (store_attribute name value type attributes)
      ≡ (if equals name key then value else find_attribute key attributes)
unfolding find_attribute store_attribute
find_attribute-store_attribute name key value type [] = refl
find_attribute-store_attribute name key value type (attr ∷ attributes) = ground (
  arith,
  equals_iff name key,
  equals_iff attr.name name,
  equals_iff attr.name key,
  find_attribute-store_attribute name key value type attributes,
)

-- `setAttribute` stores the value of its attribute and changes no other one, nor the children.
pub get_attribute-set_attribute :
    (name key value : ZString) (type : ValueType) (e : Element)
    → (get_attribute key (set_attribute name value type e)
        ≡ (if equals name key then value else get_attribute key e))
      × (children_of (set_attribute name value type e) ≡ children_of e)
unfolding get_attribute set_attribute attributes_of with_attributes children_of
get_attribute-set_attribute name key value type (element n attributes children) =
    (find_attribute-store_attribute name key value type attributes, refl)

-- The text that `getText` makes of a null string is empty.
abbrev read_back : ZString → ZString
read_back s = some (Option.get_or s [])

-- The children that `setText` takes: none, or one text.
abbrev takes_text : Nodes → Bool
takes_text nodes = leb (size nodes) 1 && count text_type nodes == size nodes

texts-set_nodes :
    (s : ZString) (type : ValueType) (nodes : Nodes)
    → Option.map texts (set_nodes s type nodes)
      ≡ (if takes_text nodes then some (read_back s) else none)
unfolding texts set_nodes size count get_type
texts-set_nodes s type nil = ap (λ t. some (some t)) (append-nil (Option.get_or s []))
texts-set_nodes s type (cons (text t v) nil) =
    ap (λ t. some (some t)) (append-nil (Option.get_or s []))
texts-set_nodes s type (cons (child e) nil) = refl
texts-set_nodes s type (cons (comment t b) nil) = refl
texts-set_nodes s type (cons (child _) (cons m nodes)) = ground arith
texts-set_nodes s type (cons (text _ _) (cons m nodes)) = ground arith
texts-set_nodes s type (cons (comment _ _) (cons m nodes)) = ground arith

map-map :
    (name : ZString) (attributes : List Attribute) (children : Nodes) (new : Option Nodes)
    → Option.map get_text
        (Option.map (λ nodes. with_children nodes (element name attributes children)) new)
      ≡ Option.map texts new
unfolding get_text with_children children_of
map-map name attributes children none = refl
map-map name attributes children (some nodes) = refl

-- `setText` makes `getText` return the text that it is called with, "" for a null one, if the
-- element has no children or a text as its only child, and throws otherwise.
get_text-set_text :
    (s : ZString) (type : ValueType) (e : Element)
    → Option.map get_text (set_text s type e)
      ≡ (if takes_text (children_of e) then some (read_back s) else none)
unfolding set_text children_of
get_text-set_text s type (element name attributes children) =
    map-map name attributes children (set_nodes s type children) ∙ texts-set_nodes s type children
