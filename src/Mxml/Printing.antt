-- ===== src/Mxml/Printing.antt =====
-- mxml/node.cc and the `print_internal` of the node classes: the text of a tree.
use mathlib.Core.Option
use gerber.Prelude.{
  ℕ, Bool, ◌&&◌, ◌||◌, not, List, [], ◌∷◌, ◌++◌, none, some, ◌==◌, leb, if◌then◌else◌,
}
use gerber.Zmm.Strings.{Bytes, ZString, c_str}
use gerber.Mxml.Words.{
  lt_entity, gt_entity, amp_entity, quot_entity, apos_entity, comment_start, comment_end,
}
use gerber.Mxml.{Attribute, Element, element, Node, child, text, comment, Nodes, nil, cons}

-- The control codes that are replaced by '.'; bytes from 128 on are negative and none of them.
unfoldable pub is_control : ℕ → Bool
is_control c = leb c 31 && not (c == 9) && not (c == 13) && not (c == 10) || c == 127

unfoldable pub escape_char : ℕ → Bytes
unfolding is_control
escape_char c =
    if c == b'<'
    then lt_entity
    else if c == b'>'
    then gt_entity
    else if c == b'&'
    then amp_entity
    else if c == b'"'
    then quot_entity
    else if c == b'\''
    then apos_entity
    else if is_control c
    then b'.' ∷ []
    else c ∷ []

unfoldable pub escape_all : Bytes → Bytes
unfolding escape_char
escape_all [] = []
escape_all (c ∷ s) = escape_char c ++ escape_all s

-- `escape`, which reads up to the first NUL; nothing for a null string.
unfoldable pub escape : ZString → Bytes
unfolding escape_all c_str
escape none = []
escape (some s) = escape_all (c_str s)

abbrev raw : ZString → Bytes
raw s = Option.get_or s []

unfoldable pub print_attributes : List Attribute → Bytes
unfolding escape
print_attributes [] = []
print_attributes (attr ∷ attributes) =
    b' '
    ∷ (raw attr.name ++ b'=' ∷ b'"' ∷ (escape attr.value ++ b'"' ∷ print_attributes attributes))

-- An element without children is closed at once.
unfoldable pub tagged : ZString → List Attribute → Nodes → Bytes → Bytes
unfolding print_attributes
tagged name attributes nil inner =
    b'<' ∷ (raw name ++ (print_attributes attributes ++ b'/' ∷ b'>' ∷ []))
tagged name attributes (cons node nodes) inner =
    b'<'
    ∷ (raw name
        ++ (print_attributes attributes ++ b'>' ∷ (inner ++ b'<' ∷ b'/' ∷ (raw name ++ b'>' ∷ []))))

unfoldable mutual
  unfolding escape tagged

  pub print : Element → Bytes
  print (element name attributes children) = tagged name attributes children (print_nodes children)

  pub print_node : Node → Bytes
  print_node (child e) = print e
  print_node (text s type) = escape s
  print_node (comment s before) = comment_start ++ (raw s ++ comment_end)

  pub print_nodes : Nodes → Bytes
  print_nodes nil = []
  print_nodes (cons node nodes) = print_node node ++ print_nodes nodes
