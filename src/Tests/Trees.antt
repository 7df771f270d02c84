-- ===== src/Tests/Trees.antt =====
-- Paths and XML trees at concrete inputs.
use gerber.Prelude.{
  ◌≡◌, ◌≢◌, refl, true, false, [], ◌∷◌, none, some, arith, length, drop, All, if◌then◌else◌, ◌==◌,
}
use gerber.Zmm.Strings.{Bytes, strchr}
use gerber.Tools.Split.Cut.{parts}
use gerber.Zmm.Strings.{char_at}
use gerber.Tools.Paths.{normalize_path, sep}
use gerber.Tools.Paths.Names.{names_of}
use gerber.Tools.Paths.Normal.{absolute, normalize_path-absolute}
use gerber.Mxml.{
  string_type, Element, element, child, text, nil, cons, children_of, with_children,
  remove_element_child,
}
use gerber.Mxml.Printing.{escape}
use gerber.Mxml.Escape.{IsInertByte, read_text, shown_text, read_text-escape}
use gerber.Mxml.Children.{others, any_named, remove_element_child-others}
use gerber.Xpath.{descend, get_text_at}
use gerber.Xpath.Attributes.{attribute_path, attribute_of, get_text_at-descend}

-- "//a/./b/../c".
abbrev path : Bytes
path = b'/' ∷ b'/' ∷ b'a' ∷ b'/' ∷ b'.' ∷ b'/' ∷ b'b' ∷ b'/' ∷ b'.' ∷ b'.' ∷ b'/' ∷ b'c' ∷ []

path-text : All (λ x. x ≢ 0) path
path-text = ground arith

normalize_path-absolute_example :
    normalize_path path
    ≡ (if char_at path 0 == sep then some (absolute (names_of (drop 1 path))) else none)
normalize_path-absolute_example = normalize_path-absolute path path-text

-- "/a/c".
abbrev normal : Bytes
normal = b'/' ∷ b'a' ∷ b'/' ∷ b'c' ∷ []

normal_lem : normalize_path path ≡ some normal
unfolding normalize_path strchr
normal_lem = refl

-- "<&" and a control code.
read_text-escape_example :
    All IsInertByte (escape (some (b'<' ∷ b'&' ∷ 7 ∷ [])))
    × (read_text
          (length (shown_text (some (b'<' ∷ b'&' ∷ 7 ∷ []))))
          (escape (some (b'<' ∷ b'&' ∷ 7 ∷ [])))
        ≡ shown_text (some (b'<' ∷ b'&' ∷ 7 ∷ [])))
read_text-escape_example = read_text-escape (some (b'<' ∷ b'&' ∷ 7 ∷ []))

-- <r><a k="v"/>t<a/></r>.
abbrev tree : Element
tree = element (some (b'r' ∷ [])) [] (
    cons
      (child (
        element (some (b'a' ∷ []))
          (record { name = some (b'k' ∷ []); value = some (b'v' ∷ []); vtype = string_type } ∷ [])
          nil))
      (cons (text (some (b't' ∷ [])) string_type)
        (cons (child (element (some (b'a' ∷ [])) [] nil)) nil)))

remove_element_child-others_example : remove_element_child (some (b'a' ∷ [])) true tree ≡ (
  any_named (some (b'a' ∷ [])) (children_of tree),
  with_children (others (some (b'a' ∷ [])) (children_of tree)) tree,
)
remove_element_child-others_example = remove_element_child-others (some (b'a' ∷ [])) tree

get_text_at-descend_example :
    get_text_at (attribute_path (b'/' ∷ b'a' ∷ []) (b'k' ∷ [])) tree
    ≡ some (attribute_of (b'k' ∷ []) (descend (parts b'/' false (b'/' ∷ b'a' ∷ [])) tree))
get_text_at-descend_example =
    get_text_at-descend (b'/' ∷ b'a' ∷ []) (b'k' ∷ []) tree (ground arith) (ground arith)
      (ground arith)
