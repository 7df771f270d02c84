-- ===== src/Mxml/Children.antt =====
-- mxml/element.cc: looking children up by type and by name, and removing them.
use mathlib.Core.Option
use gerber.Prelude.{
  ℕ, zero, suc, ◌<◌, ◌≡◌, refl, ap, ◌∙◌, Bool, true, false, Bool-cases, Option-cases, inl, inr,
  Option, none, some, arith, if◌then◌else◌,
}
use gerber.Zmm.Strings.{ZString}
use gerber.Mxml.{
  NodeType, Element, element, Node, Nodes, nil, cons, children_of, with_children, get_type, is_type,
  size, nth, count, place, fetch, child_count, get_child, named, get_child_id_by_name, remove_at,
  remove_named, remove_element_child,
}

-- The children that are not named so, in their order.
abbrev pub others : ZString → Nodes → Nodes
others name nil = nil
others name (cons node nodes) =
    if named name node then others name nodes else cons node (others name nodes)

abbrev pub any_named : ZString → Nodes → Bool
any_named name nil = false
any_named name (cons node nodes) = if named name node then true else any_named name nodes

abbrev kept_first : Node → Bool × Nodes → Bool × Nodes
kept_first node (removed, nodes) = (removed, cons node nodes)

-- A child of another name stays where it is.
remove_named_other :
    (fuel : ℕ) (name : ZString) (node : Node) (nodes : Nodes)
    → named name node ≡ false
    → remove_named fuel name true (cons node nodes)
      ≡ kept_first node (remove_named fuel name true nodes)
unfolding remove_named get_child_id_by_name remove_at
remove_named_other zero name node nodes h = refl
remove_named_other (suc fuel) name node nodes h =
    elim (Option-cases (get_child_id_by_name name nodes)) [
      | inl e ↦ rw (remove_named, h, e) refl
      | inr (id, e) ↦
          rw (remove_named, h, e, remove_named_other fuel name node (remove_at id nodes) h) refl
    ]

remove_named_first :
    (fuel : ℕ) (name : ZString) (node : Node) (nodes : Nodes)
    → named name node ≡ true
    → remove_named (suc fuel) name true (cons node nodes)
      ≡ (true, (remove_named fuel name true nodes).1)
unfolding remove_named get_child_id_by_name remove_at
remove_named_first fuel name node nodes h = rw (remove_named, h) refl

remove_named_lem :
    (fuel : ℕ) (name : ZString) (nodes : Nodes)
    → size nodes < fuel
    → remove_named fuel name true nodes ≡ (any_named name nodes, others name nodes)
unfolding size
remove_named_lem zero name nodes h = absurd (omega arith)
remove_named_lem (suc fuel) name nil h = unfold remove_named get_child_id_by_name in refl
remove_named_lem (suc fuel) name (cons node nodes) h = elim (Bool-cases (named name node)) [
  | inl e ↦
      rw
        (
          remove_named_first fuel name node nodes e,
          remove_named_lem fuel name nodes (omega arith),
          e,
        )
        refl
  | inr e ↦
      rw
        (
          remove_named_other (suc fuel) name node nodes e,
          remove_named_lem (suc fuel) name nodes (omega arith),
          e,
        )
        refl
]

-- `removeElementChild(name, true)` removes every child element of that name and keeps the other
-- children in their order; it returns whether there was one.
pub remove_element_child-others :
    (name : ZString) (e : Element)
    → remove_element_child name true e
      ≡ (any_named name (children_of e), with_children (others name (children_of e)) e)
unfolding remove_element_child children_of
remove_element_child-others name (element n attributes children) =
    rw (remove_named_lem (suc (size children)) name children (omega arith)) refl

-- The children of a type, in their order.
abbrev pub of_type : NodeType → Nodes → Nodes
of_type type nil = nil
of_type type (cons node nodes) =
    if is_type (get_type node) type then cons node (of_type type nodes) else of_type type nodes

fetch-suc :
    (o : Option ℕ) (node : Node) (nodes : Nodes)
    → fetch (Option.map suc o) (cons node nodes) ≡ fetch o nodes
unfolding fetch nth
fetch-suc none node nodes = refl
fetch-suc (some i) node nodes = refl

fetch-place :
    (type : NodeType) (index : ℕ) (nodes : Nodes)
    → fetch (place type index nodes) nodes ≡ nth index (of_type type nodes)
unfolding place nth
fetch-place type index nil = unfold fetch in refl
fetch-place type zero (cons node nodes) = elim (Bool-cases (is_type (get_type node) type)) [
  | inl e ↦ rw e (unfold fetch in refl)
  | inr e ↦ rw e (fetch-suc (place type zero nodes) node nodes ∙ fetch-place type zero nodes)
]
fetch-place type (suc index) (cons node nodes) = elim (Bool-cases (is_type (get_type node) type)) [
  | inl e ↦ rw e (fetch-suc (place type index nodes) node nodes ∙ fetch-place type index nodes)
  | inr e ↦
      rw e
        (fetch-suc (place type (suc index) nodes) node nodes ∙ fetch-place type (suc index) nodes)
]

count-of_type : (type : NodeType) (nodes : Nodes) → count type nodes ≡ size (of_type type nodes)
unfolding count size
count-of_type type nil = refl
count-of_type type (cons node nodes) = elim (Bool-cases (is_type (get_type node) type)) [
  | inl e ↦ rw e (ap suc (count-of_type type nodes))
  | inr e ↦ rw e (count-of_type type nodes)
]

-- With a type, `getChild` and `childCount` see the children of that type only, in their order.
pub get_child-of_type :
    (type : NodeType) (index : ℕ) (e : Element)
    → (get_child index (some type) e ≡ nth index (of_type type (children_of e)))
      × (child_count (some type) e ≡ size (of_type type (children_of e)))
unfolding get_child child_count
get_child-of_type type index e =
    (fetch-place type index (children_of e), count-of_type type (children_of e))
