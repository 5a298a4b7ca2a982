-- ===== src/Layout.antt =====
-- libkycore/rack.h and libkycore/finalize.cpp: the nodes of a layout, their copies, and the pass that
-- gives them their kinds.
pub mod Shape
pub mod Copies
pub mod Best
pub mod Choice
pub mod Apps
mod Tests
use kyzddfer.Base.{ℕ, Bool, true, false, Option, none, some, List, [], ◌∷◌, ◌++◌, ite, ◌||◌}
use kyzddfer.Base.Text.{Text, codes, text_dec}
use kyzddfer.Parts.{Flags}

abbrev pub Attrs : Type 0
Attrs = List (Text × Text)

pub record LayoutField : Type 0 where
  pub id : ℕ
  pub name : Text
  pub flags : Flags
  pub attrs : Attrs

-- The classes of the nodes, with what each adds to `LayoutNode`.
pub data Kind : Type 0 where
  plain : Kind
  box : Kind
  form : Kind
  columns : List LayoutField → Kind
  fieldbox : List LayoutField → Kind

-- `LayoutNode`; the child nodes have a list type of their own.
mutual
  pub data LayoutNode : Type 0 where
    node :
        (kind : Kind)
        → (tag : Text) → (attrs : Attrs) → (flags : Flags) → (nodes : Nodes) → LayoutNode

  pub data Nodes : Type 0 where
    end : Nodes
    next : LayoutNode → Nodes → Nodes

-- `LayoutField::clone`, and the loops over the fields.
abbrev pub clone_field : LayoutField → LayoutField
clone_field f = record { id = f.id; name = f.name; flags = f.flags; attrs = f.attrs }

unfoldable pub clone_fields : List LayoutField → List LayoutField
clone_fields [] = []
clone_fields (f ∷ fs) = clone_field f ∷ clone_fields fs

unfoldable pub clone_kind : Kind → Kind
clone_kind plain = plain
clone_kind box = box
clone_kind form = form
clone_kind (columns fs) = columns (clone_fields fs)
clone_kind (fieldbox fs) = fieldbox (clone_fields fs)

-- The copy constructors behind `clone`.
unfoldable mutual
  pub clone : LayoutNode → LayoutNode
  clone (node k tag attrs flags ns) = node (clone_kind k) tag attrs flags (clone_nodes ns)

  pub clone_nodes : Nodes → Nodes
  clone_nodes end = end
  clone_nodes (next n ns) = next (clone n) (clone_nodes ns)

-- The field that a child of a list or of a fieldbox turns into. The id keeps its default.
abbrev pub field_of : LayoutNode → LayoutField
field_of (node k tag attrs flags ns) = record { id = 0; name = tag; flags = flags; attrs = attrs }

unfoldable pub fields_of : Nodes → List LayoutField
fields_of end = []
fields_of (next n ns) = field_of n ∷ fields_of ns

abbrev pub is_text : Text → Text → Bool
is_text a b = ite (text_dec a b) true false

-- The chain of tests on the tag, over the children that are transformed already. `tag` is a reference
-- to the string that is moved from before the last test of it, which libstdc++ leaves empty: that
-- test holds always, and the children are moved into every new node.
unfoldable pub by_tag : Kind → Text → Attrs → Flags → Nodes → LayoutNode
by_tag k tag attrs flags ns =
    ite (text_dec tag (codes "list")) (node (columns (fields_of ns)) tag attrs flags ns) (
      ite (text_dec tag (codes "fieldbox")) (node (fieldbox (fields_of ns)) tag attrs flags ns) (
        ite (text_dec tag (codes "form")) (node form tag attrs flags ns) (
          ite (text_dec tag (codes "hbox")) (node box tag attrs flags ns) (
            ite (text_dec tag (codes "vbox")) (node box tag attrs flags ns) (
              ite (text_dec tag (codes "tabbox")) (node box tag attrs flags ns)
                (node k tag attrs flags ns))))))

-- `transform_node`, which treats the children first.
unfoldable mutual
  pub transform_node : LayoutNode → LayoutNode
  transform_node (node k tag attrs flags ns) = by_tag k tag attrs flags (transform_nodes ns)

  pub transform_nodes : Nodes → Nodes
  transform_nodes end = end
  transform_nodes (next n ns) = next (transform_node n) (transform_nodes ns)
