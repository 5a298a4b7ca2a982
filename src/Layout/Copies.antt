-- ===== src/Layout/Copies.antt =====
-- rack.h and rack.cpp: a copied node is the node that was copied, at any depth; a copied layout is
-- not quite the layout.
use kyzddfer.Base.{◌≡◌, refl, ap, Option, none, some, List, [], ◌∷◌}
use kyzddfer.Base.Text.{Text}
use kyzddfer.Layout.Choice.{Layout}
use kyzddfer.Layout.{
  LayoutField, Kind, plain, box, form, columns, fieldbox, LayoutNode, Nodes, node, end, next,
  clone_fields, clone_kind, clone, clone_nodes,
}

clone_fields-same : (fs : List LayoutField) → clone_fields fs ≡ fs
unfolding clone_fields
clone_fields-same [] = refl
clone_fields-same (f ∷ fs) = ap (◌∷◌ f) (clone_fields-same fs)

clone_kind-same : (k : Kind) → clone_kind k ≡ k
unfolding clone_kind
clone_kind-same plain = refl
clone_kind-same box = refl
clone_kind-same form = refl
clone_kind-same (columns fs) = ap columns (clone_fields-same fs)
clone_kind-same (fieldbox fs) = ap fieldbox (clone_fields-same fs)

mutual
  unfolding clone

  clone_node-same : (n : LayoutNode) → clone n ≡ n
  clone_node-same (node k tag attrs flags ns) = rw (clone_kind-same k, clone_nodes-same ns) refl

  clone_nodes-same : (ns : Nodes) → clone_nodes ns ≡ ns
  clone_nodes-same end = refl
  clone_nodes-same (next n ns) = rw (clone_node-same n, clone_nodes-same ns) refl

-- Cloning a node loses nothing: the kind, the fields and every node below it are the same.
pub clone-same : (n : LayoutNode) → clone n ≡ n
clone-same n = clone_node-same n

-- The copy constructor of `Layout`, which does not set `qmodel`, and the assignment, which leaves it.
unfoldable pub clone_root : Option LayoutNode → Option LayoutNode
clone_root none = none
clone_root (some n) = some (clone n)

unfoldable pub copy : Option Text → Layout → Layout
unfolding clone_root
copy garbage other = record {
  name = other.name;
  qmodel = garbage;
  pri = other.pri;
  media = other.media;
  usage = other.usage;
  flags = other.flags;
  attrs = other.attrs;
  root_node = clone_root other.root_node;
}

unfoldable pub assign : Layout → Layout → Layout
unfolding copy
assign this other = copy this.qmodel other

clone_root-same : (o : Option LayoutNode) → clone_root o ≡ o
unfolding clone_root
clone_root-same none = refl
clone_root-same (some n) = ap (λ (m : LayoutNode). some m) (clone-same n)

-- A copy and an assigned layout have all of the other one but its model.
pub copy_lem :
    (garbage : Option Text) (this other : Layout)
    → (copy garbage other ≡ record other { qmodel = garbage })
      × (assign this other ≡ record other { qmodel = this.qmodel })
unfolding assign
copy_lem garbage this other =
    let root = clone_root-same other.root_node in
    (
      ap (λ (o : Option LayoutNode). record other { qmodel = garbage; root_node = o }) root,
      ap (λ (o : Option LayoutNode). record other { qmodel = this.qmodel; root_node = o }) root,
    )
