-- ===== src/Layout/Shape.antt =====
-- finalize.cpp: what `transform_node` makes of the nodes of a layout.
use kyzddfer.Base.{◌≡◌, ◌≢◌, refl, ap, inl, inr, List, [], ◌∷◌, if_pos, if_neg, ◌⊎◌}
use kyzddfer.Base.Text.{Text, codes, text_dec}
use kyzddfer.Parts.{Flags}
use kyzddfer.Layout.{
  Attrs, LayoutField, Kind, plain, box, form, columns, fieldbox, LayoutNode, Nodes, node, end, next,
  fields_of, by_tag, transform_node, transform_nodes,
}

-- A layout as the parser leaves it: no node has a kind.
abbrev mutual
  pub IsParsed : LayoutNode → Type 0
  IsParsed (node k tag attrs flags ns) = (k ≡ plain) × AreParsed ns

  pub AreParsed : Nodes → Type 0
  AreParsed end = Unit
  AreParsed (next n ns) = IsParsed n × AreParsed ns

-- The layout without the kinds.
unfoldable mutual
  pub erase : LayoutNode → LayoutNode
  erase (node k tag attrs flags ns) = node plain tag attrs flags (erase_nodes ns)

  pub erase_nodes : Nodes → Nodes
  erase_nodes end = end
  erase_nodes (next n ns) = next (erase n) (erase_nodes ns)

-- The kind that a tag asks for.
abbrev pub Fits : Kind → Text → Type 0
Fits plain tag =
    (tag ≢ codes "list")
    × (tag ≢ codes "fieldbox")
    × (tag ≢ codes "form")
    × (tag ≢ codes "hbox")
    × (tag ≢ codes "vbox")
    × (tag ≢ codes "tabbox")
Fits box tag = (tag ≡ codes "hbox") ⊎ ((tag ≡ codes "vbox") ⊎ (tag ≡ codes "tabbox"))
Fits form tag = tag ≡ codes "form"
Fits (columns fs) tag = tag ≡ codes "list"
Fits (fieldbox fs) tag = tag ≡ codes "fieldbox"

-- The field of each child, with the child's tag as its name.
abbrev pub AreFields : List LayoutField → Nodes → Type 0
AreFields [] end = Unit
AreFields [] (next n ns) = ⊥
AreFields (f ∷ fs) end = ⊥
AreFields (f ∷ fs) (next (node k tag attrs flags ms) ns) =
    (f ≡ record { id = 0; name = tag; flags = flags; attrs = attrs }) × AreFields fs ns

-- Columns and field boxes have a field for each of their nodes.
abbrev pub Holds : Kind → Nodes → Type 0
Holds plain ns = Unit
Holds box ns = Unit
Holds form ns = Unit
Holds (columns fs) ns = AreFields fs ns
Holds (fieldbox fs) ns = AreFields fs ns

fields_of-AreFields : (ns : Nodes) → AreFields (fields_of ns) ns
unfolding fields_of
fields_of-AreFields end = tt
fields_of-AreFields (next (node k tag attrs flags ms) ns) = (refl, fields_of-AreFields ns)

abbrev mutual
  pub IsFinal : LayoutNode → Type 0
  IsFinal (node k tag attrs flags ns) = Fits k tag × Holds k ns × AreFinal ns

  pub AreFinal : Nodes → Type 0
  AreFinal end = Unit
  AreFinal (next n ns) = IsFinal n × AreFinal ns

module _ (tag : Text) (attrs : Attrs) (flags : Flags) where
  -- The branches of the tests on the tag, for a node of the parser.
  by_tag-cases :
      (P : LayoutNode → Type 0) (ns : Nodes)
      → (tag ≡ codes "list" → P (node (columns (fields_of ns)) tag attrs flags ns))
      → (tag ≡ codes "fieldbox" → P (node (fieldbox (fields_of ns)) tag attrs flags ns))
      → ((j : Kind) → Fits j tag → Holds j ns → P (node j tag attrs flags ns))
      → P (by_tag plain tag attrs flags ns)
  unfolding by_tag
  by_tag-cases P ns f g h = elim (text_dec tag (codes "list")) [
    | yes a ↦ rw (if_pos (text_dec tag (codes "list")) a) (f a)
    | no a ↦ rw (if_neg (text_dec tag (codes "list")) a) (elim (text_dec tag (codes "fieldbox")) [
      | yes b ↦ rw (if_pos (text_dec tag (codes "fieldbox")) b) (g b)
      | no b ↦ rw (if_neg (text_dec tag (codes "fieldbox")) b) (elim (text_dec tag (codes "form")) [
        | yes c ↦ rw (if_pos (text_dec tag (codes "form")) c) (h form c tt)
        | no c ↦ rw (if_neg (text_dec tag (codes "form")) c) (elim (text_dec tag (codes "hbox")) [
          | yes d ↦ rw (if_pos (text_dec tag (codes "hbox")) d) (h box (inl d) tt)
          | no d ↦ rw (if_neg (text_dec tag (codes "hbox")) d) (elim (text_dec tag (codes "vbox")) [
            | yes e ↦ rw (if_pos (text_dec tag (codes "vbox")) e) (h box (inr (inl e)) tt)
            | no e ↦
                rw (if_neg (text_dec tag (codes "vbox")) e) (elim (text_dec tag (codes "tabbox")) [
                  | yes z ↦ rw (if_pos (text_dec tag (codes "tabbox")) z) (h box (inr (inr z)) tt)
                  | no z ↦
                      rw (if_neg (text_dec tag (codes "tabbox")) z) (h plain (a, b, c, d, e, z) tt)
                ])
          ])
        ])
      ])
    ])
  ]

mutual
  unfolding transform_node

  transform_node-IsFinal : (n : LayoutNode) → IsParsed n → IsFinal (transform_node n)
  transform_node-IsFinal (node k tag attrs flags ns) p =
      let final = transform_nodes-final ns p.1 in
      rw p.0 (
        by_tag-cases tag attrs flags IsFinal (transform_nodes ns)
          (λ a. (a, fields_of-AreFields (transform_nodes ns), final))
          (λ b. (b, fields_of-AreFields (transform_nodes ns), final)) (λ j f g. (f, g, final)))

  transform_nodes-final : (ns : Nodes) → AreParsed ns → AreFinal (transform_nodes ns)
  transform_nodes-final end p = tt
  transform_nodes-final (next n ns) p = (transform_node-IsFinal n p.0, transform_nodes-final ns p.1)

mutual
  unfolding transform_node erase

  erase-transform_node : (n : LayoutNode) → IsParsed n → erase (transform_node n) ≡ n
  erase-transform_node (node k tag attrs flags ns) p =
      let same = ap (λ ms. node plain tag attrs flags ms) (erase-transform_nodes ns p.1) in
      rw p.0 (
        by_tag-cases tag attrs flags (λ n. erase n ≡ node plain tag attrs flags ns)
          (transform_nodes ns) (λ a. same) (λ b. same) (λ j f g. same))

  erase-transform_nodes : (ns : Nodes) → AreParsed ns → erase_nodes (transform_nodes ns) ≡ ns
  erase-transform_nodes end p = refl
  erase-transform_nodes (next n ns) p =
      rw (erase-transform_node n p.0, erase-transform_nodes ns p.1) refl

-- Every node of a parsed layout, at any depth, gets the kind that its tag asks for, a list or a field
-- box a field for each of its children, and the children stay in the node, also in a list or a field
-- box: without the kinds, the layout is what the parser left.
pub transform_node_lem :
    (n : LayoutNode) → IsParsed n → IsFinal (transform_node n) × (erase (transform_node n) ≡ n)
transform_node_lem n p = (transform_node-IsFinal n p, erase-transform_node n p)
