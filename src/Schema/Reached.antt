-- ===== src/Schema/Reached.antt =====
-- rack.cpp: `getQField` finds what a walk over the tables finds, whatever is in the caches.
use kyzddfer.Base.{
  ℕ, ◌≡◌, refl, ap, sym, subst, ◌∙◌, Option, none, some, Option-cases, inl, inr, List, [], ◌∷◌,
  ◌++◌, arith, append_assoc, if_pos, if_neg, All,
}
use kyzddfer.Base.Assoc.{lookup, insert, remove, remove-All, lookup-All}
use kyzddfer.Parts.{svparts}
use kyzddfer.Base.Text.{Text, text_dec}
use kyzddfer.Types.{Field}
use kyzddfer.Sql.Model.{QTable, master, child, table_name}
use kyzddfer.Schema.{
  Table, Tables, QNode, QNodes, node, end, entry, find_node, put_node, QField, Lookup,
  get_or_create, ref_table, as_child, put_back, get_in_table, table_of, QModel, cache_found,
  get_qfield,
}

-- A step of a walk: the name of the table that it is in then, and the field that it took.
abbrev pub Hop : Type 0
Hop = Text × Field

-- The fields that a dotted name passes, from a table: references up to the last, each with the table
-- that it refers to, and the last with its own table.
unfoldable pub resolve : Tables → Table → List Text → Option (List Hop)
resolve tables t [] = none
resolve tables t (name ∷ []) = elim (lookup text_dec name t.fields) [
  | none ↦ none
  | some f ↦ some ((t.name, f) ∷ [])
]
resolve tables t (name ∷ p ∷ parts) = elim (lookup text_dec name t.fields) [
  | none ↦ none
  | some f ↦ elim (ref_table tables f) [
    | none ↦ none
    | some r ↦ elim (resolve tables r (p ∷ parts)) [
      | none ↦ none
      | some fs ↦ some ((r.name, f) ∷ fs)
    ]
  ]
]

-- The references that a qualified table stands behind, with the tables that they refer to.
unfoldable pub path_of : QTable → List Hop
path_of (master t) = []
path_of (child a t parent fk) = path_of parent ++ (t, fk) ∷ []

abbrev pub trace : QField → List Hop
trace f = path_of f.pqt ++ (table_name f.pqt, f.pf) ∷ []

-- Each cached table is the one that the field of its name refers to.
abbrev mutual
  pub IsCached : Tables → QNode → Type 0
  IsCached tables (node k t fs qs) = AreCached tables t qs

  pub AreCached : Tables → Table → QNodes → Type 0
  AreCached tables t end = Unit
  AreCached tables t (entry j q qs) =
      ((f : Field) × (lookup text_dec j t.fields ≡ some f)
        × (ref_table tables f ≡ some (table_of q)))
      × IsCached tables q
      × AreCached tables t qs

-- A lookup against the walk.
abbrev pub Reaches : Tables → QTable → Table → Option (List Hop) → Option Lookup → Type 0
Reaches tables this t none none = Unit
Reaches tables this t none (some l) = ⊥
Reaches tables this t (some fs) none = ⊥
Reaches tables this t (some fs) (some l) =
    (trace l.found ≡ path_of this ++ fs) × (table_of l.at ≡ t) × IsCached tables l.at

module _ (tables : Tables) where
  find_node-IsCached :
      (name : Text) (t r : Table) (f : Field) (q : QNode) (qs : QNodes)
      → lookup text_dec name t.fields ≡ some f
      → ref_table tables f ≡ some r
      → AreCached tables t qs
      → find_node name qs ≡ some q
      → (table_of q ≡ r) × IsCached tables q
  unfolding find_node
  find_node-IsCached name t r f q end e k h found = cc
  find_node-IsCached name t r f q (entry j p qs) e k h found = elim (text_dec j name) [
    | yes same ↦
        let is : p ≡ q = ground arith in
        let (f', e', k') = h.0 in (cc (same, e, e', k, k', is), subst (IsCached tables) is h.1)
    | no other ↦
        let rest : find_node name qs ≡ some q = ground arith in
        find_node-IsCached name t r f q qs e k h.2 rest
  ]

  put_node-AreCached :
      (name : Text) (t : Table) (f : Field) (q : QNode) (qs : QNodes)
      → lookup text_dec name t.fields ≡ some f
      → ref_table tables f ≡ some (table_of q)
      → IsCached tables q
      → AreCached tables t qs
      → AreCached tables t (put_node name q qs)
  unfolding put_node
  put_node-AreCached name t f q end e k c h = ((f, e, k), c, tt)
  put_node-AreCached name t f q (entry j p qs) e k c h = elim (text_dec j name) [
    | yes same ↦ rw (if_pos _ same) ((f, ap (λ i. lookup text_dec i t.fields) same ∙ e, k), c, h.2)
    | no other ↦ rw (if_neg _ other) (h.0, h.1, put_node-AreCached name t f q qs e k c h.2)
  ]

  get_or_create-IsCached :
      (name : Text) (t r : Table) (f : Field) (qs : QNodes) (n : ℕ)
      → lookup text_dec name t.fields ≡ some f
      → ref_table tables f ≡ some r
      → AreCached tables t qs
      → (table_of (get_or_create name r qs n).0 ≡ r) × IsCached tables (get_or_create name r qs n).0
  unfolding get_or_create
  get_or_create-IsCached name t r f qs n e k h = elim (Option-cases (find_node name qs)) [
    | inl new ↦ rw (new, get_or_create) (refl, tt)
    | inr (q, old) ↦ rw (old, get_or_create) (find_node-IsCached name t r f q qs e k h old)
  ]

  as_child-name :
      (this : QTable) (f : Field) (q : QNode) → table_name (as_child this f q) ≡ (table_of q).name
  as_child-name this f (node number t fs qs) = refl

  -- The cases of one step.
  Reaches-step :
      (this : QTable) (name : Text) (number n : ℕ) (t : Table) (fs : List Text) (qs : QNodes)
      (f : Field) (q : QNode) (u : Table) (rest : Option (List Hop)) (l : Option Lookup)
      → lookup text_dec name t.fields ≡ some f
      → ref_table tables f ≡ some (table_of q)
      → table_of q ≡ u
      → AreCached tables t qs
      → Reaches tables (as_child this f q) (table_of q) rest l
      → Reaches tables this t
          (elim rest [ none ↦ none | some gs ↦ some ((u.name, f) ∷ gs) ])
          (put_back name number t fs qs l)
  unfolding put_back path_of
  Reaches-step this name number n t fs qs f q u none none e k is_u h r = tt
  Reaches-step this name number n t fs qs f q u none (some l) e k is_u h r = elim r [ ]
  Reaches-step this name number n t fs qs f q u (some gs) none e k is_u h r = elim r [ ]
  Reaches-step this name number n t fs qs f (node i c is cs) u (some gs) (some l) e k is_u h r = (
    r.0
        ∙ append_assoc (path_of this) ((c.name, f) ∷ []) gs
        ∙ ap (λ (t : Table). path_of this ++ (t.name, f) ∷ gs) is_u,
    refl,
    put_node-AreCached name t f l.at qs e (k ∙ ap some (sym r.1)) r.2 h,
  )

  get_in_table-Reaches :
      (parts : List Text) (this : QTable) (q : QNode) (n : ℕ)
      → table_name this ≡ (table_of q).name
      → IsCached tables q
      → Reaches tables this
          (table_of q)
          (resolve tables (table_of q) parts)
          (get_in_table tables parts this q n)
  unfolding resolve get_in_table
  get_in_table-Reaches [] this q n same h = tt
  get_in_table-Reaches (name ∷ []) this (node number t fs qs) n same h =
      elim (Option-cases (lookup text_dec name t.fields)) [
        | inl e ↦ rw (e, get_in_table, resolve) tt
        | inr (f, e) ↦
            rw (e, get_in_table, resolve) (ap (λ a. path_of this ++ (a, f) ∷ []) same, refl, h)
      ]
  get_in_table-Reaches (name ∷ p ∷ parts) this (node number t fs qs) n same h =
      elim (Option-cases (lookup text_dec name t.fields)) [
        | inl e ↦ rw (e, get_in_table, resolve) tt
        | inr (f, e) ↦ elim (Option-cases (ref_table tables f)) [
          | inl k ↦ rw (e, get_in_table, resolve) (rw (k, get_in_table, resolve) tt)
          | inr (r, k) ↦
              let made = get_or_create name r qs n in
              let (is, cached) = get_or_create-IsCached name t r f qs n e k h in
              let l = get_in_table tables (p ∷ parts) (as_child this f made.0) made.0 made.1 in
              let below =
                get_in_table-Reaches (p ∷ parts) (as_child this f made.0) made.0 made.1
                  (as_child-name this f made.0) cached in
              let walked : Reaches tables (as_child this f made.0) (table_of made.0)
                  (resolve tables r (p ∷ parts)) l =
                subst
                  (λ u.
                    Reaches tables (as_child this f made.0) (table_of made.0)
                      (resolve tables u (p ∷ parts)) l)
                  is below in
              rw (e, get_in_table, resolve)
                (rw (k, get_in_table, resolve)
                  (Reaches-step this name number n t fs qs f made.0 r (resolve tables r (p ∷ parts))
                    l e (k ∙ ap some (sym is)) is h walked))
        ]
      ]

-- What the caches of a model hold is what the walk finds.
pub record IsCoherent (tables : Tables) (m : QModel) : Type 0 where
  pub tree : IsCached tables m.root
  pub names :
      All
        (λ (p : Text × QField). resolve tables (table_of m.root) (svparts p.0) ≡ some (trace p.1))
        m.qfields

-- A call of `getQField` against the walk.
abbrev pub Finds : Tables → QModel → Option (List Hop) → Option (QField × QModel × ℕ) → Type 0
Finds tables m none none = Unit
Finds tables m none (some r) = ⊥
Finds tables m (some fs) none = ⊥
Finds tables m (some fs) (some (f, m', n)) = (trace f ≡ fs) × IsCoherent tables m'

Finds-new :
    (tables : Tables) (name : Text) (m : QModel) (walk : Option (List Hop)) (l : Option Lookup)
    → resolve tables (table_of m.root) (svparts name) ≡ walk
    → IsCoherent tables m
    → Reaches tables (master (table_of m.root).name) (table_of m.root) walk l
    → Finds tables m walk (cache_found name m l)
unfolding cache_found path_of insert
Finds-new tables name m none none e h r = tt
Finds-new tables name m none (some l) e h r = elim r [ ]
Finds-new tables name m (some fs) none e h r = elim r [ ]
Finds-new tables name m (some fs) (some l) e h r =
    let P = λ (t : Table) (p : Text × QField). resolve tables t (svparts p.0) ≡ some (trace p.1) in
    (
      r.0,
      record {
        tree = r.2;
        names =
            subst (λ t. All (P t) ((name, l.found) ∷ remove text_dec name m.qfields)) (sym r.1)
              (
                e ∙ ap some (sym r.0),
                remove-All text_dec (P (table_of m.root)) name m.qfields h.names,
              );
      },
    )

-- Over caches that hold what the walk finds, `getQField` finds what the walk over the tables finds:
-- the same references to the same tables, and the same field in the same table, or a failed assertion
-- where there is none. The caches then still hold what the walk finds.
pub get_qfield-Finds :
    (tables : Tables) (name : Text) (m : QModel) (n : ℕ)
    → IsCoherent tables m
    → Finds tables m (resolve tables (table_of m.root) (svparts name)) (get_qfield tables name m n)
unfolding get_qfield
get_qfield-Finds tables name m n h = elim (Option-cases (lookup text_dec name m.qfields)) [
  | inl new ↦
      rw (new, get_qfield)
        (Finds-new tables name m _ _ refl h (
          get_in_table-Reaches tables (svparts name) (master (table_of m.root).name) m.root n refl
            h.tree))
  | inr (f, old) ↦
      let known =
        lookup-All text_dec
          (λ (p : Text × QField). resolve tables (table_of m.root) (svparts p.0) ≡ some (trace p.1))
          name f m.qfields h.names old in
      rw (old, get_qfield) (rw known (refl, h))
]
