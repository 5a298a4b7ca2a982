-- ===== src/Schema/Below.antt =====
-- rack.cpp: the tables below a model's own, as the lookups that pass them make them, and their aliases.
use kyzddfer.Base.{
  ℕ, ◌+◌, ◌≤◌, ◌≡◌, refl, ap, Option, none, some, Option-cases, inl, inr, List, [], ◌∷◌, ◌++◌, map,
  count, arith,
}
use kyzddfer.Base.Assoc.{lookup}
use kyzddfer.Base.Text.{Text, text_dec}
use kyzddfer.Types.{Field}
use kyzddfer.Sql.Model.{QTable, alias, next_alias}
use kyzddfer.Schema.{Table, QNode, QNodes, node, end, entry, as_child}
use kyzddfer.Schema.Aliases.{numbers, numbers_in, number_of}

-- The tables below a model's own, whose alias is `master`.
abbrev pub below : QNode → List ℕ
below (node k t fs qs) = numbers_in qs

-- The tables below one, as a lookup that passes them makes them, by the fields that refer to them.
unfoldable mutual
  pub qtables : QTable → QNode → List QTable
  qtables this (node k t fs qs) = qtables_in this t qs

  pub qtables_in : QTable → Table → QNodes → List QTable
  qtables_in this t end = []
  qtables_in this t (entry j q qs) =
      let rest = qtables_in this t qs in
      elim (lookup text_dec j t.fields) [
        | none ↦ rest
        | some f ↦ as_child this f q ∷ (qtables (as_child this f q) q ++ rest)
      ]

abbrev pub uses : Text → List QTable → ℕ
uses a qs = count text_dec a (map alias qs)

abbrev pub holds : Text → List ℕ → ℕ
holds a ns = count text_dec a (map next_alias ns)

pub uses-append : (a : Text) (ps qs : List QTable) → uses a (ps ++ qs) ≡ uses a ps + uses a qs
unfolding count
uses-append a [] qs = omega arith
uses-append a (p ∷ ps) qs = ground (arith, uses-append a ps qs)

pub holds-append : (a : Text) (ms ns : List ℕ) → holds a (ms ++ ns) ≡ holds a ms + holds a ns
unfolding count
holds-append a [] ns = omega arith
holds-append a (m ∷ ms) ns = ground (arith, holds-append a ms ns)

alias-as_child :
    (this : QTable) (f : Field) (q : QNode) → alias (as_child this f q) ≡ next_alias (number_of q)
alias-as_child this f (node k t fs qs) = refl

uses-first :
    (a : Text) (p : QTable) (ps qs : List QTable)
    → uses a (p ∷ (ps ++ qs)) ≡ uses a (p ∷ []) + uses a ps + uses a qs
unfolding count
uses-first a p ps qs = ground (arith, uses-append a ps qs)

holds-numbers :
    (a : Text) (q : QNode) → holds a (numbers q) ≡ holds a (number_of q ∷ []) + holds a (below q)
unfolding numbers count
holds-numbers a (node k t fs qs) = ground arith

qtables_in-none :
    (this : QTable) (t : Table) (j : Text) (q : QNode) (qs : QNodes)
    → lookup text_dec j t.fields ≡ none
    → qtables_in this t (entry j q qs) ≡ qtables_in this t qs
unfolding qtables
qtables_in-none this t j q qs e =
    ap
      (λ (o : Option Field). elim o [
        | none ↦ qtables_in this t qs
        | some f ↦ as_child this f q ∷ (qtables (as_child this f q) q ++ qtables_in this t qs)
      ])
      e

qtables_in-some :
    (this : QTable) (t : Table) (f : Field) (j : Text) (q : QNode) (qs : QNodes)
    → lookup text_dec j t.fields ≡ some f
    → qtables_in this t (entry j q qs)
      ≡ as_child this f q ∷ (qtables (as_child this f q) q ++ qtables_in this t qs)
unfolding qtables
qtables_in-some this t f j q qs e =
    ap
      (λ (o : Option Field). elim o [
        | none ↦ qtables_in this t qs
        | some f ↦ as_child this f q ∷ (qtables (as_child this f q) q ++ qtables_in this t qs)
      ])
      e

no_uses : (a : Text) → uses a [] ≤ holds a []
unfolding count
no_uses a = omega arith

mutual
  unfolding qtables numbers

  pub uses-qtables :
      (a : Text) (this : QTable) (q : QNode) → uses a (qtables this q) ≤ holds a (below q)
  uses-qtables a this (node k t fs qs) = uses-qtables_in a this t qs

  uses-qtables_in :
      (a : Text) (this : QTable) (t : Table) (qs : QNodes)
      → uses a (qtables_in this t qs) ≤ holds a (numbers_in qs)
  uses-qtables_in a this t end = no_uses a
  uses-qtables_in a this t (entry j q qs) = elim (Option-cases (lookup text_dec j t.fields)) [
    | inl e ↦ omega (
      arith,
      ap (uses a) (qtables_in-none this t j q qs e),
      holds-append a (numbers q) (numbers_in qs),
      uses-qtables_in a this t qs,
    )
    | inr (f, e) ↦ omega (
      arith,
      ap (uses a) (qtables_in-some this t f j q qs e),
      uses-first a (as_child this f q) (qtables (as_child this f q) q) (qtables_in this t qs),
      ap (λ b. count text_dec a (b ∷ [])) (alias-as_child this f q),
      holds-numbers a q,
      holds-append a (numbers q) (numbers_in qs),
      uses-qtables a (as_child this f q) q,
      uses-qtables_in a this t qs,
    )
  ]
