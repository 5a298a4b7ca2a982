-- ===== src/Schema/Aliases.antt =====
-- rack.cpp: the tables that `getQField` creates have aliases of their own, in all models together.
use kyzddfer.Base.{
  ℕ, suc, ◌+◌, ◌≤◌, ◌≡◌, refl, ap, subst, ◌&&◌, Option, none, some, Option-cases, inl, inr, List,
  [], ◌∷◌, ◌++◌, ltb, leb, if◌then◌else◌, count, count-append, arith, if_pos, if_neg, ℕ_discrete,
}
use kyzddfer.Base.Assoc.{lookup}
use kyzddfer.Base.Text.{Text, text_dec}
use kyzddfer.Sql.Model.{QTable}
use kyzddfer.Schema.{
  Table, Tables, QNode, QNodes, node, end, entry, find_node, put_node, Lookup, get_or_create,
  ref_table, as_child, put_back, get_in_table,
}

-- The numbers of the tables below a model, each with those below it.
unfoldable mutual
  pub numbers : QNode → List ℕ
  numbers (node k t fs qs) = k ∷ numbers_in qs

  pub numbers_in : QNodes → List ℕ
  numbers_in end = []
  numbers_in (entry j q qs) = numbers q ++ numbers_in qs

abbrev pub copies : ℕ → List ℕ → ℕ
copies = count ℕ_discrete

-- One for a number that is drawn from here up to there.
abbrev pub drawn : ℕ → ℕ → ℕ → ℕ
drawn v from to = if leb from v && ltb v to then 1 else 0

copies-put_old :
    (v : ℕ) (name : Text) (p q : QNode) (qs : QNodes)
    → find_node name qs ≡ some p
    → copies v (numbers_in (put_node name q qs)) + copies v (numbers p)
      ≡ copies v (numbers_in qs) + copies v (numbers q)
unfolding numbers find_node put_node
copies-put_old v name p q end e = cc
copies-put_old v name p q (entry j r qs) e = elim (text_dec j name) [
  | yes same ↦
      let is : r ≡ p = ground arith in
      rw (if_pos (text_dec j name) same) (
        omega (
          arith,
          ap (λ x. copies v (numbers x)) is,
          count-append ℕ_discrete v (numbers q) (numbers_in qs),
          count-append ℕ_discrete v (numbers r) (numbers_in qs),
        ))
  | no other ↦
      let rest : find_node name qs ≡ some p = ground arith in
      rw (if_neg (text_dec j name) other) (
        omega (
          arith,
          copies-put_old v name p q qs rest,
          count-append ℕ_discrete v (numbers r) (numbers_in (put_node name q qs)),
          count-append ℕ_discrete v (numbers r) (numbers_in qs),
        ))
]

copies-put_new :
    (v : ℕ) (name : Text) (q : QNode) (qs : QNodes)
    → find_node name qs ≡ none
    → copies v (numbers_in (put_node name q qs)) ≡ copies v (numbers_in qs) + copies v (numbers q)
unfolding numbers find_node put_node
copies-put_new v name q end e = ground (arith, count-append ℕ_discrete v (numbers q) [])
copies-put_new v name q (entry j r qs) e = elim (text_dec j name) [
  | yes same ↦ ground arith
  | no other ↦
      let rest : find_node name qs ≡ none = ground arith in
      rw (if_neg (text_dec j name) other) (
        omega (
          arith,
          copies-put_new v name q qs rest,
          count-append ℕ_discrete v (numbers r) (numbers_in (put_node name q qs)),
          count-append ℕ_discrete v (numbers r) (numbers_in qs),
        ))
]

-- A lookup takes numbers from the counter, each of them once, and gives none away.
abbrev pub Draws : QNode → ℕ → Option Lookup → Type 0
Draws q n none = Unit
Draws q n (some l) =
    (n ≤ l.next) × ((v : ℕ) → copies v (numbers l.at) ≤ copies v (numbers q) + drawn v n l.next)

drawn_first : (v n to : ℕ) → suc n ≤ to → copies v (n ∷ []) + drawn v (n + 1) to ≤ drawn v n to
unfolding count ℕ_discrete
drawn_first v n to h = ground arith

put_node-Draws :
    (name : Text) (n : ℕ) (r : Table) (qs : QNodes) (l : Lookup)
    → Draws (get_or_create name r qs n).0 (get_or_create name r qs n).1 (some l)
    → (n ≤ l.next)
      × ((v : ℕ)
          → copies v (numbers_in (put_node name l.at qs))
            ≤ copies v (numbers_in qs) + drawn v n l.next)
unfolding get_or_create numbers
put_node-Draws name n r qs l h = elim (Option-cases (find_node name qs)) [
  | inl new ↦
      let h' : Draws (node n r [] end) (n + 1) (some l) =
        subst (λ o. Draws (made o).0 (made o).1 (some l)) new h in
      (
        omega (arith, h'.0),
        λ v. omega (
          arith,
          copies-put_new v name l.at qs new,
          h'.1 v,
          drawn_first v n l.next (omega (arith, h'.0)),
        ),
      )
  | inr (q, old) ↦
      let h' : Draws q n (some l) = subst (λ o. Draws (made o).0 (made o).1 (some l)) old h in
      (h'.0, λ v. omega (arith, copies-put_old v name q l.at qs old, h'.1 v))
]
  where
    made : Option QNode → QNode × ℕ
    made none = (node n r [] end, n + 1)
    made (some q) = (q, n)

put_back-Draws :
    (name : Text) (number n : ℕ) (t r : Table) (fs : List Text) (qs : QNodes) (l : Option Lookup)
    → Draws (get_or_create name r qs n).0 (get_or_create name r qs n).1 l
    → Draws (node number t fs qs) n (put_back name number t fs qs l)
unfolding put_back numbers count ℕ_discrete
put_back-Draws name number n t r fs qs none h = tt
put_back-Draws name number n t r fs qs (some l) h =
    let below = put_node-Draws name n r qs l h in (below.0, λ v. ground (arith, below.1 v))

pub get_in_table-Draws :
    (tables : Tables) (parts : List Text) (this : QTable) (q : QNode) (n : ℕ)
    → Draws q n (get_in_table tables parts this q n)
unfolding get_in_table numbers
get_in_table-Draws tables [] this q n = tt
get_in_table-Draws tables (name ∷ []) this (node number t fs qs) n =
    elim (Option-cases (lookup text_dec name t.fields)) [
      | inl e ↦ rw (e, get_in_table) tt
      | inr (f, e) ↦ rw (e, get_in_table) (omega arith, λ v. omega arith)
    ]
get_in_table-Draws tables (name ∷ p ∷ parts) this (node number t fs qs) n =
    elim (Option-cases (lookup text_dec name t.fields)) [
      | inl e ↦ rw (e, get_in_table) tt
      | inr (f, e) ↦ elim (Option-cases (ref_table tables f)) [
        | inl k ↦ rw (e, get_in_table) (rw (k, get_in_table) tt)
        | inr (r, k) ↦
            let made = get_or_create name r qs n in
            rw (e, get_in_table)
              (rw (k, get_in_table)
                (put_back-Draws name number n t r fs qs _
                  (get_in_table-Draws tables (p ∷ parts) (as_child this f made.0) made.0 made.1)))
      ]
    ]

-- The table that is asked keeps its number.
abbrev pub number_of : QNode → ℕ
number_of (node k t fs qs) = k

abbrev pub Keeps : QNode → Option Lookup → Type 0
Keeps q none = Unit
Keeps q (some l) = number_of l.at ≡ number_of q

put_back-Keeps :
    (name : Text) (number : ℕ) (t : Table) (fs : List Text) (qs : QNodes) (l : Option Lookup)
    → Keeps (node number t fs qs) (put_back name number t fs qs l)
unfolding put_back
put_back-Keeps name number t fs qs none = tt
put_back-Keeps name number t fs qs (some l) = refl

pub get_in_table-Keeps :
    (tables : Tables) (parts : List Text) (this : QTable) (q : QNode) (n : ℕ)
    → Keeps q (get_in_table tables parts this q n)
unfolding get_in_table
get_in_table-Keeps tables [] this q n = tt
get_in_table-Keeps tables (name ∷ []) this (node number t fs qs) n =
    elim (Option-cases (lookup text_dec name t.fields)) [
      | inl e ↦ rw (e, get_in_table) tt
      | inr (f, e) ↦ rw (e, get_in_table) refl
    ]
get_in_table-Keeps tables (name ∷ p ∷ parts) this (node number t fs qs) n =
    elim (Option-cases (lookup text_dec name t.fields)) [
      | inl e ↦ rw (e, get_in_table) tt
      | inr (f, e) ↦ elim (Option-cases (ref_table tables f)) [
        | inl k ↦ rw (e, get_in_table) (rw (k, get_in_table) tt)
        | inr (r, k) ↦
            rw (e, get_in_table) (rw (k, get_in_table) (put_back-Keeps name number t fs qs _))
      ]
    ]
