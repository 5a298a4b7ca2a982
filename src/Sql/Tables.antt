-- ===== src/Sql/Tables.antt =====
-- SqlGenius.h: the tables that a statement uses, as the map that the joins are made from.
use kyzddfer.Base.{◌≡◌, ◌≢◌, refl, subst, true, false, List, [], ◌∷◌, All, if_cases}
use kyzddfer.Base.Order.{text_lt, text_lt_irrefl, text_lt_trans}
use kyzddfer.Base.Text.{Text, codes, text_dec}
use kyzddfer.Sql.Model.{QTable, master, child, alias, is_master, RField, Filter, Sort}
use kyzddfer.Sql.Select.{Used, emplace, add_table, add_fields, add_filters, add_sorts, erase_used}

-- Strictly ascending aliases, as in the code's map, each with its table.
abbrev pub Below : Text → Used → Type 0
Below a = All (λ p. text_lt a p.0 ≡ true)

abbrev pub IsTableMap : Used → Type 0
IsTableMap [] = Unit
IsTableMap (p ∷ u) = (p.0 ≡ alias p.1) × Below p.0 u × IsTableMap u

Below-trans : (a b : Text) (u : Used) → text_lt a b ≡ true → Below b u → Below a u
Below-trans a b [] h k = tt
Below-trans a b ((c, q) ∷ u) h k = (text_lt_trans a b c h k.0, Below-trans a b u h k.1)

Below-emplace :
    (a : Text) (q : QTable) (u : Used)
    → text_lt a (alias q) ≡ true
    → Below a u
    → Below a (emplace q u)
unfolding emplace
Below-emplace a q [] h k = (h, tt)
Below-emplace a q ((b, p) ∷ u) h k =
    if_cases (Below a) (text_lt (alias q) b) _ _ (λ _. (h, k))
      λ _.
        if_cases (Below a) (text_lt b (alias q)) _ _ (λ _. (k.0, Below-emplace a q u h k.1))
          (λ _. k)

pub emplace-IsTableMap : (q : QTable) (u : Used) → IsTableMap u → IsTableMap (emplace q u)
unfolding emplace
emplace-IsTableMap q [] h = (refl, tt, tt)
emplace-IsTableMap q ((b, p) ∷ u) h =
    if_cases IsTableMap (text_lt (alias q) b) _ _
      (λ lt. (refl, (lt, Below-trans (alias q) b u lt h.1), h))
      λ _.
        if_cases IsTableMap (text_lt b (alias q)) _ _
          (λ gt. (h.0, Below-emplace b q u gt h.1, emplace-IsTableMap q u h.2)) (λ _. h)

add_table-IsTableMap : (q : QTable) (u : Used) → IsTableMap u → IsTableMap (add_table q u)
unfolding add_table
add_table-IsTableMap (master t) u h = emplace-IsTableMap (master t) u h
add_table-IsTableMap (child a t parent fk) u h =
    add_table-IsTableMap parent _ (emplace-IsTableMap (child a t parent fk) u h)

pub add_fields-IsTableMap :
    (rs : List RField) (u : Used) → IsTableMap u → IsTableMap (add_fields rs u)
unfolding add_fields
add_fields-IsTableMap [] u h = h
add_fields-IsTableMap (r ∷ rs) u h = add_fields-IsTableMap rs _ (add_table-IsTableMap r.pqt u h)

pub add_filters-IsTableMap :
    (fs : List Filter) (u : Used) → IsTableMap u → IsTableMap (add_filters fs u)
unfolding add_filters
add_filters-IsTableMap [] u h = h
add_filters-IsTableMap (f ∷ fs) u h =
    add_filters-IsTableMap fs _ (add_table-IsTableMap f.rfield.pqt u h)

pub add_sorts-IsTableMap : (ss : List Sort) (u : Used) → IsTableMap u → IsTableMap (add_sorts ss u)
unfolding add_sorts
add_sorts-IsTableMap [] u h = h
add_sorts-IsTableMap (s ∷ ss) u h =
    add_sorts-IsTableMap ss _ (add_table-IsTableMap s.rfield.pqt u h)

-- Tables that a join can add, under their aliases.
abbrev pub AllChildren : Used → Type 0
AllChildren = All (λ p. (p.0 ≡ alias p.1) × (is_master p.1 ≡ false))

pub erase_used-AllChildren : (a : Text) (u : Used) → AllChildren u → AllChildren (erase_used a u)
unfolding erase_used
erase_used-AllChildren a [] h = tt
erase_used-AllChildren a ((b, q) ∷ u) h =
    elim (text_dec b a)
      as (λ d. AllChildren (elim d [ yes _ ↦ u | no _ ↦ (b, q) ∷ erase_used a u ])) [
        | yes p ↦ h.1
        | no p ↦ (h.0, erase_used-AllChildren a u h.1)
      ]

child_entry :
    (b : Text) (q : QTable)
    → b ≡ alias q
    → b ≢ codes "master"
    → (b ≡ alias q) × (is_master q ≡ false)
child_entry b (master t) e n = absurd (n e)
child_entry b (child a t parent fk) e n = (e, refl)

above_master : (u : Used) → IsTableMap u → Below (codes "master") u → AllChildren u
above_master [] h k = tt
above_master ((b, q) ∷ u) h k =
    (child_entry b q h.0 (λ e. cc (e, k.0, text_lt_irrefl b)), above_master u h.2 k.1)

-- Without the model's own table, only tables to join are left.
pub erase_master-AllChildren :
    (u : Used) → IsTableMap u → AllChildren (erase_used (codes "master") u)
unfolding erase_used
erase_master-AllChildren [] h = tt
erase_master-AllChildren ((b, q) ∷ u) h =
    elim (text_dec b (codes "master"))
      as (λ d. AllChildren (elim d [ yes _ ↦ u | no _ ↦ (b, q) ∷ erase_used (codes "master") u ])) [
        | yes p ↦ above_master u h.2 (subst (λ c. Below c u) p h.1)
        | no p ↦ (child_entry b q h.0 p, erase_master-AllChildren u h.2)
      ]
