-- ===== src/Sql/JoinLoop.antt =====
-- SqlGenius.h: the loop of `sql_clause_from` ends, with no table left.
use kyzddfer.Base.{
  ℕ, zero, suc, ◌≤◌, ◌<◌, ◌≡◌, refl, ap, subst, ◌∙◌, ◌⊎◌, inl, inr, true, false, List, [], ◌∷◌,
  length, arith, if_cases, if◌then◌else◌,
}
use kyzddfer.Base.Text.{Text}
use kyzddfer.Types.{Field}
use kyzddfer.Sql.Piece.{Params}
use kyzddfer.Sql.Model.{QTable, master, child, alias, is_master, RField, Filter, Sort, RecordView}
use kyzddfer.Sql.Select.{
  Used, emplace, add_filters, add_sorts, erase_used, is_used, Joins, emit_join, build_joins,
  join_loop, from_clause, used_by,
}
use kyzddfer.Sql.Joins.{emit_join-used}
use kyzddfer.Sql.Tables.{
  AllChildren, emplace-IsTableMap, add_fields-IsTableMap, add_filters-IsTableMap,
  add_sorts-IsTableMap, erase_used-AllChildren, erase_master-AllChildren,
}

-- A table that is in use leaves the map when it is erased.
erase_used-length : (a : Text) (u : Used) → is_used a u ≡ true → length (erase_used a u) < length u
unfolding erase_used is_used
erase_used-length a [] h = ground arith
erase_used-length a ((b, q) ∷ u) h = ground (arith, erase_used-length a u)

is_used_self : (a : Text) (q : QTable) (u : Used) → is_used a ((a, q) ∷ u) ≡ true
unfolding is_used
is_used_self a q u = ground arith

-- The joins of one table leave the map as it is, or take tables from it.
abbrev Shrinks : Joins → Joins → Type 0
Shrinks st s = (s.used ≡ st.used) ⊎ (length s.used < length st.used)

emit_join-Shrinks :
    (rs : List RField) (a t : Text) (parent : QTable) (fk : Field) (st st' : Joins)
    → Shrinks st st'
    → is_used a st'.used ≡ true
    → Shrinks st (emit_join rs a t parent fk st')
emit_join-Shrinks rs a t parent fk st st' above used =
    let less = erase_used-length a st'.used used in
    rw (emit_join-used rs a t parent fk st') (elim above [
      | inl same ↦ inr (omega (arith, ap (length {0}) same))
      | inr fewer ↦ inr (omega arith)
    ])

build_joins-Shrinks :
    (rs : List RField) (q : QTable) (st : Joins) → Shrinks st (build_joins rs q st)
unfolding build_joins
build_joins-Shrinks rs (master t) st = inl refl
build_joins-Shrinks rs (child a t parent fk) st =
    let st' : Joins = if is_master parent then st else build_joins rs parent st in
    let above : Shrinks st st' =
      if_cases (Shrinks st) (is_master parent) _ _ (λ _. inl refl)
        (λ _. build_joins-Shrinks rs parent st) in
    if_cases (Shrinks st) (is_used a st'.used) _ _
      (λ used. emit_join-Shrinks rs a t parent fk st st' above used) (λ _. above)

build_joins-AllChildren :
    (rs : List RField) (q : QTable) (st : Joins)
    → AllChildren st.used
    → AllChildren (build_joins rs q st).used
unfolding build_joins
build_joins-AllChildren rs (master t) st h = h
build_joins-AllChildren rs (child a t parent fk) st h =
    let P = λ (s : Joins). AllChildren s.used in
    let st' : Joins = if is_master parent then st else build_joins rs parent st in
    let h' : P st' =
      if_cases P (is_master parent) _ _ (λ _. h) (λ _. build_joins-AllChildren rs parent st h) in
    if_cases P (is_used a st'.used) _ _
      (λ _. rw (emit_join-used rs a t parent fk st') (erase_used-AllChildren a st'.used h'))
      (λ _. h')

-- The round of a table that is in use takes at least that table.
build_joins_less :
    (rs : List RField) (q : QTable) (st : Joins)
    → is_master q ≡ false
    → is_used (alias q) st.used ≡ true
    → length (build_joins rs q st).used < length st.used
unfolding build_joins
build_joins_less rs (master t) st h used = cc
build_joins_less rs (child a t parent fk) st h used =
    let P = λ (s : Joins). length s.used < length st.used in
    let st' : Joins = if is_master parent then st else build_joins rs parent st in
    let above : Shrinks st st' =
      if_cases (Shrinks st) (is_master parent) _ _ (λ _. inl refl)
        (λ _. build_joins-Shrinks rs parent st) in
    elim above [
      | inl same ↦
          let used' : is_used a st'.used ≡ true = ap (is_used a) same ∙ used in
          if_cases P (is_used a st'.used) _ _
            (λ still.
              rw (emit_join-used rs a t parent fk st')
                (omega (arith, erase_used-length a st'.used still, ap (length {0}) same)))
            (λ gone. cc (used', gone))
      | inr less ↦
          if_cases P (is_used a st'.used) _ _
            (λ still.
              rw (emit_join-used rs a t parent fk st')
                (omega (arith, erase_used-length a st'.used still)))
            (λ _. less)
    ]

pub join_loop_done :
    (fuel : ℕ) (rs : List RField) (st : Joins) → st.used ≡ [] → join_loop (suc fuel) rs st ≡ st
unfolding join_loop
join_loop_done fuel rs st e = ground arith

pub join_loop_round :
    (fuel : ℕ) (rs : List RField) (st : Joins) (p : Text × QTable) (u : Used)
    → st.used ≡ p ∷ u
    → join_loop (suc fuel) rs st ≡ join_loop fuel rs (build_joins rs p.1 st)
unfolding join_loop
join_loop_round fuel rs st p u e = ground arith

pub List-cases : (u : Used) → (u ≡ []) ⊎ ((p : Text × QTable) × (v : Used) × (u ≡ p ∷ v))
List-cases [] = inl refl
List-cases (p ∷ u) = inr (p, u, refl)

pub join_loop-zero : (rs : List RField) (st : Joins) → join_loop zero rs st ≡ st
unfolding join_loop
join_loop-zero rs st = refl

nothing_left : (u : Used) → length u ≤ 0 → u ≡ []
nothing_left [] h = refl
nothing_left (p ∷ u) h = absurd (omega arith)

pub join_loop_ends :
    (fuel : ℕ) (rs : List RField) (st : Joins)
    → AllChildren st.used
    → length st.used ≤ fuel
    → (join_loop fuel rs st).used ≡ []
join_loop_ends zero rs st h le =
    ap (λ (s : Joins). s.used) (join_loop-zero rs st) ∙ nothing_left st.used le
join_loop_ends (suc fuel) rs st h le = elim (List-cases st.used) [
  | inl e ↦ ap (λ (s : Joins). s.used) (join_loop_done fuel rs st e) ∙ e
  | inr (p, u, e) ↦
      let first : AllChildren (p ∷ u) = subst AllChildren e h in
      let named : is_used (alias p.1) st.used ≡ true =
        ap (is_used (alias p.1)) e
        ∙ subst (λ a. is_used a (p ∷ u) ≡ true) first.0.0 (is_used_self p.0 p.1 u) in
      ap (λ (s : Joins). s.used) (join_loop_round fuel rs st p u e)
      ∙ join_loop_ends fuel rs (build_joins rs p.1 st) (build_joins-AllChildren rs p.1 st h)
          (omega (arith, build_joins_less rs p.1 st first.0.1 named))
]

-- The loop of `sql_clause_from` ends with no table left, for the fields that a statement selects, and
-- for filters and sorts: it has fuel enough.
pub joins_complete :
    (v : RecordView) (m : Params) (fields : List RField) (filters : List Filter) (sorts : List Sort)
    → let used = add_sorts sorts (add_filters filters (emplace (master v.model) [])) in
      ((from_clause v m (used_by v fields)).used ≡ []) × ((from_clause v m used).used ≡ [])
unfolding from_clause used_by
joins_complete v m fields filters sorts =
    let start = emplace-IsTableMap (master v.model) [] tt in
    (
      join_loop_ends _ v.rfields _
          (erase_master-AllChildren _ (add_fields-IsTableMap fields _ start)) (omega arith),
      join_loop_ends _ v.rfields _
          (erase_master-AllChildren _
            (add_sorts-IsTableMap sorts _ (add_filters-IsTableMap filters _ start)))
          (omega arith),
    )
