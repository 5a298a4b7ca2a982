-- ===== src/Sql/Used.antt =====
-- SqlGenius.h: the map of the tables that a statement uses has every table that its fields need.
use kyzddfer.Base.{◌≡◌, subst, true, List, [], ◌∷◌, All, if_cases, arith}
use kyzddfer.Base.Order.{text_lt, text_lt_antisym}
use kyzddfer.Base.Text.{Text}
use kyzddfer.Sql.Model.{QTable, master, child, alias, RField}
use kyzddfer.Sql.Select.{Used, emplace, add_table, add_fields, is_used}

-- The table and those above it, up to the model's own, are in the map.
abbrev pub IsIn : Used → QTable → Type 0
IsIn u (master t) = Unit
IsIn u (child a t parent fk) = (is_used a u ≡ true) × IsIn u parent

abbrev pub Grows : Used → Used → Type 0
Grows u w = (b : Text) → is_used b u ≡ true → is_used b w ≡ true

IsIn-Grows : (u w : Used) (q : QTable) → Grows u w → IsIn u q → IsIn w q
IsIn-Grows u w (master t) g h = tt
IsIn-Grows u w (child a t parent fk) g h = (g a h.0, IsIn-Grows u w parent g h.1)

emplace-Grows : (q : QTable) (u : Used) → Grows u (emplace q u)
unfolding emplace is_used
emplace-Grows q [] b h = ground arith
emplace-Grows q ((a, p) ∷ u) b h =
    if_cases (λ w. is_used b w ≡ true) (text_lt (alias q) a) _ _ (λ _. ground arith)
      λ _.
        if_cases (λ w. is_used b w ≡ true) (text_lt a (alias q)) _ _
          (λ _. ground (arith, emplace-Grows q u b)) (λ _. h)

is_used_first : (a : Text) (p : QTable) (u : Used) → is_used a ((a, p) ∷ u) ≡ true
unfolding is_used
is_used_first a p u = ground arith

is_used_later :
    (a b : Text) (p : QTable) (u : Used) → is_used b u ≡ true → is_used b ((a, p) ∷ u) ≡ true
unfolding is_used
is_used_later a b p u h = ground arith

is_used-emplace : (q : QTable) (u : Used) → is_used (alias q) (emplace q u) ≡ true
unfolding emplace
is_used-emplace q [] = is_used_first (alias q) q []
is_used-emplace q ((a, p) ∷ u) =
    if_cases (λ w. is_used (alias q) w ≡ true) (text_lt (alias q) a) _ _
      (λ _. is_used_first (alias q) q ((a, p) ∷ u))
      λ n.
        if_cases (λ w. is_used (alias q) w ≡ true) (text_lt a (alias q)) _ _
          (λ _. is_used_later a (alias q) p (emplace q u) (is_used-emplace q u))
          λ k.
            subst (λ b. is_used b ((a, p) ∷ u) ≡ true) (text_lt_antisym a (alias q) k n)
              (is_used_first a p u)

add_table-Grows : (q : QTable) (u : Used) → Grows u (add_table q u)
unfolding add_table
add_table-Grows (master t) u b h = emplace-Grows (master t) u b h
add_table-Grows (child a t parent fk) u b h =
    add_table-Grows parent (emplace (child a t parent fk) u) b
      (emplace-Grows (child a t parent fk) u b h)

add_table-IsIn : (q : QTable) (u : Used) → IsIn (add_table q u) q
unfolding add_table
add_table-IsIn (master t) u = tt
add_table-IsIn (child a t parent fk) u =
    let w = emplace (child a t parent fk) u in
    (add_table-Grows parent w a (is_used-emplace (child a t parent fk) u), add_table-IsIn parent w)

add_fields-Grows : (rs : List RField) (u : Used) → Grows u (add_fields rs u)
unfolding add_fields
add_fields-Grows [] u b h = h
add_fields-Grows (r ∷ rs) u b h =
    add_fields-Grows rs (add_table r.pqt u) b (add_table-Grows r.pqt u b h)

pub add_fields-IsIn : (rs : List RField) (u : Used) → All (λ r. IsIn (add_fields rs u) r.pqt) rs
unfolding add_fields
add_fields-IsIn [] u = tt
add_fields-IsIn (r ∷ rs) u =
    let w = add_table r.pqt u in
    (
      IsIn-Grows w (add_fields rs w) r.pqt (add_fields-Grows rs w) (add_table-IsIn r.pqt u),
      add_fields-IsIn rs w,
    )
