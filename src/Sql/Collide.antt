-- ===== src/Sql/Collide.antt =====
-- SqlGenius.h: each `FilterParser` counts its parameters from 0, so that two filters of one
-- recordset use the same names.
use kyzddfer.Base.{
  ◌≡◌, refl, sym, ◌∙◌, none, some, List, [], ◌∷◌, ◌++◌, Option-cases, inl, inr, if_pos, if_neg,
}
use kyzddfer.Base.Assoc.{lookup, insert, lookup-insert_ne, lookup-insert_self}
use kyzddfer.Base.Text.{Text, codes, text_dec}
use kyzddfer.Sql.Piece.{ok, Piece, lit, render, Params, get_ordered_params}
use kyzddfer.Sql.Params.{IsSpaced, Sends, get_ordered_params_lem}
use kyzddfer.Sql.Spaced.{IsSpaced-append, Sends-append, Sends-close}
use kyzddfer.Sql.Model.{Filter}
use kyzddfer.Sql.Filter.{
  Condition, differs, above, below, like, conditions, full_name, f_name, emit, bind,
  more_conditions, bind_conditions, clause, filter_sql, filter_params, insert_absent, more_filters,
  where_filters, bind_filters,
}
use kyzddfer.Sql.Filters.{IsPlain, bound, clause-IsSpaced}

-- A condition with one operand.
pub data IsSingle : Condition → Text → Type 0 where
  differs_one : (v : Text) → IsSingle (differs v) v
  above_one : (v : Text) → IsSingle (above v) v
  below_one : (v : Text) → IsSingle (below v) v
  like_one : (v : Text) → IsSingle (like v) v

lookup-insert_absent :
    (m new : Params) (n v : Text)
    → lookup text_dec n m ≡ some v
    → lookup text_dec n (insert_absent m new) ≡ some v
unfolding insert_absent
lookup-insert_absent m [] n v h = h
lookup-insert_absent m ((k, w) ∷ new) n v h = elim (Option-cases (lookup text_dec k m)) [
  | inl e ↦ rw e (
      lookup-insert_absent (insert text_dec k w m) new n v
        (lookup-insert_ne text_dec k n w m (λ p. cc (p, e, h)) ∙ h))
  | inr (u, e) ↦ rw e (lookup-insert_absent m new n v h)
]

lookup-insert_absent_new :
    (m new : Params) (n : Text)
    → lookup text_dec n m ≡ none
    → lookup text_dec n (insert_absent m new) ≡ lookup text_dec n new
unfolding insert_absent lookup
lookup-insert_absent_new m [] n h = h
lookup-insert_absent_new m ((k, w) ∷ new) n h = elim (text_dec k n) [
  | yes p ↦
      let e : lookup text_dec k m ≡ none = rw p h in
      rw (e, if_pos (text_dec k n) p)
        (lookup-insert_absent (insert text_dec k w m) new n w
          (rw p (lookup-insert_self text_dec n w m)))
  | no p ↦ rw (if_neg (text_dec k n) p) (elim (Option-cases (lookup text_dec k m)) [
    | inl e ↦ rw e (
        lookup-insert_absent_new (insert text_dec k w m) new n
          (lookup-insert_ne text_dec k n w m (λ q. p (sym q)) ∙ h))
    | inr (u, e) ↦ rw e (lookup-insert_absent_new m new n h)
  ])
]

lookup_nil : (n : Text) → lookup {V = Text} text_dec n [] ≡ none
unfolding lookup
lookup_nil n = refl

emit_single :
    (m : Params) (f : Filter) (c : Condition) (v w : Text)
    → IsSingle c v
    → lookup text_dec (f_name 0) m ≡ some w
    → Sends m (emit (full_name f.rfield) 0 c) (w ∷ [])
unfolding emit
emit_single m f c v w (differs_one x) h = (h, refl)
emit_single m f c v w (above_one x) h = (h, refl)
emit_single m f c v w (below_one x) h = (h, refl)
emit_single m f c v w (like_one x) h = (h, refl)

bind_single :
    (c : Condition) (v : Text)
    → IsSingle c v
    → lookup text_dec (f_name 0) (bind_conditions [] 0 (c ∷ [])) ≡ some v
unfolding bind_conditions bind
bind_single c v (differs_one x) = bound [] 0 x []
bind_single c v (above_one x) = bound [] 0 x []
bind_single c v (below_one x) = bound [] 0 x []
bind_single c v (like_one x) = bound [] 0 x []

clause_single :
    (m : Params) (f : Filter) (c : Condition) (v w : Text)
    → IsSingle c v
    → conditions f ≡ c ∷ []
    → lookup text_dec (f_name 0) m ≡ some w
    → Sends m (filter_sql f) (w ∷ [])
unfolding filter_sql clause more_conditions
clause_single m f c v w s e h = rw e (
    Sends-close m (emit (full_name f.rfield) 0 c) (lit (codes ")") ∷ []) (w ∷ [])
      (emit_single m f c v w s h) refl)

filter_sql-IsSpaced : (f : Filter) → IsPlain f.rfield → IsSpaced (filter_sql f)
unfolding filter_sql
filter_sql-IsSpaced f p =
    clause-IsSpaced (full_name f.rfield) (p.0, (refl, (p.1, tt))) (λ m. refl) (conditions f)

-- With two filters of one condition each, the operand of the first is sent for both: the second
-- filter compares with the value of the first.
pub second_filter_misbound :
    (f g : Filter) (c d : Condition) (v w : Text)
    → IsPlain f.rfield
    → IsPlain g.rfield
    → conditions f ≡ c ∷ []
    → conditions g ≡ d ∷ []
    → IsSingle c v
    → IsSingle d w
    → get_ordered_params (bind_filters [] (f ∷ g ∷ [])) (render (where_filters (f ∷ g ∷ [])))
      ≡ ok (v ∷ v ∷ [])
unfolding bind_filters where_filters more_filters filter_params
second_filter_misbound f g c d v w p q e k s t =
    let own : Params = insert_absent [] (bind_conditions [] 0 (conditions f)) in
    let m : Params = insert_absent own (bind_conditions [] 0 (conditions g)) in
    let first : lookup text_dec (f_name 0) m ≡ some v =
      lookup-insert_absent own (bind_conditions [] 0 (conditions g)) (f_name 0) v (
        lookup-insert_absent_new [] (bind_conditions [] 0 (conditions f)) (f_name 0)
          (lookup_nil (f_name 0))
        ∙ rw e (bind_single c v s)) in
    let head : List Piece = lit (codes "\nWHERE ") ∷ filter_sql f in
    let tail : List Piece = lit (codes " AND ") ∷ filter_sql g in
    get_ordered_params_lem m (head ++ (tail ++ [])) (v ∷ v ∷ [])
      (IsSpaced-append head (tail ++ []) (refl, filter_sql-IsSpaced f p)
        (IsSpaced-append tail [] (refl, filter_sql-IsSpaced g q) tt tt) refl)
      (Sends-append m head (tail ++ []) (v ∷ []) (v ∷ []) (clause_single m f c v v s e first)
        (Sends-close m tail [] (v ∷ []) (clause_single m g d w v t k first) refl))
