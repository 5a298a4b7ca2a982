-- ===== src/Sql/Filters.antt =====
-- SqlGenius.h: the parameters of one filter, and of two filters together.
use kyzddfer.Base.{ℕ, ◌+◌, ◌≤◌, ◌<◌, ◌≡◌, ◌≢◌, refl, ◌∙◌, true, some, List, [], ◌∷◌, ◌++◌, arith}
use kyzddfer.Base.Assoc.{lookup, insert, lookup-insert_ne, lookup-insert_self}
use kyzddfer.Base.Text.{Text, codes, text_dec}
use kyzddfer.Types.{sql_name}
use kyzddfer.Sql.Piece.{ok, Piece, lit, render, Params, get_ordered_params}
use kyzddfer.Sql.Params.{IsName, no_dollar, Breaks, IsSpaced, Sends, get_ordered_params_lem}
use kyzddfer.Sql.Spaced.{
  IsSpaced-append, Sends-append, Sends-close, numbered-IsName, numbered-injective,
}
use kyzddfer.Sql.Model.{RField, Filter, alias}
use kyzddfer.Sql.Filter.{
  Condition, differs, above, below, like, between, conditions, full_name, f_name, next, emit, bind,
  more_conditions, bind_conditions, clause, filter_sql, filter_params,
}

-- The values that a condition compares with.
abbrev pub operands : Condition → List Text
operands (differs v) = v ∷ []
operands (above v) = v ∷ []
operands (below v) = v ∷ []
operands (like v) = v ∷ []
operands (between a b) = a ∷ b ∷ []

abbrev pub all_operands : List Condition → List Text
all_operands [] = []
all_operands (c ∷ cs) = operands c ++ all_operands cs

-- A field whose alias and column can stand in a statement.
abbrev pub IsPlain : RField → Type 0
IsPlain r = (no_dollar (alias r.pqt) ≡ true) × (no_dollar (sql_name r.pf) ≡ true)

f_name_ne : (i j : ℕ) → i < j → f_name i ≢ f_name j
f_name_ne i j h e = absurd (omega (arith, numbered-injective (codes "f_") i j e))

f_name-IsName : (i : ℕ) → IsName (f_name i)
f_name-IsName i = numbered-IsName b'f' (codes "_") i refl (refl, tt)

lookup-bind :
    (m : Params) (n : Text) (i : ℕ) (c : Condition)
    → ((j : ℕ) → i ≤ j → n ≢ f_name j)
    → lookup text_dec n (bind m i c) ≡ lookup text_dec n m
unfolding bind
lookup-bind m n i (differs v) h = lookup-insert_ne text_dec (f_name i) n v m (h i (omega arith))
lookup-bind m n i (above v) h = lookup-insert_ne text_dec (f_name i) n v m (h i (omega arith))
lookup-bind m n i (below v) h = lookup-insert_ne text_dec (f_name i) n v m (h i (omega arith))
lookup-bind m n i (like v) h = lookup-insert_ne text_dec (f_name i) n v m (h i (omega arith))
lookup-bind m n i (between a b) h =
    lookup-insert_ne text_dec (f_name (i + 1)) n b _ (h (i + 1) (omega arith))
    ∙ lookup-insert_ne text_dec (f_name i) n a m (h i (omega arith))

le-next : (i : ℕ) (c : Condition) → i < next i c
le-next i (between a b) = omega arith
le-next i (differs v) = omega arith
le-next i (above v) = omega arith
le-next i (below v) = omega arith
le-next i (like v) = omega arith

lookup-bind_conditions :
    (m : Params) (n : Text) (i : ℕ) (cs : List Condition)
    → ((j : ℕ) → i ≤ j → n ≢ f_name j)
    → lookup text_dec n (bind_conditions m i cs) ≡ lookup text_dec n m
unfolding bind_conditions
lookup-bind_conditions m n i [] h = refl
lookup-bind_conditions m n i (c ∷ cs) h =
    lookup-bind_conditions (bind m i c) n (next i c) cs (λ j p. h j (omega (arith, le-next i c)))
    ∙ lookup-bind m n i c h

-- The name of a condition is bound to its operand, whatever is bound later.
pub bound :
    (m : Params) (i : ℕ) (v : Text) (cs : List Condition)
    → lookup text_dec (f_name i) (bind_conditions (insert text_dec (f_name i) v m) (i + 1) cs)
      ≡ some v
bound m i v cs =
    lookup-bind_conditions _ (f_name i) (i + 1) cs (λ j p. f_name_ne i j (omega arith))
    ∙ lookup-insert_self text_dec (f_name i) v m

bound_between :
    (m : Params) (i : ℕ) (a b : Text) (cs : List Condition)
    → let m' =
        bind_conditions
          (insert text_dec (f_name (i + 1)) b (insert text_dec (f_name i) a m))
          (i + 2)
          cs in
      (lookup text_dec (f_name i) m' ≡ some a)
      × ((lookup text_dec (f_name (i + 1)) m' ≡ some b) × (◌≡◌ {A = List Text} [] []))
bound_between m i a b cs = (
  lookup-bind_conditions _ (f_name i) (i + 2) cs (λ j p. f_name_ne i j (omega arith))
      ∙ lookup-insert_ne text_dec (f_name (i + 1)) (f_name i) b _
          (f_name_ne i (i + 1) (omega arith))
      ∙ lookup-insert_self text_dec (f_name i) a m,
  (
    lookup-bind_conditions _ (f_name (i + 1)) (i + 2) cs (λ j p. f_name_ne (i + 1) j (omega arith))
        ∙ lookup-insert_self text_dec (f_name (i + 1)) b _,
    refl,
  ),
)

more_conditions-Breaks :
    (full : List Piece) (i : ℕ) (cs : List Condition) → Breaks (more_conditions full i cs)
unfolding more_conditions
more_conditions-Breaks full i [] = tt
more_conditions-Breaks full i (c ∷ cs) = refl

rest-Breaks :
    (full : List Piece) (i : ℕ) (cs : List Condition)
    → Breaks (more_conditions full i cs ++ lit (codes ")") ∷ [])
unfolding more_conditions
rest-Breaks full i [] = refl
rest-Breaks full i (c ∷ cs) = refl

module _ (full : List Piece) (plain : IsSpaced full) (silent : (m : Params) → Sends m full []) where
  emit-IsSpaced : (i : ℕ) (c : Condition) → IsSpaced (emit full i c)
  unfolding emit
  emit-IsSpaced i (differs v) = IsSpaced-append full _ plain (refl, (f_name-IsName i, tt, tt)) refl
  emit-IsSpaced i (above v) = IsSpaced-append full _ plain (refl, (f_name-IsName i, tt, tt)) refl
  emit-IsSpaced i (below v) = IsSpaced-append full _ plain (refl, (f_name-IsName i, tt, tt)) refl
  emit-IsSpaced i (like v) = IsSpaced-append full _ plain (refl, (f_name-IsName i, tt, tt)) refl
  emit-IsSpaced i (between a b) =
      IsSpaced-append full _ plain
        (refl, (f_name-IsName i, refl, (refl, (f_name-IsName (i + 1), tt, tt)))) refl

  -- The names of a condition, in a map that later conditions have been bound in.
  emit-Sends :
      (m : Params) (i : ℕ) (c : Condition) (cs : List Condition)
      → Sends (bind_conditions (bind m i c) (next i c) cs) (emit full i c) (operands c)
  unfolding emit bind
  emit-Sends m i (differs v) cs =
      Sends-append _ full _ [] (v ∷ []) (silent _) (bound m i v cs, refl)
  emit-Sends m i (above v) cs = Sends-append _ full _ [] (v ∷ []) (silent _) (bound m i v cs, refl)
  emit-Sends m i (below v) cs = Sends-append _ full _ [] (v ∷ []) (silent _) (bound m i v cs, refl)
  emit-Sends m i (like v) cs = Sends-append _ full _ [] (v ∷ []) (silent _) (bound m i v cs, refl)
  emit-Sends m i (between a b) cs =
      Sends-append _ full _ [] (a ∷ b ∷ []) (silent _) (bound_between m i a b cs)

  more_conditions-IsSpaced : (i : ℕ) (cs : List Condition) → IsSpaced (more_conditions full i cs)
  unfolding more_conditions
  more_conditions-IsSpaced i [] = tt
  more_conditions-IsSpaced i (c ∷ cs) =
      IsSpaced-append (lit (codes " OR ") ∷ emit full i c) (more_conditions full (next i c) cs)
        (refl, emit-IsSpaced i c) (more_conditions-IsSpaced (next i c) cs)
        (more_conditions-Breaks full (next i c) cs)

  more_conditions-Sends :
      (m : Params) (i : ℕ) (cs : List Condition)
      → Sends (bind_conditions m i cs) (more_conditions full i cs) (all_operands cs)
  unfolding more_conditions bind_conditions
  more_conditions-Sends m i [] = refl
  more_conditions-Sends m i (c ∷ cs) =
      Sends-append _ (lit (codes " OR ") ∷ emit full i c) (more_conditions full (next i c) cs)
        (operands c) (all_operands cs) (emit-Sends m i c cs)
        (more_conditions-Sends (bind m i c) (next i c) cs)

  pub clause-IsSpaced : (cs : List Condition) → IsSpaced (clause full cs)
  unfolding clause
  clause-IsSpaced [] = (refl, (refl, tt))
  clause-IsSpaced (c ∷ cs) =
      let rest = more_conditions full (next 0 c) cs in
      IsSpaced-append (lit (codes "(") ∷ emit full 0 c) (rest ++ lit (codes ")") ∷ [])
        (refl, emit-IsSpaced 0 c)
        (IsSpaced-append rest (lit (codes ")") ∷ []) (more_conditions-IsSpaced (next 0 c) cs)
          (refl, tt) refl)
        (rest-Breaks full (next 0 c) cs)

  clause-Sends :
      (cs : List Condition) → Sends (bind_conditions [] 0 cs) (clause full cs) (all_operands cs)
  unfolding clause bind_conditions
  clause-Sends [] = refl
  clause-Sends (c ∷ cs) =
      let rest = more_conditions full (next 0 c) cs in
      Sends-append _ (lit (codes "(") ∷ emit full 0 c) (rest ++ lit (codes ")") ∷ []) (operands c)
        (all_operands cs) (emit-Sends [] 0 c cs)
        (Sends-close _ rest (lit (codes ")") ∷ []) (all_operands cs)
          (more_conditions-Sends (bind [] 0 c) (next 0 c) cs) refl)

-- The placeholders of one filter stand for the operands of its conditions, in the order in which
-- the filter has them: a range gives two, every other condition one.
pub filter_params_lem :
    (f : Filter)
    → IsPlain f.rfield
    → get_ordered_params (filter_params f) (render (filter_sql f))
      ≡ ok (all_operands (conditions f))
unfolding filter_params filter_sql
filter_params_lem f p =
    let full = full_name f.rfield in
    let plain : IsSpaced full = (p.0, (refl, (p.1, tt))) in
    get_ordered_params_lem (bind_conditions [] 0 (conditions f)) (clause full (conditions f))
      (all_operands (conditions f)) (clause-IsSpaced full plain (λ m. refl) (conditions f))
      (clause-Sends full plain (λ m. refl) (conditions f))
