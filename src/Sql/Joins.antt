-- ===== src/Sql/Joins.antt =====
-- SqlGenius.h: the SELECT statements can be read back, and their parameters are bound.
use kyzddfer.Base.{
  ℕ, zero, suc, ◌+◌, ◌≡◌, refl, ◌∙◌, true, some, List, [], ◌∷◌, ◌++◌, All, Option-cases, inl, inr,
  if_cases, if◌then◌else◌, length,
}
use kyzddfer.Base.Assoc.{lookup, insert, lookup-insert_ne, lookup-insert_self}
use kyzddfer.Base.Order.{text_lt}
use kyzddfer.Base.Text.{Text, codes, text_dec}
use kyzddfer.Types.{Field, sql_name}
use kyzddfer.Sql.Piece.{Piece, lit, par, Params, is_name_char}
use kyzddfer.Sql.Params.{IsName, no_dollar, IsSpaced, Sends}
use kyzddfer.Sql.Spaced.{IsSpaced-append, All-append, no_dollar_name}
use kyzddfer.Sql.Model.{QTable, master, child, alias, is_master, RField, RecordView}
use kyzddfer.Sql.Write.{id_name, bind_ids}
use kyzddfer.Sql.Select.{
  Used, emplace, add_table, add_fields, erase_used, is_used, smart_name, Joins, smart_value,
  join_on, emit_join, build_joins, join_loop, from_clause,
}

-- A parameter for every name.
abbrev pub IsBound : Params → List Piece → Type 0
IsBound m [] = Unit
IsBound m (lit t ∷ ps) = IsBound m ps
IsBound m (par n ∷ ps) = ((v : Text) × (lookup text_dec n m ≡ some v)) × IsBound m ps

pub IsBound-Sends : (m : Params) (ps : List Piece) → IsBound m ps → (vs : List Text) × Sends m ps vs
IsBound-Sends m [] h = ([], refl)
IsBound-Sends m (lit t ∷ ps) h = IsBound-Sends m ps h
IsBound-Sends m (par n ∷ ps) h = let (vs, s) = IsBound-Sends m ps h.1 in (h.0.0 ∷ vs, (h.0.1, s))

still_bound :
    (m : Params) (k w n : Text)
    → (v : Text) × (lookup text_dec n m ≡ some v)
    → (v : Text) × (lookup text_dec n (insert text_dec k w m) ≡ some v)
still_bound m k w n (v, e) = elim (text_dec n k) [
  | yes p ↦ (w, rw p (lookup-insert_self text_dec k w m))
  | no p ↦ (v, lookup-insert_ne text_dec k n w m p ∙ e)
]

IsBound-insert :
    (m : Params) (k w : Text) (ps : List Piece) → IsBound m ps → IsBound (insert text_dec k w m) ps
IsBound-insert m k w [] h = tt
IsBound-insert m k w (lit t ∷ ps) h = IsBound-insert m k w ps h
IsBound-insert m k w (par n ∷ ps) h = (still_bound m k w n h.0, IsBound-insert m k w ps h.1)

pub IsBound-bind_ids :
    (m : Params) (i : ℕ) (ids : List Text) (ps : List Piece)
    → IsBound m ps
    → IsBound (bind_ids m i ids) ps
unfolding bind_ids
IsBound-bind_ids m i [] ps h = h
IsBound-bind_ids m i (x ∷ ids) ps h =
    IsBound-bind_ids (insert text_dec (id_name i) x m) (i + 1) ids ps
      (IsBound-insert m (id_name i) x ps h)

IsBound-append :
    (m : Params) (ps qs : List Piece) → IsBound m ps → IsBound m qs → IsBound m (ps ++ qs)
IsBound-append m [] qs h k = k
IsBound-append m (lit t ∷ ps) qs h k = IsBound-append m ps qs h k
IsBound-append m (par n ∷ ps) qs h k = (h.0, IsBound-append m ps qs h.1 k)

-- A table whose names, and those of the tables above it, can stand in a statement.
abbrev pub IsPlainTable : QTable → Type 0
IsPlainTable (master t) = no_dollar t ≡ true
IsPlainTable (child a t parent fk) =
    All (λ c. is_name_char c ≡ true) a
    × (no_dollar t ≡ true)
    × (no_dollar (sql_name fk) ≡ true)
    × IsPlainTable parent

pub alias-no_dollar : (q : QTable) → IsPlainTable q → no_dollar (alias q) ≡ true
alias-no_dollar (master t) h = refl
alias-no_dollar (child a t parent fk) h = no_dollar_name a h.0

-- What the stream holds while the joins are written.
pub record IsWritten (st : Joins) : Type 0 where
  pub spaced : IsSpaced st.sql
  pub bound : IsBound st.params st.sql

smart_name-IsName : (a : Text) → All (λ c. is_name_char c ≡ true) a → IsName (smart_name a)
smart_name-IsName a h = (
  (λ e. cc),
  All-append (λ c. is_name_char c ≡ true) (codes "smart_join_") a
      (refl, (refl, (refl, (refl, (refl, (refl, (refl, (refl, (refl, (refl, (refl, tt))))))))))) h,
)

smart_join-IsWritten :
    (st : Joins) (a t v : Text)
    → All (λ c. is_name_char c ≡ true) a
    → no_dollar t ≡ true
    → IsWritten st
    → IsWritten (record {
      sql = st.sql ++ (join_on a t ++ lit (codes " = ") ∷ par (smart_name a) ∷ []);
      params = insert text_dec (smart_name a) v st.params;
      used = erase_used a st.used;
    })
smart_join-IsWritten st a t v h k w =
    let join : List Piece = join_on a t ++ lit (codes " = ") ∷ par (smart_name a) ∷ [] in
    let d = no_dollar_name a h in
    record {
      spaced =
          IsSpaced-append st.sql join w.spaced
            (refl, (k, (refl, (d, (refl, (d, (refl, (refl, (smart_name-IsName a h, tt, tt)))))))))
            refl;
      bound =
          IsBound-append (insert text_dec (smart_name a) v st.params) st.sql join
            (IsBound-insert st.params (smart_name a) v st.sql w.bound)
            ((v, lookup-insert_self text_dec (smart_name a) v st.params), tt);
    }

plain_join-IsWritten :
    (st : Joins) (a t : Text) (parent : QTable) (fk : Field)
    → IsPlainTable (child a t parent fk)
    → IsWritten st
    → IsWritten (record {
      sql =
          st.sql
          ++ (join_on a t
              ++ lit (codes " = ") ∷ lit (alias parent) ∷ lit (codes ".") ∷ lit (sql_name fk) ∷ []);
      params = st.params;
      used = erase_used a st.used;
    })
plain_join-IsWritten st a t parent fk h w =
    let join : List Piece =
      join_on a t
      ++ lit (codes " = ") ∷ lit (alias parent) ∷ lit (codes ".") ∷ lit (sql_name fk) ∷ [] in
    let d = no_dollar_name a h.0 in
    record {
      spaced =
          IsSpaced-append st.sql join w.spaced
            (
              refl,
              (
                h.1,
                (
                  refl,
                  (d, (refl, (d, (refl, (refl, (alias-no_dollar parent h.3, (refl, (h.2, tt)))))))),
                ),
              ),
            )
            refl;
      bound = IsBound-append st.params st.sql join w.bound tt;
    }

emit_join-IsWritten :
    (rs : List RField) (a t : Text) (parent : QTable) (fk : Field) (st : Joins)
    → IsPlainTable (child a t parent fk)
    → IsWritten st
    → IsWritten (emit_join rs a t parent fk st)
unfolding emit_join
emit_join-IsWritten rs a t parent fk st h w = elim (Option-cases (smart_value rs parent fk)) [
  | inl e ↦ rw (e, emit_join) (plain_join-IsWritten st a t parent fk h w)
  | inr (v, e) ↦ rw (e, emit_join) (smart_join-IsWritten st a t v h.0 h.1 w)
]

build_joins-IsWritten :
    (rs : List RField) (q : QTable) (st : Joins)
    → IsPlainTable q
    → IsWritten st
    → IsWritten (build_joins rs q st)
unfolding build_joins
build_joins-IsWritten rs (master t) st h w = w
build_joins-IsWritten rs (child a t parent fk) st h w =
    let above = build_joins-IsWritten rs parent st h.3 w in
    let st' : Joins = if is_master parent then st else build_joins rs parent st in
    let w' : IsWritten st' = if_cases IsWritten (is_master parent) _ _ (λ _. w) (λ _. above) in
    if_cases IsWritten (is_used a st'.used) _ _ (λ _. emit_join-IsWritten rs a t parent fk st' h w')
      (λ _. w')

abbrev pub AllPlain : Used → Type 0
AllPlain = All (λ p. IsPlainTable p.1)

erase_used-AllPlain : (a : Text) (u : Used) → AllPlain u → AllPlain (erase_used a u)
unfolding erase_used
erase_used-AllPlain a [] h = tt
erase_used-AllPlain a ((b, q) ∷ u) h =
    elim (text_dec b a) as (λ d. AllPlain (elim d [ yes _ ↦ u | no _ ↦ (b, q) ∷ erase_used a u ])) [
      | yes p ↦ h.1
      | no p ↦ (h.0, erase_used-AllPlain a u h.1)
    ]

pub emit_join-used :
    (rs : List RField) (a t : Text) (parent : QTable) (fk : Field) (st : Joins)
    → (emit_join rs a t parent fk st).used ≡ erase_used a st.used
unfolding emit_join
emit_join-used rs a t parent fk st = elim (Option-cases (smart_value rs parent fk)) [
  | inl e ↦ rw (e, emit_join)
  | inr (v, e) ↦ rw (e, emit_join)
]

build_joins-AllPlain :
    (rs : List RField) (q : QTable) (st : Joins)
    → AllPlain st.used
    → AllPlain (build_joins rs q st).used
unfolding build_joins
build_joins-AllPlain rs (master t) st h = h
build_joins-AllPlain rs (child a t parent fk) st h =
    let P = λ (s : Joins). AllPlain s.used in
    let st' : Joins = if is_master parent then st else build_joins rs parent st in
    let h' : P st' =
      if_cases P (is_master parent) _ _ (λ _. h) (λ _. build_joins-AllPlain rs parent st h) in
    if_cases P (is_used a st'.used) _ _
      (λ _. rw (emit_join-used rs a t parent fk st') (erase_used-AllPlain a st'.used h')) (λ _. h')

join_loop-IsWritten :
    (fuel : ℕ) (rs : List RField) (st : Joins)
    → AllPlain st.used
    → IsWritten st
    → IsWritten (join_loop fuel rs st)
unfolding join_loop
join_loop-IsWritten zero rs st h w = w
join_loop-IsWritten (suc fuel) rs st h w =
    round st.used refl h
      (λ (s : Joins) (g : AllPlain s.used) (k : IsWritten s). join_loop-IsWritten fuel rs s g k)
  where
    round :
        (u : Used)
        → st.used ≡ u
        → AllPlain u
        → ((s : Joins) → AllPlain s.used → IsWritten s → IsWritten (join_loop fuel rs s))
        → IsWritten (join_loop (suc fuel) rs st)
    round [] e g next = rw (e, join_loop) w
    round ((a, q) ∷ u) e g next =
        rw (e, join_loop)
          (next (build_joins rs q st) (build_joins-AllPlain rs q st h)
            (build_joins-IsWritten rs q st g.0 w))

pub emplace-AllPlain :
    (q : QTable) (u : Used) → IsPlainTable q → AllPlain u → AllPlain (emplace q u)
unfolding emplace
emplace-AllPlain q [] p h = (p, tt)
emplace-AllPlain q ((a, r) ∷ u) p h =
    if_cases AllPlain (text_lt (alias q) a) _ _ (λ _. (p, h))
      λ _.
        if_cases AllPlain (text_lt a (alias q)) _ _ (λ _. (h.0, emplace-AllPlain q u p h.1))
          (λ _. h)

add_table-AllPlain :
    (q : QTable) (u : Used) → IsPlainTable q → AllPlain u → AllPlain (add_table q u)
unfolding add_table
add_table-AllPlain (master t) u p h = emplace-AllPlain (master t) u p h
add_table-AllPlain (child a t parent fk) u p h =
    add_table-AllPlain parent (emplace (child a t parent fk) u) p.3
      (emplace-AllPlain (child a t parent fk) u p h)

-- Fields of plain tables, under plain columns.
abbrev pub ArePlain : List RField → Type 0
ArePlain = All (λ r. IsPlainTable r.pqt × (no_dollar (sql_name r.pf) ≡ true))

pub add_fields-AllPlain :
    (rs : List RField) (u : Used) → ArePlain rs → AllPlain u → AllPlain (add_fields rs u)
unfolding add_fields
add_fields-AllPlain [] u p h = h
add_fields-AllPlain (r ∷ rs) u p h =
    add_fields-AllPlain rs (add_table r.pqt u) p.1 (add_table-AllPlain r.pqt u p.0.0 h)

pub from_clause-IsWritten :
    (v : RecordView) (m : Params) (u : Used)
    → no_dollar v.model ≡ true
    → AllPlain u
    → IsWritten (from_clause v m u)
unfolding from_clause
from_clause-IsWritten v m u t h =
    let left = erase_used (codes "master") u in
    join_loop-IsWritten (length left) v.rfields _ (erase_used-AllPlain (codes "master") u h)
      (record { spaced = (refl, (t, (refl, (refl, tt)))); bound = tt })
