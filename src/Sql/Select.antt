-- ===== src/Sql/Select.antt =====
-- SqlGenius.h: the SELECT statements, their clauses, and the joins.
use kyzddfer.Base.{
  ℕ, zero, suc, Bool, true, false, Option, none, some, List, [], ◌∷◌, ◌++◌, if◌then◌else◌, length,
}
use kyzddfer.Base.Assoc.{insert}
use kyzddfer.Base.Decimal.{to_string}
use kyzddfer.Base.Order.{text_lt}
use kyzddfer.Base.Text.{Text, codes, text_dec}
use kyzddfer.Types.{Field, sql_name}
use kyzddfer.Sql.Piece.{Result, ok, err, ◌>>=◌, not_a_recordset, Piece, lit, par, Params}
use kyzddfer.Sql.Model.{
  QTable, master, child, alias, is_master, RField, Filter, Sort, Direction, none_dir, asc, desc,
  Pager, Listing, RecordView, get_rfield,
}
use kyzddfer.Sql.Filter.{where_filters, bind_filters}
use kyzddfer.Sql.Write.{get_id_field_value, where_id, id_list, bind_ids}

-- `qtusedmap_t`, in the order of its keys.
abbrev pub Used : Type 0
Used = List (Text × QTable)

-- `try_emplace`.
unfoldable pub emplace : QTable → Used → Used
emplace q [] = (alias q, q) ∷ []
emplace q ((a, p) ∷ u) =
    if text_lt (alias q) a
    then (alias q, q) ∷ (a, p) ∷ u
    else if text_lt a (alias q)
    then (a, p) ∷ emplace q u
    else (a, p) ∷ u

-- The loop from a table up to the model.
unfoldable pub add_table : QTable → Used → Used
add_table (master t) u = emplace (master t) u
add_table (child a t parent fk) u = add_table parent (emplace (child a t parent fk) u)

unfoldable pub add_fields : List RField → Used → Used
add_fields [] u = u
add_fields (r ∷ rs) u = add_fields rs (add_table r.pqt u)

unfoldable pub add_filters : List Filter → Used → Used
add_filters [] u = u
add_filters (f ∷ fs) u = add_filters fs (add_table f.rfield.pqt u)

unfoldable pub add_sorts : List Sort → Used → Used
add_sorts [] u = u
add_sorts (s ∷ ss) u = add_sorts ss (add_table s.rfield.pqt u)

-- `used_tables.erase`.
unfoldable pub erase_used : Text → Used → Used
erase_used a [] = []
erase_used a ((b, q) ∷ u) = elim (text_dec b a) [ yes _ ↦ u | no _ ↦ (b, q) ∷ erase_used a u ]

unfoldable pub is_used : Text → Used → Bool
is_used a [] = false
is_used a ((b, q) ∷ u) = elim (text_dec b a) [ yes _ ↦ true | no _ ↦ is_used a u ]

abbrev pub smart_name : Text → Text
smart_name a = codes "smart_join_" ++ a

pub record Joins : Type 0 where
  pub sql : List Piece
  pub params : Params
  pub used : Used

-- The value that a modified reference field of the record gives the join.
unfoldable pub smart_value : List RField → QTable → Field → Option Text
smart_value rs parent fk = elim (get_rfield parent fk rs) [
  | none ↦ none
  | some r ↦ if r.is_modified then some r.val else none
]

abbrev pub join_on : Text → Text → List Piece
join_on a t =
    lit (codes "\nLEFT JOIN ")
    ∷ lit t
    ∷ lit (codes " AS ")
    ∷ lit a
    ∷ lit (codes " ON ")
    ∷ lit a
    ∷ lit (codes ".id")
    ∷ []

unfoldable pub emit_join : List RField → Text → Text → QTable → Field → Joins → Joins
emit_join rs a t parent fk st = elim (smart_value rs parent fk) [
  | some v ↦ record {
    sql = st.sql ++ (join_on a t ++ lit (codes " = ") ∷ par (smart_name a) ∷ []);
    params = insert text_dec (smart_name a) v st.params;
    used = erase_used a st.used;
  }
  | none ↦ record {
    sql =
        st.sql
        ++ (join_on a t
            ++ lit (codes " = ") ∷ lit (alias parent) ∷ lit (codes ".") ∷ lit (sql_name fk) ∷ []);
    params = st.params;
    used = erase_used a st.used;
  }
]

-- `build_joins`; the model's own table has no join, which the code asserts.
unfoldable pub build_joins : List RField → QTable → Joins → Joins
build_joins rs (master t) st = st
build_joins rs (child a t parent fk) st =
    let above = build_joins rs parent st in
    let st' = if is_master parent then st else above in
    if is_used a st'.used then emit_join rs a t parent fk st' else st'

-- `while (!used_tables.empty())`, on fuel.
unfoldable pub join_loop : ℕ → List RField → Joins → Joins
join_loop zero rs st = st
join_loop (suc fuel) rs st = elim st.used [
  | [] ↦ st
  | p ∷ u ↦ join_loop fuel rs (build_joins rs p.1 st)
]

-- `sql_clause_from`.
unfoldable pub from_clause : RecordView → Params → Used → Joins
from_clause v m used =
    let u = erase_used (codes "master") used in
    join_loop (length u) v.rfields (record {
      sql = lit (codes "\nFROM ") ∷ lit v.model ∷ lit (codes " AS ") ∷ lit (codes "master") ∷ [];
      params = m;
      used = u;
    })

abbrev pub select_field : RField → List Piece
select_field r =
    lit (alias r.pqt)
    ∷ lit (codes ".")
    ∷ lit (sql_name r.pf)
    ∷ lit (codes " AS ")
    ∷ lit (alias r.pqt)
    ∷ lit (codes "_")
    ∷ lit (sql_name r.pf)
    ∷ []

unfoldable pub more_fields : List RField → List Piece
more_fields [] = []
more_fields (r ∷ rs) = (lit (codes ", ") ∷ select_field r) ++ more_fields rs

-- `sql_clause_select`.
unfoldable pub select_clause : List RField → List Piece
select_clause [] = lit (codes "SELECT ") ∷ []
select_clause (r ∷ rs) = (lit (codes "SELECT ") ∷ select_field r) ++ more_fields rs

abbrev pub descending : Direction → List Piece
descending desc = lit (codes " DESC") ∷ []
descending none_dir = []
descending asc = []

abbrev pub sort_field : Sort → List Piece
sort_field s =
    lit (alias s.rfield.pqt) ∷ lit (codes ".") ∷ lit (sql_name s.rfield.pf) ∷ descending s.dir

unfoldable pub more_sorts : List Sort → List Piece
more_sorts [] = []
more_sorts (s ∷ ss) = (lit (codes ", ") ∷ sort_field s) ++ more_sorts ss

unfoldable pub order_by : List Sort → List Piece
order_by [] = []
order_by (s ∷ ss) = (lit (codes "\nORDER BY ") ∷ sort_field s) ++ more_sorts ss

-- `sql_clause_sort`, which does nothing for a plain record.
unfoldable pub sort_clause : Option Listing → List Piece
sort_clause none = []
sort_clause (some l) = order_by l.sorts

abbrev pub pager_clause : List Piece
pager_clause =
    lit (codes "\nLIMIT ")
    ∷ par (codes "pg_limit")
    ∷ lit (codes " OFFSET ")
    ∷ par (codes "pg_offset")
    ∷ []

-- `sql_clause_pager`.
unfoldable pub bind_pager : Params → Pager → Params
bind_pager m p =
    insert text_dec (codes "pg_offset") (to_string p.offset)
      (insert text_dec (codes "pg_limit") (to_string p.limit) m)

-- `build_clauses_from_fields`, which selects the fields themselves.
unfoldable pub used_by : RecordView → List RField → Used
used_by v fields = add_fields fields (emplace (master v.model) [])

unfoldable pub gen_select_one : RecordView → List RField → Result (List Piece × Params)
gen_select_one v [] = ok ([], [])
gen_select_one v (r ∷ rs) = do
  id ← get_id_field_value v
  let from = from_clause v [] (used_by v (r ∷ rs))
  ok (
    select_clause (r ∷ rs) ++ (from.sql ++ (where_id ++ lit (codes ";") ∷ [])),
    insert text_dec (codes "id") id from.params,
  )

unfoldable pub select_by_ids : RecordView → List RField → List Text → List Piece × Params
select_by_ids v fields ids =
    let from = from_clause v [] (used_by v fields) in
    (
      select_clause fields
          ++ (from.sql
              ++ ((lit (codes "\nWHERE ") ∷ lit (codes "master") ∷ lit (codes ".id IN (") ∷ [])
                  ++ (id_list ids
                      ++ (lit (codes ")") ∷ (sort_clause v.listing ++ lit (codes ";") ∷ []))))),
      bind_ids from.params 0 ids,
    )

unfoldable pub gen_select_by_ids : RecordView → List RField → List Text → List Piece × Params
unfolding select_by_ids
gen_select_by_ids v [] ids = ([], [])
gen_select_by_ids v (r ∷ rs) [] = ([], [])
gen_select_by_ids v (r ∷ rs) (x ∷ ids) = select_by_ids v (r ∷ rs) (x ∷ ids)

unfoldable pub count_of : RecordView → Listing → List Piece × Params
count_of v l =
    let from = from_clause v [] (add_filters l.filters (emplace (master v.model) [])) in
    (
      lit (codes "SELECT COUNT(")
          ∷ lit (codes "master")
          ∷ lit (codes ".id)")
          ∷ (from.sql ++ (where_filters l.filters ++ lit (codes ";") ∷ [])),
      bind_filters from.params l.filters,
    )

unfoldable pub gen_select_count : RecordView → Result (List Piece × Params)
unfolding count_of
gen_select_count v = elim v.listing [ none ↦ err not_a_recordset | some l ↦ ok (count_of v l) ]

unfoldable pub ids_of : RecordView → Listing → List Piece × Params
ids_of v l =
    let from =
      from_clause v [] (add_sorts l.sorts (add_filters l.filters (emplace (master v.model) []))) in
    (
      lit (codes "SELECT ")
          ∷ lit (codes "master")
          ∷ lit (codes ".id")
          ∷ (from.sql
              ++ (where_filters l.filters
                  ++ (order_by l.sorts ++ (pager_clause ++ lit (codes ";") ∷ [])))),
      bind_pager (bind_filters from.params l.filters) l.pager,
    )

unfoldable pub gen_select_ids : RecordView → Result (List Piece × Params)
unfolding ids_of
gen_select_ids v = elim v.listing [ none ↦ err not_a_recordset | some l ↦ ok (ids_of v l) ]
