-- ===== src/Recordset/Paging.antt =====
-- rec.cpp: a page change keeps the cached statement, and not the parameters that go with it.
use kyzddfer.Base.{
  ◌≡◌, refl, ap, sym, subst, ◌∙◌, Option, none, some, List, [], ◌∷◌, ◌++◌, arith, append_assoc,
}
use kyzddfer.Base.Text.{codes}
use kyzddfer.Sql.Piece.{
  Error, Result, ok, err, ◌>>=◌, Piece, lit, render, Params, get_ordered_params, >>=-ok,
}
use kyzddfer.Sql.Model.{master, RField, Pager}
use kyzddfer.Sql.Select.{
  pager_clause, gen_select_ids, ids_of, gen_select_count, from_clause, add_sorts, add_filters,
  emplace, order_by,
}
use kyzddfer.Sql.Filter.{where_filters}
use kyzddfer.Recordset.{
  Query, RecordsetState, as_view, cached, ask, load_count, new_ids, load_ids, load_page, do_load,
  set_page, count_rows, first_column,
}
use kyzddfer.Recordset.Unsent.{IsErr, IsIdsSql, ids_sql_errs}

-- Counting leaves what the next step reads, and an old statement brings no parameters.
count_keeps :
    (db : Query) (r c : RecordsetState) (named : Params) (sql : List Piece)
    → r.count_sql_cache ≡ some sql
    → load_count db r [] ≡ ok (c, named)
    → (named ≡ []) × (c.ids_sql_cache ≡ r.ids_sql_cache) × (c.page_cursor_ids ≡ r.page_cursor_ids)
unfolding load_count cached
count_keeps db r c named sql k e = ground arith

count_caches :
    (db : Query) (r c : RecordsetState) (n named : Params)
    → load_count db r n ≡ ok (c, named)
    → (sql : List Piece) × (c.count_sql_cache ≡ some sql)
      × (c.ids_sql_cache ≡ r.ids_sql_cache)
      × (c.page_cursor_ids ≡ r.page_cursor_ids)
unfolding load_count
count_caches db r c n named e =
    let (made, _, e1) = >>=-ok (cached r.count_sql_cache n (gen_select_count (as_view r))) _ e in
    let (rows, _, e2) = >>=-ok (ask db made.1 made.0) _ e1 in
    let (total, _, e3) = >>=-ok (count_rows rows) _ e2 in
    let kept : ◌≡◌ {A = Result (RecordsetState × Params)}
        (ok (record r { count_sql_cache = some made.0; total_count = total }, made.1))
        (ok (c, named)) =
      e3 in
    (made.0, ground arith, ground arith, ground arith)

ids_of-IsIdsSql : (r : RecordsetState) → IsIdsSql (ids_of (as_view r) r.listing).0
unfolding ids_of
ids_of-IsIdsSql r =
    let l = r.listing in
    let from =
      from_clause (as_view r) []
        (add_sorts l.sorts (add_filters l.filters (emplace (master r.model) []))) in
    record {
      body =
          lit (codes "SELECT ")
          ∷ lit (codes "master")
          ∷ lit (codes ".id")
          ∷ (from.sql ++ (where_filters l.filters ++ order_by l.sorts));
      paged =
          ap (λ ps. lit (codes "SELECT ") ∷ lit (codes "master") ∷ lit (codes ".id") ∷ ps)
            (rw
              (
                append_assoc from.sql (where_filters l.filters ++ order_by l.sorts)
                    (pager_clause ++ lit (codes ";") ∷ []),
                append_assoc (where_filters l.filters) (order_by l.sorts)
                    (pager_clause ++ lit (codes ";") ∷ []),
              )
              refl);
    }

IsIdsSql-same : {a b : List Piece} → a ≡ b → IsIdsSql b → IsIdsSql a
IsIdsSql-same e h = subst IsIdsSql (sym e) h

fresh_cache :
    (cache : Option (List Piece)) (n : Params) (p made : List Piece × Params)
    → cache ≡ none
    → cached cache n (ok p) ≡ ok made
    → made.0 ≡ p.0
unfolding cached
fresh_cache none n p made h e = ground arith
fresh_cache (some sql) n p made h e = ground arith

old_cache :
    (cache : Option (List Piece)) (n : Params) (generated : Result (List Piece × Params))
    (sql : List Piece) (made : List Piece × Params)
    → cache ≡ some sql
    → cached cache n generated ≡ ok made
    → (made.0 ≡ sql) × (made.1 ≡ n)
unfolding cached
old_cache none n generated sql made h e = ground arith
old_cache (some sql') n generated sql made h e = (ground arith, ground arith)

-- What a load leaves: its two statements, and the second has the pager's clause.
record HasStatements (c : RecordsetState) : Type 0 where
  count_sql : List Piece
  counts : c.count_sql_cache ≡ some count_sql
  ids_sql : List Piece
  lists : c.ids_sql_cache ≡ some ids_sql
  paged : IsIdsSql ids_sql

new_ids-HasStatements :
    (db : Query) (r c : RecordsetState) (n named : Params) (count_sql : List Piece)
    → r.count_sql_cache ≡ some count_sql
    → r.ids_sql_cache ≡ none
    → new_ids db r n ≡ ok (c, named)
    → HasStatements c
unfolding new_ids gen_select_ids
new_ids-HasStatements db r c n named count_sql k fresh e =
    let (made, e0, e1) = >>=-ok (cached r.ids_sql_cache n (gen_select_ids (as_view r))) _ e in
    let (rows, _, e2) = >>=-ok (ask db made.1 made.0) _ e1 in
    let (ids, _, e3) = >>=-ok (first_column rows) _ e2 in
    let kept : ◌≡◌ {A = Result (RecordsetState × Params)}
        (ok (record r { ids_sql_cache = some made.0; page_cursor_ids = some ids }, made.1))
        (ok (c, named)) =
      e3 in
    record {
      count_sql = count_sql;
      counts = ground arith;
      ids_sql = made.0;
      lists = ground arith;
      paged =
          IsIdsSql-same (fresh_cache r.ids_sql_cache n (ids_of (as_view r) r.listing) made fresh e0)
            (ids_of-IsIdsSql r);
    }

load_ids-none :
    (db : Query) (r : RecordsetState) (n : Params)
    → r.page_cursor_ids ≡ none
    → load_ids db r n ≡ new_ids db r n
unfolding load_ids new_ids
load_ids-none db r n empty = ground arith

load_ids-HasStatements :
    (db : Query) (r c : RecordsetState) (n named : Params) (count_sql : List Piece)
    → r.count_sql_cache ≡ some count_sql
    → r.ids_sql_cache ≡ none
    → r.page_cursor_ids ≡ none
    → load_ids db r n ≡ ok (c, named)
    → HasStatements c
load_ids-HasStatements db r c n named count_sql k fresh empty e =
    new_ids-HasStatements db r c n named count_sql k fresh (sym (load_ids-none db r n empty) ∙ e)

load_page_keeps :
    (db : Query) (r c : RecordsetState) (fields : List RField)
    → load_page db r fields ≡ ok c
    → (c.count_sql_cache ≡ r.count_sql_cache) × (c.ids_sql_cache ≡ r.ids_sql_cache)
unfolding load_page
load_page_keeps db r c fields e = ground arith

-- A failure that the first step of a chain meets, or its second.
chain_IsErr {ℓ κ} :
    {A : Type ℓ} {B : Type κ} (m : Result A) (f : A → Result B)
    → ((a : A) → m ≡ ok a → IsErr (f a))
    → IsErr (m >>= f)
chain_IsErr (ok a) f h = h a refl
chain_IsErr (err e) f h = (e, refl)

fails_first {ℓ κ} :
    {A : Type ℓ} {B : Type κ} (m : Result A) (f : A → Result B) → IsErr m → IsErr (m >>= f)
fails_first (ok a) f (e, h) = cc
fails_first (err e) f h = (e, refl)

-- A cached statement of the pager cannot be sent without the parameters.
ask_fails :
    (db : Query) (m : Params) (sql sql' : List Piece)
    → sql ≡ sql'
    → m ≡ []
    → IsIdsSql sql'
    → IsErr (ask db m sql)
unfolding ask
ask_fails db m sql sql' e e' h =
    fails_first (get_ordered_params m (render sql)) (λ params. db (render sql) params)
      (rw e' (ids_sql_errs sql (IsIdsSql-same e h)))

new_ids_fails :
    (db : Query) (r : RecordsetState) (sql : List Piece)
    → r.ids_sql_cache ≡ some sql
    → IsIdsSql sql
    → IsErr (new_ids db r [])
unfolding new_ids cached
new_ids_fails db r sql k h =
    chain_IsErr (cached r.ids_sql_cache [] (gen_select_ids (as_view r))) _ λ made e.
      let (at_sql, at_none) = old_cache r.ids_sql_cache [] _ sql made k e in
      fails_first (ask db made.1 made.0) _ (ask_fails db made.1 made.0 sql at_sql at_none h)

-- The second load, after whatever it counts.
do_load_fails :
    (db : Query) (r : RecordsetState) (fields : List RField)
    → HasStatements r
    → r.page_cursor_ids ≡ none
    → IsErr (do_load db r fields)
unfolding do_load
do_load_fails db r fields h empty = chain_IsErr (load_count db r []) _ λ counted e.
    let (no_params, kept, still_empty) =
      count_keeps db r counted.0 counted.1 h.count_sql h.counts e in
    fails_first (load_ids db counted.0 counted.1) _ (
      rw (no_params, load_ids-none db counted.0 [] (still_empty ∙ empty))
        (new_ids_fails db counted.0 h.ids_sql (kept ∙ h.lists) h.paged))

do_load-HasStatements :
    (db : Query) (r c : RecordsetState) (fields : List RField)
    → r.ids_sql_cache ≡ none
    → r.page_cursor_ids ≡ none
    → do_load db r fields ≡ ok c
    → HasStatements c
unfolding do_load
do_load-HasStatements db r c fields fresh empty e =
    let (counted, e1, f1) = >>=-ok (load_count db r []) _ e in
    let (listed, e2, f2) = >>=-ok (load_ids db counted.0 counted.1) _ f1 in
    let (count_sql, has_count, same_ids, same_page) = count_caches db r counted.0 [] counted.1 e1 in
    let h =
      load_ids-HasStatements db counted.0 listed.0 counted.1 listed.1 count_sql has_count
        (same_ids ∙ fresh) (same_page ∙ empty) e2 in
    let (kept_count, kept_ids) = load_page_keeps db listed.0 c fields f2 in
    record {
      count_sql = h.count_sql;
      counts = kept_count ∙ h.counts;
      ids_sql = h.ids_sql;
      lists = kept_ids ∙ h.lists;
      paged = h.paged;
    }

-- When a load of a recordset without cached statements or ids succeeds, the load that follows a
-- `SetPage` fails, whatever the page, the fields and the database: it sends the cached statement
-- for the ids, whose parameters are those of a new generator.
pub page_change_fails :
    (db db' : Query) (r loaded : RecordsetState) (fields fields' : List RField) (p : Pager)
    → r.ids_sql_cache ≡ none
    → r.page_cursor_ids ≡ none
    → do_load db r fields ≡ ok loaded
    → (e : Error) × (do_load db' (set_page p loaded) fields' ≡ err e)
unfolding set_page
page_change_fails db db' r loaded fields fields' p fresh empty e =
    let h = do_load-HasStatements db r loaded fields fresh empty e in
    do_load_fails db' (set_page p loaded) fields'
      (record {
        count_sql = h.count_sql;
        counts = h.counts;
        ids_sql = h.ids_sql;
        lists = h.lists;
        paged = h.paged;
      })
      refl
