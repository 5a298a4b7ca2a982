-- ===== src/Recordset/Caches.antt =====
-- rec.cpp: the cached statements of a record set belong to its filters and sorts, whatever is called
-- in between.
use kyzddfer.Base.{
  ◌≡◌, refl, sym, subst, ◌∙◌, inl, inr, Option, none, some, Option-cases, List, [], ◌∷◌, arith,
}
use kyzddfer.Base.Text.{Text}
use kyzddfer.Sql.Piece.{Result, ok, ◌>>=◌, >>=-ok, Piece, Params}
use kyzddfer.Sql.Model.{RField, Direction, Pager}
use kyzddfer.Sql.Select.{from_clause, count_of, ids_of, gen_select_count, gen_select_ids}
use kyzddfer.Recordset.{
  Query, Rows, RecordsetState, as_view, page_rows, cached, ask, count_rows, first_column,
  load_count, new_ids, load_ids, load_page, do_load, reset, set_filter, set_sort, add_sort,
  set_page,
}

-- The calls that use the caches or empty them.
pub data Call : Type 0 where
  loads : Query → List RField → Call
  filters : RField → Text → Call
  sorts : RField → Direction → Call
  adds_sort : RField → Direction → Call
  pages : Pager → Call

unfoldable pub call : RecordsetState → Call → Result RecordsetState
call r (loads db fields) = do_load db r fields
call r (filters f v) = ok (set_filter f v r)
call r (sorts f d) = ok (set_sort f d r)
call r (adds_sort f d) = ok (add_sort f d r)
call r (pages p) = ok (set_page p r)

unfoldable pub calls : RecordsetState → List Call → Result RecordsetState
calls r [] = ok r
calls r (c ∷ cs) = do r' ← call r c; calls r' cs

-- What is cached is what would be generated now.
pub record IsCoherent (r : RecordsetState) : Type 0 where
  pub counts :
      (sql : List Piece) → r.count_sql_cache ≡ some sql → sql ≡ (count_of (as_view r) r.listing).0
  pub lists :
      (sql : List Piece) → r.ids_sql_cache ≡ some sql → sql ≡ (ids_of (as_view r) r.listing).0

cached_or_new :
    (cache : Option (List Piece)) (n : Params) (p made : List Piece × Params)
    → cached cache n (ok p) ≡ ok made
    → ((sql : List Piece) → cache ≡ some sql → sql ≡ p.0)
    → made.0 ≡ p.0
unfolding cached
cached_or_new none n p made e h = ground arith
cached_or_new (some sql) n p made e h = ground (arith, h sql refl)

load_count-IsCoherent :
    (db : Query) (r c : RecordsetState) (n named : Params)
    → load_count db r n ≡ ok (c, named)
    → IsCoherent r
    → IsCoherent c
unfolding load_count gen_select_count
load_count-IsCoherent db r c n named e h =
    let (made, e0, e1) = >>=-ok (cached r.count_sql_cache n (gen_select_count (as_view r))) _ e in
    let (rows, _, e2) = >>=-ok (ask db made.1 made.0) _ e1 in
    let (total, _, e3) = >>=-ok (count_rows rows) _ e2 in
    let c' : RecordsetState = record r { count_sql_cache = some made.0; total_count = total } in
    let kept : ◌≡◌ {A = Result (RecordsetState × Params)} (ok (c', made.1)) (ok (c, named)) = e3 in
    let same : c' ≡ c = ground arith in
    let right : made.0 ≡ (count_of (as_view r) r.listing).0 =
      cached_or_new r.count_sql_cache n (count_of (as_view r) r.listing) made e0 h.counts in
    subst IsCoherent same (record { counts = λ sql k. cc (k, right); lists = h.lists })

new_ids-IsCoherent :
    (db : Query) (r c : RecordsetState) (n named : Params)
    → new_ids db r n ≡ ok (c, named)
    → IsCoherent r
    → IsCoherent c
unfolding new_ids gen_select_ids
new_ids-IsCoherent db r c n named e h =
    let (made, e0, e1) = >>=-ok (cached r.ids_sql_cache n (gen_select_ids (as_view r))) _ e in
    let (rows, _, e2) = >>=-ok (ask db made.1 made.0) _ e1 in
    let (ids, _, e3) = >>=-ok (first_column rows) _ e2 in
    let c' : RecordsetState = record r {
      ids_sql_cache = some made.0;
      page_cursor_ids = some ids;
    } in
    let kept : ◌≡◌ {A = Result (RecordsetState × Params)} (ok (c', made.1)) (ok (c, named)) = e3 in
    let same : c' ≡ c = ground arith in
    let right : made.0 ≡ (ids_of (as_view r) r.listing).0 =
      cached_or_new r.ids_sql_cache n (ids_of (as_view r) r.listing) made e0 h.lists in
    subst IsCoherent same (record { counts = h.counts; lists = λ sql k. cc (k, right) })

-- A page that is loaded already is not listed again.
ids_loaded :
    (db : Query) (r : RecordsetState) (n : Params) (ids : List Text)
    → r.page_cursor_ids ≡ some ids
    → load_ids db r n ≡ ok (r, n)
unfolding load_ids
ids_loaded db r n ids e = ground arith

ids_to_load :
    (db : Query) (r : RecordsetState) (n : Params)
    → r.page_cursor_ids ≡ none
    → load_ids db r n ≡ new_ids db r n
unfolding load_ids new_ids
ids_to_load db r n e = ground arith

load_ids-IsCoherent :
    (db : Query) (r c : RecordsetState) (n named : Params)
    → load_ids db r n ≡ ok (c, named)
    → IsCoherent r
    → IsCoherent c
load_ids-IsCoherent db r c n named e h = elim (Option-cases r.page_cursor_ids) [
  | inl k ↦ new_ids-IsCoherent db r c n named (sym (ids_to_load db r n k) ∙ e) h
  | inr (ids, k) ↦
      let kept : ◌≡◌ {A = Result (RecordsetState × Params)} (ok (r, n)) (ok (c, named)) =
        sym (ids_loaded db r n ids k) ∙ e in
      let same : r ≡ c = ground arith in subst IsCoherent same h
]

page_to_load :
    (db : Query) (r : RecordsetState) (fields : List RField) (ids : List Text)
    → r.page_cursor_ids ≡ some ids
    → load_page db r fields ≡ (
        page_rows db r fields ids >>= λ rows.
        ok (record r { res = rows; fields_in_last_query = fields; next_row = 0 }))
unfolding load_page
page_to_load db r fields ids e = ground arith

load_page_same :
    (db : Query) (r c : RecordsetState) (fields : List RField)
    → load_page db r fields ≡ ok c
    → (res : Option Rows) × (record r { res = res; fields_in_last_query = fields; next_row = 0 }
        ≡ c)
unfolding load_page
load_page_same db r c fields e = elim (Option-cases r.page_cursor_ids) [
  | inl k ↦ (none, ground arith)
  | inr (ids, k) ↦
      let (rows, _, e1) =
        >>=-ok (page_rows db r fields ids) _ (sym (page_to_load db r fields ids k) ∙ e) in
      let kept : ◌≡◌ {A = Result RecordsetState}
          (ok (record r { res = rows; fields_in_last_query = fields; next_row = 0 })) (ok c) =
        e1 in
      (rows, ground arith)
]

do_load-IsCoherent :
    (db : Query) (r c : RecordsetState) (fields : List RField)
    → do_load db r fields ≡ ok c
    → IsCoherent r
    → IsCoherent c
unfolding do_load
do_load-IsCoherent db r c fields e h =
    let (counted, e1, f1) = >>=-ok (load_count db r []) _ e in
    let (listed, e2, f2) = >>=-ok (load_ids db counted.0 counted.1) _ f1 in
    let k =
      load_ids-IsCoherent db counted.0 listed.0 counted.1 listed.1 e2
        (load_count-IsCoherent db r counted.0 [] counted.1 e1 h) in
    let (res, same) = load_page_same db listed.0 c fields f2 in
    subst IsCoherent same (record { counts = k.counts; lists = k.lists })

without_caches :
    (r : RecordsetState) → r.count_sql_cache ≡ none → r.ids_sql_cache ≡ none → IsCoherent r
without_caches r e e' = record { counts = λ sql k. cc (e, k); lists = λ sql k. cc (e', k) }

emptied :
    (r c : RecordsetState)
    → ◌≡◌ {A = Result RecordsetState} (ok r) (ok c)
    → r.count_sql_cache ≡ none
    → r.ids_sql_cache ≡ none
    → IsCoherent c
emptied r c e k l = let same : r ≡ c = ground arith in subst IsCoherent same (without_caches r k l)

ids_of_page :
    (r : RecordsetState) (p : Pager)
    → (ids_of (as_view (set_page p r)) (set_page p r).listing).0 ≡ (ids_of (as_view r) r.listing).0
unfolding ids_of set_page from_clause
ids_of_page r p = refl

count_of_page :
    (r : RecordsetState) (p : Pager)
    → (count_of (as_view (set_page p r)) (set_page p r).listing).0
      ≡ (count_of (as_view r) r.listing).0
unfolding count_of set_page from_clause
count_of_page r p = refl

set_page-IsCoherent : (r : RecordsetState) (p : Pager) → IsCoherent r → IsCoherent (set_page p r)
unfolding set_page
set_page-IsCoherent r p h = record {
  counts = λ sql k. h.counts sql k ∙ sym (count_of_page r p);
  lists = λ sql k. h.lists sql k ∙ sym (ids_of_page r p);
}

-- Every setter empties the caches, but for `SetPage`, whose page the statements do not have.
call-IsCoherent : (r c : RecordsetState) (k : Call) → call r k ≡ ok c → IsCoherent r → IsCoherent c
unfolding call set_filter set_sort add_sort set_page reset
call-IsCoherent r c (loads db fields) e h = do_load-IsCoherent db r c fields e h
call-IsCoherent r c (filters f v) e h = emptied (set_filter f v r) c e refl refl
call-IsCoherent r c (sorts f d) e h = emptied (set_sort f d r) c e refl refl
call-IsCoherent r c (adds_sort f d) e h = emptied (add_sort f d r) c e refl refl
call-IsCoherent r c (pages p) e h =
    let kept : ◌≡◌ {A = Result RecordsetState} (ok (set_page p r)) (ok c) = e in
    let same : set_page p r ≡ c = ground arith in subst IsCoherent same (set_page-IsCoherent r p h)

from_coherent :
    (r c : RecordsetState) (cs : List Call) → calls r cs ≡ ok c → IsCoherent r → IsCoherent c
unfolding calls
from_coherent r c [] e h =
    let kept : ◌≡◌ {A = Result RecordsetState} (ok r) (ok c) = e in
    let same : r ≡ c = ground arith in subst IsCoherent same h
from_coherent r c (k ∷ cs) e h =
    let (d, e1, e2) = >>=-ok (call r k) _ e in from_coherent d c cs e2 (call-IsCoherent r d k e1 h)

-- From a record set with no cached statement, whatever loads, filters, sorts and pages are asked for,
-- if no load fails: a statement that is cached then is the one that would be generated then.
pub calls-IsCoherent :
    (r c : RecordsetState) (cs : List Call)
    → r.count_sql_cache ≡ none
    → r.ids_sql_cache ≡ none
    → calls r cs ≡ ok c
    → IsCoherent c
calls-IsCoherent r c cs e e' h = from_coherent r c cs h (without_caches r e e')
