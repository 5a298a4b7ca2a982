-- ===== src/Recordset/Tests.antt =====
-- Runs of rec.cpp over a database that answers every query in one way, and its theorems there.
use kyzddfer.Base.{
  suc, ◌+◌, ◌++◌, length, ◌≡◌, refl, Bool, true, false, none, some, List, [], ◌∷◌, if◌then◌else◌,
}
use kyzddfer.Base.Assoc.{lookup, insert, remove}
use kyzddfer.Base.Decimal.{to_string}
use kyzddfer.Base.Order.{text_lt}
use kyzddfer.Base.Text.{Text, codes, text_dec}
use kyzddfer.Types.{type_text, sql_name, sql_suffix, leading, split_first}
use kyzddfer.Sql.Piece.{Error, ◌>>=◌, Result, ok, err, render, scan, get_ordered_params}
use kyzddfer.Sql.Model.{master, RField}
use kyzddfer.Sql.Filter.{
  classify, segments_from, conditions, emit, bind, clause, more_conditions, bind_conditions,
  filter_sql, filter_params, insert_absent, more_filters, where_filters, bind_filters,
}
use kyzddfer.Sql.Select.{
  emplace, add_filters, add_sorts, add_table, add_fields, erase_used, join_loop, from_clause,
  order_by, bind_pager, used_by, count_of, gen_select_count, ids_of, gen_select_ids,
  gen_select_by_ids, select_by_ids, select_clause, more_fields, sort_clause,
}
use kyzddfer.Sql.Write.{bind_ids, id_list, more_ids}
use kyzddfer.Sql.Texts.{delete_text}
use kyzddfer.Layout.Apps.{stoi, digits_of}
use kyzddfer.Recordset.{
  Query, Rows, set_filter, put_filter, reset, RecordsetState, do_load, set_page, cached, ask,
  load_count, load_ids, new_ids, load_page, page_rows, count_rows, to_count, to_uint32,
  first_column,
}
use kyzddfer.Recordset.Caches.{Call, loads, filters, call, calls, IsCoherent, calls-IsCoherent}
use kyzddfer.Recordset.Filled.{IsApart, filled_rows}
use kyzddfer.Recordset.Visits.{visits, no_rows, visits_lem}
use kyzddfer.Recordset.Deletes.{Execute, delete_rows, delete_rows_lem}
use kyzddfer.Recordset.Paging.{page_change_fails}

program : Unit {0}
unfolding call calls set_filter put_filter reset classify segments_from split_first conditions emit
    bind clause more_conditions bind_conditions filter_sql filter_params insert_absent more_filters
    lookup insert remove text_lt to_string text_dec sql_name sql_suffix leading render scan
    get_ordered_params where_filters bind_filters emplace add_filters add_sorts add_table add_fields
    erase_used join_loop from_clause order_by bind_pager used_by count_of gen_select_count ids_of
    gen_select_ids gen_select_by_ids select_by_ids select_clause more_fields sort_clause bind_ids
    id_list more_ids do_load cached ask load_count load_ids new_ids load_page page_rows count_rows
    to_count to_uint32 stoi digits_of first_column
program = tt

-- One row with the number 5 for every query.
abbrev fives : Query
fives sql params = ok ((some (codes "5") ∷ []) ∷ [])

abbrev title : RField
title = record {
  pqt = master (codes "book");
  pf = record { name = codes "title"; type = type_text; attrs = [] };
  val = [];
  is_null = true;
  is_modified = false;
}

abbrev books : RecordsetState
books = record {
  model = codes "book";
  source = title;
  rfields = title ∷ [];
  listing = record { filters = []; sorts = []; pager = record { offset = 0; limit = 20 } };
  total_count = 0;
  count_sql_cache = none;
  ids_sql_cache = none;
  page_cursor_ids = none;
  fields_in_last_query = [];
  res = none;
  next_row = 0;
}

abbrev is_ok {ℓ} : {A : Type ℓ} → Result A → Bool
is_ok (ok a) = true
is_ok (err e) = false

value_of {ℓ} : {A : Type ℓ} (x : Result A) → is_ok x ≡ true → (a : A) × (x ≡ ok a)
value_of (ok a) h = (a, refl)
value_of (err e) h = cc

books_load : is_ok (do_load fives books (title ∷ [])) ≡ true
unfolding program
books_load = refl

abbrev loaded : RecordsetState
loaded = (value_of (do_load fives books (title ∷ [])) books_load).0

page_change_fails_example :
    (e : Error) × (do_load fives (set_page (record { offset = 20; limit = 20 }) loaded) (title ∷ [])
      ≡ err e)
page_change_fails_example =
    page_change_fails fives fives books loaded (title ∷ []) (title ∷ [])
      (record { offset = 20; limit = 20 }) refl refl
      (value_of (do_load fives books (title ∷ [])) books_load).1

abbrev session : List Call
session = loads fives (title ∷ []) ∷ filters title (codes "9") ∷ loads fives (title ∷ []) ∷ []

session_runs : is_ok (calls books session) ≡ true
unfolding program
session_runs = refl

calls-IsCoherent_example : IsCoherent (value_of (calls books session) session_runs).0
calls-IsCoherent_example =
    calls-IsCoherent books (value_of (calls books session) session_runs).0 session refl refl
      (value_of (calls books session) session_runs).1

abbrev two_rows : Rows
two_rows = (some (codes "Kobzar") ∷ []) ∷ (none ∷ []) ∷ []

abbrev opened : RecordsetState
opened = record books { res = some two_rows; fields_in_last_query = title ∷ [] }

books-IsApart : IsApart opened.rfields
books-IsApart = (tt, tt)

visits_lem_example :
    visits (length two_rows + suc 1) opened
    ≡ filled_rows opened.fields_in_last_query opened.rfields two_rows ++ no_rows (suc 1)
visits_lem_example = visits_lem opened two_rows 1 refl refl books-IsApart

abbrev deletes : Execute
deletes sql ids = ok fives

delete_rows_lem_example :
    ((x : Text) (xs : List Text)
      → delete_rows deletes books (title ∷ []) (x ∷ xs) ≡ (
          deletes (delete_text books.model (x ∷ xs)) (x ∷ xs) >>= λ db.
          do_load db books (title ∷ [])))
    × (delete_rows deletes books (title ∷ []) [] ≡ (
        if books.source.is_null
        then ok books
        else (deletes (delete_text books.model (books.source.val ∷ [])) (books.source.val ∷ [])
            >>= λ db. do_load db books (title ∷ []))))
delete_rows_lem_example = delete_rows_lem deletes books (title ∷ []) refl
