-- ===== src/Recordset.antt =====
-- libkycore/rec.cpp: `RField` and `Recordset`, over the statements of `SqlGenius`.
pub mod Caches
pub mod Filled
pub mod Visits
pub mod Deletes
pub mod Unsent
pub mod Paging
mod Tests
use kyzddfer.Base.{
  ℕ, zero, suc, ◌+◌, ◌-◌, ◌%◌, ◌^◌, Bool, true, false, ◌&&◌, Option, none, some, List, [], ◌∷◌,
  ◌++◌, ltb, if◌then◌else◌, ite, length,
}
use kyzddfer.Base.Text.{Text, text_dec}
use kyzddfer.Layout.Apps.{Signed, plus, minus, stoi}
use kyzddfer.Sql.Piece.{
  Result, ok, err, ◌>>=◌, bad_value, Piece, render, Params, get_ordered_params,
}
use kyzddfer.Sql.Model.{QTable, alias, RField, Filter, Sort, Direction, Pager, Listing, RecordView}
use kyzddfer.Sql.Select.{gen_select_count, gen_select_ids, gen_select_by_ids}
use kyzddfer.Sql.Write.{gen_delete_by_ids}

-- `RField::set`, `modify`, `setId` and `flush`. The text is what `val` views.
unfoldable pub set : RField → Option Text → RField
set r none = record r { is_modified = false; is_null = true; val = [] }
set r (some v) = record r { is_modified = false; is_null = false; val = v }

unfoldable pub modify : RField → Option Text → RField
modify r none = record r { is_modified = true; is_null = true; val = [] }
modify r (some v) = record r { is_modified = true; is_null = false; val = v }

unfoldable pub set_id : RField → Text → RField
set_id r [] = record r { is_null = true; val = [] }
set_id r (c ∷ s) = record r { is_null = false; val = c ∷ s }

unfoldable pub flush : RField → RField
flush r = record r { is_modified = false; is_null = true; val = [] }

-- `SqlDB::Result`, row by row; a cell that is null is `none`.
abbrev pub Rows : Type 0
Rows = List (List (Option Text))

-- `SqlDB::query` and `query_once`, which the driver and the server implement: a statement and its
-- parameters give rows, or an exception.
abbrev pub Query : Type 0
Query = Text → List Text → Result Rows

-- `next_row` is `cursor_idx_for_next + 1`.
pub record RecordsetState : Type 0 where
  pub model : Text
  pub source : RField
  pub rfields : List RField
  pub listing : Listing
  pub total_count : ℕ
  pub count_sql_cache : Option (List Piece)
  pub ids_sql_cache : Option (List Piece)
  pub page_cursor_ids : Option (List Text)
  pub fields_in_last_query : List RField
  pub res : Option Rows
  pub next_row : ℕ

-- What the generator sees.
abbrev pub as_view : RecordsetState → RecordView
as_view r = record {
  model = r.model;
  source = some r.source;
  rfields = r.rfields;
  listing = some r.listing;
}

-- A cached statement, or a new one with the parameters that its generation leaves.
unfoldable pub cached :
    Option (List Piece) → Params → Result (List Piece × Params) → Result (List Piece × Params)
cached (some sql) named generated = ok (sql, named)
cached none named generated = generated

-- `getOrderedParams`, then the query.
unfoldable pub ask : Query → Params → List Piece → Result Rows
ask db named sql = do params ← get_ordered_params named (render sql); db (render sql) params

-- The assignment of an `int` to `total_count`, which has 32 bits and no sign.
unfoldable pub to_uint32 : Signed → ℕ
to_uint32 (plus n) = n % 2 ^ 32
to_uint32 (minus n) = (2 ^ 32 - n % 2 ^ 32) % 2 ^ 32

-- `std::stoi` of the first cell, which `value()` wants to be there. It throws where the text starts
-- with no number, or with one that is no `int`.
unfoldable pub to_count : List (Option Text) → Result ℕ
to_count [] = err bad_value
to_count (none ∷ row) = err bad_value
to_count (some t ∷ row) = elim (stoi t) [ none ↦ err bad_value | some n ↦ ok (to_uint32 n) ]

unfoldable pub count_rows : Rows → Result ℕ
count_rows [] = ok 0
count_rows (row ∷ rows) = to_count row

-- The first column, which `value()` wants to be there.
unfoldable pub first_column : Rows → Result (List Text)
first_column [] = ok []
first_column ([] ∷ rows) = err bad_value
first_column ((none ∷ row) ∷ rows) = err bad_value
first_column ((some v ∷ row) ∷ rows) = do ids ← first_column rows; ok (v ∷ ids)

-- The three steps of `doLoad`, over the `namedParams` of its one generator. No statement that the
-- first two cache is empty.
unfoldable pub load_count : Query → RecordsetState → Params → Result (RecordsetState × Params)
load_count db r named = do
  (sql, named') ← cached r.count_sql_cache named (gen_select_count (as_view r))
  rows ← ask db named' sql
  total ← count_rows rows
  ok (record r { count_sql_cache = some sql; total_count = total }, named')

unfoldable pub new_ids : Query → RecordsetState → Params → Result (RecordsetState × Params)
new_ids db r named = do
  (sql, named') ← cached r.ids_sql_cache named (gen_select_ids (as_view r))
  rows ← ask db named' sql
  ids ← first_column rows
  ok (record r { ids_sql_cache = some sql; page_cursor_ids = some ids }, named')

unfoldable pub load_ids : Query → RecordsetState → Params → Result (RecordsetState × Params)
unfolding new_ids
load_ids db r named = elim r.page_cursor_ids [
  | some ids ↦ ok (r, named)
  | none ↦ new_ids db r named
]

unfoldable pub page_rows : Query → RecordsetState → List RField → List Text → Result (Option Rows)
page_rows db r [] ids = ok none
page_rows db r (f ∷ fields) [] = ok none
page_rows db r (f ∷ fields) (x ∷ ids) =
    let page = gen_select_by_ids (as_view r) (f ∷ fields) (x ∷ ids) in
    do rows ← ask db page.1 page.0; ok (some rows)

unfoldable pub load_page : Query → RecordsetState → List RField → Result RecordsetState
unfolding page_rows
load_page db r fields = elim r.page_cursor_ids [
  | none ↦ ok (record r { res = none; fields_in_last_query = fields; next_row = 0 })
  | some ids ↦ do
    rows ← page_rows db r fields ids
    ok (record r { res = rows; fields_in_last_query = fields; next_row = 0 })
]

-- `Recordset::doLoad`. What an exception leaves of the state is not modelled.
unfoldable pub do_load : Query → RecordsetState → List RField → Result RecordsetState
do_load db r fields = do
  (counted, named) ← load_count db r []
  (listed, _) ← load_ids db counted named
  load_page db listed fields

-- Two references to one field: a record has one field for each qualified field.
abbrev pub same_field : RField → RField → Bool
same_field a b =
    ite (text_dec (alias a.pqt) (alias b.pqt)) (ite (text_dec a.pf.name b.pf.name) true false) false

-- `find_if`, then the update or the `push_back`.
unfoldable pub put_filter : RField → Text → List Filter → List Filter
put_filter f v [] = record { rfield = f; value = v } ∷ []
put_filter f v (g ∷ gs) =
    if same_field g.rfield f then record g { value = v } ∷ gs else g ∷ put_filter f v gs

-- What each of `SetFilter`, `SetSort` and `AddSort` resets.
unfoldable pub reset : Listing → RecordsetState → RecordsetState
reset l r = record r {
  listing = record l { pager = record { offset = 0; limit = l.pager.limit } };
  count_sql_cache = none;
  ids_sql_cache = none;
  page_cursor_ids = none;
}

-- The callers pass fields of this recordset, which the code asserts.
unfoldable pub set_filter : RField → Text → RecordsetState → RecordsetState
set_filter f v r =
    let l = r.listing in
    reset (record { filters = put_filter f v l.filters; sorts = l.sorts; pager = l.pager }) r

unfoldable pub set_sort : RField → Direction → RecordsetState → RecordsetState
set_sort f d r =
    let l = r.listing in
    reset
      (record { filters = l.filters; sorts = record { rfield = f; dir = d } ∷ []; pager = l.pager })
      r

unfoldable pub add_sort : RField → Direction → RecordsetState → RecordsetState
add_sort f d r =
    let l = r.listing in
    reset
      (record {
        filters = l.filters;
        sorts = l.sorts ++ record { rfield = f; dir = d } ∷ [];
        pager = l.pager;
      })
      r

unfoldable pub set_page : Pager → RecordsetState → RecordsetState
set_page p r =
    let l = r.listing in
    record r {
      listing = record { filters = l.filters; sorts = l.sorts; pager = p };
      page_cursor_ids = none;
    }

unfoldable pub row_id : ℕ → List Text → Text
row_id i [] = []
row_id zero (x ∷ ids) = x
row_id (suc i) (x ∷ ids) = row_id i ids

-- `SetCurrentRow`: past the page, and without one, the id is cleared.
unfoldable pub set_current_row : ℕ → RecordsetState → RecordsetState
set_current_row i r = elim r.page_cursor_ids [
  | none ↦ record r { source = set_id r.source [] }
  | some ids ↦ record r { source = set_id r.source (row_id i ids) }
]

-- `ApplySelection` writes to the field that the list was opened for, if there is one.
unfoldable pub apply_selection : RecordsetState → Option RField → Option RField
apply_selection r none = none
apply_selection r (some lookup) = some (modify lookup (some r.source.val))

-- `getRField`'s object, written through its address.
unfoldable pub write_field : RField → Option Text → List RField → List RField
write_field f v [] = []
write_field f v (g ∷ gs) = if same_field g f then set g v ∷ gs else g ∷ write_field f v gs

-- The loop of `next` over the columns.
unfoldable pub write_row : List RField → List (Option Text) → List RField → List RField
write_row [] row fs = fs
write_row (q ∷ qs) [] fs = fs
write_row (q ∷ qs) (v ∷ row) fs = write_row qs row (write_field q v fs)

unfoldable pub row_at : ℕ → Rows → Option (List (Option Text))
row_at i [] = none
row_at zero (row ∷ rows) = some row
row_at (suc i) (row ∷ rows) = row_at i rows

unfoldable pub next : RecordsetState → RecordsetState × Bool
next r = elim r.res [
  | none ↦ (r, false)
  | some rows ↦ elim (row_at r.next_row rows) [
    | none ↦ (record r { res = none; next_row = 0 }, false)
    | some row ↦ (
      record r {
        next_row = r.next_row + 1;
        rfields = write_row r.fields_in_last_query row r.rfields;
      },
      true,
    )
  ]
]
