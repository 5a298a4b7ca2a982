-- ===== src/Record.antt =====
-- libkycore/rec.cpp: `Record`, one record in an editor, over the statements of `SqlGenius`.
-- The database is a state that the statements read and change. `rkey.srcRField` is a field of the
-- record that refers to this one, so it is none of `rfields`.
pub mod Fields
pub mod Known
pub mod Saves
mod FieldTests
mod Tests
use kyzddfer.Base.{Bool, true, false, not, Option, none, some, List, [], ◌∷◌, if◌then◌else◌}
use kyzddfer.Base.Assoc.{lookup}
use kyzddfer.Base.Text.{Text, codes, text_dec}
use kyzddfer.Sql.Piece.{
  Result, ok, err, ◌>>=◌, no_new_id, Piece, render, Params, get_ordered_params,
}
use kyzddfer.Sql.Model.{RField, RecordView}
use kyzddfer.Sql.Select.{gen_select_one}
use kyzddfer.Sql.Write.{gen_insert, gen_update, gen_delete}
use kyzddfer.Recordset.{modify, set_id, flush, Rows, write_row}

pub record RecordState : Type 0 where
  pub model : Text
  pub source : Option RField
  pub rfields : List RField
  pub is_new : Bool
  pub visible_fields : List RField

abbrev pub as_view : RecordState → RecordView
as_view r = record { model = r.model; source = r.source; rfields = r.rfields; listing = none }

-- `SqlDB`: `query` and `execute`, which the driver and the server implement. Each may change the
-- database, and may throw.
pub record Database (D : Type 0) : Type 0 where
  pub query : D → Text → List Text → Result (D × Rows)
  pub execute : D → Text → List Text → Result D

-- The value that a field of a new record starts with.
unfoldable pub start_with : RField → Option Text → RField
start_with r none = flush r
start_with r (some v) = record (modify r (some v)) { is_modified = false }

unfoldable pub new_field : RField → RField
new_field r = start_with r (lookup text_dec (codes "default") r.pf.attrs)

unfoldable pub new_fields : List RField → List RField
new_fields [] = []
new_fields (r ∷ rs) = new_field r ∷ new_fields rs

-- `Record::New`.
unfoldable pub new_record : RecordState → RecordState
new_record r = record r { is_new = true; rfields = new_fields r.rfields }

-- The fields that were not modified, in their order.
unfoldable pub unmodified : List RField → List RField
unmodified [] = []
unmodified (r ∷ rs) = if r.is_modified then unmodified rs else r ∷ unmodified rs

-- What `doLoad` does with the rows.
unfoldable pub fill : List RField → Rows → RecordState → RecordState
fill fields [] r = r
fill fields (row ∷ rows) r = record r { rfields = write_row fields row r.rfields; is_new = false }

-- `rkey.srcRField->setId`. There is no such field where the code has a null pointer.
unfoldable pub with_id : Text → Option RField → Option RField
with_id v none = none
with_id v (some f) = some (set_id f v)

-- What `Save` takes from the first row.
unfoldable pub take_id : Rows → RecordState → Result RecordState
take_id [] r = err no_new_id
take_id ([] ∷ rows) r = err no_new_id
take_id ((none ∷ row) ∷ rows) r = ok (record r { source = with_id [] r.source; is_new = false })
take_id ((some v ∷ row) ∷ rows) r = ok (record r { source = with_id v r.source; is_new = false })

module _ {D : Type 0} (db : Database D) where
  -- A statement that is not empty, with its parameters in their order.
  unfoldable pub query_with : D → List Piece → Params → Result (D × Rows)
  query_with d sql named = do
    params ← get_ordered_params named (render sql)
    db.query d (render sql) params

  unfoldable pub execute_with : D → List Piece → Params → Result D
  execute_with d sql named = do
    params ← get_ordered_params named (render sql)
    db.execute d (render sql) params

  -- `Record::doLoad`.
  unfoldable pub do_load : D → List RField → RecordState → Result (D × RecordState)
  do_load d [] r = ok (d, r)
  do_load d (f ∷ fields) r = do
    (sql, named) ← gen_select_one (as_view r) (f ∷ fields)
    (d', rows) ← query_with d sql named
    ok (d', fill (f ∷ fields) rows r)

  unfoldable pub load : D → RecordState → Result (D × RecordState)
  load d r = do_load d r.visible_fields r

  unfoldable pub refresh : D → RecordState → Result (D × RecordState)
  refresh d r = do_load d (unmodified r.rfields) r

  -- The empty statement ends `Save` early.
  unfoldable pub insert_with : D → List Piece × Params → RecordState → Result (D × RecordState)
  insert_with d ([], named) r = ok (d, r)
  insert_with d (p ∷ ps, named) r = do
    (d', rows) ← query_with d (p ∷ ps) named
    r' ← take_id rows r
    load d' r'

  unfoldable pub update_with : D → List Piece × Params → RecordState → Result (D × RecordState)
  update_with d ([], named) r = ok (d, r)
  update_with d (p ∷ ps, named) r = do d' ← execute_with d (p ∷ ps) named; load d' r

  -- `Record::Save`.
  unfoldable pub save : D → RecordState → Result (D × RecordState)
  save d r =
      if r.is_new
      then insert_with d (gen_insert (as_view r)) r
      else (gen_update (as_view r) >>= λ made. update_with d made r)

  -- `Record::Delete`.
  unfoldable pub delete_record : D → RecordState → Result D
  delete_record d r =
      if r.is_new then ok d else (gen_delete (as_view r) >>= λ made. execute_with d made.0 made.1)

  unfoldable pub undo : D → RecordState → Result (D × RecordState)
  undo d r = if r.is_new then ok (d, new_record r) else load d r
