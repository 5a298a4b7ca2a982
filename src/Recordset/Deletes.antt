-- ===== src/Recordset/Deletes.antt =====
-- rec.cpp: `Recordset::Delete`, which deletes the selected records, or else the current one.
use kyzddfer.Base.{◌≡◌, refl, ap, Bool, true, false, List, [], ◌∷◌, if◌then◌else◌}
use kyzddfer.Base.Text.{Text}
use kyzddfer.Sql.Piece.{Result, ok, ◌>>=◌, render, get_ordered_params}
use kyzddfer.Sql.Params.{no_dollar}
use kyzddfer.Sql.Texts.{delete_text, render-delete}
use kyzddfer.Sql.Model.{RField, RecordView}
use kyzddfer.Sql.Write.{gen_delete_by_ids}
use kyzddfer.Sql.Writes.{delete_by_ids_params}
use kyzddfer.Recordset.{Query, RecordsetState, as_view, do_load}

-- `SqlDB::execute`: the queries that the database answers afterwards, or an exception.
abbrev pub Execute : Type 0
Execute = Text → List Text → Result Query

unfoldable pub ids_to_delete : List Text → RField → List Text
ids_to_delete (x ∷ selected) source = x ∷ selected
ids_to_delete [] source = if source.is_null then [] else source.val ∷ []

-- The statement and the reload, unless there is no id.
unfoldable pub delete_ids :
    Execute → RecordsetState → List RField → List Text → Result RecordsetState
delete_ids execute r fields [] = ok r
delete_ids execute r fields (x ∷ ids) =
    let made = gen_delete_by_ids (as_view r) (x ∷ ids) in
    do
      params ← get_ordered_params made.1 (render made.0)
      db ← execute (render made.0) params
      do_load db r fields

unfoldable pub delete_rows :
    Execute → RecordsetState → List RField → List Text → Result RecordsetState
delete_rows execute r fields selected =
    delete_ids execute r fields (ids_to_delete selected r.source)

delete_text_of :
    (v : RecordView) (x : Text) (ids : List Text)
    → render (gen_delete_by_ids v (x ∷ ids)).0 ≡ delete_text v.model (x ∷ ids)
unfolding gen_delete_by_ids
delete_text_of v x ids = render-delete v.model x ids

module _ (execute : Execute) (r : RecordsetState) (fields : List RField)
    (t : no_dollar r.model ≡ true) where
  delete_ids_sends :
      (x : Text) (ids : List Text)
      → delete_ids execute r fields (x ∷ ids)
        ≡ (execute (delete_text r.model (x ∷ ids)) (x ∷ ids) >>= λ db. do_load db r fields)
  unfolding delete_ids
  delete_ids_sends x ids = rw (delete_by_ids_params (as_view r) (x ∷ ids) t) (
      ap (λ sql. execute sql (x ∷ ids) >>= λ db. do_load db r fields)
        (delete_text_of (as_view r) x ids))

  none_selected :
      (b : Bool)
      → delete_ids execute r fields (if b then [] else r.source.val ∷ []) ≡ (
          if b
          then ok r
          else (execute (delete_text r.model (r.source.val ∷ [])) (r.source.val ∷ []) >>= λ db.
              do_load db r fields))
  unfolding delete_ids
  none_selected true = refl
  none_selected false = delete_ids_sends r.source.val []

  -- With records selected, a deletion executes one DELETE of their ids, whichever record is the
  -- current one, and then loads the record set from the database that is left. With none selected it
  -- does the same for the id of the current record, and nothing where there is no current record.
  pub delete_rows_lem :
      ((x : Text) (xs : List Text)
        → delete_rows execute r fields (x ∷ xs)
          ≡ (execute (delete_text r.model (x ∷ xs)) (x ∷ xs) >>= λ db. do_load db r fields))
      × (delete_rows execute r fields [] ≡ (
          if r.source.is_null
          then ok r
          else (execute (delete_text r.model (r.source.val ∷ [])) (r.source.val ∷ []) >>= λ db.
              do_load db r fields)))
  unfolding delete_rows ids_to_delete
  delete_rows_lem = ((λ x xs. delete_ids_sends x xs), none_selected r.source.is_null)
