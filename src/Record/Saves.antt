-- ===== src/Record/Saves.antt =====
-- rec.cpp: what `Record::New` and `Record::Save` do, and what they send.
use kyzddfer.Base.{
  ℕ, ◌≡◌, ◌≢◌, refl, ap, ◌∙◌, Bool, true, false, Option, none, some, List, [], ◌∷◌, ◌++◌, arith,
  if_cases, if◌then◌else◌,
}
use kyzddfer.Base.Assoc.{lookup}
use kyzddfer.Base.Text.{Text, codes, text_dec}
use kyzddfer.Sql.Piece.{Result, ok, ◌>>=◌, >>=-ok, Piece, render, Params, get_ordered_params}
use kyzddfer.Sql.Params.{no_dollar}
use kyzddfer.Sql.Model.{RField, RecordView}
use kyzddfer.Sql.Write.{
  is_written, written, insert_written, update_written, gen_insert, gen_update, get_id_field_value,
}
use kyzddfer.Sql.Columns.{vals, IsWritable, insert_params, update_params}
use kyzddfer.Sql.Texts.{names, insert_text, update_text}
use kyzddfer.Recordset.{modify, flush, set_id, Rows}
use kyzddfer.Record.{
  RecordState, as_view, Database, start_with, new_field, new_fields, new_record, query_with,
  execute_with, load, with_id, take_id, insert_with, update_with, save,
}

start_with-is_modified : (r : RField) (o : Option Text) → (start_with r o).is_modified ≡ false
unfolding start_with flush modify
start_with-is_modified r none = refl
start_with-is_modified r (some v) = refl

new_field-is_modified : (r : RField) → (new_field r).is_modified ≡ false
unfolding new_field
new_field-is_modified r = start_with-is_modified r (lookup text_dec (codes "default") r.pf.attrs)

if_is_true : {A : Type 0} (b : Bool) (x y : A) → b ≡ true → (if b then x else y) ≡ x
if_is_true true x y h = refl
if_is_true false x y h = cc

if_is_false : {A : Type 0} (b : Bool) (x y : A) → b ≡ false → (if b then x else y) ≡ y
if_is_false true x y h = cc
if_is_false false x y h = refl

new_fields-written : (rs : List RField) → written (new_fields rs) ≡ []
unfolding new_fields written is_written
new_fields-written [] = refl
new_fields-written (r ∷ rs) = ground (arith, new_field-is_modified r, new_fields-written rs)

-- A statement that is not empty, with the parameters that are found for it.
insert_with_found :
    {D : Type 0} (db : Database D) (d : D) (r : RecordState) (made : List Piece × Params)
    (vs : List Text)
    → made.0 ≢ []
    → get_ordered_params made.1 (render made.0) ≡ ok vs
    → insert_with db d made r
      ≡ (db.query d (render made.0) vs >>= λ found. take_id found.1 r >>= λ r'. load db found.0 r')
unfolding insert_with query_with
insert_with_found db d r ([], named) vs n e = absurd (n refl)
insert_with_found db d r (p ∷ ps, named) vs n e = rw e

update_with_found :
    {D : Type 0} (db : Database D) (d : D) (r : RecordState) (made : List Piece × Params)
    (vs : List Text)
    → made.0 ≢ []
    → get_ordered_params made.1 (render made.0) ≡ ok vs
    → update_with db d made r ≡ (db.execute d (render made.0) vs >>= λ d'. load db d' r)
unfolding update_with execute_with
update_with_found db d r ([], named) vs n e = absurd (n refl)
update_with_found db d r (p ∷ ps, named) vs n e = rw e

insert_written_ne : (table : Text) (rs : List RField) → rs ≢ [] → (insert_written table rs).0 ≢ []
unfolding insert_written
insert_written_ne table [] n = absurd (n refl)
insert_written_ne table (r ∷ rs) n = λ e. cc

update_written_ne :
    (v : RecordView) (rs : List RField) (sql : List Piece) (params : Params)
    → rs ≢ []
    → update_written v rs ≡ ok (sql, params)
    → sql ≢ []
unfolding update_written
update_written_ne v [] sql params n e = absurd (n refl)
update_written_ne v (r ∷ rs) sql params n e =
    let (id, _, made) = >>=-ok (get_id_field_value v) _ e in λ empty. ground arith

takes :
    (r : RecordState) (f : RField) (c : ℕ) (s : Text) (row : List (Option Text)) (rows : Rows)
    → r.source ≡ some f
    → take_id ((some (c ∷ s) ∷ row) ∷ rows) r
      ≡ ok (record r { source = some (record f { val = c ∷ s; is_null = false }); is_new = false })
unfolding take_id with_id set_id
takes r f c s row rows e = rw e refl

module _ {D : Type 0} (db : Database D) (d : D) (r : RecordState) where
  -- Where no field is to be written, saving sends nothing, and leaves the record as it is.
  pub save_nothing : written r.rfields ≡ [] → save db d r ≡ ok (d, r)
  unfolding save insert_with update_with gen_insert gen_update insert_written update_written
  save_nothing e =
      if_cases (λ x. x ≡ ok (d, r)) r.is_new _ _ (λ new. rw e refl) (λ known. rw e refl)

  -- Saving a new record with fields to write sends one query, an INSERT that names their columns,
  -- with their values in the same order. Where the database answers with a row whose first cell is
  -- not empty, the field of the id, which the record has, gets that cell and is not null, the record
  -- is no longer new, and it is loaded from the database that the INSERT left.
  pub save_insert :
      (f : RField) (d' : D) (c : ℕ) (s : Text) (row : List (Option Text)) (rows : Rows)
      → r.is_new ≡ true
      → no_dollar r.model ≡ true
      → written r.rfields ≢ []
      → IsWritable (written r.rfields)
      → r.source ≡ some f
      → db.query d (insert_text r.model (names (written r.rfields))) (vals (written r.rfields))
        ≡ ok (d', (some (c ∷ s) ∷ row) ∷ rows)
      → save db d r
        ≡ load db d'
            (record r { source = some (record f { val = c ∷ s; is_null = false }); is_new = false })
  unfolding save gen_insert
  save_insert f d' c s row rows new t n w from answered =
      let made = gen_insert (as_view r) in
      let (text, sent) = insert_params (as_view r) t n w in
      let found : db.query d (render made.0) (vals (written r.rfields))
          ≡ ok (d', (some (c ∷ s) ∷ row) ∷ rows) =
        ap (λ sql. db.query d sql (vals (written r.rfields))) text ∙ answered in
      if_is_true r.is_new _ _ new
      ∙ insert_with_found db d r made (vals (written r.rfields))
          (insert_written_ne r.model (written r.rfields) n) sent
      ∙ ap (λ (x : Result (D × Rows)). x >>= λ y. take_id y.1 r >>= λ r'. load db y.0 r') found
      ∙ ap (λ x. x >>= λ r'. load db d' r') (takes r f c s row rows from)

  -- Saving a record that is not new, whose id is known, and that has fields to write, executes one
  -- UPDATE that sets their columns, with their values in the same order and then the id as its
  -- parameters. Where the database does not throw, the record is loaded from the one that is left.
  pub save_update :
      (id : Text) (d' : D)
      → r.is_new ≡ false
      → no_dollar r.model ≡ true
      → written r.rfields ≢ []
      → IsWritable (written r.rfields)
      → get_id_field_value (as_view r) ≡ ok id
      → db.execute d
          (update_text r.model (names (written r.rfields)))
          (vals (written r.rfields) ++ id ∷ [])
        ≡ ok d'
      → save db d r ≡ load db d' r
  unfolding save gen_update
  save_update id d' known t n w e answered =
      let (sql, params, made, text, sent) = update_params (as_view r) id t n w e in
      let values : List Text = vals (written r.rfields) ++ id ∷ [] in
      let done : db.execute d (render sql) values ≡ ok d' =
        ap (λ sql. db.execute d sql values) text ∙ answered in
      if_is_false r.is_new _ _ known
      ∙ ap (λ m. m >>= λ statement. update_with db d statement r) made
      ∙ update_with_found db d r (sql, params) values
          (update_written_ne (as_view r) (written r.rfields) sql params n made) sent
      ∙ ap (λ (x : Result D). x >>= λ d'. load db d' r) done

-- A record that has just been made has nothing to save: no field counts as modified, also where it
-- has a default value.
pub save-new_record :
    {D : Type 0} (db : Database D) (d : D) (r : RecordState)
    → save db d (new_record r) ≡ ok (d, new_record r)
unfolding new_record
save-new_record db d r = save_nothing db d (new_record r) (new_fields-written r.rfields)
