-- ===== src/Sql/Columns.antt =====
-- SqlGenius.h: the parameters of `gen_insert` and `gen_update` are the values of the columns.
use kyzddfer.Base.{
  ◌≡◌, ◌≢◌, refl, ap, sym, ◌∙◌, true, some, List, [], ◌∷◌, ◌++◌, All, arith, map, length,
  length-append, append-nil, if_cases,
}
use kyzddfer.Base.Assoc.{lookup, insert, lookup-insert_ne, lookup-insert_self}
use kyzddfer.Base.Text.{Text, codes, text_dec}
use kyzddfer.Types.{TypeImpl, type_ref, sql_suffix, sql_name}
use kyzddfer.Sql.Piece.{ok, Piece, lit, par, render, Params, get_ordered_params}
use kyzddfer.Sql.Params.{IsName, no_dollar, Breaks, IsSpaced, Sends, get_ordered_params_lem}
use kyzddfer.Sql.Spaced.{IsSpaced-append, Sends-append, Sends-close, no_dollar_name}
use kyzddfer.Sql.Model.{RField, RecordView}
use kyzddfer.Sql.Texts.{names, insert_text, update_text, render-insert, render-update}
use kyzddfer.Sql.Write.{
  is_written, written, insert_written, update_written, column, bind_columns, more_columns,
  more_values, gen_insert, get_id_field_value, where_id, more_sets, gen_update,
}

abbrev pub vals : List RField → List Text
vals = map (λ r. r.val)

-- Columns with names, and no two the same.
abbrev pub IsWritable : List RField → Type 0
IsWritable [] = Unit
IsWritable (r ∷ rs) = IsName (column r) × All (λ q. column r ≢ column q) rs × IsWritable rs

lookup-bind_columns :
    (m : Params) (n : Text) (rs : List RField)
    → All (λ q. n ≢ column q) rs
    → lookup text_dec n (bind_columns m rs) ≡ lookup text_dec n m
unfolding bind_columns
lookup-bind_columns m n [] h = refl
lookup-bind_columns m n (r ∷ rs) h =
    lookup-bind_columns (insert text_dec (column r) r.val m) n rs h.1
    ∙ lookup-insert_ne text_dec (column r) n r.val m h.0

module _ (m : Params) (r : RField) (rs : List RField) (w : IsWritable (r ∷ rs)) where
  lookup-bind_columns_self :
      lookup text_dec (column r) (bind_columns (insert text_dec (column r) r.val m) rs) ≡ some r.val
  lookup-bind_columns_self =
      lookup-bind_columns (insert text_dec (column r) r.val m) (column r) rs w.1
      ∙ lookup-insert_self text_dec (column r) r.val m

more_values-Sends :
    (m : Params) (rs : List RField)
    → IsWritable rs
    → Sends (bind_columns m rs) (more_values rs) (vals rs)
unfolding bind_columns more_values
more_values-Sends m [] w = refl
more_values-Sends m (r ∷ rs) w = (
  lookup-bind_columns_self m r rs w,
  more_values-Sends (insert text_dec (column r) r.val m) rs w.2,
)

more_columns-Sends : (m : Params) (rs : List RField) → Sends m (more_columns rs) []
unfolding more_columns
more_columns-Sends m [] = refl
more_columns-Sends m (r ∷ rs) = more_columns-Sends m rs

more_columns-IsSpaced : (rs : List RField) → IsWritable rs → IsSpaced (more_columns rs)
unfolding more_columns
more_columns-IsSpaced [] w = tt
more_columns-IsSpaced (r ∷ rs) w =
    (refl, (no_dollar_name (column r) w.0.1, more_columns-IsSpaced rs w.2))

more_values-Breaks : (rs : List RField) → Breaks (more_values rs)
unfolding more_values
more_values-Breaks [] = tt
more_values-Breaks (r ∷ rs) = refl

more_values-IsSpaced : (rs : List RField) → IsWritable rs → IsSpaced (more_values rs)
unfolding more_values
more_values-IsSpaced [] w = tt
more_values-IsSpaced (r ∷ rs) w = (refl, (w.0, more_values-Breaks rs, more_values-IsSpaced rs w.2))

-- What an INSERT of at least one column sends.
insert_rows :
    (table : Text) (r : RField) (rs : List RField)
    → no_dollar table ≡ true
    → IsWritable (r ∷ rs)
    → let head : List Piece =
        lit (codes "INSERT INTO ")
        ∷ lit table
        ∷ lit (codes " (")
        ∷ lit (column r)
        ∷ more_columns rs in
      let tail : List Piece =
        (lit (codes ") VALUES (") ∷ par (column r) ∷ more_values rs)
        ++ lit (codes ") RETURNING id;") ∷ [] in
      get_ordered_params (bind_columns [] (r ∷ rs)) (render (head ++ tail)) ≡ ok (vals (r ∷ rs))
unfolding bind_columns
insert_rows table r rs t w =
    let m : Params = bind_columns [] (r ∷ rs) in
    let head : List Piece =
      lit (codes "INSERT INTO ")
      ∷ lit table
      ∷ lit (codes " (")
      ∷ lit (column r)
      ∷ more_columns rs in
    let values : List Piece = lit (codes ") VALUES (") ∷ par (column r) ∷ more_values rs in
    let close : List Piece = lit (codes ") RETURNING id;") ∷ [] in
    get_ordered_params_lem m (head ++ (values ++ close)) (vals (r ∷ rs))
      (IsSpaced-append head (values ++ close)
        (refl, (t, (refl, (no_dollar_name (column r) w.0.1, more_columns-IsSpaced rs w.2))))
        (IsSpaced-append values close
          (refl, (w.0, more_values-Breaks rs, more_values-IsSpaced rs w.2)) (refl, tt) refl)
        refl)
      (Sends-append m head (values ++ close) [] (vals (r ∷ rs)) (more_columns-Sends m rs) (
        Sends-close m values close (vals (r ∷ rs))
          (
            lookup-bind_columns_self [] r rs w,
            more_values-Sends (insert text_dec (column r) r.val []) rs w.2,
          )
          refl))

insert_written_params :
    (table : Text) (rs : List RField)
    → no_dollar table ≡ true
    → IsWritable rs
    → let (sql, params) = insert_written table rs in
      get_ordered_params params (render sql) ≡ ok (vals rs)
unfolding insert_written
insert_written_params table [] t w = get_ordered_params_lem [] [] [] tt refl
insert_written_params table (r ∷ rs) t w = insert_rows table r rs t w

insert_written_text :
    (table : Text) (r : RField) (rs : List RField)
    → render (insert_written table (r ∷ rs)).0 ≡ insert_text table (names (r ∷ rs))
unfolding insert_written
insert_written_text table r rs = render-insert table r rs

insert_by :
    (table : Text) (rs : List RField)
    → no_dollar table ≡ true
    → rs ≢ []
    → IsWritable rs
    → let (sql, params) = insert_written table rs in
      (render sql ≡ insert_text table (names rs))
      × (get_ordered_params params (render sql) ≡ ok (vals rs))
insert_by table [] t n w = absurd (n refl)
insert_by table (r ∷ rs) t n w =
    (insert_written_text table r rs, insert_written_params table (r ∷ rs) t w)

-- An INSERT of at least one field names their columns and, in the same order, a placeholder for
-- each, and its parameters are their values in that order: the i-th placeholder gets the value of
-- the i-th column. No two columns may be the same.
pub insert_params :
    (v : RecordView)
    → no_dollar v.model ≡ true
    → written v.rfields ≢ []
    → IsWritable (written v.rfields)
    → let (sql, params) = gen_insert v in
      (render sql ≡ insert_text v.model (names (written v.rfields)))
      × (get_ordered_params params (render sql) ≡ ok (vals (written v.rfields)))
unfolding gen_insert
insert_params v t n w = insert_by v.model (written v.rfields) t n w

suffixed_ne_id : (n : Text) → n ++ codes "_id" ≢ codes "id"
suffixed_ne_id n e = absurd (omega (arith, ap (length {0}) e, length-append n (codes "_id")))

sql_name_ne_id : (n : Text) (t : TypeImpl) → n ≢ codes "id" → n ++ sql_suffix t ≢ codes "id"
unfolding sql_suffix
sql_name_ne_id n (type_ref t) h = suffixed_ne_id n
sql_name_ne_id n other h = λ e. h (sym (append-nil n) ∙ e)

is_written-ne : (r : RField) → is_written r ≡ true → r.pf.name ≢ codes "id"
unfolding is_written
is_written-ne r h e = ground arith

written-ne-id : (rs : List RField) → All (λ r. column r ≢ codes "id") (written rs)
unfolding written sql_name
written-ne-id [] = tt
written-ne-id (r ∷ rs) =
    if_cases (All (λ q. column q ≢ codes "id")) (is_written r) _ _
      (λ w. (sql_name_ne_id r.pf.name r.pf.type (is_written-ne r w), written-ne-id rs))
      (λ _. written-ne-id rs)

module _ (id : Text) where
  more_sets-Sends :
      (n : Params) (rs : List RField)
      → IsWritable rs
      → All (λ r. column r ≢ codes "id") rs
      → Sends (insert text_dec (codes "id") id (bind_columns n rs)) (more_sets rs) (vals rs)
  unfolding bind_columns more_sets
  more_sets-Sends n [] w h = refl
  more_sets-Sends n (r ∷ rs) w h = (
    lookup-insert_ne text_dec (codes "id") (column r) id _ h.0 ∙ lookup-bind_columns_self n r rs w,
    more_sets-Sends (insert text_dec (column r) r.val n) rs w.2 h.1,
  )

more_sets-Breaks : (rs : List RField) → Breaks (more_sets rs)
unfolding more_sets
more_sets-Breaks [] = tt
more_sets-Breaks (r ∷ rs) = refl

more_sets-IsSpaced : (rs : List RField) → IsWritable rs → IsSpaced (more_sets rs)
unfolding more_sets
more_sets-IsSpaced [] w = tt
more_sets-IsSpaced (r ∷ rs) w = (
  refl,
  (no_dollar_name (column r) w.0.1, (refl, (w.0, more_sets-Breaks rs, more_sets-IsSpaced rs w.2))),
)

id_IsName : IsName (codes "id")
id_IsName = ((λ e. cc), (refl, (refl, tt)))

update_rows :
    (v : RecordView) (r : RField) (rs : List RField) (id : Text)
    → no_dollar v.model ≡ true
    → IsWritable (r ∷ rs)
    → All (λ q. column q ≢ codes "id") (r ∷ rs)
    → get_id_field_value v ≡ ok id
    → (sql : List Piece) × (params : Params) × (update_written v (r ∷ rs) ≡ ok (sql, params))
      × (render sql ≡ update_text v.model (names (r ∷ rs)))
      × (get_ordered_params params (render sql) ≡ ok (vals (r ∷ rs) ++ id ∷ []))
unfolding update_written bind_columns
update_rows v r rs id t w h e =
    let m : Params = insert text_dec (codes "id") id (bind_columns [] (r ∷ rs)) in
    let sets : List Piece =
      lit (codes "UPDATE ")
      ∷ lit v.model
      ∷ lit (codes " SET ")
      ∷ lit (column r)
      ∷ lit (codes " = ")
      ∷ par (column r)
      ∷ more_sets rs in
    let close : List Piece = where_id ++ lit (codes ";") ∷ [] in
    (
      sets ++ close,
      m,
      rw e refl,
      render-update v.model r rs,
      get_ordered_params_lem m (sets ++ close) (vals (r ∷ rs) ++ id ∷ [])
          (IsSpaced-append sets close
            (
              refl,
              (
                t,
                (
                  refl,
                  (
                    no_dollar_name (column r) w.0.1,
                    (refl, (w.0, more_sets-Breaks rs, more_sets-IsSpaced rs w.2)),
                  ),
                ),
              ),
            )
            (refl, (refl, (refl, (id_IsName, refl, (refl, tt))))) refl)
          (Sends-append m sets close (vals (r ∷ rs)) (id ∷ [])
            (
              lookup-insert_ne text_dec (codes "id") (column r) id _ h.0
                  ∙ lookup-bind_columns_self [] r rs w,
              more_sets-Sends id (insert text_dec (column r) r.val []) rs w.2 h.1,
            )
            (lookup-insert_self text_dec (codes "id") id _, refl)),
    )

update_by :
    (v : RecordView) (rs : List RField) (id : Text)
    → written v.rfields ≡ rs
    → rs ≢ []
    → no_dollar v.model ≡ true
    → IsWritable rs
    → All (λ q. column q ≢ codes "id") rs
    → get_id_field_value v ≡ ok id
    → (sql : List Piece) × (params : Params) × (update_written v rs ≡ ok (sql, params))
      × (render sql ≡ update_text v.model (names rs))
      × (get_ordered_params params (render sql) ≡ ok (vals rs ++ id ∷ []))
update_by v [] id q n t w h e = absurd (n refl)
update_by v (r ∷ rs) id q n t w h e = update_rows v r rs id t w h e

-- An UPDATE of a record whose id is known, with at least one field to write, is generated. It sets
-- the column of each field to the placeholder of its name, and its parameters are the values of the
-- fields in that order, and then the id of its WHERE. No two columns may be the same.
pub update_params :
    (v : RecordView) (id : Text)
    → no_dollar v.model ≡ true
    → written v.rfields ≢ []
    → IsWritable (written v.rfields)
    → get_id_field_value v ≡ ok id
    → (sql : List Piece) × (params : Params) × (gen_update v ≡ ok (sql, params))
      × (render sql ≡ update_text v.model (names (written v.rfields)))
      × (get_ordered_params params (render sql) ≡ ok (vals (written v.rfields) ++ id ∷ []))
unfolding gen_update
update_params v id t n w e =
    update_by v (written v.rfields) id refl n t w (written-ne-id v.rfields) e
