-- ===== src/Sql/Write.antt =====
-- SqlGenius.h: `gen_insert`, `gen_update`, `gen_delete` and `gen_delete_by_ids`. Each returns the
-- statement with the `namedParams` that it leaves.
use kyzddfer.Base.{
  ℕ, ◌+◌, Bool, true, false, ◌||◌, not, none, some, List, [], ◌∷◌, ◌++◌, ite, if◌then◌else◌,
}
use kyzddfer.Base.Assoc.{insert}
use kyzddfer.Base.Decimal.{to_string}
use kyzddfer.Base.Text.{Text, codes, text_dec}
use kyzddfer.Types.{sql_name}
use kyzddfer.Sql.Piece.{Result, ok, err, ◌>>=◌, id_not_available, Piece, lit, par, Params}
use kyzddfer.Sql.Model.{is_master, RField, RecordView}

abbrev pub is_id : Text → Bool
is_id n = ite (text_dec n (codes "id")) true false

-- The test of both loops: a modified field of the model's own table, and not the id.
unfoldable pub is_written : RField → Bool
unfolding text_dec
is_written r = not (not (is_master r.pqt) || not r.is_modified || is_id r.pf.name)

unfoldable pub written : List RField → List RField
written [] = []
written (r ∷ rs) = if is_written r then r ∷ written rs else written rs

abbrev pub column : RField → Text
column r = sql_name r.pf

-- `namedParams[param_name] = val`, over the fields in their order.
unfoldable pub bind_columns : Params → List RField → Params
bind_columns m [] = m
bind_columns m (r ∷ rs) = bind_columns (insert text_dec (column r) r.val m) rs

-- What the loop of `gen_insert` appends behind the first column, to `columns` and to `values`.
unfoldable pub more_columns : List RField → List Piece
more_columns [] = []
more_columns (r ∷ rs) = lit (codes ", ") ∷ lit (column r) ∷ more_columns rs

unfoldable pub more_values : List RField → List Piece
more_values [] = []
more_values (r ∷ rs) = lit (codes ", ") ∷ par (column r) ∷ more_values rs

unfoldable pub insert_written : Text → List RField → List Piece × Params
insert_written table [] = ([], [])
insert_written table (r ∷ rs) = (
  (lit (codes "INSERT INTO ") ∷ lit table ∷ lit (codes " (") ∷ lit (column r) ∷ more_columns rs)
      ++ ((lit (codes ") VALUES (") ∷ par (column r) ∷ more_values rs)
          ++ lit (codes ") RETURNING id;") ∷ []),
  bind_columns [] (r ∷ rs),
)

-- The empty statement says that there is nothing to insert.
unfoldable pub gen_insert : RecordView → List Piece × Params
unfolding insert_written
gen_insert v = insert_written v.model (written v.rfields)

-- `getIdFieldValue`.
unfoldable pub get_id_field_value : RecordView → Result Text
get_id_field_value v = elim v.source [
  | none ↦ err id_not_available
  | some r ↦ if r.is_null then err id_not_available else ok r.val
]

-- `sql_clause_where_id`.
abbrev pub where_id : List Piece
where_id =
    lit (codes "\nWHERE ") ∷ lit (codes "master") ∷ lit (codes ".id = ") ∷ par (codes "id") ∷ []

unfoldable pub more_sets : List RField → List Piece
more_sets [] = []
more_sets (r ∷ rs) =
    lit (codes ", ") ∷ lit (column r) ∷ lit (codes " = ") ∷ par (column r) ∷ more_sets rs

unfoldable pub update_written : RecordView → List RField → Result (List Piece × Params)
update_written v [] = ok ([], [])
update_written v (r ∷ rs) = do
  id ← get_id_field_value v
  ok (
    (lit (codes "UPDATE ")
          ∷ lit v.model
          ∷ lit (codes " SET ")
          ∷ lit (column r)
          ∷ lit (codes " = ")
          ∷ par (column r)
          ∷ more_sets rs)
        ++ (where_id ++ lit (codes ";") ∷ []),
    insert text_dec (codes "id") id (bind_columns [] (r ∷ rs)),
  )

unfoldable pub gen_update : RecordView → Result (List Piece × Params)
unfolding update_written
gen_update v = update_written v (written v.rfields)

unfoldable pub gen_delete : RecordView → Result (List Piece × Params)
gen_delete v = do
  id ← get_id_field_value v
  ok (
    (lit (codes "DELETE FROM ") ∷ lit v.model ∷ []) ++ (where_id ++ lit (codes ";") ∷ []),
    insert text_dec (codes "id") id [],
  )

abbrev pub id_name : ℕ → Text
id_name i = codes "id_" ++ to_string i

-- The loop over the ids behind the first, from an index.
unfoldable pub more_ids : ℕ → List Text → List Piece
more_ids i [] = []
more_ids i (x ∷ ids) = lit (codes ", ") ∷ par (id_name i) ∷ more_ids (i + 1) ids

unfoldable pub bind_ids : Params → ℕ → List Text → Params
bind_ids m i [] = m
bind_ids m i (x ∷ ids) = bind_ids (insert text_dec (id_name i) x m) (i + 1) ids

unfoldable pub id_list : List Text → List Piece
id_list [] = []
id_list (x ∷ ids) = par (id_name 0) ∷ more_ids 1 ids

unfoldable pub gen_delete_by_ids : RecordView → List Text → List Piece × Params
gen_delete_by_ids v [] = ([], [])
gen_delete_by_ids v (x ∷ ids) = (
  (lit (codes "DELETE FROM ") ∷ lit v.model ∷ lit (codes "\nWHERE id IN (") ∷ [])
      ++ (id_list (x ∷ ids) ++ lit (codes ");") ∷ []),
  bind_ids [] 0 (x ∷ ids),
)
