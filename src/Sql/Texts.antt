-- ===== src/Sql/Texts.antt =====
-- SqlGenius.h: the texts of the writing statements, described from the names of their columns.
use kyzddfer.Base.{ℕ, ◌+◌, ◌≡◌, refl, ap, sym, ◌∙◌, List, [], ◌∷◌, ◌++◌, map, append_assoc}
use kyzddfer.Base.Decimal.{to_string}
use kyzddfer.Base.Text.{Text, codes}
use kyzddfer.Sql.Piece.{Piece, lit, par, render}
use kyzddfer.Sql.Model.{RField}
use kyzddfer.Sql.Write.{
  column, more_columns, more_values, more_sets, where_id, id_name, more_ids, id_list,
}

-- The texts, each behind a comma.
unfoldable pub behind : List Text → Text
behind [] = []
behind (x ∷ xs) = codes ", " ++ (x ++ behind xs)

-- The texts with commas between them.
unfoldable pub joined : List Text → Text
joined [] = []
joined (x ∷ xs) = x ++ behind xs

abbrev pub names : List RField → List Text
names = map column

-- A parameter of each name.
abbrev pub parameters : List Text → List Text
parameters = map (λ n. b'$' ∷ n)

-- A column set to the parameter of its name.
abbrev pub assignments : List Text → List Text
assignments = map (λ n. n ++ (codes " = " ++ b'$' ∷ n))

abbrev pub insert_text : Text → List Text → Text
insert_text table columns =
    codes "INSERT INTO "
    ++ (table
        ++ (codes " ("
            ++ (joined columns
                ++ (codes ") VALUES ("
                    ++ (joined (parameters columns) ++ codes ") RETURNING id;")))))

abbrev pub update_text : Text → List Text → Text
update_text table columns =
    codes "UPDATE "
    ++ (table
        ++ (codes " SET " ++ (joined (assignments columns) ++ codes "\nWHERE master.id = $id;")))

-- The parameters of the ids, by their places from an index on.
unfoldable pub id_parameters : ℕ → List Text → List Text
id_parameters i [] = []
id_parameters i (x ∷ ids) = (b'$' ∷ (codes "id_" ++ to_string i)) ∷ id_parameters (i + 1) ids

abbrev pub delete_text : Text → List Text → Text
delete_text table ids =
    codes "DELETE FROM "
    ++ (table ++ (codes "\nWHERE id IN (" ++ (joined (id_parameters 0 ids) ++ codes ");")))

pub render-append : (ps qs : List Piece) → render (ps ++ qs) ≡ render ps ++ render qs
unfolding render
render-append [] qs = refl
render-append (lit t ∷ ps) qs =
    ap (◌++◌ t) (render-append ps qs) ∙ sym (append_assoc t (render ps) (render qs))
render-append (par n ∷ ps) qs =
    ap (◌∷◌ b'$') (ap (◌++◌ n) (render-append ps qs) ∙ sym (append_assoc n (render ps) (render qs)))

pub render-more_columns : (rs : List RField) → render (more_columns rs) ≡ behind (names rs)
unfolding render more_columns behind
render-more_columns [] = refl
render-more_columns (r ∷ rs) = ap (λ t. codes ", " ++ (column r ++ t)) (render-more_columns rs)

pub render-more_values :
    (rs : List RField) → render (more_values rs) ≡ behind (parameters (names rs))
unfolding render more_values behind
render-more_values [] = refl
render-more_values (r ∷ rs) = ap (λ t. codes ", " ++ b'$' ∷ (column r ++ t)) (render-more_values rs)

pub render-more_sets : (rs : List RField) → render (more_sets rs) ≡ behind (assignments (names rs))
unfolding render more_sets behind
render-more_sets [] = refl
render-more_sets (r ∷ rs) =
    let set : Text = codes " = " ++ b'$' ∷ column r in
    ap (λ t. codes ", " ++ (column r ++ (codes " = " ++ b'$' ∷ (column r ++ t))))
      (render-more_sets rs)
    ∙ ap (λ t. codes ", " ++ t)
        (sym (append_assoc (column r) set (behind (assignments (names rs)))))

-- A text, then the pieces behind it, of which the first render as another text.
render_behind :
    (t behind : Text) (ps qs : List Piece)
    → render ps ≡ behind
    → t ++ render (ps ++ qs) ≡ (t ++ behind) ++ render qs
render_behind t behind ps qs e =
    ap (◌++◌ t) (render-append ps qs ∙ ap (λ u. u ++ render qs) e)
    ∙ sym (append_assoc t behind (render qs))

-- The text of an INSERT that writes at least one column.
pub render-insert :
    (table : Text) (r : RField) (rs : List RField)
    → render (
        (lit (codes "INSERT INTO ")
          ∷ lit table
          ∷ lit (codes " (")
          ∷ lit (column r)
          ∷ more_columns rs)
        ++ ((lit (codes ") VALUES (") ∷ par (column r) ∷ more_values rs)
            ++ lit (codes ") RETURNING id;") ∷ []))
      ≡ insert_text table (names (r ∷ rs))
unfolding render joined
render-insert table r rs =
    let close : List Piece = lit (codes ") RETURNING id;") ∷ [] in
    let values : List Piece = lit (codes ") VALUES (") ∷ par (column r) ∷ more_values rs in
    let columns : Text = column r ++ behind (names rs) in
    ap (λ t. codes "INSERT INTO " ++ (table ++ (codes " (" ++ t)))
      (render_behind (column r) (behind (names rs)) (more_columns rs) (values ++ close)
          (render-more_columns rs)
        ∙ ap (λ t. columns ++ (codes ") VALUES (" ++ b'$' ∷ t))
            (render_behind (column r) (behind (parameters (names rs))) (more_values rs) close
              (render-more_values rs)))

-- The text of an UPDATE that sets at least one column.
pub render-update :
    (table : Text) (r : RField) (rs : List RField)
    → render (
        (lit (codes "UPDATE ")
          ∷ lit table
          ∷ lit (codes " SET ")
          ∷ lit (column r)
          ∷ lit (codes " = ")
          ∷ par (column r)
          ∷ more_sets rs)
        ++ (where_id ++ lit (codes ";") ∷ []))
      ≡ update_text table (names (r ∷ rs))
unfolding render joined
render-update table r rs =
    let set : Text = codes " = " ++ b'$' ∷ column r in
    let others : Text = behind (assignments (names rs)) in
    let close : List Piece = where_id ++ lit (codes ";") ∷ [] in
    ap (λ t. codes "UPDATE " ++ (table ++ (codes " SET " ++ t)))
      (ap (λ t. column r ++ (codes " = " ++ b'$' ∷ t))
          (render_behind (column r) others (more_sets rs) close (render-more_sets rs))
        ∙ sym (append_assoc (column r) (set ++ others) (render close))
        ∙ ap (λ t. t ++ render close) (sym (append_assoc (column r) set others)))

render-more_ids : (i : ℕ) (ids : List Text) → render (more_ids i ids) ≡ behind (id_parameters i ids)
unfolding render more_ids behind id_parameters
render-more_ids i [] = refl
render-more_ids i (x ∷ ids) =
    ap (λ t. codes ", " ++ b'$' ∷ (id_name i ++ t)) (render-more_ids (i + 1) ids)

-- The text of a DELETE of at least one id.
pub render-delete :
    (table x : Text) (ids : List Text)
    → render (
        (lit (codes "DELETE FROM ") ∷ lit table ∷ lit (codes "\nWHERE id IN (") ∷ [])
        ++ (id_list (x ∷ ids) ++ lit (codes ");") ∷ []))
      ≡ delete_text table (x ∷ ids)
unfolding render joined id_list id_parameters
render-delete table x ids =
    ap (λ t. codes "DELETE FROM " ++ (table ++ (codes "\nWHERE id IN (" ++ b'$' ∷ t)))
      (render_behind (id_name 0) (behind (id_parameters 1 ids)) (more_ids 1 ids)
        (lit (codes ");") ∷ []) (render-more_ids 1 ids))
