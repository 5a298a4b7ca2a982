-- ===== src/Sql/Tests.antt =====
-- Runs of SqlGenius.h, and its theorems at concrete records.
use kyzddfer.Base.{◌≡◌, ◌≢◌, refl, true, false, some, List, [], ◌∷◌, ◌++◌}
use kyzddfer.Base.Assoc.{lookup}
use kyzddfer.Base.Text.{codes, text_dec}
use kyzddfer.Types.{Field, type_varchar, type_ref, sql_name, sql_suffix, split_first}
use kyzddfer.Sql.Piece.{ok, Piece, lit, par, render, Params, get_ordered_params}
use kyzddfer.Sql.Params.{no_dollar, get_ordered_params_lem}
use kyzddfer.Sql.Model.{QTable, master, child, RField, Filter, desc, RecordView}
use kyzddfer.Sql.Write.{is_written, written, gen_insert, gen_update, get_id_field_value}
use kyzddfer.Sql.Texts.{names, insert_text, update_text}
use kyzddfer.Sql.Columns.{vals, IsWritable, insert_params, update_params}
use kyzddfer.Sql.Filter.{
  like, above, classify, segments_from, conditions, filter_sql, filter_params, where_filters,
  bind_filters,
}
use kyzddfer.Sql.Filters.{all_operands, filter_params_lem}
use kyzddfer.Sql.Collide.{like_one, above_one, second_filter_misbound}

program : Unit {0}
unfolding is_written written get_id_field_value classify segments_from split_first conditions
    sql_suffix sql_name text_dec
program = tt

abbrev name_field : Field
name_field = record { name = codes "name"; type = type_varchar 100; attrs = [] }

abbrev city_field : Field
city_field = record { name = codes "city"; type = type_ref (codes "city"); attrs = [] }

abbrev person : QTable
person = master (codes "person")

-- The table behind the reference of a person.
abbrev city : QTable
city = child (codes "t1") (codes "city") person city_field

abbrev the_name : RField
the_name = record {
  pqt = person;
  pf = name_field;
  val = codes "Olha";
  is_null = false;
  is_modified = true;
}

abbrev the_city : RField
the_city = record {
  pqt = person;
  pf = city_field;
  val = codes "7";
  is_null = false;
  is_modified = true;
}

abbrev city_name : RField
city_name = record { pqt = city; pf = name_field; val = []; is_null = true; is_modified = false }

abbrev view : RecordView
view = record {
  model = codes "person";
  source = some (record the_name { val = codes "42" });
  rfields = the_name ∷ the_city ∷ city_name ∷ [];
  listing = some (record {
    filters = [];
    sorts = record { rfield = the_name; dir = desc } ∷ [];
    pager = record { offset = 0; limit = 20 };
  });
}

abbrev statement : List Piece
statement = lit (codes "WHERE id = ") ∷ par (codes "id") ∷ lit (codes ";") ∷ []

abbrev bound_id : Params
bound_id = (codes "id", codes "42") ∷ []

id_bound : lookup text_dec (codes "id") bound_id ≡ some (codes "42")
unfolding lookup text_dec
id_bound = refl

get_ordered_params_lem_example :
    get_ordered_params bound_id (render statement) ≡ ok (codes "42" ∷ [])
get_ordered_params_lem_example =
    get_ordered_params_lem bound_id statement (codes "42" ∷ [])
      (refl, (((λ e. cc), (refl, (refl, tt))), refl, (refl, tt))) (id_bound, refl)

abbrev writes : List RField
writes = the_name ∷ the_city ∷ []

written_view : written view.rfields ≡ writes
unfolding program
written_view = refl

example_values : vals (written view.rfields) ≡ codes "Olha" ∷ codes "7" ∷ []
unfolding program
example_values = refl

view-IsWritable : IsWritable (written view.rfields)
unfolding program
view-IsWritable = (
  ((λ e. cc), (refl, (refl, (refl, (refl, tt))))),
  ((λ e. cc), tt),
  (((λ e. cc), (refl, (refl, (refl, (refl, (refl, (refl, (refl, tt)))))))), tt, tt),
)

view_written : written view.rfields ≢ []
unfolding program
view_written = λ e. cc

insert_params_example :
    let (sql, params) = gen_insert view in
    (render sql ≡ insert_text view.model (names (written view.rfields)))
    × (get_ordered_params params (render sql) ≡ ok (vals (written view.rfields)))
insert_params_example = insert_params view refl view_written view-IsWritable

view_id : get_id_field_value view ≡ ok (codes "42")
unfolding program
view_id = refl

update_params_example :
    (sql : List Piece) × (params : Params) × (gen_update view ≡ ok (sql, params))
    × (render sql ≡ update_text view.model (names (written view.rfields)))
    × (get_ordered_params params (render sql) ≡ ok (vals (written view.rfields) ++ codes "42" ∷ []))
update_params_example = update_params view (codes "42") refl view_written view-IsWritable view_id

abbrev ranges : Filter
ranges = record { rfield = the_name; value = codes "20:30|>99" }

city_name_plain : no_dollar (sql_name name_field) ≡ true
unfolding program
city_name_plain = refl

filter_params_lem_example :
    get_ordered_params (filter_params ranges) (render (filter_sql ranges))
    ≡ ok (all_operands (conditions ranges))
filter_params_lem_example = filter_params_lem ranges (refl, city_name_plain)

ranges_operands : all_operands (conditions ranges) ≡ codes "20" ∷ codes "30" ∷ codes "99" ∷ []
unfolding program
ranges_operands = refl

abbrev by_name : Filter
by_name = record { rfield = the_name; value = codes "Ol" }

abbrev by_city : Filter
by_city = record { rfield = city_name; value = codes ">Kyiv" }

by_name_like : conditions by_name ≡ like (codes "Ol%") ∷ []
unfolding program
by_name_like = refl

by_city_above : conditions by_city ≡ above (codes "Kyiv") ∷ []
unfolding program
by_city_above = refl

second_filter_misbound_example :
    get_ordered_params
      (bind_filters [] (by_name ∷ by_city ∷ []))
      (render (where_filters (by_name ∷ by_city ∷ [])))
    ≡ ok (codes "Ol%" ∷ codes "Ol%" ∷ [])
second_filter_misbound_example =
    second_filter_misbound by_name by_city (like (codes "Ol%")) (above (codes "Kyiv")) (codes "Ol%")
      (codes "Kyiv") (refl, city_name_plain) (refl, city_name_plain) by_name_like by_city_above
      (like_one (codes "Ol%")) (above_one (codes "Kyiv"))
