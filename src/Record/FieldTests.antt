-- ===== src/Record/FieldTests.antt =====
-- The theorem on the fields of a record, for two names of one table.
use kyzddfer.Base.{ℕ, ◌≡◌, refl, true, some, [], ◌∷◌, is_some, value_of}
use kyzddfer.Base.Assoc.{lookup, insert, remove}
use kyzddfer.Base.Text.{codes, text_dec}
use kyzddfer.Types.{type_varchar, type_ref, ref}
use kyzddfer.Parts.{svparts, parts_from, contains, flag_insert}
use kyzddfer.Schema.{
  Table, node, end, cache_name, QField, get_in_table, QModel, cache_found, get_qfield,
}
use kyzddfer.Record.Fields.{
  FieldState, same_qfield, position_from, key_target, add_model, find_or_make, get_rfield_of,
}
use kyzddfer.Record.Known.{get_all_rfields, IsAt, get_rfield_again}

program : Unit {0}
unfolding lookup insert remove text_dec ref svparts parts_from contains flag_insert cache_name
    get_in_table cache_found get_qfield same_qfield position_from key_target add_model find_or_make
    get_rfield_of get_all_rfields value_of
program = tt

abbrev person : Table
person = record {
  name = codes "person";
  fields =
      (codes "name", record { name = codes "name"; type = type_varchar 50; attrs = [] })
      ∷ (codes "home", record { name = codes "home"; type = type_ref (codes "city"); attrs = [] })
      ∷ [];
}

abbrev start : FieldState
start = record {
  model = record { root = node 0 person [] end; qfields = [] };
  rfields = [];
  next = 1;
  qmodels = [];
}

first_found : is_some (get_rfield_of [] (codes "name") start) ≡ true
unfolding program
first_found = refl

abbrev first : ℕ × FieldState
first = (value_of (get_rfield_of [] (codes "name") start) first_found).0

others_found : is_some (get_all_rfields [] (codes "home" ∷ []) first.1) ≡ true
unfolding program
others_found = refl

abbrev later : FieldState
later = (value_of (get_all_rfields [] (codes "home" ∷ []) first.1) others_found).0

-- The reference has made a model for its key.
models : later.qmodels ≡ codes "city" ∷ []
unfolding program
models = refl

get_rfield_again_example :
    (get_rfield_of [] (codes "name") later ≡ some (first.0, later))
    × ((q : QField) × (n : ℕ) × (m : QModel) × (get_qfield [] (codes "name") start.model start.next
          ≡ some (q, m, n))
        × IsAt q first.0 later.rfields)
get_rfield_again_example =
    get_rfield_again [] (codes "name") (codes "home" ∷ []) start first.1 later first.0
      (value_of (get_rfield_of [] (codes "name") start) first_found).1
      (value_of (get_all_rfields [] (codes "home" ∷ []) first.1) others_found).1
