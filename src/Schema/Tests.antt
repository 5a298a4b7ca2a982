-- ===== src/Schema/Tests.antt =====
-- The theorems on `getQField` over two tables, of which the first refers to the second.
use kyzddfer.Base.{ℕ, ◌≡◌, refl, true, [], ◌∷◌, is_some, value_of}
use kyzddfer.Base.Assoc.{lookup, insert, remove}
use kyzddfer.Base.Text.{Text, codes, text_dec}
use kyzddfer.Types.{type_varchar, type_ref, ref}
use kyzddfer.Parts.{svparts, parts_from}
use kyzddfer.Schema.{
  Table, Tables, node, end, find_node, put_node, cache_name, QField, get_or_create, ref_table,
  put_back, get_in_table, QModel, cache_found, get_qfield,
}
use kyzddfer.Schema.Reached.{resolve, Finds, get_qfield-Finds}
use kyzddfer.Schema.Repeats.{get_all}

program : Unit {0}
unfolding lookup insert remove text_dec ref svparts parts_from find_node put_node cache_name
    get_or_create ref_table put_back get_in_table cache_found get_qfield get_all
program = tt

abbrev city : Table
city = record {
  name = codes "city";
  fields = (codes "name", record { name = codes "name"; type = type_varchar 50; attrs = [] }) ∷ [];
}

abbrev person : Table
person = record {
  name = codes "person";
  fields =
      (codes "home", record { name = codes "home"; type = type_ref (codes "city"); attrs = [] })
      ∷ [];
}

abbrev tables : Tables
tables = (codes "city", city) ∷ (codes "person", person) ∷ []

abbrev model : QModel
model = record { root = node 0 person [] end; qfields = [] }

abbrev home_name : Text
home_name = codes "home.name"

first_found : is_some (get_qfield tables home_name model 1) ≡ true
unfolding program
first_found = refl

abbrev first : QField × QModel × ℕ
first = (value_of (get_qfield tables home_name model 1) first_found).0

get_qfield-Finds_example :
    Finds tables model
      (resolve tables person (svparts home_name))
      (get_qfield tables home_name model 1)
get_qfield-Finds_example =
    get_qfield-Finds tables home_name model 1 (record { tree = tt; names = tt })

others_found : is_some (get_all tables (codes "home" ∷ []) first.1 first.2) ≡ true
unfolding program value_of
others_found = refl

abbrev later : QModel × ℕ
later = (value_of (get_all tables (codes "home" ∷ []) first.1 first.2) others_found).0
