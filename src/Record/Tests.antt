-- ===== src/Record/Tests.antt =====
-- The theorems on rec.cpp's `Record` at a concrete record, over a database that counts its writes.
use kyzddfer.Base.{ℕ, ◌+◌, ◌≡◌, ◌≢◌, refl, true, false, some, [], ◌∷◌}
use kyzddfer.Base.Text.{codes, text_dec}
use kyzddfer.Types.{type_varchar, sql_name, sql_suffix}
use kyzddfer.Sql.Piece.{ok}
use kyzddfer.Sql.Model.{master, RField}
use kyzddfer.Sql.Write.{is_written, written, get_id_field_value}
use kyzddfer.Sql.Columns.{IsWritable}
use kyzddfer.Record.{RecordState, as_view, Database, load, save}
use kyzddfer.Record.Saves.{save_insert, save_update}

program : Unit {0}
unfolding is_written written get_id_field_value sql_name sql_suffix text_dec
program = tt

abbrev counter : Database ℕ
counter = record {
  query = λ d sql params. ok (d + 1, (some (codes "8") ∷ []) ∷ []);
  execute = λ d sql params. ok (d + 1);
}

abbrev name : RField
name = record {
  pqt = master (codes "person");
  pf = record { name = codes "name"; type = type_varchar 100; attrs = [] };
  val = codes "Olha";
  is_null = false;
  is_modified = true;
}

abbrev person : RecordState
person = record {
  model = codes "person";
  source = some (record name { val = codes "8" });
  rfields = name ∷ [];
  is_new = true;
  visible_fields = [];
}

abbrev known_person : RecordState
known_person = record person { is_new = false }

person-IsWritable : IsWritable (written person.rfields)
unfolding program
person-IsWritable = (((λ e. cc), (refl, (refl, (refl, (refl, tt))))), tt, tt)

person_written : written person.rfields ≢ []
unfolding program
person_written = λ e. cc

person_id : get_id_field_value (as_view known_person) ≡ ok (codes "8")
unfolding program
person_id = refl

save_insert_example :
    save counter 3 person
    ≡ load counter 4
        (record person { source = some (record name { val = codes "8" }); is_new = false })
save_insert_example =
    save_insert counter 3 person (record name { val = codes "8" }) 4 b'8' [] [] [] refl refl
      person_written person-IsWritable refl refl

save_update_example : save counter 3 known_person ≡ load counter 4 known_person
save_update_example =
    save_update counter 3 known_person (codes "8") 4 refl refl person_written person-IsWritable
      person_id refl

nothing_written : written [] ≡ []
unfolding program
nothing_written = refl
