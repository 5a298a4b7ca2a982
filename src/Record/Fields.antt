-- ===== src/Record/Fields.antt =====
-- rec.cpp: `Record::getRField`, which finds the field of a record by a dotted name or makes it, over
-- the qualified fields that the model caches; and the constructors of `Recordset`, which ask it.
use kyzddfer.Base.{
  ℕ, ◌+◌, Bool, true, false, ◌&&◌, Option, none, some, List, [], ◌∷◌, ◌++◌, length, if◌then◌else◌,
}
use kyzddfer.Base.Text.{Text, codes}
use kyzddfer.Types.{ref}
use kyzddfer.Parts.{contains, flag_insert}
use kyzddfer.Layout.{is_text}
use kyzddfer.Sql.Model.{alias, is_master, RField}
use kyzddfer.Schema.{Tables, QField, QModel, get_qfield}

-- A field with the model that its `rkey` leads to, if it has one. The position of a field stands for
-- its address.
abbrev pub Keyed : Type 0
Keyed = RField × Option Text

-- The fields of a record with what they are made from: the model that its key leads to, the counter
-- of the aliases, and the names of the models that the registry has made.
pub record FieldState : Type 0 where
  pub model : QModel
  pub rfields : List Keyed
  pub next : ℕ
  pub qmodels : List Text

-- `&rf_ptr->qfield == pqf`: there is one qualified field for a table's alias and a field's name.
unfoldable pub same_qfield : QField → RField → Bool
same_qfield q r = is_text (alias r.pqt) (alias q.pqt) && is_text r.pf.name q.pf.name

-- The loop over the fields, with the position that it has reached.
unfoldable pub position_from : ℕ → QField → List Keyed → Option ℕ
position_from i q [] = none
position_from i q ((r, k) ∷ rs) =
    let rest = position_from (i + 1) q rs in if same_qfield q r then some i else rest

-- The constructor of `RField`.
abbrev pub new_rfield : QField → RField
new_rfield q = record { pqt = q.pqt; pf = q.pf; val = []; is_null = true; is_modified = false }

-- A reference of the model's own table gets a key, whose model `qmodels.get` makes on demand.
unfoldable pub key_target : QField → Option Text
key_target q = if is_master q.pqt then ref q.pf.type else none

unfoldable pub add_model : Option Text → List Text → List Text
unfolding contains
add_model none ms = ms
add_model (some t) ms = flag_insert t ms

-- The field that is there, or else a new one behind the others.
unfoldable pub find_or_make : QField → Option ℕ → FieldState → ℕ × FieldState
find_or_make q (some i) s = (i, s)
find_or_make q none s = (
  length s.rfields,
  record s {
    rfields = s.rfields ++ (new_rfield q, key_target q) ∷ [];
    qmodels = add_model (key_target q) s.qmodels;
  },
)

-- `Record::getRField`; `none` where `getQField` fails.
unfoldable pub get_rfield_of : Tables → Text → FieldState → Option (ℕ × FieldState)
get_rfield_of tables name s = elim (get_qfield tables name s.model s.next) [
  | none ↦ none
  | some (q, m, n) ↦
      some (find_or_make q (position_from 0 q s.rfields) (record s { model = m; next = n }))
]

-- The constructors of `Recordset`: the field of the id, to which its key leads, and for a list of
-- children the field that links it.
unfoldable pub new_recordset : Tables → QModel → ℕ → List Text → Option (ℕ × FieldState)
new_recordset tables m n qmodels =
    get_rfield_of tables (codes "id")
      (record { model = m; rfields = []; next = n; qmodels = qmodels })

unfoldable pub new_child_list : Tables → Text → QModel → ℕ → List Text → Option (ℕ × ℕ × FieldState)
new_child_list tables link m n qmodels = elim (new_recordset tables m n qmodels) [
  | none ↦ none
  | some (id, s) ↦ elim (get_rfield_of tables link s) [
    | none ↦ none
    | some (i, s') ↦ some (id, i, s')
  ]
]
