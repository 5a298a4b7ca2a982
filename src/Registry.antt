-- ===== src/Registry.antt =====
-- libkycore/rack.h: `namemap` and `Rack`, and libkycore/finalize.cpp: `Rack::finalize`. A registry
-- keeps one object for a name, so that the name stands for its address.
pub mod Final
pub mod Finished
mod Tests
use kyzddfer.Base.{ℕ, Bool, true, false, Option, none, some, List, [], ◌∷◌, ite}
use kyzddfer.Base.Assoc.{lookup}
use kyzddfer.Base.Text.{Text, codes, text_dec}
use kyzddfer.Types.{TypeImpl, finalize_type}
use kyzddfer.Layout.Choice.{Layout}
use kyzddfer.Layout.Apps.{App, finalize_app}

-- `namemap::get`: the object that is there, or a new one, which is added.
unfoldable pub get {ℓ} : {T : Type ℓ} → (Text → T) → Text → List (Text × T) → List (Text × T)
get make name [] = (name, make name) ∷ []
get make name ((k, t) ∷ m) = ite (text_dec k name) ((k, t) ∷ m) ((k, t) ∷ get make name m)

-- `namemap::add`, which leaves an object of the name that is there; nothing comes of a null pointer.
unfoldable pub add {ℓ} : {T : Type ℓ} → Option (Text × T) → List (Text × T) → List (Text × T)
add none m = m
add (some (name, t)) [] = (name, t) ∷ []
add (some (name, t)) ((k, u) ∷ m) =
    ite (text_dec k name) ((k, u) ∷ m) ((k, u) ∷ add (some (name, t)) m)

-- A change of the object with a name.
unfoldable pub modify {ℓ} : {T : Type ℓ} → (T → T) → Text → List (Text × T) → List (Text × T)
modify f name [] = []
modify f name ((k, t) ∷ m) = ite (text_dec k name) ((k, f t) ∷ m) ((k, t) ∷ modify f name m)

-- `Field` and `Table`, before the types have their implementations. `type` names the type that the
-- pointer leads to, if it leads anywhere.
pub record FieldEntry : Type 0 where
  pub name : Text
  pub type : Option Text

pub record TableEntry : Type 0 where
  pub name : Text
  pub fields : List (Text × FieldEntry)

-- A type is its `pimpl`.
pub record Rack : Type 0 where
  pub types : List (Text × Option TypeImpl)
  pub tables : List (Text × TableEntry)
  pub apps : List (Text × App)

abbrev pub new_type : Text → Option TypeImpl
new_type name = none

abbrev pub new_field : Text → FieldEntry
new_field name = record { name = name; type = none }

abbrev pub id_name : Text
id_name = codes "id"

-- The body of the loop of `finalize_id`, and the loop.
unfoldable pub with_id : TableEntry → TableEntry
unfolding get modify
with_id t = record t {
  fields = modify (λ f. record f { type = some id_name }) id_name (get new_field id_name t.fields);
}

unfoldable pub with_ids : List (Text × TableEntry) → List (Text × TableEntry)
with_ids [] = []
with_ids ((k, t) ∷ m) = (k, with_id t) ∷ with_ids m

unfoldable pub finalize_id : Rack → Rack
unfolding get
finalize_id r = record r { types = get new_type id_name r.types; tables = with_ids r.tables }

-- `rack.tables[…]`, which asserts that the table is there.
abbrev pub has_table : List (Text × TableEntry) → Text → Bool
has_table tables name = elim (lookup text_dec name tables) [ none ↦ false | some t ↦ true ]

-- `type_t::finalize`, which passes over what has its implementation.
unfoldable pub finalize_types :
    (Text → Bool) → List (Text × Option TypeImpl) → Option (List (Text × Option TypeImpl))
finalize_types has [] = some []
finalize_types has ((name, some t) ∷ m) = elim (finalize_types has m) [
  | none ↦ none
  | some m' ↦ some ((name, some t) ∷ m')
]
finalize_types has ((name, none) ∷ m) = elim (finalize_type has name) [
  | none ↦ none
  | some t ↦ elim (finalize_types has m) [ none ↦ none | some m' ↦ some ((name, some t) ∷ m') ]
]

module _ (insert : Layout → List Layout → List Layout) where
  -- `finalize_apps`.
  unfoldable pub finalize_apps : List (Text × App) → Option (List (Text × App))
  finalize_apps [] = some []
  finalize_apps ((name, a) ∷ m) = elim (finalize_app insert a) [
    | none ↦ none
    | some a' ↦ elim (finalize_apps m) [ none ↦ none | some m' ↦ some ((name, a') ∷ m') ]
  ]

  -- The three passes of `Rack::finalize`.
  unfoldable pub finalize : Rack → Option Rack
  unfolding finalize_id
  finalize r =
      let r' = finalize_id r in
      elim (finalize_types (has_table r'.tables) r'.types) [
        | none ↦ none
        | some types ↦ elim (finalize_apps r'.apps) [
          | none ↦ none
          | some apps ↦ some (record { types = types; tables = r'.tables; apps = apps })
        ]
      ]
