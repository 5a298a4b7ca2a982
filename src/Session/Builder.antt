-- ===== src/Session/Builder.antt =====
-- session_view.cpp: `View::Builder`, which makes the records of a view from the nodes of its layout.
-- An assertion that fails, `at` and a generator that gives up end the pass, as `none`.
use kyzddfer.Base.{
  ℕ, ◌+◌, Bool, false, ◌||◌, ◌==◌, Option, none, some, List, [], ◌∷◌, ◌++◌, if◌then◌else◌,
  ℕ_discrete,
}
use kyzddfer.Base.Assoc.{lookup}
use kyzddfer.Base.Text.{Text, codes, text_dec}
use kyzddfer.Parts.{contains}
use kyzddfer.Layout.{
  Attrs, LayoutNode, Nodes, node, end, next, Kind, plain, box, form, columns, fieldbox,
}
use kyzddfer.Layout.Apps.{get_default}
use kyzddfer.Ruid.{RuidGen, issue}

-- The place of a node in a layout, which stands for its address: the indexes of the children, from
-- the node up to the root.
abbrev pub Place : Type 0
Place = List ℕ

-- An `RKey`: the one that the view was given, or the one of the recordset that a node has made.
pub data Key : Type 0 where
  given : Key
  own : Place → Key

-- The constructor that has made a record, with its arguments: `Record`, or one of the three of
-- `Recordset`.
pub data Built : Type 0 where
  editor : Built
  child_list : (model : Text) → (parent : Key) → (link : Text) → Built
  lookup_list : Built
  top_list : (model : Text) → Built

pub record Made : Type 0 where
  pub place : Place
  pub key : Key
  pub built : Built
  pub dto : ℕ

-- What a builder is given: whether there is a key, which then has a source field, the models of the
-- registry, the map from nodes to the objects of the client, and the values that the engine of
-- `ruid32` gives, in the order of its calls. They may be any, also values that come again.
pub record BuilderArgs : Type 0 where
  pub has_key : Bool
  pub qmodels : List Text
  pub node_to_dto : Place → Option ℕ
  pub draws : ℕ → ℕ

-- The members of a builder that change, with the records of its view and the generator.
pub record BuilderState : Type 0 where
  pub context_record : Option Made
  pub records : List (ℕ × Made)
  pub ruid32 : RuidGen ℕ

abbrev has_colon : Text → Bool
has_colon [] = false
has_colon (c ∷ s) = (c == b':') || has_colon s

-- `rack.qmodels[...]` of the attribute `table`.
unfoldable pub model_of : BuilderArgs → Attrs → Option Text
unfolding contains
model_of args attrs = elim (lookup text_dec (codes "table") attrs) [
  | none ↦ none
  | some table ↦ if contains table args.qmodels then some table else none
]

-- The branch of a form, and that of a list, by the context.
unfoldable pub make_editor : BuilderArgs → Option Made → Option (Key × Built)
make_editor args (some p) = some (p.key, editor)
make_editor args none = if args.has_key then some (given, editor) else none

unfoldable pub make_list : BuilderArgs → Option Made → Place → Attrs → Option (Key × Built)
make_list args (some p) place attrs = elim (model_of args attrs) [
  | none ↦ none
  | some table ↦
      let link = get_default attrs (codes "link") table in
      if has_colon link then none else some (own place, child_list table p.key link)
]
make_list args none place attrs =
    let top : Option (Key × Built) = elim (model_of args attrs) [
      | none ↦ none
      | some table ↦ some (own place, top_list table)
    ] in
    if args.has_key then some (own place, lookup_list) else top

-- `records.emplace`, which leaves an entry that is there.
unfoldable pub emplace : ℕ → Made → List (ℕ × Made) → List (ℕ × Made)
emplace id m records = elim (lookup ℕ_discrete id records) [
  | none ↦ records ++ (id, m) ∷ []
  | some old ↦ records
]

-- The new record becomes the context and gets its entry, with the identifier that the generator
-- has given, and its object.
unfoldable pub register :
    Place → Key × Built → RuidGen ℕ × Option ℕ → Option ℕ → BuilderState → Option BuilderState
register place (key, built) (gen, none) dto s = none
register place (key, built) (gen, some id) none s = none
register place (key, built) (gen, some id) (some dto) s =
    let made : Made = record { place = place; key = key; built = built; dto = dto } in
    some (record { context_record = some made; records = emplace id made s.records; ruid32 = gen })

unfoldable pub add_record :
    BuilderArgs → Place → Option (Key × Built) → BuilderState → Option BuilderState
add_record args place none s = none
add_record args place (some kb) s =
    register place kb (issue ℕ_discrete args.draws s.ruid32) (args.node_to_dto place) s

-- The tests on the class of the node.
unfoldable pub make_record : BuilderArgs → Place → Kind → Attrs → BuilderState → Option BuilderState
make_record args place plain attrs s = some s
make_record args place box attrs s = some s
make_record args place (fieldbox fs) attrs s = some s
make_record args place form attrs s = add_record args place (make_editor args s.context_record) s
make_record args place (columns fs) attrs s =
    add_record args place (make_list args s.context_record place attrs) s

abbrev pub restore : Option Made → Option BuilderState → Option BuilderState
restore p none = none
restore p (some s) = some (record s { context_record = p })

-- What follows a step that may have failed. Behind the children of a node comes `~CRG`, which puts
-- the context of the caller back.
abbrev pub then_children :
    Option BuilderState → Option Made → (BuilderState → Option BuilderState) → Option BuilderState
then_children none p children = none
then_children (some s) p children = restore p (children s)

abbrev pub then_rest :
    Option BuilderState → (BuilderState → Option BuilderState) → Option BuilderState
then_rest none children = none
then_rest (some s) children = children s

-- `create_records_recursive`, and its loop over the children, of which `i` have been treated.
unfoldable mutual
  pub create_records : BuilderArgs → Place → LayoutNode → BuilderState → Option BuilderState
  create_records args place (node k tag attrs flags ns) s =
      then_children (make_record args place k attrs s) s.context_record
        (λ t. create_children args place 0 ns t)

  pub create_children : BuilderArgs → Place → ℕ → Nodes → BuilderState → Option BuilderState
  create_children args place i end s = some s
  create_children args place i (next n ns) s =
      then_rest (create_records args (i ∷ place) n s) (λ t. create_children args place (i + 1) ns t)

-- The constructor of `Builder`, on a view with no records yet.
unfoldable pub build : BuilderArgs → LayoutNode → RuidGen ℕ → Option BuilderState
build args root gen =
    create_records args [] root (record { context_record = none; records = []; ruid32 = gen })
