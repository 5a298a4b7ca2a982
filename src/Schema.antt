-- ===== src/Schema.antt =====
-- libkycore/rack.cpp: the qualified fields that `QModel::getQField` finds for a dotted name, and the
-- tables that it caches on the way. `Table`, `Field` and the types are finalized here.
pub mod Reached
pub mod Repeats
pub mod Aliases
pub mod Below
pub mod Unique
mod Tests
use kyzddfer.Base.{ℕ, zero, suc, ◌+◌, Option, none, some, List, [], ◌∷◌, ite}
use kyzddfer.Base.Assoc.{lookup, insert}
use kyzddfer.Base.Text.{Text, text_dec}
use kyzddfer.Types.{Field, ref}
use kyzddfer.Sql.Model.{QTable, master, child, next_alias}
use kyzddfer.Parts.{svparts}

-- `Table`, whose fields a `namemap` holds, and `Rack::tables`.
pub record Table : Type 0 where
  pub name : Text
  pub fields : List (Text × Field)

abbrev pub Tables : Type 0
Tables = List (Text × Table)

-- A `QTable` with its two caches. The alias of one that is not a model's is `next_alias` of its
-- number, and `fk_in_parent` is the field under whose name it stands in its parent.
mutual
  pub data QNode : Type 0 where
    node : (number : ℕ) → (table : Table) → (qfields : List Text) → (qtables : QNodes) → QNode

  pub data QNodes : Type 0 where
    end : QNodes
    entry : Text → QNode → QNodes → QNodes

-- `qtables.find`, and the entry that a key gets.
unfoldable pub find_node : Text → QNodes → Option QNode
find_node k end = none
find_node k (entry j q qs) = ite (text_dec j k) (some q) (find_node k qs)

unfoldable pub put_node : Text → QNode → QNodes → QNodes
put_node k q end = entry k q end
put_node k q (entry j p qs) = ite (text_dec j k) (entry j q qs) (entry j p (put_node k q qs))

-- `get_or_create` of a `QField`, of which the cache holds the name.
unfoldable pub cache_name : Text → List Text → List Text
cache_name k [] = k ∷ []
cache_name k (j ∷ js) = ite (text_dec j k) (j ∷ js) (j ∷ cache_name k js)

-- `QField`: the table that it is qualified with, and the field.
pub record QField : Type 0 where
  pub pqt : QTable
  pub pf : Field

-- What a lookup gives, with the table as the caches leave it and the counter of the aliases.
pub record Lookup : Type 0 where
  pub found : QField
  pub at : QNode
  pub next : ℕ

-- The table for a reference, from the cache or with the next number, and the counter.
unfoldable pub get_or_create : Text → Table → QNodes → ℕ → QNode × ℕ
get_or_create name t qs n = elim (find_node name qs) [
  | some q ↦ (q, n)
  | none ↦ (node n t [] end, n + 1)
]

-- `type->ref()`, whose table the registry holds; `none` where the code asserts.
unfoldable pub ref_table : Tables → Field → Option Table
ref_table tables f = elim (ref f.type) [ none ↦ none | some t ↦ lookup text_dec t tables ]

-- The value of a table that a lookup passes, as the generator reads it.
abbrev pub as_child : QTable → Field → QNode → QTable
as_child parent f (node number t fs qs) = child (next_alias number) t.name parent f

-- The cache behind a call for the child, if that call has not failed.
unfoldable pub put_back : Text → ℕ → Table → List Text → QNodes → Option Lookup → Option Lookup
put_back name number t fs qs none = none
put_back name number t fs qs (some l) =
    some (record { found = l.found; at = node number t fs (put_node name l.at qs); next = l.next })

-- `QTable::getQField`, over the parts that are left. An empty queue, a field that is not there and a
-- part behind a field that is no reference make an assertion fail.
unfoldable pub get_in_table : Tables → List Text → QTable → QNode → ℕ → Option Lookup
get_in_table tables [] this q n = none
get_in_table tables (name ∷ []) this (node number t fs qs) n =
    elim (lookup text_dec name t.fields) [
      | none ↦ none
      | some f ↦ some (record {
        found = record { pqt = this; pf = f };
        at = node number t (cache_name name fs) qs;
        next = n;
      })
    ]
get_in_table tables (name ∷ p ∷ parts) this (node number t fs qs) n =
    elim (lookup text_dec name t.fields) [
      | none ↦ none
      | some f ↦ elim (ref_table tables f) [
        | none ↦ none
        | some r ↦
            let made = get_or_create name r qs n in
            put_back name number t fs qs
              (get_in_table tables (p ∷ parts) (as_child this f made.0) made.0 made.1)
      ]
    ]

-- `QModel`, with the cache of its full names.
pub record QModel : Type 0 where
  pub root : QNode
  pub qfields : List (Text × QField)

abbrev pub table_of : QNode → Table
table_of (node number t fs qs) = t

-- `it->second = …`, if the call below has not failed.
unfoldable pub cache_found : Text → QModel → Option Lookup → Option (QField × QModel × ℕ)
cache_found name m none = none
cache_found name m (some l) =
    some (l.found, record { root = l.at; qfields = insert text_dec name l.found m.qfields }, l.next)

-- `QModel::getQField`, with the counter.
unfoldable pub get_qfield : Tables → Text → QModel → ℕ → Option (QField × QModel × ℕ)
get_qfield tables name m n = elim (lookup text_dec name m.qfields) [
  | some f ↦ some (f, m, n)
  | none ↦
      cache_found name m
        (get_in_table tables (svparts name) (master (table_of m.root).name) m.root n)
]
