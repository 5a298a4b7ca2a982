-- ===== src/Sql/Model.antt =====
-- rack.h and rec.h: what the generator reads of a record. Aliases are unique in a program's run, so
-- that they stand for the addresses of the qualified tables.
use kyzddfer.Base.{ℕ, Bool, true, false, Option, none, some, List, [], ◌∷◌, ◌++◌, ite}
use kyzddfer.Base.Decimal.{to_string}
use kyzddfer.Base.Text.{Text, codes, text_dec}
use kyzddfer.Types.{Field}

-- `QTable`: the table of the model itself, or the table that a field of another one refers to.
pub data QTable : Type 0 where
  master : Text → QTable
  child : Text → Text → QTable → Field → QTable

-- The second constructor's alias comes from `next_alias`, a counter from 1. The code's is an
-- `atomic<int>`, which wraps; the number here has no bound.
abbrev pub next_alias : ℕ → Text
next_alias n = codes "t" ++ to_string n

abbrev pub alias : QTable → Text
alias (master t) = codes "master"
alias (child a t parent fk) = a

abbrev pub table_name : QTable → Text
table_name (master t) = t
table_name (child a t parent fk) = t

abbrev pub is_master : QTable → Bool
is_master (master t) = true
is_master (child a t parent fk) = false

-- `RField`, with the `QField` that it refers to.
pub record RField : Type 0 where
  pub pqt : QTable
  pub pf : Field
  pub val : Text
  pub is_null : Bool
  pub is_modified : Bool

pub record Filter : Type 0 where
  pub rfield : RField
  pub value : Text

pub data Direction : Type 0 where
  none_dir asc desc : Direction

pub record Sort : Type 0 where
  pub rfield : RField
  pub dir : Direction

pub record Pager : Type 0 where
  pub offset : ℕ
  pub limit : ℕ

pub record Listing : Type 0 where
  pub filters : List Filter
  pub sorts : List Sort
  pub pager : Pager

-- A `Record`: the table of `rkey.tgtQModel`, `rkey.srcRField`, the fields, and what a `Recordset`
-- adds, to which the generator casts its record.
pub record RecordView : Type 0 where
  pub model : Text
  pub source : Option RField
  pub rfields : List RField
  pub listing : Option Listing

-- `Record::getRField(pqt, pf)`.
unfoldable pub get_rfield : QTable → Field → List RField → Option RField
get_rfield pqt pf [] = none
get_rfield pqt pf (r ∷ rs) =
    ite (text_dec (alias r.pqt) (alias pqt))
      (ite (text_dec r.pf.name pf.name) (some r) (get_rfield pqt pf rs)) (get_rfield pqt pf rs)
