-- ===== src/Sql/Joined.antt =====
-- SqlGenius.h: the joins that `sql_clause_from` writes for the tables that a statement uses.
use kyzddfer.Base.{◌≡◌, ◌≢◌, ◌⊎◌, true, Option, none, some, List, [], ◌∷◌, ◌++◌, All}
use kyzddfer.Base.Text.{Text, codes}
use kyzddfer.Types.{Field, sql_name}
use kyzddfer.Sql.Piece.{Piece, lit, par}
use kyzddfer.Sql.Model.{QTable, master, child, alias, RField}
use kyzddfer.Sql.Select.{Used, is_used, Joins, smart_value}

-- What the ON of a join compares the id with: the value of a modified reference, as a parameter, or
-- the column of the reference in the table above.
abbrev pub joined_with : Text → QTable → Field → Option Text → List Piece
joined_with a parent fk (some v) = par (codes "smart_join_" ++ a) ∷ []
joined_with a parent fk none = lit (alias parent) ∷ lit (codes ".") ∷ lit (sql_name fk) ∷ []

-- The join of a table; the model's own has none.
abbrev pub join_text : List RField → QTable → List Piece
join_text rs (master t) = []
join_text rs (child a t parent fk) =
    lit (codes "\nLEFT JOIN ")
    ∷ lit t
    ∷ lit (codes " AS ")
    ∷ lit a
    ∷ lit (codes " ON ")
    ∷ lit a
    ∷ lit (codes ".id")
    ∷ lit (codes " = ")
    ∷ joined_with a parent fk (smart_value rs parent fk)

-- The pieces stand in the statement, one behind the other.
abbrev pub Stands : List Piece → List Piece → Type 0
Stands ps sql = (before : List Piece) × (after : List Piece) × (sql ≡ before ++ (ps ++ after))

module _ (rs : List RField) (of : Text → QTable) where
  -- A table is the one of its alias, and so are those above it.
  abbrev pub IsOf : QTable → Type 0
  IsOf (master t) = Unit
  IsOf (child a t parent fk) = (of a ≡ child a t parent fk) × (a ≢ codes "master") × IsOf parent

  abbrev AllOf : Used → Type 0
  AllOf = All (λ p. IsOf p.1)

  -- A table is still to be joined, or is joined.
  abbrev Covered : Text → Joins → Type 0
  Covered b st = (is_used b st.used ≡ true) ⊎ Stands (join_text rs (of b)) st.sql

  -- The joins of a table and of those above it stand in the statement.
  abbrev pub AreJoined : List Piece → QTable → Type 0
  AreJoined sql (master t) = Unit
  AreJoined sql (child a t parent fk) =
      Stands (join_text rs (child a t parent fk)) sql × AreJoined sql parent
