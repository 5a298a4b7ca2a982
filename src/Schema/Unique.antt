-- ===== src/Schema/Unique.antt =====
-- rack.cpp: over all models of a program, no alias is given to two tables.
use kyzddfer.Base.{ℕ, ◌≤◌, ◌≡◌, some, List, [], ◌∷◌, ◌++◌}
use kyzddfer.Base.Text.{Text}
use kyzddfer.Sql.Model.{QTable, master}
use kyzddfer.Schema.{Table, Tables, node, end, QField, table_of, QModel, get_qfield}
use kyzddfer.Schema.Below.{below, qtables}
use kyzddfer.Schema.Aliases.{copies}

unfoldable pub all_numbers : List QModel → List ℕ
all_numbers [] = []
all_numbers (m ∷ ms) = below m.root ++ all_numbers ms

-- The models and the counter of the aliases: new models, and calls of `getQField` on any of them.
pub data Reach (tables : Tables) : List QModel → ℕ → Type 0 where
  begin : Reach tables [] 1
  adds :
      (t : Table) {ms : List QModel} {n : ℕ}
      → Reach tables ms n
      → Reach tables (record { root = node 0 t [] end; qfields = [] } ∷ ms) n
  looks :
      (name : Text) (f : QField) (before after : List QModel) (m m' : QModel) {ms ms' : List QModel}
      {n n' : ℕ}
      → Reach tables ms n
      → ms ≡ before ++ m ∷ after
      → get_qfield tables name m n ≡ some (f, m', n')
      → ms' ≡ before ++ m' ∷ after
      → Reach tables ms' n'

record Fresh (ms : List QModel) (n : ℕ) : Type 0 where
  once : (v : ℕ) → copies v (all_numbers ms) ≤ 1
  ahead : (v : ℕ) → n ≤ v → copies v (all_numbers ms) ≡ 0

unfoldable pub all_qtables : List QModel → List QTable
all_qtables [] = []
all_qtables (m ∷ ms) = qtables (master (table_of m.root).name) m.root ++ all_qtables ms
