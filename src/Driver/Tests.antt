-- ===== src/Driver/Tests.antt =====
-- The theorems on queries, on a connection with one query behind it.
use kyzddfer.Base.{ℕ, ◌≡◌, ◌↔◌, true, some, [], ◌∷◌}
use kyzddfer.Base.Text.{Text, codes}
use kyzddfer.Arc.Reads.{view}
use kyzddfer.Driver.{Server, PgConn, Outcome, open_conn, query, execute}
use kyzddfer.Driver.Trace.{statement_of}
use kyzddfer.Driver.Queries.{Ends, Reach, opens, queries, executes, query_runs, held_statements}

-- A server that prepares all and answers each query with the number of its parameters.
abbrev server : Server ℕ
server = record {
  prepares = λ es name sql. true;
  runs = λ es name params. some 1;
  commands = λ es sql params. some (codes "3");
}

abbrev now : Text
now = codes "SELECT now()"

abbrev after_update : PgConn
after_update = (execute server (codes "UPDATE t SET a = $1") (codes "1" ∷ []) (open_conn 4)).0

Reach-update : Reach server after_update
Reach-update = executes (codes "UPDATE t SET a = $1") (codes "1" ∷ []) (opens 4)

abbrev first :
    (pg' : PgConn) × (out : Outcome ℕ) × (query server now [] after_update ≡ some (pg', out))
    × Ends server now [] pg' out
first = query_runs server now [] Reach-update

Reach-first : Reach server first.0
Reach-first = queries now [] Reach-update first.2

query_runs_example :
    (pg' : PgConn) × (out : Outcome ℕ) × (query server now (now ∷ []) first.0 ≡ some (pg', out))
    × Ends server now (now ∷ []) pg' out
query_runs_example = query_runs server now (now ∷ []) Reach-first

held_statements_example : (statement_of first.0.events (codes "pg_prep_stmt_5") ≡ some now) ↔ (
    view first.0.cache now ≡ some (record { has_conn = true; stmt_name = codes "pg_prep_stmt_5" }))
held_statements_example = held_statements server Reach-first (codes "pg_prep_stmt_5") now
