-- ===== src/Driver.antt =====
-- libsqldb/sqldrvpg.cpp and libsqldb/pgpool.h: the PostgreSQL driver on one connection, which
-- `acquire` has granted, with the prepared statements (`PgPrepStmt`) that arc.h caches on it; and the
-- choice of the driver, libsqldb/sqldb.cpp.
pub mod Trace
pub mod Holds
pub mod Queries
mod Tests
use kyzddfer.Base.{
  ℕ, ◌+◌, Bool, true, false, ◌&&◌, not, Option, none, some, List, [], ◌∷◌, ◌++◌, ite, if◌then◌else◌,
}
use kyzddfer.Base.Decimal.{to_string}
use kyzddfer.Base.Text.{Text, codes, text_dec}
use kyzddfer.Arc.{CacheEntry, ArcState, find, init, make_room, put, get}
use kyzddfer.Layout.Choice.{is_empty}
use kyzddfer.Layout.Apps.{Signed, plus, stoi}

-- `PgPrepStmt`. The connection of one that is alive is this one.
pub record PgPrepStmt : Type 0 where
  pub has_conn : Bool
  pub stmt_name : Text

-- The default constructor.
abbrev pub no_stmt : PgPrepStmt
no_stmt = record { has_conn = false; stmt_name = [] }

-- The move constructor: the new object, and what is left of the other.
abbrev pub move_from : PgPrepStmt → PgPrepStmt × PgPrepStmt
move_from other = (other, no_stmt)

-- The destructor, with the name that it closes.
abbrev pub destroy : PgPrepStmt → Option Text
destroy s = if s.has_conn && not (is_empty s.stmt_name) then some s.stmt_name else none

-- The move assignment to another object: that object, what is left, and what is closed.
abbrev pub move_assign : PgPrepStmt → PgPrepStmt → PgPrepStmt × PgPrepStmt × Option Text
move_assign this other = (other, no_stmt, destroy this)

-- What the driver has libpq do on the connection, the latest first.
pub data Event : Type 0 where
  prepared : (name : Text) → (sql : Text) → Event
  refused : (name : Text) → (sql : Text) → Event
  closed : (name : Text) → Event
  executed : (name : Text) → (params : List Text) → Event
  executed_once : (sql : Text) → (params : List Text) → Event

-- libpq and the server, which answer by all that has happened on the connection: whether `PQprepare`
-- succeeds, the rows of `PQexecPrepared`, and the text of `PQcmdTuples` behind `PQexecParams`; `none`
-- for a status that is not the one asked for.
pub record Server (R : Type 0) : Type 0 where
  pub prepares : List Event → Text → Text → Bool
  pub runs : List Event → Text → List Text → Option R
  pub commands : List Event → Text → List Text → Option Text

-- `PgConn`, with the counter that all connections share. The code's is an `atomic<int>`, which wraps;
-- the number here has no bound.
pub record PgConn : Type 0 where
  pub cache : ArcState PgPrepStmt
  pub events : List Event
  pub counter : ℕ

-- A connection that libpq has opened; the limit of its cache is `arc_hard_limit`.
abbrev pub arc_hard_limit : ℕ
arc_hard_limit = 15

abbrev pub open_conn : ℕ → PgConn
open_conn counter = record { cache = init arc_hard_limit; events = []; counter = counter }

-- What a call returns, or that it throws.
pub data Outcome (R : Type 0) : Type 0 where
  returns : R → Outcome R
  throws : Outcome R

-- The test on the status of a result.
abbrev pub answer : {R : Type 0} → Option R → Outcome R
answer none = throws
answer (some r) = returns r

abbrev pub add_closed : Option Text → List Event → List Event
add_closed none es = es
add_closed (some name) es = closed name ∷ es

-- The destructors of the entries that a change of the cache has taken from it.
unfoldable pub close_dropped :
    List (Text × CacheEntry PgPrepStmt) → ArcState PgPrepStmt → List Event → List Event
close_dropped [] c es = es
close_dropped ((k, e) ∷ entries) c es =
    let rest = close_dropped entries c es in
    elim (find k c) [ none ↦ add_closed (destroy e.value) rest | some kept ↦ rest ]

-- The name of the statement with a number.
abbrev pub name_of : ℕ → Text
name_of n = codes "pg_prep_stmt_" ++ to_string n

-- How a statement gets from the temporary object into the cache: by assignment to the value of
-- `new_entry`, and from there into the map. The moved objects end.
unfoldable pub hand_over : PgPrepStmt → PgPrepStmt × List Event → PgPrepStmt × List Event
hand_over temporary (slot, es) =
    let assigned = move_assign slot temporary in
    let emplaced = move_from assigned.0 in
    (
      emplaced.0,
      add_closed (destroy assigned.1) (add_closed (destroy emplaced.1) (add_closed assigned.2 es)),
    )

module _ {R : Type 0} (server : Server R) where
  -- `PQexecPrepared`, and the test on its status.
  unfoldable pub exec_prepared : Text → List Text → PgConn → PgConn × Outcome R
  exec_prepared name params pg = (
    record pg { events = executed name params ∷ pg.events },
    answer (server.runs pg.events name params),
  )

  -- `cache.put` of a statement that has been prepared.
  unfoldable pub put_stmt : Text → PgPrepStmt → PgConn → PgConn
  put_stmt sql stmt pg =
      let moved =
        hand_over stmt (no_stmt, close_dropped pg.cache.cache (make_room pg.cache sql) pg.events) in
      record pg { cache = put pg.cache sql moved.0; events = moved.1 }

  -- The constructor of `PgPrepStmt`, and what `query` does with it.
  unfoldable pub prepare : Text → List Text → PgConn → PgConn × Outcome R
  prepare [] params pg = (record pg { counter = pg.counter + 1 }, throws)
  prepare (c ∷ s) params pg =
      let n = pg.counter + 1 in
      let name = name_of n in
      let stmt : PgPrepStmt = record { has_conn = true; stmt_name = name } in
      let ready = exec_prepared name params (
        put_stmt (c ∷ s) stmt
          (record pg { counter = n; events = prepared name (c ∷ s) ∷ pg.events })) in
      let not_ready : PgConn × Outcome R =
        (record pg { counter = n; events = refused name (c ∷ s) ∷ pg.events }, throws) in
      if server.prepares pg.events name (c ∷ s) then ready else not_ready

  -- `SqlDrvPg::query`; `none` where the loop of the cache runs out of fuel.
  unfoldable pub query : Text → List Text → PgConn → Option (PgConn × Outcome R)
  query sql params pg = elim (get pg.cache sql) [
    | none ↦ none
    | some (c, found) ↦
        let pg' = record pg { cache = c; events = close_dropped pg.cache.cache c pg.events } in
        elim found [
          | none ↦ some (prepare sql params pg')
          | some stmt ↦ some (exec_prepared stmt.stmt_name params pg')
        ]
  ]

  -- The number behind `PQcmdTuples`; `std::stoi` may throw.
  unfoldable pub affected : Text → Outcome Signed
  affected [] = returns (plus 0)
  affected (c ∷ s) = answer (stoi (c ∷ s))

  -- `SqlDrvPg::execute`.
  unfoldable pub execute : Text → List Text → PgConn → PgConn × Outcome Signed
  execute sql params pg = (
    record pg { events = executed_once sql params ∷ pg.events },
    elim (server.commands pg.events sql params) [ none ↦ throws | some tuples ↦ affected tuples ],
  )
