-- ===== src/Lib.antt =====
-- The core of kyzddfer: the schema and the layouts of an application as they are finalized, the
-- sessions with their menus and views, the records and record sets that a view shows, the generator
-- of their SQL statements, and the driver with its pool of connections and its prepared statements.
--
-- A registry (`Rack`) is finalized once: the types get their implementations and the nodes of the
-- layouts their kinds. A session shows the layouts as a menu and opens views, whose builder makes a
-- record or a record set for each form and list. Their fields are qualified fields, which a model
-- finds along the references of the schema.
--
-- A record set asks the generator for three statements (a count, the ids of a page, the rows of the
-- page), sends each with its parameters, and then walks the rows. A record is loaded, saved and
-- deleted with one statement each. The driver takes a connection of the pool for each statement, and
-- every connection keeps its prepared statements in a cache.
--
-- Files, and the code that they are about:
-- - Arc, libkycore/arc.h: `AdaptiveReplacementCache`, one function for each method, and one for each
--   branch of `get`. An iterator is the key or the pair that its node holds. Arc/Coherent says how
--   the three containers agree, Arc/Evict is about `evict` and `trim`, Arc/Limits about
--   `adjust_size`, Arc/Touch and Arc/Methods about `put` and `get`, Arc/Reads about the cache as a
--   map that forgets, Arc/Kept about when it does. The counters are numbers without a bound, where the code has `int`.
-- - Pool, libsqldb/pgpool.cpp: `PgPool`. `acquire` is cut where it waits: `enter`, `wake` and
--   `time_out` are its critical sections, and Pool/Invariant runs them in any order. A connection is
--   a number, and libpq is asked by a Boolean whether a new one opens.
--   Pool/Prune is about the pruning, Pool/Grants about what a caller gets.
-- - Driver, libsqldb/sqldrvpg.cpp and libsqldb/pgpool.h: `query` and `execute` on one connection,
--   with the life of its `PgPrepStmt`s in the cache. libpq is any answer to what has happened so far,
--   which is a list of events. Driver/Trace is about that list, Driver/Holds about one change of the
--   cache, Driver/Queries about all calls.
-- - Types, libkycore/types.cpp: the implementations of `type_t`, and `finalize`'s choice of one;
--   Types/Naming is about the names of text types.
-- - Parts, libkycore/rack.cpp and libkycore/finalize.cpp: `svparts_t`, the parts of a dotted name
--   (Parts/RoundTrip), and `parse_flags_from_string` (Parts/Flags).
-- - Schema, libkycore/rack.cpp: `QTable::getQField` and `QModel::getQField` with their caches.
--   Schema/Reached compares them with a walk over the tables, Schema/Repeats is about a second
--   lookup, Schema/Unique (by Schema/Aliases and Schema/Below) about the aliases.
-- - Layout, libkycore/rack.h and libkycore/finalize.cpp: the nodes of a layout, their copies
--   (Layout/Copies) and `transform_node` (Layout/Shape). Layout/Choice has `findBestLayout`, which
--   Layout/Best is about; Layout/Apps has `finalize_apps` for one app.
-- - Registry, libkycore/rack.h and libkycore/finalize.cpp: `namemap` and `Rack::finalize`.
--   Registry/Final is about its passes, Registry/Finished about the whole.
-- - Session, libkycore/session_view.cpp: `Session` and the views, with Session/Ordered on its
--   invariant and Session/Stacks on its destructor; Session/Menu has `buildMenu`, which
--   Session/Shown is about, and Session/Builder has `View::Builder`, which Session/Built compares
--   with the records of Session/Plan.
-- - Sql, libkycore/SqlGenius.h. Sql/Piece has the text of a statement as pieces, and
--   `getOrderedParams` over the rendered bytes; Sql/Model what the generator reads of libkycore/rec.h
--   and libkycore/rack.h; Sql/Write the INSERT, UPDATE and DELETE statements; Sql/Filter the
--   `FilterParser`; Sql/Select the SELECT statements with their joins. The others are proofs: names
--   that can be read back (Sql/Params, Sql/Spaced), the written columns (Sql/Texts, Sql/Columns, Sql/Writes),
--   filters (Sql/Filters, Sql/Collide), joins and pages (Sql/Joins, Sql/Tables,
--   Sql/JoinLoop, Sql/Used, Sql/Joined, Sql/ById).
-- - Recordset, libkycore/rec.cpp: `RField` and `Recordset`; Recordset/Caches is about its cached
--   statements, Recordset/Visits (by Recordset/Filled) about `next`,
--   Recordset/Deletes about `Delete`, Recordset/Unsent and Recordset/Paging about a change of
--   the page.
-- - Record, libkycore/rec.cpp: `Record`, over a database that its statements change;
--   Record/Saves is about `New` and `Save`. Record/Fields has `getRField`, which Record/Known is about.
-- - Ruid, libkycore/RUIDGen.h: `RUIDGen` over any sequence of random values, with its hundred
--   attempts; Ruid/Issues is about what it issues, Ruid/Tokens about the texts of its values.
-- - Base: names of the library, texts as lists of bytes, association lists, decimal numbers, the
--   order of texts and pairs.
--
-- Three loops run on fuel. `trim` has one round more than the cache has entries, and each round
-- removes an entry. The loop of the joins has as many rounds as there are tables, since a round
-- removes its table from those that are left. The destructor of a session has one round more than
-- the stacks hold views, and each round ends one.
--
-- Two counters are `atomic<int>`s in the code, which wrap, and numbers without a bound here: that of
-- the aliases (`next_alias` of libkycore/rack.cpp) and that of the prepared statements (`PgPrepStmt` of
-- libsqldb/pgpool.h). What is shown of them holds up to the first wrap.
--
-- A moved-from string is taken to be empty, as libstdc++ leaves it (`transform_node`).
--
-- A statement's answer is a parameter: a query is a function from the text and the parameters to
-- rows or an error, for a record also from the state of the database, for the driver from all that
-- has happened on the connection. The set of layouts of an app is a parameter, too, since the code
-- has neither a hash nor an equality of layouts.
--
-- Not modelled: the destructor of `PgConn` (libsqldb/pgpool.cpp), which finishes the connection before
-- its cache closes the prepared statements on it, what an exception leaves of a record, `generate_sql` and `print_stats`, which only
-- write text, the accessors of a result, which pass calls on to libpq, the choice of the driver by a
-- scheme (libsqldb/sqldb.cpp), the random engine of libkycore/RUIDGen.h, and
-- libsqldb/transaction.h, which the preprocessor leaves out.
pub mod Base
pub mod Arc
pub mod Pool
pub mod Types
pub mod Sql
pub mod Recordset
pub mod Record
pub mod Ruid
pub mod Parts
pub mod Schema
pub mod Layout
pub mod Registry
pub mod Session
pub mod Driver
