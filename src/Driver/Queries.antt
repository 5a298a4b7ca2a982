-- ===== src/Driver/Queries.antt =====
-- sqldrvpg.cpp: whatever has been queried and executed on a connection, a query runs the statement
-- that has been prepared for its text.
use kyzddfer.Base.{
  ℕ, ◌+◌, ◌≤◌, ◌≡◌, ◌↔◌, refl, ap, sym, subst, ◌∙◌, inl, inr, true, false, Option, none, some,
  Option-cases, List, [], ◌∷◌, if_cases, arith,
}
use kyzddfer.Base.Assoc.{lookup}
use kyzddfer.Base.Text.{Text}
use kyzddfer.Arc.{init}
use kyzddfer.Arc.Limits.{init-IsValid}
use kyzddfer.Arc.Methods.{get-IsValid}
use kyzddfer.Arc.Reads.{view, get_reads}
use kyzddfer.Driver.{
  PgPrepStmt, Event, refused, executed, close_dropped, name_of, Server, PgConn, Outcome, throws,
  answer, hand_over, exec_prepared, put_stmt, prepare, query, execute, arc_hard_limit, open_conn,
}
use kyzddfer.Driver.Trace.{statement_of}
use kyzddfer.Driver.Holds.{stmt, IsHeld, forget-IsHeld, new_left, put-IsHeld}

module _ {R : Type 0} (server : Server R) where
  -- How a query ends: the server has run a statement that has the text of the query, and its answer
  -- is the result; or there is an exception before that, since the text is empty or the server has
  -- refused it.
  pub data Ends (sql : Text) (params : List Text) (pg : PgConn) : Outcome R → Type 0 where
    ran :
        (es : List Event) (name : Text)
        → pg.events ≡ executed name params ∷ es
        → statement_of es name ≡ some sql
        → Ends sql params pg (answer (server.runs es name params))
    not_prepared :
        (es : List Event) (name : Text)
        → pg.events ≡ refused name sql ∷ es
        → server.prepares es name sql ≡ false
        → Ends sql params pg throws
    no_text : sql ≡ [] → Ends sql params pg throws

  exec_prepared-Ends :
      (sql name : Text) (params : List Text) (pg : PgConn)
      → statement_of pg.events name ≡ some sql
      → Ends sql params
          (exec_prepared server name params pg).0
          (exec_prepared server name params pg).1
  unfolding exec_prepared
  exec_prepared-Ends sql name params pg e = ran pg.events name refl e

  exec_prepared-IsHeld :
      (name : Text) (params : List Text) (pg : PgConn)
      → IsHeld pg
      → IsHeld (exec_prepared server name params pg).0
  unfolding exec_prepared statement_of
  exec_prepared-IsHeld name params pg h = record {
    valid = h.valid;
    named = h.named;
    held = h.held;
    cached = h.cached;
  }

  counted-IsHeld :
      (pg : PgConn) (n : ℕ) → pg.counter ≤ n → IsHeld pg → IsHeld (record pg { counter = n })
  counted-IsHeld pg n le h = record {
    valid = h.valid;
    named = h.named;
    held = h.held;
    cached = λ name k e.
        let (m, same, low, there) = h.cached name k e in (m, same, omega (arith, low, le), there);
  }

  refused-IsHeld :
      (pg : PgConn) (name sql : Text)
      → IsHeld pg
      → IsHeld (record pg { events = refused name sql ∷ pg.events })
  unfolding statement_of
  refused-IsHeld pg name sql h = record {
    valid = h.valid;
    named = h.named;
    held = h.held;
    cached = h.cached;
  }

  -- A text with no cached statement.
  prepare-Ends :
      (sql : Text) (params : List Text) (pg : PgConn)
      → IsHeld pg
      → view pg.cache sql ≡ none
      → IsHeld (prepare server sql params pg).0
        × Ends sql params (prepare server sql params pg).0 (prepare server sql params pg).1
  unfolding prepare put_stmt hand_over
  prepare-Ends [] params pg h absent =
      (counted-IsHeld pg (pg.counter + 1) (omega arith) h, no_text refl)
  prepare-Ends (c ∷ s) params pg h absent =
      let P = λ (r : PgConn × Outcome R). IsHeld r.0 × Ends (c ∷ s) params r.0 r.1 in
      let next = counted-IsHeld pg (pg.counter + 1) (omega arith) h in
      if_cases P (server.prepares pg.events (name_of (pg.counter + 1)) (c ∷ s)) _ _
        (λ yes_ok. (
          exec_prepared-IsHeld (name_of (pg.counter + 1)) params _ (put-IsHeld pg (c ∷ s) h absent),
          exec_prepared-Ends (c ∷ s) (name_of (pg.counter + 1)) params _
              (new_left pg (c ∷ s) h absent),
        ))
        (λ no_ok. (
          refused-IsHeld (record pg { counter = pg.counter + 1 }) (name_of (pg.counter + 1)) (c ∷ s)
              next,
          not_prepared pg.events (name_of (pg.counter + 1)) refl no_ok,
        ))

  query-Ends :
      (sql : Text) (params : List Text) (pg : PgConn)
      → IsHeld pg
      → (pg' : PgConn) × (out : Outcome R) × (query server sql params pg ≡ some (pg', out))
        × IsHeld pg'
        × Ends sql params pg' out
  unfolding query
  query-Ends sql params pg h =
      let (c, found, got, v) = get-IsValid pg.cache sql h.valid in
      let (is, was, forgets) = get_reads pg.cache sql got in
      let pg' : PgConn = record pg {
        cache = c;
        events = close_dropped pg.cache.cache c pg.events;
      } in
      let h' : IsHeld pg' = forget-IsHeld pg c h forgets v in
      elim (Option-cases found) [
        | inl miss ↦
            let made = prepare-Ends sql params pg' h' (sym is ∙ miss) in
            (
              (prepare server sql params pg').0,
              (prepare server sql params pg').1,
              rw (got, query, miss) refl,
              made.0,
              made.1,
            )
        | inr (s, hit) ↦
            let (n, same) = h'.named sql s (sym is ∙ hit) in
            let there : view c sql ≡ some (stmt n) =
              sym is ∙ hit ∙ ap (λ (t : PgPrepStmt). some t) same in
            let name_same : name_of n ≡ s.stmt_name =
              sym (ap (λ (t : PgPrepStmt). t.stmt_name) same) in
            let held : statement_of pg'.events s.stmt_name ≡ some sql =
              ap (λ i. statement_of pg'.events i) (sym name_same) ∙ h'.held n sql there in
            (
              (exec_prepared server s.stmt_name params pg').0,
              (exec_prepared server s.stmt_name params pg').1,
              rw (got, query, hit) refl,
              exec_prepared-IsHeld s.stmt_name params pg' h',
              exec_prepared-Ends sql s.stmt_name params pg' held,
            )
      ]

  -- What happens on a connection: it opens, and queries and statements follow, while the other
  -- connections draw numbers from the counter.
  pub data Reach : PgConn → Type 0 where
    opens : (counter : ℕ) → Reach (open_conn counter)
    queries :
        (sql : Text) (params : List Text) {pg pg' : PgConn} {out : Outcome R}
        → Reach pg
        → query server sql params pg ≡ some (pg', out)
        → Reach pg'
    executes :
        (sql : Text) (params : List Text) {pg : PgConn}
        → Reach pg
        → Reach (execute server sql params pg).0
    counts : (n : ℕ) {pg : PgConn} → pg.counter ≤ n → Reach pg → Reach (record pg { counter = n })

  executed-IsHeld :
      (sql : Text) (params : List Text) (pg : PgConn)
      → IsHeld pg
      → IsHeld (execute server sql params pg).0
  unfolding execute statement_of
  executed-IsHeld sql params pg h = record {
    valid = h.valid;
    named = h.named;
    held = h.held;
    cached = h.cached;
  }

  opened-IsHeld : (counter : ℕ) → IsHeld (open_conn counter)
  unfolding statement_of init lookup
  opened-IsHeld counter = record {
    valid = init-IsValid arc_hard_limit;
    named = λ k s e. cc;
    held = λ n k e. cc;
    cached = λ name k e. cc;
  }

  Reach-IsHeld : {pg : PgConn} → Reach pg → IsHeld pg
  Reach-IsHeld (opens counter) = opened-IsHeld counter
  Reach-IsHeld (queries sql params {pg} {pg'} {out} r e) =
      let (next, res, done, h, ends) = query-Ends sql params pg (Reach-IsHeld r) in
      let same : next ≡ pg' = some_pair (sym done ∙ e) in subst IsHeld same h
    where
      some_pair :
          {a b : PgConn} {x y : Outcome R}
          → ◌≡◌ {A = Option (PgConn × Outcome R)} (some (a, x)) (some (b, y))
          → a ≡ b
      some_pair p = cc
  Reach-IsHeld (executes sql params {pg} r) = executed-IsHeld sql params pg (Reach-IsHeld r)
  Reach-IsHeld (counts n {pg} le r) = counted-IsHeld pg n le (Reach-IsHeld r)

  -- Whatever has happened on a connection and however the server answers: a query ends, and unless
  -- its text is empty or the server refuses to prepare it, the server runs a statement that it holds
  -- for exactly this text, and its answer is what the query returns, or the exception.
  pub query_runs :
      {pg : PgConn} (sql : Text) (params : List Text)
      → Reach pg
      → (pg' : PgConn) × (out : Outcome R) × (query server sql params pg ≡ some (pg', out))
        × Ends sql params pg' out
  query_runs {pg} sql params r =
      let (next, out, done, h, ends) = query-Ends sql params pg (Reach-IsHeld r) in
      (next, out, done, ends)

  -- Whatever has happened on a connection: the statements that the server holds for it are those of
  -- its cache, each for the text that it is cached under.
  pub held_statements :
      {pg : PgConn}
      → Reach pg
      → (name sql : Text)
      → (statement_of pg.events name ≡ some sql)
        ↔ (view pg.cache sql ≡ some (record { has_conn = true; stmt_name = name }))
  held_statements {pg} r name sql =
      let h = Reach-IsHeld r in
      (
        (λ e.
            let (n, same, le, there) = h.cached name sql e in
            there ∙ ap (λ i. some (record { has_conn = true; stmt_name = i })) (sym same)),
        (λ e.
            let (n, same) = h.named sql (record { has_conn = true; stmt_name = name }) e in
            let name_same : name_of n ≡ name = sym (ap (λ (t : PgPrepStmt). t.stmt_name) same) in
            ap (λ i. statement_of pg.events i) (sym name_same)
            ∙ h.held n sql (e ∙ ap (λ (t : PgPrepStmt). some t) same)),
      )
