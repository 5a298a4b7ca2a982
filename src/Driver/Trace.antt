-- ===== src/Driver/Trace.antt =====
-- sqldrvpg.cpp: the statements that a connection holds after what has happened on it.
use kyzddfer.Base.{
  ◌≡◌, ◌≢◌, refl, ap, sym, ◌∙◌, inl, inr, Option, none, some, Option-cases, List, [], ◌∷◌, All, ite,
  if_pos, if_neg, arith,
}
use kyzddfer.Base.Assoc.{lookup}
use kyzddfer.Base.Text.{Text, text_dec}
use kyzddfer.Arc.{CacheEntry, ArcState, find}
use kyzddfer.Driver.{
  PgPrepStmt, destroy, Event, prepared, refused, closed, executed, executed_once, add_closed,
  close_dropped,
}

-- The text of the statement that has a name: PostgreSQL keeps a prepared statement until it is
-- closed.
unfoldable pub statement_of : List Event → Text → Option Text
statement_of [] n = none
statement_of (prepared m sql ∷ es) n = ite (text_dec m n) (some sql) (statement_of es n)
statement_of (closed m ∷ es) n = ite (text_dec m n) none (statement_of es n)
statement_of (refused m sql ∷ es) n = statement_of es n
statement_of (executed m params ∷ es) n = statement_of es n
statement_of (executed_once sql params ∷ es) n = statement_of es n

statement_of-add_closed_ne :
    (o : Option Text) (es : List Event) (n : Text)
    → o ≢ some n
    → statement_of (add_closed o es) n ≡ statement_of es n
unfolding statement_of
statement_of-add_closed_ne none es n h = refl
statement_of-add_closed_ne (some m) es n h =
    rw (if_neg (text_dec m n) (λ e. h (ap (λ (t : Text). some t) e))) refl

statement_of-add_closed :
    (o : Option Text) (es : List Event) (n sql : Text)
    → statement_of (add_closed o es) n ≡ some sql
    → statement_of es n ≡ some sql
unfolding statement_of
statement_of-add_closed none es n sql e = e
statement_of-add_closed (some m) es n sql e = elim (text_dec m n) [
  | yes p ↦ absurd (ground arith)
  | no p ↦ ground arith
]

statement_of-add_closed_self :
    (o : Option Text) (es : List Event) (n : Text)
    → o ≡ some n
    → statement_of (add_closed o es) n ≡ none
unfolding statement_of
statement_of-add_closed_self none es n e = absurd (ground arith)
statement_of-add_closed_self (some m) es n e =
    let same : m ≡ n = ground arith in rw (if_pos (text_dec m n) same) refl

statement_of-add_closed-none :
    (o : Option Text) (es : List Event) (n : Text)
    → statement_of es n ≡ none
    → statement_of (add_closed o es) n ≡ none
unfolding statement_of
statement_of-add_closed-none none es n e = e
statement_of-add_closed-none (some m) es n e = elim (text_dec m n) [
  | yes p ↦ rw (if_pos (text_dec m n) p) refl
  | no p ↦ rw (if_neg (text_dec m n) p) e
]

module _ (c : ArcState PgPrepStmt) where
  -- What one entry adds.
  abbrev closed_by :
      Option (CacheEntry PgPrepStmt) → CacheEntry PgPrepStmt → List Event → List Event
  closed_by none e es = add_closed (destroy e.value) es
  closed_by (some kept) e es = es

  close_dropped-entry :
      (k : Text) (e : CacheEntry PgPrepStmt) (entries : List (Text × CacheEntry PgPrepStmt))
      (es : List Event)
      → close_dropped ((k, e) ∷ entries) c es ≡ closed_by (find k c) e (close_dropped entries c es)
  unfolding close_dropped
  close_dropped-entry k e entries es = elim (Option-cases (find k c)) [
    | inl f ↦ rw (f, close_dropped) refl
    | inr (kept, f) ↦ rw (f, close_dropped) refl
  ]

  -- A statement stays unless an entry that has gone holds it.
  pub statement_of-dropped_ne :
      (entries : List (Text × CacheEntry PgPrepStmt)) (es : List Event) (n : Text)
      → All (λ p. find p.0 c ≡ none → destroy p.1.value ≢ some n) entries
      → statement_of (close_dropped entries c es) n ≡ statement_of es n
  unfolding close_dropped
  statement_of-dropped_ne [] es n h = refl
  statement_of-dropped_ne ((k, e) ∷ entries) es n h =
      let rest = statement_of-dropped_ne entries es n h.1 in
      ap (λ t. statement_of t n) (close_dropped-entry k e entries es)
      ∙ elim (Option-cases (find k c)) [
        | inl f ↦ rw f (
            statement_of-add_closed_ne (destroy e.value) (close_dropped entries c es) n (h.0 f)
            ∙ rest)
        | inr (kept, f) ↦ rw f rest
      ]

  pub statement_of-dropped :
      (entries : List (Text × CacheEntry PgPrepStmt)) (es : List Event) (n sql : Text)
      → statement_of (close_dropped entries c es) n ≡ some sql
      → statement_of es n ≡ some sql
  unfolding close_dropped
  statement_of-dropped [] es n sql h = h
  statement_of-dropped ((k, e) ∷ entries) es n sql h =
      let held = ap (λ t. statement_of t n) (sym (close_dropped-entry k e entries es)) ∙ h in
      elim (Option-cases (find k c)) [
        | inl f ↦ statement_of-dropped entries es n sql (
            statement_of-add_closed (destroy e.value) (close_dropped entries c es) n sql
              (rw f at held))
        | inr (kept, f) ↦ statement_of-dropped entries es n sql (rw f at held)
      ]

  -- An entry that has gone takes its statement with it.
  pub statement_of-dropped_self :
      (entries : List (Text × CacheEntry PgPrepStmt)) (es : List Event) (k n : Text)
      (e : CacheEntry PgPrepStmt)
      → lookup text_dec k entries ≡ some e
      → find k c ≡ none
      → destroy e.value ≡ some n
      → statement_of (close_dropped entries c es) n ≡ none
  unfolding lookup
  statement_of-dropped_self [] es k n e l f d = absurd (ground arith)
  statement_of-dropped_self ((j, g) ∷ entries) es k n e l f d =
      ap (λ t. statement_of t n) (close_dropped-entry j g entries es) ∙ elim (text_dec j k) [
        | yes p ↦
            let same : g ≡ e = ground arith in
            rw (p, f)
              (statement_of-add_closed_self (destroy g.value) (close_dropped entries c es) n
                (ap (λ (x : CacheEntry PgPrepStmt). destroy x.value) same ∙ d))
        | no p ↦
            let rest : lookup text_dec k entries ≡ some e = ground arith in
            let gone = statement_of-dropped_self entries es k n e rest f d in
            elim (Option-cases (find j c)) [
              | inl h ↦ rw h (
                  statement_of-add_closed-none (destroy g.value) (close_dropped entries c es) n
                    gone)
              | inr (kept, h) ↦ rw h gone
            ]
      ]
