-- ===== src/Driver/Holds.antt =====
-- sqldrvpg.cpp: the statements that the server holds for a connection are those that its cache holds.
use kyzddfer.Base.{
  ℕ, ◌+◌, ◌≤◌, ◌≡◌, ◌≢◌, refl, ap, sym, ◌∙◌, inl, inr, true, Option, none, some, Option-cases, List,
  ◌∷◌, if_pos, if_neg, arith,
}
use kyzddfer.Base.Assoc.{IsMap, All-lookup}
use kyzddfer.Base.Decimal.{to_string-injective}
use kyzddfer.Base.Text.{Text, text_dec}
use kyzddfer.Arc.{CacheEntry, ArcState, find, make_room, put}
use kyzddfer.Arc.Limits.{IsValid}
use kyzddfer.Arc.Methods.{put-IsValid}
use kyzddfer.Arc.Reads.{view, value_of, Forgets, make_room-Forgets, view-put_self, view-put_ne}
use kyzddfer.Driver.{PgPrepStmt, destroy, Event, prepared, close_dropped, name_of, PgConn}
use kyzddfer.Driver.Trace.{
  statement_of, statement_of-dropped_ne, statement_of-dropped, statement_of-dropped_self,
}

abbrev pub stmt : ℕ → PgPrepStmt
stmt n = record { has_conn = true; stmt_name = name_of n }

name_of-injective : (m n : ℕ) → name_of m ≡ name_of n → m ≡ n
name_of-injective m n e = to_string-injective m n cc

destroy-stmt : (n : ℕ) → destroy (stmt n) ≡ some (name_of n)
destroy-stmt n = refl

some_same : {a b : Text} → ◌≡◌ {A = Option Text} (some a) (some b) → a ≡ b
some_same e = cc

some-none {ℓ} : {A : Type ℓ} {a : A} → ◌≡◌ {A = Option A} (some a) none → ⊥
some-none e = cc

-- The cached statements have numbers, and the server holds each for the text that it is cached
-- under.
abbrev pub AreNamed : ArcState PgPrepStmt → Type 0
AreNamed c = (k : Text) (s : PgPrepStmt) → view c k ≡ some s → (n : ℕ) × (s ≡ stmt n)

abbrev pub AreHeld : ArcState PgPrepStmt → List Event → Type 0
AreHeld c es = (n : ℕ) (k : Text) → view c k ≡ some (stmt n) → statement_of es (name_of n) ≡ some k

-- A statement that the server holds is cached, under a number that the counter has passed.
abbrev pub AreCached : ArcState PgPrepStmt → ℕ → List Event → Type 0
AreCached c counter es =
    (name k : Text)
    → statement_of es name ≡ some k
    → (n : ℕ) × (name ≡ name_of n) × (n ≤ counter) × (view c k ≡ some (stmt n))

view-find :
    (c : ArcState PgPrepStmt) (k : Text) (e : CacheEntry PgPrepStmt)
    → find k c ≡ some e
    → view c k ≡ some e.value
view-find c k e f = ap value_of f

find-view :
    (c : ArcState PgPrepStmt) (k : Text) (s : PgPrepStmt)
    → view c k ≡ some s
    → (e : CacheEntry PgPrepStmt) × (find k c ≡ some e) × (e.value ≡ s)
find-view c k s v = elim (Option-cases (find k c)) [
  | inl f ↦ absurd (ground arith)
  | inr (e, f) ↦ (e, f, ground arith)
]

view-none : (c : ArcState PgPrepStmt) (k : Text) → view c k ≡ none → find k c ≡ none
view-none c k v = elim (Option-cases (find k c)) [ inl f ↦ f | inr (e, f) ↦ absurd (ground arith) ]

module _ (c c' : ArcState PgPrepStmt) (es : List Event) (forgets : Forgets c c') where
  dropped_held :
      IsMap text_dec c.cache → AreNamed c → AreHeld c es → AreHeld c' (close_dropped c.cache c' es)
  dropped_held d named held n k v = elim (forgets k) [
    | inr gone ↦ absurd (ground arith)
    | inl kept ↦
        let old : view c k ≡ some (stmt n) = sym kept ∙ v in
        statement_of-dropped_ne c' c.cache es (name_of n) (
          All-lookup text_dec (λ p. find p.0 c' ≡ none → destroy p.1.value ≢ some (name_of n))
            c.cache d
            λ j e l f same.
              let (m, is) = named j e.value (view-find c j e l) in
              let named_same : name_of m ≡ name_of n =
                some_same (sym (destroy-stmt m) ∙ ap destroy (sym is) ∙ same) in
              let there : view c j ≡ some (stmt n) =
                view-find c j e l
                ∙ ap (λ (s : PgPrepStmt). some s) is
                ∙ ap (λ i. some (stmt i)) (name_of-injective m n named_same) in
              let key : j ≡ k = some_same (sym (held n j there) ∙ held n k old) in
              some-none (sym v ∙ ap (λ i. view c' i) (sym key) ∙ ap value_of f))
        ∙ held n k old
  ]

  dropped_cached :
      (name k : Text) (n : ℕ)
      → statement_of (close_dropped c.cache c' es) name ≡ some k
      → name ≡ name_of n
      → view c k ≡ some (stmt n)
      → view c' k ≡ some (stmt n)
  dropped_cached name k n s same v = elim (forgets k) [
    | inl kept ↦ kept ∙ v
    | inr gone ↦
        let (e, f, is) = find-view c k (stmt n) v in
        let closed : statement_of (close_dropped c.cache c' es) name ≡ none =
          statement_of-dropped_self c' c.cache es k name e f (view-none c' k gone)
            (ap destroy is ∙ destroy-stmt n ∙ ap (λ (t : Text). some t) (sym same)) in
        absurd (ground arith)
  ]

-- What holds of a connection between two calls.
pub record IsHeld (pg : PgConn) : Type 0 where
  pub valid : IsValid pg.cache
  pub named : AreNamed pg.cache
  pub held : AreHeld pg.cache pg.events
  pub cached : AreCached pg.cache pg.counter pg.events

Forgets-AreNamed : (c c' : ArcState PgPrepStmt) → Forgets c c' → AreNamed c → AreNamed c'
Forgets-AreNamed c c' forgets named k s v = elim (forgets k) [
  | inl kept ↦ named k s (sym kept ∙ v)
  | inr gone ↦ absurd (some-none (sym v ∙ gone))
]

-- A change of the cache that only forgets, with the statements closed that it has taken.
pub forget-IsHeld :
    (pg : PgConn) (c : ArcState PgPrepStmt)
    → IsHeld pg
    → Forgets pg.cache c
    → IsValid c
    → IsHeld (record pg { cache = c; events = close_dropped pg.cache.cache c pg.events })
forget-IsHeld pg c h forgets v = record {
  valid = v;
  named = Forgets-AreNamed pg.cache c forgets h.named;
  held = dropped_held pg.cache c pg.events forgets h.valid.coherent.distinct h.named h.held;
  cached = λ name k e.
      let (n, same, le, old) =
        h.cached name k (statement_of-dropped c pg.cache.cache pg.events name k e) in
      (n, same, le, dropped_cached pg.cache c pg.events forgets name k n e same old);
}

module _ (pg : PgConn) (sql : Text) (h : IsHeld pg) (absent : view pg.cache sql ≡ none) where
  abbrev number : ℕ
  number = pg.counter + 1

  abbrev room : ArcState PgPrepStmt
  room = make_room pg.cache sql

  abbrev with_new : List Event
  with_new = prepared (name_of number) sql ∷ pg.events

  abbrev left : List Event
  left = close_dropped pg.cache.cache room with_new

  -- A number that is cached is not the new one.
  old_number : (m : ℕ) (k : Text) → view pg.cache k ≡ some (stmt m) → name_of number ≢ name_of m
  old_number m k v same =
      let (n, is, le, there) = h.cached (name_of m) k (h.held m k v) in
      omega (arith, name_of-injective number m same, name_of-injective m n is, le)

  held_with_new : AreHeld pg.cache with_new
  unfolding statement_of
  held_with_new m k v =
      rw (if_neg (text_dec (name_of number) (name_of m)) (old_number m k v)) (h.held m k v)

  pub new_left : statement_of left (name_of number) ≡ some sql
  unfolding statement_of
  new_left =
      statement_of-dropped_ne room pg.cache.cache with_new (name_of number) (
        All-lookup text_dec (λ p. find p.0 room ≡ none → destroy p.1.value ≢ some (name_of number))
          pg.cache.cache h.valid.coherent.distinct
          λ j e l f same.
            let (m, is) = h.named j e.value (view-find pg.cache j e l) in
            old_number m j (view-find pg.cache j e l ∙ ap (λ (s : PgPrepStmt). some s) is)
              (sym (some_same (sym (destroy-stmt m) ∙ ap destroy (sym is) ∙ same))))
      ∙ rw (if_pos (text_dec (name_of number) (name_of number)) refl) refl

  put_held : AreHeld (put pg.cache sql (stmt number)) left
  put_held m k v = elim (text_dec k sql) [
    | yes p ↦
        let names : name_of number ≡ name_of m = some_same (
          ap (λ o. stmt_name_of o)
            (sym (view-put_self pg.cache sql (stmt number))
              ∙ ap (λ i. view (put pg.cache sql (stmt number)) i) (sym p)
              ∙ v)) in
        ap (λ i. statement_of left i) (sym names) ∙ new_left ∙ ap (λ (t : Text). some t) (sym p)
    | no p ↦
        dropped_held pg.cache room with_new (make_room-Forgets pg.cache sql)
          h.valid.coherent.distinct h.named held_with_new m k
          (sym (view-put_ne pg.cache sql (stmt number) k p) ∙ v)
  ]
    where
      stmt_name_of : Option PgPrepStmt → Option Text
      stmt_name_of none = none
      stmt_name_of (some s) = some s.stmt_name

  put_cached : AreCached (put pg.cache sql (stmt number)) number left
  unfolding statement_of
  put_cached name k e =
      let before : statement_of with_new name ≡ some k =
        statement_of-dropped room pg.cache.cache with_new name k e in
      elim (text_dec (name_of number) name) [
        | yes p ↦
            let key : sql ≡ k =
              some_same (rw (if_pos (text_dec (name_of number) name) p) at before) in
            (
              number,
              sym p,
              omega arith,
              ap (λ i. view (put pg.cache sql (stmt number)) i) (sym key)
                  ∙ view-put_self pg.cache sql (stmt number),
            )
        | no p ↦
            let (m, same, le, old) =
              h.cached name k (rw (if_neg (text_dec (name_of number) name) p) at before) in
            let other : k ≢ sql = λ q. some-none (sym old ∙ ap (λ i. view pg.cache i) q ∙ absent) in
            (
              m,
              same,
              omega (arith, le),
              view-put_ne pg.cache sql (stmt number) k other
                  ∙ dropped_cached pg.cache room with_new (make_room-Forgets pg.cache sql) name k m
                      e same old,
            )
      ]

  put_named : AreNamed (put pg.cache sql (stmt number))
  put_named k s v = elim (text_dec k sql) [
    | yes p ↦ (
      number,
      some_stmt (
          sym v
          ∙ ap (λ i. view (put pg.cache sql (stmt number)) i) p
          ∙ view-put_self pg.cache sql (stmt number)),
    )
    | no p ↦
        Forgets-AreNamed pg.cache room (make_room-Forgets pg.cache sql) h.named k s
          (sym (view-put_ne pg.cache sql (stmt number) k p) ∙ v)
  ]
    where
      some_stmt : {a b : PgPrepStmt} → ◌≡◌ {A = Option PgPrepStmt} (some a) (some b) → a ≡ b
      some_stmt e = cc

  -- The new statement in the cache.
  pub put-IsHeld :
      IsHeld (record { cache = put pg.cache sql (stmt number); events = left; counter = number })
  put-IsHeld = record {
    valid = put-IsValid pg.cache sql (stmt number) h.valid;
    named = put_named;
    held = put_held;
    cached = put_cached;
  }
