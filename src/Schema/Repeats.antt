-- ===== src/Schema/Repeats.antt =====
-- rack.cpp: a name that was looked up once gives the same qualified field again.
use kyzddfer.Base.{
  ℕ, ◌≡◌, ap, sym, ◌∙◌, Option, none, some, Option-cases, inl, inr, List, [], ◌∷◌, arith,
}
use kyzddfer.Base.Assoc.{lookup, insert, lookup-insert_self, lookup-insert_ne}
use kyzddfer.Base.Text.{Text, text_dec}
use kyzddfer.Sql.Model.{master}
use kyzddfer.Parts.{svparts}
use kyzddfer.Schema.{
  Tables, QField, Lookup, get_in_table, table_of, QModel, cache_found, get_qfield,
}

pub qfield_new :
    (tables : Tables) (name : Text) (m : QModel) (n : ℕ)
    → lookup text_dec name m.qfields ≡ none
    → get_qfield tables name m n
      ≡ cache_found name m
          (get_in_table tables (svparts name) (master (table_of m.root).name) m.root n)
unfolding get_qfield
qfield_new tables name m n e = ground arith

pub qfield_old :
    (tables : Tables) (name : Text) (m : QModel) (n : ℕ) (f : QField)
    → lookup text_dec name m.qfields ≡ some f
    → get_qfield tables name m n ≡ some (f, m, n)
unfolding get_qfield
qfield_old tables name m n f e = ground arith

-- Calls of `getQField`, none of which fails.
unfoldable pub get_all : Tables → List Text → QModel → ℕ → Option (QModel × ℕ)
get_all tables [] m n = some (m, n)
get_all tables (name ∷ names) m n = elim (get_qfield tables name m n) [
  | none ↦ none
  | some (f, m', n') ↦ get_all tables names m' n'
]

cache_found-keeps :
    (name : Text) (m m' : QModel) (f : QField) (n : ℕ) (l : Option Lookup) (other : Text)
    (g : QField)
    → cache_found name m l ≡ some (f, m', n)
    → lookup text_dec name m.qfields ≡ none
    → (lookup text_dec name m'.qfields ≡ some f)
      × (lookup text_dec other m.qfields ≡ some g → lookup text_dec other m'.qfields ≡ some g)
unfolding cache_found
cache_found-keeps name m m' f n none other g e new = cc
cache_found-keeps name m m' f n (some l) other g e new =
    let cached : insert text_dec name l.found m.qfields ≡ m'.qfields = ground arith in
    let found : l.found ≡ f = ground arith in
    (
      ap (lookup text_dec name) (sym cached)
          ∙ lookup-insert_self text_dec name l.found m.qfields
          ∙ ap some found,
      λ k.
          ap (lookup text_dec other) (sym cached)
          ∙ lookup-insert_ne text_dec name other l.found m.qfields (λ p. cc (p, k, new))
          ∙ k,
    )

-- A call caches its name, and keeps the other names.
get_qfield-keeps :
    (tables : Tables) (name : Text) (m m' : QModel) (f : QField) (n n' : ℕ) (other : Text)
    (g : QField)
    → get_qfield tables name m n ≡ some (f, m', n')
    → (lookup text_dec name m'.qfields ≡ some f)
      × (lookup text_dec other m.qfields ≡ some g → lookup text_dec other m'.qfields ≡ some g)
get_qfield-keeps tables name m m' f n n' other g e =
    elim (Option-cases (lookup text_dec name m.qfields)) [
      | inl new ↦
          cache_found-keeps name m m' f n' _ other g (sym (qfield_new tables name m n new) ∙ e) new
      | inr (h, old) ↦
          let stays : ◌≡◌ {A = Option (QField × QModel × ℕ)} (some (h, m, n)) (some (f, m', n')) =
            sym (qfield_old tables name m n h old) ∙ e in
          let same : m ≡ m' = ground arith in
          let is : h ≡ f = ground arith in
          (
            ap (λ (k : QModel). lookup text_dec name k.qfields) (sym same) ∙ old ∙ ap some is,
            λ k. ap (λ (j : QModel). lookup text_dec other j.qfields) (sym same) ∙ k,
          )
    ]

get_all-keeps :
    (tables : Tables) (names : List Text) (m m' : QModel) (n n' : ℕ) (name : Text) (f : QField)
    → get_all tables names m n ≡ some (m', n')
    → lookup text_dec name m.qfields ≡ some f
    → lookup text_dec name m'.qfields ≡ some f
unfolding get_all
get_all-keeps tables [] m m' n n' name f e k =
    let same : m ≡ m' = ground arith in
    ap (λ (j : QModel). lookup text_dec name j.qfields) (sym same) ∙ k
get_all-keeps tables (other ∷ names) m m' n n' name f e k =
    elim (Option-cases (get_qfield tables other m n)) [
      | inl fails ↦ ground arith
      | inr ((g, a, b), found) ↦
          let rest : get_all tables names a b ≡ some (m', n') = ground arith in
          get_all-keeps tables names a m' b n' name f rest
            ((get_qfield-keeps tables other m a g n b name f found).1 k)
    ]

-- A name that was looked up gives the same qualified field again, whatever other names were looked
-- up since, and wherever the counter of the aliases is by then. That call changes nothing.
pub get_qfield_again :
    (tables : Tables) (name : Text) (names : List Text) (m a b : QModel) (f : QField) (n k j i : ℕ)
    → get_qfield tables name m n ≡ some (f, a, k)
    → get_all tables names a k ≡ some (b, j)
    → get_qfield tables name b i ≡ some (f, b, i)
get_qfield_again tables name names m a b f n k j i e all = qfield_old tables name b i f (
    get_all-keeps tables names a b k j name f all
      (get_qfield-keeps tables name m a f n k name f e).0)
