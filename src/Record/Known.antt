-- ===== src/Record/Known.antt =====
-- rec.cpp: a field of a record keeps its place, and has one.
use kyzddfer.Base.{
  ℕ, ◌+◌, ◌≡◌, refl, ap, sym, subst, ◌∙◌, true, Bool-cases, Option, none, some, Option-cases, inl,
  inr, List, [], ◌∷◌, ◌++◌, length, length-append, if_pos, arith, append_assoc, append-nil,
}
use kyzddfer.Base.Text.{Text, text_dec}
use kyzddfer.Layout.{is_text}
use kyzddfer.Sql.Model.{alias, RField}
use kyzddfer.Schema.{Tables, QField, QModel, get_qfield}
use kyzddfer.Schema.Repeats.{get_all, get_qfield_again}
use kyzddfer.Record.Fields.{
  Keyed, FieldState, same_qfield, position_from, new_rfield, key_target, find_or_make,
  get_rfield_of,
}

-- Lookups of fields, none of which fails.
unfoldable pub get_all_rfields : Tables → List Text → FieldState → Option FieldState
get_all_rfields tables [] s = some s
get_all_rfields tables (name ∷ names) s = elim (get_rfield_of tables name s) [
  | none ↦ none
  | some (i, s') ↦ get_all_rfields tables names s'
]

text_self : (a : Text) → is_text a a ≡ true
text_self a = rw (if_pos (text_dec a a) refl) refl

same_new : (q : QField) → same_qfield q (new_rfield q) ≡ true
unfolding same_qfield
same_new q = rw (text_self (alias q.pqt), text_self q.pf.name) refl

-- A field that is found stays where it is.
position_from-append :
    (i k : ℕ) (q : QField) (rs more : List Keyed)
    → position_from i q rs ≡ some k
    → position_from i q (rs ++ more) ≡ some k
unfolding position_from
position_from-append i k q [] more e = absurd (ground arith)
position_from-append i k q ((r, t) ∷ rs) more e = elim (Bool-cases (same_qfield q r)) [
  | inl yes_same ↦ ground arith
  | inr no_same ↦
      let rest : position_from (i + 1) q rs ≡ some k = ground arith in
      rw no_same (position_from-append (i + 1) k q rs more rest)
]

-- A new field is found behind the others.
position_from-new :
    (i : ℕ) (q : QField) (rs : List Keyed) (t : Option Text)
    → position_from i q rs ≡ none
    → position_from i q (rs ++ (new_rfield q, t) ∷ []) ≡ some (i + length rs)
unfolding position_from
position_from-new i q [] t e = rw (same_new q) (ap (λ (n : ℕ). some n) (omega arith))
position_from-new i q ((r, u) ∷ rs) t e = elim (Bool-cases (same_qfield q r)) [
  | inl yes_same ↦ absurd (ground arith)
  | inr no_same ↦
      let rest : position_from (i + 1) q rs ≡ none = ground arith in
      rw no_same (position_from-new (i + 1) q rs t rest ∙ ap (λ (n : ℕ). some n) (omega arith))
]

-- Where a field stands, the record has a field of that qualified field.
abbrev pub IsAt : QField → ℕ → List Keyed → Type 0
IsAt q i rs =
    (before : List Keyed) × (r : RField) × (k : Option Text) × (after : List Keyed) × (rs
      ≡ before ++ (r, k) ∷ after)
    × (length before ≡ i)
    × (same_qfield q r ≡ true)

position-IsAt :
    (done : List Keyed) (i k : ℕ) (q : QField) (rs : List Keyed)
    → length done ≡ i
    → position_from i q rs ≡ some k
    → IsAt q k (done ++ rs)
unfolding position_from
position-IsAt done i k q [] l e = absurd (ground arith)
position-IsAt done i k q ((r, t) ∷ rs) l e = elim (Bool-cases (same_qfield q r)) [
  | inl yes_same ↦ let here : i ≡ k = ground arith in (done, r, t, rs, refl, l ∙ here, yes_same)
  | inr no_same ↦
      let rest : position_from (i + 1) q rs ≡ some k = ground arith in
      subst (IsAt q k) (append_assoc done ((r, t) ∷ []) rs) (
        position-IsAt (done ++ (r, t) ∷ []) (i + 1) k q rs
          (omega (arith, l, length-append done ((r, t) ∷ []))) rest)
]

-- What a lookup gives for the qualified field.
abbrev Located : QField → FieldState → ℕ × FieldState → Type 0
Located q s (i, s') =
    (position_from 0 q s'.rfields ≡ some i)
    × ((more : List Keyed) × (s'.rfields ≡ s.rfields ++ more))
    × (s'.model ≡ s.model)
    × (s'.next ≡ s.next)

find_or_make-Located :
    (q : QField) (o : Option ℕ) (s : FieldState)
    → position_from 0 q s.rfields ≡ o
    → Located q s (find_or_make q o s)
unfolding find_or_make
find_or_make-Located q (some i) s e = (e, ([], sym (append-nil s.rfields)), refl, refl)
find_or_make-Located q none s e = (
  position_from-new 0 q s.rfields (key_target q) e ∙ ap (λ (n : ℕ). some n) (omega arith),
  ((new_rfield q, key_target q) ∷ [], refl),
  refl,
  refl,
)

some_same : {x y : ℕ × FieldState} → ◌≡◌ {A = Option (ℕ × FieldState)} (some x) (some y) → x ≡ y
some_same e = cc

-- The qualified field behind a lookup that has not failed.
abbrev Behind : Tables → Text → FieldState → ℕ → FieldState → Type 0
Behind tables name s i s' =
    (q : QField) × (get_qfield tables name s.model s.next ≡ some (q, s'.model, s'.next))
    × (position_from 0 q s'.rfields ≡ some i)
    × ((more : List Keyed) × (s'.rfields ≡ s.rfields ++ more))

get_rfield-Behind :
    (tables : Tables) (name : Text) (s s' : FieldState) (i : ℕ)
    → get_rfield_of tables name s ≡ some (i, s')
    → Behind tables name s i s'
unfolding get_rfield_of
get_rfield-Behind tables name s s' i e =
    elim (Option-cases (get_qfield tables name s.model s.next)) [
      | inl fails ↦ absurd (ground arith)
      | inr ((q, m, n), found) ↦
          let t : FieldState = record s { model = m; next = n } in
          let made = find_or_make q (position_from 0 q s.rfields) t in
          let is : ◌≡◌ {A = Option (ℕ × FieldState)} (some made) (some (i, s')) =
            rw (found, get_rfield_of) at e in
          let same : made ≡ (i, s') = some_same is in
          let at =
            subst (Located q t) same
              (find_or_make-Located q (position_from 0 q s.rfields) t refl) in
          (q, (rw (at.2, at.3) found), at.0, at.1)
    ]

get_all-after :
    (tables : Tables) (names : List Text) (q : QField) (i : ℕ) (s s' : FieldState)
    → get_all_rfields tables names s ≡ some s'
    → position_from 0 q s.rfields ≡ some i
    → (get_all tables names s.model s.next ≡ some (s'.model, s'.next))
      × (position_from 0 q s'.rfields ≡ some i)
unfolding get_all_rfields get_all
get_all-after tables [] q i s s' e at =
    let same : s ≡ s' = ground arith in
    (
      ap (λ (t : FieldState). some (t.model, t.next)) same,
      ap (λ (t : FieldState). position_from 0 q t.rfields) (sym same) ∙ at,
    )
get_all-after tables (name ∷ names) q i s s' e at =
    elim (Option-cases (get_rfield_of tables name s)) [
      | inl fails ↦ absurd (ground arith)
      | inr ((j, t), found) ↦
          let (p, first, there, (more, grown)) = get_rfield-Behind tables name s t j found in
          let rest : get_all_rfields tables names t ≡ some s' = rw (found, get_all_rfields) at e in
          let kept : position_from 0 q t.rfields ≡ some i =
            ap (position_from 0 q) grown ∙ position_from-append 0 i q s.rfields more at in
          let (all, still) = get_all-after tables names q i t s' rest kept in
          (rw (first, get_all) all, still)
    ]

-- A field that `getRField` has given stands at its place, is of the qualified field of its name, and
-- is given again for the name, whatever other fields have been asked for since. Asking again changes
-- nothing.
pub get_rfield_again :
    (tables : Tables) (name : Text) (names : List Text) (s s' later : FieldState) (i : ℕ)
    → get_rfield_of tables name s ≡ some (i, s')
    → get_all_rfields tables names s' ≡ some later
    → (get_rfield_of tables name later ≡ some (i, later))
      × ((q : QField) × (n : ℕ) × (m : QModel) × (get_qfield tables name s.model s.next
            ≡ some (q, m, n))
          × IsAt q i later.rfields)
unfolding get_rfield_of find_or_make
get_rfield_again tables name names s s' later i e all =
    let (q, found, at, (more, grown)) = get_rfield-Behind tables name s s' i e in
    let (fields, still) = get_all-after tables names q i s' later all at in
    let again =
      get_qfield_again tables name names s.model s'.model later.model q s.next s'.next later.next
        later.next found fields in
    (
      rw (again, get_rfield_of) (ap (λ o. some (find_or_make q o later)) still),
      (q, s'.next, s'.model, found, position-IsAt [] 0 i q later.rfields refl still),
    )
