-- ===== src/Recordset/Filled.antt =====
-- rec.cpp: what the loop of `Recordset::next` over the columns writes, described field by field.
use kyzddfer.Base.{
  ◌≡◌, ◌≢◌, refl, ap, sym, ◌∙◌, Bool, true, false, Option, none, some, inl, inr, List, [], ◌∷◌, map,
  ite, if◌then◌else◌, All, arith, Bool-cases,
}
use kyzddfer.Base.Text.{Text, text_dec}
use kyzddfer.Sql.Model.{alias, RField}
use kyzddfer.Recordset.{same_field, set, Rows, write_field, write_row}

-- The cell that a row has for a field: that of the last column that is the field.
unfoldable pub cell_of : List RField → List (Option Text) → RField → Option (Option Text)
cell_of [] row g = none
cell_of (q ∷ qs) [] g = none
cell_of (q ∷ qs) (v ∷ row) g = elim (cell_of qs row g) [
  | some w ↦ some w
  | none ↦ if same_field g q then some v else none
]

-- A field that shows a cell, which is null or a text; without a cell it stays as it is.
abbrev pub showing : Option (Option Text) → RField → RField
showing none g = g
showing (some none) g = record g { is_modified = false; is_null = true; val = [] }
showing (some (some v)) g = record g { is_modified = false; is_null = false; val = v }

abbrev pub filled : List RField → List (Option Text) → RField → RField
filled columns row g = showing (cell_of columns row g) g

-- The fields as each row in turn fills them.
unfoldable pub filled_rows : List RField → List RField → Rows → List (Option (List RField))
filled_rows columns fs [] = []
filled_rows columns fs (row ∷ rows) =
    some (map (filled columns row) fs) ∷ filled_rows columns (map (filled columns row) fs) rows

-- No two of the fields are the same.
abbrev pub IsApart : List RField → Type 0
IsApart [] = Unit
IsApart (g ∷ gs) = All (λ h. (alias g.pqt ≡ alias h.pqt) → g.pf.name ≢ h.pf.name) gs × IsApart gs

-- What one column writes to a field.
abbrev one : RField → Option Text → RField → RField
one q v g = if same_field g q then set g v else g

same_field_sound :
    (g q : RField) → same_field g q ≡ true → (alias g.pqt ≡ alias q.pqt) × (g.pf.name ≡ q.pf.name)
same_field_sound g q e = elim (text_dec (alias g.pqt) (alias q.pqt)) [
  | yes a ↦ elim (text_dec g.pf.name q.pf.name) [ yes b ↦ (a, b) | no b ↦ ground arith ]
  | no a ↦ ground arith
]

-- None of the fields is the one of the column.
others_stay :
    (q : RField) (v : Option Text) (gs : List RField)
    → All (λ h. same_field h q ≡ false) gs
    → map (one q v) gs ≡ gs
others_stay q v [] h = refl
others_stay q v (g ∷ gs) h = rw h.0 (ap (◌∷◌ g) (others_stay q v gs h.1))

apart_others :
    (g q : RField) (gs : List RField)
    → same_field g q ≡ true
    → All (λ h. (alias g.pqt ≡ alias h.pqt) → g.pf.name ≢ h.pf.name) gs
    → All (λ h. same_field h q ≡ false) gs
apart_others g q [] e h = tt
apart_others g q (k ∷ gs) e h = (
  elim (Bool-cases (same_field k q)) [
    | inl same ↦
        let (a, b) = same_field_sound g q e in
        let (c, d) = same_field_sound k q same in absurd (h.0 (a ∙ sym c) (b ∙ sym d))
    | inr other ↦ other
  ],
  apart_others g q gs e h.1,
)

write_field-one :
    (q : RField) (v : Option Text) (fs : List RField)
    → IsApart fs
    → write_field q v fs ≡ map (one q v) fs
unfolding write_field
write_field-one q v [] h = refl
write_field-one q v (g ∷ gs) h = elim (Bool-cases (same_field g q)) [
  | inl same ↦
      rw same (ap (◌∷◌ (set g v)) (sym (others_stay q v gs (apart_others g q gs same h.0))))
  | inr other ↦ rw other (ap (◌∷◌ g) (write_field-one q v gs h.1))
]

-- Writing keeps the names of a field.
abbrev pub Keeps : (RField → RField) → Type 0
Keeps w = (g : RField) → (alias (w g).pqt ≡ alias g.pqt) × ((w g).pf.name ≡ g.pf.name)

set-Keeps : (v : Option Text) → Keeps (λ g. set g v)
unfolding set
set-Keeps none g = (refl, refl)
set-Keeps (some v) g = (refl, refl)

one-Keeps : (q : RField) (v : Option Text) → Keeps (one q v)
one-Keeps q v g = elim (Bool-cases (same_field g q)) [
  | inl same ↦ rw same (set-Keeps v g)
  | inr other ↦ rw other (refl, refl)
]

showing-Keeps :
    (v : Option (Option Text)) (g : RField)
    → (alias (showing v g).pqt ≡ alias g.pqt) × ((showing v g).pf.name ≡ g.pf.name)
showing-Keeps none g = (refl, refl)
showing-Keeps (some none) g = (refl, refl)
showing-Keeps (some (some v)) g = (refl, refl)

apart-Keeps :
    (w : RField → RField) (g : RField) (gs : List RField)
    → Keeps w
    → All (λ h. (alias g.pqt ≡ alias h.pqt) → g.pf.name ≢ h.pf.name) gs
    → All (λ h. (alias (w g).pqt ≡ alias h.pqt) → (w g).pf.name ≢ h.pf.name) (map w gs)
apart-Keeps w g [] k h = tt
apart-Keeps w g (x ∷ gs) k h =
    ((λ a n. h.0 (sym (k g).0 ∙ a ∙ (k x).0) (sym (k g).1 ∙ n ∙ (k x).1)), apart-Keeps w g gs k h.1)

pub IsApart-Keeps :
    (w : RField → RField) (fs : List RField) → Keeps w → IsApart fs → IsApart (map w fs)
IsApart-Keeps w [] k h = tt
IsApart-Keeps w (g ∷ gs) k h = (apart-Keeps w g gs k h.0, IsApart-Keeps w gs k h.1)

pub filled-Keeps : (columns : List RField) (row : List (Option Text)) → Keeps (filled columns row)
filled-Keeps columns row g = showing-Keeps (cell_of columns row g) g

same_field-Keeps :
    (w : RField → RField) → Keeps w → (g p : RField) → same_field (w g) p ≡ same_field g p
same_field-Keeps w k g p =
    let is = λ (a : Text) (n : Text).
      ite (text_dec a (alias p.pqt)) (ite (text_dec n p.pf.name) true false) false in
    ap (λ a. is a (w g).pf.name) (k g).0 ∙ ap (is (alias g.pqt)) (k g).1

-- The cell depends only on which field it is.
cell_of-one :
    (q : RField) (v : Option Text) (qs : List RField) (row : List (Option Text)) (g : RField)
    → cell_of qs row (one q v g) ≡ cell_of qs row g
unfolding cell_of
cell_of-one q v [] row g = refl
cell_of-one q v (p ∷ qs) [] g = refl
cell_of-one q v (p ∷ qs) (x ∷ row) g =
    let is : same_field (one q v g) p ≡ same_field g p =
      same_field-Keeps (one q v) (one-Keeps q v) g p in
    ap
      (λ b. elim (cell_of qs row (one q v g)) [
        | some w ↦ some w
        | none ↦ if b then some x else none
      ])
      is
    ∙ ap
        (λ (o : Option (Option Text)). elim o [
          | some w ↦ some w
          | none ↦ if same_field g p then some x else none
        ])
        (cell_of-one q v qs row g)

-- A later cell covers an earlier one.
showing-over :
    (b : Bool) (o : Option (Option Text)) (v : Option Text) (g : RField)
    → showing o (if b then set g v else g)
      ≡ showing (elim o [ some w ↦ some w | none ↦ if b then some v else none ]) g
unfolding set
showing-over true none none g = refl
showing-over true none (some x) g = refl
showing-over true (some none) none g = refl
showing-over true (some none) (some x) g = refl
showing-over true (some (some w)) none g = refl
showing-over true (some (some w)) (some x) g = refl
showing-over false none v g = refl
showing-over false (some o) v g = refl

filled-one :
    (q : RField) (v : Option Text) (qs : List RField) (row : List (Option Text)) (g : RField)
    → filled qs row (one q v g) ≡ filled (q ∷ qs) (v ∷ row) g
unfolding cell_of
filled-one q v qs row g =
    ap (λ o. showing o (one q v g)) (cell_of-one q v qs row g)
    ∙ showing-over (same_field g q) (cell_of qs row g) v g

map-filled :
    (q : RField) (v : Option Text) (qs : List RField) (row : List (Option Text)) (fs : List RField)
    → map (filled qs row) (map (one q v) fs) ≡ map (filled (q ∷ qs) (v ∷ row)) fs
map-filled q v qs row [] = refl
map-filled q v qs row (g ∷ gs) =
    rw (filled-one q v qs row g) (ap (◌∷◌ (filled (q ∷ qs) (v ∷ row) g)) (map-filled q v qs row gs))

map-same : (fs : List RField) → map (λ g. g) fs ≡ fs
map-same [] = refl
map-same (g ∷ gs) = ap (◌∷◌ g) (map-same gs)

-- Where no two fields are the same, a row is written to each field that has a column.
pub write_row-filled :
    (columns : List RField) (row : List (Option Text)) (fs : List RField)
    → IsApart fs
    → write_row columns row fs ≡ map (filled columns row) fs
unfolding write_row cell_of
write_row-filled [] row fs h = sym (map-same fs)
write_row-filled (q ∷ qs) [] fs h = sym (map-same fs)
write_row-filled (q ∷ qs) (v ∷ row) fs h =
    ap (write_row qs row) (write_field-one q v fs h)
    ∙ write_row-filled qs row (map (one q v) fs) (IsApart-Keeps (one q v) fs (one-Keeps q v) h)
    ∙ map-filled q v qs row fs
