-- ===== src/Recordset/Visits.antt =====
-- rec.cpp: a loop over `next` visits every row of the page, once and in order, and then stops.
use kyzddfer.Base.{
  ℕ, zero, suc, ◌+◌, ◌≡◌, refl, ap, sym, ◌∙◌, true, false, Option, none, some, List, [], ◌∷◌, ◌++◌,
  length, map, arith, if◌then◌else◌, append_assoc, length-append,
}
use kyzddfer.Base.Text.{Text}
use kyzddfer.Sql.Model.{RField}
use kyzddfer.Recordset.Filled.{
  filled, filled_rows, IsApart, IsApart-Keeps, filled-Keeps, write_row-filled,
}
use kyzddfer.Recordset.{Rows, RecordsetState, write_row, row_at, next}

-- What a number of calls of `next` answer, and the fields that the record set then has, where the
-- answer is that there is a row.
unfoldable pub visits : ℕ → RecordsetState → List (Option (List RField))
visits zero r = []
visits (suc n) r =
    let rest = visits n (next r).0 in (if (next r).1 then some (next r).0.rfields else none) ∷ rest

-- The rows written one after the other, by the loop itself.
unfoldable written_rows : List RField → List RField → Rows → List (Option (List RField))
written_rows columns fs [] = []
written_rows columns fs (row ∷ rows) =
    some (write_row columns row fs) ∷ written_rows columns (write_row columns row fs) rows

written_rows-filled :
    (columns fs : List RField) (rows : Rows)
    → IsApart fs
    → written_rows columns fs rows ≡ filled_rows columns fs rows
unfolding written_rows filled_rows
written_rows-filled columns fs [] h = refl
written_rows-filled columns fs (row ∷ rows) h =
    ap (λ gs. some gs ∷ written_rows columns gs rows) (write_row-filled columns row fs h)
    ∙ ap (◌∷◌ (some (map (filled columns row) fs))) (
        written_rows-filled columns (map (filled columns row) fs) rows
          (IsApart-Keeps (filled columns row) fs (filled-Keeps columns row) h))

unfoldable pub no_rows : ℕ → List (Option (List RField))
no_rows zero = []
no_rows (suc n) = none ∷ no_rows n

-- The state behind the rows that are done.
record IsAt (r : RecordsetState) (done rows : Rows) : Type 0 where
  holds : r.res ≡ some (done ++ rows)
  at : r.next_row ≡ length done

row_at-append :
    (done : Rows) (row : List (Option Text)) (rows : Rows)
    → row_at (length done) (done ++ row ∷ rows) ≡ some row
unfolding row_at
row_at-append [] row rows = refl
row_at-append (x ∷ done) row rows = row_at-append done row rows

row_at-end : (done : Rows) → row_at (length done) (done ++ []) ≡ none
unfolding row_at
row_at-end [] = refl
row_at-end (x ∷ done) = row_at-end done

next_finds :
    (r : RecordsetState) (rows : Rows) (row : List (Option Text))
    → r.res ≡ some rows
    → row_at r.next_row rows ≡ some row
    → next r ≡ (
      record r {
        next_row = r.next_row + 1;
        rfields = write_row r.fields_in_last_query row r.rfields;
      },
      true,
    )
unfolding next
next_finds r rows row e k = ground arith

next_ends :
    (r : RecordsetState) (rows : Rows)
    → r.res ≡ some rows
    → row_at r.next_row rows ≡ none
    → next r ≡ (record r { res = none; next_row = 0 }, false)
unfolding next
next_ends r rows e k = ground arith

next_idle : (r : RecordsetState) → r.res ≡ none → next r ≡ (r, false)
unfolding next
next_idle r e = ground arith

visits_idle : (m : ℕ) (r : RecordsetState) → r.res ≡ none → visits m r ≡ no_rows m
unfolding visits no_rows
visits_idle zero r e = refl
visits_idle (suc m) r e = rw (next_idle r e) (ap (◌∷◌ none) (visits_idle m r e))

-- The position behind a row.
step :
    (r : RecordsetState) (done : Rows) (row : List (Option Text)) (rows : Rows)
    → IsAt r done (row ∷ rows)
    → IsAt
        (record r {
          next_row = r.next_row + 1;
          rfields = write_row r.fields_in_last_query row r.rfields;
        })
        (done ++ row ∷ [])
        rows
step r done row rows h = record {
  holds = h.holds ∙ ap some (sym (append_assoc done (row ∷ []) rows));
  at = omega (arith, h.at, length-append done (row ∷ []));
}

zero_plus : (n : ℕ) → 0 + n ≡ n
zero_plus n = omega arith

visits_end :
    (m : ℕ) (done : Rows) (r : RecordsetState) → IsAt r done [] → visits (suc m) r ≡ no_rows (suc m)
unfolding visits no_rows
visits_end m done r h =
    let ends : row_at r.next_row (done ++ []) ≡ none =
      ap (λ i. row_at i (done ++ [])) h.at ∙ row_at-end done in
    rw (next_ends r (done ++ []) h.holds ends)
      (ap (◌∷◌ none) (visits_idle m (record r { res = none; next_row = 0 }) refl))

suc_plus : (n k : ℕ) → suc n + k ≡ suc (n + k)
suc_plus n k = omega arith

visits_row :
    (n : ℕ) (done : Rows) (row : List (Option Text)) (rows : Rows) (r : RecordsetState)
    → IsAt r done (row ∷ rows)
    → (rest : List (Option (List RField)))
    → visits n (record r {
      next_row = r.next_row + 1;
      rfields = write_row r.fields_in_last_query row r.rfields;
    })
      ≡ rest
    → visits (suc n) r ≡ some (write_row r.fields_in_last_query row r.rfields) ∷ rest
unfolding visits
visits_row n done row rows r h rest e =
    let finds : row_at r.next_row (done ++ row ∷ rows) ≡ some row =
      ap (λ i. row_at i (done ++ row ∷ rows)) h.at ∙ row_at-append done row rows in
    rw (next_finds r (done ++ row ∷ rows) row h.holds finds)
      (ap (◌∷◌ (some (write_row r.fields_in_last_query row r.rfields))) e)

visits_from :
    (m : ℕ) (done rows : Rows) (r : RecordsetState)
    → IsAt r done rows
    → visits (length rows + suc m) r
      ≡ written_rows r.fields_in_last_query r.rfields rows ++ no_rows (suc m)
unfolding visits written_rows no_rows
visits_from m done [] r h = ap (λ n. visits n r) (zero_plus (suc m)) ∙ visits_end m done r h
visits_from m done (row ∷ rows) r h =
    let rest = visits_from m (done ++ row ∷ []) rows _ (step r done row rows h) in
    ap (λ n. visits n r) (suc_plus (length rows) (suc m))
    ∙ visits_row (length rows + suc m) done row rows r h _ rest

-- After a load of a record set that has no field twice, calls of `next` show the rows, each once and
-- in their order: a field that is a column shows the cell of its last column, null or a text, and
-- counts as unmodified, and the other fields stay as they are. Every call behind the last row answers
-- that there is none.
pub visits_lem :
    (r : RecordsetState) (rows : Rows) (m : ℕ)
    → r.res ≡ some rows
    → r.next_row ≡ 0
    → IsApart r.rfields
    → visits (length rows + suc m) r
      ≡ filled_rows r.fields_in_last_query r.rfields rows ++ no_rows (suc m)
visits_lem r rows m e k h =
    visits_from m [] rows r (record { holds = e; at = k })
    ∙ ap (λ shown. shown ++ no_rows (suc m))
        (written_rows-filled r.fields_in_last_query r.rfields rows h)
