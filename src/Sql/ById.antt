-- ===== src/Sql/ById.antt =====
-- SqlGenius.h: the parameters of `gen_select_by_ids`, which loads a page of a recordset.
use kyzddfer.Base.{◌≡◌, refl, true, Option, none, some, List, [], ◌∷◌, ◌++◌, All}
use kyzddfer.Base.Text.{Text, codes}
use kyzddfer.Types.{sql_name}
use kyzddfer.Sql.Piece.{ok, Piece, lit, par, render, Params, get_ordered_params}
use kyzddfer.Sql.Params.{no_dollar, IsSpaced, Sends, get_ordered_params_lem}
use kyzddfer.Sql.Spaced.{IsSpaced-append, Sends-append, Sends-close}
use kyzddfer.Sql.Model.{master, RField, Sort, Direction, none_dir, asc, desc, Listing, RecordView}
use kyzddfer.Sql.Write.{id_list, bind_ids}
use kyzddfer.Sql.Writes.{id_list-Sends, id_list-IsSpaced}
use kyzddfer.Sql.Select.{
  from_clause, more_fields, select_clause, descending, sort_field, more_sorts, order_by,
  sort_clause, used_by, emplace, select_by_ids, gen_select_by_ids,
}
use kyzddfer.Sql.Joins.{
  IsBound-Sends, IsBound-bind_ids, IsPlainTable, alias-no_dollar, ArePlain, from_clause-IsWritten,
  add_fields-AllPlain,
}

-- Statements with no parameter.
Silent : List Piece → Type 0
Silent ps = (m : Params) → Sends m ps []

more_fields-IsSpaced : (rs : List RField) → ArePlain rs → IsSpaced (more_fields rs)
unfolding more_fields
more_fields-IsSpaced [] p = tt
more_fields-IsSpaced (r ∷ rs) p =
    let a = alias-no_dollar r.pqt p.0.0 in
    let c = p.0.1 in (refl, (a, (refl, (c, (refl, (a, (refl, (c, more_fields-IsSpaced rs p.1))))))))

select_clause-IsSpaced : (rs : List RField) → ArePlain rs → IsSpaced (select_clause rs)
unfolding select_clause
select_clause-IsSpaced [] p = (refl, tt)
select_clause-IsSpaced (r ∷ rs) p =
    let a = alias-no_dollar r.pqt p.0.0 in
    let c = p.0.1 in (refl, (a, (refl, (c, (refl, (a, (refl, (c, more_fields-IsSpaced rs p.1))))))))

more_fields-Silent : (rs : List RField) → Silent (more_fields rs)
unfolding more_fields Silent
more_fields-Silent [] m = refl
more_fields-Silent (r ∷ rs) m = more_fields-Silent rs m

select_clause-Silent : (rs : List RField) → Silent (select_clause rs)
unfolding select_clause Silent
select_clause-Silent [] m = refl
select_clause-Silent (r ∷ rs) m = unfold Silent in more_fields-Silent rs m

abbrev pub ArePlainSorts : Option Listing → Type 0
ArePlainSorts none = Unit
ArePlainSorts (some l) =
    All (λ (s : Sort). IsPlainTable s.rfield.pqt × (no_dollar (sql_name s.rfield.pf) ≡ true))
      l.sorts

descending-IsSpaced :
    (d : Direction) (ps : List Piece) → IsSpaced ps → IsSpaced (descending d ++ ps)
descending-IsSpaced none_dir ps h = h
descending-IsSpaced asc ps h = h
descending-IsSpaced desc ps h = (refl, h)

descending-Silent :
    (m : Params) (d : Direction) (ps : List Piece) → Sends m ps [] → Sends m (descending d ++ ps) []
descending-Silent m none_dir ps h = h
descending-Silent m asc ps h = h
descending-Silent m desc ps h = h

-- The sort fields, behind a text and before a rest.
sort_one :
    (s : Sort) (rest : List Piece) (first : Text)
    → IsPlainTable s.rfield.pqt × (no_dollar (sql_name s.rfield.pf) ≡ true)
    → no_dollar first ≡ true
    → IsSpaced rest
    → IsSpaced ((lit first ∷ sort_field s) ++ rest)
sort_one s rest first p f h =
    (f, (alias-no_dollar s.rfield.pqt p.0, (refl, (p.1, descending-IsSpaced s.dir rest h))))

more_sorts-IsSpaced :
    (ss : List Sort)
    → All (λ (s : Sort). IsPlainTable s.rfield.pqt × (no_dollar (sql_name s.rfield.pf) ≡ true)) ss
    → IsSpaced (more_sorts ss)
unfolding more_sorts
more_sorts-IsSpaced [] p = tt
more_sorts-IsSpaced (s ∷ ss) p =
    sort_one s (more_sorts ss) (codes ", ") p.0 refl (more_sorts-IsSpaced ss p.1)

sort_clause-IsSpaced : (l : Option Listing) → ArePlainSorts l → IsSpaced (sort_clause l)
unfolding sort_clause
sort_clause-IsSpaced none p = tt
sort_clause-IsSpaced (some l) p = order l.sorts p
  where
    order :
        (ss : List Sort)
        → All
            (λ (s : Sort). IsPlainTable s.rfield.pqt × (no_dollar (sql_name s.rfield.pf) ≡ true))
            ss
        → IsSpaced (order_by ss)
    order [] q = unfold order_by in tt
    order (s ∷ ss) q =
        unfold order_by in
        sort_one s (more_sorts ss) (codes "\nORDER BY ") q.0 refl (more_sorts-IsSpaced ss q.1)

more_sorts-Silent : (m : Params) (ss : List Sort) → Sends m (more_sorts ss) []
unfolding more_sorts
more_sorts-Silent m [] = refl
more_sorts-Silent m (s ∷ ss) = descending-Silent m s.dir (more_sorts ss) (more_sorts-Silent m ss)

sort_clause-Silent : (m : Params) (l : Option Listing) → Sends m (sort_clause l) []
unfolding sort_clause order_by
sort_clause-Silent m none = refl
sort_clause-Silent m (some l) = order l.sorts
  where
    order : (ss : List Sort) → Sends m (order_by ss) []
    order [] = refl
    order (s ∷ ss) = descending-Silent m s.dir (more_sorts ss) (more_sorts-Silent m ss)

-- Behind a part with no parameter, anything may follow.
IsSpaced-prefix : (ps qs : List Piece) → IsSpaced ps → Silent ps → IsSpaced qs → IsSpaced (ps ++ qs)
unfolding Silent
IsSpaced-prefix [] qs h k s = s
IsSpaced-prefix (lit t ∷ ps) qs h k s = (h.0, IsSpaced-prefix ps qs h.1 k s)
IsSpaced-prefix (par n ∷ ps) qs h k s = elim (k []) [ ]

by_ids :
    (v : RecordView) (fields : List RField) (ids : List Text)
    → no_dollar v.model ≡ true
    → ArePlain fields
    → ArePlainSorts v.listing
    → let (sql, params) = select_by_ids v fields ids in
      (joins : List Text) × (get_ordered_params params (render sql) ≡ ok (joins ++ ids))
unfolding select_by_ids used_by emplace
by_ids v fields ids t p q =
    let from = from_clause v [] (used_by v fields) in
    let w =
      from_clause-IsWritten v [] (used_by v fields) t
        (add_fields-AllPlain fields (emplace (master v.model) []) p (t, tt)) in
    let m : Params = bind_ids from.params 0 ids in
    let (joins, sent) =
      IsBound-Sends m from.sql (IsBound-bind_ids from.params 0 ids from.sql w.bound) in
    let close : List Piece = lit (codes ")") ∷ (sort_clause v.listing ++ lit (codes ";") ∷ []) in
    let list : List Piece = id_list ids ++ close in
    let where_in : List Piece =
      lit (codes "\nWHERE ") ∷ lit (codes "master") ∷ lit (codes ".id IN (") ∷ list in
    let close_spaced : IsSpaced close = (
      refl,
      IsSpaced-append (sort_clause v.listing) _ (sort_clause-IsSpaced v.listing q) (refl, tt) refl,
    ) in
    let close_silent : Sends m close [] =
      Sends-close m (sort_clause v.listing) _ [] (sort_clause-Silent m v.listing) refl in
    let list_spaced : IsSpaced list =
      IsSpaced-append (id_list ids) close (id_list-IsSpaced ids) close_spaced refl in
    let list_sends : Sends m list ids =
      Sends-close m (id_list ids) close ids (id_list-Sends from.params ids) close_silent in
    (
      joins,
      get_ordered_params_lem m (select_clause fields ++ (from.sql ++ where_in)) (joins ++ ids)
          (IsSpaced-prefix (select_clause fields) (from.sql ++ where_in)
            (select_clause-IsSpaced fields p) (select_clause-Silent fields)
            (IsSpaced-append from.sql where_in w.spaced (refl, (refl, (refl, list_spaced))) refl))
          (Sends-append m (select_clause fields) (from.sql ++ where_in) [] (joins ++ ids)
            (unfold Silent in select_clause-Silent fields m)
            (Sends-append m from.sql where_in joins ids sent list_sends)),
    )

-- Loading a page never misses a parameter: what is sent ends with the ids of the page, each once and
-- in their order.
pub select_by_ids_params :
    (v : RecordView) (r : RField) (rs : List RField) (x : Text) (ids : List Text)
    → no_dollar v.model ≡ true
    → ArePlain (r ∷ rs)
    → ArePlainSorts v.listing
    → let (sql, params) = gen_select_by_ids v (r ∷ rs) (x ∷ ids) in
      (joins : List Text) × (get_ordered_params params (render sql) ≡ ok (joins ++ x ∷ ids))
unfolding gen_select_by_ids
select_by_ids_params v r rs x ids t p q = by_ids v (r ∷ rs) (x ∷ ids) t p q
