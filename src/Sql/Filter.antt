-- ===== src/Sql/Filter.antt =====
-- SqlGenius.h: `FilterParser`, which turns a filter such as `>100|20:30` into a clause, and
-- `sql_clause_where_filters`, which joins the clauses of a recordset.
use kyzddfer.Base.{ℕ, ◌+◌, ◌≡◌, refl, none, some, List, [], ◌∷◌, ◌++◌, ◌==◌, if◌then◌else◌, map}
use kyzddfer.Base.Assoc.{lookup, insert}
use kyzddfer.Base.Decimal.{to_string}
use kyzddfer.Base.Text.{Text, codes, text_dec}
use kyzddfer.Types.{sql_name, split_first}
use kyzddfer.Sql.Piece.{Piece, lit, par, Params}
use kyzddfer.Sql.Model.{RField, Filter, alias}

-- A segment of the filter, by its operator.
pub data Condition : Type 0 where
  differs above below like : Text → Condition
  between : Text → Text → Condition

between_or_like : Text → Condition
between_or_like s = elim (split_first b':' s) [
  | none ↦ like (s ++ codes "%")
  | some (from, to) ↦ between from to
]

first_char : ℕ → Text → Condition
unfolding between_or_like
first_char c s =
    if c == b'>' then above s else if c == b'<' then below s else between_or_like (c ∷ s)

-- The chain of tests on a segment that is not empty, and the value that each branch binds.
unfoldable pub classify : Text → Condition
unfolding first_char
classify [] = like []
classify (c ∷ []) = first_char c []
classify (c ∷ d ∷ s) =
    if c == b'!'
    then (if d == b'=' then differs s else first_char c (d ∷ s))
    else first_char c (d ∷ s)

-- `getline` with the delimiter `|`, without the empty segments, which the loop skips.
unfoldable pub segments_from : Text → Text → List Text
segments_from [] [] = []
segments_from (c ∷ seg) [] = (c ∷ seg) ∷ []
segments_from [] (d ∷ s) = segments_from (if d == b'|' then [] else d ∷ []) s
segments_from (c ∷ seg) (d ∷ s) =
    let rest = segments_from [] s in
    let same = segments_from ((c ∷ seg) ++ d ∷ []) s in if d == b'|' then (c ∷ seg) ∷ rest else same

unfoldable pub conditions : Filter → List Condition
conditions f = map classify (segments_from [] f.value)

-- `full_field_name`.
abbrev pub full_name : RField → List Piece
full_name r = lit (alias r.pqt) ∷ lit (codes ".") ∷ lit (sql_name r.pf) ∷ []

abbrev pub f_name : ℕ → Text
f_name i = codes "f_" ++ to_string i

-- `local_param_counter_` behind a condition.
abbrev pub next : ℕ → Condition → ℕ
next i (between a b) = i + 2
next i other = i + 1

unfoldable pub emit : List Piece → ℕ → Condition → List Piece
emit full i (differs v) = full ++ lit (codes " != ") ∷ par (f_name i) ∷ []
emit full i (above v) = full ++ lit (codes " > ") ∷ par (f_name i) ∷ []
emit full i (below v) = full ++ lit (codes " < ") ∷ par (f_name i) ∷ []
emit full i (like v) = full ++ lit (codes " LIKE ") ∷ par (f_name i) ∷ []
emit full i (between a b) =
    full
    ++ lit (codes " BETWEEN ") ∷ par (f_name i) ∷ lit (codes " AND ") ∷ par (f_name (i + 1)) ∷ []

unfoldable pub bind : Params → ℕ → Condition → Params
bind m i (differs v) = insert text_dec (f_name i) v m
bind m i (above v) = insert text_dec (f_name i) v m
bind m i (below v) = insert text_dec (f_name i) v m
bind m i (like v) = insert text_dec (f_name i) v m
bind m i (between a b) = insert text_dec (f_name (i + 1)) b (insert text_dec (f_name i) a m)

-- The loop of `parse` behind the first condition.
unfoldable pub more_conditions : List Piece → ℕ → List Condition → List Piece
more_conditions full i [] = []
more_conditions full i (c ∷ cs) =
    (lit (codes " OR ") ∷ emit full i c) ++ more_conditions full (next i c) cs

unfoldable pub bind_conditions : Params → ℕ → List Condition → Params
bind_conditions m i [] = m
bind_conditions m i (c ∷ cs) = bind_conditions (bind m i c) (next i c) cs

-- `getSql` of a parser with the conditions.
unfoldable pub clause : List Piece → List Condition → List Piece
clause full [] = lit (codes "(") ∷ lit (codes ")") ∷ []
clause full (c ∷ cs) =
    (lit (codes "(") ∷ emit full 0 c)
    ++ (more_conditions full (next 0 c) cs ++ lit (codes ")") ∷ [])

-- `getSql` and `getParams`.
unfoldable pub filter_sql : Filter → List Piece
filter_sql f = clause (full_name f.rfield) (conditions f)

unfoldable pub filter_params : Filter → Params
filter_params f = bind_conditions [] 0 (conditions f)

-- `namedParams.insert(begin, end)`, which leaves a name that is there.
unfoldable pub insert_absent : Params → Params → Params
insert_absent m [] = m
insert_absent m ((k, v) ∷ new) =
    insert_absent (elim (lookup text_dec k m) [ none ↦ insert text_dec k v m | some w ↦ m ]) new

unfoldable pub more_filters : List Filter → List Piece
more_filters [] = []
more_filters (f ∷ fs) = (lit (codes " AND ") ∷ filter_sql f) ++ more_filters fs

unfoldable pub where_filters : List Filter → List Piece
where_filters [] = []
where_filters (f ∷ fs) = (lit (codes "\nWHERE ") ∷ filter_sql f) ++ more_filters fs

unfoldable pub bind_filters : Params → List Filter → Params
bind_filters m [] = m
bind_filters m (f ∷ fs) = bind_filters (insert_absent m (filter_params f)) fs

sample :
    map classify (segments_from [] (codes ">100||20:30|ab|!=x"))
    ≡ above (codes "100")
      ∷ between (codes "20") (codes "30")
      ∷ like (codes "ab%")
      ∷ differs (codes "x")
      ∷ []
unfolding classify segments_from split_first
sample = refl
