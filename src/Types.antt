-- ===== src/Types.antt =====
-- libkycore/types.cpp: the implementations behind `type_t`, and how a type's name selects one.
pub mod Naming
mod Tests
use kyzddfer.Base.{
  ℕ, ◌+◌, ◌-◌, ◌*◌, ◌^◌, Bool, true, false, Option, none, some, List, [], ◌∷◌, ◌++◌, ltb, ◌==◌,
  if◌then◌else◌, ite, ◌≡◌, refl,
}
use kyzddfer.Base.Decimal.{to_string, is_digit}
use kyzddfer.Base.Text.{Text, codes, text_dec}

-- The classes that derive from `type_t::Hidden`. A table is named where the code points to it.
pub data TypeImpl : Type 0 where
  type_id : TypeImpl
  type_ref : Text → TypeImpl
  type_varchar : ℕ → TypeImpl
  type_int : TypeImpl
  type_date : TypeImpl
  type_text : TypeImpl
  type_unknown : TypeImpl

unfoldable pub is_ref : TypeImpl → Bool
is_ref (type_ref t) = true
is_ref _ = false

-- `ref`, which is a null pointer where it is not overridden.
unfoldable pub ref : TypeImpl → Option Text
ref (type_ref t) = some t
ref _ = none

unfoldable pub sql : TypeImpl → Text
sql type_id = codes "serial PRIMARY KEY"
sql (type_ref t) = codes "INT"
sql (type_varchar n) =
    if ltb 0 n then codes "varchar(" ++ (to_string n ++ codes ")") else codes "varchar"
sql type_int = codes "INT"
sql type_date = codes "DATE"
sql type_text = codes "TEXT"
sql type_unknown = []

unfoldable pub sql_suffix : TypeImpl → Text
sql_suffix (type_ref t) = codes "_id"
sql_suffix _ = []

-- The text before the first occurrence of a byte and the text behind it, as `find` splits it.
unfoldable pub split_first : ℕ → Text → Option (Text × Text)
split_first x [] = none
split_first x (c ∷ s) =
    let rest = split_first x s in
    if c == x
    then some ([], s)
    else elim rest [ none ↦ none | some (before, behind) ↦ some (c ∷ before, behind) ]

-- The text before the last occurrence of a byte, as `rfind` finds it.
unfoldable pub before_last : ℕ → Text → Option Text
before_last x [] = none
before_last x (c ∷ s) = elim (before_last x s) [
  | none ↦ if c == x then some [] else none
  | some t ↦ some (c ∷ t)
]

-- `parse_type_def`: the base type, and the arguments between `(` and the last `)`.
unfoldable pub parse_type_def : Text → Text × Text
parse_type_def s = elim (split_first b'(' s) [
  | none ↦ (s, [])
  | some (base, behind) ↦ elim (before_last b')' behind) [
    | none ↦ (base, [])
    | some args ↦ (base, args)
  ]
]

-- `std::from_chars` into a `uint32_t` that holds 0: the leading digits, or no change where there
-- are none or where the number does not fit.
unfoldable pub leading : ℕ → Text → ℕ
leading n [] = n
leading n (c ∷ s) = let more = leading (n * 10 + (c - b'0')) s in if is_digit c then more else n

unfoldable pub from_chars : Text → ℕ
from_chars s = let n = leading 0 s in if ltb n (2 ^ 32) then n else 0

-- One round of `type_t::finalize`, for a type that has no implementation yet. The result is `none`
-- where an assertion fails: a `ref` with no argument, or to a table that is not there.
unfoldable pub finalize_type : (Text → Bool) → Text → Option TypeImpl
finalize_type has_table name =
    let parsed = parse_type_def name in
    let base = parsed.0 in
    let args = parsed.1 in
    ite (text_dec base (codes "int")) (some type_int) (
      ite (text_dec base (codes "id")) (some type_id) (
        ite (text_dec base (codes "varchar")) (some (type_varchar (from_chars args))) (
          ite (text_dec base (codes "ref"))
            (elim args [
              | [] ↦ none
              | c ∷ t ↦ if has_table (c ∷ t) then some (type_ref (c ∷ t)) else none
            ])
            (ite (text_dec base (codes "date")) (some type_date)
              (ite (text_dec base (codes "text")) (some type_text) (some type_unknown))))))

-- `Field`, of a finalized type, and the attributes that the records read.
pub record Field : Type 0 where
  pub name : Text
  pub type : TypeImpl
  pub attrs : List (Text × Text)

-- `Field::sqlName`.
unfoldable pub sql_name : Field → Text
sql_name f = f.name ++ sql_suffix f.type

varchar_100 : finalize_type (λ t. true) (codes "varchar(100)") ≡ some (type_varchar 100)
unfolding finalize_type parse_type_def split_first before_last from_chars leading text_dec
varchar_100 = refl
