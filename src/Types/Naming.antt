-- ===== src/Types/Naming.antt =====
-- types.cpp: the SQL name of a bounded text type is a name that selects it again.
use kyzddfer.Base.{
  ℕ, ◌+◌, ◌-◌, ◌*◌, ◌^◌, ◌<◌, ◌≡◌, refl, ap, ◌∙◌, Bool, true, some, [], ◌∷◌, ◌++◌, All, arith,
}
use kyzddfer.Base.Decimal.{to_string, is_digit, to_string-digits, value, value-to_string}
use kyzddfer.Base.Text.{Text, codes, text_dec}
use kyzddfer.Types.{
  type_varchar, sql, split_first, before_last, parse_type_def, leading, from_chars, finalize_type,
}

before_last-digits :
    (s : Text) → All (λ c. is_digit c ≡ true) s → before_last b')' (s ++ b')' ∷ []) ≡ some s
unfolding before_last
before_last-digits [] h = refl
before_last-digits (c ∷ s) h = rw (before_last-digits s h.1) refl

leading-digits : (n : ℕ) (s : Text) → All (λ c. is_digit c ≡ true) s → leading n s ≡ value n s
unfolding leading value
leading-digits n [] h = refl
leading-digits n (c ∷ s) h = rw (h.0) (leading-digits (n * 10 + (c - b'0')) s h.1)

parse_sized :
    (s : Text)
    → All (λ c. is_digit c ≡ true) s
    → parse_type_def (codes "varchar(" ++ (s ++ codes ")")) ≡ (codes "varchar", s)
unfolding parse_type_def split_first
parse_sized s h = rw (before_last-digits s h, parse_type_def) refl

from_chars-to_string : (n : ℕ) → n < 2 ^ 32 → from_chars (to_string n) ≡ n
unfolding from_chars
from_chars-to_string n h =
    ground (arith, leading-digits 0 (to_string n) (to_string-digits n), value-to_string n)

sql_sized : (n : ℕ) → 0 < n → sql (type_varchar n) ≡ codes "varchar(" ++ (to_string n ++ codes ")")
unfolding sql
sql_sized n p = ground arith

finalize_sized :
    (has_table : Text → Bool) (name args : Text)
    → parse_type_def name ≡ (codes "varchar", args)
    → finalize_type has_table name ≡ some (type_varchar (from_chars args))
unfolding finalize_type text_dec
finalize_sized has_table name args e = rw (e, finalize_type) refl

-- The SQL name of a text type with a bound selects that type again, if the bound is not zero and
-- fits in 32 bits, whatever tables there are.
pub finalize_type-sql :
    (has_table : Text → Bool) (n : ℕ)
    → 0 < n
    → n < 2 ^ 32
    → finalize_type has_table (sql (type_varchar n)) ≡ some (type_varchar n)
finalize_type-sql has_table n p h =
    let digits = to_string-digits n in
    ap (finalize_type has_table) (sql_sized n p)
    ∙ finalize_sized has_table _ (to_string n) (parse_sized (to_string n) digits)
    ∙ ap (λ k. some (type_varchar k)) (from_chars-to_string n h)
