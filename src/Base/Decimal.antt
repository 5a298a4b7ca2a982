-- ===== src/Base/Decimal.antt =====
-- `std::to_string` of a number that is not negative.
use Prim.Native.Nat.{ℕ, zero, suc, ◌+◌, ◌-◌, ◌*◌, ◌/◌, ◌%◌, ◌<◌}
use mathlib.Core.Path.{◌≡◌, refl, sym, ap, ◌∙◌}
use mathlib.Core.Bool.{Bool, true, ◌&&◌}
use mathlib.Core.List.{[], ◌∷◌}
use mathlib.Core.Logic.{inl, inr}
use native.Mathlib.Omega.{arith}
use kyzddfer.Base.Tests.{ltb, leb, if◌then◌else◌, Bool-cases}
use kyzddfer.Base.Lists.{All}
use kyzddfer.Base.Text.{Text, codes}

abbrev pub is_digit : ℕ → Bool
is_digit c = leb b'0' c && leb c b'9'

-- The last digit goes in front of what is written; the fuel is more than the number.
unfoldable pub show_loop : ℕ → ℕ → Text → Text
show_loop zero n out = out
show_loop (suc fuel) n out =
    let digit = b'0' + n % 10 in
    let rest = show_loop fuel (n / 10) (digit ∷ out) in if ltb n 10 then digit ∷ out else rest

unfoldable pub to_string : ℕ → Text
unfolding show_loop
to_string n = show_loop (suc n) n []

unfoldable pub value : ℕ → Text → ℕ
value n [] = n
value n (c ∷ s) = value (n * 10 + (c - b'0')) s

value-show_loop :
    (fuel n : ℕ) (out : Text) → n < fuel → value 0 (show_loop fuel n out) ≡ value n out
unfolding show_loop value
value-show_loop zero n out h = elim h [ ]
value-show_loop (suc fuel) n out h = elim (Bool-cases (ltb n 10)) [
  | inl small ↦ rw small (ap (λ k. value k out) (ground arith))
  | inr big ↦ rw big (
      value-show_loop fuel (n / 10) ((b'0' + n % 10) ∷ out) (ground arith)
      ∙ ap (λ k. value k out) (omega arith))
]

-- The digits have the value.
pub value-to_string : (n : ℕ) → value 0 (to_string n) ≡ n
unfolding to_string value
value-to_string n = value-show_loop (suc n) n [] (omega arith)

-- Different numbers have different texts.
pub to_string-injective : (m n : ℕ) → to_string m ≡ to_string n → m ≡ n
to_string-injective m n e = sym (value-to_string m) ∙ ap (value 0) e ∙ value-to_string n

show_loop-digits :
    (fuel n : ℕ) (out : Text)
    → All (λ c. is_digit c ≡ true) out
    → All (λ c. is_digit c ≡ true) (show_loop fuel n out)
unfolding show_loop
show_loop-digits zero n out h = h
show_loop-digits (suc fuel) n out h = elim (Bool-cases (ltb n 10)) [
  | inl small ↦ rw small (ground arith, h)
  | inr big ↦ rw big (show_loop-digits fuel (n / 10) ((b'0' + n % 10) ∷ out) (ground arith, h))
]

pub to_string-digits : (n : ℕ) → All (λ c. is_digit c ≡ true) (to_string n)
unfolding to_string
to_string-digits n = show_loop-digits (suc n) n [] tt

hundred : to_string 1024 ≡ codes "1024"
unfolding to_string
hundred = refl
