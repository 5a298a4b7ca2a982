-- ===== src/Base/Lists.antt =====
-- Lists measured by native numbers, with Boolean membership over a decidable equality.
use Prim.Native.Nat.{ℕ, suc, ◌+◌, ◌≤◌, ◌<◌}
use mathlib.Core.Path.{◌≡◌, refl}
use mathlib.Core.List.{List, [], ◌∷◌, ◌++◌}
use mathlib.Core.Logic.{◌≢◌, ite}
use native.Mathlib.Omega.{arith}

module _ {ℓ} {A : Type ℓ} where
  abbrev pub length : List A → ℕ
  length [] = 0
  length (x ∷ xs) = suc (length xs)

  pub length-append : (xs ys : List A) → length (xs ++ ys) ≡ length xs + length ys
  length-append [] ys = omega arith
  length-append (x ∷ xs) ys = omega (arith, length-append xs ys)

  abbrev pub All {κ} : (A → Type κ) → List A → Type κ
  All P [] = Unit
  All P (x ∷ xs) = P x × All P xs

module _ {A : Type 0} (dec : Discrete A) where
  -- How often a value stands in a list.
  unfoldable pub count : A → List A → ℕ
  count a [] = 0
  count a (x ∷ xs) = ite (dec x a) (suc (count a xs)) (count a xs)

  -- The list without the first entry that equals the value: `list::erase` of one node.
  unfoldable pub erase : A → List A → List A
  erase a [] = []
  erase a (x ∷ xs) = ite (dec x a) xs (x ∷ erase a xs)

  pub count-append : (a : A) (xs ys : List A) → count a (xs ++ ys) ≡ count a xs + count a ys
  unfolding count
  count-append a [] ys = omega arith
  count-append a (x ∷ xs) ys = ground (arith, count-append a xs ys)

  pub count-erase_self :
      (a : A) (xs : List A) → 0 < count a xs → count a (erase a xs) + 1 ≡ count a xs
  unfolding count erase
  count-erase_self a [] h = elim h [ ]
  count-erase_self a (x ∷ xs) h = ground (arith, count-erase_self a xs)

  pub count-erase_ne : (a b : A) (xs : List A) → b ≢ a → count b (erase a xs) ≡ count b xs
  unfolding count erase
  count-erase_ne a b [] h = refl
  count-erase_ne a b (x ∷ xs) h = ground (arith, count-erase_ne a b xs h)

  pub length-erase : (a : A) (xs : List A) → 0 < count a xs → length (erase a xs) + 1 ≡ length xs
  unfolding count erase
  length-erase a [] h = elim h [ ]
  length-erase a (x ∷ xs) h = ground (arith, length-erase a xs)

  pub count-le-length : (a : A) (xs : List A) → count a xs ≤ length xs
  unfolding count
  count-le-length a [] = omega arith
  count-le-length a (x ∷ xs) = ground (arith, count-le-length a xs)

  -- To take an entry out and put it in front keeps the number of each value.
  pub count_cons-erase :
      (a b : A) (xs : List A) → 0 < count a xs → count b (a ∷ erase a xs) ≡ count b xs
  unfolding count erase
  count_cons-erase a b [] h = elim h [ ]
  count_cons-erase a b (x ∷ xs) h = ground (arith, count_cons-erase a b xs)
