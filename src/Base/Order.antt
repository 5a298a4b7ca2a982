-- ===== src/Base/Order.antt =====
-- The lexicographic order of texts (`operator<` of `std::string`), and `std::set` over it as a
-- list in strictly ascending order.
use Prim.Native.Nat.{ℕ, suc, ◌<◌, ◌≤◌}
use mathlib.Core.Path.{◌≡◌, refl}
use mathlib.Core.Bool.{Bool, true, false}
use mathlib.Core.List.{List, [], ◌∷◌}
use mathlib.Core.Logic.{◌≢◌, inl, inr}
use native.Mathlib.Omega.{arith}
use native.Mathlib.Decide.{ℕ_discrete}
use kyzddfer.Base.Lists.{length, All, count, erase}
use kyzddfer.Base.Tests.{ltb, if◌then◌else◌, Bool-cases}
use kyzddfer.Base.Text.{Text}

unfoldable pub text_lt : Text → Text → Bool
text_lt [] [] = false
text_lt [] (y ∷ t) = true
text_lt (x ∷ s) [] = false
text_lt (x ∷ s) (y ∷ t) = if ltb x y then true else if ltb y x then false else text_lt s t

pub text_lt_irrefl : (s : Text) → text_lt s s ≡ false
unfolding text_lt
text_lt_irrefl [] = refl
text_lt_irrefl (x ∷ s) = ground (arith, text_lt_irrefl s)

pub text_lt_trans : (s t u : Text) → text_lt s t ≡ true → text_lt t u ≡ true → text_lt s u ≡ true
unfolding text_lt
text_lt_trans [] [] u h k = cc
text_lt_trans [] (y ∷ t) [] h k = cc
text_lt_trans [] (y ∷ t) (z ∷ u) h k = refl
text_lt_trans (x ∷ s) [] u h k = cc
text_lt_trans (x ∷ s) (y ∷ t) [] h k = cc
text_lt_trans (x ∷ s) (y ∷ t) (z ∷ u) h k = ground (arith, text_lt_trans s t u)

pub text_lt_antisym : (s t : Text) → text_lt s t ≡ false → text_lt t s ≡ false → s ≡ t
unfolding text_lt
text_lt_antisym [] [] h k = refl
text_lt_antisym [] (y ∷ t) h k = cc
text_lt_antisym (x ∷ s) [] h k = cc
text_lt_antisym (x ∷ s) (y ∷ t) h k = ground (arith, text_lt_antisym s t)

-- `operator<` of `std::pair<int, std::string>`.
abbrev pub pair_lt : ℕ × Text → ℕ × Text → Bool
pair_lt (m, s) (n, t) = text_lt (m ∷ s) (n ∷ t)

pub pair_lt_antisym : (p q : ℕ × Text) → pair_lt p q ≡ false → pair_lt q p ≡ false → p ≡ q
unfolding text_lt
pair_lt_antisym (m, s) (n, t) h k = ground (arith, text_lt_antisym s t)

unfoldable pub pair_dec : Discrete (ℕ × Text)
unfolding ℕ_discrete
pair_dec = hlevel ℕ_discrete

-- `set::insert`.
unfoldable pub set_insert : ℕ × Text → List (ℕ × Text) → List (ℕ × Text)
set_insert p [] = p ∷ []
set_insert p (q ∷ s) =
    if pair_lt p q then p ∷ q ∷ s else if pair_lt q p then q ∷ set_insert p s else q ∷ s

abbrev pub IsSorted : List (ℕ × Text) → Type 0
IsSorted [] = Unit
IsSorted (p ∷ s) = All (λ q. pair_lt p q ≡ true) s × IsSorted s

above_trans :
    (p q : ℕ × Text) (s : List (ℕ × Text))
    → pair_lt p q ≡ true
    → All (λ r. pair_lt q r ≡ true) s
    → All (λ r. pair_lt p r ≡ true) s
above_trans p q [] h a = tt
above_trans p q (r ∷ s) h a =
    (text_lt_trans (p.0 ∷ p.1) (q.0 ∷ q.1) (r.0 ∷ r.1) h a.0, above_trans p q s h a.1)

above-set_insert :
    (p q : ℕ × Text) (s : List (ℕ × Text))
    → pair_lt q p ≡ true
    → All (λ r. pair_lt q r ≡ true) s
    → All (λ r. pair_lt q r ≡ true) (set_insert p s)
unfolding set_insert
above-set_insert p q [] h a = (h, tt)
above-set_insert p q (r ∷ s) h a = elim (Bool-cases (pair_lt p r)) [
  | inl e ↦ rw (e, set_insert) (h, a)
  | inr e ↦ elim (Bool-cases (pair_lt r p)) [
    | inl f ↦ rw (e, f, set_insert) (a.0, above-set_insert p q s h a.1)
    | inr f ↦ rw (e, f, set_insert) a
  ]
]

pub set_insert-IsSorted :
    (p : ℕ × Text) (s : List (ℕ × Text)) → IsSorted s → IsSorted (set_insert p s)
unfolding set_insert
set_insert-IsSorted p [] h = (tt, tt)
set_insert-IsSorted p (q ∷ s) h = elim (Bool-cases (pair_lt p q)) [
  | inl e ↦ rw (e, set_insert) ((e, above_trans p q s e h.0), h)
  | inr e ↦ elim (Bool-cases (pair_lt q p)) [
    | inl f ↦ rw (e, f, set_insert) (above-set_insert p q s f h.0, set_insert-IsSorted p s h.1)
    | inr f ↦ rw (e, f, set_insert) h
  ]
]

above-erase :
    (p q : ℕ × Text) (s : List (ℕ × Text))
    → All (λ r. pair_lt q r ≡ true) s
    → All (λ r. pair_lt q r ≡ true) (erase pair_dec p s)
unfolding erase
above-erase p q [] a = tt
above-erase p q (r ∷ s) a = ground (arith, above-erase p q s a.1)

pub erase-IsSorted :
    (p : ℕ × Text) (s : List (ℕ × Text)) → IsSorted s → IsSorted (erase pair_dec p s)
unfolding erase
erase-IsSorted p [] h = tt
erase-IsSorted p (q ∷ s) h = ground (arith, above-erase p q s h.0, erase-IsSorted p s h.1)

pub count-set_insert_self :
    (p : ℕ × Text) (s : List (ℕ × Text))
    → count pair_dec p s ≡ 0
    → count pair_dec p (set_insert p s) ≡ 1
unfolding count set_insert
count-set_insert_self p [] h = ground arith
count-set_insert_self p (q ∷ s) h = ground (arith, count-set_insert_self p s, pair_lt_antisym p q)

pub count-set_insert_ne :
    (p q : ℕ × Text) (s : List (ℕ × Text))
    → q ≢ p
    → count pair_dec q (set_insert p s) ≡ count pair_dec q s
unfolding count set_insert
count-set_insert_ne p q [] h = ground arith
count-set_insert_ne p q (r ∷ s) h = ground (arith, count-set_insert_ne p q s h)

pub length-set_insert :
    (p : ℕ × Text) (s : List (ℕ × Text))
    → count pair_dec p s ≡ 0
    → length (set_insert p s) ≡ suc (length s)
unfolding count set_insert
length-set_insert p [] h = refl
length-set_insert p (q ∷ s) h = ground (arith, length-set_insert p s, pair_lt_antisym p q)

above-le :
    (p q : ℕ × Text) (s : List (ℕ × Text))
    → All (λ r. pair_lt p r ≡ true) s
    → 0 < count pair_dec q s
    → p.0 ≤ q.0
unfolding count text_lt
above-le p q [] a h = elim h [ ]
above-le p q (r ∷ s) a h = ground (arith, above-le p q s a.1)

-- The first element of a set of pairs has the least number.
pub begin-le :
    (p q : ℕ × Text) (s : List (ℕ × Text))
    → IsSorted (p ∷ s)
    → 0 < count pair_dec q (p ∷ s)
    → p.0 ≤ q.0
unfolding count
begin-le p q s a h = ground (arith, above-le p q s a.0)
