-- ===== src/Base/Assoc.antt =====
-- Dictionaries (`std::map`, `std::unordered_map`) as association lists over a decidable equality
-- of keys. The order of the entries is not a part of what the program observes.
use Prim.Native.Nat.{suc, ◌+◌}
use mathlib.Core.Path.{◌≡◌, refl, ◌∙◌, subst}
use mathlib.Core.List.{List, [], ◌∷◌}
use mathlib.Core.Logic.{◌≢◌, ite, if_pos, if_neg}
use mathlib.Core.Option.{Option, none, some}
use native.Mathlib.Omega.{arith}
use kyzddfer.Base.Lists.{length, All}

module _ {ℓ} {K V : Type ℓ} (dec : Discrete K) where
  -- `find`
  unfoldable pub lookup : K → List (K × V) → Option V
  lookup k [] = none
  lookup k ((j, v) ∷ m) = ite (dec j k) (some v) (lookup k m)

  -- `erase`
  unfoldable pub remove : K → List (K × V) → List (K × V)
  remove k [] = []
  remove k ((j, v) ∷ m) = ite (dec j k) (remove k m) ((j, v) ∷ remove k m)

  -- `m[k] = v`
  unfoldable pub insert : K → V → List (K × V) → List (K × V)
  insert k v m = (k, v) ∷ remove k m

  -- Each key once.
  abbrev pub IsMap : List (K × V) → Type ℓ
  IsMap [] = Unit
  IsMap ((k, v) ∷ m) = (lookup k m ≡ none) × IsMap m

  pub lookup-remove_self : (k : K) (m : List (K × V)) → lookup k (remove k m) ≡ none
  unfolding lookup remove
  lookup-remove_self k [] = refl
  lookup-remove_self k ((j, v) ∷ m) = ground (arith, lookup-remove_self k m)

  pub lookup-remove_ne : (k j : K) (m : List (K × V)) → j ≢ k → lookup j (remove k m) ≡ lookup j m
  unfolding lookup remove
  lookup-remove_ne k j [] h = refl
  lookup-remove_ne k j ((i, v) ∷ m) h = ground (arith, lookup-remove_ne k j m h)

  pub lookup-insert_self : (k : K) (v : V) (m : List (K × V)) → lookup k (insert k v m) ≡ some v
  unfolding lookup insert
  lookup-insert_self k v m = ground arith

  pub lookup-insert_ne :
      (k j : K) (v : V) (m : List (K × V)) → j ≢ k → lookup j (insert k v m) ≡ lookup j m
  unfolding lookup insert
  lookup-insert_ne k j v m h = ground (arith, lookup-remove_ne k j m h)

  pub remove_absent : (k : K) (m : List (K × V)) → lookup k m ≡ none → remove k m ≡ m
  unfolding lookup remove
  remove_absent k [] h = refl
  remove_absent k ((j, v) ∷ m) h = ground (arith, remove_absent k m)

  pub length-remove :
      (k : K) (m : List (K × V)) (v : V)
      → IsMap m
      → lookup k m ≡ some v
      → length (remove k m) + 1 ≡ length m
  unfolding lookup remove
  length-remove k [] v d h = cc
  length-remove k ((j, w) ∷ m) v d h = ground (arith, remove_absent k m, length-remove k m v d.1)

  pub remove-IsMap : (k : K) (m : List (K × V)) → IsMap m → IsMap (remove k m)
  unfolding remove
  remove-IsMap k [] d = tt
  remove-IsMap k ((j, v) ∷ m) d = elim (dec j k) [
    | yes p ↦ rw (if_pos _ p) (remove-IsMap k m d.1)
    | no p ↦ rw (if_neg _ p) (lookup-remove_ne k j m p ∙ d.0, remove-IsMap k m d.1)
  ]

  pub insert-IsMap : (k : K) (v : V) (m : List (K × V)) → IsMap m → IsMap (insert k v m)
  unfolding insert
  insert-IsMap k v m d = (lookup-remove_self k m, remove-IsMap k m d)

  pub length-insert_new :
      (k : K) (v : V) (m : List (K × V))
      → lookup k m ≡ none
      → length (insert k v m) ≡ suc (length m)
  unfolding insert
  length-insert_new k v m h = rw (remove_absent k m h)

  pub length-insert_old :
      (k : K) (v w : V) (m : List (K × V))
      → IsMap m
      → lookup k m ≡ some w
      → length (insert k v m) ≡ length m
  unfolding insert
  length-insert_old k v w m d h = omega (arith, length-remove k m w d h)

  -- What holds of every entry, as a map keeps it.
  pub lookup-All :
      (P : K × V → Type 0) (k : K) (v : V) (m : List (K × V))
      → All P m
      → lookup k m ≡ some v
      → P (k, v)
  unfolding lookup
  lookup-All P k v [] h e = cc
  lookup-All P k v ((j, w) ∷ m) h e = elim (dec j k) [
    | yes same ↦ let is : w ≡ v = ground arith in subst P (λ i. (same i, is i)) h.0
    | no other ↦ let rest : lookup k m ≡ some v = ground arith in lookup-All P k v m h.1 rest
  ]

  pub remove-All : (P : K × V → Type 0) (k : K) (m : List (K × V)) → All P m → All P (remove k m)
  unfolding remove
  remove-All P k [] h = tt
  remove-All P k ((j, w) ∷ m) h = elim (dec j k) [
    | yes same ↦ rw (if_pos _ same) (remove-All P k m h.1)
    | no other ↦ rw (if_neg _ other) (h.0, remove-All P k m h.1)
  ]

  -- What holds of all that can be looked up.
  pub All-lookup :
      (P : K × V → Type 0) (m : List (K × V))
      → IsMap m
      → ((k : K) (v : V) → lookup k m ≡ some v → P (k, v))
      → All P m
  unfolding lookup
  All-lookup P [] d h = tt
  All-lookup P ((j, w) ∷ m) d h = (
    h j w (ground arith),
    All-lookup P m d.1 λ k v e.
        h k v (elim (dec j k) [ yes p ↦ absurd (ground (arith, d.0)) | no p ↦ ground arith ]),
  )
