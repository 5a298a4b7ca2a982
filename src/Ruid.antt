-- ===== src/Ruid.antt =====
-- libkycore/RUIDGen.h: `RUIDGen`, which issues random values and never one that is in use.
-- The engine is a parameter, the sequence of the values that it will give. The mutex makes each
-- method one step.
pub mod Issues
pub mod Tokens
mod Tests
use kyzddfer.Base.{
  ℕ, zero, suc, ◌+◌, Bool, true, false, Option, none, some, List, [], ◌∷◌, ltb, length, count,
  erase, if◌then◌else◌,
}

-- `issuedValues`, and how many values the engine has given so far.
pub record RuidGen (T : Type 0) : Type 0 where
  pub issued : List T
  pub drawn : ℕ

abbrev pub attempts : ℕ
attempts = 100

module _ {T : Type 0} (dec : Discrete T) where
  -- `count(value) > 0`.
  unfoldable pub is_issued : RuidGen T → T → Bool
  is_issued g v = ltb 0 (count dec v g.issued)

  -- The loop, with the attempts that are left, and the exception behind it as `none`.
  unfoldable pub issue_loop : ℕ → (ℕ → T) → RuidGen T → RuidGen T × Option T
  issue_loop zero draws g = (g, none)
  issue_loop (suc n) draws g =
      let v = draws g.drawn in
      let again = issue_loop n draws (record g { drawn = g.drawn + 1 }) in
      if is_issued g v
      then again
      else (record { issued = v ∷ g.issued; drawn = g.drawn + 1 }, some v)

  -- `operator()`.
  unfoldable pub issue : (ℕ → T) → RuidGen T → RuidGen T × Option T
  issue draws g = issue_loop attempts draws g

  unfoldable pub revoke : RuidGen T → T → RuidGen T × Bool
  revoke g v = (record g { issued = erase dec v g.issued }, is_issued g v)

unfoldable pub get_issued_count : {T : Type 0} → RuidGen T → ℕ
get_issued_count g = length g.issued
