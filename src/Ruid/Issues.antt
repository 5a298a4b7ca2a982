-- ===== src/Ruid/Issues.antt =====
-- RUIDGen.h: what `operator()` issues, and when it gives up.
use kyzddfer.Base.{
  ℕ, zero, suc, ◌+◌, ◌≤◌, ◌<◌, ◌≡◌, ◌≢◌, refl, ap, sym, subst, true, false, Bool-cases, inl, inr,
  Option, none, some, List, [], ◌∷◌, ltb, count, erase, count-erase_self, count-erase_ne, arith,
  if_cases,
}
use kyzddfer.Ruid.{RuidGen, attempts, is_issued, issue_loop, issue, revoke}

plus_zero : (n : ℕ) → n ≡ n + 0
plus_zero n = omega arith

plus_suc : (n i : ℕ) → n + 1 + i ≡ n + suc i
plus_suc n i = omega arith

module _ {T : Type 0} (dec : Discrete T) (draws : ℕ → T) where
  -- What an attempt that ended has done: a value that was not in use is in use now, and nothing
  -- else has changed; or every value that was drawn was in use.
  abbrev pub Issued : ℕ → RuidGen T → RuidGen T × Option T → Type 0
  Issued n g (g', some v) = (count dec v g.issued ≡ 0) × (g'.issued ≡ v ∷ g.issued)
  Issued n g (g', none) =
      (g'.issued ≡ g.issued) × ((i : ℕ) → i < n → 0 < count dec (draws (g.drawn + i)) g.issued)

  all_used :
      (n : ℕ) (g : RuidGen T)
      → 0 < count dec (draws g.drawn) g.issued
      → ((i : ℕ) → i < n → 0 < count dec (draws (g.drawn + 1 + i)) g.issued)
      → (i : ℕ) → i < suc n
      → 0 < count dec (draws (g.drawn + i)) g.issued
  all_used n g first rest zero lt =
      subst (λ k. 0 < count dec (draws k) g.issued) (plus_zero g.drawn) first
  all_used n g first rest (suc i) lt =
      subst (λ k. 0 < count dec (draws k) g.issued) (plus_suc g.drawn i) (rest i (omega arith))

  not_issued : (g : RuidGen T) (v : T) → is_issued dec g v ≡ false → count dec v g.issued ≡ 0
  unfolding is_issued
  not_issued g v e = ground arith

  more_attempts :
      (n : ℕ) (g : RuidGen T) (r : RuidGen T × Option T)
      → is_issued dec g (draws g.drawn) ≡ true
      → Issued n (record g { drawn = g.drawn + 1 }) r
      → Issued (suc n) g r
  unfolding is_issued
  more_attempts n g (g', some v) e h = h
  more_attempts n g (g', none) e h = (h.0, all_used n g (ground arith) h.1)

  issue_loop-Issued : (n : ℕ) (g : RuidGen T) → Issued n g (issue_loop dec n draws g)
  unfolding issue_loop
  issue_loop-Issued zero g = (refl, λ i lt. absurd (omega arith))
  issue_loop-Issued (suc n) g =
      let h = issue_loop-Issued n (record g { drawn = g.drawn + 1 }) in
      if_cases (Issued (suc n) g) (is_issued dec g (draws g.drawn)) _ _
        (λ used.
          more_attempts n g (issue_loop dec n draws (record g { drawn = g.drawn + 1 })) used h)
        (λ free. (not_issued g (draws g.drawn) free, refl))

  -- A value is issued only if it is not in use, and then it is the one that is in use in addition.
  -- The exception is thrown only where each of the hundred values that were drawn is in use, and it
  -- leaves what is in use as it was.
  pub issue-Issued : (g : RuidGen T) → Issued attempts g (issue dec draws g)
  unfolding issue
  issue-Issued g = issue_loop-Issued attempts g

module _ {T : Type 0} (dec : Discrete T) where
  count-erase_le : (a b : T) (xs : List T) → count dec b (erase dec a xs) ≤ count dec b xs
  unfolding count erase
  count-erase_le a b [] = omega arith
  count-erase_le a b (x ∷ xs) = ground (arith, count-erase_le a b xs)

  erase-gone : (v : T) (xs : List T) → count dec v xs ≤ 1 → count dec v (erase dec v xs) ≡ 0
  erase-gone v xs h = elim (Bool-cases (ltb 0 (count dec v xs))) [
    | inl is_used ↦
        let used : 0 < count dec v xs = ground arith in
        omega (arith, count-erase_self dec v xs used)
    | inr is_free ↦
        let unused : count dec v xs ≡ 0 = ground arith in omega (arith, count-erase_le v v xs)
  ]

  cons_unique :
      (u v : T) (xs : List T) → count dec u xs ≡ 0 → count dec v xs ≤ 1 → count dec v (u ∷ xs) ≤ 1
  unfolding count
  cons_unique u v xs h k = ground arith

  -- A revoked value is free again, and no other value is affected.
  pub revoke_frees :
      (g : RuidGen T) (v : T)
      → count dec v g.issued ≤ 1
      → (is_issued dec (revoke dec g v).0 v ≡ false)
        × ((revoke dec g v).1 ≡ is_issued dec g v)
        × ((w : T) → v ≢ w → is_issued dec (revoke dec g v).0 w ≡ is_issued dec g w)
  unfolding revoke is_issued
  revoke_frees g v h = (
    ground (arith, erase-gone v g.issued h),
    refl,
    λ w n. ap (ltb 0) (count-erase_ne dec v w g.issued (λ e. n (sym e))),
  )

  issued_unique :
      (draws : ℕ → T) (g : RuidGen T) (r : RuidGen T × Option T) (v : T)
      → ((w : T) → count dec w g.issued ≤ 1)
      → Issued dec draws attempts g r
      → count dec v r.0.issued ≤ 1
  issued_unique draws g (g', some u) v h k =
      subst (λ xs. count dec v xs ≤ 1) (sym k.1) (cons_unique u v g.issued k.0 (h v))
  issued_unique draws g (g', none) v h k = rw k.0 (h v)

  -- The calls of the methods that change something, in any order.
  pub data Reach : RuidGen T → Type 0 where
    fresh : Reach (record { issued = []; drawn = 0 })
    issues : (draws : ℕ → T) (g : RuidGen T) → Reach g → Reach (issue dec draws g).0
    revokes : (g : RuidGen T) (v : T) → Reach g → Reach (revoke dec g v).0

  -- No value is ever in use twice.
  pub Reach-unique : (g : RuidGen T) → Reach g → (v : T) → count dec v g.issued ≤ 1
  unfolding count revoke
  Reach-unique g fresh v = omega arith
  Reach-unique g (issues draws g' r) v =
      issued_unique draws g' (issue dec draws g') v (Reach-unique g' r) (issue-Issued dec draws g')
  Reach-unique g (revokes g' w r) v =
      omega (arith, count-erase_le w v g'.issued, Reach-unique g' r v)
