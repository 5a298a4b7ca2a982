-- ===== src/Layout/Best.antt =====
-- rack.cpp: `findBestLayout` gives the first of the layouts that fit with the highest priority.
use kyzddfer.Base.{
  ℕ, ◌≤◌, ◌<◌, ◌≡◌, refl, ap, sym, subst, ◌∙◌, true, Option, none, some, List, [], ◌∷◌, ◌++◌, ltb,
  All, arith, append_assoc, append-nil, if_cases,
}
use kyzddfer.Layout.Choice.{Layout, Wanted, signed_rank, fits, best_loop, find_best_layout}

-- The layouts that fit rank at most this, or less.
abbrev pub AtMost : Wanted → ℕ → List Layout → Type 0
AtMost w k = All (λ l. fits w l ≡ true → signed_rank l.pri ≤ k)

abbrev pub Under : Wanted → ℕ → List Layout → Type 0
Under w k = All (λ l. fits w l ≡ true → signed_rank l.pri < k)

-- The choice among layouts.
abbrev pub IsBest : Wanted → List Layout → Option Layout → Type 0
IsBest w ls none = AtMost w 0 ls
IsBest w ls (some l) =
    (before : List Layout) × (after : List Layout) × (ls ≡ before ++ l ∷ after)
    × (fits w l ≡ true)
    × (0 < signed_rank l.pri)
    × Under w (signed_rank l.pri) before
    × AtMost w (signed_rank l.pri) after

-- What the loop has found among the layouts that it has passed.
abbrev IsSoFar : Wanted → List Layout → Option Layout → ℕ → Type 0
IsSoFar w done none k = (k ≡ 0) × AtMost w 0 done
IsSoFar w done (some l) k = (k ≡ signed_rank l.pri) × IsBest w done (some l)

All-append {ℓ} :
    {A : Type 0} (P : A → Type ℓ) (xs ys : List A) → All P xs → All P ys → All P (xs ++ ys)
All-append P [] ys h k = k
All-append P (x ∷ xs) ys h k = (h.0, All-append P xs ys h.1 k)

AtMost-Under : (w : Wanted) (i k : ℕ) (ls : List Layout) → i < k → AtMost w i ls → Under w k ls
AtMost-Under w i k [] h a = tt
AtMost-Under w i k (l ∷ ls) h a = (λ f. omega (arith, a.0 f), AtMost-Under w i k ls h a.1)

Under-AtMost : (w : Wanted) (k : ℕ) (ls : List Layout) → Under w k ls → AtMost w k ls
Under-AtMost w k [] a = tt
Under-AtMost w k (l ∷ ls) a = (λ f. omega (arith, a.0 f), Under-AtMost w k ls a.1)

-- Everything passed ranks at most the best.
IsSoFar-AtMost :
    (w : Wanted) (done : List Layout) (best : Option Layout) (k : ℕ)
    → IsSoFar w done best k
    → AtMost w k done
IsSoFar-AtMost w done none k h = subst (λ i. AtMost w i done) (sym h.0) h.1
IsSoFar-AtMost w done (some l) k (e, (before, after, s, f, p, u, a)) =
    subst (λ i. AtMost w i done) (sym e)
      (subst (AtMost w (signed_rank l.pri)) (sym s)
        (All-append _ before (l ∷ after) (Under-AtMost w _ before u) ((λ _. omega arith), a)))

-- A layout that is passed over.
IsSoFar-skip :
    (w : Wanted) (done : List Layout) (l : Layout) (best : Option Layout) (k : ℕ)
    → (fits w l ≡ true → signed_rank l.pri ≤ k)
    → IsSoFar w done best k
    → IsSoFar w (done ++ l ∷ []) best k
IsSoFar-skip w done l none k low h =
    (h.0, All-append _ done (l ∷ []) h.1 ((λ f. omega (arith, low f, h.0)), tt))
IsSoFar-skip w done l (some b) k low (e, (before, after, s, f, p, u, a)) = (
  e,
  (
    before,
    after ++ l ∷ [],
    ap (λ xs. xs ++ l ∷ []) s ∙ append_assoc before (b ∷ after) (l ∷ []),
    f,
    p,
    u,
    All-append _ after (l ∷ []) a ((λ g. omega (arith, low g, e)), tt),
  ),
)

IsSoFar-take :
    (w : Wanted) (done : List Layout) (l : Layout) (best : Option Layout) (k : ℕ)
    → fits w l ≡ true
    → k < signed_rank l.pri
    → IsSoFar w done best k
    → IsSoFar w (done ++ l ∷ []) (some l) (signed_rank l.pri)
IsSoFar-take w done l best k f high h = (
  refl,
  (
    done,
    [],
    refl,
    f,
    omega arith,
    AtMost-Under w k (signed_rank l.pri) done high (IsSoFar-AtMost w done best k h),
    tt,
  ),
)

best_loop-IsBest :
    (w : Wanted) (done ls : List Layout) (best : Option Layout) (k : ℕ)
    → IsSoFar w done best k
    → IsBest w (done ++ ls) (best_loop w ls best k)
unfolding best_loop
best_loop-IsBest w done [] none k h = subst (AtMost w 0) (sym (append-nil done)) h.1
best_loop-IsBest w done [] (some l) k h =
    subst (λ xs. IsBest w xs (some l)) (sym (append-nil done)) h.1
best_loop-IsBest w done (l ∷ ls) best k h =
    let skips = λ (low : fits w l ≡ true → signed_rank l.pri ≤ k).
      best_loop-IsBest w (done ++ l ∷ []) ls best k (IsSoFar-skip w done l best k low h) in
    subst (λ xs. IsBest w xs (best_loop w (l ∷ ls) best k)) (append_assoc done (l ∷ []) ls)
      (if_cases (IsBest w ((done ++ l ∷ []) ++ ls)) (fits w l) _ _
        (λ f.
          if_cases (IsBest w ((done ++ l ∷ []) ++ ls)) (ltb k (signed_rank l.pri)) _ _
            (λ high.
              best_loop-IsBest w (done ++ l ∷ []) ls (some l) (signed_rank l.pri)
                (IsSoFar-take w done l best k f (ground arith) h))
            (λ low. skips (λ _. ground arith)))
        (λ unfit. skips (λ f. absurd (ground arith))))

-- The layout that is found fits, ranks higher than every fitting one in front of it and at least as
-- high as those behind it. None is found only where those that fit, if any, have the lowest priority
-- that there is.
pub find_best_layout-IsBest : (ls : List Layout) (w : Wanted) → IsBest w ls (find_best_layout ls w)
unfolding find_best_layout
find_best_layout-IsBest ls w = best_loop-IsBest w [] ls none 0 (refl, tt)
