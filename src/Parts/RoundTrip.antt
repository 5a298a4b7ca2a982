-- ===== src/Parts/RoundTrip.antt =====
-- rack.cpp: taking a dotted name apart loses nothing.
use kyzddfer.Base.{
  ℕ, ◌≡◌, refl, ap, sym, ◌∙◌, false, List, [], ◌∷◌, ◌++◌, ◌==◌, All, arith, append_assoc,
  append-nil, if_cases, ==_iff,
}
use kyzddfer.Base.Text.{Text}
use kyzddfer.Parts.{parts_from, svparts}

-- The parts with the separator between them.
unfoldable pub join : ℕ → List Text → Text
join sep [] = []
join sep (p ∷ []) = p
join sep (p ∷ q ∷ ps) = p ++ sep ∷ join sep (q ∷ ps)

abbrev pub Lacks : ℕ → Text → Type 0
Lacks sep = All (λ c. (c == sep) ≡ false)

join-cons :
    (sep : ℕ) (p seg s : Text)
    → join sep (p ∷ parts_from sep seg s) ≡ p ++ sep ∷ join sep (parts_from sep seg s)
unfolding join parts_from
join-cons sep p seg [] = refl
join-cons sep p seg (c ∷ s) = ground (arith, join-cons sep p (seg ++ c ∷ []) s)

join-parts_from : (sep : ℕ) (seg s : Text) → join sep (parts_from sep seg s) ≡ seg ++ s
unfolding parts_from join
join-parts_from sep seg [] = sym (append-nil seg)
join-parts_from sep seg (c ∷ s) =
    if_cases (λ ps. join sep ps ≡ seg ++ c ∷ s) (c == sep) _ _
      (λ e.
        join-cons sep seg [] s
        ∙ rw (join-parts_from sep [] s) (ap (λ k. seg ++ k ∷ s) (sym ((==_iff c sep).0 e))))
      (λ _. join-parts_from sep (seg ++ c ∷ []) s ∙ append_assoc seg (c ∷ []) s)

parts_from-Lacks :
    (sep : ℕ) (p seg s : Text)
    → Lacks sep p
    → parts_from sep seg (p ++ s) ≡ parts_from sep (seg ++ p) s
unfolding parts_from
parts_from-Lacks sep [] seg s h = ap (λ t. parts_from sep t s) (sym (append-nil seg))
parts_from-Lacks sep (c ∷ p) seg s h = rw h.0 (
    parts_from-Lacks sep p (seg ++ c ∷ []) s h.1
    ∙ ap (λ t. parts_from sep t s) (append_assoc seg (c ∷ []) p))

parts_from-join :
    (sep : ℕ) (p : Text) (ps : List Text)
    → All (Lacks sep) (p ∷ ps)
    → parts_from sep [] (join sep (p ∷ ps)) ≡ p ∷ ps
unfolding parts_from join
parts_from-join sep p [] h =
    ap (parts_from sep []) (sym (append-nil p)) ∙ parts_from-Lacks sep p [] [] h.0
parts_from-join sep p (q ∷ ps) h =
    parts_from-Lacks sep p [] (sep ∷ join sep (q ∷ ps)) h.0
    ∙ ground (arith, parts_from-join sep q ps h.1)

-- Taking a name apart loses nothing: the parts give the name back, and parts that are put together
-- are found again, where none of them has a dot and there is at least one.
pub svparts_lem :
    (name p : Text) (ps : List Text)
    → All (Lacks b'.') (p ∷ ps)
    → (join b'.' (svparts name) ≡ name) × (svparts (join b'.' (p ∷ ps)) ≡ p ∷ ps)
unfolding svparts
svparts_lem name p ps h = (join-parts_from b'.' [] name, parts_from-join b'.' p ps h)
