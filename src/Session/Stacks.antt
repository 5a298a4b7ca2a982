-- ===== src/Session/Stacks.antt =====
-- session_view.cpp: the active view is the top of the active stack, and the destructor of a session
-- ends every view once.
use kyzddfer.Base.{
  ℕ, zero, suc, ◌+◌, ◌<◌, ◌≡◌, ◌≢◌, refl, ap, sym, subst, ◌∙◌, ◌⊎◌, inl, inr, Option, none, some,
  List, [], ◌∷◌, ltb, length, count, count-append, arith, if_cases, if_pos, if_neg, ℕ_discrete,
}
use kyzddfer.Base.Assoc.{lookup, remove, remove_absent}
use kyzddfer.Session.{
  ViewPtr, StackMap, put, SessionState, first_stack, set_active, open_view, close_view, init,
  destroy_loop, total, destroy,
}
use kyzddfer.Session.Ordered.{
  IsStackMap, IsActive, idle, busy, IsValid, Above-weaken, open_view-IsValid, close_view-IsValid,
  lookup-above, lookup-cons, lookup_self, lookup_nothing,
}

module _ (size : ViewPtr → ℕ) where
  total-put :
      (k : ℕ) (v w : ViewPtr) (m : StackMap)
      → IsStackMap m
      → lookup ℕ_discrete k m ≡ some w
      → total size (put k v m) + size w ≡ total size m + size v
  unfolding total put
  total-put k v w [] h e = absurd (lookup_nothing k w e)
  total-put k v w ((j, u) ∷ m) h e =
      if_cases (λ n. total size n + size w ≡ (size u + total size m) + size v) (ltb k j) _ _
        (λ lt.
          let below : k < j = ground arith in
          absurd (
            none_some
              (lookup-above k ((j, u) ∷ m) (below, Above-weaken k j m (omega (arith, below)) h.1))
              e))
        λ ge.
          if_cases (λ n. total size n + size w ≡ (size u + total size m) + size v) (ltb j k) _ _
            (λ gt.
              let other : j ≢ k = λ p. ground arith in
              omega (arith, total-put k v w m h.2 (sym (lookup-cons k j u m other) ∙ e)))
            (λ le.
              let same : j ≡ k = ground arith in
              let is : ◌≡◌ {A = Option ViewPtr} (some u) (some w) =
                sym (lookup_self k u m)
                ∙ ap (λ i. lookup ℕ_discrete k ((i, u) ∷ m)) (sym same)
                ∙ e in
              let held : u ≡ w = ground arith in omega (arith, ap size held))
    where
      none_some : {o : Option ViewPtr} → o ≡ none → o ≡ some w → ⊥
      none_some p q = cc

  total-remove :
      (k : ℕ) (w : ViewPtr) (m : StackMap)
      → IsStackMap m
      → lookup ℕ_discrete k m ≡ some w
      → total size (remove ℕ_discrete k m) + size w ≡ total size m
  unfolding total remove
  total-remove k w [] h e = absurd (lookup_nothing k w e)
  total-remove k w ((j, u) ∷ m) h e = elim (ℕ_discrete j k) [
    | yes same ↦
        let is : ◌≡◌ {A = Option ViewPtr} (some u) (some w) =
          sym (lookup_self k u m) ∙ ap (λ i. lookup ℕ_discrete k ((i, u) ∷ m)) (sym same) ∙ e in
        let held : u ≡ w = ground arith in
        let gone : lookup ℕ_discrete k m ≡ none =
          subst (λ i. lookup ℕ_discrete i m ≡ none) same (lookup-above j m h.1) in
        rw (if_pos (ℕ_discrete j k) same)
          (omega (arith, ap (total size) (remove_absent ℕ_discrete k m gone), ap size held))
    | no other ↦
        rw (if_neg (ℕ_discrete j k) other)
          (omega (arith, total-remove k w m h.2 (sym (lookup-cons k j u m other) ∙ e)))
  ]

  total-first_stack :
      (s : SessionState) (m : StackMap) → total size (first_stack s m).stacks ≡ total size m
  unfolding total first_stack
  total-first_stack s [] = refl
  total-first_stack s ((k, v) ∷ m) = refl

  -- Closing the active view takes it, and no other, from the stacks.
  total-close_view :
      (v : ℕ) (prev : ViewPtr) (s : SessionState)
      → size [] ≡ 0
      → IsValid s
      → s.active_view ≡ v ∷ prev
      → total size (close_view (v ∷ prev) s).stacks + size (v ∷ prev)
        ≡ total size s.stacks + size prev
  unfolding close_view set_active
  total-close_view v prev s z h e = by_active h.active
    where
      by_prev :
          (p : ViewPtr)
          → lookup ℕ_discrete s.active_stack s.stacks ≡ some (v ∷ prev)
          → total size (set_active p s).stacks + size (v ∷ prev) ≡ total size s.stacks + size p
      by_prev [] k = omega (
        arith,
        z,
        total-first_stack s (remove ℕ_discrete s.active_stack s.stacks),
        total-remove s.active_stack (v ∷ prev) s.stacks h.ordered k,
      )
      by_prev (i ∷ p) k = total-put s.active_stack (i ∷ p) (v ∷ prev) s.stacks h.ordered k

      by_active :
          IsActive s
          → total size (set_active prev s).stacks + size (v ∷ prev)
            ≡ total size s.stacks + size prev
      by_active (idle e1 e2) = absurd (ground arith)
      by_active (busy k) = by_prev prev (k ∙ ap some e)

-- Closing the active view takes one view, which is that one.
closes :
    (v : ℕ) (prev : ViewPtr) (s : SessionState)
    → IsValid s
    → s.active_view ≡ v ∷ prev
    → (total (length {A = ℕ}) (close_view (v ∷ prev) s).stacks + 1
        ≡ total (length {A = ℕ}) s.stacks)
      × ((x : ℕ)
          → total (count ℕ_discrete x) (close_view (v ∷ prev) s).stacks
              + count ℕ_discrete x (v ∷ [])
            ≡ total (count ℕ_discrete x) s.stacks)
unfolding count
closes v prev s h e = (
  omega (arith, total-close_view (length {A = ℕ}) v prev s refl h e),
  λ x. omega (
    arith,
    total-close_view (count ℕ_discrete x) v prev s refl h e,
    count-append ℕ_discrete x (v ∷ []) prev,
  ),
)

-- What the destructor leaves.
pub record IsDestroyed (s : SessionState) (left : SessionState) (deleted : List ℕ) : Type 0 where
  pub nothing_active : left.active_view ≡ []
  pub no_stacks : left.stacks ≡ []
  pub each_once : (x : ℕ) → count ℕ_discrete x deleted ≡ total (count ℕ_discrete x) s.stacks

destroy_done :
    (fuel : ℕ) (s : SessionState) (deleted : List ℕ)
    → s.active_view ≡ []
    → destroy_loop (suc fuel) s deleted ≡ some (s, deleted)
unfolding destroy_loop
destroy_done fuel s deleted e = ground arith

destroy_round :
    (fuel v : ℕ) (prev : ViewPtr) (s : SessionState) (deleted : List ℕ)
    → s.active_view ≡ v ∷ prev
    → destroy_loop (suc fuel) s deleted ≡ destroy_loop fuel (close_view (v ∷ prev) s) (v ∷ deleted)
unfolding destroy_loop
destroy_round fuel v prev s deleted e = ground arith

ViewPtr-cases : (p : ViewPtr) → (p ≡ []) ⊎ ((v : ℕ) × (prev : ViewPtr) × (p ≡ v ∷ prev))
ViewPtr-cases [] = inl refl
ViewPtr-cases (v ∷ prev) = inr (v, prev, refl)

lookup-IsStackMap :
    (k : ℕ) (w : ViewPtr) (m : StackMap) → IsStackMap m → lookup ℕ_discrete k m ≡ some w → w ≢ []
unfolding lookup
lookup-IsStackMap k w [] h e = cc
lookup-IsStackMap k w ((j, u) ∷ m) h e = elim (ℕ_discrete j k) [
  | yes p ↦ let held : u ≡ w = ground arith in subst (λ z. z ≢ []) held h.0
  | no p ↦
      let rest : lookup ℕ_discrete k m ≡ some w = ground arith in lookup-IsStackMap k w m h.2 rest
]

-- With no view active there is no stack.
idle_stacks : (s : SessionState) → IsValid s → s.active_view ≡ [] → s.stacks ≡ []
idle_stacks s h e = by h.active
  where
    by : IsActive s → s.stacks ≡ []
    by (idle f g) = f
    by (busy k) = absurd (lookup-IsStackMap s.active_stack s.active_view s.stacks h.ordered k e)

destroy_loop-ends :
    (fuel : ℕ) (s : SessionState) (deleted : List ℕ)
    → IsValid s
    → total (length {A = ℕ}) s.stacks < fuel
    → (left : SessionState) × (gone : List ℕ) × (destroy_loop fuel s deleted ≡ some (left, gone))
      × (left.active_view ≡ [])
      × (left.stacks ≡ [])
      × ((x : ℕ)
          → count ℕ_discrete x gone
            ≡ total (count ℕ_discrete x) s.stacks + count ℕ_discrete x deleted)
unfolding total count
destroy_loop-ends zero s deleted h le = absurd (omega arith)
destroy_loop-ends (suc fuel) s deleted h le = elim (ViewPtr-cases s.active_view) [
  | inl e ↦
      let none_left = idle_stacks s h e in
      (
        s,
        deleted,
        destroy_done fuel s deleted e,
        e,
        none_left,
        λ x. omega (arith, ap (total (count ℕ_discrete x)) none_left),
      )
  | inr (v, prev, e) ↦
      let c = closes v prev s h e in
      let (left, gone, run, f, g, counts) =
        destroy_loop-ends fuel (close_view (v ∷ prev) s) (v ∷ deleted)
          (close_view-IsValid (v ∷ prev) s h) (omega (arith, c.0)) in
      (
        left,
        gone,
        destroy_round fuel v prev s deleted e ∙ run,
        f,
        g,
        λ x. omega (arith, counts x, c.1 x, count-append ℕ_discrete x (v ∷ []) deleted),
      )
]

-- The calls that open and close views: a view opens over any view or none, and the active one closes.
pub data Reach (garbage : ℕ) : SessionState → Type 0 where
  begins : Reach garbage (init garbage)
  opens : (prev : ViewPtr) {s : SessionState} → Reach garbage s → Reach garbage (open_view prev s)
  closes_active : {s : SessionState} → Reach garbage s → Reach garbage (close_view s.active_view s)

Reach-IsValid : (garbage : ℕ) {s : SessionState} → Reach garbage s → IsValid s
unfolding init
Reach-IsValid garbage begins = record { ordered = tt; active = idle refl refl }
Reach-IsValid garbage (opens prev {s} r) = open_view-IsValid prev s (Reach-IsValid garbage r)
Reach-IsValid garbage (closes_active {s} r) =
    close_view-IsValid s.active_view s (Reach-IsValid garbage r)

-- However views have been opened and the active ones closed, and whatever `active_stack` held at
-- first: the destructor of the session ends, with no view active and no stack, and has deleted every
-- view as often as the stacks held it, and no other.
pub destroy-IsDestroyed :
    (garbage : ℕ) {s : SessionState}
    → Reach garbage s
    → (left : SessionState) × (deleted : List ℕ) × (destroy s ≡ some (left, deleted))
      × IsDestroyed s left deleted
unfolding destroy count
destroy-IsDestroyed garbage {s} r =
    let (left, gone, run, f, g, counts) =
      destroy_loop-ends (suc (total (length {A = ℕ}) s.stacks)) s [] (Reach-IsValid garbage r)
        (omega arith) in
    (
      left,
      gone,
      run,
      record { nothing_active = f; no_stacks = g; each_once = λ x. omega (arith, counts x) },
    )
