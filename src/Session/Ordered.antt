-- ===== src/Session/Ordered.antt =====
-- session_view.cpp: the map of the stacks stays in order, whichever view is made active.
use kyzddfer.Base.{
  ℕ, ◌+◌, ◌≤◌, ◌<◌, ◌≡◌, ◌≢◌, refl, subst, none, some, [], ◌∷◌, ltb, All, arith, if_cases, if_pos,
  if_neg, ℕ_discrete,
}
use kyzddfer.Base.Assoc.{lookup, remove}
use kyzddfer.Session.{
  ViewPtr, StackMap, put, SessionState, first_stack, set_active, open_view, close_view,
}

-- The keys stand in ascending order, above a bound, and no stack is empty.
abbrev pub IsStackMap : StackMap → Type 0
IsStackMap [] = Unit
IsStackMap ((k, v) ∷ m) = (v ≢ []) × All (λ p. k < p.0) m × IsStackMap m

-- What holds between two calls: the active view is the top of the active stack, and there is none
-- only where there is no stack at all.
pub data IsActive (s : SessionState) : Type 0 where
  idle : s.stacks ≡ [] → s.active_view ≡ [] → IsActive s
  busy : lookup ℕ_discrete s.active_stack s.stacks ≡ some s.active_view → IsActive s

pub record IsValid (s : SessionState) : Type 0 where
  pub ordered : IsStackMap s.stacks
  pub active : IsActive s

Above-put :
    (i k : ℕ) (v : ViewPtr) (m : StackMap)
    → i < k
    → All (λ p. i < p.0) m
    → All (λ p. i < p.0) (put k v m)
unfolding put
Above-put i k v [] h a = (h, tt)
Above-put i k v ((j, w) ∷ m) h a =
    if_cases (All (λ p. i < p.0)) (ltb k j) _ _ (λ _. (h, a))
      λ _.
        if_cases (All (λ p. i < p.0)) (ltb j k) _ _ (λ _. (a.0, Above-put i k v m h a.1))
          (λ _. (h, a.1))

pub Above-weaken : (i k : ℕ) (m : StackMap) → i ≤ k → All (λ p. k < p.0) m → All (λ p. i < p.0) m
Above-weaken i k [] h a = tt
Above-weaken i k (p ∷ m) h a = (omega (arith, a.0), Above-weaken i k m h a.1)

put-IsStackMap :
    (k : ℕ) (v : ViewPtr) (m : StackMap) → v ≢ [] → IsStackMap m → IsStackMap (put k v m)
unfolding put
put-IsStackMap k v [] n h = (n, tt, tt)
put-IsStackMap k v ((j, w) ∷ m) n h =
    if_cases IsStackMap (ltb k j) _ _
      (λ lt.
        let below : k < j = ground arith in
        (n, (below, Above-weaken k j m (omega (arith, below)) h.1), h))
      λ ge.
        if_cases IsStackMap (ltb j k) _ _
          (λ gt.
            let over : j < k = ground arith in
            (h.0, Above-put j k v m over h.1, put-IsStackMap k v m n h.2))
          (λ le.
            let same : j ≡ k = ground arith in (n, subst (λ i. All (λ p. i < p.0) m) same h.1, h.2))

lookup-put : (k : ℕ) (v : ViewPtr) (m : StackMap) → lookup ℕ_discrete k (put k v m) ≡ some v
unfolding put lookup ℕ_discrete
lookup-put k v [] = ground arith
lookup-put k v ((j, w) ∷ m) = ground (arith, lookup-put k v m)

Above-remove :
    (i k : ℕ) (m : StackMap) → All (λ p. i < p.0) m → All (λ p. i < p.0) (remove ℕ_discrete k m)
unfolding remove ℕ_discrete
Above-remove i k [] a = tt
Above-remove i k ((j, w) ∷ m) a = elim (ℕ_discrete j k) [
  | yes p ↦ rw (if_pos (ℕ_discrete j k) p) (Above-remove i k m a.1)
  | no p ↦ rw (if_neg (ℕ_discrete j k) p) (a.0, Above-remove i k m a.1)
]

remove-IsStackMap : (k : ℕ) (m : StackMap) → IsStackMap m → IsStackMap (remove ℕ_discrete k m)
unfolding remove ℕ_discrete
remove-IsStackMap k [] h = tt
remove-IsStackMap k ((j, w) ∷ m) h = elim (ℕ_discrete j k) [
  | yes p ↦ rw (if_pos (ℕ_discrete j k) p) (remove-IsStackMap k m h.2)
  | no p ↦ rw (if_neg (ℕ_discrete j k) p) (h.0, Above-remove j k m h.1, remove-IsStackMap k m h.2)
]

first_stack-IsValid : (s : SessionState) (m : StackMap) → IsStackMap m → IsValid (first_stack s m)
unfolding first_stack lookup ℕ_discrete
first_stack-IsValid s [] h = record { ordered = tt; active = idle refl refl }
first_stack-IsValid s ((k, v) ∷ m) h = record { ordered = h; active = busy (ground arith) }

-- Whatever view is made active, the session stays well formed.
set_active-IsValid : (v : ViewPtr) (s : SessionState) → IsValid s → IsValid (set_active v s)
unfolding set_active
set_active-IsValid [] s h =
    first_stack-IsValid s _ (remove-IsStackMap s.active_stack s.stacks h.ordered)
set_active-IsValid (i ∷ v) s h = record {
  ordered = put-IsStackMap s.active_stack (i ∷ v) s.stacks (λ e. cc) h.ordered;
  active = busy (lookup-put s.active_stack (i ∷ v) s.stacks);
}

-- A view that opens, over any other or over none.
pub open_view-IsValid : (prev : ViewPtr) (s : SessionState) → IsValid s → IsValid (open_view prev s)
unfolding open_view
open_view-IsValid prev s h =
    set_active-IsValid (s.next_view ∷ prev) (record s { next_view = s.next_view + 1 })
      (record { ordered = h.ordered; active = renumbered s (s.next_view + 1) h.active })
  where
    renumbered : (s : SessionState) (n : ℕ) → IsActive s → IsActive (record s { next_view = n })
    renumbered s n (idle e f) = idle e f
    renumbered s n (busy e) = busy e

pub close_view-IsValid : (v : ViewPtr) (s : SessionState) → IsValid s → IsValid (close_view v s)
unfolding close_view
close_view-IsValid [] s h = h
close_view-IsValid (i ∷ prev) s h = set_active-IsValid prev s h

pub lookup-above : (k : ℕ) (m : StackMap) → All (λ p. k < p.0) m → lookup ℕ_discrete k m ≡ none
unfolding lookup ℕ_discrete
lookup-above k [] a = refl
lookup-above k ((j, w) ∷ m) a = ground (arith, lookup-above k m a.1)

pub lookup-cons :
    (k j : ℕ) (w : ViewPtr) (m : StackMap)
    → j ≢ k
    → lookup ℕ_discrete k ((j, w) ∷ m) ≡ lookup ℕ_discrete k m
unfolding lookup ℕ_discrete
lookup-cons k j w m n = ground arith

pub lookup_self : (k : ℕ) (w : ViewPtr) (m : StackMap) → lookup ℕ_discrete k ((k, w) ∷ m) ≡ some w
unfolding lookup ℕ_discrete
lookup_self k w m = ground arith

pub lookup_nothing : (k : ℕ) (w : ViewPtr) → lookup ℕ_discrete k [] ≡ some w → ⊥
unfolding lookup
lookup_nothing k w e = cc
