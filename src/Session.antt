-- ===== src/Session.antt =====
-- libkycore/session_view.cpp: `Session`, the stacks of views, and the views that open and close.
pub mod Ordered
pub mod Stacks
pub mod Menu
pub mod Shown
pub mod Builder
pub mod Plan
pub mod Built
mod Tests
use kyzddfer.Base.{
  ℕ, zero, suc, ◌+◌, Option, none, some, List, [], ◌∷◌, ltb, length, if◌then◌else◌, ite, ℕ_discrete,
}
use kyzddfer.Base.Assoc.{lookup, remove}

-- A `View*`: the view, named by a number, in front of the views that its `prev` leads to, which no
-- code changes. The empty list is the null pointer.
abbrev pub ViewPtr : Type 0
ViewPtr = List ℕ

-- A `std::map` whose entries stand in the order of their keys.
abbrev pub StackMap : Type 0
StackMap = List (ℕ × ViewPtr)

unfoldable pub put : ℕ → ViewPtr → StackMap → StackMap
put k v [] = (k, v) ∷ []
put k v ((j, w) ∷ m) =
    if ltb k j then (k, v) ∷ (j, w) ∷ m else if ltb j k then (j, w) ∷ put k v m else (k, v) ∷ m

-- `next_view` is a number that no view has had.
pub record SessionState : Type 0 where
  pub active_stack : ℕ
  pub stacks : StackMap
  pub active_view : ViewPtr
  pub next_view : ℕ

-- The stack that is active when the active one has gone: the first of the map.
unfoldable pub first_stack : SessionState → StackMap → SessionState
first_stack s [] = record s { stacks = []; active_stack = 0; active_view = [] }
first_stack s ((k, v) ∷ m) = record s { stacks = (k, v) ∷ m; active_stack = k; active_view = v }

-- `Session::setActive`.
unfoldable pub set_active : ViewPtr → SessionState → SessionState
set_active (v ∷ prev) s = record s {
  stacks = put s.active_stack (v ∷ prev) s.stacks;
  active_view = v ∷ prev;
}
set_active [] s = first_stack s (remove ℕ_discrete s.active_stack s.stacks)

-- The constructor of `View`, as the session sees it.
unfoldable pub open_view : ViewPtr → SessionState → SessionState
open_view prev s = set_active (s.next_view ∷ prev) (record s { next_view = s.next_view + 1 })

-- The destructor, with the view that it ends. `View::close` is this, and nothing for a null pointer.
unfoldable pub close_view : ViewPtr → SessionState → SessionState
close_view [] s = s
close_view (v ∷ prev) s = set_active prev s

-- `Session::Session`, which does not initialise `active_stack`.
unfoldable pub init : ℕ → SessionState
init garbage = record { active_stack = garbage; stacks = []; active_view = []; next_view = 0 }

-- The loop of `Session::~Session`, on fuel, with the views that it has deleted.
unfoldable pub destroy_loop : ℕ → SessionState → List ℕ → Option (SessionState × List ℕ)
destroy_loop zero s deleted = none
destroy_loop (suc fuel) s deleted = elim s.active_view [
  | [] ↦ some (s, deleted)
  | v ∷ prev ↦ destroy_loop fuel (close_view (v ∷ prev) s) (v ∷ deleted)
]

-- A number of each stack, summed.
unfoldable pub total : (ViewPtr → ℕ) → StackMap → ℕ
total size [] = 0
total size ((k, v) ∷ m) = size v + total size m

-- The loop with a round for each view, and one to end.
unfoldable pub destroy : SessionState → Option (SessionState × List ℕ)
destroy s = destroy_loop (suc (total (length {A = ℕ}) s.stacks)) s []
