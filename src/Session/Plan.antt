-- ===== src/Session/Plan.antt =====
-- session_view.cpp: the records of a layout, each from the nearest one above it, and what it means to
-- add them to a view, with an identifier from the generator for each.
use kyzddfer.Base.{
  ℕ, ◌+◌, ◌≤◌, ◌≡◌, refl, ap, subst, ◌∙◌, map, Option, none, some, List, [], ◌∷◌, ◌++◌, count,
  arith, ℕ_discrete,
}
use kyzddfer.Base.Assoc.{lookup}
use kyzddfer.Layout.{
  Attrs, LayoutNode, Nodes, node, end, next, Kind, plain, box, form, columns, fieldbox,
}
use kyzddfer.Ruid.{RuidGen, attempts, issue}
use kyzddfer.Ruid.Issues.{Issued, issue-Issued}
use kyzddfer.Session.Builder.{
  Place, Key, Built, Made, BuilderArgs, BuilderState, make_editor, make_list, restore,
}

-- One plan behind another, where there are both.
abbrev pub both : Option (List Made) → Option (List Made) → Option (List Made)
both none o = none
both (some ms) none = none
both (some ms) (some rest) = some (ms ++ rest)

abbrev pub with_dto : Place → Key × Built → Option ℕ → Option Made
with_dto place kb none = none
with_dto place (key, built) (some dto) =
    some (record { place = place; key = key; built = built; dto = dto })

abbrev pub with_place : BuilderArgs → Place → Option (Key × Built) → Option Made
with_place args place none = none
with_place args place (some kb) = with_dto place kb (args.node_to_dto place)

abbrev pub owned : Option Made → Option (Option Made)
owned none = none
owned (some m) = some (some m)

-- The record of a node, if its class has one.
abbrev pub record_of : BuilderArgs → Place → Option Made → Kind → Attrs → Option (Option Made)
record_of args place above plain attrs = some none
record_of args place above box attrs = some none
record_of args place above (fieldbox fs) attrs = some none
record_of args place above form attrs = owned (with_place args place (make_editor args above))
record_of args place above (columns fs) attrs =
    owned (with_place args place (make_list args above place attrs))

-- The record of a node in front of those below it, which have it above them.
abbrev pub with_below :
    Option (Option Made) → Option Made → (Option Made → Option (List Made)) → Option (List Made)
with_below none above below = none
with_below (some none) above below = below above
with_below (some (some m)) above below = both (some (m ∷ [])) (below (some m))

-- The records of a node and of all nodes below it, in order. `above` is the record of the nearest
-- node above that has one.
unfoldable mutual
  pub plan : BuilderArgs → Place → Option Made → LayoutNode → Option (List Made)
  plan args place above (node k tag attrs flags ns) =
      with_below (record_of args place above k attrs) above (λ m. plan_children args place 0 m ns)

  pub plan_children : BuilderArgs → Place → ℕ → Option Made → Nodes → Option (List Made)
  plan_children args place i above end = some []
  plan_children args place i above (next n ns) =
      both (plan args (i ∷ place) above n) (plan_children args place (i + 1) above ns)

-- What follows a step, unless it has failed.
abbrev pub chain : Option BuilderState → (BuilderState → Option BuilderState) → Option BuilderState
chain none f = none
chain (some s) f = f s

-- The state with one more record, under the identifier that the generator has issued, if it has.
abbrev pub place_one : Made → RuidGen ℕ × Option ℕ → BuilderState → Option BuilderState
place_one m (gen, none) s = none
place_one m (gen, some id) s = some (record s { records = s.records ++ (id, m) ∷ []; ruid32 = gen })

abbrev pub add_one : (ℕ → ℕ) → Made → BuilderState → Option BuilderState
add_one draws m s = place_one m (issue ℕ_discrete draws s.ruid32) s

-- The records added one after the other, each under an identifier that the generator issues then.
unfoldable pub add_all : (ℕ → ℕ) → List Made → BuilderState → Option BuilderState
add_all draws [] s = some s
add_all draws (m ∷ ms) s = chain (add_one draws m s) (add_all draws ms)

abbrev pub add_if : (ℕ → ℕ) → Option (List Made) → BuilderState → Option BuilderState
add_if draws none s = none
add_if draws (some ms) s = add_all draws ms s

abbrev pub with_context : Option Made → BuilderState → BuilderState
with_context c s = record s { context_record = c }

chain-chain :
    (o : Option BuilderState) (f g h : BuilderState → Option BuilderState)
    → ((s : BuilderState) → h s ≡ chain (f s) g)
    → chain o h ≡ chain (chain o f) g
chain-chain none f g h e = refl
chain-chain (some s) f g h e = e s

pub add_all-append :
    (draws : ℕ → ℕ) (ms rest : List Made) (s : BuilderState)
    → add_all draws (ms ++ rest) s ≡ chain (add_all draws ms s) (add_all draws rest)
unfolding add_all
add_all-append draws [] rest s = refl
add_all-append draws (m ∷ ms) rest s =
    chain-chain (add_one draws m s) (add_all draws ms) (add_all draws rest)
      (add_all draws (ms ++ rest)) (add_all-append draws ms rest)

place_one-context :
    (m : Made) (r : RuidGen ℕ × Option ℕ) (c : Option Made) (s : BuilderState)
    → place_one m r (with_context c s) ≡ restore c (place_one m r s)
place_one-context m (gen, none) c s = refl
place_one-context m (gen, some id) c s = refl

chain-restore :
    (c : Option Made) (o : Option BuilderState) (f : BuilderState → Option BuilderState)
    → ((s : BuilderState) → f (with_context c s) ≡ restore c (f s))
    → chain (restore c o) f ≡ restore c (chain o f)
chain-restore c none f e = refl
chain-restore c (some s) f e = e s

pub add_all-context :
    (draws : ℕ → ℕ) (ms : List Made) (c : Option Made) (s : BuilderState)
    → add_all draws ms (with_context c s) ≡ restore c (add_all draws ms s)
unfolding add_all
add_all-context draws [] c s = refl
add_all-context draws (m ∷ ms) c s =
    ap (λ o. chain o (add_all draws ms)) (place_one-context m (issue ℕ_discrete draws s.ruid32) c s)
    ∙ chain-restore c (add_one draws m s) (add_all draws ms) (λ t. add_all-context draws ms c t)

abbrev pub ids : List (ℕ × Made) → List ℕ
ids = map (λ p. p.0)

-- Every record has an identifier of its own, which is in use.
abbrev pub IsKeyed : BuilderState → Type 0
IsKeyed s =
    (k : ℕ)
    → (count ℕ_discrete k (ids s.records) ≤ count ℕ_discrete k s.ruid32.issued)
      × (count ℕ_discrete k (ids s.records) ≤ 1)

-- What a step leaves, if it has not failed: the context of before, and identifiers that are in use.
abbrev pub Leaves : Option Made → Option BuilderState → Type 0
Leaves c none = Unit
Leaves c (some s) = (s.context_record ≡ c) × IsKeyed s

count-ids :
    (k id : ℕ) (m : Made) (ms : List (ℕ × Made))
    → count ℕ_discrete k (ids (ms ++ (id, m) ∷ []))
      ≡ count ℕ_discrete k (ids ms) + count ℕ_discrete k (id ∷ [])
unfolding count
count-ids k id m [] = omega arith
count-ids k id m (p ∷ ms) = ground (arith, count-ids k id m ms)

pub lookup-ids :
    (k : ℕ) (ms : List (ℕ × Made)) → count ℕ_discrete k (ids ms) ≡ 0 → lookup ℕ_discrete k ms ≡ none
unfolding count lookup
lookup-ids k [] e = refl
lookup-ids k ((j, m) ∷ ms) e = ground (arith, lookup-ids k ms)

place_one-Leaves :
    (draws : ℕ → ℕ) (m : Made) (r : RuidGen ℕ × Option ℕ) (s : BuilderState)
    → Issued ℕ_discrete draws attempts s.ruid32 r
    → IsKeyed s
    → Leaves s.context_record (place_one m r s)
unfolding count
place_one-Leaves draws m (gen, none) s e h = tt
place_one-Leaves draws m (gen, some id) s e h = (
  refl,
  λ k.
      let more = ap (count ℕ_discrete k) e.1 in
      ground (arith, h k, e.0, more, count-ids k id m s.records),
)

pub add_one-Leaves :
    (draws : ℕ → ℕ) (m : Made) (s : BuilderState)
    → IsKeyed s
    → Leaves s.context_record (add_one draws m s)
add_one-Leaves draws m s h =
    place_one-Leaves draws m (issue ℕ_discrete draws s.ruid32) s
      (issue-Issued ℕ_discrete draws s.ruid32) h

chain-Leaves :
    (c : Option Made) (o : Option BuilderState) (f : BuilderState → Option BuilderState)
    → Leaves c o
    → ((s : BuilderState) → IsKeyed s → Leaves s.context_record (f s))
    → Leaves c (chain o f)
chain-Leaves c none f h k = tt
chain-Leaves c (some s) f h k = subst (λ p. Leaves p (f s)) h.0 (k s h.1)

pub add_all-Leaves :
    (draws : ℕ → ℕ) (ms : List Made) (s : BuilderState)
    → IsKeyed s
    → Leaves s.context_record (add_all draws ms s)
unfolding add_all
add_all-Leaves draws [] s h = (refl, h)
add_all-Leaves draws (m ∷ ms) s h =
    chain-Leaves s.context_record (add_one draws m s) (add_all draws ms)
      (add_one-Leaves draws m s h) (add_all-Leaves draws ms)
