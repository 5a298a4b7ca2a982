-- ===== src/Session/Built.antt =====
-- session_view.cpp: the records that a builder makes, each from the nearest one above it.
use kyzddfer.Base.{
  ℕ, ◌+◌, ◌≡◌, refl, ap, sym, ◌∙◌, Option, none, some, List, [], ◌∷◌, ◌++◌, arith, ℕ_discrete,
}
use kyzddfer.Base.Assoc.{lookup}
use kyzddfer.Layout.{
  Attrs, LayoutNode, Nodes, node, end, next, Kind, plain, box, form, columns, fieldbox,
}
use kyzddfer.Ruid.{RuidGen, attempts, issue}
use kyzddfer.Ruid.Issues.{Issued, issue-Issued}
use kyzddfer.Session.Builder.{
  Place, Key, Built, Made, BuilderArgs, BuilderState, make_editor, make_list, register, emplace,
  add_record, make_record, restore, then_children, then_rest, create_records, create_children,
}
use kyzddfer.Session.Plan.{
  both, with_dto, with_place, owned, record_of, with_below, plan, plan_children, chain, place_one,
  add_one, add_all, add_if, with_context, add_all-append, add_all-context, IsKeyed, Leaves,
  lookup-ids, add_one-Leaves, add_all-Leaves,
}

-- The state of a builder after a node that may have made a record.
abbrev after : Option (Option Made) → RuidGen ℕ × Option ℕ → BuilderState → Option BuilderState
after none r s = none
after (some none) r s = some s
after (some (some m)) r s = restore (some m) (place_one m r s)

emplace-new :
    (id : ℕ) (m : Made) (s : BuilderState)
    → lookup ℕ_discrete id s.records ≡ none
    → emplace id m s.records ≡ s.records ++ (id, m) ∷ []
unfolding emplace
emplace-new id m s e = rw (e, emplace) refl

register-after :
    (draws : ℕ → ℕ) (place : Place) (kb : Key × Built) (r : RuidGen ℕ × Option ℕ) (dto : Option ℕ)
    (s : BuilderState)
    → Issued ℕ_discrete draws attempts s.ruid32 r
    → IsKeyed s
    → register place kb r dto s ≡ after (owned (with_dto place kb dto)) r s
unfolding register
register-after draws place (key, built) (gen, none) none s e h = refl
register-after draws place (key, built) (gen, none) (some dto) s e h = refl
register-after draws place (key, built) (gen, some id) none s e h = refl
register-after draws place (key, built) (gen, some id) (some dto) s e h =
    let m : Made = record { place = place; key = key; built = built; dto = dto } in
    let absent = lookup-ids id s.records (omega (arith, e.0, (h id).0)) in
    ap (λ rs. some (record { context_record = some m; records = rs; ruid32 = gen }))
      (emplace-new id m s absent)

add_record-after :
    (args : BuilderArgs) (place : Place) (kb : Option (Key × Built)) (s : BuilderState)
    → IsKeyed s
    → add_record args place kb s
      ≡ after (owned (with_place args place kb)) (issue ℕ_discrete args.draws s.ruid32) s
unfolding add_record
add_record-after args place none s h = refl
add_record-after args place (some kb) s h =
    register-after args.draws place kb (issue ℕ_discrete args.draws s.ruid32)
      (args.node_to_dto place) s (issue-Issued ℕ_discrete args.draws s.ruid32) h

make_record-after :
    (args : BuilderArgs) (place : Place) (k : Kind) (attrs : Attrs) (s : BuilderState)
    → IsKeyed s
    → make_record args place k attrs s
      ≡ after
          (record_of args place s.context_record k attrs)
          (issue ℕ_discrete args.draws s.ruid32)
          s
unfolding make_record
make_record-after args place plain attrs s h = refl
make_record-after args place box attrs s h = refl
make_record-after args place (fieldbox fs) attrs s h = refl
make_record-after args place form attrs s h =
    add_record-after args place (make_editor args s.context_record) s h
make_record-after args place (columns fs) attrs s h =
    add_record-after args place (make_list args s.context_record place attrs) s h

restore-restore :
    (c d : Option Made) (o : Option BuilderState) → restore c (restore d o) ≡ restore c o
restore-restore c d none = refl
restore-restore c d (some s) = refl

restore-Leaves : (c : Option Made) (o : Option BuilderState) → Leaves c o → restore c o ≡ o
restore-Leaves c none h = refl
restore-Leaves c (some s) h = ap (λ p. some (record s { context_record = p })) (sym h.0)

-- Restoring the context of the caller behind the children.
restore-add_if :
    (draws : ℕ → ℕ) (ms : Option (List Made)) (c : Option Made) (s : BuilderState)
    → IsKeyed s
    → restore s.context_record (add_if draws ms (with_context c s)) ≡ add_if draws ms s
restore-add_if draws none c s h = refl
restore-add_if draws (some ms) c s h =
    ap (restore s.context_record) (add_all-context draws ms c s)
    ∙ restore-restore s.context_record c (add_all draws ms s)
    ∙ restore-Leaves s.context_record (add_all draws ms s) (add_all-Leaves draws ms s h)

add_if-both :
    (draws : ℕ → ℕ) (ms : List Made) (rest : Option (List Made)) (s : BuilderState)
    → add_if draws (both (some ms) rest) s ≡ chain (add_all draws ms s) (add_if draws rest)
add_if-both draws ms none s = ends (add_all draws ms s)
  where
    ends : (o : Option BuilderState) → none ≡ chain o (add_if draws none)
    ends none = refl
    ends (some t) = refl
add_if-both draws ms (some rest) s = add_all-append draws ms rest s

-- The children of a node that has a record, behind that record.
below-record :
    (args : BuilderArgs) (m : Made) (c : Option Made) (o : Option BuilderState)
    (children : BuilderState → Option BuilderState) (below : Option (List Made))
    → Leaves c o
    → ((t : BuilderState)
        → IsKeyed t
        → t.context_record ≡ some m
        → children t ≡ add_if args.draws below t)
    → then_children (restore (some m) o) c children ≡ chain o (add_if args.draws below)
below-record args m c none children below h run = refl
below-record args m c (some t) children below h run =
    ap (restore c) (run (with_context (some m) t) h.1 refl)
    ∙ ap (λ p. restore p (add_if args.draws below (with_context (some m) t))) (sym h.0)
    ∙ restore-add_if args.draws below (some m) t h.1

chain-one :
    (draws : ℕ → ℕ) (m : Made) (rest : Option (List Made)) (s : BuilderState)
    → add_if draws (both (some (m ∷ [])) rest) s ≡ chain (add_one draws m s) (add_if draws rest)
unfolding add_all
chain-one draws m none s = ends (add_one draws m s)
  where
    ends : (o : Option BuilderState) → none ≡ chain o (add_if draws none)
    ends none = refl
    ends (some t) = refl
chain-one draws m (some rest) s = refl

after-below :
    (args : BuilderArgs) (o : Option (Option Made)) (s : BuilderState)
    (children : BuilderState → Option BuilderState) (below : Option Made → Option (List Made))
    → IsKeyed s
    → ((t : BuilderState) → IsKeyed t → children t ≡ add_if args.draws (below t.context_record) t)
    → then_children (after o (issue ℕ_discrete args.draws s.ruid32) s) s.context_record children
      ≡ add_if args.draws (with_below o s.context_record below) s
after-below args none s children below h run = refl
after-below args (some none) s children below h run =
    ap (restore s.context_record) (run s h)
    ∙ restore-add_if args.draws (below s.context_record) s.context_record s h
after-below args (some (some m)) s children below h run =
    below-record args m s.context_record (add_one args.draws m s) children (below (some m))
      (add_one-Leaves args.draws m s h)
      (λ t k e. run t k ∙ ap (λ c. add_if args.draws (below c) t) e)
    ∙ sym (chain-one args.draws m (below (some m)) s)

chain-rest :
    (draws : ℕ → ℕ) (c : Option Made) (o : Option BuilderState)
    (children : BuilderState → Option BuilderState) (rest : Option Made → Option (List Made))
    → Leaves c o
    → ((t : BuilderState) → IsKeyed t → children t ≡ add_if draws (rest t.context_record) t)
    → then_rest o children ≡ chain o (add_if draws (rest c))
chain-rest draws c none children rest h run = refl
chain-rest draws c (some t) children rest h run = run t h.1 ∙ ap (λ p. add_if draws (rest p) t) h.0

add_if-rest :
    (args : BuilderArgs) (first : Option (List Made)) (rest : Option Made → Option (List Made))
    (s : BuilderState) (children : BuilderState → Option BuilderState)
    → IsKeyed s
    → ((t : BuilderState) → IsKeyed t → children t ≡ add_if args.draws (rest t.context_record) t)
    → then_rest (add_if args.draws first s) children
      ≡ add_if args.draws (both first (rest s.context_record)) s
add_if-rest args none rest s children h run = refl
add_if-rest args (some ms) rest s children h run =
    chain-rest args.draws s.context_record (add_all args.draws ms s) children rest
      (add_all-Leaves args.draws ms s h) run
    ∙ sym (add_if-both args.draws ms (rest s.context_record) s)

mutual
  unfolding plan plan_children create_records create_children add_all

  create_records-plan :
      (args : BuilderArgs) (place : Place) (n : LayoutNode) (s : BuilderState)
      → IsKeyed s
      → create_records args place n s ≡ add_if args.draws (plan args place s.context_record n) s
  create_records-plan args place (node k tag attrs flags ns) s h =
      ap (λ t. then_children t s.context_record (create_children args place 0 ns))
        (make_record-after args place k attrs s h)
      ∙ after-below args (record_of args place s.context_record k attrs) s
          (create_children args place 0 ns) (λ m. plan_children args place 0 m ns) h
          (λ t u. create_children-plan args place 0 ns t u)

  create_children-plan :
      (args : BuilderArgs) (place : Place) (i : ℕ) (ns : Nodes) (s : BuilderState)
      → IsKeyed s
      → create_children args place i ns s
        ≡ add_if args.draws (plan_children args place i s.context_record ns) s
  create_children-plan args place i end s h = refl
  create_children-plan args place i (next n ns) s h =
      ap (λ t. then_rest t (create_children args place (i + 1) ns))
        (create_records-plan args (i ∷ place) n s h)
      ∙ add_if-rest args (plan args (i ∷ place) s.context_record n)
          (λ m. plan_children args place (i + 1) m ns) s (create_children args place (i + 1) ns) h
          (λ t u. create_children-plan args place (i + 1) ns t u)

abbrev pub begin : RuidGen ℕ → BuilderState
begin gen = record { context_record = none; records = []; ruid32 = gen }
