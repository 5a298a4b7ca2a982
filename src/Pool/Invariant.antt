-- ===== src/Pool/Invariant.antt =====
-- pgpool.cpp under concurrent callers: who holds which connection, over any interleaving.
use kyzddfer.Base.{
  ℕ, ◌+◌, ◌≤◌, ◌<◌, ◌≡◌, refl, Bool, List, [], ◌∷◌, ltb, if_cases, length, max, count, erase, arith,
  ℕ_discrete, count_cons-erase, count-append,
}
use kyzddfer.Pool.{
  PgConn, PgPool, Outcome, granted, waits, fails, ids, init, prune, take_from, take, enter, wake,
  grow, time_out, stamp, release,
}
use kyzddfer.Pool.Prune.{prune_lem}

-- The pool with the connections that callers hold.
pub record System : Type 0 where
  pub pool : PgPool
  pub held : List ℕ

-- A caller that is given a connection holds it.
abbrev pub handed : PgPool × Outcome → List ℕ → System
handed (p, granted i) held = record { pool = p; held = i ∷ held }
handed (p, waits) held = record { pool = p; held = held }
handed (p, fails) held = record { pool = p; held = held }

-- The critical sections, in any order. Only a holder releases a connection.
pub data Step : System → System → Type 0 where
  enters : (s : System) (now : ℕ) → Step s (handed (enter s.pool now) s.held)
  wakes : (s : System) → Step s (handed (wake s.pool) s.held)
  times_out : (s : System) (opens : Bool) → Step s (handed (time_out s.pool opens) s.held)
  releases :
      (s : System) (i now : ℕ)
      → 0 < count ℕ_discrete i s.held
      → Step s (record { pool = release s.pool i now; held = erase ℕ_discrete i s.held })

pub data Reach (s : System) : System → Type 0 where
  here : Reach s s
  next : {t u : System} → Reach s t → Step t u → Reach s u

pub record Inv (s : System) : Type 0 where
  -- Each connection of the pool is free or held.
  pub owned :
      (i : ℕ)
      → count ℕ_discrete i (ids s.pool.storage)
        ≡ count ℕ_discrete i s.pool.available + count ℕ_discrete i s.held
  -- No connection is twice in the pool; so none has two holders, or is free while it is held.
  pub unique : (i : ℕ) → count ℕ_discrete i (ids s.pool.storage) ≤ 1
  pub fresh : (i : ℕ) → 0 < count ℕ_discrete i (ids s.pool.storage) → i < s.pool.next_id
  pub not_empty : 0 < length s.pool.storage
  pub bounded : length s.pool.storage ≤ max 1 s.pool.hard_limit

take_from-Inv :
    (p : PgPool) (av held : List ℕ)
    → p.available ≡ av
    → Inv (record { pool = p; held = held })
    → Inv (handed (take_from p av) held)
unfolding take_from count
take_from-Inv p [] held e h = h
take_from-Inv p (i ∷ rest) held e h = record {
  owned = λ j. ground (arith, h.owned j);
  unique = h.unique;
  fresh = h.fresh;
  not_empty = h.not_empty;
  bounded = h.bounded;
}

take-Inv :
    (p : PgPool) (held : List ℕ)
    → Inv (record { pool = p; held = held })
    → Inv (handed (take p) held)
unfolding take
take-Inv p held h = take_from-Inv p p.available held refl h

prune-Inv :
    (p : PgPool) (held : List ℕ) (now : ℕ)
    → Inv (record { pool = p; held = held })
    → Inv (record { pool = prune p now; held = held })
prune-Inv p held now h =
    let s = prune_lem p now h.not_empty in
    record {
      owned = λ i. omega (arith, s.pruned.paired i, h.owned i);
      unique = λ i. omega (arith, s.pruned.fewer i, h.unique i);
      fresh = λ i c. omega (arith, h.fresh i (omega (arith, s.pruned.fewer i)), s.next);
      not_empty = s.not_empty;
      bounded = omega (arith, s.pruned.shorter, h.bounded, s.hard);
    }

grow-Inv :
    (p : PgPool) (held : List ℕ)
    → length p.storage < p.hard_limit
    → Inv (record { pool = p; held = held })
    → Inv (record { pool = grow p; held = p.next_id ∷ held })
unfolding grow count
grow-Inv p held room h = record {
  owned = λ i. ground (arith, h.owned i);
  unique = λ i. ground (arith, h.unique i, h.fresh i);
  fresh = λ i c. ground (arith, h.fresh i);
  not_empty = omega arith;
  bounded = omega arith;
}

time_out-Inv :
    (p : PgPool) (held : List ℕ) (opens : Bool)
    → Inv (record { pool = p; held = held })
    → Inv (handed (time_out p opens) held)
unfolding time_out
time_out-Inv p held opens h =
    let P = λ (r : PgPool × Outcome). Inv (handed r held) in
    if_cases P (ltb (length p.storage) p.hard_limit) _ _
      (λ room. if_cases P opens _ _ (λ _. grow-Inv p held (ground arith) h) (λ _. h))
      (λ _. take-Inv p held h)

ids-stamp : (i now : ℕ) (cs : List PgConn) → ids (stamp i now cs) ≡ ids cs
unfolding stamp
ids-stamp i now [] = refl
ids-stamp i now (c ∷ cs) = ground (arith, ids-stamp i now cs)

length-stamp : (i now : ℕ) (cs : List PgConn) → length (stamp i now cs) ≡ length cs
unfolding stamp
length-stamp i now [] = refl
length-stamp i now (c ∷ cs) = ground (arith, length-stamp i now cs)

release-Inv :
    (p : PgPool) (held : List ℕ) (i now : ℕ)
    → 0 < count ℕ_discrete i held
    → Inv (record { pool = p; held = held })
    → Inv (record { pool = release p i now; held = erase ℕ_discrete i held })
unfolding release count
release-Inv p held i now c h = record {
  owned = λ j. rw (ids-stamp i now p.storage) (
      ground (
        arith,
        h.owned j,
        count-append ℕ_discrete j p.available (i ∷ []),
        count_cons-erase ℕ_discrete i j held c,
      ));
  unique = λ j. rw (ids-stamp i now p.storage) (h.unique j);
  fresh = λ j d. h.fresh j (rw (ids-stamp i now p.storage) at d);
  not_empty = omega (arith, h.not_empty, length-stamp i now p.storage);
  bounded = omega (arith, h.bounded, length-stamp i now p.storage);
}

-- Every critical section keeps the invariant.
pub Step-Inv : {s t : System} → Step s t → Inv s → Inv t
unfolding enter
Step-Inv (enters s now) h = take-Inv (prune s.pool now) s.held (prune-Inv s.pool s.held now h)
Step-Inv (wakes s) h = take-Inv s.pool s.held h
Step-Inv (times_out s opens) h = time_out-Inv s.pool s.held opens h
Step-Inv (releases s i now c) h = release-Inv s.pool s.held i now c h

abbrev pub start : ℕ → ℕ → System
start hard idle = record { pool = init hard idle; held = [] }

start-Inv : (hard idle : ℕ) → Inv (start hard idle)
unfolding init count
start-Inv hard idle = record {
  owned = λ i. ground arith;
  unique = λ i. ground arith;
  fresh = λ i c. ground arith;
  not_empty = omega arith;
  bounded = omega arith;
}

Reach-Inv : {s t : System} → Inv s → Reach s t → Inv t
Reach-Inv h here = h
Reach-Inv h (next r st) = Step-Inv st (Reach-Inv h r)

-- Whatever the callers do and whenever: each connection is free or held by one caller, never both,
-- and there are at least one and at most `hard_limit` of them (one, if the limit is zero).
pub Reach-start-Inv : (hard idle : ℕ) {s : System} → Reach (start hard idle) s → Inv s
Reach-start-Inv hard idle r = Reach-Inv (start-Inv hard idle) r
