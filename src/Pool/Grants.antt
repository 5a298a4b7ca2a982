-- ===== src/Pool/Grants.antt =====
-- pgpool.cpp: which connection a caller is given, and when it has to wait.
use kyzddfer.Base.{
  ℕ, ◌-◌, ◌<◌, ◌≡◌, refl, Bool, List, [], ◌∷◌, length, All, count, erase, arith, ℕ_discrete,
}
use kyzddfer.Pool.{
  PgConn, PgPool, Outcome, granted, waits, ids, prune_loop, prune, take_from, take, enter, wake,
  time_out,
}
use kyzddfer.Pool.Invariant.{System, Inv, enters, wakes, times_out, handed, Step-Inv}

-- The critical sections of `acquire`.
pub data Section : Type 0 where
  entry : ℕ → Section
  notified : Section
  timeout : Bool → Section

abbrev pub run : Section → PgPool → PgPool × Outcome
run (entry now) p = enter p now
run notified p = wake p
run (timeout opens) p = time_out p opens

run-Inv : (a : Section) (s : System) → Inv s → Inv (handed (run a s.pool) s.held)
run-Inv (entry now) s h = Step-Inv (enters s now) h
run-Inv notified s h = Step-Inv (wakes s) h
run-Inv (timeout opens) s h = Step-Inv (times_out s opens) h

-- Whichever section grants a connection, no caller holds it yet, nobody else can be given it, and
-- the pool owns it, so that it stays open.
pub grant_exclusive :
    (a : Section) (s : System) (q : PgPool) (i : ℕ)
    → Inv s
    → run a s.pool ≡ (q, granted i)
    → (count ℕ_discrete i s.held ≡ 0)
      × (count ℕ_discrete i q.available ≡ 0)
      × (count ℕ_discrete i (ids q.storage) ≡ 1)
unfolding count
grant_exclusive a s q i h e =
    let k : Inv (handed (q, granted i) s.held) = rw e at (run-Inv a s h) in
    ground (arith, k.owned i, k.unique i)

prune_loop_empty :
    (now idle : ℕ) (rest : List PgConn) (size : ℕ) → (prune_loop now idle rest size []).1 ≡ []
unfolding prune_loop count
prune_loop_empty now idle [] size = refl
prune_loop_empty now idle (c ∷ rest) size = ground (arith, prune_loop_empty now idle rest size)

-- Every connection with the number is past the idle timeout.
abbrev pub IsStale : ℕ → ℕ → ℕ → List PgConn → Type 0
IsStale now idle i = All (λ c. (c.id ≡ i) → (idle < now - c.last_released))

prune_loop_last :
    (now idle i : ℕ) (rest : List PgConn) (size : ℕ)
    → 1 < size
    → 0 < count ℕ_discrete i (ids rest)
    → IsStale now idle i rest
    → (prune_loop now idle rest size (i ∷ [])).1 ≡ []
unfolding prune_loop count erase
prune_loop_last now idle i [] size h c s = elim c [ ]
prune_loop_last now idle i (x ∷ rest) size h c s =
    ground (
      arith,
      s.0,
      prune_loop_empty now idle rest (size - 1),
      prune_loop_last now idle i rest size h,
    )

prune_loop_nothing :
    (now idle : ℕ) (rest : List PgConn) (size i : ℕ)
    → count ℕ_discrete i (ids (prune_loop now idle rest size []).0) ≡ count ℕ_discrete i (ids rest)
unfolding prune_loop count
prune_loop_nothing now idle [] size i = refl
prune_loop_nothing now idle (c ∷ rest) size i =
    ground (arith, prune_loop_nothing now idle rest size i)

prune_loop_closes :
    (now idle i : ℕ) (rest : List PgConn) (size : ℕ)
    → 1 < size
    → count ℕ_discrete i (ids rest) ≡ 1
    → IsStale now idle i rest
    → count ℕ_discrete i (ids (prune_loop now idle rest size (i ∷ [])).0) ≡ 0
unfolding prune_loop count erase
prune_loop_closes now idle i [] size h c s = absurd (omega (arith, c))
prune_loop_closes now idle i (x ∷ rest) size h c s = ground (
  arith,
  s.0,
  prune_loop_nothing now idle rest (size - 1) i,
  prune_loop_closes now idle i rest size h,
)

-- When a single connection is free and it is past the idle timeout, a pool with a second
-- connection closes it and makes the caller wait, though without the pruning it would have been
-- given.
pub enter_starves :
    (p : PgPool) (now i : ℕ)
    → p.available ≡ i ∷ []
    → 1 < length p.storage
    → count ℕ_discrete i (ids p.storage) ≡ 1
    → IsStale now p.idle_timeout i p.storage
    → ((enter p now).1 ≡ waits)
      × (count ℕ_discrete i (ids (enter p now).0.storage) ≡ 0)
      × ((take p).1 ≡ granted i)
unfolding enter prune take take_from
enter_starves p now i e many owned stale =
    let closed : (prune_loop now p.idle_timeout p.storage (length p.storage) (i ∷ [])).1 ≡ [] =
      prune_loop_last now p.idle_timeout i p.storage (length p.storage) many (omega (arith, owned))
        stale in
    let gone : count ℕ_discrete i
          (ids (prune_loop now p.idle_timeout p.storage (length p.storage) (i ∷ [])).0)
        ≡ 0 =
      prune_loop_closes now p.idle_timeout i p.storage (length p.storage) many owned stale in
    (
      rw (e, enter, prune, take) (rw (closed, take_from) refl),
      rw (e, enter, prune, take) (rw (closed, take_from) gone),
      ground arith,
    )
