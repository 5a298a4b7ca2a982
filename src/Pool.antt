-- ===== src/Pool.antt =====
-- libsqldb/pgpool.cpp: the pool of connections, `PgPool`.
-- A critical section of the code is one function here: `acquire` gives up the mutex only while it
-- waits, so it is cut at `wait_for`. Time is an argument of each call, in ticks of the steady clock.
pub mod Prune
pub mod Invariant
pub mod Grants
mod Tests
use kyzddfer.Base.{
  ℕ, zero, suc, ◌+◌, ◌-◌, ◌≤◌, ◌<◌, ◌≡◌, Bool, true, false, Option, none, some, List, [], ◌∷◌, ◌++◌,
  map, ite, ltb, leb, if◌then◌else◌, length, count, erase, ◌==◌, ℕ_discrete,
}

-- `PgConn`: `id` stands for its address. The connection itself is libpq's, its cache is arc.h's,
-- and what the destructor does to them is left out.
pub record PgConn : Type 0 where
  pub id : ℕ
  pub last_released : ℕ

-- `storage` has the newest connection first, which is the end of the code's vector; `available`
-- has its front first. `next_id` is an address that no connection has had.
pub record PgPool : Type 0 where
  pub storage : List PgConn
  pub available : List ℕ
  pub hard_limit : ℕ
  pub idle_timeout : ℕ
  pub next_id : ℕ

abbrev pub min_limit : ℕ
min_limit = 1

abbrev pub ids : List PgConn → List ℕ
ids = map (λ c. c.id)

-- The constructor makes one connection, whose release time is the clock's epoch.
unfoldable pub init : ℕ → ℕ → PgPool
init hard idle = record {
  storage = record { id = 0; last_released = 0 } ∷ [];
  available = 0 ∷ [];
  hard_limit = hard;
  idle_timeout = idle;
  next_id = 1;
}

-- `std::find(available…) != available.end()`.
abbrev pub is_available : ℕ → List ℕ → Bool
is_available i av = ltb 0 (count ℕ_discrete i av)

-- The loop over `storage` from its end, with the size of the whole vector: what stays of the part
-- that is still to be checked, and what stays available.
unfoldable pub prune_loop : ℕ → ℕ → List PgConn → ℕ → List ℕ → List PgConn × List ℕ
prune_loop now idle [] size av = ([], av)
prune_loop now idle (c ∷ rest) size av =
    let pruned = prune_loop now idle rest (size - 1) (erase ℕ_discrete c.id av) in
    let passed = prune_loop now idle rest size av in
    if leb size min_limit
    then (c ∷ rest, av)
    else if is_available c.id av
    then (if ltb idle (now - c.last_released) then pruned else (c ∷ rest, av))
    else (c ∷ passed.0, passed.1)

abbrev pub is_empty : List ℕ → Bool
is_empty [] = true
is_empty (x ∷ xs) = false

unfoldable pub prune : PgPool → ℕ → PgPool
prune p now =
    let r = prune_loop now p.idle_timeout p.storage (length p.storage) p.available in
    if is_empty p.available then p else record p { storage = r.0; available = r.1 }

-- How a critical section of `acquire` ends: with a connection, in `wait_for`, or by the exception
-- of a connection that could not be opened.
pub data Outcome : Type 0 where
  granted : ℕ → Outcome
  waits : Outcome
  fails : Outcome

take_from : PgPool → List ℕ → PgPool × Outcome
take_from p [] = (p, waits)
take_from p (i ∷ rest) = (record p { available = rest }, granted i)

-- The top of the `while (true)` loop.
unfoldable pub take : PgPool → PgPool × Outcome
unfolding take_from
take p = take_from p p.available

-- `acquire` up to its first wait.
unfoldable pub enter : PgPool → ℕ → PgPool × Outcome
enter p now = take (prune p now)

-- After a wait that was notified.
abbrev pub wake : PgPool → PgPool × Outcome
wake = take

-- `storage.push_back` of a new connection, which goes to the caller at once.
unfoldable pub grow : PgPool → PgPool
grow p = record p {
  storage = record { id = p.next_id; last_released = 0 } ∷ p.storage;
  next_id = p.next_id + 1;
}

-- After a wait that timed out. `opens` says whether libpq opens the new connection.
unfoldable pub time_out : PgPool → Bool → PgPool × Outcome
time_out p opens =
    if ltb (length p.storage) p.hard_limit
    then (if opens then (grow p, granted p.next_id) else (p, fails))
    else take p

-- `pgConn->last_released_time = now`.
unfoldable pub stamp : ℕ → ℕ → List PgConn → List PgConn
stamp i now [] = []
stamp i now (c ∷ cs) =
    ite (ℕ_discrete c.id i) (record c { last_released = now } ∷ cs) (c ∷ stamp i now cs)

unfoldable pub release : PgPool → ℕ → ℕ → PgPool
release p i now = record p { storage = stamp i now p.storage; available = p.available ++ i ∷ [] }
