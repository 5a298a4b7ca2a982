-- ===== src/Pool/Tests.antt =====
-- Runs of pgpool.cpp, and its theorems at concrete states.
use kyzddfer.Base.{◌≡◌, refl, true, [], ◌∷◌, count, erase, arith, ℕ_discrete}
use kyzddfer.Pool.{
  PgPool, granted, waits, ids, init, prune_loop, prune, take, enter, grow, time_out, stamp, release,
}
use kyzddfer.Pool.Prune.{PruneSpec, prune_lem, recent}
use kyzddfer.Pool.Invariant.{
  System, enters, times_out, Reach, here, next, Inv, handed, start, Reach-start-Inv,
}
use kyzddfer.Pool.Grants.{entry, run, grant_exclusive, enter_starves}

program : Unit {0}
unfolding init prune_loop prune take enter grow time_out stamp release count erase ℕ_discrete recent
program = tt

-- Two connections, of which the newest is free and was released at 10.
abbrev busy : PgPool
busy = record {
  storage = record { id = 1; last_released = 10 } ∷ record { id = 0; last_released = 0 } ∷ [];
  available = 1 ∷ [];
  hard_limit = 4;
  idle_timeout = 60;
  next_id = 2;
}

busy_early : (enter busy 70).1 ≡ granted 1
unfolding program
busy_early = refl

prune_lem_example : PruneSpec busy 71 (prune busy 71)
prune_lem_example = prune_lem busy 71 (omega arith)

abbrev s0 : System
s0 = start 4 60

abbrev s1 : System
s1 = handed (enter s0.pool 5) s0.held

abbrev s2 : System
s2 = handed (time_out s1.pool true) s1.held

s2_held : s2.held ≡ 1 ∷ 0 ∷ []
unfolding program
s2_held = refl

Reach-s2 : Reach s0 s2
Reach-s2 = next (next here (enters s0 5)) (times_out s1 true)

Reach-start-Inv_example : Inv s2
Reach-start-Inv_example = Reach-start-Inv 4 60 Reach-s2

abbrev emptied : PgPool
emptied = record s0.pool { available = [] }

enter_s0 : run (entry 5) s0.pool ≡ (emptied, granted 0)
unfolding program
enter_s0 = refl

grant_exclusive_example :
    (count ℕ_discrete 0 s0.held ≡ 0)
    × (count ℕ_discrete 0 emptied.available ≡ 0)
    × (count ℕ_discrete 0 (ids emptied.storage) ≡ 1)
grant_exclusive_example =
    grant_exclusive (entry 5) s0 emptied 0 (Reach-start-Inv 4 60 here) enter_s0

busy_owned : count ℕ_discrete 1 (ids busy.storage) ≡ 1
unfolding program
busy_owned = refl

enter_starves_example :
    ((enter busy 100).1 ≡ waits)
    × (count ℕ_discrete 1 (ids (enter busy 100).0.storage) ≡ 0)
    × ((take busy).1 ≡ granted 1)
enter_starves_example =
    enter_starves busy 100 1 refl (omega arith) busy_owned
      ((λ _. omega arith), ((λ e. absurd (omega arith)), tt))
