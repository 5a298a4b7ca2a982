-- ===== src/Pool/Prune.antt =====
-- pgpool.cpp: what the pruning loop of `acquire` removes, and what it keeps.
use kyzddfer.Base.{
  ℕ, ◌+◌, ◌-◌, ◌≤◌, ◌<◌, ◌≡◌, refl, true, false, List, [], ◌∷◌, ltb, leb, if◌then◌else◌, if_cases,
  length, count, erase, arith, ℕ_discrete, count_cons-erase,
}
use kyzddfer.Pool.{PgConn, PgPool, min_limit, ids, is_available, is_empty, prune_loop, prune}

-- What the loop does to a part of `storage` and to `available`.
pub record IsPruned (now idle : ℕ) (rest : List PgConn) (size : ℕ) (av : List ℕ)
    (r : List PgConn × List ℕ) : Type 0 where
  -- A connection goes from both or from neither.
  pub paired :
      (i : ℕ)
      → count ℕ_discrete i (ids r.0) + count ℕ_discrete i av
        ≡ count ℕ_discrete i (ids rest) + count ℕ_discrete i r.1
  pub fewer : (i : ℕ) → count ℕ_discrete i (ids r.0) ≤ count ℕ_discrete i (ids rest)
  pub some_left : length rest + 1 ≤ length r.0 + size
  pub shorter : length r.0 ≤ length rest

count-erase_available :
    (i j : ℕ) (av : List ℕ)
    → is_available i av ≡ true
    → count ℕ_discrete j (i ∷ erase ℕ_discrete i av) ≡ count ℕ_discrete j av
count-erase_available i j av h = count_cons-erase ℕ_discrete i j av (ground arith)

prune_one :
    (now idle : ℕ) (c : PgConn) (rest : List PgConn) (size : ℕ) (av : List ℕ)
    (r : List PgConn × List ℕ)
    → leb size min_limit ≡ false
    → is_available c.id av ≡ true
    → IsPruned now idle rest (size - 1) (erase ℕ_discrete c.id av) r
    → IsPruned now idle (c ∷ rest) size av r
unfolding count
prune_one now idle c rest size av r big free h = record {
  paired = λ i. ground (arith, h.paired i, count-erase_available c.id i av free);
  fewer = λ i. ground (arith, h.fewer i);
  some_left = ground arith;
  shorter = ground arith;
}

pass_one :
    (now idle : ℕ) (c : PgConn) (rest : List PgConn) (size : ℕ) (av : List ℕ)
    (r : List PgConn × List ℕ)
    → IsPruned now idle rest size av r
    → IsPruned now idle (c ∷ rest) size av (c ∷ r.0, r.1)
unfolding count
pass_one now idle c rest size av r h = record {
  paired = λ i. ground (arith, h.paired i);
  fewer = λ i. ground (arith, h.fewer i);
  some_left = omega (arith, h.some_left);
  shorter = omega (arith, h.shorter);
}

-- The loop removes a connection from `storage` exactly when it removes it from `available`, and
-- never the last one.
pub prune_loop-IsPruned :
    (now idle : ℕ) (rest : List PgConn) (size : ℕ) (av : List ℕ)
    → 0 < size
    → IsPruned now idle rest size av (prune_loop now idle rest size av)
unfolding prune_loop
prune_loop-IsPruned now idle [] size av h = record {
  paired = λ i. refl;
  fewer = λ i. omega arith;
  some_left = omega arith;
  shorter = omega arith;
}
prune_loop-IsPruned now idle (c ∷ rest) size av h =
    let same : IsPruned now idle (c ∷ rest) size av (c ∷ rest, av) = record {
      paired = λ i. refl;
      fewer = λ i. omega arith;
      some_left = omega arith;
      shorter = omega arith;
    } in
    if_cases (IsPruned now idle (c ∷ rest) size av) (leb size min_limit) _ _ (λ _. same)
      λ big.
        if_cases (IsPruned now idle (c ∷ rest) size av) (is_available c.id av) _ _
          (λ free.
            if_cases (IsPruned now idle (c ∷ rest) size av) (ltb idle (now - c.last_released)) _ _
              (λ stale.
                let r =
                  prune_loop-IsPruned now idle rest (size - 1) (erase ℕ_discrete c.id av)
                    (ground arith) in
                prune_one now idle c rest size av _ big free r)
              (λ _. same))
          (λ held.
            let r = prune_loop-IsPruned now idle rest size av h in
            pass_one now idle c rest size av _ r)

-- The connections that were released no longer ago than the idle timeout.
unfoldable pub recent : ℕ → ℕ → List PgConn → List PgConn
recent now idle [] = []
recent now idle (c ∷ cs) =
    if leb (now - c.last_released) idle then c ∷ recent now idle cs else recent now idle cs

recent-le :
    (now idle : ℕ) (rest : List PgConn) (i : ℕ)
    → count ℕ_discrete i (ids (recent now idle rest)) ≤ count ℕ_discrete i (ids rest)
unfolding recent count
recent-le now idle [] i = omega arith
recent-le now idle (c ∷ rest) i = ground (arith, recent-le now idle rest i)

prune_loop-recent :
    (now idle : ℕ) (rest : List PgConn) (size : ℕ) (av : List ℕ) (i : ℕ)
    → count ℕ_discrete i (ids (recent now idle rest))
      ≤ count ℕ_discrete i (ids (prune_loop now idle rest size av).0)
unfolding prune_loop recent count
prune_loop-recent now idle [] size av i = omega arith
prune_loop-recent now idle (c ∷ rest) size av i = ground (
  arith,
  recent-le now idle rest i,
  prune_loop-recent now idle rest (size - 1) (erase ℕ_discrete c.id av) i,
  prune_loop-recent now idle rest size av i,
)

-- What pruning leaves of a pool that has a connection.
pub record PruneSpec (p : PgPool) (now : ℕ) (q : PgPool) : Type 0 where
  pub pruned :
      IsPruned now p.idle_timeout p.storage (length p.storage) p.available (q.storage, q.available)
  pub keeps_recent :
      (i : ℕ)
      → count ℕ_discrete i (ids (recent now p.idle_timeout p.storage))
        ≤ count ℕ_discrete i (ids q.storage)
  pub not_empty : 0 < length q.storage
  pub hard : q.hard_limit ≡ p.hard_limit
  pub next : q.next_id ≡ p.next_id

-- Pruning closes only connections that are free and have been idle for longer than the timeout: a
-- connection leaves `storage` exactly when it leaves `available`, those released more recently
-- stay, and one connection at least is left.
pub prune_lem : (p : PgPool) (now : ℕ) → 0 < length p.storage → PruneSpec p now (prune p now)
unfolding prune
prune_lem p now h =
    let r = prune_loop-IsPruned now p.idle_timeout p.storage (length p.storage) p.available h in
    if_cases (PruneSpec p now) (is_empty p.available) _ _
      (λ _. record {
        pruned = record {
          paired = λ i. refl;
          fewer = λ i. omega arith;
          some_left = omega arith;
          shorter = omega arith;
        };
        keeps_recent = recent-le now p.idle_timeout p.storage;
        not_empty = h;
        hard = refl;
        next = refl;
      })
      (λ _. record {
        pruned = record {
          paired = r.paired;
          fewer = r.fewer;
          some_left = r.some_left;
          shorter = r.shorter;
        };
        keeps_recent =
            prune_loop-recent now p.idle_timeout p.storage (length p.storage) p.available;
        not_empty = omega (arith, r.some_left);
        hard = refl;
        next = refl;
      })
