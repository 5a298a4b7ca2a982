-- ===== src/Arc/Limits.antt =====
-- arc.h: the well-formed states, which every public method keeps, and the limits.
use kyzddfer.Base.{
  ℕ, ◌+◌, ◌*◌, ◌≤◌, ◌<◌, ◌≡◌, refl, inl, inr, max, ◌&&◌, some, ltb, leb, Bool-cases, length, count,
  arith,
}
use kyzddfer.Base.Assoc.{lookup}
use kyzddfer.Arc.{ArcState, init, new_limit, adjust_size, tick}
use kyzddfer.Arc.Coherent.{IsCoherent}
use kyzddfer.Arc.Evict.{trim-IsTrimmed}

module _ {V : Type 0} where
  pub record IsValid (c : ArcState V) : Type 0 where
    pub coherent : IsCoherent c
    pub within : length c.cache ≤ c.soft_limit
    pub positive : 0 < c.min_limit
    pub floor : c.min_limit ≤ c.soft_limit
    pub ceiling : c.soft_limit ≤ max c.hard_limit c.min_limit

  pub init-IsValid : (hard : ℕ) → IsValid (init {V = V} hard)
  unfolding init lookup count
  init-IsValid hard = record {
    coherent = record {
      distinct = tt;
      sorted = tt;
      sizes = omega arith;
      recency = λ k. refl;
      frequency = λ n k. refl;
      linked = λ k. tt;
    };
    within = omega arith;
    positive = omega arith;
    floor = omega arith;
    ceiling = omega arith;
  }

  -- A change of the counters alone.
  pub IsCoherent-counters :
      (c : ArcState V) (soft hits total : ℕ)
      → IsCoherent c
      → IsCoherent (record c { soft_limit = soft; hits = hits; total_accesses = total })
  IsCoherent-counters c soft hits total h = record {
    distinct = h.distinct;
    sorted = h.sorted;
    sizes = h.sizes;
    recency = h.recency;
    frequency = h.frequency;
    linked = h.linked;
  }

  new_limit_bounds :
      (c : ArcState V)
      → IsValid c
      → (c.min_limit ≤ new_limit c) × (new_limit c ≤ max c.hard_limit c.min_limit)
  unfolding new_limit
  new_limit_bounds c h =
      elim (Bool-cases (ltb (2 * c.hits) c.total_accesses && ltb c.soft_limit c.hard_limit)) [
        | inl a ↦ rw a (ground arith, ground arith)
        | inr a ↦ ground arith
      ]

  -- Of a well-formed state the size is adjusted in every case, and the state stays well formed, so that
  -- the soft limit stays between the least and the hard limit.
  pub adjust_size-IsValid :
      (c : ArcState V) → IsValid c → (c' : ArcState V) × (adjust_size c ≡ some c') × IsValid c'
  unfolding adjust_size
  adjust_size-IsValid c h =
      let c' : ArcState V = record c { soft_limit = new_limit c; hits = 0; total_accesses = 0 } in
      let k : IsCoherent c' = IsCoherent-counters c (new_limit c) 0 0 h.coherent in
      let b = new_limit_bounds c h in
      elim (Bool-cases (ltb (new_limit c) c.soft_limit && ltb (new_limit c) (length c.cache))) [
        | inl fall ↦
            let (d, q, t) = trim-IsTrimmed c' k in
            (
              d,
              rw fall q,
              record {
                coherent = t.coherent;
                within = omega (arith, t.within, t.limits.soft);
                positive = omega (arith, h.positive, t.limits.least);
                floor = omega (arith, b.0, t.limits.least, t.limits.soft);
                ceiling = omega (arith, b.1, t.limits.least, t.limits.soft, t.limits.hard);
              },
            )
        | inr stay ↦ (
          c',
          rw stay,
          record {
            coherent = k;
            within = ground arith;
            positive = h.positive;
            floor = b.0;
            ceiling = b.1;
          },
        )
      ]

  -- Counting an access, and adjusting the size when that is due.
  pub tick-IsValid :
      (c : ArcState V) → IsValid c → (c' : ArcState V) × (tick c ≡ some c') × IsValid c'
  unfolding tick
  tick-IsValid c h =
      let c' : ArcState V = record c { total_accesses = c.total_accesses + 1 } in
      let h' : IsValid c' = record {
        coherent = IsCoherent-counters c c.soft_limit c.hits (c.total_accesses + 1) h.coherent;
        within = h.within;
        positive = h.positive;
        floor = h.floor;
        ceiling = h.ceiling;
      } in
      elim (Bool-cases
        (leb (c.soft_limit * 10) (c.total_accesses + 1) && ltb 0 (c.soft_limit * 10))) [
          | inl due ↦ rw due (adjust_size-IsValid c' h')
          | inr wait ↦ (c', rw wait, h')
        ]
