-- ===== src/Arc/Evict.antt =====
-- arc.h: `evict` and `trim`.
use kyzddfer.Base.{
  ℕ, zero, suc, ◌+◌, ◌≤◌, ◌<◌, ◌≡◌, refl, ◌∙◌, inl, inr, true, none, some, List, [], ◌∷◌, ltb,
  Bool-cases, Option-cases, length, count, arith, dec_lt, ltb→lt,
}
use kyzddfer.Base.Text.{Text, text_dec}
use kyzddfer.Base.Order.{pair_dec, begin-le}
use kyzddfer.Arc.{
  CacheEntry, ArcState, find, back?, remove_entry, remove_found, evict_from_lru, evict_from_lfu,
  evict, trim_loop, trim,
}
use kyzddfer.Arc.Coherent.{
  IsCoherent, lfu_node, find-remove_entry_ne, remove_entry-IsCoherent, length-remove_entry,
}

back?-count : (s : List Text) (k : Text) → back? s ≡ some k → 0 < count text_dec k s
unfolding back? count
back?-count [] k h = cc
back?-count (x ∷ []) k h = ground arith
back?-count (x ∷ y ∷ s) k h = ground (arith, back?-count (y ∷ s) k h)

back?-some : (s : List Text) → 0 < length s → (k : Text) × (back? s ≡ some k)
unfolding back?
back?-some [] h = elim h [ ]
back?-some (x ∷ []) h = (x, refl)
back?-some (x ∷ y ∷ s) h = back?-some (y ∷ s) (omega arith)

module _ {V : Type 0} where
  -- The entry that `evict` picks: the least used of the frequent entries, if these are more than
  -- the recent ones, and otherwise the recent entry at the back of the list.
  pub record IsVictim (c : ArcState V) (k : Text) (e : CacheEntry V) : Type 0 where
    pub found : find k c ≡ some e
    pub frequent : length c.lru_keys < length c.lfu_keys → e.is_in_lfu ≡ true
    pub least :
        length c.lru_keys < length c.lfu_keys
        → (j : Text) (e' : CacheEntry V) → find j c ≡ some e'
        → e'.is_in_lfu ≡ true
        → e.use_count ≤ e'.use_count
    pub oldest : length c.lfu_keys ≤ length c.lru_keys → back? c.lru_keys ≡ some k

  in_lfu :
      (c : ArcState V) (n : ℕ) (k : Text)
      → IsCoherent c
      → 0 < count pair_dec (n, k) c.lfu_keys
      → (e : CacheEntry V) × (find k c ≡ some e) × (e.is_in_lfu ≡ true) × (e.use_count ≡ n)
  in_lfu c n k h p = elim (Option-cases (find k c)) [
    | inl e ↦ absurd (ground (arith, h.frequency n k))
    | inr (e, q) ↦ (e, q, ground (arith, h.frequency n k), ground (arith, h.frequency n k))
  ]

  in_lru :
      (c : ArcState V) (k : Text)
      → IsCoherent c
      → 0 < count text_dec k c.lru_keys
      → (e : CacheEntry V) × (find k c ≡ some e)
  in_lru c k h p = elim (Option-cases (find k c)) [
    | inl e ↦ absurd (ground (arith, h.recency k))
    | inr (e, q) ↦ (e, q)
  ]

  evict_lfu-IsVictim :
      (c : ArcState V) (p : ℕ × Text) (s : List (ℕ × Text))
      → IsCoherent c
      → c.lfu_keys ≡ p ∷ s
      → length c.lru_keys < length c.lfu_keys
      → (k : Text) × (e : CacheEntry V) × IsVictim c k e × (evict c ≡ remove_entry c k e)
  unfolding evict evict_from_lfu remove_found count
  evict_lfu-IsVictim c (n, k) s h q more =
      let (e, found, frequent, counted) = in_lfu c n k h (rw q (ground arith)) in
      (
        k,
        e,
        record {
          found = found;
          frequent = λ _. frequent;
          least = λ _ j e' f' b.
              let node : 0 < count pair_dec (e'.use_count, j) c.lfu_keys =
                omega (arith, (lfu_node c j e' h f' b).1) in
              rw counted (begin-le (n, k) (e'.use_count, j) s (rw q at h.sorted) (rw q at node));
          oldest = λ f. absurd (omega arith);
        },
        ground arith,
      )

  evict_lru-IsVictim :
      (c : ArcState V)
      → IsCoherent c
      → 0 < length c.cache
      → length c.lfu_keys ≤ length c.lru_keys
      → (k : Text) × (e : CacheEntry V) × IsVictim c k e × (evict c ≡ remove_entry c k e)
  unfolding evict evict_from_lru remove_found
  evict_lru-IsVictim c h p fewer =
      let (k, back) = back?-some c.lru_keys (omega (arith, h.sizes)) in
      let (e, found) = in_lru c k h (back?-count c.lru_keys k back) in
      (
        k,
        e,
        record {
          found = found;
          frequent = λ more. absurd (omega arith);
          least = λ more. absurd (omega arith);
          oldest = λ _. back;
        },
        ground arith,
      )

  evict_by_sizes :
      (c : ArcState V) (s : List (ℕ × Text))
      → c.lfu_keys ≡ s
      → IsCoherent c
      → 0 < length c.cache
      → (k : Text) × (e : CacheEntry V) × IsVictim c k e × (evict c ≡ remove_entry c k e)
  evict_by_sizes c [] q h p = evict_lru-IsVictim c h p (rw q (omega arith))
  evict_by_sizes c (r ∷ s) q h p = elim (dec_lt (length c.lru_keys) (length c.lfu_keys)) [
    | yes more ↦ evict_lfu-IsVictim c r s h q more
    | no fewer ↦ evict_lru-IsVictim c h p (omega arith)
  ]

  -- Eviction from a coherent cache that is not empty removes one entry, the victim, and no other:
  -- the least used of the frequent entries if these outnumber the recent ones, and otherwise the
  -- key at the back of the recency list.
  pub evict-IsVictim :
      (c : ArcState V)
      → IsCoherent c
      → 0 < length c.cache
      → (k : Text) × (e : CacheEntry V) × IsVictim c k e × (evict c ≡ remove_entry c k e)
  evict-IsVictim c h p = evict_by_sizes c c.lfu_keys refl h p

  pub evict-IsCoherent : (c : ArcState V) → IsCoherent c → 0 < length c.cache → IsCoherent (evict c)
  evict-IsCoherent c h p =
      let (k, e, v, q) = evict-IsVictim c h p in rw q (remove_entry-IsCoherent c k e h v.found)

  pub length-evict :
      (c : ArcState V)
      → IsCoherent c
      → 0 < length c.cache
      → length (evict c).cache + 1 ≡ length c.cache
  length-evict c h p =
      let (k, e, v, q) = evict-IsVictim c h p in rw q (length-remove_entry c k e h v.found)

  pub find-evict-none :
      (c : ArcState V) (k : Text)
      → IsCoherent c
      → 0 < length c.cache
      → find k c ≡ none
      → find k (evict c) ≡ none
  find-evict-none c k h p q =
      let (j, e, v, r) = evict-IsVictim c h p in
      rw r (find-remove_entry_ne c j e h v.found k (λ s. cc) ∙ q)

  -- What the limits and counters are, eviction leaves.
  pub record SameLimits (c c' : ArcState V) : Type 0 where
    pub soft : c'.soft_limit ≡ c.soft_limit
    pub hard : c'.hard_limit ≡ c.hard_limit
    pub threshold : c'.lfu_threshold ≡ c.lfu_threshold
    pub least : c'.min_limit ≡ c.min_limit
    pub accesses : c'.total_accesses ≡ c.total_accesses
    pub hit : c'.hits ≡ c.hits

  pub remove_entry-SameLimits :
      (c : ArcState V) (k : Text) (e : CacheEntry V) → SameLimits c (remove_entry c k e)
  unfolding remove_entry
  remove_entry-SameLimits c k e = ground arith

  pub remove_found-SameLimits : (c : ArcState V) (k : Text) → SameLimits c (remove_found c k)
  unfolding remove_found
  remove_found-SameLimits c k = elim (Option-cases (find k c)) [
    | inl e ↦ rw (e, remove_found) (ground arith)
    | inr (e, q) ↦ rw (q, remove_found) (remove_entry-SameLimits c k e)
  ]

  pub evict-SameLimits :
      (c : ArcState V) → IsCoherent c → 0 < length c.cache → SameLimits c (evict c)
  evict-SameLimits c h p =
      let (k, e, v, q) = evict-IsVictim c h p in rw q (remove_entry-SameLimits c k e)

  -- The result of a loop that ends: what a run with enough fuel returns.
  pub record IsTrimmed (c c' : ArcState V) : Type 0 where
    pub coherent : IsCoherent c'
    pub limits : SameLimits c c'
    pub within : length c'.cache ≤ c.soft_limit
    pub exact : c.soft_limit ≤ length c.cache → length c'.cache ≡ c.soft_limit

  SameLimits-trans : (a b c : ArcState V) → SameLimits a b → SameLimits b c → SameLimits a c
  SameLimits-trans a b c h k = ground arith

  trim_loop-IsTrimmed :
      (fuel : ℕ) (c : ArcState V)
      → IsCoherent c
      → length c.cache < fuel
      → (c' : ArcState V) × (trim_loop fuel c ≡ some c') × IsTrimmed c c'
  unfolding trim_loop
  trim_loop-IsTrimmed zero c h f = elim f [ ]
  trim_loop-IsTrimmed (suc fuel) c h f = elim (Bool-cases (ltb c.soft_limit (length c.cache))) [
    | inl over ↦
        let p : 0 < length c.cache = ground arith in
        let s = evict-SameLimits c h p in
        let (c', q, t) =
          trim_loop-IsTrimmed fuel (evict c) (evict-IsCoherent c h p)
            (omega (arith, length-evict c h p)) in
        (
          c',
          rw over q,
          record {
            coherent = t.coherent;
            limits = SameLimits-trans c (evict c) c' s t.limits;
            within = omega (arith, t.within, s.soft);
            exact = λ _. omega (arith, t.exact, s.soft, length-evict c h p, ltb→lt _ _ over);
          },
        )
    | inr under ↦ (
      c,
      rw under,
      record {
        coherent = h;
        limits = ground arith;
        within = ground arith;
        exact = λ least. ground arith;
      },
    )
  ]

  -- `trim` of a coherent cache ends, and evicts no more than it must: the cache then holds exactly the
  -- soft limit, if it held more.
  pub trim-IsTrimmed :
      (c : ArcState V) → IsCoherent c → (c' : ArcState V) × (trim c ≡ some c') × IsTrimmed c c'
  unfolding trim
  trim-IsTrimmed c h = trim_loop-IsTrimmed (suc (length c.cache)) c h (omega arith)
