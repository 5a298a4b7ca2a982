-- ===== src/Arc/Methods.antt =====
-- arc.h: `put` and `get` keep the cache well formed.
use kyzddfer.Base.{
  ◌≤◌, ◌<◌, ◌≡◌, refl, inl, inr, Option, none, some, if_cases, leb, Option-cases, length, count,
  arith,
}
use kyzddfer.Base.Assoc.{insert-IsMap, lookup-insert_self, lookup-insert_ne, length-insert_new}
use kyzddfer.Base.Text.{Text, text_dec}
use kyzddfer.Arc.{
  CacheEntry, ArcState, find, remove_found, evict, make_room, fresh_entry, put, touch, get,
}
use kyzddfer.Arc.Coherent.{
  IsCoherent, Changes, Changes-IsCoherent, remove_entry-IsCoherent, find-remove_entry_self,
  length-remove_entry,
}
use kyzddfer.Arc.Evict.{
  SameLimits, evict-IsCoherent, length-evict, find-evict-none, evict-SameLimits,
  remove_found-SameLimits,
}
use kyzddfer.Arc.Limits.{IsValid, tick-IsValid}
use kyzddfer.Arc.Touch.{touch-IsCoherent, length-touch, limits-touch}

module _ {V : Type 0} where
  -- What `put` needs before it inserts: room for one entry, and none of the key.
  pub record HasRoom (c : ArcState V) (k : Text) (c' : ArcState V) : Type 0 where
    pub coherent : IsCoherent c'
    pub absent : find k c' ≡ none
    pub room : length c'.cache < c'.soft_limit
    pub limits : SameLimits c c'

  -- The state after the old entry of the key is gone.
  record IsCleared (c : ArcState V) (k : Text) (c' : ArcState V) : Type 0 where
    coherent : IsCoherent c'
    absent : find k c' ≡ none
    within : length c'.cache ≤ length c.cache

  remove_found-IsCleared :
      (c : ArcState V) (k : Text) → IsCoherent c → IsCleared c k (remove_found c k)
  unfolding remove_found
  remove_found-IsCleared c k h = elim (Option-cases (find k c)) [
    | inl e ↦ rw (e, remove_found) (record { coherent = h; absent = e; within = omega arith })
    | inr (e, found) ↦
        rw (found, remove_found)
          (record {
            coherent = remove_entry-IsCoherent c k e h found;
            absent = find-remove_entry_self c k e h found;
            within = omega (arith, length-remove_entry c k e h found);
          })
  ]

  pub make_room-HasRoom : (c : ArcState V) (k : Text) → IsValid c → HasRoom c k (make_room c k)
  unfolding make_room
  make_room-HasRoom c k v =
      let d = remove_found c k in
      let r = remove_found-IsCleared c k v.coherent in
      let s = remove_found-SameLimits c k in
      if_cases (HasRoom c k) (leb d.soft_limit (length d.cache)) (evict d) d
        (λ full.
          let some_left : 0 < length d.cache = ground (arith, v.positive, v.floor, s.soft) in
          let t = evict-SameLimits d r.coherent some_left in
          record {
            coherent = evict-IsCoherent d r.coherent some_left;
            absent = find-evict-none d k r.coherent some_left r.absent;
            room =
                omega
                  (arith, length-evict d r.coherent some_left, r.within, v.within, s.soft, t.soft);
            limits = ground (arith, s, t);
          })
        (λ left. record {
          coherent = r.coherent;
          absent = r.absent;
          room = ground arith;
          limits = s;
        })

  put-Changes :
      (c c' : ArcState V) (k : Text) (v : V)
      → HasRoom c k c'
      → c' ≡ make_room c k
      → Changes k c' (put c k v)
  unfolding put count
  put-Changes c c' k v r e =
      let new = lookup-insert_self text_dec k (fresh_entry k v) c'.cache in
      rw (← e) (record {
        find_ne = λ j p. lookup-insert_ne text_dec k j _ c'.cache p;
        lru_ne = λ j p. ground arith;
        lfu_ne = λ n j p. refl;
        lru_self = rw new (ground (arith, r.coherent.recency k, r.absent));
        lfu_self = λ n. rw new (ground (arith, r.coherent.frequency n k, r.absent));
        linked_self = rw new (ground arith);
      })

  -- Storing keeps a well-formed cache well formed, whatever was stored under the key before.
  pub put-IsValid : (c : ArcState V) (k : Text) (v : V) → IsValid c → IsValid (put c k v)
  unfolding put
  put-IsValid c k v h =
      let r = make_room-HasRoom c k h in
      let c' = make_room c k in
      let grown = length-insert_new text_dec k (fresh_entry k v) c'.cache r.absent in
      record {
        coherent =
            Changes-IsCoherent k c' (put c k v) r.coherent (put-Changes c c' k v r refl)
              (insert-IsMap text_dec k _ c'.cache r.coherent.distinct) r.coherent.sorted
              (omega (arith, grown, r.coherent.sizes));
        within = omega (arith, grown, r.room);
        positive = omega (arith, h.positive, r.limits.least);
        floor = omega (arith, h.floor, r.limits.least, r.limits.soft);
        ceiling = omega (arith, h.ceiling, r.limits.least, r.limits.soft, r.limits.hard);
      }

  touch-IsValid :
      (c : ArcState V) (k : Text) (e : CacheEntry V)
      → IsValid c
      → find k c ≡ some e
      → IsValid (touch c k e)
  touch-IsValid c k e h found =
      let (soft, least, hard) = limits-touch c k e in
      record {
        coherent = touch-IsCoherent c k e h.coherent found;
        within = omega (arith, h.within, length-touch c k e h.coherent found, soft);
        positive = omega (arith, h.positive, least);
        floor = omega (arith, h.floor, least, soft);
        ceiling = omega (arith, h.ceiling, least, soft, hard);
      }

  -- A lookup in a well-formed cache returns in every case, and the cache stays well formed: `trim`
  -- has fuel enough.
  pub get-IsValid :
      (c : ArcState V) (k : Text)
      → IsValid c
      → (c' : ArcState V) × (r : Option V) × (get c k ≡ some (c', r)) × IsValid c'
  unfolding get
  get-IsValid c k h =
      let (d, ticked, v) = tick-IsValid c h in
      elim (Option-cases (find k d)) [
        | inl e ↦ (d, none, rw (ticked, get, e), v)
        | inr (e, found) ↦
            (touch d k e, some e.value, rw (ticked, get, found), touch-IsValid d k e v found)
      ]
