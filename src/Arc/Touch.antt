-- ===== src/Arc/Touch.antt =====
-- arc.h: the updates of `get` and `put` keep the containers in step.
use kyzddfer.Base.{
  ◌+◌, ◌≡◌, refl, ap, ◌∙◌, true, false, some, ltb, if_cases, length, count, erase, arith,
  ℕ_discrete, count-erase_ne, length-erase,
}
use kyzddfer.Base.Assoc.{insert-IsMap, lookup-insert_self, lookup-insert_ne, length-insert_old}
use kyzddfer.Base.Text.{Text, text_dec}
use kyzddfer.Base.Order.{
  pair_dec, set_insert-IsSorted, erase-IsSorted, count-set_insert_self, count-set_insert_ne,
  length-set_insert,
}
use kyzddfer.Arc.{
  CacheEntry, ArcState, find, move_to_lfu, touch_frequent, touch_recent, used_entry, touch,
}
use kyzddfer.Arc.Coherent.{
  IsCoherent, Changes, Changes-IsCoherent, pair_ne, lru_node, lfu_node, count-erase_lfu,
  count-erase_lru,
}

module _ {V : Type 0} where
  module _ (c : ArcState V) (k : Text) (e : CacheEntry V) (h : IsCoherent c)
      (found : find k c ≡ some e) where
    touch_frequent-Changes : e.is_in_lfu ≡ true → Changes k c (touch_frequent c k e)
    unfolding touch_frequent
    touch_frequent-Changes b =
        let used = e.use_count + 1 in
        let gone = count-erase_lfu c k e h found b in
        let new =
          lookup-insert_self text_dec k (record e { use_count = used; lfu_it = (used, k) })
            c.cache in
        rw (lfu_node c k e h found b).0 (record {
          find_ne = λ j p. lookup-insert_ne text_dec k j _ c.cache p;
          lru_ne = λ j p. refl;
          lfu_ne = λ n j p.
              count-set_insert_ne (used, k) (n, j) (erase pair_dec (e.use_count, k) c.lfu_keys)
                (pair_ne n used j k p)
              ∙ count-erase_ne pair_dec (e.use_count, k) (n, j) c.lfu_keys
                  (pair_ne n e.use_count j k p);
          lru_self = rw new (ground (arith, h.recency k));
          lfu_self = λ n. rw new (elim (ℕ_discrete n used) [
            | yes p ↦ rw p (
                ground (
                  arith,
                  count-set_insert_self (used, k) (erase pair_dec (e.use_count, k) c.lfu_keys),
                  gone used,
                ))
            | no p ↦ ground (
              arith,
              count-set_insert_ne (used, k) (n, k) (erase pair_dec (e.use_count, k) c.lfu_keys),
              gone n,
            )
          ]);
          linked_self = rw new (ground arith);
        })

    pub touch_frequent-IsCoherent : e.is_in_lfu ≡ true → IsCoherent (touch_frequent c k e)
    unfolding touch_frequent
    touch_frequent-IsCoherent b =
        let used = e.use_count + 1 in
        Changes-IsCoherent k c (touch_frequent c k e) h (touch_frequent-Changes b)
          (insert-IsMap text_dec k _ c.cache h.distinct)
          (set_insert-IsSorted (used, k) _ (erase-IsSorted e.lfu_it c.lfu_keys h.sorted))
          (rw (lfu_node c k e h found b).0 (
            omega (
              arith,
              h.sizes,
              length-insert_old text_dec k (record e { use_count = used; lfu_it = (used, k) }) e
                  c.cache h.distinct found,
              length-set_insert (used, k) (erase pair_dec (e.use_count, k) c.lfu_keys)
                  (count-erase_lfu c k e h found b used),
              length-erase pair_dec (e.use_count, k) c.lfu_keys
                  (omega (arith, (lfu_node c k e h found b).1)),
            )))

    touch_recent-Changes : e.is_in_lfu ≡ false → Changes k c (touch_recent c k e)
    unfolding touch_recent used_entry count
    touch_recent-Changes b =
        let new = lookup-insert_self text_dec k (used_entry k e) c.cache in
        rw (lru_node c k e h found b).0 (record {
          find_ne = λ j p. lookup-insert_ne text_dec k j _ c.cache p;
          lru_ne = λ j p. ground (arith, count-erase_ne text_dec k j c.lru_keys p);
          lfu_ne = λ n j p. refl;
          lru_self = rw new (ground (arith, count-erase_lru c k e h found b));
          lfu_self = λ n. rw new (ground (arith, h.frequency n k));
          linked_self = rw new (ground arith);
        })

    pub touch_recent-IsCoherent : e.is_in_lfu ≡ false → IsCoherent (touch_recent c k e)
    unfolding touch_recent
    touch_recent-IsCoherent b =
        Changes-IsCoherent k c (touch_recent c k e) h (touch_recent-Changes b)
          (insert-IsMap text_dec k _ c.cache h.distinct) h.sorted
          (omega (
            arith,
            h.sizes,
            length-insert_old text_dec k (used_entry k e) e c.cache h.distinct found,
            ap (λ (t : Text). length (erase text_dec t c.lru_keys)) (lru_node c k e h found b).0,
            length-erase text_dec k c.lru_keys (omega (arith, (lru_node c k e h found b).1)),
          ))

    move_to_lfu-Changes : e.is_in_lfu ≡ false → Changes k c (move_to_lfu c k e)
    unfolding move_to_lfu
    move_to_lfu-Changes b =
        let new =
          lookup-insert_self text_dec k (record e { lfu_it = (e.use_count, k); is_in_lfu = true })
            c.cache in
        let node = (lru_node c k e h found b).0 in
        record {
          find_ne = λ j p. lookup-insert_ne text_dec k j _ c.cache p;
          lru_ne = λ j p. rw node (count-erase_ne text_dec k j c.lru_keys p);
          lfu_ne = λ n j p.
              count-set_insert_ne (e.use_count, k) (n, j) c.lfu_keys (pair_ne n e.use_count j k p);
          lru_self = rw (new, node) (count-erase_lru c k e h found b);
          lfu_self = λ n. rw new (elim (ℕ_discrete n e.use_count) [
            | yes p ↦ rw p (
                ground (
                  arith,
                  count-set_insert_self (e.use_count, k) c.lfu_keys,
                  h.frequency e.use_count k,
                ))
            | no p ↦
                ground
                  (arith, count-set_insert_ne (e.use_count, k) (n, k) c.lfu_keys, h.frequency n k)
          ]);
          linked_self = rw new (ground arith);
        }

    pub move_to_lfu-IsCoherent : e.is_in_lfu ≡ false → IsCoherent (move_to_lfu c k e)
    unfolding move_to_lfu
    move_to_lfu-IsCoherent b =
        let none_yet : count pair_dec (e.use_count, k) c.lfu_keys ≡ 0 =
          ground (arith, h.frequency e.use_count k) in
        Changes-IsCoherent k c (move_to_lfu c k e) h (move_to_lfu-Changes b)
          (insert-IsMap text_dec k _ c.cache h.distinct)
          (set_insert-IsSorted (e.use_count, k) c.lfu_keys h.sorted)
          (omega (
            arith,
            h.sizes,
            length-insert_old text_dec k (record e { lfu_it = (e.use_count, k); is_in_lfu = true })
                e c.cache h.distinct found,
            ap (λ (t : Text). length (erase text_dec t c.lru_keys)) (lru_node c k e h found b).0,
            length-erase text_dec k c.lru_keys (omega (arith, (lru_node c k e h found b).1)),
            length-set_insert (e.use_count, k) c.lfu_keys none_yet,
          ))

  used_entry_recent :
      (k : Text) (e : CacheEntry V) → e.is_in_lfu ≡ false → (used_entry k e).is_in_lfu ≡ false
  unfolding used_entry
  used_entry_recent k e b = b

  find-touch_recent :
      (c : ArcState V) (k : Text) (e : CacheEntry V)
      → find k (touch_recent c k e) ≡ some (used_entry k e)
  unfolding touch_recent
  find-touch_recent c k e = lookup-insert_self text_dec k (used_entry k e) c.cache

  pub touch-IsCoherent :
      (c : ArcState V) (k : Text) (e : CacheEntry V)
      → IsCoherent c
      → find k c ≡ some e
      → IsCoherent (touch c k e)
  unfolding touch
  touch-IsCoherent c k e h found =
      let recent = touch_recent-IsCoherent c k e h found in
      if_cases IsCoherent e.is_in_lfu _ _ (touch_frequent-IsCoherent c k e h found) λ b.
        if_cases IsCoherent (ltb c.lfu_threshold (e.use_count + 1)) _ _
          (λ _.
            move_to_lfu-IsCoherent (touch_recent c k e) k (used_entry k e) (recent b)
              (find-touch_recent c k e) (used_entry_recent k e b))
          (λ _. recent b)

  length-move_to_lfu :
      (c : ArcState V) (k : Text) (e : CacheEntry V)
      → IsCoherent c
      → find k c ≡ some e
      → length (move_to_lfu c k e).cache ≡ length c.cache
  unfolding move_to_lfu
  length-move_to_lfu c k e h found = length-insert_old text_dec k _ e c.cache h.distinct found

  length-touch_recent :
      (c : ArcState V) (k : Text) (e : CacheEntry V)
      → IsCoherent c
      → find k c ≡ some e
      → length (touch_recent c k e).cache ≡ length c.cache
  unfolding touch_recent
  length-touch_recent c k e h found = length-insert_old text_dec k _ e c.cache h.distinct found

  -- The size and the limits that `touch` leaves.
  pub length-touch :
      (c : ArcState V) (k : Text) (e : CacheEntry V)
      → IsCoherent c
      → find k c ≡ some e
      → length (touch c k e).cache ≡ length c.cache
  unfolding touch touch_frequent
  length-touch c k e h found =
      let P = λ (d : ArcState V). length d.cache ≡ length c.cache in
      let inserted = length-touch_recent c k e h found in
      if_cases P e.is_in_lfu _ _ (λ _. length-insert_old text_dec k _ e c.cache h.distinct found)
        λ b.
          if_cases P (ltb c.lfu_threshold (e.use_count + 1)) _ _
            (λ _.
              length-move_to_lfu (touch_recent c k e) k (used_entry k e)
                (touch_recent-IsCoherent c k e h found b) (find-touch_recent c k e)
              ∙ inserted)
            (λ _. inserted)

  pub limits-touch :
      (c : ArcState V) (k : Text) (e : CacheEntry V)
      → ((touch c k e).soft_limit ≡ c.soft_limit)
        × ((touch c k e).min_limit ≡ c.min_limit)
        × ((touch c k e).hard_limit ≡ c.hard_limit)
  unfolding touch touch_recent touch_frequent move_to_lfu
  limits-touch c k e = ground arith
