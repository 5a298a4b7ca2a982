-- ===== src/Arc/Coherent.antt =====
-- arc.h: the three containers of the cache agree.
use kyzddfer.Base.{
  ℕ, ◌+◌, ◌≡◌, ◌≢◌, refl, ap, true, false, Option, none, some, if◌then◌else◌, Bool-cases, inl, inr,
  length, count, erase, arith, ◌==◌, count-erase_self, count-erase_ne, length-erase, ℕ_discrete,
}
use kyzddfer.Base.Assoc.{
  remove, IsMap, remove-IsMap, lookup-remove_self, lookup-remove_ne, length-remove,
}
use kyzddfer.Base.Text.{Text, text_dec}
use kyzddfer.Base.Order.{pair_dec, IsSorted, erase-IsSorted}
use kyzddfer.Arc.{CacheEntry, ArcState, find, remove_entry}

pub pair_ne : (n m : ℕ) (j k : Text) → j ≢ k → ◌≢◌ {A = ℕ × Text} (n, j) (m, k)
pair_ne n m j k p q = p (ap (λ (r : ℕ × Text). r.1) q)

module _ {V : Type 0} where
  -- How often the key of an entry stands in `lru_keys`, and with a count in `lfu_keys`.
  abbrev pub lru_share : Option (CacheEntry V) → ℕ
  lru_share none = 0
  lru_share (some e) = if e.is_in_lfu then 0 else 1

  abbrev pub lfu_share : ℕ → Option (CacheEntry V) → ℕ
  lfu_share n none = 0
  lfu_share n (some e) = if e.is_in_lfu then (if n == e.use_count then 1 else 0) else 0

  -- The iterators of an entry point to the entry's own nodes.
  abbrev pub Linked : Text → Option (CacheEntry V) → Type 0
  Linked k none = Unit
  Linked k (some e) =
      ((e.is_in_lfu ≡ true) → (e.lfu_it ≡ (e.use_count, k)))
      × ((e.is_in_lfu ≡ false) → (e.lru_it ≡ k))

  pub record IsCoherent (c : ArcState V) : Type 0 where
    pub distinct : IsMap text_dec c.cache
    pub sorted : IsSorted c.lfu_keys
    pub sizes : length c.cache ≡ length c.lru_keys + length c.lfu_keys
    pub recency : (k : Text) → count text_dec k c.lru_keys ≡ lru_share (find k c)
    pub frequency : (n : ℕ) (k : Text) → count pair_dec (n, k) c.lfu_keys ≡ lfu_share n (find k c)
    pub linked : (k : Text) → Linked k (find k c)

  -- A step that changes one key: all else stays, and the containers agree at the key.
  pub record Changes (k : Text) (c c' : ArcState V) : Type 0 where
    pub find_ne : (j : Text) → j ≢ k → find j c' ≡ find j c
    pub lru_ne : (j : Text) → j ≢ k → count text_dec j c'.lru_keys ≡ count text_dec j c.lru_keys
    pub lfu_ne :
        (n : ℕ) (j : Text)
        → j ≢ k
        → count pair_dec (n, j) c'.lfu_keys ≡ count pair_dec (n, j) c.lfu_keys
    pub lru_self : count text_dec k c'.lru_keys ≡ lru_share (find k c')
    pub lfu_self : (n : ℕ) → count pair_dec (n, k) c'.lfu_keys ≡ lfu_share n (find k c')
    pub linked_self : Linked k (find k c')

  pub Changes-IsCoherent :
      (k : Text) (c c' : ArcState V)
      → IsCoherent c
      → Changes k c c'
      → IsMap text_dec c'.cache
      → IsSorted c'.lfu_keys
      → length c'.cache ≡ length c'.lru_keys + length c'.lfu_keys
      → IsCoherent c'
  Changes-IsCoherent k c c' h ch d s z = record {
    distinct = d;
    sorted = s;
    sizes = z;
    recency = λ j. elim (text_dec j k) [
      | yes p ↦ rw p ch.lru_self
      | no p ↦ rw (ch.lru_ne j p, ch.find_ne j p) (h.recency j)
    ];
    frequency = λ n j. elim (text_dec j k) [
      | yes p ↦ rw p (ch.lfu_self n)
      | no p ↦ rw (ch.lfu_ne n j p, ch.find_ne j p) (h.frequency n j)
    ];
    linked = λ j. elim (text_dec j k) [
      | yes p ↦ rw p ch.linked_self
      | no p ↦ rw (ch.find_ne j p) (h.linked j)
    ];
  }

  module _ (c : ArcState V) (k : Text) (e : CacheEntry V) (h : IsCoherent c)
      (found : find k c ≡ some e) where
    -- The nodes of an entry that is there.
    pub lru_node : e.is_in_lfu ≡ false → (e.lru_it ≡ k) × (count text_dec k c.lru_keys ≡ 1)
    lru_node b = ground (arith, h.linked k, h.recency k)

    pub lfu_node :
        e.is_in_lfu ≡ true
        → (e.lfu_it ≡ (e.use_count, k)) × (count pair_dec (e.use_count, k) c.lfu_keys ≡ 1)
    lfu_node b = ground (arith, h.linked k, h.frequency e.use_count k)

    pub length-remove_found : length (remove text_dec k c.cache) + 1 ≡ length c.cache
    length-remove_found = length-remove text_dec k c.cache e h.distinct found

    -- The frequency nodes of the key, once the entry's own node is erased.
    pub count-erase_lfu :
        e.is_in_lfu ≡ true
        → (n : ℕ) → count pair_dec (n, k) (erase pair_dec (e.use_count, k) c.lfu_keys) ≡ 0
    count-erase_lfu b n = elim (ℕ_discrete n e.use_count) [
      | yes p ↦ rw p (
          omega (
            arith,
            count-erase_self pair_dec (e.use_count, k) c.lfu_keys (omega (arith, (lfu_node b).1)),
            (lfu_node b).1,
          ))
      | no p ↦
          rw
            (count-erase_ne pair_dec (e.use_count, k) (n, k) c.lfu_keys
              (λ q. p (ap (λ (r : ℕ × Text). r.0) q)))
            (ground (arith, h.frequency n k))
    ]

    pub count-erase_lru : e.is_in_lfu ≡ false → count text_dec k (erase text_dec k c.lru_keys) ≡ 0
    count-erase_lru b = omega (
      arith,
      count-erase_self text_dec k c.lru_keys (omega (arith, (lru_node b).1)),
      (lru_node b).1,
    )

    remove_entry-Changes : Changes k c (remove_entry c k e)
    unfolding remove_entry
    remove_entry-Changes = elim (Bool-cases e.is_in_lfu) [
      | inl b ↦
          rw (b, remove_entry, (lfu_node b).0)
            (record {
              find_ne = λ j p. lookup-remove_ne text_dec k j c.cache p;
              lru_ne = λ j p. refl;
              lfu_ne = λ n j p.
                  count-erase_ne pair_dec (e.use_count, k) (n, j) c.lfu_keys
                    (pair_ne n e.use_count j k p);
              lru_self = rw (lookup-remove_self text_dec k c.cache) (ground (arith, h.recency k));
              lfu_self = λ n. rw (lookup-remove_self text_dec k c.cache) (count-erase_lfu b n);
              linked_self = rw (lookup-remove_self text_dec k c.cache) tt;
            })
      | inr b ↦
          rw (b, remove_entry, (lru_node b).0)
            (record {
              find_ne = λ j p. lookup-remove_ne text_dec k j c.cache p;
              lru_ne = λ j p. count-erase_ne text_dec k j c.lru_keys p;
              lfu_ne = λ n j p. refl;
              lru_self = rw (lookup-remove_self text_dec k c.cache) (count-erase_lru b);
              lfu_self =
                  λ n. rw (lookup-remove_self text_dec k c.cache) (ground (arith, h.frequency n k));
              linked_self = rw (lookup-remove_self text_dec k c.cache) tt;
            })
    ]

    -- One entry less, in the map and in one of the orders.
    pub length-remove_entry : length (remove_entry c k e).cache + 1 ≡ length c.cache
    unfolding remove_entry
    length-remove_entry = ground (arith, length-remove_found)

    remove_entry_sizes :
        length (remove_entry c k e).cache
        ≡ length (remove_entry c k e).lru_keys + length (remove_entry c k e).lfu_keys
    unfolding remove_entry
    remove_entry_sizes = elim (Bool-cases e.is_in_lfu) [
      | inl b ↦
          rw (b, remove_entry, (lfu_node b).0)
            (omega (
              arith,
              length-remove_found,
              h.sizes,
              length-erase pair_dec (e.use_count, k) c.lfu_keys (omega (arith, (lfu_node b).1)),
            ))
      | inr b ↦
          rw (b, remove_entry, (lru_node b).0)
            (omega (
              arith,
              length-remove_found,
              h.sizes,
              length-erase text_dec k c.lru_keys (omega (arith, (lru_node b).1)),
            ))
    ]

    remove_entry-IsSorted : IsSorted (remove_entry c k e).lfu_keys
    unfolding remove_entry
    remove_entry-IsSorted = ground (arith, erase-IsSorted e.lfu_it c.lfu_keys h.sorted, h.sorted)

    remove_entry-IsMap : IsMap text_dec (remove_entry c k e).cache
    unfolding remove_entry
    remove_entry-IsMap = ground (arith, remove-IsMap text_dec k c.cache h.distinct)

    -- Removing an entry keeps the containers in step.
    pub remove_entry-IsCoherent : IsCoherent (remove_entry c k e)
    remove_entry-IsCoherent =
        Changes-IsCoherent k c (remove_entry c k e) h remove_entry-Changes remove_entry-IsMap
          remove_entry-IsSorted remove_entry_sizes

    pub find-remove_entry_self : find k (remove_entry c k e) ≡ none
    unfolding remove_entry
    find-remove_entry_self = ground (arith, lookup-remove_self text_dec k c.cache)

    pub find-remove_entry_ne : (j : Text) → j ≢ k → find j (remove_entry c k e) ≡ find j c
    find-remove_entry_ne = remove_entry-Changes.find_ne
