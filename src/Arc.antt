-- ===== src/Arc.antt =====
-- libkycore/arc.h: `AdaptiveReplacementCache`, the prepared-statement cache of a connection.
-- The caller's mutex makes each public method one step, so the methods are functions of the state.
pub mod Coherent
pub mod Evict
pub mod Limits
pub mod Touch
pub mod Methods
pub mod Reads
pub mod Kept
mod Tests
use kyzddfer.Base.{
  ℕ, zero, suc, ◌+◌, ◌-◌, ◌*◌, ◌/◌, min, max, Bool, true, false, ◌&&◌, not, Option, none, some,
  List, [], ◌∷◌, ltb, leb, if◌then◌else◌, length, erase, ◌==◌,
}
use kyzddfer.Base.Assoc.{lookup, remove, insert}
use kyzddfer.Base.Text.{Text, text_dec}
use kyzddfer.Base.Order.{pair_dec, set_insert}

-- `CacheEntry`. An iterator is named by what its node holds, which stands once in its container:
-- `lru_it` by the key, `lfu_it` by the pair that was inserted.
pub record CacheEntry (V : Type 0) : Type 0 where
  pub value : V
  pub use_count : ℕ
  pub is_in_lfu : Bool
  pub lru_it : Text
  pub lfu_it : ℕ × Text

-- The head of `lru_keys` is the front of the list, the most recent key.
pub record ArcState (V : Type 0) : Type 0 where
  pub cache : List (Text × CacheEntry V)
  pub lru_keys : List Text
  pub lfu_keys : List (ℕ × Text)
  pub soft_limit : ℕ
  pub hard_limit : ℕ
  pub lfu_threshold : ℕ
  pub min_limit : ℕ
  pub total_accesses : ℕ
  pub hits : ℕ

-- `list::back`, of a list that may be empty.
unfoldable pub back? : List Text → Option Text
back? [] = none
back? (x ∷ []) = some x
back? (x ∷ y ∷ s) = back? (y ∷ s)

module _ {V : Type 0} where
  unfoldable pub init : ℕ → ArcState V
  init hard = record {
    cache = [];
    lru_keys = [];
    lfu_keys = [];
    soft_limit = max 1 (hard / 10);
    hard_limit = hard;
    lfu_threshold = max 2 (hard / 20);
    min_limit = max 1 (hard / 10);
    total_accesses = 0;
    hits = 0;
  }

  abbrev pub find : Text → ArcState V → Option (CacheEntry V)
  find k c = lookup text_dec k c.cache

  -- The iterator argument is the key with its entry.
  unfoldable pub remove_entry : ArcState V → Text → CacheEntry V → ArcState V
  remove_entry c k e =
      if e.is_in_lfu
      then record c {
        lfu_keys = erase pair_dec e.lfu_it c.lfu_keys;
        cache = remove text_dec k c.cache;
      }
      else record c {
        lru_keys = erase text_dec e.lru_it c.lru_keys;
        cache = remove text_dec k c.cache;
      }

  -- `find` and, unless it is `end()`, `remove_entry`.
  unfoldable pub remove_found : ArcState V → Text → ArcState V
  remove_found c k = elim (find k c) [ none ↦ c | some e ↦ remove_entry c k e ]

  unfoldable pub evict_from_lru : ArcState V → ArcState V
  evict_from_lru c = elim (back? c.lru_keys) [ none ↦ c | some k ↦ remove_found c k ]

  unfoldable pub evict_from_lfu : ArcState V → ArcState V
  evict_from_lfu c = elim c.lfu_keys [ [] ↦ c | p ∷ _ ↦ remove_found c p.1 ]

  -- `lfu_keys.size() > lru_keys.size()` makes the code's `!lfu_keys.empty()` true.
  unfoldable pub evict : ArcState V → ArcState V
  evict c =
      if ltb (length c.lru_keys) (length c.lfu_keys) && not (length c.lfu_keys == 0)
      then evict_from_lfu c
      else evict_from_lru c

  -- The loop of `trim`; `none` when the fuel runs out.
  unfoldable pub trim_loop : ℕ → ArcState V → Option (ArcState V)
  trim_loop zero c = none
  trim_loop (suc fuel) c =
      let rest = trim_loop fuel (evict c) in
      if ltb c.soft_limit (length c.cache) then rest else some c

  unfoldable pub trim : ArcState V → Option (ArcState V)
  trim c = trim_loop (suc (length c.cache)) c

  -- `std::max(1, hardLimit / 10)`, the step of the soft limit.
  abbrev pub limit_step : ArcState V → ℕ
  limit_step c = max 1 (c.hard_limit / 10)

  -- The branches of `adjust_size`. The hit rate is the quotient of two `int`s, which double
  -- precision tells from 0.50 and from 0.90 exactly as the whole numbers do.
  unfoldable pub new_limit : ArcState V → ℕ
  new_limit c =
      if ltb (2 * c.hits) c.total_accesses && ltb c.soft_limit c.hard_limit
      then min (c.soft_limit + limit_step c) c.hard_limit
      else if ltb (9 * c.total_accesses) (10 * c.hits) && ltb c.min_limit c.soft_limit
      then max (c.soft_limit - limit_step c) c.min_limit
      else c.soft_limit

  -- `decreased` is set in the second branch alone; in the first the limit does not fall.
  unfoldable pub adjust_size : ArcState V → Option (ArcState V)
  adjust_size c =
      let soft = new_limit c in
      let c' = record c { soft_limit = soft; hits = 0; total_accesses = 0 } in
      if ltb soft c.soft_limit && ltb soft (length c.cache) then trim c' else some c'

  unfoldable pub move_to_lfu : ArcState V → Text → CacheEntry V → ArcState V
  move_to_lfu c k e = record c {
    lru_keys = erase text_dec e.lru_it c.lru_keys;
    lfu_keys = set_insert (e.use_count, k) c.lfu_keys;
    cache = insert text_dec k (record e { lfu_it = (e.use_count, k); is_in_lfu = true }) c.cache;
  }

  -- `put`, up to the insertion: the old entry of the key goes, then one more if the cache is full.
  unfoldable pub make_room : ArcState V → Text → ArcState V
  make_room c k =
      let c' = remove_found c k in if leb c'.soft_limit (length c'.cache) then evict c' else c'

  abbrev pub fresh_entry : Text → V → CacheEntry V
  fresh_entry k v = record {
    value = v;
    use_count = 1;
    is_in_lfu = false;
    lru_it = k;
    lfu_it = (0, []);
  }

  -- `emplace` after `make_room`, which leaves no entry of the key.
  unfoldable pub put : ArcState V → Text → V → ArcState V
  put c k v =
      let c' = make_room c k in
      record c' { lru_keys = k ∷ c'.lru_keys; cache = insert text_dec k (fresh_entry k v) c'.cache }

  -- `get`, up to the lookup: the access is counted, and the size adjusted when it is due.
  unfoldable pub tick : ArcState V → Option (ArcState V)
  tick c =
      let c' = record c { total_accesses = c.total_accesses + 1 } in
      if leb (c'.soft_limit * 10) c'.total_accesses && ltb 0 (c'.soft_limit * 10)
      then adjust_size c'
      else some c'

  -- The branches of `get` after a hit. A frequent entry gets a node with its new count.
  unfoldable pub touch_frequent : ArcState V → Text → CacheEntry V → ArcState V
  touch_frequent c k e =
      let used = e.use_count + 1 in
      record c {
        hits = c.hits + 1;
        lfu_keys = set_insert (used, k) (erase pair_dec e.lfu_it c.lfu_keys);
        cache = insert text_dec k (record e { use_count = used; lfu_it = (used, k) }) c.cache;
      }

  -- A recent entry goes to the front.
  unfoldable pub used_entry : Text → CacheEntry V → CacheEntry V
  used_entry k e = record e { use_count = e.use_count + 1; lru_it = k }

  unfoldable pub touch_recent : ArcState V → Text → CacheEntry V → ArcState V
  touch_recent c k e = record c {
    hits = c.hits + 1;
    lru_keys = k ∷ erase text_dec e.lru_it c.lru_keys;
    cache = insert text_dec k (used_entry k e) c.cache;
  }

  unfoldable pub touch : ArcState V → Text → CacheEntry V → ArcState V
  touch c k e =
      if e.is_in_lfu
      then touch_frequent c k e
      else if ltb c.lfu_threshold (e.use_count + 1)
      then move_to_lfu (touch_recent c k e) k (used_entry k e)
      else touch_recent c k e

  -- The result is the value that the returned pointer points to.
  unfoldable pub get : ArcState V → Text → Option (ArcState V × Option V)
  get c k = elim (tick c) [
    | none ↦ none
    | some c' ↦ elim (find k c') [
      | none ↦ some (c', none)
      | some e ↦ some (touch c' k e, some e.value)
    ]
  ]
