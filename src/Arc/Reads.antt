-- ===== src/Arc/Reads.antt =====
-- arc.h against its contract: a map that may forget entries, and never makes one up.
use kyzddfer.Base.{
  ℕ, zero, suc, ◌+◌, ◌*◌, ◌<◌, ◌≡◌, ◌≢◌, refl, sym, ◌∙◌, ap, ◌⊎◌, inl, inr, ◌&&◌, Option, none,
  some, List, [], ◌∷◌, if_cases, Bool-cases, ltb, leb, Option-cases, length, arith,
}
use kyzddfer.Base.Assoc.{
  remove, insert, lookup-remove_self, lookup-remove_ne, lookup-insert_self, lookup-insert_ne,
}
use kyzddfer.Base.Text.{Text, text_dec}
use kyzddfer.Arc.{
  CacheEntry, ArcState, find, back?, remove_entry, remove_found, evict_from_lru, evict_from_lfu,
  evict, trim_loop, trim, new_limit, adjust_size, move_to_lfu, make_room, fresh_entry, put, tick,
  touch_frequent, used_entry, touch_recent, touch, get,
}

module _ {V : Type 0} where
  abbrev pub value_of : Option (CacheEntry V) → Option V
  value_of none = none
  value_of (some e) = some e.value

  -- The abstract map.
  abbrev pub view : ArcState V → Text → Option V
  view c k = value_of (find k c)

  -- Every entry is still there, or is forgotten.
  abbrev pub Forgets : ArcState V → ArcState V → Type 0
  Forgets c c' = (j : Text) → (view c' j ≡ view c j) ⊎ (view c' j ≡ none)

  Forgets-trans : (a b c : ArcState V) → Forgets a b → Forgets b c → Forgets a c
  Forgets-trans a b c h k j = ground (arith, h j, k j)

  remove-Forgets :
      (c c' : ArcState V) (k : Text) → c'.cache ≡ remove text_dec k c.cache → Forgets c c'
  remove-Forgets c c' k e j = elim (text_dec j k) [
    | yes p ↦ inr (rw (e, p) (ap value_of (lookup-remove_self text_dec k c.cache)))
    | no p ↦ inl (rw e (ap value_of (lookup-remove_ne text_dec k j c.cache p)))
  ]

  remove_found-Forgets : (c : ArcState V) (k : Text) → Forgets c (remove_found c k)
  unfolding remove_found remove_entry
  remove_found-Forgets c k = elim (Option-cases (find k c)) [
    | inl e ↦ rw (e, remove_found) (λ j. inl refl)
    | inr (e, found) ↦
        rw (found, remove_found) (remove-Forgets c (remove_entry c k e) k (ground arith))
  ]

  evict_from_lru-Forgets : (c : ArcState V) → Forgets c (evict_from_lru c)
  unfolding evict_from_lru
  evict_from_lru-Forgets c = elim (Option-cases (back? c.lru_keys)) [
    | inl e ↦ rw (e, evict_from_lru) (λ j. inl refl)
    | inr (k, e) ↦ rw (e, evict_from_lru) (remove_found-Forgets c k)
  ]

  evict_from_lfu_by :
      (c : ArcState V) (s : List (ℕ × Text)) → c.lfu_keys ≡ s → Forgets c (evict_from_lfu c)
  unfolding evict_from_lfu
  evict_from_lfu_by c [] e = rw (e, evict_from_lfu) (λ j. inl refl)
  evict_from_lfu_by c (p ∷ s) e = rw (e, evict_from_lfu) (remove_found-Forgets c p.1)

  evict-Forgets : (c : ArcState V) → Forgets c (evict c)
  unfolding evict
  evict-Forgets c =
      if_cases (Forgets c) _ _ _ (λ _. evict_from_lfu_by c c.lfu_keys refl)
        (λ _. evict_from_lru-Forgets c)

  trim_loop-Forgets : (fuel : ℕ) (c c' : ArcState V) → trim_loop fuel c ≡ some c' → Forgets c c'
  unfolding trim_loop
  trim_loop-Forgets zero c c' e = λ j. cc
  trim_loop-Forgets (suc fuel) c c' e = elim (Bool-cases (ltb c.soft_limit (length c.cache))) [
    | inl over ↦
        Forgets-trans c (evict c) c' (evict-Forgets c)
          (trim_loop-Forgets fuel (evict c) c' (rw over at e))
    | inr under ↦ λ j. inl (ground arith)
  ]

  adjust_size-Forgets : (c c' : ArcState V) → adjust_size c ≡ some c' → Forgets c c'
  unfolding adjust_size trim
  adjust_size-Forgets c c' e =
      elim (Bool-cases (ltb (new_limit c) c.soft_limit && ltb (new_limit c) (length c.cache))) [
        | inl fall ↦
            trim_loop-Forgets (suc (length c.cache))
              (record c { soft_limit = new_limit c; hits = 0; total_accesses = 0 }) c'
              (rw fall at e)
        | inr stay ↦ λ j. inl (ground arith)
      ]

  tick-Forgets : (c c' : ArcState V) → tick c ≡ some c' → Forgets c c'
  unfolding tick
  tick-Forgets c c' e =
      elim (Bool-cases
        (leb (c.soft_limit * 10) (c.total_accesses + 1) && ltb 0 (c.soft_limit * 10))) [
          | inl due ↦
              adjust_size-Forgets (record c { total_accesses = c.total_accesses + 1 }) c'
                (rw due at e)
          | inr wait ↦ λ j. inl (ground arith)
        ]

  insert-view :
      (c c' : ArcState V) (k : Text) (e e' : CacheEntry V)
      → find k c ≡ some e
      → e'.value ≡ e.value
      → c'.cache ≡ insert text_dec k e' c.cache
      → (j : Text) → view c' j ≡ view c j
  insert-view c c' k e e' found same q j = elim (text_dec j k) [
    | yes p ↦ rw (q, p, lookup-insert_self text_dec k e' c.cache, found, same)
    | no p ↦ rw (q, lookup-insert_ne text_dec k j e' c.cache p)
  ]

  view-touch_recent :
      (c : ArcState V) (k : Text) (e : CacheEntry V)
      → find k c ≡ some e
      → (j : Text) → view (touch_recent c k e) j ≡ view c j
  unfolding touch_recent used_entry
  view-touch_recent c k e found =
      insert-view c (touch_recent c k e) k e (used_entry k e) found refl refl

  view-move_to_lfu :
      (c : ArcState V) (k : Text) (e : CacheEntry V)
      → find k c ≡ some e
      → (j : Text) → view (move_to_lfu c k e) j ≡ view c j
  unfolding move_to_lfu
  view-move_to_lfu c k e found = insert-view c (move_to_lfu c k e) k e _ found refl refl

  find-touch_recent :
      (c : ArcState V) (k : Text) (e : CacheEntry V)
      → find k (touch_recent c k e) ≡ some (used_entry k e)
  unfolding touch_recent
  find-touch_recent c k e = lookup-insert_self text_dec k (used_entry k e) c.cache

  pub view-touch :
      (c : ArcState V) (k : Text) (e : CacheEntry V)
      → find k c ≡ some e
      → (j : Text) → view (touch c k e) j ≡ view c j
  unfolding touch touch_frequent
  view-touch c k e found =
      let P = λ (d : ArcState V). (j : Text) → view d j ≡ view c j in
      if_cases P e.is_in_lfu _ _ (λ _. insert-view c (touch_frequent c k e) k e _ found refl refl)
        λ _.
          if_cases P (ltb c.lfu_threshold (e.use_count + 1)) _ _
            (λ _ j.
              view-move_to_lfu (touch_recent c k e) k (used_entry k e) (find-touch_recent c k e) j
              ∙ view-touch_recent c k e found j)
            (λ _. view-touch_recent c k e found)

  pub make_room-Forgets : (c : ArcState V) (k : Text) → Forgets c (make_room c k)
  unfolding make_room
  make_room-Forgets c k =
      let cleared = remove_found-Forgets c k in
      let d = remove_found c k in
      if_cases (Forgets c) (leb d.soft_limit (length d.cache)) _ _
        (λ _. Forgets-trans c d (evict d) cleared (evict-Forgets d)) (λ _. cleared)

  pub view-put_self : (c : ArcState V) (k : Text) (v : V) → view (put c k v) k ≡ some v
  unfolding put
  view-put_self c k v =
      ap value_of (lookup-insert_self text_dec k (fresh_entry k v) (make_room c k).cache)

  pub view-put_ne :
      (c : ArcState V) (k : Text) (v : V) (j : Text)
      → j ≢ k
      → view (put c k v) j ≡ view (make_room c k) j
  unfolding put
  view-put_ne c k v j p =
      ap value_of (lookup-insert_ne text_dec k j (fresh_entry k v) (make_room c k).cache p)

  -- A stored value is there at once; of the other keys, some may be forgotten, and none changes.
  pub put_reads :
      (c : ArcState V) (k : Text) (v : V)
      → (view (put c k v) k ≡ some v)
        × ((j : Text) → j ≢ k → (view (put c k v) j ≡ view c j) ⊎ (view (put c k v) j ≡ none))
  put_reads c k v =
      (view-put_self c k v, λ j p. ground (arith, make_room-Forgets c k j, view-put_ne c k v j p))

  -- What a lookup returns is what the map then holds, which is what it held or nothing; no lookup
  -- changes the value of any key.
  pub get_reads :
      (c : ArcState V) (k : Text) {c' : ArcState V} {r : Option V}
      → get c k ≡ some (c', r)
      → (r ≡ view c' k) × ((r ≡ view c k) ⊎ (r ≡ none)) × Forgets c c'
  unfolding get
  get_reads c k {c'} {r} e = elim (Option-cases (tick c)) [
    | inl t ↦ absurd (ground arith)
    | inr (d, t) ↦ elim (Option-cases (find k d)) [
      | inl miss ↦
          let q : ◌≡◌ {A = Option (ArcState V × Option V)} (some (d, none)) (some (c', r)) =
            rw (t, get, miss) at e in
          let same : d ≡ c' = cc in
          let nothing : none ≡ r = cc in
          rw (← same, ← nothing) (ap value_of (sym miss), inr refl, tick-Forgets c d t)
      | inr (x, found) ↦
          let q : ◌≡◌ {A = Option (ArcState V × Option V)} (some (touch d k x, some x.value))
              (some (c', r)) =
            rw (t, get, found) at e in
          let same : touch d k x ≡ c' = cc in
          let hit : some x.value ≡ r = cc in
          let kept = view-touch d k x found in
          rw (← same, ← hit)
            (
              sym (kept k ∙ ap value_of found),
              ground (arith, tick-Forgets c d t k),
              λ j. ground (arith, tick-Forgets c d t j, kept j),
            )
    ]
  ]

  -- Until the adjustment is due, a lookup finds exactly what the map holds, and forgets nothing.
  pub get_between_adjustments :
      (c : ArcState V) (k : Text)
      → c.total_accesses + 1 < c.soft_limit * 10
      → (c' : ArcState V) × (get c k ≡ some (c', view c k)) × ((j : Text) → view c' j ≡ view c j)
  unfolding get tick
  get_between_adjustments c k early =
      let d : ArcState V = record c { total_accesses = c.total_accesses + 1 } in
      let t : tick c ≡ some d = ground arith in
      elim (Option-cases (find k c)) [
        | inl miss ↦ (d, rw (t, get, miss), λ j. refl)
        | inr (x, found) ↦ (touch d k x, rw (t, get, found), view-touch d k x found)
      ]
