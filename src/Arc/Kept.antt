-- ===== src/Arc/Kept.antt =====
-- arc.h: when a lookup may forget entries, and how many then are left.
use kyzddfer.Base.{
  ℕ, ◌+◌, ◌-◌, ◌*◌, ◌/◌, ◌≡◌, refl, ap, sym, ◌∙◌, ◌⊎◌, inl, inr, max, Bool, true, false, ◌&&◌,
  Option, some, none, ltb, leb, Bool-cases, Option-cases, length, arith,
}
use kyzddfer.Base.Assoc.{lookup}
use kyzddfer.Base.Text.{Text, text_dec}
use kyzddfer.Arc.{ArcState, find, new_limit, adjust_size, tick, touch, get}
use kyzddfer.Arc.Evict.{trim-IsTrimmed}
use kyzddfer.Arc.Limits.{IsValid, IsCoherent-counters, tick-IsValid}
use kyzddfer.Arc.Reads.{value_of, view, Forgets, get_reads, view-touch}
use kyzddfer.Arc.Touch.{length-touch}

module _ {V : Type 0} where
  -- The soft limit one step below, and not below the least one.
  abbrev pub lowered : ArcState V → ℕ
  lowered c = max (c.soft_limit - max 1 (c.hard_limit / 10)) c.min_limit

  -- The access is one at which the limit is adjusted, more than nine of ten accesses since the last
  -- adjustment were hits, the limit can fall, and there are more entries than it then allows.
  abbrev pub is_trimming : ArcState V → Bool
  is_trimming c =
      leb (c.soft_limit * 10) (c.total_accesses + 1)
      && ltb (9 * (c.total_accesses + 1)) (10 * c.hits)
      && ltb c.min_limit c.soft_limit
      && ltb (lowered c) (length c.cache)

  -- What the count of an access does to the entries.
  abbrev Ticks : ArcState V → ArcState V → Type 0
  Ticks c d =
      ((is_trimming c ≡ true) × (length d.cache ≡ lowered c))
      ⊎ ((is_trimming c ≡ false) × (d.cache ≡ c.cache))

  abbrev counted : ArcState V → ArcState V
  counted c = record c { total_accesses = c.total_accesses + 1 }

  -- The hit rate lets the limit fall.
  abbrev rate : ArcState V → Bool
  rate c = ltb (9 * c.total_accesses) (10 * c.hits) && ltb c.min_limit c.soft_limit

  new_limit-falls :
      (c : ArcState V)
      → ltb (new_limit c) c.soft_limit ≡ true
      → (new_limit c ≡ lowered c) × (rate c ≡ true)
  unfolding new_limit
  new_limit-falls c e =
      elim (Bool-cases (ltb (2 * c.hits) c.total_accesses && ltb c.soft_limit c.hard_limit)) [
        | inl a ↦ absurd (ground arith)
        | inr a ↦ elim (Bool-cases (rate c)) [
          | inl b ↦ ground arith
          | inr b ↦ absurd (ground arith)
        ]
      ]

  new_limit-rate :
      (c : ArcState V)
      → rate c ≡ true
      → (new_limit c ≡ lowered c) × (ltb (new_limit c) c.soft_limit ≡ true)
  unfolding new_limit
  new_limit-rate c e =
      elim (Bool-cases (ltb (2 * c.hits) c.total_accesses && ltb c.soft_limit c.hard_limit)) [
        | inl a ↦ absurd (ground arith)
        | inr a ↦ ground arith
      ]

  -- Whether the adjustment trims.
  abbrev shrinks : ArcState V → Bool
  shrinks c = ltb (new_limit c) c.soft_limit && ltb (new_limit c) (length c.cache)

  shrinks-rate : (c : ArcState V) → shrinks c ≡ (rate c && ltb (lowered c) (length c.cache))
  shrinks-rate c = elim (Bool-cases (rate c)) [
    | inl a ↦ let (b, d) = new_limit-rate c a in rw (a, d, b) refl
    | inr a ↦ elim (Bool-cases (ltb (new_limit c) c.soft_limit)) [
      | inl b ↦ let (d, e) = new_limit-falls c b in absurd (cc (a, e))
      | inr b ↦ rw (a, b) refl
    ]
  ]

  adjust_size-Ticks :
      (c d : ArcState V)
      → IsValid c
      → adjust_size c ≡ some d
      → ((shrinks c ≡ true) × (length d.cache ≡ new_limit c))
        ⊎ ((shrinks c ≡ false) × (d.cache ≡ c.cache))
  unfolding adjust_size
  adjust_size-Ticks c d h e = elim (Bool-cases (shrinks c)) [
    | inl fall ↦
        let low : ArcState V = record c {
          soft_limit = new_limit c;
          hits = 0;
          total_accesses = 0;
        } in
        let (d', q, t) = trim-IsTrimmed low (IsCoherent-counters c (new_limit c) 0 0 h.coherent) in
        let same : d' ≡ d = ground arith in
        inl (fall, ap (λ (x : ArcState V). length x.cache) (sym same) ∙ t.exact (ground arith))
    | inr stay ↦ inr (stay, ground arith)
  ]

  tick-Ticks : (c d : ArcState V) → IsValid c → tick c ≡ some d → Ticks c d
  unfolding tick
  tick-Ticks c d h e =
      elim (Bool-cases
        (leb (c.soft_limit * 10) (c.total_accesses + 1) && ltb 0 (c.soft_limit * 10))) [
          | inl due ↦
              let valid : IsValid (counted c) = record {
                coherent =
                    IsCoherent-counters c c.soft_limit c.hits (c.total_accesses + 1) h.coherent;
                within = h.within;
                positive = h.positive;
                floor = h.floor;
                ceiling = h.ceiling;
              } in
              let is = shrinks-rate (counted c) in
              elim (adjust_size-Ticks (counted c) d valid (rw due at e)) [
                | inl (fall, size) ↦
                    let low = new_limit-rate (counted c) (ground arith) in
                    inl (ground arith, size ∙ low.0)
                | inr (stay, same) ↦ inr (ground arith, same)
              ]
          | inr wait ↦ inr (ground arith, ground arith)
        ]

  -- Behind the count, a lookup moves at most the entry that it finds.
  get-ticked :
      (c d : ArcState V) (k : Text) {c' : ArcState V} {r : Option V}
      → IsValid d
      → tick c ≡ some d
      → get c k ≡ some (c', r)
      → (length c'.cache ≡ length d.cache) × ((j : Text) → view c' j ≡ view d j)
  unfolding get
  get-ticked c d k {c'} {r} h t e = elim (Option-cases (find k d)) [
    | inl miss ↦
        let q : ◌≡◌ {A = Option (ArcState V × Option V)} (some (d, none)) (some (c', r)) =
          rw (t, get, miss) at e in
        let same : d ≡ c' = cc in rw (← same) (refl, λ j. refl)
    | inr (x, found) ↦
        let q : ◌≡◌ {A = Option (ArcState V × Option V)} (some (touch d k x, some x.value))
            (some (c', r)) =
          rw (t, get, found) at e in
        let same : touch d k x ≡ c' = cc in
        rw (← same) (length-touch d k x h.coherent found, view-touch d k x found)
  ]

  -- Of a well-formed cache, a lookup answers what the map holds behind it, and forgets entries only at
  -- an access at which the limit is adjusted, more than nine of ten accesses were hits, the limit can
  -- fall, and there are more entries than it then allows: then exactly as many are left as it allows,
  -- each with its value. At any other access the answer is what the map held, and every key keeps its
  -- value.
  pub get_keeps :
      (c : ArcState V) (k : Text) {c' : ArcState V} {r : Option V}
      → IsValid c
      → get c k ≡ some (c', r)
      → (r ≡ view c' k)
        × (((is_trimming c ≡ true) × (length c'.cache ≡ lowered c) × Forgets c c')
            ⊎ ((is_trimming c ≡ false) × (r ≡ view c k) × ((j : Text) → view c' j ≡ view c j)))
  unfolding get
  get_keeps c k {c'} {r} h e =
      let (is, was, forgets) = get_reads c k e in
      let (d, ticked, valid) = tick-IsValid c h in
      let (size, views) = get-ticked c d k valid ticked e in
      elim (tick-Ticks c d h ticked) [
        | inl (trims, left) ↦ (is, inl (trims, size ∙ left, forgets))
        | inr (stays, same) ↦
            let kept : (j : Text) → view c' j ≡ view c j =
              λ j. views j ∙ ap (λ m. value_of (lookup text_dec j m)) same in
            (is, inr (stays, is ∙ kept k, kept))
      ]
