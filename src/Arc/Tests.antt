-- ===== src/Arc/Tests.antt =====
-- Runs of arc.h, and its theorems at concrete states.
use kyzddfer.Base.{
  ℕ, ◌+◌, ◌*◌, ◌<◌, ◌≡◌, ◌≢◌, refl, ◌⊎◌, Option, none, some, [], ◌∷◌, arith, length, count, erase,
  true, false, ℕ_discrete,
}
use kyzddfer.Base.Assoc.{lookup, insert, remove}
use kyzddfer.Base.Text.{Text, codes, text_dec}
use kyzddfer.Base.Order.{pair_dec, set_insert, text_lt}
use kyzddfer.Arc.{
  CacheEntry, ArcState, init, back?, remove_entry, remove_found, evict_from_lru, evict_from_lfu,
  evict, trim_loop, trim, new_limit, adjust_size, move_to_lfu, make_room, put, tick, touch_frequent,
  used_entry, touch_recent, touch, get,
}
use kyzddfer.Arc.Evict.{IsVictim, evict-IsVictim}
use kyzddfer.Arc.Limits.{IsValid, init-IsValid}
use kyzddfer.Arc.Methods.{put-IsValid, get-IsValid}
use kyzddfer.Arc.Reads.{view, Forgets, put_reads}
use kyzddfer.Arc.Kept.{lowered, is_trimming, get_keeps}

program : Unit {0}
unfolding lookup insert remove count erase text_dec pair_dec set_insert text_lt init back?
    remove_entry remove_found evict_from_lru evict_from_lfu evict trim_loop trim new_limit
    adjust_size move_to_lfu make_room put tick touch_frequent used_entry touch_recent touch get
    ℕ_discrete
program = tt

abbrev a : Text
a = codes "a"

abbrev b : Text
b = codes "b"

-- A cache for two statements.
abbrev empty : ArcState ℕ
empty = init 20

abbrev two : ArcState ℕ
two = put (put empty a 1) b 2

-- The least recent entry goes.
third : (view (put two (codes "c") 3) a ≡ none) × (view (put two (codes "c") 3) b ≡ some 2)
unfolding program
third = (refl, refl)

two_keys : two.lru_keys ≡ b ∷ a ∷ []
unfolding program
two_keys = refl

two-IsValid : IsValid two
two-IsValid = put-IsValid (put empty a 1) b 2 (put-IsValid empty a 1 (init-IsValid 20))

two_size : length two.cache ≡ 2
unfolding program
two_size = refl

evict-IsVictim_example :
    (k : Text) × (e : CacheEntry ℕ) × IsVictim two k e × (evict two ≡ remove_entry two k e)
evict-IsVictim_example = evict-IsVictim two two-IsValid.coherent (omega (arith, two_size))

-- Both entries, over a limit of one.
abbrev tight : ArcState ℕ
tight = record two { soft_limit = 1; hits = 0; total_accesses = 0 }

put-IsValid_example : IsValid (put two (codes "c") 3)
put-IsValid_example = put-IsValid two (codes "c") 3 two-IsValid

get-IsValid_example : (c' : ArcState ℕ) × (r : Option ℕ) × (get two a ≡ some (c', r)) × IsValid c'
get-IsValid_example = get-IsValid two a two-IsValid

put_reads_example :
    (view (put two (codes "c") 3) (codes "c") ≡ some 3)
    × ((j : Text)
        → j ≢ codes "c"
        → (view (put two (codes "c") 3) j ≡ view two j) ⊎ (view (put two (codes "c") 3) j ≡ none))
put_reads_example = put_reads two (codes "c") 3

abbrev after_a : ArcState ℕ
after_a = record {
  cache =
      (a, record { value = 1; use_count = 2; is_in_lfu = false; lru_it = a; lfu_it = (0, []) })
      ∷ (b, record { value = 2; use_count = 1; is_in_lfu = false; lru_it = b; lfu_it = (0, []) })
      ∷ [];
  lru_keys = a ∷ b ∷ [];
  lfu_keys = [];
  soft_limit = 2;
  hard_limit = 20;
  lfu_threshold = 2;
  min_limit = 2;
  total_accesses = 1;
  hits = 1;
}

abbrev one : Option ℕ
one = some 1

get-a : get two a ≡ some (after_a, one)
unfolding program
get-a = refl

get_keeps_example :
    (one ≡ view after_a a)
    × (((is_trimming two ≡ true) × (length after_a.cache ≡ lowered two) × Forgets two after_a)
        ⊎ ((is_trimming two ≡ false)
            × (one ≡ view two a)
            × ((j : Text) → view after_a j ≡ view two j)))
get_keeps_example = get_keeps two a two-IsValid get-a

two_limits : two.total_accesses + 1 < two.soft_limit * 10
unfolding program
two_limits = omega arith
