-- ===== src/Layout/Choice.antt =====
-- libkycore/rack.h and rack.cpp: `Layout`, and the choice of one by `Rack::findBestLayout`.
use kyzddfer.Base.{
  ℕ, ◌+◌, ◌%◌, Bool, true, false, ◌&&◌, ◌||◌, Option, none, some, List, [], ◌∷◌, ltb, if◌then◌else◌,
}
use kyzddfer.Base.Text.{Text, text_dec}
use kyzddfer.Parts.{Flags, contains}
use kyzddfer.Layout.{Attrs, LayoutNode, is_text}

-- `pri`, an `int8_t`, is its byte, below 256. A model is the name of its table, by which the registry
-- has one model.
pub record Layout : Type 0 where
  pub name : Text
  pub qmodel : Option Text
  pub pri : ℕ
  pub media : Flags
  pub usage : Flags
  pub flags : Flags
  pub attrs : Attrs
  pub root_node : Option LayoutNode

-- The byte of an `int8_t` in the order of the numbers that it stands for, from -128, which is 0.
abbrev pub signed_rank : ℕ → ℕ
signed_rank b = (b + 128) % 256

abbrev pub is_empty : Text → Bool
is_empty [] = true
is_empty (c ∷ s) = false

abbrev pub no_flags : Flags → Bool
no_flags [] = true
no_flags (f ∷ fs) = false

-- The four tests of the loop, each of which may `continue`.
abbrev pub name_fits : Text → Layout → Bool
name_fits name l = is_empty name || (is_empty l.name || is_text l.name name)

abbrev pub model_fits : Option Text → Option Text → Bool
model_fits none m = true
model_fits (some q) none = true
model_fits (some q) (some m) = is_text m q

abbrev pub flag_fits : Text → Flags → Bool
flag_fits f fs = is_empty f || (no_flags fs || contains f fs)

-- What a layout is asked for.
pub record Wanted : Type 0 where
  pub name : Text
  pub qmodel : Option Text
  pub media : Text
  pub usage : Text

unfoldable pub fits : Wanted → Layout → Bool
unfolding text_dec contains
fits w l =
    name_fits w.name l
    && (model_fits w.qmodel l.qmodel && (flag_fits w.media l.media && flag_fits w.usage l.usage))

-- The loop, with `best_layout` and the rank of `max_pri`.
unfoldable pub best_loop : Wanted → List Layout → Option Layout → ℕ → Option Layout
best_loop w [] best max_pri = best
best_loop w (l ∷ ls) best max_pri =
    let takes = best_loop w ls (some l) (signed_rank l.pri) in
    let skips = best_loop w ls best max_pri in
    if fits w l then (if ltb max_pri (signed_rank l.pri) then takes else skips) else skips

-- `numeric_limits<int8_t>::min()` has the rank 0.
unfoldable pub find_best_layout : List Layout → Wanted → Option Layout
find_best_layout ls w = best_loop w ls none 0
