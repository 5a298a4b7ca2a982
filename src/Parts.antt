-- ===== src/Parts.antt =====
-- libkycore/rack.cpp: `svparts_t`, the parts of a dotted name, and libkycore/finalize.cpp:
-- `parse_flags_from_string`, which reads a list with commas.
pub mod RoundTrip
pub mod Flags
mod Tests
use kyzddfer.Base.{
  ℕ, Bool, true, false, Option, none, some, List, [], ◌∷◌, ◌++◌, ◌==◌, if◌then◌else◌, ite,
}
use kyzddfer.Base.Text.{Text, text_dec}

-- What stands in front of each separator, and behind the last one. `seg` is what the loop has passed
-- of the part that it is in.
unfoldable pub parts_from : ℕ → Text → Text → List Text
parts_from sep seg [] = seg ∷ []
parts_from sep seg (c ∷ s) =
    let ends = parts_from sep [] s in
    let grows = parts_from sep (seg ++ c ∷ []) s in if c == sep then seg ∷ ends else grows

-- The constructor of `svparts_t`. The head of the list is the front of the queue.
unfoldable pub svparts : Text → List Text
svparts name = parts_from b'.' [] name

-- `pop`, whose assertion fails on an empty queue.
unfoldable pub pop : List Text → Option (Text × List Text)
pop [] = none
pop (s ∷ parts) = some (s, parts)

-- `flags_t`, the elements of an `unordered_set`, of which only the membership can be observed.
abbrev pub Flags : Type 0
Flags = List Text

unfoldable pub contains : Text → Flags → Bool
contains f [] = false
contains f (g ∷ gs) = ite (text_dec g f) true (contains f gs)

unfoldable pub flag_insert : Text → Flags → Flags
flag_insert f gs = if contains f gs then gs else f ∷ gs

-- The tokens of the loop, of which the empty ones are skipped.
unfoldable pub insert_token : Text → Flags → Flags
insert_token [] gs = gs
insert_token (c ∷ s) gs = flag_insert (c ∷ s) gs

-- The loop, with the token that it is in. It stops before an empty token at the end of the text.
unfoldable pub flags_from : Text → Text → Flags → Flags
flags_from seg [] gs = insert_token seg gs
flags_from seg (c ∷ s) gs =
    let ends = flags_from [] s (insert_token seg gs) in
    let grows = flags_from (seg ++ c ∷ []) s gs in if c == b',' then ends else grows

unfoldable pub parse_flags_from_string : Text → Flags
parse_flags_from_string s = flags_from [] s []
