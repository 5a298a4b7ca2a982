-- ===== src/Layout/Apps.antt =====
-- finalize.cpp: `Rack::finalize_apps`, which reads the attributes of each layout and gives its nodes
-- their kinds.
use kyzddfer.Base.{
  ℕ, ◌+◌, ◌-◌, ◌^◌, ◌%◌, ◌<◌, ◌≡◌, refl, Bool, Option, none, some, List, [], ◌∷◌, ltb, leb, ◌&&◌,
  ◌||◌, ◌==◌, if◌then◌else◌, All, arith,
}
use kyzddfer.Base.Assoc.{lookup}
use kyzddfer.Base.Decimal.{is_digit}
use kyzddfer.Base.Text.{Text, codes, text_dec}
use kyzddfer.Types.{leading}
use kyzddfer.Parts.{parse_flags_from_string}
use kyzddfer.Layout.{Attrs, LayoutNode, transform_node}
use kyzddfer.Layout.Choice.{Layout, signed_rank}
use kyzddfer.Layout.Shape.{IsParsed, IsFinal, transform_node_lem}

-- `get_default`.
unfoldable pub get_default : Attrs → Text → Text → Text
get_default m key default = elim (lookup text_dec key m) [ none ↦ default | some v ↦ v ]

-- A number that `std::stoi` reads, with its sign.
pub data Signed : Type 0 where
  plus : ℕ → Signed
  minus : ℕ → Signed

-- `std::isspace` in the C locale.
abbrev is_space : ℕ → Bool
is_space c = (c == b' ') || (leb 9 c && leb c 13)

-- The digits behind the sign, of which one must be there, in the range of `int`.
unfoldable pub digits_of : (ℕ → Signed) → ℕ → Text → Option Signed
digits_of sign most [] = none
digits_of sign most (c ∷ s) =
    let n = leading 0 (c ∷ s) in
    if is_digit c then (if leb n most then some (sign n) else none) else none

-- `std::stoi`; `none` where it throws.
unfoldable pub stoi : Text → Option Signed
unfolding digits_of
stoi [] = none
stoi (c ∷ s) =
    let rest = stoi s in
    if is_space c
    then rest
    else if c == b'-'
    then digits_of minus (2 ^ 31) s
    else if c == b'+'
    then digits_of plus (2 ^ 31 - 1) s
    else digits_of plus (2 ^ 31 - 1) (c ∷ s)

-- The assignment to an `int8_t`, as a byte.
unfoldable pub to_int8 : Signed → ℕ
to_int8 (plus n) = n % 256
to_int8 (minus n) = (256 - n % 256) % 256

-- The body of the loop over the layouts; `none` where `stoi` throws or the root is missing.
unfoldable pub finalize_layout : Layout → Option Layout
finalize_layout l = elim l.root_node [
  | none ↦ none
  | some root ↦ elim (stoi (get_default l.attrs (codes "pri") (codes "0"))) [
    | none ↦ none
    | some n ↦ some (record l {
      pri = to_int8 n;
      media = parse_flags_from_string (get_default l.attrs (codes "media") []);
      usage = parse_flags_from_string (get_default l.attrs (codes "usage") []);
      root_node = some (transform_node root);
    })
  ]
]

-- `App::layouts`: a vector before the pass, a set behind it.
pub data AppLayouts : Type 0 where
  as_vector : List Layout → AppLayouts
  as_set : List Layout → AppLayouts

pub record App : Type 0 where
  pub name : Text
  pub attrs : Attrs
  pub layouts : AppLayouts

-- `unordered_set::insert` is a parameter: the code has neither the hash nor the equality of layouts.
module _ (insert : Layout → List Layout → List Layout) where
  unfoldable pub finalize_layouts : List Layout → List Layout → Option (List Layout)
  finalize_layouts [] final = some final
  finalize_layouts (l ∷ ls) final = elim (finalize_layout l) [
    | none ↦ none
    | some l' ↦ finalize_layouts ls (insert l' final)
  ]

  unfoldable pub finalize_app : App → Option App
  finalize_app a = elim a.layouts [
    | as_set s ↦ some a
    | as_vector ls ↦ elim (finalize_layouts ls []) [
      | none ↦ none
      | some s ↦ some (record a { layouts = as_set s })
    ]
  ]

-- A layout that a view can be built from.
abbrev pub IsReady : Layout → Type 0
IsReady l = (n : LayoutNode) × (l.root_node ≡ some n) × IsFinal n

-- One as the parser leaves it, with a root, and with a number as its priority if it has one.
abbrev pub HasParsed : Layout → Type 0
HasParsed l =
    ((n : LayoutNode) × (l.root_node ≡ some n) × IsParsed n)
    × ((n : Signed) × (stoi (get_default l.attrs (codes "pri") (codes "0")) ≡ some n))

-- All the layouts of an app are in its set, and ready.
abbrev pub AllReady : AppLayouts → Type 0
AllReady (as_vector ls) = ⊥
AllReady (as_set s) = All IsReady s

-- What `unordered_set::insert` does to what holds of all elements.
abbrev pub KeepsAll : (Layout → List Layout → List Layout) → Type 0
KeepsAll insert =
    (l : Layout) (s : List Layout) → IsReady l → All IsReady s → All IsReady (insert l s)

finalize_layout-IsReady :
    (l : Layout) → HasParsed l → (l' : Layout) × (finalize_layout l ≡ some l') × IsReady l'
unfolding finalize_layout
finalize_layout-IsReady l ((root, there, parsed), (n, number)) = (
  record l {
    pri = to_int8 n;
    media = parse_flags_from_string (get_default l.attrs (codes "media") []);
    usage = parse_flags_from_string (get_default l.attrs (codes "usage") []);
    root_node = some (transform_node root);
  },
  ground (arith, there, number),
  (transform_node root, refl, (transform_node_lem root parsed).0),
)

finalize_layouts-IsReady :
    (insert : Layout → List Layout → List Layout) (ls final : List Layout)
    → KeepsAll insert
    → All HasParsed ls
    → All IsReady final
    → (s : List Layout) × (finalize_layouts insert ls final ≡ some s) × All IsReady s
unfolding finalize_layouts
finalize_layouts-IsReady insert [] final keeps p r = (final, refl, r)
finalize_layouts-IsReady insert (l ∷ ls) final keeps p r =
    let (l', done, ready) = finalize_layout-IsReady l p.0 in
    let (s, rest, all) =
      finalize_layouts-IsReady insert ls (insert l' final) keeps p.1 (keeps l' final ready r) in
    (s, rw (done, finalize_layouts) rest, all)

-- An app whose layouts come from the parser, each with a root and a number as its priority, gets a
-- set of layouts that are all ready, and a second pass leaves it as it is.
pub finalize_app-AllReady :
    (insert : Layout → List Layout → List Layout) (a : App) (ls : List Layout)
    → KeepsAll insert
    → a.layouts ≡ as_vector ls
    → All HasParsed ls
    → (a' : App) × (finalize_app insert a ≡ some a')
      × AllReady a'.layouts
      × (finalize_app insert a' ≡ some a')
unfolding finalize_app
finalize_app-AllReady insert a ls keeps v p =
    let (s, done, ready) = finalize_layouts-IsReady insert ls [] keeps p tt in
    (record a { layouts = as_set s }, ground (arith, v, done), ready, refl)

-- A priority up to 127 ranks as its number, and every one from 128 to 255 ranks below 0.
pub pri_rank :
    (n : ℕ) → n < 256 → signed_rank (to_int8 (plus n)) ≡ (if ltb n 128 then n + 128 else n - 128)
unfolding to_int8
pri_rank n h = ground arith
