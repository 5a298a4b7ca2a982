-- ===== src/Sql/Piece.antt =====
-- SqlGenius.h: what the generator writes to its streams, and `getOrderedParams`, which reads the
-- names back from the text.
use kyzddfer.Base.{
  ℕ, ◌≡◌, refl, Bool, true, false, ◌&&◌, ◌||◌, not, Option, none, some, List, [], ◌∷◌, ◌++◌, leb,
  ◌==◌, if◌then◌else◌,
}
use kyzddfer.Base.Assoc.{lookup}
use kyzddfer.Base.Text.{Text, text_dec}

-- The exceptions that the generator and its callers throw.
pub data Error : Type 0 where
  param_not_found : Text → Error
  id_not_available : Error
  not_a_recordset : Error
  no_new_id : Error
  bad_value : Error
  db_error : Error

-- What such a call gives to its caller.
pub data Result {ℓ} (A : Type ℓ) : Type ℓ where
  err : Error → Result A
  ok : A → Result A

infixl 5 ◌>>=◌
abbrev pub ◌>>=◌ {ℓ κ} : {A : Type ℓ} {B : Type κ} → Result A → (A → Result B) → Result B
err e >>= next = err e
ok a >>= next = next a

-- A text, or `$` with the name of a parameter.
pub data Piece : Type 0 where
  lit : Text → Piece
  par : Text → Piece

-- The text that a stream holds.
unfoldable pub render : List Piece → Text
render [] = []
render (lit t ∷ ps) = t ++ render ps
render (par n ∷ ps) = b'$' ∷ (n ++ render ps)

-- `namedParams`.
abbrev pub Params : Type 0
Params = List (Text × Text)

-- `std::isalnum` in the C locale.
abbrev pub is_alnum : ℕ → Bool
is_alnum c = (leb b'0' c && leb c b'9') || (leb b'A' c && leb c b'Z') || (leb b'a' c && leb c b'z')

abbrev pub is_name_char : ℕ → Bool
is_name_char c = is_alnum c || c == b'_'

abbrev pub is_empty : Text → Bool
is_empty [] = true
is_empty (x ∷ xs) = false

-- `namedParams.find`, which throws at `end()`, with what comes after it.
abbrev pub found : Text → Option Text → (Text → Result (List Text)) → Result (List Text)
found n none next = err (param_not_found n)
found n (some v) next = next v

-- The loop of `getOrderedParams`, with its three variables, and the code behind the loop.
unfoldable pub scan : Params → Text → Bool → Text → List Text → Result (List Text)
scan m [] in_param name acc =
    if in_param && not (is_empty name)
    then found name (lookup text_dec name m) (λ v. ok (acc ++ v ∷ []))
    else ok acc
scan m (c ∷ s) in_param name acc =
    let starts = scan m s true [] acc in
    let grows = scan m s true (name ++ c ∷ []) acc in
    let ends = found name (lookup text_dec name m) (λ v. scan m s false name (acc ++ v ∷ [])) in
    let goes_on = scan m s false name acc in
    if c == b'$'
    then starts
    else if in_param
    then (if is_name_char c then grows else ends)
    else goes_on

unfoldable pub get_ordered_params : Params → Text → Result (List Text)
get_ordered_params m sql = scan m sql false [] []

-- Where a chain ends well, so did its first step.
pub >>=-ok {ℓ κ} :
    {A : Type ℓ} {B : Type κ} (x : Result A) (next : A → Result B) {y : B} (h : (x >>= next) ≡ ok y)
    → (a : A) × (x ≡ ok a) × (next a ≡ ok y)
>>=-ok (err e) next h = cc
>>=-ok (ok a) next h = (a, refl, h)
