-- ===== src/Sql/Spaced.antt =====
-- SqlGenius.h: statements that are put together from parts, and parameters bound one by one.
use kyzddfer.Base.{ℕ, ◌≡◌, refl, true, List, [], ◌∷◌, ◌++◌, All, arith}
use kyzddfer.Base.Decimal.{to_string, to_string-injective, to_string-digits, is_digit}
use kyzddfer.Base.Text.{Text}
use kyzddfer.Sql.Piece.{Piece, lit, par, Params, is_name_char}
use kyzddfer.Sql.Params.{IsName, no_dollar, Breaks, IsSpaced, Sends}

Breaks-append : (ps qs : List Piece) → Breaks ps → Breaks qs → Breaks (ps ++ qs)
Breaks-append [] qs h k = k
Breaks-append (lit [] ∷ ps) qs h k = h
Breaks-append (lit (c ∷ t) ∷ ps) qs h k = h
Breaks-append (par n ∷ ps) qs h k = h

pub IsSpaced-append :
    (ps qs : List Piece) → IsSpaced ps → IsSpaced qs → Breaks qs → IsSpaced (ps ++ qs)
IsSpaced-append [] qs h k b = k
IsSpaced-append (lit t ∷ ps) qs h k b = (h.0, IsSpaced-append ps qs h.1 k b)
IsSpaced-append (par n ∷ ps) qs h k b =
    (h.0, Breaks-append ps qs h.1 b, IsSpaced-append ps qs h.2 k b)

pub Sends-append :
    (m : Params) (ps qs : List Piece) (vs ws : List Text)
    → Sends m ps vs
    → Sends m qs ws
    → Sends m (ps ++ qs) (vs ++ ws)
Sends-append m [] qs vs ws h k = subst_nil vs ws h k
  where
    subst_nil : (vs ws : List Text) → vs ≡ [] → Sends m qs ws → Sends m qs (vs ++ ws)
    subst_nil vs ws e k = rw e k
Sends-append m (lit t ∷ ps) qs vs ws h k = Sends-append m ps qs vs ws h k
Sends-append m (par n ∷ ps) qs [] ws h k = elim h [ ]
Sends-append m (par n ∷ ps) qs (v ∷ vs) ws h k = (h.0, Sends-append m ps qs vs ws h.1 k)

-- What follows may send nothing.
pub Sends-close :
    (m : Params) (ps qs : List Piece) (vs : List Text)
    → Sends m ps vs
    → Sends m qs []
    → Sends m (ps ++ qs) vs
Sends-close m [] qs vs h k = rw h k
Sends-close m (lit t ∷ ps) qs vs h k = Sends-close m ps qs vs h k
Sends-close m (par n ∷ ps) qs [] h k = elim h [ ]
Sends-close m (par n ∷ ps) qs (v ∷ vs) h k = (h.0, Sends-close m ps qs vs h.1 k)

pub no_dollar_name : (n : Text) → All (λ c. is_name_char c ≡ true) n → no_dollar n ≡ true
no_dollar_name [] h = refl
no_dollar_name (c ∷ n) h = ground (arith, no_dollar_name n h.1)

pub All-append {ℓ} : (P : ℕ → Type ℓ) (s t : Text) → All P s → All P t → All P (s ++ t)
All-append P [] t h k = k
All-append P (c ∷ s) t h k = (h.0, All-append P s t h.1 k)

digits-names : (s : Text) → All (λ c. is_digit c ≡ true) s → All (λ c. is_name_char c ≡ true) s
digits-names [] h = tt
digits-names (c ∷ s) h = (ground arith, digits-names s h.1)

append-injective : (p s t : Text) → p ++ s ≡ p ++ t → s ≡ t
append-injective [] s t e = e
append-injective (c ∷ p) s t e = append-injective p s t (cc)

-- A prefix of a literal, and a counter.
pub numbered-IsName :
    (c : ℕ) (p : Text) (i : ℕ)
    → is_name_char c ≡ true
    → All (λ d. is_name_char d ≡ true) p
    → IsName ((c ∷ p) ++ to_string i)
numbered-IsName c p i h k = (
  (λ e. cc),
  (h, All-append _ p (to_string i) k (digits-names (to_string i) (to_string-digits i))),
)

pub numbered-injective : (p : Text) (i j : ℕ) → p ++ to_string i ≡ p ++ to_string j → i ≡ j
numbered-injective p i j e =
    to_string-injective i j (append-injective p (to_string i) (to_string j) e)
