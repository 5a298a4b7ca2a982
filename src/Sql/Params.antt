-- ===== src/Sql/Params.antt =====
-- SqlGenius.h: `getOrderedParams` finds the parameters of a generated statement, in their order.
use kyzddfer.Base.{
  ℕ, ◌≡◌, ◌≢◌, refl, ap, sym, ◌∙◌, Bool, true, false, ◌&&◌, not, some, List, [], ◌∷◌, ◌++◌, ◌==◌,
  All, append_assoc, append-nil, arith,
}
use kyzddfer.Base.Assoc.{lookup}
use kyzddfer.Base.Text.{Text, text_dec}
use kyzddfer.Sql.Piece.{ok, Piece, lit, par, render, Params, is_name_char, scan, get_ordered_params}

-- A name: not empty, of letters, digits and `_`.
abbrev pub IsName : Text → Type 0
IsName n = (n ≢ []) × All (λ c. is_name_char c ≡ true) n

abbrev pub no_dollar : Text → Bool
no_dollar [] = true
no_dollar (c ∷ s) = not (c == b'$') && no_dollar s

-- A name ends where what follows begins.
abbrev pub Breaks : List Piece → Type 0
Breaks [] = Unit
Breaks (lit [] ∷ ps) = ⊥
Breaks (lit (c ∷ t) ∷ ps) = is_name_char c ≡ false
Breaks (par n ∷ ps) = ⊥

-- A statement whose names can be read back.
abbrev pub IsSpaced : List Piece → Type 0
IsSpaced [] = Unit
IsSpaced (lit t ∷ ps) = (no_dollar t ≡ true) × IsSpaced ps
IsSpaced (par n ∷ ps) = IsName n × Breaks ps × IsSpaced ps

-- The values of the parameters, in the order of the statement.
abbrev pub Sends : Params → List Piece → List Text → Type 0
Sends m [] vs = vs ≡ []
Sends m (lit t ∷ ps) vs = Sends m ps vs
Sends m (par n ∷ ps) [] = ⊥
Sends m (par n ∷ ps) (v ∷ vs) = (lookup text_dec n m ≡ some v) × Sends m ps vs

scan_name :
    (m : Params) (n s name : Text) (acc : List Text)
    → All (λ c. is_name_char c ≡ true) n
    → scan m (n ++ s) true name acc ≡ scan m s true (name ++ n) acc
unfolding scan
scan_name m [] s name acc h = ap (λ t. scan m s true t acc) (sym (append-nil name))
scan_name m (c ∷ n) s name acc h =
    ground (arith, scan_name m n s (name ++ c ∷ []) acc h.1, append_assoc name (c ∷ []) n)

scan_lit :
    (m : Params) (t s name : Text) (acc : List Text)
    → no_dollar t ≡ true
    → scan m (t ++ s) false name acc ≡ scan m s false name acc
unfolding scan
scan_lit m [] s name acc h = refl
scan_lit m (c ∷ t) s name acc h = ground (arith, scan_lit m t s name acc)

scan_end :
    (m : Params) (n v : Text) (acc : List Text)
    → n ≢ []
    → lookup text_dec n m ≡ some v
    → scan m [] true n acc ≡ ok (acc ++ v ∷ [])
unfolding scan
scan_end m [] v acc h e = absurd (h refl)
scan_end m (c ∷ n) v acc h e = rw e

scan_break :
    (m : Params) (c : ℕ) (s n v : Text) (acc : List Text)
    → is_name_char c ≡ false
    → (c == b'$') ≡ false
    → lookup text_dec n m ≡ some v
    → scan m (c ∷ s) true n acc ≡ scan m s false n (acc ++ v ∷ [])
unfolding scan
scan_break m c s n v acc h d e = rw (d, h, e)

scan_start :
    (m : Params) (n s name : Text) (acc : List Text)
    → All (λ c. is_name_char c ≡ true) n
    → scan m (b'$' ∷ (n ++ s)) false name acc ≡ scan m s true n acc
unfolding scan
scan_start m n s name acc h = scan_name m n s [] acc h

pub scan_pieces :
    (m : Params) (ps : List Piece) (vs : List Text) (name : Text) (acc : List Text)
    → IsSpaced ps
    → Sends m ps vs
    → scan m (render ps) false name acc ≡ ok (acc ++ vs)
unfolding render
scan_pieces m [] vs name acc s p = unfold scan in rw p (ap ok (sym (append-nil acc)))
scan_pieces m (lit t ∷ ps) vs name acc s p =
    scan_lit m t (render ps) name acc s.0 ∙ scan_pieces m ps vs name acc s.1 p
scan_pieces m (par n ∷ ps) [] name acc s p = elim p [ ]
scan_pieces m (par n ∷ []) (v ∷ vs) name acc s p =
    scan_start m n [] name acc s.0.1 ∙ scan_end m n v acc s.0.0 p.0 ∙ rw p.1
scan_pieces m (par n ∷ lit [] ∷ ps) (v ∷ vs) name acc s p = absurd s.1
scan_pieces m (par n ∷ par k ∷ ps) (v ∷ vs) name acc s p = absurd s.1
scan_pieces m (par n ∷ lit (c ∷ t) ∷ ps) (v ∷ vs) name acc s p =
    scan_start m n (render (lit (c ∷ t) ∷ ps)) name acc s.0.1
    ∙ scan_break m c (t ++ render ps) n v acc s.1 (ground arith) p.0
    ∙ scan_lit m t (render ps) n (acc ++ v ∷ []) (ground arith)
    ∙ scan_pieces m ps vs n (acc ++ v ∷ []) s.2.1 p.1
    ∙ ap ok (append_assoc acc (v ∷ []) vs)

-- The parameters of a statement that can be read back are found, each one, in its order.
pub get_ordered_params_lem :
    (m : Params) (ps : List Piece) (vs : List Text)
    → IsSpaced ps
    → Sends m ps vs
    → get_ordered_params m (render ps) ≡ ok vs
unfolding get_ordered_params
get_ordered_params_lem m ps vs s p = scan_pieces m ps vs [] [] s p
