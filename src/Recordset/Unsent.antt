-- ===== src/Recordset/Unsent.antt =====
-- SqlGenius.h: with no parameter bound, a statement with the pager's clause cannot be sent.
use kyzddfer.Base.{
  ◌≡◌, refl, ap, sym, Bool, true, false, List, [], ◌∷◌, ◌++◌, append_assoc, if_cases, ◌==◌,
}
use kyzddfer.Base.Assoc.{lookup}
use kyzddfer.Base.Text.{Text, codes}
use kyzddfer.Sql.Piece.{
  Error, param_not_found, Result, err, Piece, lit, par, render, is_name_char, scan,
  get_ordered_params,
}
use kyzddfer.Sql.Select.{pager_clause}

abbrev pub IsErr {ℓ} : {A : Type ℓ} → Result A → Type ℓ
IsErr {A} x = (e : Error) × (x ≡ err e)

-- With no parameter bound, what cannot be read stays so behind any text.
errs_behind :
    (u : Text)
    → ((b : Bool) (n : Text) (acc : List Text) → IsErr (scan [] u b n acc))
    → (s : Text) (b : Bool) (n : Text) (acc : List Text) → IsErr (scan [] (s ++ u) b n acc)
unfolding scan lookup
errs_behind u h [] b n acc = h b n acc
errs_behind u h (c ∷ s) b n acc =
    if_cases IsErr (c == b'$') _ _ (λ _. errs_behind u h s true [] acc)
      λ _.
        if_cases IsErr b _ _
          (λ _.
            if_cases IsErr (is_name_char c) _ _ (λ _. errs_behind u h s true (n ++ c ∷ []) acc)
              (λ _. (param_not_found n, refl)))
          (λ _. errs_behind u h s false n acc)

-- The text from the first parameter of the pager on.
limit_errs :
    (s : Text) (b : Bool) (n : Text) (acc : List Text)
    → IsErr (scan [] (codes "$pg_limit OFFSET " ++ s) b n acc)
unfolding scan lookup
limit_errs s true n acc = (param_not_found (codes "pg_limit"), refl)
limit_errs s false n acc = (param_not_found (codes "pg_limit"), refl)

render-append : (ps qs : List Piece) → render (ps ++ qs) ≡ render ps ++ render qs
unfolding render
render-append [] qs = refl
render-append (lit t ∷ ps) qs =
    rw (render-append ps qs) (sym (append_assoc t (render ps) (render qs)))
render-append (par n ∷ ps) qs =
    ap (◌∷◌ b'$') (rw (render-append ps qs) (sym (append_assoc n (render ps) (render qs))))

-- A statement with the pager's clause behind anything.
paged_errs :
    (ps : List Piece)
    → IsErr (get_ordered_params [] (render (ps ++ (pager_clause ++ lit (codes ";") ∷ []))))
unfolding get_ordered_params render
paged_errs ps = rw (render-append ps (pager_clause ++ lit (codes ";") ∷ [])) (
    errs_behind (codes "\nLIMIT $pg_limit OFFSET $pg_offset;")
      (λ b n acc.
        errs_behind (codes "$pg_limit OFFSET $pg_offset;") (limit_errs (codes "$pg_offset;"))
          (codes "\nLIMIT ") b n acc)
      (render ps) false [] [])

-- A statement that `gen_select_ids` has made.
pub record IsIdsSql (sql : List Piece) : Type 0 where
  pub body : List Piece
  pub paged : sql ≡ body ++ (pager_clause ++ lit (codes ";") ∷ [])

pub ids_sql_errs : (sql : List Piece) → IsIdsSql sql → IsErr (get_ordered_params [] (render sql))
ids_sql_errs sql h = rw h.paged (paged_errs h.body)
