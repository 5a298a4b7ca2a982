-- ===== src/Parts/Flags.antt =====
-- finalize.cpp: the flags that `parse_flags_from_string` finds.
use kyzddfer.Base.{
  ◌≡◌, Bool, true, false, Bool-cases, inl, inr, ◌&&◌, ◌||◌, [], ◌∷◌, ◌++◌, ◌==◌, ite, arith,
}
use kyzddfer.Base.Text.{Text, text_dec}
use kyzddfer.Parts.{
  parts_from, Flags, contains, flag_insert, insert_token, flags_from, parse_flags_from_string,
}

abbrev pub has_text : Text → Bool
has_text [] = false
has_text (c ∷ s) = true

contains-flag_insert :
    (f g : Text) (gs : Flags)
    → contains f (flag_insert g gs) ≡ (contains f gs || ite (text_dec g f) true false)
unfolding contains flag_insert
contains-flag_insert f g gs = ground arith

contains-insert_token :
    (f seg : Text) (gs : Flags)
    → contains f (insert_token seg gs)
      ≡ (contains f gs || (has_text f && ite (text_dec seg f) true false))
unfolding insert_token
contains-insert_token [] [] gs = ground arith
contains-insert_token (d ∷ t) [] gs = ground arith
contains-insert_token [] (c ∷ s) gs = ground (arith, contains-flag_insert [] (c ∷ s) gs)
contains-insert_token (d ∷ t) (c ∷ s) gs = ground (arith, contains-flag_insert (d ∷ t) (c ∷ s) gs)

contains-flags_from :
    (f seg s : Text) (gs : Flags)
    → contains f (flags_from seg s gs)
      ≡ (contains f gs || (has_text f && contains f (parts_from b',' seg s)))
unfolding flags_from parts_from contains
contains-flags_from f seg [] gs = contains-insert_token f seg gs
contains-flags_from f seg (c ∷ s) gs = elim (Bool-cases (c == b',')) [
  | inl e ↦
      ground
        (arith, contains-flags_from f [] s (insert_token seg gs), contains-insert_token f seg gs)
  | inr e ↦ ground (arith, contains-flags_from f (seg ++ c ∷ []) s gs)
]

-- The flags of a text are its parts between commas, without the empty ones.
pub parse_flags_lem :
    (f s : Text)
    → contains f (parse_flags_from_string s) ≡ (has_text f && contains f (parts_from b',' [] s))
unfolding parse_flags_from_string contains
parse_flags_lem f s = contains-flags_from f [] s []
