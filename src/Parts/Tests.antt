-- ===== src/Parts/Tests.antt =====
-- Runs of `svparts_t` and of `parse_flags_from_string`, and their theorems at concrete texts.
use kyzddfer.Base.{◌≡◌, refl, ◌&&◌, [], ◌∷◌}
use kyzddfer.Base.Text.{codes, text_dec}
use kyzddfer.Parts.{
  parts_from, svparts, contains, flag_insert, insert_token, flags_from, parse_flags_from_string,
}
use kyzddfer.Parts.RoundTrip.{join, svparts_lem}
use kyzddfer.Parts.Flags.{has_text, parse_flags_lem}

dotted : svparts (codes "owner.city.") ≡ codes "owner" ∷ codes "city" ∷ [] ∷ []
unfolding svparts parts_from
dotted = refl

desktop : parse_flags_from_string (codes "web,,phone,web,") ≡ codes "phone" ∷ codes "web" ∷ []
unfolding parse_flags_from_string flags_from insert_token flag_insert contains text_dec
desktop = refl

svparts_lem_example :
    (join b'.' (svparts (codes "owner..name")) ≡ codes "owner..name")
    × (svparts (join b'.' (codes "a" ∷ codes "b" ∷ [])) ≡ codes "a" ∷ codes "b" ∷ [])
svparts_lem_example =
    svparts_lem (codes "owner..name") (codes "a") (codes "b" ∷ []) ((refl, tt), ((refl, tt), tt))

parse_flags_lem_example :
    contains (codes "web") (parse_flags_from_string (codes "phone,web"))
    ≡ (has_text (codes "web") && contains (codes "web") (parts_from b',' [] (codes "phone,web")))
parse_flags_lem_example = parse_flags_lem (codes "web") (codes "phone,web")
