-- ===== src/Layout/Tests.antt =====
-- The theorems on layouts, on a form with a list of one column.
use kyzddfer.Base.{◌≡◌, refl, none, some, [], ◌∷◌}
use kyzddfer.Base.Assoc.{lookup}
use kyzddfer.Base.Text.{codes, text_dec}
use kyzddfer.Types.{leading}
use kyzddfer.Parts.{
  svparts, parts_from, contains, flag_insert, insert_token, flags_from, parse_flags_from_string,
}
use kyzddfer.Layout.{
  LayoutNode, node, end, next, plain, columns, form, fields_of, by_tag, transform_node,
  transform_nodes,
}
use kyzddfer.Layout.Shape.{IsParsed, IsFinal, erase, transform_node_lem}
use kyzddfer.Layout.Copies.{copy, assign, copy_lem}
use kyzddfer.Layout.Choice.{Layout, Wanted, signed_rank, fits, best_loop, find_best_layout}
use kyzddfer.Layout.Best.{IsBest, find_best_layout-IsBest}
use kyzddfer.Layout.Apps.{
  plus, get_default, digits_of, stoi, to_int8, finalize_layout, App, as_vector, as_set,
  finalize_layouts, finalize_app,
}

program : Unit {0}
unfolding lookup text_dec leading svparts parts_from contains flag_insert insert_token flags_from
    parse_flags_from_string fields_of by_tag transform_node transform_nodes fits best_loop
    find_best_layout get_default digits_of stoi to_int8 finalize_layout finalize_layouts
    finalize_app
program = tt

abbrev column : LayoutNode
column = node plain (codes "name") [] [] end

abbrev list_of_one : LayoutNode
list_of_one = node plain (codes "list") ((codes "table", codes "city") ∷ []) [] (next column end)

abbrev page : LayoutNode
page = node plain (codes "form") [] [] (next list_of_one end)

abbrev final_list : LayoutNode
final_list =
    node (columns (record { id = 0; name = codes "name"; flags = []; attrs = [] } ∷ []))
      (codes "list") ((codes "table", codes "city") ∷ []) [] (next column end)

page_final : transform_node page ≡ node form (codes "form") [] [] (next final_list end)
unfolding program
page_final = refl

page-IsParsed : IsParsed page
page-IsParsed = (refl, ((refl, ((refl, tt), tt)), tt))

transform_node_lem_example : IsFinal (transform_node page) × (erase (transform_node page) ≡ page)
transform_node_lem_example = transform_node_lem page page-IsParsed

abbrev layout : Layout
layout = record {
  name = codes "cities";
  qmodel = some (codes "city");
  pri = 0;
  media = [];
  usage = [];
  flags = [];
  attrs = (codes "pri", codes "7") ∷ (codes "usage", codes "menu lookup") ∷ [];
  root_node = some page;
}

abbrev high : Layout
high = record layout { name = codes "high"; pri = 7 }

abbrev negative : Layout
negative = record layout { name = codes "negative"; pri = 200 }

abbrev wanted : Wanted
wanted = record { name = []; qmodel = some (codes "city"); media = codes "web"; usage = [] }

found : find_best_layout (layout ∷ high ∷ negative ∷ []) wanted ≡ some high
unfolding program
found = refl

find_best_layout-IsBest_example :
    IsBest wanted
      (layout ∷ high ∷ negative ∷ [])
      (find_best_layout (layout ∷ high ∷ negative ∷ []) wanted)
find_best_layout-IsBest_example = find_best_layout-IsBest (layout ∷ high ∷ negative ∷ []) wanted

abbrev app : App
app = record { name = codes "main"; attrs = []; layouts = as_vector (layout ∷ []) }

abbrev final_layout : Layout
final_layout = record layout {
  pri = 7;
  usage = parse_flags_from_string (codes "menu lookup");
  root_node = some (transform_node page);
}

app_final :
    finalize_app (λ l s. l ∷ s) app ≡ some (record app { layouts = as_set (final_layout ∷ []) })
unfolding program
app_final = refl

pri_200 : signed_rank (to_int8 (plus 200)) ≡ 72
unfolding program
pri_200 = refl

abbrev without_model : Layout
without_model = record layout { qmodel = none }

copy_lem_example :
    (copy (some (codes "street")) layout ≡ record layout { qmodel = some (codes "street") })
    × (assign without_model layout ≡ record layout { qmodel = none })
copy_lem_example = copy_lem (some (codes "street")) without_model layout
