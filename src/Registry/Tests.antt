-- ===== src/Registry/Tests.antt =====
-- The theorem on `Rack::finalize`, on a table that refers to itself and an app with a form.
use kyzddfer.Base.{none, some, List, [], ◌∷◌}
use kyzddfer.Base.Assoc.{lookup}
use kyzddfer.Base.Text.{codes, text_dec}
use kyzddfer.Types.{finalize_type, parse_type_def, split_first, before_last, leading}
use kyzddfer.Parts.{parse_flags_from_string, flags_from, insert_token}
use kyzddfer.Layout.{LayoutNode, node, end, plain, by_tag, transform_node}
use kyzddfer.Layout.Choice.{Layout}
use kyzddfer.Layout.Apps.{
  get_default, stoi, digits_of, to_int8, finalize_layout, App, as_vector, finalize_layouts,
  finalize_app,
}
use kyzddfer.Registry.{Rack}

abbrev add : Layout → List Layout → List Layout
add l s = l ∷ s

abbrev page : LayoutNode
page = node plain (codes "name") [] [] end

abbrev layout : Layout
layout = record {
  name = codes "main";
  qmodel = none;
  pri = 0;
  media = [];
  usage = [];
  flags = [];
  attrs = [];
  root_node = some page;
}

abbrev app : App
app = record { name = codes "main"; attrs = []; layouts = as_vector (layout ∷ []) }

abbrev rack : Rack
rack = record {
  types = (codes "ref(person)", none) ∷ [];
  tables = (codes "person", record { name = codes "person"; fields = [] }) ∷ [];
  apps = (codes "main", app) ∷ [];
}

program : Unit {0}
unfolding lookup text_dec finalize_type parse_type_def split_first before_last leading
    parse_flags_from_string by_tag transform_node get_default stoi digits_of to_int8 flags_from
    insert_token finalize_layout finalize_layouts finalize_app
program = tt
