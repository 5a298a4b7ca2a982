-- ===== src/Session/Tests.antt =====
-- The theorems on sessions: a view over another one, and a menu of two layouts.
use kyzddfer.Base.{ℕ, ◌≡◌, ◌/◌, ◌%◌, ◌^◌, length, refl, true, none, some, List, [], ◌∷◌}
use kyzddfer.Base.Assoc.{lookup}
use kyzddfer.Base.Text.{codes, text_dec}
use kyzddfer.Parts.{contains}
use kyzddfer.Layout.{LayoutNode, node, end, next, columns, form}
use kyzddfer.Layout.Choice.{Layout}
use kyzddfer.Layout.Apps.{App, as_set, get_default}
use kyzddfer.Session.{SessionState, open_view, init, destroy}
use kyzddfer.Session.Stacks.{begins, opens, IsDestroyed, destroy-IsDestroyed}
use kyzddfer.Ruid.{RuidGen}
use kyzddfer.Session.Builder.{
  given, own, editor, child_list, Made, BuilderArgs, model_of, make_editor, make_list,
}
use kyzddfer.Session.Plan.{plan}

abbrev over : SessionState
over = open_view (0 ∷ []) (open_view [] (init 77))

destroy-IsDestroyed_example :
    (left : SessionState) × (deleted : List ℕ) × (destroy over ≡ some (left, deleted))
    × IsDestroyed over left deleted
destroy-IsDestroyed_example = destroy-IsDestroyed 77 (opens (0 ∷ []) (opens [] begins))

abbrev layout : Layout
layout = record {
  name = codes "cities";
  qmodel = none;
  pri = 0;
  media = [];
  usage = codes "menu" ∷ [];
  flags = [];
  attrs = [];
  root_node = none;
}

abbrev hidden : Layout
hidden = record layout { media = codes "print" ∷ [] }

abbrev app : App
app = record {
  name = codes "main";
  attrs = [];
  layouts = as_set (layout ∷ hidden ∷ record layout { name = codes "people" } ∷ []);
}

-- A form with a list of children, on a key, with the depths of the places as objects of the client,
-- and an engine that gives each value twice.
abbrev child : LayoutNode
child = node (columns []) (codes "list") ((codes "table", codes "city") ∷ []) [] end

abbrev form_node : LayoutNode
form_node = node form (codes "form") [] [] (next child (next child end))

abbrev args : BuilderArgs
args = record {
  has_key = true;
  qmodels = codes "city" ∷ [];
  node_to_dto = λ p. some (length p);
  draws = λ i. i / 2 % 2 ^ 32;
}

abbrev gen : RuidGen ℕ
gen = record { issued = []; drawn = 5 }

abbrev made : List Made
made =
    record { place = []; key = given; built = editor; dto = 0 }
    ∷ record {
      place = 0 ∷ [];
      key = own (0 ∷ []);
      built = child_list (codes "city") given (codes "city");
      dto = 1;
    }
    ∷ record {
      place = 1 ∷ [];
      key = own (1 ∷ []);
      built = child_list (codes "city") given (codes "city");
      dto = 1;
    }
    ∷ []

made_of : plan args [] none form_node ≡ some made
unfolding plan make_editor make_list model_of contains lookup get_default text_dec
made_of = refl
