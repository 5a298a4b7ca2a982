-- ===== src/Session/Menu.antt =====
-- session_view.cpp: `Session::buildMenu`, over the apps as `Rack::finalize` leaves them, in the order
-- in which the registry gives them.
use kyzddfer.Base.{
  ℕ, Bool, ◌&&◌, ◌||◌, Option, none, some, List, [], ◌∷◌, ◌++◌, if◌then◌else◌, ℕ_discrete,
}
use kyzddfer.Base.Assoc.{insert}
use kyzddfer.Base.Text.{Text, codes}
use kyzddfer.Parts.{contains}
use kyzddfer.Layout.Choice.{Layout, no_flags}
use kyzddfer.Layout.Apps.{App, as_vector, as_set, get_default}

-- `Session::Menu` and `Session::App`.
pub record MenuItem : Type 0 where
  pub ruid : ℕ
  pub name : Text
  pub icon : Text
  pub shortcut : Text

pub record AppItem : Type 0 where
  pub name : Text
  pub icon : Text
  pub shortcut : Text
  pub menus : List MenuItem

-- `menu_layout_map`; a layout stands for its address.
abbrev pub MenuMap : Type 0
MenuMap = List (ℕ × Layout)

unfoldable pub is_menu : Text → Layout → Bool
unfolding contains
is_menu media l = contains (codes "menu") l.usage && (no_flags l.media || contains media l.media)

-- The identifier that the code gives every item, where its generator is missing.
abbrev pub new_menu_ruid : ℕ
new_menu_ruid = 0

abbrev pub menu_item : Layout → MenuItem
menu_item l = record {
  ruid = new_menu_ruid;
  name = get_default l.attrs (codes "title") l.name;
  icon = get_default l.attrs (codes "icon") [];
  shortcut = get_default l.attrs (codes "shortcut") [];
}

-- The loop over the layouts of an app, with its items and the map.
unfoldable pub menu_loop : Text → List Layout → List MenuItem → MenuMap → List MenuItem × MenuMap
menu_loop media [] items m = (items, m)
menu_loop media (l ∷ ls) items m =
    let shown =
      menu_loop media ls (items ++ menu_item l ∷ []) (insert ℕ_discrete new_menu_ruid l m) in
    let hidden = menu_loop media ls items m in if is_menu media l then shown else hidden

abbrev pub app_item : App → List MenuItem → AppItem
app_item a items = record {
  name = get_default a.attrs (codes "title") a.name;
  icon = get_default a.attrs (codes "icon") [];
  shortcut = get_default a.attrs (codes "shortcut") [];
  menus = items;
}

-- `apps.push_back`, where there is an item.
unfoldable pub push_app : App → List MenuItem → List AppItem → List AppItem
push_app a [] apps = apps
push_app a (i ∷ items) apps = apps ++ app_item a (i ∷ items) ∷ []

-- The loop over the apps; `none` where the layouts of one are not final, which the code asserts.
unfoldable pub build_loop :
    Text → List App → List AppItem → MenuMap → Option (List AppItem × MenuMap)
build_loop media [] apps m = some (apps, m)
build_loop media (a ∷ rest) apps m = elim a.layouts [
  | as_vector ls ↦ none
  | as_set ls ↦
      let menu = menu_loop media ls [] m in build_loop media rest (push_app a menu.0 apps) menu.1
]

unfoldable pub build_menu : Text → List App → Option (List AppItem × MenuMap)
build_menu media apps = build_loop media apps [] []
