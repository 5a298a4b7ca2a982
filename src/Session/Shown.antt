-- ===== src/Session/Shown.antt =====
-- session_view.cpp: what the menu shows, and what it leads to.
use kyzddfer.Base.{
  ℕ, ◌≡◌, ◌≢◌, Option, none, some, List, [], ◌∷◌, ◌++◌, map, if◌then◌else◌, ℕ_discrete, All,
}
use kyzddfer.Base.Assoc.{lookup, insert}
use kyzddfer.Base.Text.{Text}
use kyzddfer.Layout.Choice.{Layout}
use kyzddfer.Layout.Apps.{App, AppLayouts, as_vector, as_set}
use kyzddfer.Session.Menu.{AppItem, MenuMap, is_menu, new_menu_ruid, menu_item, push_app}

-- The layouts of an app that are on the menu, and of all apps.
unfoldable pub shown : Text → List Layout → List Layout
shown media [] = []
shown media (l ∷ ls) = let rest = shown media ls in if is_menu media l then l ∷ rest else rest

abbrev pub layouts_of : AppLayouts → List Layout
layouts_of (as_vector ls) = []
layouts_of (as_set ls) = ls

unfoldable pub all_shown : Text → List App → List Layout
all_shown media [] = []
all_shown media (a ∷ rest) = shown media (layouts_of a.layouts) ++ all_shown media rest

-- The apps that have something to show, with all of it.
unfoldable pub app_items : Text → List App → List AppItem
app_items media [] = []
app_items media (a ∷ rest) =
    push_app a (map menu_item (shown media (layouts_of a.layouts))) [] ++ app_items media rest

-- The map with the entries of layouts, one after the other, under the one identifier.
unfoldable pub mapped : List Layout → MenuMap → MenuMap
mapped [] m = m
mapped (l ∷ ls) m = mapped ls (insert ℕ_discrete new_menu_ruid l m)

abbrev pub AllFinal : List App → Type 0
AllFinal = All (λ a. (ls : List Layout) × (a.layouts ≡ as_set ls))

-- The last of a list, and what stands for it in an empty one.
unfoldable pub last {ℓ} : {A : Type ℓ} → Option A → List A → Option A
last o [] = o
last o (a ∷ rest) = last (some a) rest

-- What an identifier of a menu item leads to.
abbrev pub LeadsTo : List Layout → MenuMap → Type 0
LeadsTo ls m =
    (lookup ℕ_discrete new_menu_ruid m ≡ last none ls)
    × ((id : ℕ) → id ≢ new_menu_ruid → lookup ℕ_discrete id m ≡ none)
