-- ===== src/Registry/Finished.antt =====
-- finalize.cpp: what `Rack::finalize` leaves, and that it changes nothing when it is called again.
use kyzddfer.Base.{◌≡◌, some, List, All}
use kyzddfer.Base.Assoc.{lookup}
use kyzddfer.Base.Text.{Text, text_dec}
use kyzddfer.Types.{type_id}
use kyzddfer.Layout.Choice.{Layout}
use kyzddfer.Layout.Apps.{App, as_vector, HasParsed, AllReady, finalize_app}
use kyzddfer.Registry.{Rack, id_name, has_table}
use kyzddfer.Registry.Final.{HasId, IsNameable, IsNamed}

module _ (insert : Layout → List Layout → List Layout) where
  -- An app as the parser leaves it: its layouts have a root, and a number as their priority.
  abbrev pub IsAppParsed : App → Type 0
  IsAppParsed a = (ls : List Layout) × (a.layouts ≡ as_vector ls) × All HasParsed ls

  abbrev pub IsAppFinal : App → Type 0
  IsAppFinal a = AllReady a.layouts × (finalize_app insert a ≡ some a)

  -- A registry that is ready for use: every type has the implementation that its name asks for, and
  -- the type of ids has that of ids; every table has a field of the id, of that type; and every
  -- layout of an app has the kinds that its tags ask for.
  pub record IsFinal (r : Rack) : Type 0 where
    pub named : All (IsNamed (has_table r.tables)) r.types
    pub id_type : lookup text_dec id_name r.types ≡ some (some type_id)
    pub ids : All (λ p. HasId p.1) r.tables
    pub apps : All (λ p. IsAppFinal p.1) r.apps

  -- A registry as the parser leaves it: no type has an implementation, and the references name tables
  -- that are there.
  pub record IsParsed (r : Rack) : Type 0 where
    pub nameable : All (IsNameable (has_table r.tables)) r.types
    pub apps : All (λ p. IsAppParsed p.1) r.apps
