-- ===== src/Registry/Final.antt =====
-- finalize.cpp and types.cpp: what the passes over the tables and over the types leave.
use kyzddfer.Base.{
  ◌≡◌, ◌≢◌, refl, true, if◌then◌else◌, ap, sym, ◌∙◌, Bool, Option, none, some, List, [], ◌∷◌, All,
  if_pos, if_neg, arith,
}
use kyzddfer.Base.Assoc.{lookup}
use kyzddfer.Base.Text.{Text, codes, text_dec}
use kyzddfer.Types.{
  TypeImpl, type_id, type_ref, type_varchar, type_int, type_date, type_text, type_unknown,
  finalize_type, parse_type_def, split_first, from_chars,
}
use kyzddfer.Registry.{
  get, modify, FieldEntry, TableEntry, new_field, id_name, with_id, with_ids, has_table,
  finalize_types,
}

-- A name that is got is there, and getting it again adds nothing.
pub lookup-get :
    {T : Type 0} (make : Text → T) (name : Text) (m : List (Text × T))
    → (t : T) × (lookup text_dec name (get make name m) ≡ some t)
unfolding get lookup
lookup-get make name [] = (make name, ground arith)
lookup-get make name ((k, t) ∷ m) = elim (text_dec k name) [
  | yes p ↦ (t, rw (if_pos (text_dec k name) p) (ground arith))
  | no p ↦
      let (u, there) = lookup-get make name m in
      (u, rw (if_neg (text_dec k name) p) (ground (arith, there)))
]

pub get-there :
    {T : Type 0} (make : Text → T) (name : Text) (t : T) (m : List (Text × T))
    → lookup text_dec name m ≡ some t
    → get make name m ≡ m
unfolding get lookup
get-there make name t [] e = absurd (ground arith)
get-there make name t ((k, u) ∷ m) e = ground (arith, get-there make name t m)

lookup-modify :
    {T : Type 0} (f : T → T) (name : Text) (t : T) (m : List (Text × T))
    → lookup text_dec name m ≡ some t
    → lookup text_dec name (modify f name m) ≡ some (f t)
unfolding modify lookup
lookup-modify f name t [] e = absurd (ground arith)
lookup-modify f name t ((k, u) ∷ m) e = ground (arith, lookup-modify f name t m)

modify-same :
    {T : Type 0} (f : T → T) (name : Text) (t : T) (m : List (Text × T))
    → lookup text_dec name m ≡ some t
    → f t ≡ t
    → modify f name m ≡ m
unfolding modify lookup
modify-same f name t [] e same = refl
modify-same f name t ((k, u) ∷ m) e same = ground (arith, modify-same f name t m)

pub get-All :
    {T : Type 0} (P : Text × T → Type 0) (make : Text → T) (name : Text) (m : List (Text × T))
    → P (name, make name)
    → All P m
    → All P (get make name m)
unfolding get
get-All P make name [] p h = (p, tt)
get-All P make name ((k, t) ∷ m) p h = elim (text_dec k name) [
  | yes q ↦ rw (if_pos (text_dec k name) q) h
  | no q ↦ rw (if_neg (text_dec k name) q) (h.0, get-All P make name m p h.1)
]

-- A table whose field of the id has the type of ids.
abbrev pub HasId : TableEntry → Type 0
HasId t = (f : FieldEntry) × (lookup text_dec id_name t.fields ≡ some f) × (f.type ≡ some id_name)

with_id-HasId : (t : TableEntry) → HasId (with_id t)
unfolding with_id
with_id-HasId t =
    let (f, there) = lookup-get new_field id_name t.fields in
    (
      record f { type = some id_name },
      lookup-modify (λ (g : FieldEntry). record g { type = some id_name }) id_name f
          (get new_field id_name t.fields) there,
      refl,
    )

with_id_again : (t : TableEntry) → HasId t → with_id t ≡ t
unfolding with_id
with_id_again t (f, there, is) =
    ap (λ (m : List (Text × FieldEntry)). record t { fields = m })
      (ap (modify (λ (g : FieldEntry). record g { type = some id_name }) id_name)
          (get-there new_field id_name f t.fields there)
        ∙ modify-same (λ (g : FieldEntry). record g { type = some id_name }) id_name f t.fields
            there (ap (λ (o : Option Text). record f { type = o }) (sym is)))

pub with_ids-HasId : (m : List (Text × TableEntry)) → All (λ p. HasId p.1) (with_ids m)
unfolding with_ids
with_ids-HasId [] = tt
with_ids-HasId ((k, t) ∷ m) = (with_id-HasId t, with_ids-HasId m)

pub with_ids_again : (m : List (Text × TableEntry)) → All (λ p. HasId p.1) m → with_ids m ≡ m
unfolding with_ids
with_ids_again [] h = refl
with_ids_again ((k, t) ∷ m) h = rw (with_id_again t h.0, with_ids_again m h.1) refl

pub has_table-with_ids :
    (m : List (Text × TableEntry)) (name : Text) → has_table (with_ids m) name ≡ has_table m name
unfolding with_ids lookup
has_table-with_ids [] name = refl
has_table-with_ids ((k, t) ∷ m) name = ground (arith, has_table-with_ids m name)

-- The table that the arguments of a reference name.
abbrev pub NamesTable : (Text → Bool) → Text → Type 0
NamesTable has [] = ⊥
NamesTable has (c ∷ t) = has (c ∷ t) ≡ true

-- A type that has no implementation yet; as a reference, it names a table that is there.
abbrev pub IsNameable : (Text → Bool) → Text × Option TypeImpl → Type 0
IsNameable has (name, o) =
    (o ≡ none) × (((parse_type_def name).0 ≡ codes "ref") → NamesTable has (parse_type_def name).1)

-- The implementation that a base name and its arguments ask for.
abbrev pub AsksFor : (Text → Bool) → Text → Text → TypeImpl → Type 0
AsksFor has base args type_id = base ≡ codes "id"
AsksFor has base args (type_ref t) = (base ≡ codes "ref") × (args ≡ t) × NamesTable has t
AsksFor has base args (type_varchar n) = (base ≡ codes "varchar") × (n ≡ from_chars args)
AsksFor has base args type_int = base ≡ codes "int"
AsksFor has base args type_date = base ≡ codes "date"
AsksFor has base args type_text = base ≡ codes "text"
AsksFor has base args type_unknown =
    (base ≢ codes "int")
    × (base ≢ codes "id")
    × (base ≢ codes "varchar")
    × (base ≢ codes "ref")
    × (base ≢ codes "date")
    × (base ≢ codes "text")

-- A type that has the implementation that its name asks for.
abbrev pub IsNamed : (Text → Bool) → Text × Option TypeImpl → Type 0
IsNamed has (name, o) =
    (t : TypeImpl) × (o ≡ some t) × AsksFor has (parse_type_def name).0 (parse_type_def name).1 t

module _ (has : Text → Bool) where
  abbrev Selects : Text → Text → Option TypeImpl → Type 0
  Selects base args o = (t : TypeImpl) × (o ≡ some t) × AsksFor has base args t

  select_ref :
      (base args : Text)
      → base ≡ codes "ref"
      → NamesTable has args
      → Selects base args
          (elim args [ [] ↦ none | c ∷ t ↦ if has (c ∷ t) then some (type_ref (c ∷ t)) else none ])
  select_ref base [] e h = absurd h
  select_ref base (c ∷ t) e h = (type_ref (c ∷ t), rw h refl, (e, refl, h))

  finalize_type-AsksFor :
      (name : Text)
      → (((parse_type_def name).0 ≡ codes "ref") → NamesTable has (parse_type_def name).1)
      → Selects (parse_type_def name).0 (parse_type_def name).1 (finalize_type has name)
  unfolding finalize_type
  finalize_type-AsksFor name h =
      let base = (parse_type_def name).0 in
      let args = (parse_type_def name).1 in
      elim (text_dec base (codes "int")) [
        | yes a ↦ rw (if_pos (text_dec base (codes "int")) a) (type_int, refl, a)
        | no a ↦ rw (if_neg (text_dec base (codes "int")) a) (elim (text_dec base (codes "id")) [
          | yes b ↦ rw (if_pos (text_dec base (codes "id")) b) (type_id, refl, b)
          | no b ↦
              rw (if_neg (text_dec base (codes "id")) b) (elim (text_dec base (codes "varchar")) [
                | yes c ↦
                    rw (if_pos (text_dec base (codes "varchar")) c)
                      (type_varchar (from_chars args), refl, (c, refl))
                | no c ↦
                    rw (if_neg (text_dec base (codes "varchar")) c)
                      (elim (text_dec base (codes "ref")) [
                        | yes d ↦
                            rw (if_pos (text_dec base (codes "ref")) d)
                              (select_ref base args d (h d))
                        | no d ↦
                            rw (if_neg (text_dec base (codes "ref")) d)
                              (elim (text_dec base (codes "date")) [
                                | yes e ↦
                                    rw (if_pos (text_dec base (codes "date")) e)
                                      (type_date, refl, e)
                                | no e ↦
                                    rw (if_neg (text_dec base (codes "date")) e)
                                      (elim (text_dec base (codes "text")) [
                                        | yes f ↦
                                            rw (if_pos (text_dec base (codes "text")) f)
                                              (type_text, refl, f)
                                        | no f ↦
                                            rw (if_neg (text_dec base (codes "text")) f)
                                              (type_unknown, refl, (a, b, c, d, e, f))
                                      ])
                              ])
                      ])
              ])
        ])
      ]

  -- The name of the ids asks for nothing but their type.
  id_asks : (t : TypeImpl) → AsksFor has (codes "id") [] t → t ≡ type_id
  unfolding text_dec
  id_asks type_id h = refl
  id_asks (type_ref t) h = cc (h.0)
  id_asks (type_varchar n) h = cc (h.0)
  id_asks type_int h = cc
  id_asks type_date h = cc
  id_asks type_text h = cc
  id_asks type_unknown h = absurd (h.1 refl)

  pub named_id : (o : Option TypeImpl) → IsNamed has (id_name, o) → o ≡ some type_id
  unfolding parse_type_def split_first
  named_id o (t, e, asks) = e ∙ ap (λ u. some u) (id_asks t asks)

  pub id-IsNameable : IsNameable has (id_name, none)
  unfolding parse_type_def split_first
  id-IsNameable = (refl, λ e. cc)

-- A pass over a map that loses no name.
abbrev pub Keeps : List (Text × Option TypeImpl) → List (Text × Option TypeImpl) → Type 0
Keeps m m' =
    (k : Text) (o : Option TypeImpl)
    → lookup text_dec k m ≡ some o
    → (o' : Option TypeImpl) × (lookup text_dec k m' ≡ some o')

Keeps-entry :
    (name : Text) (o p : Option TypeImpl) (m m' : List (Text × Option TypeImpl))
    → Keeps m m'
    → Keeps ((name, o) ∷ m) ((name, p) ∷ m')
unfolding lookup
Keeps-entry name o p m m' keeps k q l = elim (text_dec name k) [
  | yes same ↦ (p, rw (if_pos (text_dec name k) same) refl)
  | no other ↦
      let (u, there) = keeps k q (rw (if_neg (text_dec name k) other) at l) in
      (u, rw (if_neg (text_dec name k) other) there)
]

pub finalize_types-IsNamed :
    (has : Text → Bool) (m : List (Text × Option TypeImpl))
    → All (IsNameable has) m
    → (m' : List (Text × Option TypeImpl)) × (finalize_types has m ≡ some m')
      × All (IsNamed has) m'
      × Keeps m m'
unfolding finalize_types
finalize_types-IsNamed has [] h = ([], refl, tt, λ k o l. (o, l))
finalize_types-IsNamed has ((name, some t) ∷ m) h = absurd (ground (arith, h.0.0))
finalize_types-IsNamed has ((name, none) ∷ m) ((e, names), h) =
    let (t, found, asks) = finalize_type-AsksFor has name names in
    let (m', rest, named, keeps) = finalize_types-IsNamed has m h in
    (
      (name, some t) ∷ m',
      rw (found, finalize_types, rest) refl,
      ((t, refl, asks), named),
      Keeps-entry name none (some t) m m' keeps,
    )

pub finalize_types_again :
    (has : Text → Bool) (m : List (Text × Option TypeImpl))
    → All (IsNamed has) m
    → finalize_types has m ≡ some m
unfolding finalize_types
finalize_types_again has [] h = refl
finalize_types_again has ((name, none) ∷ m) ((t, e, f), h) = absurd (ground arith)
finalize_types_again has ((name, some t) ∷ m) (n, h) = rw (finalize_types_again has m h) refl
