-- ===== src/Sql/Writes.antt =====
-- SqlGenius.h: the parameters of the writing statements, in the order that the driver gets.
use kyzddfer.Base.{ℕ, ◌+◌, ◌≤◌, ◌<◌, ◌≡◌, ◌≢◌, refl, ◌∙◌, true, some, List, [], ◌∷◌, ◌++◌, arith}
use kyzddfer.Base.Assoc.{lookup, insert, lookup-insert_ne, lookup-insert_self}
use kyzddfer.Base.Text.{Text, codes, text_dec}
use kyzddfer.Sql.Piece.{ok, Piece, lit, render, Params, get_ordered_params}
use kyzddfer.Sql.Params.{IsName, no_dollar, Breaks, IsSpaced, Sends, get_ordered_params_lem}
use kyzddfer.Sql.Spaced.{IsSpaced-append, Sends-close, numbered-IsName, numbered-injective}
use kyzddfer.Sql.Model.{RecordView}
use kyzddfer.Sql.Write.{id_name, more_ids, bind_ids, id_list, gen_delete_by_ids}

-- The ids from an index on are bound, and an earlier name is left alone.
lookup-bind_ids :
    (m : Params) (n : Text) (i : ℕ) (ids : List Text)
    → ((j : ℕ) → i ≤ j → n ≢ id_name j)
    → lookup text_dec n (bind_ids m i ids) ≡ lookup text_dec n m
unfolding bind_ids
lookup-bind_ids m n i [] h = refl
lookup-bind_ids m n i (x ∷ ids) h =
    lookup-bind_ids (insert text_dec (id_name i) x m) n (i + 1) ids (λ j p. h j (omega arith))
    ∙ lookup-insert_ne text_dec (id_name i) n x m (h i (omega arith))

id_name_ne : (i j : ℕ) → i < j → id_name i ≢ id_name j
id_name_ne i j h e = absurd (omega (arith, numbered-injective (codes "id_") i j e))

lookup-bind_ids_self :
    (m : Params) (x : Text) (i : ℕ) (ids : List Text)
    → lookup text_dec (id_name i) (bind_ids (insert text_dec (id_name i) x m) (i + 1) ids) ≡ some x
lookup-bind_ids_self m x i ids =
    lookup-bind_ids (insert text_dec (id_name i) x m) (id_name i) (i + 1) ids
      (λ j p. id_name_ne i j (omega arith))
    ∙ lookup-insert_self text_dec (id_name i) x m

pub more_ids-Sends :
    (m : Params) (i : ℕ) (ids : List Text) → Sends (bind_ids m i ids) (more_ids i ids) ids
unfolding bind_ids more_ids
more_ids-Sends m i [] = refl
more_ids-Sends m i (x ∷ ids) =
    (lookup-bind_ids_self m x i ids, more_ids-Sends (insert text_dec (id_name i) x m) (i + 1) ids)

pub id_list-Sends : (m : Params) (ids : List Text) → Sends (bind_ids m 0 ids) (id_list ids) ids
unfolding bind_ids id_list
id_list-Sends m [] = refl
id_list-Sends m (x ∷ ids) =
    (lookup-bind_ids_self m x 0 ids, more_ids-Sends (insert text_dec (id_name 0) x m) 1 ids)

id_name-IsName : (i : ℕ) → IsName (id_name i)
id_name-IsName i = numbered-IsName b'i' (codes "d_") i refl (refl, (refl, tt))

more_ids-Breaks : (i : ℕ) (ids : List Text) → Breaks (more_ids i ids)
unfolding more_ids
more_ids-Breaks i [] = tt
more_ids-Breaks i (x ∷ ids) = refl

more_ids-IsSpaced : (i : ℕ) (ids : List Text) → IsSpaced (more_ids i ids)
unfolding more_ids
more_ids-IsSpaced i [] = tt
more_ids-IsSpaced i (x ∷ ids) =
    (refl, (id_name-IsName i, more_ids-Breaks (i + 1) ids, more_ids-IsSpaced (i + 1) ids))

pub id_list-IsSpaced : (ids : List Text) → IsSpaced (id_list ids)
unfolding id_list
id_list-IsSpaced [] = tt
id_list-IsSpaced (x ∷ ids) = (id_name-IsName 0, more_ids-Breaks 1 ids, more_ids-IsSpaced 1 ids)

-- The parameters of a `DELETE … IN` are the ids, each once and in their order.
pub delete_by_ids_params :
    (v : RecordView) (ids : List Text)
    → no_dollar v.model ≡ true
    → let (sql, params) = gen_delete_by_ids v ids in get_ordered_params params (render sql) ≡ ok ids
unfolding gen_delete_by_ids
delete_by_ids_params v [] h = get_ordered_params_lem [] [] [] tt refl
delete_by_ids_params v (x ∷ ids) h =
    let tail : List Piece = id_list (x ∷ ids) ++ lit (codes ");") ∷ [] in
    let m : Params = bind_ids [] 0 (x ∷ ids) in
    get_ordered_params_lem m
      (lit (codes "DELETE FROM ") ∷ lit v.model ∷ lit (codes "\nWHERE id IN (") ∷ tail) (x ∷ ids)
      (
        refl,
        (
          h,
          (
            refl,
            IsSpaced-append (id_list (x ∷ ids)) _ (id_list-IsSpaced (x ∷ ids)) (refl, tt) refl,
          ),
        ),
      )
      (Sends-close m (id_list (x ∷ ids)) (lit (codes ");") ∷ []) (x ∷ ids)
        (id_list-Sends [] (x ∷ ids)) refl)
