-- ===== src/Expression/KeyBounds/Keys.antt =====
-- The keys in the bounds that are made column by column.
use r_universal_db.Base.{
  ℕ, Bool, false, ◌&&◌, ◌||◌, List, [], ◌∷◌, ◌++◌, map, nat_ord, bool_ord, list_ord, ◌≡◌, refl,
  arith,
}
use r_universal_db.Value.{Str, ColVal, int, bool, string}
use r_universal_db.Region.{ColBound, PolyColBound, int_bound, bool_bound, string_bound, KeyBound}
use r_universal_db.Region.Bounds.{in_bounds}
use r_universal_db.Region.Isolation.Laws.{in_poly, in_key, in_rows}
use r_universal_db.Expression.KeyBounds.{extend_one, extend_all}

-- A value is in one of the bounds of a column.
unfoldable pub in_polys : List PolyColBound → ColVal → Bool
in_polys [] v = false
in_polys (p ∷ ps) v = in_poly p v || in_polys ps v

pub in_polys-int :
    (bounds : List (ColBound ℕ)) (n : ℕ)
    → in_polys (map int_bound bounds) (int n) ≡ in_bounds bounds n
unfolding in_polys in_bounds
in_polys-int [] n = refl
in_polys-int (b ∷ bounds) n = ground (arith, in_polys-int bounds n)

pub in_polys-bool :
    (bounds : List (ColBound Bool)) (n : Bool)
    → in_polys (map bool_bound bounds) (bool n) ≡ in_bounds bounds n
unfolding in_polys in_bounds
in_polys-bool [] n = refl
in_polys-bool (b ∷ bounds) n = ground (arith, in_polys-bool bounds n)

pub in_polys-string :
    (bounds : List (ColBound Str)) (n : Str)
    → in_polys (map string_bound bounds) (string n) ≡ in_bounds bounds n
unfolding in_polys in_bounds
in_polys-string [] n = refl
in_polys-string (b ∷ bounds) n = ground (arith, in_polys-string bounds n)

pub in_key-append :
    (ps : List PolyColBound) (vs : List ColVal) (p : PolyColBound) (v : ColVal)
    → in_key (ps ++ p ∷ []) (vs ++ v ∷ []) ≡ (in_key ps vs && in_poly p v)
unfolding in_key
in_key-append [] [] p v = ground arith
in_key-append [] (w ∷ []) p v = ground arith
in_key-append [] (w ∷ x ∷ vs) p v = ground arith
in_key-append (q ∷ []) [] p v = ground arith
in_key-append (q ∷ r ∷ ps) [] p v = ground arith
in_key-append (q ∷ ps) (w ∷ vs) p v = ground (arith, in_key-append ps vs p v)

in_rows-append :
    (xs ys : List KeyBound) (key : List ColVal)
    → in_rows (xs ++ ys) key ≡ (in_rows xs key || in_rows ys key)
unfolding in_rows
in_rows-append [] ys key = refl
in_rows-append (x ∷ xs) ys key = ground (arith, in_rows-append xs ys key)

in_rows-extend_one :
    (kb : KeyBound) (ps : List PolyColBound) (vs : List ColVal) (v : ColVal)
    → in_rows (extend_one kb ps) (vs ++ v ∷ []) ≡ (in_key kb.col_bounds vs && in_polys ps v)
unfolding extend_one in_rows in_polys
in_rows-extend_one kb [] vs v = ground arith
in_rows-extend_one kb (p ∷ ps) vs v =
    ground (arith, in_key-append kb.col_bounds vs p v, in_rows-extend_one kb ps vs v)

pub in_rows-extend_all :
    (kbs : List KeyBound) (ps : List PolyColBound) (vs : List ColVal) (v : ColVal)
    → in_rows (extend_all kbs ps) (vs ++ v ∷ []) ≡ (in_rows kbs vs && in_polys ps v)
unfolding extend_all in_rows
in_rows-extend_all [] ps vs v = refl
in_rows-extend_all (kb ∷ kbs) ps vs v = ground (
  arith,
  in_rows-append (extend_one kb ps) (extend_all kbs ps) (vs ++ v ∷ []),
  in_rows-extend_one kb ps vs v,
  in_rows-extend_all kbs ps vs v,
)
