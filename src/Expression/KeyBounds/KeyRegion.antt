-- ===== src/Expression/KeyBounds/KeyRegion.antt =====
-- Every row for which the expression is true has its key in the region that is computed.
use r_universal_db.Base.{
  true, some, List, [], ◌∷◌, ◌++◌, nat_ord, bool_ord, list_ord, ◌≡◌, refl, arith, All,
}
use mathlib.Core.List.{append_assoc, append-nil}
use r_universal_db.Value.{Str, ColVal, int, bool, string, ColType, int_type, bool_type, string_type}
use r_universal_db.Region.{
  PolyColBound, KeyBound, int_bound_type, bool_bound_type, string_bound_type,
}
use r_universal_db.Region.Isolation.Laws.{in_rows}
use r_universal_db.Expression.{
  EvalResult, ok, err, panic, >>=-ok, column_ref_ord, CExpr, KbExpr, evaluate_c_expr,
}
use r_universal_db.Expression.Build.{does_types_match}
use r_universal_db.Expression.KeyBounds.{
  compute_col_bounds, compute_poly_col_bounds, full_poly_col_bounds, extend_all, column_bounds,
  region_loop,
}
use r_universal_db.Expression.KeyBounds.Leaf.{Stands}
use r_universal_db.Expression.KeyBounds.Sound.{compute_col_bounds_lem}
use r_universal_db.Expression.KeyBounds.Types.{
  int_col-Compares, bool_col-Compares, string_col-Compares,
}
use r_universal_db.Expression.KeyBounds.Keys.{
  in_polys, in_polys-int, in_polys-bool, in_polys-string, in_rows-extend_all,
}

module _ (row : Str → ColVal) where
  -- The expression that a row evaluates, where the bounds are those of `res`.
  abbrev pub Makes : EvalResult KbExpr → CExpr → Type 0
  Makes (ok k) c = Stands row k c
  Makes (err e) c = Unit {0}
  Makes panic c = Unit {0}

  compute_poly_col_bounds_lem :
      (k : KbExpr) (c : CExpr) (name : Str) (t : ColType) (ps : List PolyColBound)
      → Stands row k c
      → evaluate_c_expr c ≡ ok (some (bool true))
      → does_types_match t (some (row name)) ≡ true
      → (v : ColVal) → row name ≡ v
      → compute_poly_col_bounds k name t ≡ ok ps
      → in_polys ps v ≡ true
  unfolding compute_poly_col_bounds does_types_match
  compute_poly_col_bounds_lem k c name int_type ps s h m (int n) e run =
      let (bounds, at, eq) = >>=-ok (compute_col_bounds k name) _ ps run in
      let inside =
        compute_col_bounds_lem int_col-Compares row name n (rw e refl) k c bounds s h at in
      ground (arith, in_polys-int bounds n, inside, eq)
  compute_poly_col_bounds_lem k c name bool_type ps s h m (bool n) e run =
      let (bounds, at, eq) = >>=-ok (compute_col_bounds k name) _ ps run in
      let inside =
        compute_col_bounds_lem bool_col-Compares row name n (rw e refl) k c bounds s h at in
      ground (arith, in_polys-bool bounds n, inside, eq)
  compute_poly_col_bounds_lem k c name string_type ps s h m (string n) e run =
      let (bounds, at, eq) = >>=-ok (compute_col_bounds k name) _ ps run in
      let inside =
        compute_col_bounds_lem string_col-Compares row name n (rw e refl) k c bounds s h at in
      ground (arith, in_polys-string bounds n, inside, eq)
  compute_poly_col_bounds_lem k c name t ps s h m v e run = let typed = rw e at m in absurd (cc)

  full_poly_col_bounds_lem :
      (t : ColType) (v : ColVal)
      → does_types_match t (some v) ≡ true
      → in_polys (full_poly_col_bounds t) v ≡ true
  unfolding full_poly_col_bounds in_polys does_types_match
  full_poly_col_bounds_lem int_type v h = ground arith
  full_poly_col_bounds_lem bool_type v h = ground arith
  full_poly_col_bounds_lem string_type v h = ground arith

  column_bounds_lem :
      (res : EvalResult KbExpr) (c : CExpr) (name : Str) (t : ColType) (ps : List PolyColBound)
      → Makes res c
      → evaluate_c_expr c ≡ ok (some (bool true))
      → does_types_match t (some (row name)) ≡ true
      → column_bounds res name t ≡ ok ps
      → in_polys ps (row name) ≡ true
  column_bounds_lem (ok k) c name t ps s h m run =
      compute_poly_col_bounds_lem k c name t ps s h m (row name) refl run
  column_bounds_lem (err e) c name t ps s h m run =
      ground (arith, full_poly_col_bounds_lem t (row name) m, run)
  column_bounds_lem panic c name t ps s h m run = absurd (cc)

  -- The key of the row, and that its values are of the types of the key columns.
  abbrev pub key_of : List (Str × ColType) → List ColVal
  key_of [] = []
  key_of ((name, t) ∷ key_cols) = row name ∷ key_of key_cols

  abbrev pub Typed : List (Str × ColType) → Type 0
  Typed = All (λ key_col. does_types_match (key_col.1) (some (row key_col.0)) ≡ true)

  pub region_loop_lem :
      (res : EvalResult KbExpr) (c : CExpr) (key_cols : List (Str × ColType))
      (kbs rows : List KeyBound) (prefix : List ColVal)
      → Makes res c
      → evaluate_c_expr c ≡ ok (some (bool true))
      → Typed key_cols
      → in_rows kbs prefix ≡ true
      → region_loop res kbs key_cols ≡ ok rows
      → in_rows rows (prefix ++ key_of key_cols) ≡ true
  unfolding region_loop
  region_loop_lem res c [] kbs rows prefix s h m inside run =
      rw append-nil (ground (arith, inside, run))
  region_loop_lem res c ((name, t) ∷ key_cols) kbs rows prefix s h m inside run =
      let (ps, at, run') = >>=-ok (column_bounds res name t) _ rows run in
      let one = column_bounds_lem res c name t ps s h m.0 at in
      rw (← append_assoc prefix (row name ∷ []) (key_of key_cols)) (
        region_loop_lem res c key_cols (extend_all kbs ps) rows (prefix ++ row name ∷ []) s h m.1
          (ground (arith, in_rows-extend_all kbs ps prefix (row name), one, inside)) run')
