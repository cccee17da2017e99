-- ===== src/Expression/KeyBounds.antt =====
-- src/expression.rs: the key bounds of an expression. The evaluation of a part of it may panic, and
-- then so does the code; an error in it is ignored.
pub mod Leaf
pub mod Sound
pub mod Types
pub mod Keys
pub mod KeyRegion
pub mod Where
use r_universal_db.Base.{
  ℕ, Bool, true, false, Option, none, some, List, [], ◌∷◌, ◌++◌, map, if◌then◌else◌, Ord, ◌==◌,
  nat_ord, bool_ord, list_ord,
}
use r_universal_db.BTreeMap.{BTreeMap}
use r_universal_db.Value.{
  Str, ColVal, int, bool, string, ColValN, ColType, int_type, bool_type, string_type,
}
use r_universal_db.Region.{
  included, excluded, unbounded, ColBound, full_bound, PolyColBound, int_bound, bool_bound,
  string_bound, KeyBound, BoundType, int_bound_type, bool_bound_type, string_bound_type,
  col_bounds_intersect,
}
use r_universal_db.Expression.{
  EvalResult, ok, err, panic, ◌>>=◌, BinaryOp, plus, minus, multiply, divide, modulus,
  string_concat, gt, lt, gt_eq, lt_eq, spaceship, eq, not_eq, and_op, or_op, ColumnRef, ValExpr,
  KbExpr, key_column_ref, kb_unary, kb_binary, kb_value, unknown_value, evaluate_kb_expr,
}
use r_universal_db.Expression.Build.{construct_kb_expr}

module _ {T : Type 0} ⦃o : Ord T⦄ ⦃b : BoundType T⦄ where
  -- For the value of the side that is not the key column.
  abbrev pub leaf_side :
      (T → ColBound T) → EvalResult (Option ColValN) → EvalResult (List (ColBound T))
  leaf_side f (ok (some none)) = ok []
  leaf_side f (ok (some (some val))) = elim (b.col_val_cast val) [
    | none ↦ ok (full_bound ∷ [])
    | some t ↦ ok (f t ∷ [])
  ]
  leaf_side f (ok none) = ok (full_bound ∷ [])
  leaf_side f (err e) = ok (full_bound ∷ [])
  leaf_side f panic = panic

  -- For the value of the whole comparison, where no side is a key column.
  abbrev pub leaf_value : EvalResult (Option ColValN) → EvalResult (List (ColBound T))
  leaf_value (ok (some none)) = ok []
  leaf_value (ok (some (some (bool false)))) = ok []
  leaf_value panic = panic
  leaf_value _ = ok (full_bound ∷ [])

  unfoldable pub boolean_leaf_constraint :
      KbExpr
      → Str
      → KbExpr
      → KbExpr
      → (T → ColBound T)
      → (T → ColBound T)
      → EvalResult (List (ColBound T))
  boolean_leaf_constraint kb_expr col_name (key_column_ref key_col_name) right left_f right_f =
      if key_col_name == col_name
      then leaf_side left_f (evaluate_kb_expr right)
      else ok (full_bound ∷ [])
  boolean_leaf_constraint kb_expr col_name left (key_column_ref key_col_name) left_f right_f =
      if key_col_name == col_name
      then leaf_side right_f (evaluate_kb_expr left)
      else ok (full_bound ∷ [])
  boolean_leaf_constraint kb_expr col_name left right left_f right_f =
      leaf_value (evaluate_kb_expr kb_expr)

  abbrev pub above : T → ColBound T
  above val = record { start = excluded val; end = unbounded }

  abbrev pub below : T → ColBound T
  below val = record { start = unbounded; end = excluded val }

  abbrev pub at_least : T → ColBound T
  at_least val = record { start = included val; end = unbounded }

  abbrev pub at_most : T → ColBound T
  at_most val = record { start = unbounded; end = included val }

  abbrev pub exactly : T → ColBound T
  exactly val = record { start = included val; end = included val }

  abbrev pub merged_col_bounds : List (ColBound T) → List (ColBound T)
  merged_col_bounds col_bounds = col_bounds

  abbrev pub value_bounds : ColValN → List (ColBound T)
  value_bounds none = []
  value_bounds (some (bool bool_val)) = if bool_val then full_bound ∷ [] else []
  value_bounds (some _) = full_bound ∷ []

  unfoldable pub compute_col_bounds : KbExpr → Str → EvalResult (List (ColBound T))
  unfolding boolean_leaf_constraint
  compute_col_bounds (key_column_ref _) col_name = ok (full_bound ∷ [])
  compute_col_bounds (kb_unary _ _) col_name = ok (full_bound ∷ [])
  compute_col_bounds (kb_binary gt l r) col_name =
      boolean_leaf_constraint (kb_binary gt l r) col_name l r above below
  compute_col_bounds (kb_binary lt l r) col_name =
      boolean_leaf_constraint (kb_binary lt l r) col_name l r below above
  compute_col_bounds (kb_binary gt_eq l r) col_name =
      boolean_leaf_constraint (kb_binary gt_eq l r) col_name l r at_least at_most
  compute_col_bounds (kb_binary lt_eq l r) col_name =
      boolean_leaf_constraint (kb_binary lt_eq l r) col_name l r at_most at_least
  compute_col_bounds (kb_binary spaceship l r) col_name =
      boolean_leaf_constraint (kb_binary spaceship l r) col_name l r exactly exactly
  compute_col_bounds (kb_binary eq l r) col_name =
      boolean_leaf_constraint (kb_binary eq l r) col_name l r exactly exactly
  compute_col_bounds (kb_binary and_op l r) col_name =
      compute_col_bounds l col_name >>= λ left_bounds.
      compute_col_bounds r col_name >>= λ right_bounds.
      ok (merged_col_bounds (col_bounds_intersect left_bounds right_bounds))
  compute_col_bounds (kb_binary or_op l r) col_name =
      compute_col_bounds l col_name >>= λ left_bounds.
      compute_col_bounds r col_name >>= λ right_bounds.
      ok (merged_col_bounds (left_bounds ++ right_bounds))
  compute_col_bounds (kb_binary _ _ _) col_name = ok (full_bound ∷ [])
  compute_col_bounds (kb_value val) col_name = ok (value_bounds val)
  compute_col_bounds unknown_value col_name = ok (full_bound ∷ [])

unfoldable pub compute_poly_col_bounds : KbExpr → Str → ColType → EvalResult (List PolyColBound)
compute_poly_col_bounds kb_expr col_name int_type =
    compute_col_bounds {T = ℕ} kb_expr col_name >>= λ bounds. ok (map int_bound bounds)
compute_poly_col_bounds kb_expr col_name bool_type =
    compute_col_bounds {T = Bool} kb_expr col_name >>= λ bounds. ok (map bool_bound bounds)
compute_poly_col_bounds kb_expr col_name string_type =
    compute_col_bounds {T = Str} kb_expr col_name >>= λ bounds. ok (map string_bound bounds)

unfoldable pub full_poly_col_bounds : ColType → List PolyColBound
full_poly_col_bounds int_type = int_bound full_bound ∷ []
full_poly_col_bounds bool_type = bool_bound full_bound ∷ []
full_poly_col_bounds string_type = string_bound full_bound ∷ []

abbrev pub compress_row_region : List KeyBound → List KeyBound
compress_row_region row_region = row_region

-- The loops over the key bounds so far and the bounds of one more column.
unfoldable pub extend_one : KeyBound → List PolyColBound → List KeyBound
extend_one key_bound [] = []
extend_one key_bound (col_bound ∷ col_bounds) =
    record { col_bounds = key_bound.col_bounds ++ col_bound ∷ [] } ∷ extend_one key_bound col_bounds

unfoldable pub extend_all : List KeyBound → List PolyColBound → List KeyBound
extend_all [] col_bounds = []
extend_all (key_bound ∷ key_bounds) col_bounds =
    extend_one key_bound col_bounds ++ extend_all key_bounds col_bounds

-- The bounds of a column: all, where the expression could not be built.
abbrev pub column_bounds : EvalResult KbExpr → Str → ColType → EvalResult (List PolyColBound)
column_bounds (ok kb_expr) col_name t = compute_poly_col_bounds kb_expr col_name t
column_bounds (err e) col_name t = ok (full_poly_col_bounds t)
column_bounds panic col_name t = panic

-- The loop over the key columns.
unfoldable pub region_loop :
    EvalResult KbExpr → List KeyBound → List (Str × ColType) → EvalResult (List KeyBound)
region_loop kb_expr_res key_bounds [] = ok key_bounds
region_loop kb_expr_res key_bounds ((col_name, col_type) ∷ key_cols) =
    column_bounds kb_expr_res col_name col_type >>= λ col_bounds.
    region_loop kb_expr_res (compress_row_region (extend_all key_bounds col_bounds)) key_cols

unfoldable pub compute_key_region :
    {Q : Type 0}
    → ValExpr Q
    → BTreeMap ColumnRef ColValN
    → Str
    → List (Str × ColType)
    → EvalResult (List KeyBound)
compute_key_region expr col_map source_name key_cols =
    region_loop (construct_kb_expr expr col_map source_name key_cols)
      (record { col_bounds = [] } ∷ []) key_cols
