-- ===== src/Tests/Expression.antt =====
-- The clause `t.k > 3` over a table `t` with a number `k` as its key, at a row with the key 5.
use r_universal_db.Base.{
  ℕ, ◌+◌, ◌-◌, List, [], ◌∷◌, some, ◌≡◌, refl, true, nat_ord, list_ord, list_same_iff, arith,
}
use r_universal_db.BTreeMap.{BTreeMap, get}
use r_universal_db.Value.{Str, ColVal, int, bool, ColValN, ColType, int_type, lookup}
use r_universal_db.Value.Int32.{origin, i32_add, i32_mul, i32_div, parse_i32, parse_digits}
use r_universal_db.Region.{excluded, unbounded, int_bound, KeyBound}
use r_universal_db.Region.Isolation.Laws.{in_rows}
use r_universal_db.Expression.{
  ok, panic, divide, gt, ColumnRef, column_ref_ord, ValExpr, column_ref, binary_expr, literal,
  number, c_binary, c_value, kb_binary, kb_value, evaluate_kb_expr, evaluate_c_expr,
  evaluate_binary_op, is_true,
}
use r_universal_db.Expression.Build.{
  construct_cexpr, construct_kb_expr, construct_colvaln, contains_key_col_ref, does_types_match,
}
use r_universal_db.Expression.KeyBounds.{
  extend_all, extend_one, compute_key_region, region_loop, compute_poly_col_bounds,
  compute_col_bounds, boolean_leaf_constraint,
}
use r_universal_db.Expression.KeyBounds.Leaf.{evaluate_c_expr-Stands}
use r_universal_db.Expression.KeyBounds.KeyRegion.{key_of}
use r_universal_db.Expression.KeyBounds.Where.{Knows, compute_key_region_lem}

-- "-12", "2147483648" and "-2147483648"
parse_signed : parse_i32 (45 ∷ 49 ∷ 50 ∷ []) ≡ some (origin - 12)
unfolding parse_digits parse_i32
parse_signed = refl

-- -12 * 7 + 100 is 16, and -7 / 2 is -3.
arithmetic_signed : i32_add (i32_mul (origin - 12) (origin + 7)) (origin + 100) ≡ origin + 16
arithmetic_signed = refl

division_truncates : i32_div (origin - 7) (origin + 2) ≡ some (origin - 3)
division_truncates = refl

-- The quotient 2^31 is not an `i32`.
division_overflow : evaluate_binary_op divide (some (int 0)) (some (int (origin - 1))) ≡ panic
unfolding evaluate_binary_op
division_overflow = refl

abbrev key_ref : ColumnRef
key_ref = record { table_name = 116 ∷ []; col_name = 107 ∷ [] }

abbrev clause : ValExpr ℕ
clause = binary_expr gt (column_ref key_ref) (literal (number (51 ∷ [])))

abbrev key_cols : List (Str × ColType)
key_cols = (107 ∷ [], int_type) ∷ []

abbrev row : Str → ColVal
row name = int (origin + 5)

abbrev full_map : BTreeMap ColumnRef ColValN
full_map = (key_ref, some (int (origin + 5))) ∷ []

row_known : Knows (116 ∷ []) key_cols row [] full_map
unfolding get contains_key_col_ref lookup
row_known = record {
  outer = λ col v h. absurd (cc);
  inner = λ col h. ground (arith, list_same_iff col.table_name (116 ∷ []), h);
}

abbrev region : List KeyBound
region =
    record {
      col_bounds = int_bound (record { start = excluded (origin + 3); end = unbounded }) ∷ [];
    }
    ∷ []

compute_key_region_example : in_rows region (key_of row key_cols) ≡ true
unfolding extend_all extend_one compute_key_region region_loop compute_poly_col_bounds
    compute_col_bounds boolean_leaf_constraint construct_kb_expr construct_colvaln construct_cexpr
    contains_key_col_ref lookup get evaluate_kb_expr evaluate_c_expr evaluate_binary_op is_true
    does_types_match parse_i32 parse_digits
compute_key_region_example =
    compute_key_region_lem (116 ∷ []) key_cols row [] full_map row_known clause [] 0 0
      (c_binary gt (c_value (some (int (origin + 5)))) (c_value (some (int (origin + 3)))))
      (some (bool true)) region (refl, tt) refl refl refl refl

evaluate_c_expr-Stands_example :
    evaluate_c_expr (c_binary gt (c_value (some (int 7))) (c_value (some (int 3))))
    ≡ ok (some (bool true))
unfolding evaluate_kb_expr evaluate_binary_op evaluate_c_expr
evaluate_c_expr-Stands_example =
    evaluate_c_expr-Stands row (kb_binary gt (kb_value (some (int 7))) (kb_value (some (int 3))))
      (c_binary gt (c_value (some (int 7))) (c_value (some (int 3)))) (some (bool true))
      (c_value (some (int 7)), c_value (some (int 3)), refl, refl, refl) refl
