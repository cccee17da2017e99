-- ===== src/Expression/Build.antt =====
-- src/expression.rs: how a `ValExpr` becomes an expression that can be evaluated.
use r_universal_db.Base.{
  ℕ, suc, zero, Bool, true, false, ◌&&◌, Option, none, some, List, [], ◌∷◌, if◌then◌else◌, is_some,
  ◌==◌, nat_ord, list_ord, ◌+◌,
}
use r_universal_db.BTreeMap.{BTreeMap, get}
use r_universal_db.Value.{
  Str, int, bool, string, ColValN, lookup, ColType, int_type, bool_type, string_type,
}
use r_universal_db.Value.Int32.{parse_i32}
use r_universal_db.Expression.{
  generic_error, invalid_simple_expr, EvalResult, ok, err, panic, ◌>>=◌, Literal, number,
  quoted_string, boolean, null, ColumnRef, column_ref_ord, ValExpr, column_ref, unary_expr,
  binary_expr, literal, subquery, CExpr, c_unary, c_binary, c_value, KbExpr, key_column_ref,
  kb_unary, kb_binary, kb_value, unknown_value,
}

unfoldable pub construct_colvaln : Literal → EvalResult ColValN
construct_colvaln (number num_string) = elim (parse_i32 num_string) [
  | none ↦ err generic_error
  | some parsed_num ↦ ok (some (int parsed_num))
]
construct_colvaln (quoted_string string_val) = ok (some (string string_val))
construct_colvaln (boolean bool_val) = ok (some (bool bool_val))
construct_colvaln null = ok none

-- `vec.get(i)`
unfoldable pub nth : {A : Type 0} → List A → ℕ → Option A
nth [] i = none
nth (x ∷ xs) zero = some x
nth (x ∷ xs) (suc i) = nth xs i

abbrev pub expect : {A : Type 0} → Option A → EvalResult A
expect none = panic
expect (some a) = ok a

unfoldable pub contains_key_col_ref : Str → List (Str × ColType) → ColumnRef → Bool
unfolding lookup
contains_key_col_ref source_name key_cols col =
    (col.table_name == source_name) && is_some (lookup key_cols col.col_name)

module _ {Q : Type 0} where
  -- The expression, and `next_subquery_idx` after it.
  unfoldable pub construct_cexpr :
      ValExpr Q → BTreeMap ColumnRef ColValN → List ColValN → ℕ → EvalResult (CExpr × ℕ)
  construct_cexpr (column_ref col) col_map subquery_vals next =
      expect (get col col_map) >>= λ val. ok (c_value val, next)
  construct_cexpr (unary_expr op expr) col_map subquery_vals next =
      construct_cexpr expr col_map subquery_vals next >>= λ r. ok (c_unary op r.0, r.1)
  construct_cexpr (binary_expr op left right) col_map subquery_vals next =
      construct_cexpr left col_map subquery_vals next >>= λ l.
      construct_cexpr right col_map subquery_vals l.1 >>= λ r. ok (c_binary op l.0 r.0, r.1)
  construct_cexpr (literal val) col_map subquery_vals next =
      construct_colvaln val >>= λ v. ok (c_value v, next)
  construct_cexpr (subquery query) col_map subquery_vals next =
      expect (nth subquery_vals next) >>= λ v. ok (c_value v, next + 1)

  unfoldable pub construct_kb_expr :
      ValExpr Q → BTreeMap ColumnRef ColValN → Str → List (Str × ColType) → EvalResult KbExpr
  construct_kb_expr (column_ref col) col_map source_name key_cols = elim (get col col_map) [
    | some val ↦ ok (kb_value val)
    | none ↦ ok (
        if contains_key_col_ref source_name key_cols col
        then key_column_ref col.col_name
        else unknown_value)
  ]
  construct_kb_expr (unary_expr op expr) col_map source_name key_cols =
      construct_kb_expr expr col_map source_name key_cols >>= λ e. ok (kb_unary op e)
  construct_kb_expr (binary_expr op left right) col_map source_name key_cols =
      construct_kb_expr left col_map source_name key_cols >>= λ l.
      construct_kb_expr right col_map source_name key_cols >>= λ r. ok (kb_binary op l r)
  construct_kb_expr (literal val) col_map source_name key_cols =
      construct_colvaln val >>= λ v. ok (kb_value v)
  construct_kb_expr (subquery query) col_map source_name key_cols = ok unknown_value

unfoldable pub construct_simple_cexpr : {Q : Type 0} → ValExpr Q → EvalResult CExpr
construct_simple_cexpr (column_ref col) = err invalid_simple_expr
construct_simple_cexpr (unary_expr op expr) = construct_simple_cexpr expr >>= λ e. ok (c_unary op e)
construct_simple_cexpr (binary_expr op left right) =
    construct_simple_cexpr left >>= λ l. construct_simple_cexpr right >>= λ r. ok (c_binary op l r)
construct_simple_cexpr (literal val) = construct_colvaln val >>= λ v. ok (c_value v)
construct_simple_cexpr (subquery query) = err invalid_simple_expr

-- The types match, where `NULL` is of every type.
unfoldable pub does_types_match : ColType → ColValN → Bool
does_types_match int_type (some (int _)) = true
does_types_match bool_type (some (bool _)) = true
does_types_match string_type (some (string _)) = true
does_types_match _ none = true
does_types_match _ _ = false
