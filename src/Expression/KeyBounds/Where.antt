-- ===== src/Expression/KeyBounds/Where.antt =====
-- A WHERE clause, as it is evaluated for a row and as it is turned into a region of keys.
use r_universal_db.Base.{
  ℕ, true, Option, none, some, List, [], ◌∷◌, nat_ord, list_ord, ◌≡◌, ◌∙◌, refl, sym, ap, arith,
  Option-cases, Bool-cases, inl, inr,
}
use r_universal_db.BTreeMap.{BTreeMap, get}
use r_universal_db.Value.{Str, ColVal, bool, ColValN, ColType}
use r_universal_db.Region.{KeyBound}
use r_universal_db.Region.Isolation.Laws.{in_key, in_rows}
use r_universal_db.Expression.{
  EvalResult, ok, err, panic, >>=-ok, ColumnRef, column_ref_ord, ValExpr, column_ref, unary_expr,
  binary_expr, literal, subquery, CExpr, c_unary, c_binary, c_value, KbExpr, key_column_ref,
  kb_unary, kb_binary, kb_value, unknown_value, evaluate_c_expr, is_true,
}
use r_universal_db.Expression.Build.{
  construct_colvaln, construct_cexpr, construct_kb_expr, contains_key_col_ref, expect,
}
use r_universal_db.Expression.KeyBounds.{compute_key_region}
use r_universal_db.Expression.KeyBounds.Leaf.{Stands}
use r_universal_db.Expression.KeyBounds.KeyRegion.{Makes, key_of, Typed, region_loop_lem}

is_true_lem : (v : ColValN) → is_true v ≡ ok true → v ≡ some (bool true)
unfolding is_true
is_true_lem v h = ground (arith, h)

expect_lem : {A : Type 0} (o : Option A) (a : A) → expect o ≡ ok a → o ≡ some a
expect_lem none a h = absurd (cc)
expect_lem (some b) a h = cc

ok_injective : {A : Type 0} (a b : A) → ok a ≡ ok b → a ≡ b
ok_injective a b h = cc

-- The evaluation for a row knows what the region knows, and the key columns of the row.
pub record Knows (source_name : Str) (key_cols : List (Str × ColType)) (row : Str → ColVal)
    (col_map full_map : BTreeMap ColumnRef ColValN) : Type 0 where
  pub outer : (col : ColumnRef) (v : ColValN) → get col col_map ≡ some v → get col full_map ≡ some v
  pub inner :
      (col : ColumnRef)
      → contains_key_col_ref source_name key_cols col ≡ true
      → get col full_map ≡ some (some (row col.col_name))

module _ {Q : Type 0} (source_name : Str) (key_cols : List (Str × ColType)) (row : Str → ColVal)
    (col_map full_map : BTreeMap ColumnRef ColValN)
    (knows : Knows source_name key_cols row col_map full_map) where
  construct-Stands :
      (expr : ValExpr Q) (vals : List ColValN) (next next' : ℕ) (k : KbExpr) (c : CExpr)
      → construct_kb_expr expr col_map source_name key_cols ≡ ok k
      → construct_cexpr expr full_map vals next ≡ ok (c, next')
      → Stands row k c
  unfolding construct_kb_expr construct_cexpr
  construct-Stands (column_ref col) vals next next' k c h run =
      let (v, at, done) = >>=-ok (expect (get col full_map)) _ (c, next') run in
      let found = expect_lem (get col full_map) v at in
      let value : c_value v ≡ c = ap (λ r. r.0) (ok_injective (c_value v, next) (c, next') done) in
      elim (Option-cases (get col col_map)) [
        | inr (w, e) ↦
            let made : kb_value w ≡ k = ground (arith, e, h) in
            let same : v ≡ w = ground (arith, found, knows.outer col w e) in
            rw (← made) (sym value ∙ ap c_value same)
        | inl e ↦ elim (Bool-cases (contains_key_col_ref source_name key_cols col)) [
          | inl key ↦
              let made : key_column_ref col.col_name ≡ k = ground (arith, e, key, h) in
              let same : v ≡ some (row col.col_name) = ground (arith, found, knows.inner col key) in
              rw (← made) (sym value ∙ ap c_value same)
          | inr other ↦ let made : unknown_value ≡ k = ground (arith, e, other, h) in rw (← made) tt
        ]
      ]
  construct-Stands (unary_expr op expr) vals next next' k c h run =
      let (k1, at, done) = >>=-ok (construct_kb_expr expr col_map source_name key_cols) _ k h in
      let (r, at', done') = >>=-ok (construct_cexpr expr full_map vals next) _ (c, next') run in
      let made = ok_injective (kb_unary op k1) k done in
      let value : c_unary op r.0 ≡ c =
        ap (λ r. r.0) (ok_injective (c_unary op r.0, r.1) (c, next') done') in
      rw (← made) (r.0, sym value, construct-Stands expr vals next r.1 k1 r.0 at at')
  construct-Stands (binary_expr op left right) vals next next' k c h run =
      let (k1, at1, h1) = >>=-ok (construct_kb_expr left col_map source_name key_cols) _ k h in
      let (k2, at2, done) = >>=-ok (construct_kb_expr right col_map source_name key_cols) _ k h1 in
      let (r1, at1', run1) = >>=-ok (construct_cexpr left full_map vals next) _ (c, next') run in
      let (r2, at2', done') = >>=-ok (construct_cexpr right full_map vals r1.1) _ (c, next') run1 in
      let made = ok_injective (kb_binary op k1 k2) k done in
      let value : c_binary op r1.0 r2.0 ≡ c =
        ap (λ r. r.0) (ok_injective (c_binary op r1.0 r2.0, r2.1) (c, next') done') in
      rw (← made) (
        r1.0,
        r2.0,
        sym value,
        construct-Stands left vals next r1.1 k1 r1.0 at1 at1',
        construct-Stands right vals r1.1 r2.1 k2 r2.0 at2 at2',
      )
  construct-Stands (literal val) vals next next' k c h run =
      let (w, at, done) = >>=-ok (construct_colvaln val) _ k h in
      let (w', at', done') = >>=-ok (construct_colvaln val) _ (c, next') run in
      let made = ok_injective (kb_value w) k done in
      let same = ok_injective w w' (sym at ∙ at') in
      let value : c_value w' ≡ c =
        ap (λ r. r.0) (ok_injective (c_value w', next) (c, next') done') in
      rw (← made) (sym value ∙ ap c_value (sym same))
  construct-Stands (subquery query) vals next next' k c h run =
      rw (← ok_injective unknown_value k h) tt

  construct-Makes :
      (expr : ValExpr Q) (vals : List ColValN) (next next' : ℕ) (c : CExpr)
      (res : EvalResult KbExpr)
      → construct_kb_expr expr col_map source_name key_cols ≡ res
      → construct_cexpr expr full_map vals next ≡ ok (c, next')
      → Makes row res c
  construct-Makes expr vals next next' c (ok k) h run =
      construct-Stands expr vals next next' k c h run
  construct-Makes expr vals next next' c (err e) h run = tt
  construct-Makes expr vals next next' c panic h run = tt

  -- If a WHERE clause, evaluated for a row with the values of col_map, with the key columns of the
  -- row and with any values of its other columns and its subqueries, is true, and the key columns
  -- have values of their types, then the key of the row is in the region that compute_key_region
  -- returns for the clause.
  pub compute_key_region_lem :
      (expr : ValExpr Q) (vals : List ColValN) (next next' : ℕ) (c : CExpr) (v : ColValN)
      (rows : List KeyBound)
      → Typed row key_cols
      → compute_key_region expr col_map source_name key_cols ≡ ok rows
      → construct_cexpr expr full_map vals next ≡ ok (c, next')
      → evaluate_c_expr c ≡ ok v
      → is_true v ≡ ok true
      → in_rows rows (key_of row key_cols) ≡ true
  unfolding compute_key_region in_rows in_key
  compute_key_region_lem expr vals next next' c v rows typed region built run holds =
      region_loop_lem row (construct_kb_expr expr col_map source_name key_cols) c key_cols
        (record { col_bounds = [] } ∷ []) rows []
        (construct-Makes expr vals next next' c _ refl built) (run ∙ ap ok (is_true_lem v holds))
        typed refl region
