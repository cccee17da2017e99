-- ===== src/Expression/KeyBounds/Leaf.antt =====
-- What a comparison with a key column bounds. A `KbExpr` stands for the expressions in which each
-- key column is its value in a row, and each unknown value is any expression.
use r_universal_db.Base.{
  true, Option, none, some, List, Ord, ◌==◌, nat_ord, list_ord, list_same_iff, ◌≡◌, ◌≢◌, refl, ap,
  sym, ◌∙◌, arith, Option-cases, Bool-cases, inl, inr,
}
use r_universal_db.Value.{Str, ColVal, bool, ColValN}
use r_universal_db.Region.{ColBound, BoundType}
use r_universal_db.Region.Bounds.{in_bound, in_bounds}
use r_universal_db.Expression.{
  EvalResult, ok, err, panic, BinaryOp, CExpr, c_unary, c_binary, c_value, KbExpr, key_column_ref,
  kb_unary, kb_binary, kb_value, unknown_value, evaluate_unary_op, evaluate_binary_op,
  evaluate_c_expr, evaluate_kb_expr, >>=-ok, lift, unary_kb, binary_kb, both, UnaryOp,
}
use r_universal_db.Expression.KeyBounds.{leaf_side, leaf_value, boolean_leaf_constraint}

-- The key columns of the row have the values of `row`.
abbrev pub Stands : (Str → ColVal) → KbExpr → CExpr → Type 0
Stands row (key_column_ref name) c = c ≡ c_value (some (row name))
Stands row (kb_unary op k) c = (d : CExpr) × (c ≡ c_unary op d) × Stands row k d
Stands row (kb_binary op k l) c =
    (d : CExpr) × (e : CExpr) × (c ≡ c_binary op d e) × Stands row k d × Stands row l e
Stands row (kb_value v) c = c ≡ c_value v
Stands row unknown_value c = Unit {0}

lift_lem : (m : EvalResult ColValN) (v : ColValN) → lift m ≡ ok (some v) → m ≡ ok v
lift_lem (ok w) v h = cc
lift_lem (err e) v h = cc
lift_lem panic v h = cc

unary_kb_lem :
    (op : UnaryOp) (w : Option ColValN) (v : ColValN)
    → unary_kb op w ≡ ok (some v)
    → (x : ColValN) × (w ≡ some x) × (evaluate_unary_op op x ≡ ok v)
unary_kb_lem op none v h = absurd (cc)
unary_kb_lem op (some x) v h = (x, refl, lift_lem (evaluate_unary_op op x) v h)

binary_kb_lem :
    (op : BinaryOp) (l r : Option ColValN) (v : ColValN)
    → binary_kb op (both l r) ≡ ok (some v)
    → (x : ColValN) × (y : ColValN) × (l ≡ some x)
      × (r ≡ some y)
      × (evaluate_binary_op op x y ≡ ok v)
binary_kb_lem op none r v h = absurd (cc)
binary_kb_lem op (some x) none v h = absurd (cc)
binary_kb_lem op (some x) (some y) v h =
    (x, y, refl, refl, lift_lem (evaluate_binary_op op x y) v h)

-- What evaluates without the key columns and the unknown values, evaluates to the same in each row.
pub evaluate_c_expr-Stands :
    (row : Str → ColVal) (k : KbExpr) (c : CExpr) (v : ColValN)
    → Stands row k c
    → evaluate_kb_expr k ≡ ok (some v)
    → evaluate_c_expr c ≡ ok v
unfolding evaluate_kb_expr evaluate_c_expr
evaluate_c_expr-Stands row (key_column_ref name) c v s h = absurd (cc)
evaluate_c_expr-Stands row (kb_unary op k) c v (d, e, s) h =
    let (w, e1, h1) = >>=-ok (evaluate_kb_expr k) _ (some v) h in
    let (x, e2, h2) = unary_kb_lem op w v h1 in
    rw (e, evaluate_c_expr-Stands row k d x s (e1 ∙ ap ok e2)) h2
evaluate_c_expr-Stands row (kb_binary op k l) c v (d, f, e, s, t) h =
    let (w1, e1, h1) = >>=-ok (evaluate_kb_expr k) _ (some v) h in
    let (w2, e2, h2) = >>=-ok (evaluate_kb_expr l) _ (some v) h1 in
    let (x, y, e3, e4, h3) = binary_kb_lem op w1 w2 v h2 in
    rw
      (
        e,
        evaluate_c_expr-Stands row k d x s (e1 ∙ ap ok e3),
        evaluate_c_expr-Stands row l f y t (e2 ∙ ap ok e4),
      )
      h3
evaluate_c_expr-Stands row (kb_value w) c v s h = rw s (ground arith)
evaluate_c_expr-Stands row unknown_value c v s h = absurd (cc)

module _ {T : Type 0} ⦃o : Ord T⦄ ⦃b : BoundType T⦄ where
  leaf_side_lem :
      (f : T → ColBound T) (m : EvalResult (Option ColValN)) (bounds : List (ColBound T)) (t : T)
      → leaf_side f m ≡ ok bounds
      → m ≢ ok (some none)
      → ((v : ColVal) (u : T)
          → m ≡ ok (some (some v))
          → b.col_val_cast v ≡ some u
          → in_bound (f u) t ≡ true)
      → in_bounds bounds t ≡ true
  unfolding in_bounds
  leaf_side_lem f (ok none) bounds t h n k = ground arith
  leaf_side_lem f (ok (some none)) bounds t h n k = absurd (n refl)
  leaf_side_lem f (ok (some (some v))) bounds t h n k = elim (Option-cases (b.col_val_cast v)) [
    | inl other ↦ ground (arith, other)
    | inr (u, e) ↦ ground (arith, k v u refl e)
  ]
  leaf_side_lem f (err e) bounds t h n k = ground arith
  leaf_side_lem f panic bounds t h n k = cc

  leaf_value_lem :
      (m : EvalResult (Option ColValN)) (bounds : List (ColBound T)) (t : T)
      → leaf_value m ≡ ok bounds
      → ((v : ColValN) → m ≡ ok (some v) → v ≡ some (bool true))
      → in_bounds bounds t ≡ true
  unfolding in_bounds
  leaf_value_lem (ok none) bounds t h k = ground arith
  leaf_value_lem (ok (some v)) bounds t h k = let v_true = k v refl in ground (arith, v_true)
  leaf_value_lem (err e) bounds t h k = ground arith
  leaf_value_lem panic bounds t h k = absurd (cc)

evaluate_c_expr-binary :
    (op : BinaryOp) (c d e : CExpr) (x y : ColValN) (z : EvalResult ColValN)
    → c ≡ c_binary op d e
    → evaluate_c_expr d ≡ ok x
    → evaluate_c_expr e ≡ ok y
    → evaluate_c_expr c ≡ z
    → evaluate_binary_op op x y ≡ z
unfolding evaluate_c_expr
evaluate_c_expr-binary op c d e x y z i j k h =
    let run : evaluate_c_expr c ≡ evaluate_binary_op op x y = rw (i, j, k) refl in sym run ∙ h

module _ {T : Type 0} ⦃o : Ord T⦄ ⦃b : BoundType T⦄ where
  -- Where a comparison with the key value `w` is true, `w`, which is `t`, is in the bound of the
  -- other side.
  pub record Bounding (op : BinaryOp) (left_f right_f : T → ColBound T) (w : ColVal) (t : T)
      : Type 0 where
    pub on_left :
        (v : ColVal) (u : T)
        → b.col_val_cast v ≡ some u
        → evaluate_binary_op op (some w) (some v) ≡ ok (some (bool true))
        → in_bound (left_f u) t ≡ true
    pub on_right :
        (v : ColVal) (u : T)
        → b.col_val_cast v ≡ some u
        → evaluate_binary_op op (some v) (some w) ≡ ok (some (bool true))
        → in_bound (right_f u) t ≡ true
    pub null_right : evaluate_binary_op op (some w) none ≢ ok (some (bool true))
    pub null_left : evaluate_binary_op op none (some w) ≢ ok (some (bool true))

  left_side_lem :
      (row : Str → ColVal) (name : Str) (op : BinaryOp) (r : KbExpr) (c : CExpr)
      (left_f right_f : T → ColBound T) (bounds : List (ColBound T)) (t : T)
      → Bounding op left_f right_f (row name) t
      → Stands row (kb_binary op (key_column_ref name) r) c
      → evaluate_c_expr c ≡ ok (some (bool true))
      → leaf_side left_f (evaluate_kb_expr r) ≡ ok bounds
      → in_bounds bounds t ≡ true
  unfolding evaluate_c_expr
  left_side_lem row name op r c left_f right_f bounds t w (d, e, i, j, s) h k =
      let run = λ (v : ColValN) (m : evaluate_kb_expr r ≡ ok (some v)).
        evaluate_c_expr-binary op c d e (some (row name)) v _ i (rw j refl)
          (evaluate_c_expr-Stands row r e v s m) h in
      leaf_side_lem left_f (evaluate_kb_expr r) bounds t k (λ m. w.null_right (run none m))
        (λ v u m cast. w.on_left v u cast (run (some v) m))

  right_side_lem :
      (row : Str → ColVal) (name : Str) (op : BinaryOp) (l : KbExpr) (c : CExpr)
      (left_f right_f : T → ColBound T) (bounds : List (ColBound T)) (t : T)
      → Bounding op left_f right_f (row name) t
      → Stands row (kb_binary op l (key_column_ref name)) c
      → evaluate_c_expr c ≡ ok (some (bool true))
      → leaf_side right_f (evaluate_kb_expr l) ≡ ok bounds
      → in_bounds bounds t ≡ true
  unfolding evaluate_c_expr
  right_side_lem row name op l c left_f right_f bounds t w (d, e, i, s, j) h k =
      let run = λ (v : ColValN) (m : evaluate_kb_expr l ≡ ok (some v)).
        evaluate_c_expr-binary op c d e v (some (row name)) _ i
          (evaluate_c_expr-Stands row l d v s m) (rw j refl) h in
      leaf_side_lem right_f (evaluate_kb_expr l) bounds t k (λ m. w.null_left (run none m))
        (λ v u m cast. w.on_right v u cast (run (some v) m))

  pub boolean_leaf_constraint_lem :
      (row : Str → ColVal) (col_name : Str) (op : BinaryOp) (l r : KbExpr) (c : CExpr)
      (left_f right_f : T → ColBound T) (bounds : List (ColBound T)) (t : T)
      → Bounding op left_f right_f (row col_name) t
      → Stands row (kb_binary op l r) c
      → evaluate_c_expr c ≡ ok (some (bool true))
      → boolean_leaf_constraint (kb_binary op l r) col_name l r left_f right_f ≡ ok bounds
      → in_bounds bounds t ≡ true
  unfolding boolean_leaf_constraint in_bounds
  boolean_leaf_constraint_lem row col op (key_column_ref name) r c left_f right_f bounds t w s h k =
      elim (Bool-cases (name == col)) [
        | inl same ↦
            let e : name ≡ col = (list_same_iff name col).0 same in
            left_side_lem row name op r c left_f right_f bounds t (rw e w) s h
              (ground (arith, same))
        | inr other ↦ ground (arith, other)
      ]
  boolean_leaf_constraint_lem row col op l (key_column_ref name) c left_f right_f bounds t w s h k =
      elim (Bool-cases (name == col)) [
        | inl same ↦
            let e : name ≡ col = (list_same_iff name col).0 same in
            right_side_lem row name op l c left_f right_f bounds t (rw e w) s h
              (ground (arith, same))
        | inr other ↦ ground (arith, other)
      ]
  boolean_leaf_constraint_lem row col op l r c left_f right_f bounds t w s h k =
      leaf_value_lem (evaluate_kb_expr (kb_binary op l r)) bounds t k (λ v e.
        let run = evaluate_c_expr-Stands row (kb_binary op l r) c v s e in
        let same : ok v ≡ ok (some (bool true)) = sym run ∙ h in cc)
