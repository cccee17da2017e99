-- ===== src/Expression/KeyBounds/Sound.antt =====
-- What lies outside of the bounds of a column does not make the expression true.
use r_universal_db.Base.{
  true, none, some, List, Ord, nat_ord, bool_ord, list_ord, ◌≡◌, ◌⊎◌, refl, ap, ◌∙◌, arith, inl,
  inr,
}
use r_universal_db.Value.{Str, ColVal, bool, ColValN}
use r_universal_db.Region.{ColBound, BoundType, int_bound_type, bool_bound_type, string_bound_type}
use r_universal_db.Region.Bounds.{in_bounds, in_bounds-append, in_bounds-col_bounds_intersect}
use r_universal_db.Expression.{
  ok, >>=-ok, gt, lt, gt_eq, lt_eq, spaceship, eq, and_op, or_op, CExpr, KbExpr, kb_binary,
  kb_value, and_values, or_values, evaluate_binary_op, evaluate_c_expr,
}
use r_universal_db.Expression.KeyBounds.{
  above, below, at_least, at_most, exactly, compute_col_bounds,
}
use r_universal_db.Expression.KeyBounds.Leaf.{Stands, Bounding, boolean_leaf_constraint_lem}

-- The comparisons of the language agree with the order of a type of column values.
pub record Compares (T : Type 0) ⦃o : Ord T⦄ ⦃b : BoundType T⦄ : Type 0 where
  pub by_gt : (w : ColVal) (t : T) → b.col_val_cast w ≡ some t → Bounding gt above below w t
  pub by_lt : (w : ColVal) (t : T) → b.col_val_cast w ≡ some t → Bounding lt below above w t
  pub by_gt_eq :
      (w : ColVal) (t : T) → b.col_val_cast w ≡ some t → Bounding gt_eq at_least at_most w t
  pub by_lt_eq :
      (w : ColVal) (t : T) → b.col_val_cast w ≡ some t → Bounding lt_eq at_most at_least w t
  pub by_spaceship :
      (w : ColVal) (t : T) → b.col_val_cast w ≡ some t → Bounding spaceship exactly exactly w t
  pub by_eq : (w : ColVal) (t : T) → b.col_val_cast w ≡ some t → Bounding eq exactly exactly w t

and_values_lem :
    (l r : ColValN)
    → and_values l r ≡ ok (some (bool true))
    → (l ≡ some (bool true)) × (r ≡ some (bool true))
and_values_lem (some (bool true)) (some (bool true)) h = (refl, refl)
and_values_lem l r h = absurd (ground arith)

or_values_lem :
    (l r : ColValN)
    → or_values l r ≡ ok (some (bool true))
    → (l ≡ some (bool true)) ⊎ (r ≡ some (bool true))
or_values_lem (some (bool true)) r h = inl refl
or_values_lem l (some (bool true)) h = inr refl
or_values_lem l r h = absurd (ground arith)

module _ {T : Type 0} ⦃o : Ord T⦄ ⦃b : BoundType T⦄ (laws : Compares T) where
  pub compute_col_bounds_lem :
      (row : Str → ColVal) (col_name : Str) (t : T)
      → b.col_val_cast (row col_name) ≡ some t
      → (k : KbExpr) (c : CExpr) (bounds : List (ColBound T)) → Stands row k c
      → evaluate_c_expr c ≡ ok (some (bool true))
      → compute_col_bounds k col_name ≡ ok bounds
      → in_bounds bounds t ≡ true
  unfolding compute_col_bounds evaluate_c_expr in_bounds evaluate_binary_op
  compute_col_bounds_lem row col t w (kb_binary gt l r) c bounds s h k =
      boolean_leaf_constraint_lem row col gt l r c above below bounds t (laws.by_gt (row col) t w) s
        h k
  compute_col_bounds_lem row col t w (kb_binary lt l r) c bounds s h k =
      boolean_leaf_constraint_lem row col lt l r c below above bounds t (laws.by_lt (row col) t w) s
        h k
  compute_col_bounds_lem row col t w (kb_binary gt_eq l r) c bounds s h k =
      boolean_leaf_constraint_lem row col gt_eq l r c at_least at_most bounds t
        (laws.by_gt_eq (row col) t w) s h k
  compute_col_bounds_lem row col t w (kb_binary lt_eq l r) c bounds s h k =
      boolean_leaf_constraint_lem row col lt_eq l r c at_most at_least bounds t
        (laws.by_lt_eq (row col) t w) s h k
  compute_col_bounds_lem row col t w (kb_binary spaceship l r) c bounds s h k =
      boolean_leaf_constraint_lem row col spaceship l r c exactly exactly bounds t
        (laws.by_spaceship (row col) t w) s h k
  compute_col_bounds_lem row col t w (kb_binary eq l r) c bounds s h k =
      boolean_leaf_constraint_lem row col eq l r c exactly exactly bounds t
        (laws.by_eq (row col) t w) s h k
  compute_col_bounds_lem row col t w (kb_binary and_op l r) c bounds (d, e, i, sl, sr) h k =
      let (x, hx, h1) = >>=-ok (evaluate_c_expr d) _ (some (bool true)) (rw i at h) in
      let (y, hy, h2) = >>=-ok (evaluate_c_expr e) _ (some (bool true)) h1 in
      let (xt, yt) = and_values_lem x y h2 in
      let (ls, kl, k1) = >>=-ok (compute_col_bounds l col) _ bounds k in
      let (rs, kr, k2) = >>=-ok (compute_col_bounds r col) _ bounds k1 in
      let on_l = compute_col_bounds_lem row col t w l d ls sl (hx ∙ ap ok xt) kl in
      let on_r = compute_col_bounds_lem row col t w r e rs sr (hy ∙ ap ok yt) kr in
      ground (arith, in_bounds-col_bounds_intersect ls rs t, on_l, on_r, k2)
  compute_col_bounds_lem row col t w (kb_binary or_op l r) c bounds (d, e, i, sl, sr) h k =
      let (x, hx, h1) = >>=-ok (evaluate_c_expr d) _ (some (bool true)) (rw i at h) in
      let (y, hy, h2) = >>=-ok (evaluate_c_expr e) _ (some (bool true)) h1 in
      let (ls, kl, k1) = >>=-ok (compute_col_bounds l col) _ bounds k in
      let (rs, kr, k2) = >>=-ok (compute_col_bounds r col) _ bounds k1 in
      elim (or_values_lem x y h2) [
        | inl xt ↦
            let on_l = compute_col_bounds_lem row col t w l d ls sl (hx ∙ ap ok xt) kl in
            ground (arith, in_bounds-append ls rs t, on_l, k2)
        | inr yt ↦
            let on_r = compute_col_bounds_lem row col t w r e rs sr (hy ∙ ap ok yt) kr in
            ground (arith, in_bounds-append ls rs t, on_r, k2)
      ]
  compute_col_bounds_lem row col t w (kb_value none) c bounds s h k =
      let null_true = rw s at h in absurd (cc)
  compute_col_bounds_lem row col t w (kb_value (some (bool v))) c bounds s h k =
      let same = rw s at h in ground (arith, same, k)
  compute_col_bounds_lem row col t w _ c bounds s h k = ground (arith, k)
