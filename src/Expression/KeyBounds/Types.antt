-- ===== src/Expression/KeyBounds/Types.antt =====
-- The comparisons on numbers, Booleans and strings bound their operands. Only equality is defined on
-- Booleans and strings.
use r_universal_db.Base.{
  ℕ, Bool, true, none, some, Ord, nat_ord, bool_ord, list_ord, list_same_iff, list_before_irrefl,
  ◌≡◌, ◌≢◌, arith,
}
use r_universal_db.Value.{Str, ColVal, int, bool, string}
use r_universal_db.Region.{ColBound, BoundType, int_bound_type, bool_bound_type, string_bound_type}
use r_universal_db.Region.Bounds.{in_bound}
use r_universal_db.Expression.{
  ok, BinaryOp, gt, lt, gt_eq, lt_eq, spaceship, eq, evaluate_binary_op,
}
use r_universal_db.Expression.KeyBounds.{above, below, at_least, at_most, exactly}
use r_universal_db.Expression.KeyBounds.Leaf.{Bounding}
use r_universal_db.Expression.KeyBounds.Sound.{Compares}

-- Where the values of a type are those of a variant, the variant can be put for them.
module _ {T : Type 0} ⦃o : Ord T⦄ ⦃b : BoundType T⦄ (variant : T → ColVal)
    (cast_variant : (v : ColVal) (t : T) → b.col_val_cast v ≡ some t → v ≡ variant t) where
  of_variant :
      (op : BinaryOp) (f g : T → ColBound T)
      → ((t u : T)
          → evaluate_binary_op op (some (variant t)) (some (variant u)) ≡ ok (some (bool true))
          → in_bound (f u) t ≡ true)
      → ((t u : T)
          → evaluate_binary_op op (some (variant u)) (some (variant t)) ≡ ok (some (bool true))
          → in_bound (g u) t ≡ true)
      → ((t : T) → evaluate_binary_op op (some (variant t)) none ≢ ok (some (bool true)))
      → ((t : T) → evaluate_binary_op op none (some (variant t)) ≢ ok (some (bool true)))
      → (w : ColVal) (t : T) → b.col_val_cast w ≡ some t
      → Bounding op f g w t
  of_variant op f g l r nr nl w t e = rw (cast_variant w t e) (record {
    on_left = λ v u c h. l t u (rw (cast_variant v u c) at h);
    on_right = λ v u c h. r t u (rw (cast_variant v u c) at h);
    null_right = nr t;
    null_left = nl t;
  })

cast-int : (v : ColVal) (t : ℕ) → int_bound_type.col_val_cast v ≡ some t → v ≡ int t
cast-int (int x) t e = cc
cast-int v t e = absurd (ground (arith, e))

pub int_col-Compares : Compares ℕ
unfolding evaluate_binary_op
int_col-Compares = record {
  by_gt =
      of_variant int cast-int gt above below (λ t u h. ground arith) (λ t u h. ground arith)
        (λ t. cc) (λ t. cc);
  by_lt =
      of_variant int cast-int lt below above (λ t u h. ground arith) (λ t u h. ground arith)
        (λ t. cc) (λ t. cc);
  by_gt_eq =
      of_variant int cast-int gt_eq at_least at_most (λ t u h. ground arith) (λ t u h. ground arith)
        (λ t. cc) (λ t. cc);
  by_lt_eq =
      of_variant int cast-int lt_eq at_most at_least (λ t u h. ground arith) (λ t u h. ground arith)
        (λ t. cc) (λ t. cc);
  by_spaceship =
      of_variant int cast-int spaceship exactly exactly (λ t u h. ground arith)
        (λ t u h. ground arith) (λ t. cc) (λ t. cc);
  by_eq =
      of_variant int cast-int eq exactly exactly (λ t u h. ground arith) (λ t u h. ground arith)
        (λ t. cc) (λ t. cc);
}

cast-bool : (v : ColVal) (t : Bool) → bool_bound_type.col_val_cast v ≡ some t → v ≡ bool t
cast-bool (bool x) t e = cc
cast-bool v t e = absurd (ground (arith, e))

pub bool_col-Compares : Compares Bool
unfolding evaluate_binary_op
bool_col-Compares = record {
  by_gt =
      of_variant bool cast-bool gt above below (λ t u h. ground arith) (λ t u h. ground arith)
        (λ t. cc) (λ t. cc);
  by_lt =
      of_variant bool cast-bool lt below above (λ t u h. ground arith) (λ t u h. ground arith)
        (λ t. cc) (λ t. cc);
  by_gt_eq =
      of_variant bool cast-bool gt_eq at_least at_most (λ t u h. ground arith)
        (λ t u h. ground arith) (λ t. cc) (λ t. cc);
  by_lt_eq =
      of_variant bool cast-bool lt_eq at_most at_least (λ t u h. ground arith)
        (λ t u h. ground arith) (λ t. cc) (λ t. cc);
  by_spaceship =
      of_variant bool cast-bool spaceship exactly exactly (λ t u h. ground arith)
        (λ t u h. ground arith) (λ t. cc) (λ t. cc);
  by_eq =
      of_variant bool cast-bool eq exactly exactly (λ t u h. ground arith) (λ t u h. ground arith)
        (λ t. cc) (λ t. cc);
}

cast-string : (v : ColVal) (t : Str) → string_bound_type.col_val_cast v ≡ some t → v ≡ string t
cast-string (string x) t e = cc
cast-string v t e = absurd (ground (arith, e))

pub string_col-Compares : Compares Str
unfolding evaluate_binary_op
string_col-Compares = record {
  by_gt =
      of_variant string cast-string gt above below
        (λ t u h. ground (arith, list_same_iff t u, list_same_iff u t, list_before_irrefl t))
        (λ t u h. ground (arith, list_same_iff t u, list_same_iff u t, list_before_irrefl t))
        (λ t. cc) (λ t. cc);
  by_lt =
      of_variant string cast-string lt below above
        (λ t u h. ground (arith, list_same_iff t u, list_same_iff u t, list_before_irrefl t))
        (λ t u h. ground (arith, list_same_iff t u, list_same_iff u t, list_before_irrefl t))
        (λ t. cc) (λ t. cc);
  by_gt_eq =
      of_variant string cast-string gt_eq at_least at_most
        (λ t u h. ground (arith, list_same_iff t u, list_same_iff u t, list_before_irrefl t))
        (λ t u h. ground (arith, list_same_iff t u, list_same_iff u t, list_before_irrefl t))
        (λ t. cc) (λ t. cc);
  by_lt_eq =
      of_variant string cast-string lt_eq at_most at_least
        (λ t u h. ground (arith, list_same_iff t u, list_same_iff u t, list_before_irrefl t))
        (λ t u h. ground (arith, list_same_iff t u, list_same_iff u t, list_before_irrefl t))
        (λ t. cc) (λ t. cc);
  by_spaceship =
      of_variant string cast-string spaceship exactly exactly
        (λ t u h. ground (arith, list_same_iff t u, list_same_iff u t, list_before_irrefl t))
        (λ t u h. ground (arith, list_same_iff t u, list_same_iff u t, list_before_irrefl t))
        (λ t. cc) (λ t. cc);
  by_eq =
      of_variant string cast-string eq exactly exactly
        (λ t u h. ground (arith, list_same_iff t u, list_same_iff u t, list_before_irrefl t))
        (λ t u h. ground (arith, list_same_iff t u, list_same_iff u t, list_before_irrefl t))
        (λ t. cc) (λ t. cc);
}
