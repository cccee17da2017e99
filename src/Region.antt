-- ===== src/Region.antt =====
-- src/common.rs: bounds of key columns and regions of rows; src/expression.rs: their intersections
-- and complements.
pub mod Bounds
pub mod Isolation
pub mod Sharding
use r_universal_db.Base.{
  ℕ, Bool, true, false, not, ◌&&◌, ◌||◌, Option, none, some, List, [], ◌∷◌, ◌++◌, if◌then◌else◌,
  Ord, ◌≺◌,
}
use r_universal_db.Value.{Str, ColVal, ColType, int_cast, bool_cast, string_cast}

pub data SingleBound (T : Type 0) : Type 0 where
  included excluded : T → SingleBound T
  unbounded : SingleBound T

pub record ColBound (T : Type 0) : Type 0 where
  pub start : SingleBound T
  pub end : SingleBound T

pub data PolyColBound : Type 0 where
  int_bound : ColBound ℕ → PolyColBound
  string_bound : ColBound Str → PolyColBound
  bool_bound : ColBound Bool → PolyColBound

pub record KeyBound : Type 0 where
  pub col_bounds : List PolyColBound

pub record ReadRegion : Type 0 where
  pub row_region : List KeyBound
  pub val_col_region : List Str

pub record WriteRegion : Type 0 where
  pub row_region : List KeyBound
  pub presence : Bool
  pub val_col_region : List Str

abbrev pub full_bound : {T : Type 0} → ColBound T
full_bound = record { start = unbounded; end = unbounded }

abbrev pub int_from_poly : PolyColBound → Option (ColBound ℕ)
int_from_poly (int_bound col_bound) = some col_bound
int_from_poly _ = none

abbrev pub bool_from_poly : PolyColBound → Option (ColBound Bool)
bool_from_poly (bool_bound col_bound) = some col_bound
bool_from_poly _ = none

abbrev pub string_from_poly : PolyColBound → Option (ColBound Str)
string_from_poly (string_bound col_bound) = some col_bound
string_from_poly _ = none

-- `trait BoundType`: the casts of a type of column values.
pub record BoundType (T : Type 0) : Type 0 where
  pub col_val_cast : ColVal → Option T
  pub from_poly : PolyColBound → Option (ColBound T)
  pub to_poly : ColBound T → PolyColBound

instance abbrev pub int_bound_type : BoundType ℕ
int_bound_type = record { col_val_cast = int_cast; from_poly = int_from_poly; to_poly = int_bound }

instance abbrev pub bool_bound_type : BoundType Bool
bool_bound_type = record {
  col_val_cast = bool_cast;
  from_poly = bool_from_poly;
  to_poly = bool_bound;
}

instance abbrev pub string_bound_type : BoundType Str
string_bound_type = record {
  col_val_cast = string_cast;
  from_poly = string_from_poly;
  to_poly = string_bound;
}

module _ {T : Type 0} ⦃o : Ord T⦄ where
  -- `b1 > b2` is `b2 ≺ b1`.
  abbrev pub later_start : SingleBound T → SingleBound T → SingleBound T
  later_start unbounded r = r
  later_start l unbounded = l
  later_start (excluded b1) (included b2) = if b1 ≺ b2 then included b2 else excluded b1
  later_start (included b1) (included b2) = if b2 ≺ b1 then included b1 else included b2
  later_start (excluded b1) (excluded b2) = if b2 ≺ b1 then excluded b1 else excluded b2
  later_start (included b1) (excluded b2) = if b2 ≺ b1 then included b1 else excluded b2

  abbrev pub earlier_end : SingleBound T → SingleBound T → SingleBound T
  earlier_end unbounded r = r
  earlier_end l unbounded = l
  earlier_end (excluded b1) (included b2) = if b2 ≺ b1 then included b2 else excluded b1
  earlier_end (included b1) (included b2) = if b1 ≺ b2 then included b1 else included b2
  earlier_end (excluded b1) (excluded b2) = if b1 ≺ b2 then excluded b1 else excluded b2
  earlier_end (included b1) (excluded b2) = if b1 ≺ b2 then included b1 else excluded b2

  unfoldable pub col_bound_intersect_interval :
      ColBound T → ColBound T → SingleBound T × SingleBound T
  col_bound_intersect_interval left right =
      (later_start left.start right.start, earlier_end left.end right.end)

  -- `b1 >= b2` is the negation of `b1 ≺ b2`.
  unfoldable pub is_surely_interval_empty : SingleBound T × SingleBound T → Bool
  is_surely_interval_empty (unbounded, _) = false
  is_surely_interval_empty (_, unbounded) = false
  is_surely_interval_empty (included b1, included b2) = b2 ≺ b1
  is_surely_interval_empty (excluded b1, excluded b2) = not (b1 ≺ b2)
  is_surely_interval_empty (included b1, excluded b2) = not (b1 ≺ b2)
  is_surely_interval_empty (excluded b1, included b2) = not (b1 ≺ b2)

  -- The inner loop of `col_bounds_intersect`, for one left bound, and the outer one.
  unfoldable pub intersect_one : ColBound T → List (ColBound T) → List (ColBound T)
  intersect_one left [] = []
  intersect_one left (right ∷ rights) =
      let (lower, upper) = col_bound_intersect_interval left right in
      let rest = intersect_one left rights in
      if not (is_surely_interval_empty (lower, upper))
      then record { start = lower; end = upper } ∷ rest
      else rest

  unfoldable pub col_bounds_intersect : List (ColBound T) → List (ColBound T) → List (ColBound T)
  col_bounds_intersect [] rights = []
  col_bounds_intersect (left ∷ lefts) rights =
      intersect_one left rights ++ col_bounds_intersect lefts rights

  abbrev pub two_sides : SingleBound T → SingleBound T → List (ColBound T)
  two_sides e s = record { start = unbounded; end = e } ∷ record { start = s; end = unbounded } ∷ []

  unfoldable pub invert_interval : SingleBound T → SingleBound T → List (ColBound T)
  invert_interval unbounded unbounded = []
  invert_interval unbounded (included b) = record { start = excluded b; end = unbounded } ∷ []
  invert_interval unbounded (excluded b) = record { start = included b; end = unbounded } ∷ []
  invert_interval (included b) unbounded = record { start = unbounded; end = excluded b } ∷ []
  invert_interval (included b1) (included b2) =
      if b2 ≺ b1 then full_bound ∷ [] else two_sides (excluded b1) (excluded b2)
  invert_interval (included b1) (excluded b2) =
      if not (b1 ≺ b2) then full_bound ∷ [] else two_sides (excluded b1) (included b2)
  invert_interval (excluded b) unbounded = record { start = unbounded; end = included b } ∷ []
  invert_interval (excluded b1) (included b2) =
      if not (b1 ≺ b2) then full_bound ∷ [] else two_sides (included b1) (excluded b2)
  invert_interval (excluded b1) (excluded b2) =
      if not (b1 ≺ b2) then full_bound ∷ [] else two_sides (included b1) (included b2)

  unfoldable pub invert_col_bound : ColBound T → List (ColBound T)
  invert_col_bound bound = invert_interval bound.start bound.end

  -- The loop of `invert_col_bounds`.
  unfoldable pub invert_loop : List (ColBound T) → List (ColBound T) → List (ColBound T)
  invert_loop cum [] = cum
  invert_loop cum (bound ∷ bounds) =
      invert_loop (col_bounds_intersect cum (invert_col_bound bound)) bounds

  unfoldable pub invert_col_bounds : List (ColBound T) → List (ColBound T)
  invert_col_bounds bounds = invert_loop (full_bound ∷ []) bounds

  unfoldable pub might_col_intersect : ColBound T → ColBound T → Bool
  might_col_intersect bound1 bound2 =
      not (is_surely_interval_empty (col_bound_intersect_interval bound1 bound2))
