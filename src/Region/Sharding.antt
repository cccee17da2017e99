-- ===== src/Region/Sharding.antt =====
-- src/expression.rs: the regions of rows against the range of a tablet. src/common.rs:
-- `TabletKeyRange::into_col_bound`. A cast to another type is an `unwrap` of `None`.
pub mod Laws
use r_universal_db.Base.{
  ℕ, Bool, true, false, not, Option, none, some, List, [], ◌∷◌, if◌then◌else◌, Ord, nat_ord,
  bool_ord, list_ord, Result, ok, panic, ◌>>=◌, unwrap,
}
use r_universal_db.Value.{Str, ColVal, ColType, int_type, bool_type, string_type, TabletKeyRange}
use r_universal_db.Region.{
  SingleBound, included, excluded, unbounded, ColBound, full_bound, PolyColBound, KeyBound,
  BoundType, int_bound_type, bool_bound_type, string_bound_type, might_col_intersect,
  col_bound_intersect_interval,
}

module _ {T : Type 0} ⦃o : Ord T⦄ ⦃b : BoundType T⦄ where
  abbrev pub into_start : Option ColVal → Option (SingleBound T)
  into_start none = some unbounded
  into_start (some start) = elim (b.col_val_cast start) [ none ↦ none | some t ↦ some (included t) ]

  abbrev pub into_end : Option ColVal → Option (SingleBound T)
  into_end none = some unbounded
  into_end (some end) = elim (b.col_val_cast end) [ none ↦ none | some t ↦ some (excluded t) ]

  abbrev pub bound_of : Option (SingleBound T) → Option (SingleBound T) → Option (ColBound T)
  bound_of (some s) (some e) = some (record { start = s; end = e })
  bound_of _ _ = none

  unfoldable pub into_col_bound : TabletKeyRange → Option (ColBound T)
  into_col_bound range = bound_of (into_start range.range_start) (into_end range.range_end)

  -- Both casts, of the range and of the first bound of a key bound.
  abbrev pub both_bounds :
      Option (ColBound T) → Option (ColBound T) → Option (ColBound T × ColBound T)
  both_bounds (some r) (some f) = some (r, f)
  both_bounds _ _ = none

module _ (T : Type 0) ⦃o : Ord T⦄ ⦃b : BoundType T⦄ where
  unfoldable pub range_might_intersects_key_bound : TabletKeyRange → PolyColBound → Option Bool
  range_might_intersects_key_bound range first_poly_col_bound =
      elim (both_bounds (into_col_bound range) (b.from_poly first_poly_col_bound)) [
        | none ↦ none
        | some (range_col_bound, first_col_bound) ↦
            some (might_col_intersect range_col_bound first_col_bound)
      ]

  unfoldable pub range_col_bound_intersection : TabletKeyRange → PolyColBound → Option PolyColBound
  range_col_bound_intersection range first_poly_col_bound =
      elim (both_bounds (into_col_bound range) (b.from_poly first_poly_col_bound)) [
        | none ↦ none
        | some (range_col_bound, first_col_bound) ↦
            let (s, e) = col_bound_intersect_interval range_col_bound first_col_bound in
            some (b.to_poly (record { start = s; end = e }))
      ]

-- By the type of the first key column.
unfoldable pub might_by_type : ColType → TabletKeyRange → PolyColBound → Option Bool
unfolding range_might_intersects_key_bound
might_by_type int_type range p = range_might_intersects_key_bound ℕ range p
might_by_type bool_type range p = range_might_intersects_key_bound Bool range p
might_by_type string_type range p = range_might_intersects_key_bound Str range p

unfoldable pub intersection_by_type : ColType → TabletKeyRange → PolyColBound → Option PolyColBound
unfolding range_col_bound_intersection
intersection_by_type int_type range p = range_col_bound_intersection ℕ range p
intersection_by_type bool_type range p = range_col_bound_intersection Bool range p
intersection_by_type string_type range p = range_col_bound_intersection Str range p

-- `.first().unwrap()`
abbrev pub first_unwrap : {A : Type 0} → List A → Result A
first_unwrap [] = panic
first_unwrap (x ∷ xs) = ok x

unfoldable pub might_intersect_loop : ColType → TabletKeyRange → List KeyBound → Result Bool
might_intersect_loop t range [] = ok false
might_intersect_loop t range (key_bound ∷ row_region) =
    let rest = might_intersect_loop t range row_region in
    first_unwrap key_bound.col_bounds >>= λ col_bound.
    unwrap (might_by_type t range col_bound) >>= λ might. if might then ok true else rest

abbrev pub is_nonempty : {A : Type 0} → List A → Bool
is_nonempty [] = false
is_nonempty (x ∷ xs) = true

unfoldable pub range_might_intersect_row_region :
    List (Str × ColType) → TabletKeyRange → List KeyBound → Result Bool
range_might_intersect_row_region [] range row_region = ok (is_nonempty row_region)
range_might_intersect_row_region ((name, t) ∷ key_cols) range row_region =
    might_intersect_loop t range row_region

-- `*key_bound.col_bounds.first_mut().unwrap() = bound`
abbrev pub set_first : PolyColBound → List PolyColBound → Result (List PolyColBound)
set_first bound [] = panic
set_first bound (p ∷ ps) = ok (bound ∷ ps)

unfoldable pub intersection_loop : ColType → TabletKeyRange → List KeyBound → Result (List KeyBound)
intersection_loop t range [] = ok []
intersection_loop t range (key_bound ∷ row_region) =
    let rest = intersection_loop t range row_region in
    first_unwrap key_bound.col_bounds >>= λ col_bound.
    unwrap (intersection_by_type t range col_bound) >>= λ new_col_bound.
    set_first new_col_bound key_bound.col_bounds >>= λ col_bounds.
    rest >>= λ new_row_region. ok (record { col_bounds = col_bounds } ∷ new_row_region)

unfoldable pub range_row_region_intersection :
    List (Str × ColType) → TabletKeyRange → List KeyBound → Result (List KeyBound)
range_row_region_intersection [] range row_region = ok row_region
range_row_region_intersection ((name, t) ∷ key_cols) range row_region =
    intersection_loop t range row_region
