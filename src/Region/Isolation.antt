-- ===== src/Region/Isolation.antt =====
-- src/expression.rs: whether the regions of a write and of a read may meet, and sharding by the
-- first key column. Where the key bounds do not have one schema, the code panics.
pub mod Laws
use r_universal_db.Base.{
  ℕ, Bool, true, false, not, ◌&&◌, ◌||◌, Option, none, some, List, [], ◌∷◌, if◌then◌else◌, Ord,
  nat_ord, bool_ord, list_ord, eqb, length, Result, ok, panic, ◌>>=◌, unwrap,
}
use r_universal_db.BTreeSet.{member}
use r_universal_db.Value.{Str, ColVal, ColType, int_type, bool_type, string_type, TabletKeyRange}
use r_universal_db.Region.{
  ColBound, included, excluded, unbounded, PolyColBound, int_bound, bool_bound, string_bound,
  KeyBound, ReadRegion, WriteRegion, BoundType, int_bound_type, bool_bound_type, string_bound_type,
  might_col_intersect, col_bound_intersect_interval,
}

-- `col_region2.contains(col)` for some column of the first.
unfoldable pub does_col_regions_intersect : List Str → List Str → Bool
does_col_regions_intersect [] col_region2 = false
does_col_regions_intersect (col ∷ cols) col_region2 =
    member col col_region2 || does_col_regions_intersect cols col_region2

abbrev pub might_poly_intersect : PolyColBound → PolyColBound → Result Bool
might_poly_intersect (int_bound c1) (int_bound c2) = ok (might_col_intersect c1 c2)
might_poly_intersect (bool_bound c1) (bool_bound c2) = ok (might_col_intersect c1 c2)
might_poly_intersect (string_bound c1) (string_bound c2) = ok (might_col_intersect c1 c2)
might_poly_intersect _ _ = panic

-- The loop of `might_key_bound_intersect`, over the zipped bounds.
unfoldable pub zip_intersect : List PolyColBound → List PolyColBound → Result Bool
zip_intersect (pc1 ∷ pcs1) (pc2 ∷ pcs2) =
    let rest = zip_intersect pcs1 pcs2 in
    might_poly_intersect pc1 pc2 >>= λ might. if might then rest else ok false
zip_intersect _ _ = ok true

unfoldable pub might_key_bound_intersect : KeyBound → KeyBound → Result Bool
might_key_bound_intersect key_bound1 key_bound2 =
    if eqb (length key_bound1.col_bounds) (length key_bound2.col_bounds)
    then zip_intersect key_bound1.col_bounds key_bound2.col_bounds
    else panic

-- The inner loop of `might_row_region_intersect`, for one key bound, and the outer one.
unfoldable pub might_meet_one : KeyBound → List KeyBound → Result Bool
might_meet_one key_bound1 [] = ok false
might_meet_one key_bound1 (key_bound2 ∷ row_region2) =
    let rest = might_meet_one key_bound1 row_region2 in
    might_key_bound_intersect key_bound1 key_bound2 >>= λ might. if might then ok true else rest

unfoldable pub might_row_region_intersect : List KeyBound → List KeyBound → Result Bool
might_row_region_intersect [] row_region2 = ok false
might_row_region_intersect (key_bound1 ∷ row_region1) row_region2 =
    let rest = might_row_region_intersect row_region1 row_region2 in
    might_meet_one key_bound1 row_region2 >>= λ might. if might then ok true else rest

unfoldable pub is_surely_isolated : WriteRegion → ReadRegion → Result Bool
is_surely_isolated write_region read_region =
    might_row_region_intersect read_region.row_region write_region.row_region >>= λ might.
    if might
    then if write_region.presence
      then ok false
      else ok
          (not (does_col_regions_intersect read_region.val_col_region write_region.val_col_region))
    else ok true

unfoldable pub is_surely_isolated_multiread : WriteRegion → List ReadRegion → Result Bool
is_surely_isolated_multiread write_region [] = ok true
is_surely_isolated_multiread write_region (read_region ∷ read_regions) =
    let rest = is_surely_isolated_multiread write_region read_regions in
    is_surely_isolated write_region read_region >>= λ sure. if sure then rest else ok false

unfoldable pub is_surely_isolated_multiwrite : List WriteRegion → ReadRegion → Result Bool
is_surely_isolated_multiwrite [] read_region = ok true
is_surely_isolated_multiwrite (write_region ∷ write_regions) read_region =
    let rest = is_surely_isolated_multiwrite write_regions read_region in
    is_surely_isolated write_region read_region >>= λ sure. if sure then rest else ok false
