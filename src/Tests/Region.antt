-- ===== src/Tests/Region.antt =====
-- Regions of a table with a number as its key: the keys from 10 up to 20, and those from 20 on.
use r_universal_db.Base.{
  ℕ, Bool, true, false, not, ◌&&◌, List, [], ◌∷◌, none, some, ◌≡◌, ◌↔◌, refl, All, nat_ord,
  list_ord, ok,
}
use r_universal_db.BTreeSet.{member}
use r_universal_db.Value.{int, int_type, TabletKeyRange, contains_pkey}
use r_universal_db.Region.{
  included, excluded, unbounded, ColBound, int_bound, KeyBound, ReadRegion, WriteRegion,
  col_bound_intersect_interval, col_bounds_intersect, invert_col_bounds, is_surely_interval_empty,
  might_col_intersect, int_bound_type,
}
use r_universal_db.Region.Bounds.{
  in_bound, in_bounds, from_start, until_end, col_bound_intersect_interval_lem,
  in_bounds-col_bounds_intersect, in_bounds-invert_col_bounds,
}
use r_universal_db.Region.Isolation.{
  is_surely_isolated, is_surely_isolated_multiread, might_row_region_intersect, might_meet_one,
  might_key_bound_intersect, zip_intersect, does_col_regions_intersect,
}
use r_universal_db.Region.Isolation.Laws.{
  in_rows, in_key, conforms, is_surely_isolated_lem, is_surely_isolated_multiread_lem,
}
use r_universal_db.Region.Sharding.{
  range_row_region_intersection, range_might_intersect_row_region, intersection_loop,
  might_intersect_loop, intersection_by_type, might_by_type, range_col_bound_intersection,
  range_might_intersects_key_bound, into_col_bound,
}
use r_universal_db.Region.Sharding.Laws.{
  first_typed, range_row_region_intersection_lem, range_might_intersect_row_region_lem,
}

abbrev teens : ColBound ℕ
teens = record { start = included 10; end = excluded 20 }

abbrev large : ColBound ℕ
large = record { start = included 20; end = unbounded }

col_bound_intersect_interval_example :
    (from_start (col_bound_intersect_interval teens large).0 15
      && until_end (col_bound_intersect_interval teens large).1 15)
    ≡ (in_bound teens 15 && in_bound large 15)
col_bound_intersect_interval_example = col_bound_intersect_interval_lem teens large 15

in_bounds-col_bounds_intersect_example :
    in_bounds (col_bounds_intersect (teens ∷ large ∷ []) (large ∷ [])) 30
    ≡ (in_bounds (teens ∷ large ∷ []) 30 && in_bounds (large ∷ []) 30)
in_bounds-col_bounds_intersect_example =
    in_bounds-col_bounds_intersect (teens ∷ large ∷ []) (large ∷ []) 30

in_bounds-invert_col_bounds_example :
    in_bounds (invert_col_bounds (teens ∷ large ∷ [])) 5 ≡ not (in_bounds (teens ∷ large ∷ []) 5)
in_bounds-invert_col_bounds_example = in_bounds-invert_col_bounds (teens ∷ large ∷ []) 5

abbrev teen_rows : List KeyBound
teen_rows = record { col_bounds = int_bound teens ∷ [] } ∷ []

abbrev large_rows : List KeyBound
large_rows = record { col_bounds = int_bound large ∷ [] } ∷ []

-- A write of the column 7, and reads of the columns 8 and 7.
abbrev update : WriteRegion
update = record { row_region = teen_rows; presence = false; val_col_region = (7 ∷ []) ∷ [] }

abbrev other_column : ReadRegion
other_column = record { row_region = teen_rows; val_col_region = (8 ∷ []) ∷ [] }

abbrev other_rows : ReadRegion
other_rows = record { row_region = large_rows; val_col_region = (7 ∷ []) ∷ [] }

is_surely_isolated_example :
    (update.presence ≡ false)
    × ((member (7 ∷ []) other_column.val_col_region && member (7 ∷ []) update.val_col_region)
        ≡ false)
unfolding is_surely_isolated might_row_region_intersect might_meet_one might_key_bound_intersect
    zip_intersect does_col_regions_intersect in_rows in_key might_col_intersect
    is_surely_interval_empty col_bound_intersect_interval member
is_surely_isolated_example =
    is_surely_isolated_lem update other_column (int 12 ∷ []) (7 ∷ []) refl refl refl

is_surely_isolated_multiread_example :
    (b : Bool) × (is_surely_isolated_multiread update (other_column ∷ other_rows ∷ []) ≡ ok b)
    × ((b ≡ true)
        ↔ All (λ read. is_surely_isolated update read ≡ ok true) (other_column ∷ other_rows ∷ []))
unfolding conforms
is_surely_isolated_multiread_example =
    is_surely_isolated_multiread_lem (int_type ∷ []) update (other_column ∷ other_rows ∷ [])
      (refl, tt) ((refl, tt), ((refl, tt), tt))

-- The tablet of the keys up to 15.
abbrev small : TabletKeyRange
small = record { range_start = none; range_end = some (int 15) }

range_row_region_intersection_example :
    in_rows
      (record { col_bounds = int_bound (record { start = included 10; end = excluded 15 }) ∷ [] }
        ∷ [])
      (int 12 ∷ [])
    ≡ (contains_pkey small (record { cols = int 12 ∷ [] }) && in_rows teen_rows (int 12 ∷ []))
unfolding range_row_region_intersection first_typed intersection_loop intersection_by_type
    range_col_bound_intersection into_col_bound col_bound_intersect_interval
range_row_region_intersection_example =
    range_row_region_intersection_lem ((107 ∷ [], int_type) ∷ []) small teen_rows
      (record { col_bounds = int_bound (record { start = included 10; end = excluded 15 }) ∷ [] }
        ∷ [])
      (record { cols = int 12 ∷ [] }) refl refl

range_might_intersect_row_region_example :
    (contains_pkey small (record { cols = int 12 ∷ [] }) && in_rows large_rows (int 12 ∷ []))
    ≡ false
unfolding range_might_intersect_row_region first_typed might_intersect_loop might_by_type
    range_might_intersects_key_bound into_col_bound col_bound_intersect_interval might_col_intersect
    is_surely_interval_empty
range_might_intersect_row_region_example =
    range_might_intersect_row_region_lem ((107 ∷ [], int_type) ∷ []) small large_rows
      (record { cols = int 12 ∷ [] }) refl refl
