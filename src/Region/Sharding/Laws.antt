-- ===== src/Region/Sharding/Laws.antt =====
-- What the range of a tablet leaves of a region of rows.
use r_universal_db.Base.{
  ℕ, Bool, true, false, ◌&&◌, some, List, [], ◌∷◌, Ord, nat_ord, bool_ord, list_ord, ◌≡◌, refl,
  arith, Option-cases, List-cases, >>=-ok, unwrap-ok, inl, inr, ok, unwrap,
}
use r_universal_db.Value.{
  Str, ColVal, int, bool, string, ColType, int_type, bool_type, string_type, TabletKeyRange,
  range_contains, contains_pkey, PrimaryKey,
}
use r_universal_db.Region.{
  ColBound, PolyColBound, KeyBound, BoundType, int_bound_type, bool_bound_type, string_bound_type,
  might_col_intersect, col_bound_intersect_interval,
}
use r_universal_db.Region.Bounds.{
  in_bound, col_bound_intersect_interval_lem, might_col_intersect_lem,
}
use r_universal_db.Region.Isolation.Laws.{in_poly, in_key, in_rows}
use r_universal_db.Expression.Build.{does_types_match}
use r_universal_db.Region.Sharding.{
  into_col_bound, range_might_intersects_key_bound, range_col_bound_intersection, might_by_type,
  intersection_by_type, first_unwrap, set_first, might_intersect_loop,
  range_might_intersect_row_region, intersection_loop, range_row_region_intersection,
}

into_col_bound-int :
    (range : TabletKeyRange) (bound : ColBound ℕ) (n : ℕ)
    → into_col_bound {T = ℕ} range ≡ some bound
    → in_bound bound n ≡ range_contains range (int n)
unfolding into_col_bound
into_col_bound-int range bound n h = ground (arith, h)

into_col_bound-bool :
    (range : TabletKeyRange) (bound : ColBound Bool) (n : Bool)
    → into_col_bound {T = Bool} range ≡ some bound
    → in_bound bound n ≡ range_contains range (bool n)
unfolding into_col_bound
into_col_bound-bool range bound n h = ground (arith, h)

into_col_bound-string :
    (range : TabletKeyRange) (bound : ColBound Str) (n : Str)
    → into_col_bound {T = Str} range ≡ some bound
    → in_bound bound n ≡ range_contains range (string n)
unfolding into_col_bound
into_col_bound-string range bound n h = ground (arith, h)

-- What the intersection and the test of a range and a bound say of the values in both.
module _ {T : Type 0} ⦃o : Ord T⦄ ⦃b : BoundType T⦄ (variant : T → ColVal) (range : TabletKeyRange)
    (in_range : (bound : ColBound T) (n : T)
      → into_col_bound range ≡ some bound
      → in_bound bound n ≡ range_contains range (variant n))
    (in_to_poly : (bound : ColBound T) (n : T)
      → in_poly (b.to_poly bound) (variant n) ≡ in_bound bound n)
    (in_from_poly : (p : PolyColBound) (bound : ColBound T) (n : T)
      → b.from_poly p ≡ some bound
      → in_poly p (variant n) ≡ in_bound bound n) where
  in_poly-range_col_bound_intersection :
      (p q : PolyColBound) (n : T)
      → range_col_bound_intersection T range p ≡ some q
      → in_poly q (variant n) ≡ (range_contains range (variant n) && in_poly p (variant n))
  unfolding range_col_bound_intersection
  in_poly-range_col_bound_intersection p q n h =
      elim (Option-cases (into_col_bound {T = T} range)) [
        | inl e ↦ absurd (ground (arith, e, h))
        | inr (r, e) ↦ elim (Option-cases (b.from_poly p)) [
          | inl e' ↦ absurd (ground (arith, e, e', h))
          | inr (f, e') ↦
              let i = col_bound_intersect_interval r f in
              let made : b.to_poly (record { start = i.0; end = i.1 }) ≡ q =
                ground (arith, e, e', h) in
              rw (← made) (
                ground (
                  arith,
                  in_to_poly (record { start = i.0; end = i.1 }) n,
                  in_range r n e,
                  in_from_poly p f n e',
                  col_bound_intersect_interval_lem r f n,
                ))
        ]
      ]

  range_might_intersects_key_bound_lem :
      (p : PolyColBound) (n : T)
      → range_might_intersects_key_bound T range p ≡ some false
      → (range_contains range (variant n) && in_poly p (variant n)) ≡ false
  unfolding range_might_intersects_key_bound
  range_might_intersects_key_bound_lem p n h = elim (Option-cases (into_col_bound {T = T} range)) [
    | inl e ↦ absurd (ground (arith, e, h))
    | inr (r, e) ↦ elim (Option-cases (b.from_poly p)) [
      | inl e' ↦ absurd (ground (arith, e, e', h))
      | inr (f, e') ↦
          let apart : might_col_intersect r f ≡ false = ground (arith, e, e', h) in
          ground (arith, in_range r n e, in_from_poly p f n e', might_col_intersect_lem r f n apart)
    ]
  ]

-- The tests agree with the casts of each type.
int_from_poly_lem :
    (p : PolyColBound) (bound : ColBound ℕ) (n : ℕ)
    → int_bound_type.from_poly p ≡ some bound
    → in_poly p (int n) ≡ in_bound bound n
int_from_poly_lem p bound n h = ground (arith, h)

bool_from_poly_lem :
    (p : PolyColBound) (bound : ColBound Bool) (n : Bool)
    → bool_bound_type.from_poly p ≡ some bound
    → in_poly p (bool n) ≡ in_bound bound n
bool_from_poly_lem p bound n h = ground (arith, h)

string_from_poly_lem :
    (p : PolyColBound) (bound : ColBound Str) (n : Str)
    → string_bound_type.from_poly p ≡ some bound
    → in_poly p (string n) ≡ in_bound bound n
string_from_poly_lem p bound n h = ground (arith, h)

in_poly-intersection_by_type :
    (t : ColType) (range : TabletKeyRange) (p q : PolyColBound) (v : ColVal)
    → does_types_match t (some v) ≡ true
    → intersection_by_type t range p ≡ some q
    → in_poly q v ≡ (range_contains range v && in_poly p v)
unfolding does_types_match intersection_by_type
in_poly-intersection_by_type int_type range p q (int n) m h =
    in_poly-range_col_bound_intersection int range (into_col_bound-int range) (λ bound x. refl)
      int_from_poly_lem p q n h
in_poly-intersection_by_type bool_type range p q (bool n) m h =
    in_poly-range_col_bound_intersection bool range (into_col_bound-bool range) (λ bound x. refl)
      bool_from_poly_lem p q n h
in_poly-intersection_by_type string_type range p q (string n) m h =
    in_poly-range_col_bound_intersection string range (into_col_bound-string range)
      (λ bound x. refl) string_from_poly_lem p q n h
in_poly-intersection_by_type t range p q v m h = absurd (cc)

might_by_type_lem :
    (t : ColType) (range : TabletKeyRange) (p : PolyColBound) (v : ColVal)
    → does_types_match t (some v) ≡ true
    → might_by_type t range p ≡ some false
    → (range_contains range v && in_poly p v) ≡ false
unfolding does_types_match might_by_type
might_by_type_lem int_type range p (int n) m h =
    range_might_intersects_key_bound_lem int range (into_col_bound-int range) (λ bound x. refl)
      int_from_poly_lem p n h
might_by_type_lem bool_type range p (bool n) m h =
    range_might_intersects_key_bound_lem bool range (into_col_bound-bool range) (λ bound x. refl)
      bool_from_poly_lem p n h
might_by_type_lem string_type range p (string n) m h =
    range_might_intersects_key_bound_lem string range (into_col_bound-string range)
      (λ bound x. refl) string_from_poly_lem p n h
might_by_type_lem t range p v m h = absurd (cc)

module _ (t : ColType) (range : TabletKeyRange) (v : ColVal) (vs : List ColVal)
    (typed : does_types_match t (some v) ≡ true) where
  intersection_loop_lem :
      (rows result : List KeyBound)
      → intersection_loop t range rows ≡ ok result
      → in_rows result (v ∷ vs) ≡ (range_contains range v && in_rows rows (v ∷ vs))
  unfolding intersection_loop in_rows in_key
  intersection_loop_lem [] result h = ground (arith, h)
  intersection_loop_lem (kb ∷ rows) result h =
      let (p, e1, h1) = >>=-ok (first_unwrap kb.col_bounds) _ result h in
      let (q, e2, h2) = >>=-ok (unwrap (intersection_by_type t range p)) _ result h1 in
      let (new, e3, h3) = >>=-ok (set_first q kb.col_bounds) _ result h2 in
      let (rest, e4, h4) = >>=-ok (intersection_loop t range rows) _ result h3 in
      let found = unwrap-ok (intersection_by_type t range p) q e2 in
      let inside = in_poly-intersection_by_type t range p q v typed found in
      elim (List-cases kb.col_bounds) [
        | inl e ↦ absurd (ground (arith, e, e1))
        | inr (p', ps, e) ↦
            ground (arith, e, e1, e3, h4, inside, intersection_loop_lem rows rest e4)
      ]

  might_intersect_loop_lem :
      (rows : List KeyBound)
      → might_intersect_loop t range rows ≡ ok false
      → (range_contains range v && in_rows rows (v ∷ vs)) ≡ false
  unfolding might_intersect_loop in_rows in_key
  might_intersect_loop_lem [] h = ground arith
  might_intersect_loop_lem (kb ∷ rows) h = elim (List-cases kb.col_bounds) [
    | inl e ↦ absurd (ground (arith, e, h))
    | inr (p, ps, e) ↦
        ground (arith, e, might_by_type_lem t range p v typed, might_intersect_loop_lem rows, h)
  ]

-- A key has a first column if the table has one, and of its type.
unfoldable pub first_typed : List (Str × ColType) → List ColVal → Bool
unfolding does_types_match
first_typed [] [] = true
first_typed ((name, t) ∷ key_cols) (v ∷ vs) = does_types_match t (some v)
first_typed _ _ = false

-- For keys of the schema of a table: what range_row_region_intersection returns holds exactly the
-- keys of the region that the range contains.
pub range_row_region_intersection_lem :
    (key_cols : List (Str × ColType)) (range : TabletKeyRange) (rows result : List KeyBound)
    (key : PrimaryKey)
    → first_typed key_cols key.cols ≡ true
    → range_row_region_intersection key_cols range rows ≡ ok result
    → in_rows result key.cols ≡ (contains_pkey range key && in_rows rows key.cols)
unfolding range_row_region_intersection first_typed
range_row_region_intersection_lem [] range rows result key m h = elim (List-cases key.cols) [
  | inl e ↦ ground (arith, e, h)
  | inr (v, vs, e) ↦ absurd (ground (arith, e, m))
]
range_row_region_intersection_lem ((name, t) ∷ key_cols) range rows result key m h =
    elim (List-cases key.cols) [
      | inl e ↦ absurd (ground (arith, e, m))
      | inr (v, vs, e) ↦
          rw e (intersection_loop_lem t range v vs (ground (arith, e, m)) rows result h)
    ]

-- For keys of the schema of a table: if range_might_intersect_row_region answers false, no key of the
-- region is in the range.
pub range_might_intersect_row_region_lem :
    (key_cols : List (Str × ColType)) (range : TabletKeyRange) (rows : List KeyBound)
    (key : PrimaryKey)
    → first_typed key_cols key.cols ≡ true
    → range_might_intersect_row_region key_cols range rows ≡ ok false
    → (contains_pkey range key && in_rows rows key.cols) ≡ false
unfolding range_might_intersect_row_region in_rows first_typed
range_might_intersect_row_region_lem [] range [] key m h = ground arith
range_might_intersect_row_region_lem [] range (kb ∷ rows) key m h = absurd (cc)
range_might_intersect_row_region_lem ((name, t) ∷ key_cols) range rows key m h =
    elim (List-cases key.cols) [
      | inl e ↦ absurd (ground (arith, e, m))
      | inr (v, vs, e) ↦ rw e (might_intersect_loop_lem t range v vs (ground (arith, e, m)) rows h)
    ]
