-- ===== src/Region/Isolation/Laws.antt =====
-- The keys in a region of rows, and what an answer about two regions says about their keys.
use r_universal_db.Base.{
  Bool, true, false, ◌&&◌, ◌||◌, List, [], ◌∷◌, nat_ord, bool_ord, list_ord, list_same_iff, ◌≡◌,
  ◌↔◌, ◌∙◌, refl, arith, length, ap, Bool-cases, inl, inr, Result, ok, ◌>>=◌, if◌then◌else◌, suc,
  eqb, All,
}
use r_universal_db.BTreeSet.{member}
use r_universal_db.Value.{Str, ColVal, int, bool, string, ColType, int_type, bool_type, string_type}
use r_universal_db.Region.{
  PolyColBound, int_bound, bool_bound, string_bound, KeyBound, ReadRegion, WriteRegion,
  might_col_intersect,
}
use r_universal_db.Region.Bounds.{in_bound, might_col_intersect_lem}
use r_universal_db.Region.Isolation.{
  does_col_regions_intersect, might_poly_intersect, zip_intersect, might_key_bound_intersect,
  might_meet_one, might_row_region_intersect, is_surely_isolated, is_surely_isolated_multiread,
}

-- A value is in a bound of its type.
abbrev pub in_poly : PolyColBound → ColVal → Bool
in_poly (int_bound b) (int v) = in_bound b v
in_poly (bool_bound b) (bool v) = in_bound b v
in_poly (string_bound b) (string v) = in_bound b v
in_poly _ _ = false

-- A key is in the bounds of its columns.
unfoldable pub in_key : List PolyColBound → List ColVal → Bool
in_key [] [] = true
in_key (p ∷ ps) (v ∷ vs) = in_poly p v && in_key ps vs
in_key _ _ = false

-- A key is in one of the key bounds.
unfoldable pub in_rows : List KeyBound → List ColVal → Bool
in_rows [] key = false
in_rows (key_bound ∷ rows) key = in_key key_bound.col_bounds key || in_rows rows key

-- The bounds are of the types of the key columns.
unfoldable pub conforms : List ColType → List PolyColBound → Bool
conforms [] [] = true
conforms (int_type ∷ ts) (int_bound b ∷ ps) = conforms ts ps
conforms (bool_type ∷ ts) (bool_bound b ∷ ps) = conforms ts ps
conforms (string_type ∷ ts) (string_bound b ∷ ps) = conforms ts ps
conforms _ _ = false

abbrev pub RowsConform : List ColType → List KeyBound → Type 0
RowsConform ts = All (λ key_bound. conforms ts key_bound.col_bounds ≡ true)

might_poly_intersect_lem :
    (p q : PolyColBound) (v : ColVal)
    → might_poly_intersect p q ≡ ok false
    → (in_poly p v && in_poly q v) ≡ false
might_poly_intersect_lem (int_bound a) (int_bound b) (int v) h =
    ground (arith, might_col_intersect_lem a b v)
might_poly_intersect_lem (bool_bound a) (bool_bound b) (bool v) h =
    ground (arith, might_col_intersect_lem a b v)
might_poly_intersect_lem (string_bound a) (string_bound b) (string v) h =
    ground (arith, might_col_intersect_lem a b v)
might_poly_intersect_lem (int_bound a) (int_bound b) v h = ground arith
might_poly_intersect_lem (bool_bound a) (bool_bound b) v h = ground arith
might_poly_intersect_lem (string_bound a) (string_bound b) v h = ground arith
might_poly_intersect_lem p q v h = cc

zip_intersect_lem :
    (ps qs : List PolyColBound) (key : List ColVal)
    → zip_intersect ps qs ≡ ok false
    → (in_key ps key && in_key qs key) ≡ false
unfolding zip_intersect in_key
zip_intersect_lem [] [] key h = cc
zip_intersect_lem [] (q ∷ qs) key h = cc
zip_intersect_lem (p ∷ ps) [] key h = cc
zip_intersect_lem (p ∷ ps) (q ∷ qs) [] h = refl
zip_intersect_lem (p ∷ ps) (q ∷ qs) (v ∷ vs) h =
    ground (arith, might_poly_intersect_lem p q v, zip_intersect_lem ps qs vs)

might_key_bound_intersect_lem :
    (a b : KeyBound) (key : List ColVal)
    → might_key_bound_intersect a b ≡ ok false
    → (in_key a.col_bounds key && in_key b.col_bounds key) ≡ false
unfolding might_key_bound_intersect
might_key_bound_intersect_lem a b key h =
    ground (arith, zip_intersect_lem a.col_bounds b.col_bounds key)

might_meet_one_lem :
    (a : KeyBound) (rows : List KeyBound) (key : List ColVal)
    → might_meet_one a rows ≡ ok false
    → (in_key a.col_bounds key && in_rows rows key) ≡ false
unfolding might_meet_one in_rows
might_meet_one_lem a [] key h = ground arith
might_meet_one_lem a (b ∷ rows) key h =
    ground (arith, might_key_bound_intersect_lem a b key, might_meet_one_lem a rows key)

-- Two regions of rows that do not intersect by might_row_region_intersect have no key in common.
pub might_row_region_intersect_lem :
    (rows1 rows2 : List KeyBound) (key : List ColVal)
    → might_row_region_intersect rows1 rows2 ≡ ok false
    → (in_rows rows1 key && in_rows rows2 key) ≡ false
unfolding might_row_region_intersect in_rows
might_row_region_intersect_lem [] rows2 key h = refl
might_row_region_intersect_lem (a ∷ rows1) rows2 key h =
    ground (arith, might_meet_one_lem a rows2 key, might_row_region_intersect_lem rows1 rows2 key)

-- The columns have none in common.
does_col_regions_intersect_lem :
    (cols1 cols2 : List Str) (col : Str)
    → does_col_regions_intersect cols1 cols2 ≡ false
    → (member col cols1 && member col cols2) ≡ false
unfolding does_col_regions_intersect member
does_col_regions_intersect_lem [] cols2 col h = refl
does_col_regions_intersect_lem (c ∷ cols1) cols2 col h =
    ground (arith, list_same_iff c col, does_col_regions_intersect_lem cols1 cols2 col)

-- If a write region is surely isolated from a read region, and both have a key in common,
-- then the write changes the presence of no row, and no column is written and read.
pub is_surely_isolated_lem :
    (write : WriteRegion) (read : ReadRegion) (key : List ColVal) (col : Str)
    → is_surely_isolated write read ≡ ok true
    → in_rows read.row_region key ≡ true
    → in_rows write.row_region key ≡ true
    → (write.presence ≡ false)
      × ((member col read.val_col_region && member col write.val_col_region) ≡ false)
unfolding is_surely_isolated
is_surely_isolated_lem write read key col h r w = ground (
  arith,
  might_row_region_intersect_lem read.row_region write.row_region key,
  does_col_regions_intersect_lem read.val_col_region write.val_col_region col,
)

-- The code returns a value, without a panic.
abbrev pub Returns : {A : Type 0} → Result A → Type 0
Returns {A} m = (a : A) × (m ≡ ok a)

module _ {A : Type 0} where
  test-Returns :
      (m : Result Bool) (r t : Result A)
      → Returns m
      → Returns r
      → Returns t
      → Returns (m >>= λ b. if b then t else r)
  test-Returns m r t (true, e) rr rt = rw e rt
  test-Returns m r t (false, e) rr rt = rw e rr

zip_intersect-Returns :
    (ts : List ColType) (ps qs : List PolyColBound)
    → conforms ts ps ≡ true
    → conforms ts qs ≡ true
    → Returns (zip_intersect ps qs)
unfolding zip_intersect conforms
zip_intersect-Returns [] [] [] h k = (true, refl)
zip_intersect-Returns (int_type ∷ ts) (int_bound a ∷ ps) (int_bound b ∷ qs) h k =
    test-Returns (ok (might_col_intersect a b)) (ok false) (zip_intersect ps qs)
      (might_col_intersect a b, refl) (false, refl) (zip_intersect-Returns ts ps qs h k)
zip_intersect-Returns (bool_type ∷ ts) (bool_bound a ∷ ps) (bool_bound b ∷ qs) h k =
    test-Returns (ok (might_col_intersect a b)) (ok false) (zip_intersect ps qs)
      (might_col_intersect a b, refl) (false, refl) (zip_intersect-Returns ts ps qs h k)
zip_intersect-Returns (string_type ∷ ts) (string_bound a ∷ ps) (string_bound b ∷ qs) h k =
    test-Returns (ok (might_col_intersect a b)) (ok false) (zip_intersect ps qs)
      (might_col_intersect a b, refl) (false, refl) (zip_intersect-Returns ts ps qs h k)
zip_intersect-Returns ts ps qs h k = absurd (ground arith)

conforms-length :
    (ts : List ColType) (ps : List PolyColBound) → conforms ts ps ≡ true → length ps ≡ length ts
unfolding conforms
conforms-length [] [] h = refl
conforms-length (int_type ∷ ts) (int_bound a ∷ ps) h = ap suc (conforms-length ts ps h)
conforms-length (bool_type ∷ ts) (bool_bound a ∷ ps) h = ap suc (conforms-length ts ps h)
conforms-length (string_type ∷ ts) (string_bound a ∷ ps) h = ap suc (conforms-length ts ps h)
conforms-length ts ps h = absurd (ground arith)

module _ (ts : List ColType) where
  might_key_bound_intersect-Returns :
      (a b : KeyBound)
      → conforms ts a.col_bounds ≡ true
      → conforms ts b.col_bounds ≡ true
      → Returns (might_key_bound_intersect a b)
  unfolding might_key_bound_intersect
  might_key_bound_intersect-Returns a b h k =
      let same : eqb (length a.col_bounds) (length b.col_bounds) ≡ true =
        ground (arith, conforms-length ts a.col_bounds h, conforms-length ts b.col_bounds k) in
      rw same (zip_intersect-Returns ts a.col_bounds b.col_bounds h k)

  might_meet_one-Returns :
      (a : KeyBound) (rows : List KeyBound)
      → conforms ts a.col_bounds ≡ true
      → RowsConform ts rows
      → Returns (might_meet_one a rows)
  unfolding might_meet_one
  might_meet_one-Returns a [] h k = (false, refl)
  might_meet_one-Returns a (b ∷ rows) h k =
      test-Returns (might_key_bound_intersect a b) (might_meet_one a rows) (ok true)
        (might_key_bound_intersect-Returns a b h k.0) (might_meet_one-Returns a rows h k.1)
        (true, refl)

  might_row_region_intersect-Returns :
      (rows1 rows2 : List KeyBound)
      → RowsConform ts rows1
      → RowsConform ts rows2
      → Returns (might_row_region_intersect rows1 rows2)
  unfolding might_row_region_intersect
  might_row_region_intersect-Returns [] rows2 h k = (false, refl)
  might_row_region_intersect-Returns (a ∷ rows1) rows2 h k =
      test-Returns (might_meet_one a rows2) (might_row_region_intersect rows1 rows2) (ok true)
        (might_meet_one-Returns a rows2 h.0 k)
        (might_row_region_intersect-Returns rows1 rows2 h.1 k) (true, refl)

  is_surely_isolated-Returns :
      (write : WriteRegion) (read : ReadRegion)
      → RowsConform ts write.row_region
      → RowsConform ts read.row_region
      → Returns (is_surely_isolated write read)
  unfolding is_surely_isolated
  is_surely_isolated-Returns write read h k =
      test-Returns (might_row_region_intersect read.row_region write.row_region) (ok true) _
        (might_row_region_intersect-Returns read.row_region write.row_region k h) (true, refl)
        (elim (Bool-cases write.presence) [ inl p ↦ rw p (false, refl) | inr n ↦ rw n (_, refl) ])

  -- A write and the reads of a table, all of one schema: is_surely_isolated_multiread does not
  -- panic, and it answers true exactly if the write is surely isolated from each of the reads.
  pub is_surely_isolated_multiread_lem :
      (write : WriteRegion) (reads : List ReadRegion)
      → RowsConform ts write.row_region
      → All (λ read. RowsConform ts read.row_region) reads
      → (b : Bool) × (is_surely_isolated_multiread write reads ≡ ok b)
        × ((b ≡ true) ↔ All (λ read. is_surely_isolated write read ≡ ok true) reads)
  unfolding is_surely_isolated_multiread
  is_surely_isolated_multiread_lem write [] h k = (true, refl, ((λ e. tt), (λ u. refl)))
  is_surely_isolated_multiread_lem write (read ∷ reads) h k =
      let (b, e, iff) = is_surely_isolated_multiread_lem write reads h k.1 in
      let (c, one) = is_surely_isolated-Returns write read h k.0 in
      elim (Bool-cases c) [
        | inl t ↦ (b, rw (one, t) e, ((λ u. (one ∙ ap ok t, iff.0 u)), (λ all. iff.1 all.1)))
        | inr f ↦
            (false, rw (one, f) refl, ((λ t. cc), (λ all. absurd (ground (arith, all.0, one)))))
      ]
