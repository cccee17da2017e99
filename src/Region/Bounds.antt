-- ===== src/Region/Bounds.antt =====
-- The values in a bound, and what the operations on lists of bounds do to the set of them.
use r_universal_db.Base.{
  Bool, true, false, not, ◌&&◌, ◌||◌, List, [], ◌∷◌, ◌++◌, Ord, ◌≺◌, ◌≡◌, refl, arith,
}
use r_universal_db.Region.{
  SingleBound, included, excluded, unbounded, ColBound, full_bound, later_start, earlier_end,
  col_bound_intersect_interval, is_surely_interval_empty, intersect_one, col_bounds_intersect,
  invert_interval, invert_col_bound, invert_loop, invert_col_bounds, might_col_intersect,
}

module _ {T : Type 0} ⦃o : Ord T⦄ where
  -- A value is not before a start, and not behind an end.
  abbrev pub from_start : SingleBound T → T → Bool
  from_start (included b) v = not (v ≺ b)
  from_start (excluded b) v = b ≺ v
  from_start unbounded v = true

  abbrev pub until_end : SingleBound T → T → Bool
  until_end (included b) v = not (b ≺ v)
  until_end (excluded b) v = v ≺ b
  until_end unbounded v = true

  abbrev pub in_bound : ColBound T → T → Bool
  in_bound bound v = from_start bound.start v && until_end bound.end v

  -- A value is in one of the bounds.
  unfoldable pub in_bounds : List (ColBound T) → T → Bool
  in_bounds [] v = false
  in_bounds (bound ∷ bounds) v = in_bound bound v || in_bounds bounds v

  -- What the order of two values and of one of them with a third one says of the others.
  abbrev OrderFacts : T → T → T → Type 0
  OrderFacts a b v =
      (a ≺ b ≡ true → b ≺ v ≡ true → a ≺ v ≡ true)
      × (b ≺ a ≡ true → a ≺ v ≡ true → b ≺ v ≡ true)
      × (v ≺ a ≡ true → a ≺ b ≡ true → v ≺ b ≡ true)
      × (v ≺ b ≡ true → b ≺ a ≡ true → v ≺ a ≡ true)
      × (a ≺ v ≡ true → v ≺ b ≡ true → a ≺ b ≡ true)
      × (b ≺ v ≡ true → v ≺ a ≡ true → b ≺ a ≡ true)
      × ((a ≺ b ≡ true) → (b ≺ a ≡ false))
      × ((a ≺ b ≡ false) → (b ≺ a ≡ false) → (a ≡ b))

  order_facts : (a b v : T) → OrderFacts a b v
  order_facts a b v = (
    o.before_trans a b v,
    o.before_trans b a v,
    o.before_trans v a b,
    o.before_trans v b a,
    o.before_trans a v b,
    o.before_trans b v a,
    ground (arith, o.before_trans a b a, o.before_irrefl a),
    ground (arith, o.before_total a b, o.same_iff a b),
  )

  compare_all : (a b v : T) → OrderFacts a b v × OrderFacts b v a × OrderFacts a v b
  compare_all a b v = (order_facts a b v, order_facts b v a, order_facts a v b)

  from_start-later_start :
      (l r : SingleBound T) (v : T)
      → from_start (later_start l r) v ≡ (from_start l v && from_start r v)
  from_start-later_start unbounded r v = ground arith
  from_start-later_start (included a) unbounded v = ground arith
  from_start-later_start (excluded a) unbounded v = ground arith
  from_start-later_start (included a) (included b) v = ground (arith, order_facts a b v)
  from_start-later_start (excluded a) (excluded b) v = ground (arith, order_facts a b v)
  from_start-later_start (included a) (excluded b) v = ground (arith, compare_all a b v)
  from_start-later_start (excluded a) (included b) v = ground (arith, compare_all a b v)

  until_end-earlier_end :
      (l r : SingleBound T) (v : T)
      → until_end (earlier_end l r) v ≡ (until_end l v && until_end r v)
  until_end-earlier_end unbounded r v = ground arith
  until_end-earlier_end (included a) unbounded v = ground arith
  until_end-earlier_end (excluded a) unbounded v = ground arith
  until_end-earlier_end (included a) (included b) v = ground (arith, order_facts a b v)
  until_end-earlier_end (excluded a) (excluded b) v = ground (arith, order_facts a b v)
  until_end-earlier_end (included a) (excluded b) v = ground (arith, compare_all a b v)
  until_end-earlier_end (excluded a) (included b) v = ground (arith, compare_all a b v)

  -- The interval that col_bound_intersect_interval returns holds exactly the values in
  -- both bounds.
  pub col_bound_intersect_interval_lem :
      (left right : ColBound T) (v : T)
      → (from_start (col_bound_intersect_interval left right).0 v
          && until_end (col_bound_intersect_interval left right).1 v)
        ≡ (in_bound left v && in_bound right v)
  unfolding col_bound_intersect_interval
  col_bound_intersect_interval_lem left right v = ground (
    arith,
    from_start-later_start left.start right.start v,
    until_end-earlier_end left.end right.end v,
  )

  -- An interval that is surely empty has no value.
  pub is_surely_interval_empty_lem :
      (s e : SingleBound T) (v : T)
      → is_surely_interval_empty (s, e) ≡ true
      → (from_start s v && until_end e v) ≡ false
  unfolding is_surely_interval_empty
  is_surely_interval_empty_lem unbounded e v h = ground arith
  is_surely_interval_empty_lem (included a) unbounded v h = ground arith
  is_surely_interval_empty_lem (excluded a) unbounded v h = ground arith
  is_surely_interval_empty_lem (included a) (included b) v h = ground (arith, compare_all a b v)
  is_surely_interval_empty_lem (excluded a) (excluded b) v h = ground (arith, compare_all a b v)
  is_surely_interval_empty_lem (included a) (excluded b) v h = ground (arith, compare_all a b v)
  is_surely_interval_empty_lem (excluded a) (included b) v h = ground (arith, compare_all a b v)

  pub in_bounds-append :
      (xs ys : List (ColBound T)) (v : T)
      → in_bounds (xs ++ ys) v ≡ (in_bounds xs v || in_bounds ys v)
  unfolding in_bounds
  in_bounds-append [] ys v = refl
  in_bounds-append (x ∷ xs) ys v = ground (arith, in_bounds-append xs ys v)

  in_bounds-intersect_one :
      (left : ColBound T) (rights : List (ColBound T)) (v : T)
      → in_bounds (intersect_one left rights) v ≡ (in_bound left v && in_bounds rights v)
  unfolding in_bounds intersect_one
  in_bounds-intersect_one left [] v = ground arith
  in_bounds-intersect_one left (right ∷ rights) v =
      let i = col_bound_intersect_interval left right in
      ground (
        arith,
        in_bounds-intersect_one left rights v,
        col_bound_intersect_interval_lem left right v,
        is_surely_interval_empty_lem i.0 i.1 v,
      )

  -- The bounds of col_bounds_intersect hold exactly the values that are in a left and in
  -- a right bound.
  pub in_bounds-col_bounds_intersect :
      (lefts rights : List (ColBound T)) (v : T)
      → in_bounds (col_bounds_intersect lefts rights) v ≡ (in_bounds lefts v && in_bounds rights v)
  unfolding in_bounds col_bounds_intersect
  in_bounds-col_bounds_intersect [] rights v = ground arith
  in_bounds-col_bounds_intersect (left ∷ lefts) rights v = ground (
    arith,
    in_bounds-append (intersect_one left rights) (col_bounds_intersect lefts rights) v,
    in_bounds-intersect_one left rights v,
    in_bounds-col_bounds_intersect lefts rights v,
  )

  in_bounds-invert_interval :
      (s e : SingleBound T) (v : T)
      → in_bounds (invert_interval s e) v ≡ not (from_start s v && until_end e v)
  unfolding in_bounds invert_interval
  in_bounds-invert_interval unbounded unbounded v = ground arith
  in_bounds-invert_interval unbounded (included b) v = ground arith
  in_bounds-invert_interval unbounded (excluded b) v = ground arith
  in_bounds-invert_interval (included a) unbounded v = ground arith
  in_bounds-invert_interval (excluded a) unbounded v = ground arith
  in_bounds-invert_interval (included a) (included b) v = ground (arith, compare_all a b v)
  in_bounds-invert_interval (excluded a) (excluded b) v = ground (arith, compare_all a b v)
  in_bounds-invert_interval (included a) (excluded b) v = ground (arith, compare_all a b v)
  in_bounds-invert_interval (excluded a) (included b) v = ground (arith, compare_all a b v)

  in_bounds-invert_loop :
      (bounds cum : List (ColBound T)) (v : T)
      → in_bounds (invert_loop cum bounds) v ≡ (in_bounds cum v && not (in_bounds bounds v))
  unfolding invert_loop in_bounds invert_col_bound
  in_bounds-invert_loop [] cum v = ground arith
  in_bounds-invert_loop (bound ∷ bounds) cum v = ground (
    arith,
    in_bounds-invert_loop bounds (col_bounds_intersect cum (invert_col_bound bound)) v,
    in_bounds-col_bounds_intersect cum (invert_col_bound bound) v,
    in_bounds-invert_interval bound.start bound.end v,
  )

  -- The bounds of invert_col_bounds hold exactly the values that are in none of the given ones.
  pub in_bounds-invert_col_bounds :
      (bounds : List (ColBound T)) (v : T)
      → in_bounds (invert_col_bounds bounds) v ≡ not (in_bounds bounds v)
  unfolding invert_col_bounds in_bounds
  in_bounds-invert_col_bounds bounds v =
      ground (arith, in_bounds-invert_loop bounds (full_bound ∷ []) v)

  -- Two bounds that do not might_col_intersect have no value in common.
  pub might_col_intersect_lem :
      (a b : ColBound T) (v : T)
      → might_col_intersect a b ≡ false
      → (in_bound a v && in_bound b v) ≡ false
  unfolding might_col_intersect
  might_col_intersect_lem a b v h =
      let i = col_bound_intersect_interval a b in
      ground (arith, col_bound_intersect_interval_lem a b v, is_surely_interval_empty_lem i.0 i.1 v)
