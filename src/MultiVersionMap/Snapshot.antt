-- ===== src/MultiVersionMap/Snapshot.antt =====
-- `static_snapshot_read` and `get_latest_lat` against the reads of single keys.
use r_universal_db.Base.{
  ℕ, ◌≤◌, max, ◌≡◌, refl, Option, none, some, [], ◌∷◌, Ord, arith, Option-cases, inl, inr,
}
use r_universal_db.BTreeMap.{BTreeMap, get, insert}
use r_universal_db.BTreeMap.Lookup.{get-insert}
use r_universal_db.BTreeMap.Sorted.{IsSorted, get-Above}
use r_universal_db.MultiVersionMap.{
  Mvm, Entry, find_prior_value, static_read, static_snapshot_read, snapshot_from, get_lat,
  fold_lats, get_latest_lat,
}

-- What a snapshot holds of one key: the prior value, else what was there before.
abbrev snapshot_entry {ℓ} : {V : Type ℓ} → ℕ → Option (Entry V) → Option V → Option V
snapshot_entry t none old = old
snapshot_entry t (some (lat, versions)) old = elim (find_prior_value versions t) [
  | none ↦ old
  | some v ↦ some v
]

module _ {ℓ} {K V : Type ℓ} ⦃o : Ord K⦄ where
  get-snapshot_from :
      (t : ℕ) (k : K) (m : BTreeMap K (Entry V)) (s : BTreeMap K V)
      → IsSorted m
      → get k (snapshot_from t m s) ≡ snapshot_entry t (get k m) (get k s)
  unfolding get snapshot_from
  get-snapshot_from t k [] s h = refl
  get-snapshot_from t k ((j, (lat, versions)) ∷ m) s h =
      elim (Option-cases (find_prior_value versions t)) [
        | inl e ↦
            rw (e, snapshot_from)
              (ground (arith, o.same_iff j k, get-Above k m, get-snapshot_from t k m s h.1))
        | inr (v, e) ↦
            rw (e, snapshot_from)
              (ground (
                arith,
                o.same_iff j k,
                get-Above k m,
                get-insert k j v s,
                get-snapshot_from t k m (insert j v s) h.1,
              ))
      ]

  -- A snapshot of a map whose keys are in order holds, for each key, what a read of it sees.
  pub get-static_snapshot_read :
      (m : Mvm K V) (t : ℕ) (k : K)
      → IsSorted m.map
      → get k (static_snapshot_read m t) ≡ static_read m k t
  unfolding static_snapshot_read static_read find_prior_value get
  get-static_snapshot_read m t k h = ground (arith, get-snapshot_from t k m.map [] h)

  fold_lats-le : (n : ℕ) (m : BTreeMap K (Entry V)) → n ≤ fold_lats n m
  unfolding fold_lats
  fold_lats-le n [] = omega arith
  fold_lats-le n ((j, (lat, versions)) ∷ m) = omega (arith, fold_lats-le (max n lat) m)

  lat-le-fold_lats :
      (n : ℕ) (k : K) (m : BTreeMap K (Entry V)) (e : Entry V)
      → get k m ≡ some e
      → e.0 ≤ fold_lats n m
  unfolding fold_lats get
  lat-le-fold_lats n k [] e h = ground arith
  lat-le-fold_lats n k ((j, (lat, versions)) ∷ m) e h =
      ground (arith, fold_lats-le (max n lat) m, lat-le-fold_lats (max n lat) k m e)

  -- No LAT is beyond `get_latest_lat`.
  pub get_lat-le-latest : (m : Mvm K V) (k : K) → get_lat m k ≤ get_latest_lat m
  unfolding get_lat get_latest_lat
  get_lat-le-latest m k = elim (Option-cases (get k m.map)) [
    | inl e ↦ rw (e, get_lat) (fold_lats-le m.min_lat m.map)
    | inr (a, e) ↦ rw (e, get_lat) (lat-le-fold_lats m.min_lat k m.map a e)
  ]
