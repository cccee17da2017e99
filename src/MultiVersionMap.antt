-- ===== src/MultiVersionMap.antt =====
-- src/multiversion_map.rs: the multi-version map `MVM`. A failed `assert!` is `none`; a method that
-- borrows `&mut self` returns the new map beside its result.
pub mod Reads
pub mod History
pub mod Snapshot
use mathlib.Core.List.{reverse}
use r_universal_db.Base.{
  ℕ, max, Option, none, some, List, [], ◌∷◌, ◌++◌, ltb, leb, if◌then◌else◌, is_some, Ord,
}
use r_universal_db.BTreeMap.{BTreeMap, get, insert}

-- `(Timestamp, Option<V>)` and `(Timestamp, Vec<(Timestamp, Option<V>)>)`.
abbrev pub Version {ℓ} : Type ℓ → Type ℓ
Version V = ℕ × Option V

abbrev pub Entry {ℓ} : Type ℓ → Type ℓ
Entry V = ℕ × List (Version V)

pub record Mvm {ℓ} (K V : Type ℓ) : Type ℓ where
  pub min_lat : ℕ
  pub map : BTreeMap K (Entry V)

module _ {ℓ} {V : Type ℓ} where
  -- The loop of `find_prior_version`, over the versions from the last to the first.
  unfoldable pub first_at_most : ℕ → List (Version V) → Option (Version V)
  first_at_most timestamp [] = none
  first_at_most timestamp ((t, v) ∷ versions) =
      if leb t timestamp then some (t, v) else first_at_most timestamp versions

  unfoldable pub find_prior_version : List (Version V) → ℕ → Option (Version V)
  find_prior_version versions timestamp = first_at_most timestamp (reverse versions)

  -- `let (_, value) = o?; value.as_ref()`
  abbrev pub version_value : Option (Version V) → Option V
  version_value none = none
  version_value (some (t, v)) = v

  unfoldable pub find_prior_value : List (Version V) → ℕ → Option V
  find_prior_value versions timestamp = version_value (find_prior_version versions timestamp)

  -- The loop of `get_last_present_version`, over the versions from the last to the first.
  unfoldable pub first_present : List (Version V) → Option V
  first_present [] = none
  first_present ((t, v) ∷ versions) = if is_some v then v else first_present versions

  -- `versions.iter().last()`
  unfoldable pub last_version : List (Version V) → Option (Version V)
  last_version [] = none
  last_version (v ∷ []) = some v
  last_version (v ∷ w ∷ versions) = last_version (w ∷ versions)

module _ {ℓ} {K V : Type ℓ} where
  unfoldable pub new : Mvm K V
  new = record { min_lat = 0; map = [] }

  -- `for (_, (lat, _)) in &mut self.map { *lat = max(lat, timestamp) }`
  unfoldable pub raise_lats : ℕ → BTreeMap K (Entry V) → BTreeMap K (Entry V)
  raise_lats timestamp [] = []
  raise_lats timestamp ((k, (lat, versions)) ∷ m) =
      (k, (max lat timestamp, versions)) ∷ raise_lats timestamp m

  unfoldable pub update_all_lats : Mvm K V → ℕ → Mvm K V
  update_all_lats m timestamp =
      if ltb m.min_lat timestamp
      then record { min_lat = timestamp; map = raise_lats timestamp m.map }
      else m

  unfoldable pub get_min_lat : Mvm K V → ℕ
  get_min_lat m = m.min_lat

  -- The loop of `get_latest_lat`.
  unfoldable pub fold_lats : ℕ → BTreeMap K (Entry V) → ℕ
  fold_lats latest [] = latest
  fold_lats latest ((k, (lat, versions)) ∷ m) = fold_lats (max latest lat) m

  unfoldable pub get_latest_lat : Mvm K V → ℕ
  get_latest_lat m = fold_lats m.min_lat m.map

module _ {ℓ} {K V : Type ℓ} ⦃o : Ord K⦄ where
  -- The loop of `init`, which inserts each value as a version at time 0.
  unfoldable pub init_map : BTreeMap K V → BTreeMap K (Entry V) → BTreeMap K (Entry V)
  init_map [] m = m
  init_map ((k, v) ∷ vals) m = init_map vals (insert k (0, (0, some v) ∷ []) m)

  unfoldable pub init : BTreeMap K V → Mvm K V
  init init_vals = record { min_lat = 0; map = init_map init_vals [] }

  unfoldable pub write : Mvm K V → K → Option V → ℕ → Option (Mvm K V)
  write m key value timestamp = elim (get key m.map) [
    | some (lat, versions) ↦
        if ltb lat timestamp
        then some
            (record m { map = insert key (timestamp, versions ++ (timestamp, value) ∷ []) m.map })
        else none
    | none ↦
        if ltb m.min_lat timestamp
        then some (record m { map = insert key (timestamp, (timestamp, value) ∷ []) m.map })
        else none
  ]

  unfoldable pub read : Mvm K V → K → ℕ → Mvm K V × Option V
  read m key timestamp = elim (get key m.map) [
    | some (lat, versions) ↦ (
      record m { map = insert key (max lat timestamp, versions) m.map },
      find_prior_value versions timestamp,
    )
    | none ↦ (
      if ltb m.min_lat timestamp then record m { map = insert key (timestamp, []) m.map } else m,
      none,
    )
  ]

  unfoldable pub update_lat : Mvm K V → K → ℕ → Mvm K V
  update_lat m key timestamp = elim (get key m.map) [
    | some (lat, versions) ↦ record m { map = insert key (max lat timestamp, versions) m.map }
    | none ↦
        if ltb m.min_lat timestamp then record m { map = insert key (timestamp, []) m.map } else m
  ]

  unfoldable pub strong_static_read : Mvm K V → K → ℕ → Option (Option V)
  strong_static_read m key timestamp = elim (get key m.map) [
    | some (lat, versions) ↦
        if leb timestamp lat then some (find_prior_value versions timestamp) else none
    | none ↦ if leb timestamp m.min_lat then some none else none
  ]

  unfoldable pub get_last_version : Mvm K V → K → Option V
  get_last_version m key = elim (get key m.map) [
    | some (lat, versions) ↦ version_value (last_version versions)
    | none ↦ none
  ]

  unfoldable pub get_last_present_version : Mvm K V → K → Option V
  get_last_present_version m key = elim (get key m.map) [
    | some (lat, versions) ↦ first_present (reverse versions)
    | none ↦ none
  ]

  unfoldable pub static_read_version : Mvm K V → K → ℕ → Option (Version V)
  static_read_version m key timestamp = elim (get key m.map) [
    | some (lat, versions) ↦ find_prior_version versions timestamp
    | none ↦ none
  ]

  unfoldable pub static_read : Mvm K V → K → ℕ → Option V
  unfolding static_read_version
  static_read m key timestamp = version_value (static_read_version m key timestamp)

  -- The loop of `static_snapshot_read`.
  unfoldable pub snapshot_from : ℕ → BTreeMap K (Entry V) → BTreeMap K V → BTreeMap K V
  snapshot_from timestamp [] snapshot = snapshot
  snapshot_from timestamp ((k, (lat, versions)) ∷ m) snapshot =
      snapshot_from timestamp m (elim (find_prior_value versions timestamp) [
        | some value ↦ insert k value snapshot
        | none ↦ snapshot
      ])

  unfoldable pub static_snapshot_read : Mvm K V → ℕ → BTreeMap K V
  static_snapshot_read m timestamp = snapshot_from timestamp m.map []

  unfoldable pub get_lat : Mvm K V → K → ℕ
  get_lat m key = elim (get key m.map) [ some (lat, versions) ↦ lat | none ↦ m.min_lat ]
