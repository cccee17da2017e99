-- ===== src/MultiVersionMap/Reads.antt =====
-- What the reads of an `MVM` see after each of its operations, and the bounds of its LATs.
use mathlib.Core.List.{reverse-append}
use r_universal_db.Base.{
  ℕ, ◌≤◌, ◌<◌, max, ◌≡◌, refl, ◌↔◌, ◌⊎◌, Option, none, some, List, [], ◌∷◌, ◌++◌, leb,
  if◌then◌else◌, Ord, ◌==◌, ◌&&◌, arith,
}
use r_universal_db.BTreeMap.{BTreeMap, get}
use r_universal_db.BTreeMap.Lookup.{get-insert}
use r_universal_db.MultiVersionMap.{
  Mvm, Entry, Version, first_at_most, find_prior_version, find_prior_value, write, read, update_lat,
  update_all_lats, raise_lats, strong_static_read, static_read, get_lat,
}

module _ {ℓ} {V : Type ℓ} where
  find_prior_version-push :
      (versions : List (Version V)) (t at : ℕ) (v : Option V)
      → find_prior_version (versions ++ (at, v) ∷ []) t
        ≡ (if leb at t then some (at, v) else find_prior_version versions t)
  unfolding find_prior_version first_at_most
  find_prior_version-push versions t at v = rw (reverse-append versions ((at, v) ∷ [])) refl

  find_prior_version-nil : (t : ℕ) → find_prior_version {V = V} [] t ≡ none
  unfolding find_prior_version first_at_most
  find_prior_version-nil t = refl

  find_prior_version-one :
      (t at : ℕ) (v : Option V)
      → find_prior_version ((at, v) ∷ []) t ≡ (if leb at t then some (at, v) else none)
  unfolding find_prior_version first_at_most
  find_prior_version-one t at v = refl

module _ {ℓ} {K V : Type ℓ} ⦃o : Ord K⦄ where
  pub get-raise_lats :
      (k : K) (t : ℕ) (m : BTreeMap K (Entry V))
      → get k (raise_lats t m)
        ≡ (elim (get k m) [ none ↦ none | some (lat, versions) ↦ some (max lat t, versions) ])
  unfolding get raise_lats
  get-raise_lats k t [] = refl
  get-raise_lats k t ((j, e) ∷ m) = ground (arith, get-raise_lats k t m)

  -- A write goes through exactly if its timestamp is beyond the LAT of the key.
  pub write-eq-none_iff :
      (m : Mvm K V) (k : K) (v : Option V) (at : ℕ) → (write m k v at ≡ none) ↔ (at ≤ get_lat m k)
  unfolding write get_lat
  write-eq-none_iff m k v at = ground arith

  -- After a write, its key reads as the value from the timestamp on, and nothing else changes.
  pub static_read-write :
      (m m' : Mvm K V) (k j : K) (v : Option V) (at t : ℕ)
      → write m k v at ≡ some m'
      → static_read m' j t ≡ (if (k == j) && leb at t then v else static_read m j t)
  unfolding write static_read
  static_read-write m m' k j v at t h = grind (
    arith,
    o.same_iff k j,
    get-insert,
    find_prior_version-push {V = V},
    find_prior_version-one {V = V},
  )

  pub get_lat-write :
      (m m' : Mvm K V) (k j : K) (v : Option V) (at : ℕ)
      → write m k v at ≡ some m'
      → (get_lat m' j ≡ (if k == j then at else get_lat m j)) × (get_lat m k < at)
  unfolding write get_lat
  get_lat-write m m' k j v at h =
      (grind (arith, o.same_iff k j, get-insert), grind (arith, o.same_iff k j))

  -- A read returns the value at its timestamp, raises the LAT of its key to it, and changes no
  -- value that any read sees.
  pub read_lem :
      (m : Mvm K V) (k j : K) (at t : ℕ)
      → ((read m k at).1 ≡ static_read m k at)
        × (static_read (read m k at).0 j t ≡ static_read m j t)
        × (get_lat (read m k at).0 j ≡ (if k == j then max (get_lat m j) at else get_lat m j))
  unfolding read static_read get_lat find_prior_value
  read_lem m k j at t = (
    ground arith,
    grind (arith, o.same_iff k j, get-insert, find_prior_version-nil {V = V}),
    grind (arith, o.same_iff k j, get-insert),
  )

  -- The same for the calls that only raise LATs.
  pub update_lat_lem :
      (m : Mvm K V) (k j : K) (at t : ℕ)
      → (static_read (update_lat m k at) j t ≡ static_read m j t)
        × (get_lat (update_lat m k at) j ≡ (if k == j then max (get_lat m j) at else get_lat m j))
  unfolding update_lat static_read get_lat
  update_lat_lem m k j at t = (
    grind (arith, o.same_iff k j, get-insert, find_prior_version-nil {V = V}),
    grind (arith, o.same_iff k j, get-insert),
  )

  pub update_all_lats_lem :
      (m : Mvm K V) (j : K) (at t : ℕ)
      → (static_read (update_all_lats m at) j t ≡ static_read m j t)
        × (get_lat m j ≤ get_lat (update_all_lats m at) j)
        × (at ≤ get_lat (update_all_lats m at) j ⊎ (at ≤ m.min_lat))
  unfolding update_all_lats static_read get_lat
  update_all_lats_lem m j at t = ground (arith, get-raise_lats j at m.map)

  -- The checked read fails exactly beyond the LAT, and otherwise agrees with the unchecked one.
  pub strong_static_read_lem :
      (m : Mvm K V) (k : K) (t : ℕ)
      → strong_static_read m k t ≡ (if leb t (get_lat m k) then some (static_read m k t) else none)
  unfolding strong_static_read static_read get_lat find_prior_value
  strong_static_read_lem m k t = ground arith
