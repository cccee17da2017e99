-- ===== src/Tests/Versions.antt =====
-- The theorems on `MVM` at the map of the unit test of src/multiversion_map.rs, and that test.
use r_universal_db.Base.{ℕ, ◌≤◌, ◌≡◌, refl, ◌↔◌, none, some, [], ◌∷◌, nat_ord, arith}
use r_universal_db.BTreeMap.{get, insert}
use r_universal_db.MultiVersionMap.{
  Mvm, new, write, read, static_read, get_lat, static_snapshot_read, strong_static_read,
  find_prior_value, find_prior_version, first_at_most, get_latest_lat,
}
use r_universal_db.MultiVersionMap.Reads.{
  write-eq-none_iff, static_read-write, strong_static_read_lem,
}
use r_universal_db.MultiVersionMap.History.{writes, reads, run, step, static_read-run, read-run}
use r_universal_db.MultiVersionMap.Snapshot.{get-static_snapshot_read, get_lat-le-latest}

-- One key with a value from 2 on and another from 4 on, read at 5.
abbrev two_versions : Mvm ℕ ℕ
two_versions = record { min_lat = 0; map = (7, (5, (2, some 21) ∷ (4, some 22) ∷ [])) ∷ [] }

abbrev after_write : Mvm ℕ ℕ
after_write = record {
  min_lat = 0;
  map = (7, (6, (2, some 21) ∷ (4, some 22) ∷ (6, none) ∷ [])) ∷ [];
}

single_key_test :
    run {K = ℕ} {V = ℕ} new
      (reads 7 1 ∷ writes 7 (some 21) 2 ∷ writes 7 (some 22) 4 ∷ reads 7 3 ∷ reads 7 5 ∷ [])
    ≡ some two_versions
unfolding run step new read write get insert
single_key_test = refl

single_key_reads : ((read two_versions 7 3).1 ≡ some 21) × ((read two_versions 7 5).1 ≡ some 22)
unfolding read get find_prior_value find_prior_version first_at_most
single_key_reads = (refl, refl)

write-eq-none_iff_example : (write two_versions 7 (some 23) 5 ≡ none) ↔ (5 ≤ get_lat two_versions 7)
write-eq-none_iff_example = write-eq-none_iff two_versions 7 (some 23) 5

static_read-write_example : static_read after_write 7 8 ≡ none
unfolding write get insert
static_read-write_example = static_read-write two_versions after_write 7 7 none 6 8 refl

strong_static_read_example :
    strong_static_read two_versions 7 5 ≡ some (static_read two_versions 7 5)
unfolding get_lat get
strong_static_read_example = strong_static_read_lem two_versions 7 5

static_read-run_example : static_read after_write 7 3 ≡ static_read two_versions 7 3
unfolding run step write get insert get_lat
static_read-run_example =
    static_read-run two_versions after_write (writes 7 none 6 ∷ []) 7 3 refl (omega arith)

read-run_example : (read after_write 7 3).1 ≡ (read two_versions 7 3).1
unfolding run step read write get insert
read-run_example = read-run two_versions after_write (writes 7 none 6 ∷ []) 7 3 refl

get-static_snapshot_read_example :
    get 7 (static_snapshot_read two_versions 4) ≡ static_read two_versions 7 4
get-static_snapshot_read_example = get-static_snapshot_read two_versions 4 7 (tt, tt)

get_lat-le-latest_example : get_lat two_versions 7 ≤ get_latest_lat two_versions
get_lat-le-latest_example = get_lat-le-latest two_versions 7
