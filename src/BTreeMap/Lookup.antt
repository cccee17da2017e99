-- ===== src/BTreeMap/Lookup.antt =====
-- What a lookup reads after a map operation: no law needs the keys to be in order.
use r_universal_db.Base.{◌≡◌, refl, none, some, [], ◌∷◌, if◌then◌else◌, Ord, ◌==◌, arith}
use r_universal_db.BTreeMap.{BTreeMap, get, insert, remove}

module _ {ℓ κ} {K : Type ℓ} {V : Type κ} ⦃o : Ord K⦄ where
  pub get-insert :
      (j k : K) (v : V) (m : BTreeMap K V)
      → get j (insert k v m) ≡ (if k == j then some v else get j m)
  unfolding get insert
  get-insert j k v [] = refl
  get-insert j k v ((i, w) ∷ m) =
      ground (arith, o.same_iff k j, o.same_iff i k, o.same_iff i j, get-insert j k v m)

  pub get-remove :
      (j k : K) (m : BTreeMap K V) → get j (remove k m) ≡ (if k == j then none else get j m)
  unfolding get remove
  get-remove j k [] = ground arith
  get-remove j k ((i, w) ∷ m) =
      ground (arith, o.same_iff k j, o.same_iff i k, o.same_iff i j, get-remove j k m)
