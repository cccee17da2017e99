-- ===== src/BTreeMap/Sorted.antt =====
-- The keys of a `BTreeMap` rise along its entries, and the map operations keep that.
use r_universal_db.Base.{◌≡◌, refl, true, none, [], ◌∷◌, Ord, ◌≺◌, arith}
use r_universal_db.BTreeMap.{BTreeMap, get, insert, remove}

module _ {ℓ κ} {K : Type ℓ} {V : Type κ} ⦃o : Ord K⦄ where
  -- Every key of the map is beyond `k`.
  abbrev pub Above : K → BTreeMap K V → Type 0
  Above k [] = Unit {0}
  Above k ((j, w) ∷ m) = (k ≺ j ≡ true) × Above k m

  abbrev pub IsSorted : BTreeMap K V → Type 0
  IsSorted [] = Unit {0}
  IsSorted ((k, v) ∷ m) = Above k m × IsSorted m

  pub get-Above : (k : K) (m : BTreeMap K V) → Above k m → get k m ≡ none
  unfolding get
  get-Above k [] h = refl
  get-Above k ((j, w) ∷ m) h = ground (arith, o.same_iff j k, o.before_irrefl k, get-Above k m)

  pub Above-trans : (j k : K) (m : BTreeMap K V) → j ≺ k ≡ true → Above k m → Above j m
  Above-trans j k [] h a = tt
  Above-trans j k ((i, w) ∷ m) h a = (o.before_trans j k i h a.0, Above-trans j k m h a.1)

  Above-insert :
      (i k : K) (v : V) (m : BTreeMap K V) → i ≺ k ≡ true → Above i m → Above i (insert k v m)
  unfolding insert
  Above-insert i k v [] h a = (h, tt)
  Above-insert i k v ((j, w) ∷ m) h a = ground (arith, Above-insert i k v m)

  pub insert-IsSorted : (k : K) (v : V) (m : BTreeMap K V) → IsSorted m → IsSorted (insert k v m)
  unfolding insert
  insert-IsSorted k v [] s = (tt, tt)
  insert-IsSorted k v ((j, w) ∷ m) s = ground (
    arith,
    o.same_iff j k,
    o.before_total k j,
    o.same_iff k j,
    Above-trans k j m,
    Above-insert j k v m,
    insert-IsSorted k v m,
  )

  Above-remove : (i k : K) (m : BTreeMap K V) → Above i m → Above i (remove k m)
  unfolding remove
  Above-remove i k [] a = tt
  Above-remove i k ((j, w) ∷ m) a = ground (arith, Above-remove i k m)

  pub remove-IsSorted : (k : K) (m : BTreeMap K V) → IsSorted m → IsSorted (remove k m)
  unfolding remove
  remove-IsSorted k [] s = tt
  remove-IsSorted k ((j, w) ∷ m) s = ground (arith, Above-remove j k m, remove-IsSorted k m)
